-- ===== src/Lib.antt =====
-- Webcam Direct Linux: a mobile phone as a webcam of a Linux host.
--
-- The phone talks to the host over BLE. GATT clients (src/ble/clients) turn characteristic reads and
-- writes into requests; one server task (src/ble/server) answers them in order. Data longer than a
-- packet goes in chunks, and a buffer map keeps the place of each transfer. The host's own record and
-- the registered phones lie in a store (src/app_data). Beside it the host runs an access point
-- (src/access_point_ctl): a wireless link, hostapd, and dnsmasq.
--
-- Prelude: texts and bytes as lists of codes, results (an error, or a panic where the overflow checks
--   of the build fire), actions on a state that may fail; HashMap: std's map by get, insert, remove.
-- AppData: src/app_data/mod.rs (AppData), schemas.rs (AppData.Schemas), kv_db.rs (AppData.KvDb).
-- Ble.Api, Ble.CommTypes: src/ble/api.rs and comm_types.rs, the requests and the messages.
-- Ble.Buffer: src/ble/server/mobile_buffer.rs, MobileBufferMap; get_next_data_chunk and
--   get_complete_buffer are functions of the map that return the new one. Ble.Buffer.Abstract is the
--   table that it stands for.
-- Ble.Requester: src/ble/requester.rs, BlePublisher and BleSubscriber; Ble.Requester.Requests is
--   BleRequester and the task of BleServer::new, which a panic ends, with one client at a time.
--   Ble.Requester.Queue has the tasks of all clients and the server's, as a step relation over the
--   channel between them, with the calls that a select! gives up; Order, Outcomes, Matched and Waiting
--   are about its runs, Receiving about a subscriber.
-- Ble.Server: src/ble/server/mod.rs, BleServerCommHandler; handle_comm takes a request to its answer
--   and the next state, and Ble.Server.Serving has lists of requests at the handler and at the task,
--   which a panic ends. In Download and Upload a mobile transfers data at the handler while others send
--   requests, and in DownloadAmong and UploadAmong at the task; its calls are in Rounds and Sends, and what the others leave
--   it in Kept and Frames. Its service is Ble.MobileComm,
--   src/ble/server/mobile_comm.rs, and Ble.Session is a call through both. Ble.Exchange is a call
--   from the characteristic that a mobile writes and reads.
-- Ble.Clients: src/ble/clients; provisioner.rs is Provisioner, sdp_exchanger.rs SdpExchanger, with
--   the writing half that they share in WriteStream and their starts in Advertising, and
--   mobile_prop.rs is MobileProp.
-- AccessPoint: src/access_point_ctl/mod.rs, ApController; IpRange and Dhcp are dhcp_server/,
--   Process is process_hdl.rs, FileHdl, Hostapd, WpaCtl and WifiManager are wifi_manager/, and
--   IwLink is iw_link/mod.rs, Nl80211 is iw_link/wdev_drv/nl80211_drv, and Setup is
--   setup_access_point of src/main.rs, in Setup.Broadcasting with the Wi-Fi manager's parts in one
--   world; Launching, Connecting and OnAir are about those.
-- VDevices: src/vdevice_builder; Building is VDeviceBuilder::create_from of mod.rs, the devices of
--   an offer, each of which may never be made;
--   Modules is system_utils.rs with VDeviceBuilder::new and its drop, Device is vdevice.rs, and
--   Pipeline is webrtc_pipeline.rs, its callbacks in Pipeline.Callbacks.
-- Main: src/main.rs, main up to the start of the tasks; Main.Program has the server and the clients that
--   it starts, and Main.Registration is a registration through all parts.
-- Examples: the theorems at concrete data, and the unit tests of the sources: those of
--   src/ble/server/mobile_buffer.rs are Examples.Buffering and Gathering, and those of
--   src/access_point_ctl are Linking (dhcp_server), Controlling (iw_link), Managing (mod.rs,
--   wifi_manager/mod.rs) and Launching (process_hdl.rs, hostapd_proc.rs); those of
--   src/app_data/mod.rs are Provisioning.
--
-- What is not in the repository is a parameter: the encodings (rmp_serde, bincode, JSON) as codecs,
-- sled, tokio's channels, bluer's events, the wpactrl client, processes, files, netlink
-- (neli), GStreamer and Video4Linux. A theorem that relies on one of them has its documented
-- behaviour as a hypothesis: ReadsBack and AlwaysWrites for an encoding, IsTreeMap for sled, IsFiles for files,
-- IsLive and IsHeard for a broadcast channel with a listener, IsFifo for the mailbox. Tasks that wait for events are functions of the list of events, in the order in which they come.
--
-- Bounds and fuel: read_all makes at most the rounds that it is given, and one more than the length of
-- the data is enough (each chunk has a byte or is the last); chunks has the length of the buffer as
-- fuel, and each piece takes a byte; connect_tries counts down the source's five tries. Lengths are
-- natural numbers with the checks of usize written out (checked_add, checked_sub, 2 ^ 64).
--
-- Not modelled: the callback of an appsink that is not in the pipeline, logging, main's end at Ctrl-C
-- with the drop of the server that it brings, and what a panic leaves behind, since it ends the task
-- that owns the state. The service (Ble.MobileComm) takes a builder of devices that returns, to which a
-- device is its answer, and whose interface says what the drop of devices does to the outside;
-- VDevices.Building is the builder that may wait for ever, and the drops themselves are in
-- VDevices.Device and VDevices.Pipeline.
pub mod Prelude
pub mod HashMap
pub mod AppData
pub mod Ble
pub mod VDevices
pub mod AccessPoint
pub mod Main
pub mod Examples
