-- ===== src/Ble/Server.antt =====
-- src/ble/server/mod.rs: the task that answers the requests of the GATT clients, one at a time.
-- `S` is the state of everything outside the handler: the service behind `CommDataService` and
-- the broadcast channels. Both are interfaces, and so are the codecs of the messages.
pub mod Service
pub mod Cache
pub mod Held
pub mod InStep
pub mod Serving
pub mod Frames
pub mod Kept
pub mod Download
pub mod Rounds
pub mod Upload
pub mod DownloadAmong
pub mod UploadAmong
pub mod Sends
pub mod Commands
use webcam_direct_linux.Prelude.{
  ℕ, ◌-◌, Text, Bytes, Option, none, some, List, [], length, get_or, Result, ok, err, panic, anyhow,
  ok_or, checked_sub, Exec, lift, pure, on, ◌>>=◌, ◌>>◌, list_key, number_key,
}
use webcam_direct_linux.HashMap.{HashMap, get, insert, remove}
use webcam_direct_linux.AppData.Schemas.{MobileSchema}
use webcam_direct_linux.Ble.Api
use webcam_direct_linux.Ble.Api.{
  Address, CommBuffer, CmdApi, mobile_disconnected, register_mobile, sdp_offer, QueryApi, host_info,
  sdp_answer, PubSubTopic, sdp_answer_ready, QueryReq, CommandReq, SubReq, PubReq, BleApi, BleComm,
  max_buffer_len, topic_key,
}
use webcam_direct_linux.Ble.CommTypes.{
  DataChunk, HostProvInfo, MobileSdpOffer, MobileSdpAnswer, SdpAnswerReady, Codec,
}
use webcam_direct_linux.Ble.Buffer
use webcam_direct_linux.Ble.Buffer.{MobileBufferMap, get_next_data_chunk, get_complete_buffer}
use webcam_direct_linux.Ble.Requester
use webcam_direct_linux.Ble.Requester.{Broadcast, BlePublisher}
use Service.{CommDataService, Codecs}

pub record ServerDataCache : Type 0 where
  pub host_info : Option Bytes
  pub sdp_answer : HashMap Address (Option Bytes)

pub record BleServerCommHandler (Tx : Type 0) : Type 0 where
  pub buffer_map : MobileBufferMap
  pub server_data_cache : ServerDataCache
  pub pubsub_topics_map : HashMap PubSubTopic (BlePublisher Tx)
  pub chunk_len : ℕ

pub record System (S Tx : Type 0) : Type 0 where
  pub handler : BleServerCommHandler Tx
  pub outside : S

-- The answer that goes back over the request's oneshot channel.
pub data Reply (Rx : Type 0) : Type 0 where
  query_resp : Result CommBuffer → Reply Rx
  command_resp : Result (Unit {0}) → Reply Rx
  sub_resp : Result Rx → Reply Rx
  pub_resp : Result (Unit {0}) → Reply Rx

-- The length of an encoded empty chunk; no length at all if it cannot be encoded.
unfoldable pub overhead : Codec DataChunk → ℕ
overhead codec = elim (codec.ser (record { r = max_buffer_len; d = [] })) [
  | ok chunk ↦ length chunk
  | err e ↦ 0
  | panic ↦ 0
]

unfoldable pub new : {Tx : Type 0} → Codec DataChunk → BleServerCommHandler Tx
new codec = record {
  buffer_map = Buffer.new (overhead codec);
  server_data_cache = record { host_info = none; sdp_answer = [] };
  pubsub_topics_map = [];
  chunk_len = overhead codec;
}

module _ {S Tx Rx : Type 0} (service : CommDataService S Tx) (bus : Broadcast S Tx Rx)
    (codecs : Codecs) where
  -- Actions of the handler's own parts and of what is outside.
  abbrev pub outside {ℓ} : {A : Type ℓ} → Exec S A → Exec (System S Tx) A
  outside = on (λ s. s.outside) (λ t s. record s { outside = t })

  abbrev pub buffers {ℓ} : {A : Type ℓ} → Exec MobileBufferMap A → Exec (System S Tx) A
  buffers =
      on (λ s. s.handler.buffer_map)
        (λ t s. record s { handler = record s.handler { buffer_map = t } })

  abbrev pub set_cache : (ServerDataCache → ServerDataCache) → Exec (System S Tx) (Unit {0})
  set_cache f s = (
    ok tt,
    record s { handler = record s.handler { server_data_cache = f s.handler.server_data_cache } },
  )

  abbrev pub cache_of : System S Tx → ServerDataCache
  cache_of s = s.handler.server_data_cache

  -- The two branches of the `match` in `handle_query`: what the cache has, or else what the service
  -- gives, which is put into the cache first.
  unfoldable pub fetch_host_info : Address → Exec (System S Tx) Bytes
  fetch_host_info addr s = elim (cache_of s).host_info [
    | some held ↦ (ok held, s)
    | none ↦
        (do
          info ← outside (service.get_host_info addr)
          encoded ← lift (codecs.host_prov_info.ser info)
          set_cache (λ c. record c { host_info = some encoded })
          (λ t. (ok_or (cache_of t).host_info "Host info not found", t)))
          s
  ]

  -- The entry of the address, which ought to hold an answer.
  abbrev pub held_answer : Option (Option Bytes) → Result Bytes
  held_answer none = anyhow "SDP answer not found"
  held_answer (some entry) = ok_or entry "SDP answer not found"

  unfoldable pub fetch_sdp_answer : Address → Exec (System S Tx) Bytes
  fetch_sdp_answer addr s = elim (get (cache_of s).sdp_answer addr) [
    | some entry ↦ (held_answer (some entry), s)
    | none ↦
        (do
          answer ← outside (service.get_sdp_answer addr)
          encoded ← lift (codecs.mobile_sdp_answer.ser answer)
          set_cache (λ c. record c { sdp_answer = insert c.sdp_answer addr (some encoded) })
          (λ t. (held_answer (get (cache_of t).sdp_answer addr), t)))
          s
  ]

  unfoldable pub fetch : QueryApi → Address → Exec (System S Tx) Bytes
  fetch host_info addr = fetch_host_info addr
  fetch sdp_answer addr = fetch_sdp_answer addr

  unfoldable pub handle_query : Address → QueryReq → Exec (System S Tx) CommBuffer
  handle_query addr query = do
    bytes ← fetch query.query_type addr
    buffers (get_next_data_chunk codecs.data_chunk addr query bytes)

  -- What a complete command does.
  unfoldable pub dispatch : CmdApi → Address → CommBuffer → Exec (System S Tx) (Unit {0})
  dispatch mobile_disconnected addr buffer = do
    buffers {A = Unit {0}} (λ m. (ok tt, Buffer.remove_mobile addr m))
    set_cache (λ c. record c { sdp_answer = remove c.sdp_answer addr })
    outside (service.mobile_disconnected addr)
  dispatch register_mobile addr buffer = do
    mobile ← lift (codecs.mobile_schema.des buffer)
    outside (service.register_mobile addr mobile)
  dispatch sdp_offer addr buffer = do
    mobile_offer ← lift (codecs.mobile_sdp_offer.des buffer)
    outside (service.set_mobile_sdp_offer addr mobile_offer)

  unfoldable pub handle_command : Address → CommandReq → Exec (System S Tx) (Unit {0})
  handle_command addr cmd = do
    complete ← buffers (get_complete_buffer codecs.data_chunk addr cmd)
    elim complete [ none ↦ pure tt | some buffer ↦ dispatch cmd.cmd_type addr buffer ]

  abbrev pub set_publisher : PubSubTopic → BlePublisher Tx → Exec (System S Tx) (Unit {0})
  set_publisher topic p s = (
    ok tt,
    record s {
      handler = record s.handler { pubsub_topics_map = insert s.handler.pubsub_topics_map topic p };
    },
  )

  -- The argument of `or_insert` is computed also where the topic has a publisher already.
  unfoldable pub handle_sub : Address → SubReq → Exec (System S Tx) Rx
  handle_sub addr sub s =
      (do
        len ← lift (checked_sub sub.resp_buffer_len s.handler.chunk_len)
        fresh ← outside (Requester.new_publisher bus len)
        let publisher = get_or (get s.handler.pubsub_topics_map sub.topic) fresh
        set_publisher sub.topic publisher
        outside (service.sub_to_ready_answer addr publisher)
        outside (Requester.get_subscriber bus publisher))
        s

  unfoldable pub handle_pub : Address → PubReq → Exec (System S Tx) (Unit {0})
  handle_pub addr req s = elim (get s.handler.pubsub_topics_map req.topic) [
    | none ↦ (anyhow "PubSub topic not found", s)
    | some publisher ↦ outside (Requester.publish bus codecs.data_chunk publisher req.payload) s
  ]

  unfoldable pub handle_comm : BleComm → System S Tx → Reply Rx × System S Tx
  handle_comm comm s = elim comm.comm_api [
    | Api.query req ↦ let (r, t) = handle_query comm.addr req s in (query_resp r, t)
    | Api.command req ↦ let (r, t) = handle_command comm.addr req s in (command_resp r, t)
    | Api.sub req ↦ let (r, t) = handle_sub comm.addr req s in (sub_resp r, t)
    | Api.publish req ↦ let (r, t) = handle_pub comm.addr req s in (pub_resp r, t)
  ]
