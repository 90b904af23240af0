-- ===== src/Examples/Serving.antt =====
-- Requests to the server, over a service that answers one call with fixed data.
use webcam_direct_linux.Prelude.{
  ◌≡◌, refl, arith, Bytes, codes, List, [], ◌∷◌, none, some, ok, anyhow, list_key, number_key,
}
use webcam_direct_linux.HashMap.{insert, get}
use webcam_direct_linux.Ble.Api
use webcam_direct_linux.Ble.Api.{
  Address, mobile_disconnected, sdp_offer, host_info, sdp_answer, sdp_answer_ready, QueryReq,
  CommandReq, SubReq, BleComm, topic_key, cmd_key, query_key, max_buffer_len,
}
use webcam_direct_linux.Ble.Buffer
use webcam_direct_linux.Ble.Buffer.{
  get_next_data_chunk, cut_chunk, close_reader, set_cursors, get_complete_buffer, collect_chunk,
  get_cursors, set_cursors, reader_at, writer_at,
}
use webcam_direct_linux.Ble.Requester.{BlePublisher}
use webcam_direct_linux.Ble.Server.Service.{CommDataService, Codecs}
use webcam_direct_linux.Ble.Server.{
  System, BleServerCommHandler, new, overhead, fetch, fetch_host_info, handle_query, handle_command,
  handle_comm,
}
use webcam_direct_linux.Ble.Server.Cache.{cached}
use webcam_direct_linux.Ble.Server.Serving.{handle_all, after_requests, handle_query-handle_all}
use webcam_direct_linux.Ble.Server.Held.{IsInStep}
use webcam_direct_linux.Ble.Server.InStep.{new-IsInStep, handle_comm-IsInStep}
use webcam_direct_linux.Ble.Server.Commands.{handle_command-disconnect, fetch-stale}
use webcam_direct_linux.Examples.World.{chunk_codec, no_codec, log_bus}

abbrev pub mobile_a : Address
mobile_a = codes "a"

abbrev pub codecs : Codecs
codecs = record {
  data_chunk = chunk_codec;
  host_prov_info = record { ser = λ i. ok i.name; des = λ b. anyhow "unreadable" };
  mobile_schema = no_codec;
  mobile_sdp_offer = no_codec;
  mobile_sdp_answer = no_codec;
  sdp_answer_ready = no_codec;
}

abbrev pub echo_service : CommDataService (List Bytes) (Unit {0})
echo_service = record {
  register_mobile = λ addr m s. (ok tt, s);
  get_host_info =
      λ addr s. (ok (record { id = []; name = codes "host"; connection_type = codes "AP" }), s);
  set_mobile_sdp_offer = λ addr o s. (ok tt, s);
  sub_to_ready_answer = λ addr p s. (ok tt, s);
  get_sdp_answer = λ addr s. (ok (record { camera_answer = [] }), s);
  mobile_disconnected = λ addr s. (ok tt, addr ∷ s);
}

abbrev start_system : System (List Bytes) (Unit {0})
start_system = record { handler = new chunk_codec; outside = [] }

abbrev ask_host : QueryReq
ask_host = record { query_type = host_info; resp_buffer_len = 3 }

handle_comm-IsInStep_example :
    IsInStep
      (handle_comm echo_service log_bus codecs
        (record { addr = mobile_a; comm_api = Api.query ask_host })
        start_system).1.handler
handle_comm-IsInStep_example =
    handle_comm-IsInStep echo_service log_bus codecs
      (record { addr = mobile_a; comm_api = Api.query ask_host }) start_system
      (new-IsInStep chunk_codec)

-- A server that was just made, written out.
abbrev pub fresh : BleServerCommHandler (Unit {0})
fresh = record {
  buffer_map = record { mobile_buffer_status = []; chunk_len = 1 };
  server_data_cache = record { host_info = none; sdp_answer = [] };
  pubsub_topics_map = [];
  chunk_len = 1;
}

abbrev pub system : System (List Bytes) (Unit {0})
system = record { handler = fresh; outside = [] }

-- The server in the middle of a call with mobile a.
abbrev pub in_call : System (List Bytes) (Unit {0})
in_call = record {
  handler = record {
    buffer_map = record {
      mobile_buffer_status = (mobile_a, record { writer = []; reader = (sdp_answer, 1) ∷ [] }) ∷ [];
      chunk_len = 1;
    };
    server_data_cache = record {
      host_info = none;
      sdp_answer = (mobile_a, some (7 ∷ 8 ∷ [])) ∷ [];
    };
    pubsub_topics_map = (sdp_answer_ready, record { publisher_tx = tt; resp_buffer_len = 20 }) ∷ [];
    chunk_len = 1;
  };
  outside = [];
}

-- A disconnection whose one chunk is empty.
abbrev leave : CommandReq
leave = record { cmd_type = mobile_disconnected; payload = 0 ∷ [] }

leave_complete :
    (get_complete_buffer chunk_codec mobile_a leave in_call.handler.buffer_map).0 ≡ ok (some [])
unfolding get_complete_buffer collect_chunk get_cursors get
leave_complete = refl

handle_command-disconnect_example :
    let (r, t) = handle_command echo_service log_bus codecs mobile_a leave in_call in
    (r ≡ ok tt)
    × (t.outside ≡ mobile_a ∷ [])
    × (reader_at t.handler.buffer_map mobile_a sdp_answer ≡ none)
    × (writer_at t.handler.buffer_map mobile_a sdp_offer ≡ none)
    × (cached t.handler.server_data_cache mobile_a sdp_answer ≡ none)
    × (t.handler.server_data_cache.host_info ≡ none)
handle_command-disconnect_example =
    handle_command-disconnect echo_service log_bus codecs mobile_a leave [] in_call mobile_a
      sdp_answer sdp_offer refl leave_complete

abbrev offer_part : CommandReq
offer_part = record { cmd_type = sdp_offer; payload = 4 ∷ 1 ∷ [] }

answer_held : get in_call.handler.server_data_cache.sdp_answer mobile_a ≡ some (some (7 ∷ 8 ∷ []))
unfolding get
answer_held = refl

fetch-stale_example :
    let t = (handle_command echo_service log_bus codecs mobile_a offer_part in_call).1 in
    fetch echo_service log_bus codecs sdp_answer mobile_a t ≡ (ok (7 ∷ 8 ∷ []), t)
fetch-stale_example =
    fetch-stale echo_service log_bus codecs mobile_a offer_part (7 ∷ 8 ∷ []) in_call refl
      answer_held

abbrev pub by_two : BlePublisher (Unit {0})
by_two = record { publisher_tx = tt; resp_buffer_len = 2 }

abbrev asked : List BleComm
asked = record { addr = mobile_a; comm_api = Api.query ask_host } ∷ []

host_at_hand :
    (fetch echo_service log_bus codecs host_info mobile_a
      (after_requests echo_service log_bus codecs asked [])).0
    ≡ ok (codes "host")
unfolding handle_all handle_comm handle_query fetch fetch_host_info new overhead Buffer.new
    get_next_data_chunk cut_chunk close_reader get_cursors set_cursors get insert
host_at_hand = refl

-- The second chunk of the host's name.
handle_query-handle_all_example :
    (handle_query echo_service log_bus codecs mobile_a ask_host
      (after_requests echo_service log_bus codecs asked [])).0
    ≡ ok (0 ∷ codes "st")
unfolding handle_all handle_comm handle_query fetch fetch_host_info new overhead Buffer.new
    get_next_data_chunk cut_chunk close_reader get_cursors set_cursors get insert reader_at
handle_query-handle_all_example =
    handle_query-handle_all echo_service log_bus codecs asked [] mobile_a ask_host (codes "host")
      host_at_hand (omega arith)
