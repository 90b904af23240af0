-- ===== src/Examples/Sessions.antt =====
-- Two mobiles at the server: what one transfers while the other asks for something.
use webcam_direct_linux.Prelude.{
  length, ap, ◌≡◌, ◌≢◌, refl, arith, Bytes, codes, List, [], ◌∷◌, ◌++◌, none, some, ok, anyhow,
  list_key, number_key,
}
use webcam_direct_linux.HashMap.{get, insert}
use webcam_direct_linux.Ble.Api
use webcam_direct_linux.Ble.Api.{Address, sdp_offer, host_info, sdp_answer, QueryReq, BleComm}
use webcam_direct_linux.Ble.CommTypes.{DataChunk}
use webcam_direct_linux.Ble.Buffer.{
  reader_at, writer_at, get_cursors, set_cursors, get_next_data_chunk, cut_chunk, close_reader,
}
use webcam_direct_linux.Ble.Buffer.Reader.{payloads}
use webcam_direct_linux.Ble.Buffer.ReadAll.{IsTransfer}
use webcam_direct_linux.Ble.Buffer.Writer.{collected}
use webcam_direct_linux.Ble.Server.Service.{Codecs}
use webcam_direct_linux.Ble.Server.{
  System, dispatch, handle_comm, handle_query, fetch, fetch_host_info, fetch_sdp_answer,
}
use webcam_direct_linux.Ble.Server.Cache.{cached}
use webcam_direct_linux.Ble.Server.Frames.{handle_comm-Keeps}
use webcam_direct_linux.Ble.Server.Kept.{Keeps}
use webcam_direct_linux.Ble.Server.Serving.{running, handle_all}
use webcam_direct_linux.Ble.Server.DownloadAmong.{
  download_among, QuietRounds, download_among_complete,
}
use webcam_direct_linux.Ble.Server.UploadAmong.{
  upload_among, QuietSends, told, upload_among-dispatch,
}
use webcam_direct_linux.Ble.Server.Sends.{Sends, after_sends}
use webcam_direct_linux.Ble.MobileComm.{MobileComm}
use webcam_direct_linux.Examples.World.{
  chunk_codec, chunk_codec-ReadsBack, chunk_codec-AlwaysWrites, log_bus, no_codec,
}
use webcam_direct_linux.Ble.Requester.{Broadcast}
use webcam_direct_linux.Examples.Calling.{connected, offer}
use webcam_direct_linux.Examples.Serving.{mobile_a, codecs, echo_service, fresh, system, in_call}

abbrev pub mobile_b : Address
mobile_b = codes "b"

pub b≢a : mobile_b ≢ mobile_a
b≢a e = absurd (ground (arith, e))

abbrev pub of_b : BleComm
of_b = record {
  addr = mobile_b;
  comm_api = Api.query (record { query_type = host_info; resp_buffer_len = 9 });
}

handle_comm-Keeps_example :
    Keeps mobile_a in_call.handler (handle_comm echo_service log_bus codecs of_b in_call).1.handler
handle_comm-Keeps_example = handle_comm-Keeps echo_service log_bus codecs of_b mobile_a in_call b≢a

-- An answer of two bytes is at hand, and is asked for byte by byte.
abbrev held : System (List Bytes) (Unit {0})
held = record system {
  handler = record fresh {
    server_data_cache = record {
      host_info = none;
      sdp_answer = (mobile_a, some (7 ∷ 8 ∷ [])) ∷ [];
    };
  };
}

abbrev by_one : QueryReq
by_one = record { query_type = sdp_answer; resp_buffer_len = 2 }

answer_at_hand : cached held.handler.server_data_cache mobile_a sdp_answer ≡ some (7 ∷ 8 ∷ [])
unfolding get
answer_at_hand = refl

held_idle : reader_at held.handler.buffer_map mobile_a sdp_answer ≡ none
unfolding reader_at get_cursors get
held_idle = refl

abbrev batches : List (List BleComm)
batches = [] ∷ (of_b ∷ []) ∷ [] ∷ []

batches_quiet : QuietRounds echo_service log_bus codecs batches mobile_a by_one held
unfolding handle_all handle_comm handle_query fetch fetch_host_info fetch_sdp_answer
    get_next_data_chunk cut_chunk close_reader get_cursors set_cursors get insert
batches_quiet = (tt, ((refl, tt), (tt, tt)))

download_among_complete_example :
    (chunks : List DataChunk) × (s' : System (List Bytes) (Unit {0})) × (download_among echo_service
        log_bus codecs batches mobile_a by_one
        (running held)
      ≡ (ok chunks, running s'))
    × (payloads chunks ≡ 7 ∷ 8 ∷ [])
    × IsTransfer 1 chunks
    × (reader_at s'.handler.buffer_map mobile_a sdp_answer ≡ none)
download_among_complete_example =
    download_among_complete echo_service log_bus codecs chunk_codec-ReadsBack
      chunk_codec-AlwaysWrites mobile_a by_one (7 ∷ 8 ∷ []) 1 batches held
      (tt, ((b≢a, tt), (tt, tt))) batches_quiet answer_at_hand held_idle refl (omega arith)
      (omega arith) (omega arith) (omega arith)

abbrev sends : Sends
sends = ([], record { r = 1; d = 5 ∷ [] }) ∷ (of_b ∷ [], record { r = 0; d = 6 ∷ [] }) ∷ []

nothing_collected : collected held.handler.buffer_map mobile_a sdp_offer ≡ []
unfolding writer_at get_cursors get
nothing_collected = refl

sends_quiet : QuietSends echo_service log_bus codecs mobile_a sdp_offer sends held
unfolding handle_all handle_comm handle_query fetch fetch_host_info get_next_data_chunk cut_chunk
    close_reader get_cursors set_cursors get insert
sends_quiet = (tt, ((refl, tt), tt))

upload_among-dispatch_example :
    let t = after_sends echo_service log_bus codecs mobile_a sdp_offer sends held in
    (upload_among echo_service log_bus codecs mobile_a sdp_offer sends (running held)
      ≡ told echo_service log_bus codecs (
          dispatch echo_service log_bus codecs sdp_offer mobile_a
            (collected held.handler.buffer_map mobile_a sdp_offer ++ 5 ∷ 6 ∷ [])
            t))
    × (writer_at t.handler.buffer_map mobile_a sdp_offer ≡ none)
upload_among-dispatch_example =
    upload_among-dispatch echo_service log_bus codecs chunk_codec-ReadsBack chunk_codec-AlwaysWrites
      mobile_a sdp_offer 1 sends held (tt, ((b≢a, tt), tt)) sends_quiet
      (refl, omega arith, omega arith, (refl, omega arith))
      (omega (arith, ap length nothing_collected))

-- The whole call of a mobile that is registered and subscribed.
abbrev pub call_codecs : Codecs
call_codecs = record {
  data_chunk = chunk_codec;
  host_prov_info = no_codec;
  mobile_schema = no_codec;
  mobile_sdp_offer = record { ser = λ o. ok []; des = λ b. ok offer };
  mobile_sdp_answer = record { ser = λ a. ok (4 ∷ 2 ∷ []); des = λ b. anyhow "unreadable" };
  sdp_answer_ready = record { ser = λ a. ok a.mobile_id; des = λ b. anyhow "unreadable" };
}

abbrev pub quiet_bus : Broadcast (MobileComm (List Bytes) (Unit {0})) (Unit {0}) (Unit {0})
quiet_bus = record {
  channel = λ s. (ok tt, s);
  send = λ tx b s. (ok tt, s);
  subscribe = λ tx s. (ok tt, s);
  recv = λ rx s. (anyhow "closed", s);
}

abbrev pub calling : System (MobileComm (List Bytes) (Unit {0})) (Unit {0})
calling = record { handler = fresh; outside = connected }

abbrev pub offered : List DataChunk
offered = record { r = 1; d = 5 ∷ [] } ∷ record { r = 0; d = 6 ∷ [] } ∷ []
