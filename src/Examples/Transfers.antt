-- ===== src/Examples/Transfers.antt =====
-- Transfers of a few bytes through the buffer map.
use webcam_direct_linux.Prelude.{
  ℕ, zero, suc, ap, ◌≡◌, refl, arith, Bytes, codes, List, [], ◌∷◌, length, none, some, ok, anyhow,
  list_key, number_key,
}
use webcam_direct_linux.HashMap.{get, insert, remove}
use webcam_direct_linux.Ble.Api.{Address, sdp_offer, sdp_answer, QueryReq, CommandReq}
use webcam_direct_linux.Ble.CommTypes.{DataChunk}
use webcam_direct_linux.Ble.Buffer.{
  MobileBufferMap, new, get_cursors, set_cursors, get_next_data_chunk, get_complete_buffer,
  reader_at, writer_at, cut_chunk, close_reader,
}
use webcam_direct_linux.Ble.Buffer.Reader.{read_all, payloads}
use webcam_direct_linux.Ble.Buffer.ReadAll.{IsTransfer, read_all_complete}
use webcam_direct_linux.Ble.Buffer.Deliver.{deliver, deliver-tail}
use webcam_direct_linux.Ble.Buffer.RoundTrip.{deliver-read_all}
use webcam_direct_linux.Ble.Buffer.Writer.{collected}
use webcam_direct_linux.Ble.Buffer.Abstract.{
  Call, give, take_in, forget, calls, view_calls, empty_view,
}
use webcam_direct_linux.Ble.Buffer.Abstract.Refinement.{calls-view_calls}
use webcam_direct_linux.Ble.Buffer.Bounds.{IsBounded, new-IsBounded, get_complete_buffer-IsBounded}
use webcam_direct_linux.Ble.Buffer.Faults.{read_all-stalls}
use webcam_direct_linux.Examples.World.{
  chunk_codec, chunk_codec-ReadsBack, chunk_codec-AlwaysWrites,
}

abbrev mobile_a : Address
mobile_a = codes "a"

abbrev mobile_b : Address
mobile_b = codes "b"

-- Chunks of at most two bytes.
abbrev ask : QueryReq
ask = record { query_type = sdp_answer; resp_buffer_len = 5 }

abbrev five : Bytes
five = 1 ∷ 2 ∷ 3 ∷ 4 ∷ 5 ∷ []

abbrev idle_map : MobileBufferMap
idle_map = record { mobile_buffer_status = []; chunk_len = 3 }

idle_reader : reader_at idle_map mobile_a sdp_answer ≡ none
unfolding reader_at get_cursors get
idle_reader = refl

idle_writer : writer_at idle_map mobile_b sdp_offer ≡ none
unfolding writer_at get_cursors get
idle_writer = refl

abbrev chunk : ℕ → Bytes → DataChunk
chunk r d = record { r = r; d = d }

-- The data read as chunks of two bytes.
abbrev in_chunks : List DataChunk
in_chunks = chunk 3 (1 ∷ 2 ∷ []) ∷ chunk 1 (3 ∷ 4 ∷ []) ∷ chunk 0 (5 ∷ []) ∷ []

in_chunks_read : (read_all 6 chunk_codec mobile_a ask five idle_map).0 ≡ ok in_chunks
unfolding read_all get_next_data_chunk get_cursors set_cursors cut_chunk close_reader get insert
    remove
in_chunks_read = refl

read_all_complete_example :
    (chunks : List DataChunk) × (m' : MobileBufferMap) × (read_all 6 chunk_codec mobile_a ask five
        idle_map
      ≡ (ok chunks, m'))
    × (payloads chunks ≡ five)
    × IsTransfer 2 chunks
    × (reader_at m' mobile_a sdp_answer ≡ none)
read_all_complete_example =
    read_all_complete chunk_codec chunk_codec-ReadsBack chunk_codec-AlwaysWrites mobile_a ask five 2
      idle_map idle_reader refl (omega arith) (omega arith) (omega arith)

deliver-read_all_example :
    (chunks : List DataChunk) × (m' : MobileBufferMap) × (n' : MobileBufferMap) × (read_all 6
        chunk_codec mobile_a ask five idle_map
      ≡ (ok chunks, m'))
    × (deliver chunk_codec mobile_b sdp_offer chunks idle_map ≡ (ok (some five), n'))
    × (reader_at m' mobile_a sdp_answer ≡ none)
    × (writer_at n' mobile_b sdp_offer ≡ none)
deliver-read_all_example =
    deliver-read_all chunk_codec chunk_codec-ReadsBack chunk_codec-AlwaysWrites mobile_a mobile_b
      ask sdp_offer five idle_map idle_map idle_reader idle_writer (omega arith) (omega arith)
      (omega arith)

in_chunks-IsTransfer : IsTransfer 2 in_chunks
in_chunks-IsTransfer =
    (refl, omega arith, omega arith, (refl, omega arith, omega arith, (refl, omega arith)))

nothing_collected : collected idle_map mobile_b sdp_offer ≡ []
unfolding writer_at get_cursors get
nothing_collected = refl

abbrev first_chunk : CommandReq
first_chunk = record { cmd_type = sdp_offer; payload = 3 ∷ 1 ∷ 2 ∷ [] }

get_complete_buffer-IsBounded_example :
    IsBounded (get_complete_buffer chunk_codec mobile_a first_chunk (new 3)).1
get_complete_buffer-IsBounded_example =
    get_complete_buffer-IsBounded chunk_codec mobile_a first_chunk (new 3) (new-IsBounded 3)

unfoldable zeros : ℕ → Bytes
zeros zero = []
zeros (suc n) = 0 ∷ zeros n

length-zeros : (n : ℕ) → length (zeros n) ≡ n
unfolding zeros
length-zeros zero = refl
length-zeros (suc n) = ap suc (length-zeros n)

-- A response buffer of 6000 bytes, and as much data.
abbrev long_ask : QueryReq
long_ask = record { query_type = sdp_answer; resp_buffer_len = 6000 }

read_all-stalls_example :
    (read_all 4 chunk_codec mobile_a long_ask (zeros 6000) idle_map).0 ≡ anyhow "chunks left"
read_all-stalls_example =
    read_all-stalls chunk_codec chunk_codec-ReadsBack chunk_codec-AlwaysWrites mobile_a long_ask
      (zeros 6000) 5997 4 idle_map idle_reader refl (omega arith) (omega (arith, length-zeros 6000))
      (omega (arith, length-zeros 6000))

-- A map that holds 5000 bytes of an offer already.
abbrev full_map : MobileBufferMap
full_map = record {
  mobile_buffer_status =
      (mobile_b, record { writer = (sdp_offer, zeros 5000) ∷ []; reader = [] }) ∷ [];
  chunk_len = 3;
}

full_collected : collected full_map mobile_b sdp_offer ≡ zeros 5000
unfolding writer_at get_cursors get
full_collected = refl

deliver-tail_example :
    (m' : MobileBufferMap) × (deliver chunk_codec mobile_b sdp_offer in_chunks full_map
      ≡ (ok (some (3 ∷ 4 ∷ 5 ∷ [])), m'))
deliver-tail_example =
    deliver-tail chunk_codec chunk_codec-ReadsBack chunk_codec-AlwaysWrites mobile_b sdp_offer 2
      (chunk 3 (1 ∷ 2 ∷ [])) (chunk 1 (3 ∷ 4 ∷ [])) (chunk 0 (5 ∷ []) ∷ []) full_map
      in_chunks-IsTransfer (omega (arith, ap length full_collected, length-zeros 5000))
      (omega arith)

-- Two mobiles at once, and one that leaves.
abbrev some_calls : List Call
some_calls =
    give mobile_a ask five
    ∷ take_in mobile_b (record { cmd_type = sdp_offer; payload = 1 ∷ 7 ∷ [] })
    ∷ give mobile_a ask five
    ∷ forget mobile_a
    ∷ []

calls-view_calls_example :
    calls chunk_codec some_calls (new 3) ≡ view_calls chunk_codec some_calls (empty_view 3)
calls-view_calls_example = calls-view_calls chunk_codec 3 some_calls
