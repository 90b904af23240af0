-- ===== src/Ble/Buffer/RoundTrip.antt =====
-- Both directions together: the chunks that one map gives out, taken in by another.
use webcam_direct_linux.Prelude.{
  suc, ◌-◌, ◌≤◌, ◌<◌, ◌≡◌, refl, ap, none, some, arith, Bytes, List, length, ok, [],
}
use webcam_direct_linux.Ble.Api.{Address, CmdApi, QueryReq, max_buffer_len}
use webcam_direct_linux.Ble.CommTypes.{DataChunk, Codec, ReadsBack, AlwaysWrites}
use webcam_direct_linux.Ble.Buffer.{MobileBufferMap, reader_at, writer_at}
use webcam_direct_linux.Ble.Buffer.Reader.{read_all}
use webcam_direct_linux.Ble.Buffer.ReadAll.{read_all_complete}
use webcam_direct_linux.Ble.Buffer.Writer.{collected}
use webcam_direct_linux.Ble.Buffer.Deliver.{deliver, deliver-transfer}

-- Data of at most max_buffer_len bytes, read chunk by chunk from one buffer map with
-- get_next_data_chunk and delivered chunk by chunk to another with get_complete_buffer, arrives
-- unchanged within length + 1 calls, and both channels are idle again. Both were idle before, the
-- chunk encoding writes and reads back, and a chunk has room for 1 to max_buffer_len bytes.
pub deliver-read_all :
    (codec : Codec DataChunk) (reads : ReadsBack codec) (writes : AlwaysWrites codec)
    (addr addr' : Address) (q : QueryReq) (cmd_type : CmdApi) (bytes : Bytes)
    (m n : MobileBufferMap)
    → reader_at m addr q.query_type ≡ none
    → writer_at n addr' cmd_type ≡ none
    → m.chunk_len < q.resp_buffer_len
    → q.resp_buffer_len ≤ max_buffer_len
    → length bytes ≤ max_buffer_len
    → (chunks : List DataChunk) × (m' : MobileBufferMap) × (n' : MobileBufferMap) × (read_all
          (suc (length bytes))
          codec
          addr
          q
          bytes
          m
        ≡ (ok chunks, m'))
      × (deliver codec addr' cmd_type chunks n ≡ (ok (some bytes), n'))
      × (reader_at m' addr q.query_type ≡ none)
      × (writer_at n' addr' cmd_type ≡ none)
deliver-read_all codec reads writes addr addr' q cmd_type bytes m n idle idle' room short fits =
    let len = q.resp_buffer_len - m.chunk_len in
    let (chunks, m', run, joined, transfer, closed) =
      read_all_complete codec reads writes addr q bytes len m idle refl (omega arith) (omega arith)
        (omega arith) in
    let start : collected n addr' cmd_type ≡ [] = rw idle' refl in
    let (n', run', closed') =
      deliver-transfer codec reads writes addr' cmd_type len chunks n transfer
        (omega (arith, ap length start, ap length joined)) in
    (chunks, m', n', run, ground (arith, run', start, joined), closed, closed')
