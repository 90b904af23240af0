-- ===== src/Ble/Buffer/Faults.antt =====
-- The branches of `get_next_data_chunk` that give no progress: a response buffer that is too
-- small or too large, and data that became shorter during a transfer.
use webcam_direct_linux.Prelude.{
  ℕ, ◌+◌, ◌-◌, ◌≤◌, ◌<◌, ◌≡◌, refl, none, some, arith, Bytes, length, panic, anyhow, usize_bound,
  ◌==◌, list_key, zero, suc, false, continue,
}
use webcam_direct_linux.Ble.Api.{Address, QueryReq, max_buffer_len, query_key}
use webcam_direct_linux.Ble.CommTypes.{DataChunk, Codec, ReadsBack, AlwaysWrites}
use webcam_direct_linux.Ble.Buffer.{MobileBufferMap, cut_chunk, get_next_data_chunk, reader_at}
use webcam_direct_linux.Ble.Buffer.Reader.{read_all}
use webcam_direct_linux.Ble.Buffer.ReadAll.{reader_at-after, after, one_call, chunk_len-after}

-- A response buffer without room for data is refused, and nothing is touched.
pub get_next_data_chunk-small :
    (codec : Codec DataChunk) (addr : Address) (q : QueryReq) (bytes : Bytes) (m : MobileBufferMap)
    → q.resp_buffer_len ≤ m.chunk_len
    → get_next_data_chunk codec addr q bytes m ≡ (anyhow "Response buffer length too small", m)
unfolding get_next_data_chunk
get_next_data_chunk-small codec addr q bytes m h = ground arith

-- If more is left of a transfer than the data has, because it was replaced by shorter data, the
-- subtraction of the lengths panics.
pub get_next_data_chunk-shrunk :
    (codec : Codec DataChunk) (addr : Address) (q : QueryReq) (bytes : Bytes) (m : MobileBufferMap)
    (n : ℕ)
    → m.chunk_len < q.resp_buffer_len
    → reader_at m addr q.query_type ≡ some n
    → length bytes < n
    → (get_next_data_chunk codec addr q bytes m).0 ≡ panic
unfolding get_next_data_chunk reader_at cut_chunk
get_next_data_chunk-shrunk codec addr q bytes m n room left short = ground arith

module _ (codec : Codec DataChunk) (reads : ReadsBack codec) (writes : AlwaysWrites codec)
    (addr : Address) (q : QueryReq) (bytes : Bytes) (len : ℕ) where
  -- With room for more than max_buffer_len bytes in a chunk, and data that one chunk does not
  -- hold, the channel is closed after each chunk, and no number of calls ends the transfer. The
  -- channel was idle, the encoding writes and reads back, and the lengths stay within usize.
  pub read_all-stalls :
      (rounds : ℕ) (m : MobileBufferMap)
      → reader_at m addr q.query_type ≡ none
      → q.resp_buffer_len - m.chunk_len ≡ len
      → max_buffer_len < len
      → len < length bytes
      → length bytes + len < usize_bound
      → (read_all rounds codec addr q bytes m).0 ≡ anyhow "chunks left"
  unfolding read_all
  read_all-stalls zero m idle size big long bound = refl
  read_all-stalls (suc rounds) m idle size big long bound =
      let (encoded, call, reading) =
        one_call codec reads writes addr q bytes len m (length bytes) size (ground arith)
          (omega arith) (omega arith) bound in
      let again = after addr q len m (length bytes) in
      let closed = reader_at-after m addr q.query_type len (length bytes - len) in
      let ih =
        read_all-stalls rounds again (ground (arith, closed))
          (chunk_len-after addr q len m (length bytes) size) big long bound in
      let more : ((length bytes - len) == 0) ≡ false = ground arith in
      rw (call, reading, more, continue, ih)
