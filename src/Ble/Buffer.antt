-- ===== src/Ble/Buffer.antt =====
-- src/ble/server/mobile_buffer.rs: data that is longer than a packet is sent and received in
-- chunks; for each mobile and each request type one transfer is under way at a time.
-- The functions take the codec of `DataChunk`; a method of `&mut self` returns the new map.
pub mod Cursors
pub mod Reader
pub mod ReadAll
pub mod Writer
pub mod Deliver
pub mod Isolation
pub mod Bounds
pub mod RoundTrip
pub mod Faults
pub mod Abstract
use webcam_direct_linux.Prelude.Fallible.{◌>>=◌}
use webcam_direct_linux.Prelude.{
  ℕ, ◌+◌, ◌-◌, min, Bytes, Option, none, some, [], ◌++◌, length, take, drop, get_or, ltb, ◌==◌,
  if◌then◌else◌, Result, ok, err, panic, anyhow, checked_add, checked_sub, Exec, list_key,
  number_key,
}
use webcam_direct_linux.HashMap.{HashMap, get, insert, remove}
use webcam_direct_linux.Ble.Api.{
  Address, CommBuffer, CmdApi, QueryApi, QueryReq, CommandReq, max_buffer_len, cmd_key, query_key,
}
use webcam_direct_linux.Ble.CommTypes.{DataChunk, Codec}

-- The bytes collected for each command, and the length that remains for each query.
pub record BufferCursor : Type 0 where
  pub writer : HashMap CmdApi CommBuffer
  pub reader : HashMap QueryApi ℕ

pub record MobileBufferMap : Type 0 where
  pub mobile_buffer_status : HashMap Address BufferCursor
  pub chunk_len : ℕ

unfoldable pub new : ℕ → MobileBufferMap
new chunk_len = record { mobile_buffer_status = []; chunk_len = chunk_len }

unfoldable pub remove_mobile : Address → MobileBufferMap → MobileBufferMap
remove_mobile addr m = record m { mobile_buffer_status = remove m.mobile_buffer_status addr }

-- The cursor that `entry(addr).or_insert(Default::default())` gives; `set_cursors` writes it back.
unfoldable pub get_cursors : MobileBufferMap → Address → BufferCursor
get_cursors m addr = get_or (get m.mobile_buffer_status addr) (record { writer = []; reader = [] })

unfoldable pub set_cursors : MobileBufferMap → Address → BufferCursor → MobileBufferMap
set_cursors m addr c = record m { mobile_buffer_status = insert m.mobile_buffer_status addr c }

-- `data[start..stop]`, where start ≤ stop ≤ data.len().
abbrev pub slice : ℕ → ℕ → Bytes → Bytes
slice start stop bytes = drop start (take stop bytes)

-- The chunk of `bytes` of which `remain_len` bytes are left, and the new remaining length.
unfoldable pub cut_chunk : ℕ → ℕ → Bytes → Result DataChunk
cut_chunk len remain_len bytes = do
  chunk_start ← checked_sub (length bytes) remain_len
  reach ← checked_add chunk_start len
  let chunk_end = min reach (length bytes)
  r ← (if chunk_end == length bytes then ok 0 else checked_sub remain_len len)
  ok (record { r = r; d = slice chunk_start chunk_end bytes })

-- The reader channel is closed with the last chunk, or when the chunks are too long.
unfoldable pub close_reader : ℕ → QueryApi → ℕ → BufferCursor → BufferCursor
close_reader len query_type r c =
    if r == 0
    then record c { reader = remove c.reader query_type }
    else if ltb max_buffer_len len
    then record c { reader = remove c.reader query_type }
    else record c { reader = insert c.reader query_type r }

-- A panic ends the task that owns the map, so the map beside it is not seen again.
unfoldable pub get_next_data_chunk :
    Codec DataChunk → Address → QueryReq → Bytes → Exec MobileBufferMap Bytes
get_next_data_chunk codec addr query bytes m =
    let resp_buffer_len = query.resp_buffer_len - m.chunk_len in
    if resp_buffer_len == 0
    then (anyhow "Response buffer length too small", m)
    else let c = get_cursors m addr in
      let remain_len = get_or (get c.reader query.query_type) (length bytes) in
      elim (cut_chunk resp_buffer_len remain_len bytes) [
        | ok chunk ↦ (
          codec.ser chunk,
          set_cursors m addr (close_reader resp_buffer_len query.query_type chunk.r c),
        )
        | err e ↦ (err e, m)
        | panic ↦ (panic, m)
      ]

-- One chunk of a command: the whole buffer once its last chunk is there. A buffer that would grow
-- too long is dropped, and the caller is told that there is none yet.
unfoldable pub collect_chunk : CmdApi → DataChunk → BufferCursor → Option CommBuffer × BufferCursor
collect_chunk cmd_type payload c =
    let curr_buffer = get_or (get c.writer cmd_type) [] in
    if ltb max_buffer_len (length curr_buffer + length payload.d)
    then (none, record c { writer = remove c.writer cmd_type })
    else if payload.r == 0
    then (some (curr_buffer ++ payload.d), record c { writer = remove c.writer cmd_type })
    else (none, record c { writer = insert c.writer cmd_type (curr_buffer ++ payload.d) })

unfoldable pub get_complete_buffer :
    Codec DataChunk → Address → CommandReq → Exec MobileBufferMap (Option CommBuffer)
get_complete_buffer codec addr cmd m = elim (codec.des cmd.payload) [
  | ok payload ↦
      let out = collect_chunk cmd.cmd_type payload (get_cursors m addr) in
      (ok out.0, set_cursors m addr out.1)
  | err e ↦ (err e, m)
  | panic ↦ (panic, m)
]

-- What is under way for one address and one request type.
unfoldable pub reader_at : MobileBufferMap → Address → QueryApi → Option ℕ
reader_at m addr query_type = get (get_cursors m addr).reader query_type

unfoldable pub writer_at : MobileBufferMap → Address → CmdApi → Option CommBuffer
writer_at m addr cmd_type = get (get_cursors m addr).writer cmd_type
