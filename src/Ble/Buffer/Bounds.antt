-- ===== src/Ble/Buffer/Bounds.antt =====
-- The invariant of the buffer map: no collected buffer passes the limit, and an open reader has
-- something left to give.
use webcam_direct_linux.Prelude.{
  ℕ, ◌≤◌, ◌<◌, ◌≡◌, some, arith, Bytes, length, length-append, get_or, Bool-cases, inl, inr,
  list_key, number_key, ◌=?◌, ◌-◌, ◌++◌, [],
}
use webcam_direct_linux.HashMap.{get, get-insert, get-remove}
use webcam_direct_linux.Ble.Api.{
  Address, CmdApi, QueryApi, QueryReq, CommandReq, CommBuffer, max_buffer_len, cmd_key, query_key,
}
use webcam_direct_linux.Ble.CommTypes.{DataChunk, Codec}
use webcam_direct_linux.Ble.Buffer.{
  BufferCursor, MobileBufferMap, new, get_cursors, set_cursors, close_reader, collect_chunk,
  get_next_data_chunk, get_complete_buffer,
}
use webcam_direct_linux.Ble.Buffer.Isolation.{cursors-set, next_state, complete_state}

-- One mobile's cursor.
pub record IsSound (c : BufferCursor) : Type 0 where
  pub short : (t : CmdApi) (b : CommBuffer) → get c.writer t ≡ some b → length b ≤ max_buffer_len
  pub open_left : (t : QueryApi) (r : ℕ) → get c.reader t ≡ some r → 0 < r

pub record IsBounded (m : MobileBufferMap) : Type 0 where
  pub at : (addr : Address) → IsSound (get_cursors m addr)

close_reader-IsSound :
    (len : ℕ) (qt : QueryApi) (r : ℕ) (c : BufferCursor)
    → IsSound c
    → IsSound (close_reader len qt r c)
unfolding close_reader
close_reader-IsSound len qt r c s = record {
  short = λ t b e. ground (arith, s.short t b);
  open_left = λ t n e.
      ground (arith, s.open_left t n, get-remove c.reader qt t, get-insert c.reader qt t r);
}

collect_chunk-IsSound :
    (ct : CmdApi) (chunk : DataChunk) (c : BufferCursor)
    → IsSound c
    → IsSound (collect_chunk ct chunk c).1
unfolding collect_chunk
collect_chunk-IsSound ct chunk c s =
    let old = get_or (get c.writer ct) [] in
    record {
      short = λ t b e. ground (
        arith,
        s.short t b,
        get-remove c.writer ct t,
        get-insert c.writer ct t (old ++ chunk.d),
        length-append old chunk.d,
      );
      open_left = λ t n e. ground (arith, s.open_left t n);
    }

set_cursors-IsBounded :
    (m : MobileBufferMap) (addr : Address) (c : BufferCursor)
    → IsBounded m
    → IsSound c
    → IsBounded (set_cursors m addr c)
set_cursors-IsBounded m addr c b s = record {
  at = λ other. elim (Bool-cases (addr =? other)) [
    | inl same ↦ rw (cursors-set m addr other c, same) s
    | inr differs ↦ rw (cursors-set m addr other c, differs) (b.at other)
  ];
}

pub new-IsBounded : (chunk_len : ℕ) → IsBounded (new chunk_len)
unfolding new get_cursors get
new-IsBounded chunk_len = record {
  at = λ addr. record { short = λ t b e. cc; open_left = λ t r e. cc };
}

-- Giving out a chunk keeps every collected buffer within max_buffer_len, and every open reader
-- with something left to give.
pub get_next_data_chunk-IsBounded :
    (codec : Codec DataChunk) (addr : Address) (q : QueryReq) (bytes : Bytes) (m : MobileBufferMap)
    → IsBounded m
    → IsBounded (get_next_data_chunk codec addr q bytes m).1
get_next_data_chunk-IsBounded codec addr q bytes m b = elim (next_state codec addr q bytes m) [
  | inl e ↦ rw e b
  | inr (chunk, _, e) ↦ rw e (
      set_cursors-IsBounded m addr _ b (
        close_reader-IsSound (q.resp_buffer_len - m.chunk_len) q.query_type chunk.r
          (get_cursors m addr) (b.at addr)))
]

-- Taking in a chunk keeps every collected buffer within max_buffer_len, and every open reader with
-- something left to give.
pub get_complete_buffer-IsBounded :
    (codec : Codec DataChunk) (addr : Address) (cmd : CommandReq) (m : MobileBufferMap)
    → IsBounded m
    → IsBounded (get_complete_buffer codec addr cmd m).1
get_complete_buffer-IsBounded codec addr cmd m b = elim (complete_state codec addr cmd m) [
  | inl e ↦ rw e b
  | inr (chunk, e) ↦ rw e (
      set_cursors-IsBounded m addr _ b
        (collect_chunk-IsSound cmd.cmd_type chunk (get_cursors m addr) (b.at addr)))
]
