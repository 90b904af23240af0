-- ===== src/Ble/Buffer/Isolation.antt =====
-- A call for one mobile and one request type touches no other transfer.
use webcam_direct_linux.Prelude.{
  ℕ, ◌≡◌, ◌≢◌, refl, ◌⊎◌, inl, inr, Either-map, none, arith, Bytes, if◌then◌else◌, Bool-cases,
  Result-cases, ok, list_key, number_key, ◌=?◌, =?_iff, ◌-◌, ◌==◌, length, get_or, [], ◌++◌, ap,
}
use webcam_direct_linux.HashMap.{HashMap, get, get-insert, get-remove, get-insert_ne, get-remove_ne}
use webcam_direct_linux.Ble.Api.{
  Address, CommBuffer, CmdApi, QueryApi, QueryReq, CommandReq, cmd_key, query_key,
}
use webcam_direct_linux.Ble.CommTypes.{DataChunk, Codec}
use webcam_direct_linux.Ble.Buffer.{
  BufferCursor, MobileBufferMap, get_cursors, set_cursors, cut_chunk, close_reader, collect_chunk,
  get_next_data_chunk, get_complete_buffer, reader_at, writer_at, remove_mobile,
}

pub cursors-set :
    (m : MobileBufferMap) (addr other : Address) (c : BufferCursor)
    → get_cursors (set_cursors m addr c) other ≡ (if addr =? other then c else get_cursors m other)
unfolding get_cursors set_cursors
cursors-set m addr other c = ground (arith, get-insert m.mobile_buffer_status addr other c)

-- The states that a call can leave.
pub next_state :
    (codec : Codec DataChunk) (addr : Address) (q : QueryReq) (bytes : Bytes) (m : MobileBufferMap)
    → ((get_next_data_chunk codec addr q bytes m).1 ≡ m)
      ⊎ ((chunk : DataChunk) × (cut_chunk
              (q.resp_buffer_len - m.chunk_len)
              (get_or (get (get_cursors m addr).reader q.query_type) (length bytes))
              bytes
            ≡ ok chunk)
          × ((get_next_data_chunk codec addr q bytes m).1
              ≡ set_cursors m addr (
                  close_reader
                    (q.resp_buffer_len - m.chunk_len)
                    q.query_type
                    chunk.r
                    (get_cursors m addr))))
unfolding get_next_data_chunk
next_state codec addr q bytes m = elim (Bool-cases ((q.resp_buffer_len - m.chunk_len) == 0)) [
  | inl small ↦ inl (rw small)
  | inr big ↦
      elim (Result-cases (
        cut_chunk (q.resp_buffer_len - m.chunk_len)
          (get_or (get (get_cursors m addr).reader q.query_type) (length bytes)) bytes)) [
            | inl (chunk, e) ↦ inr (chunk, e, ground (arith, e))
            | inr (inl (x, e)) ↦ inl (ground (arith, e))
            | inr (inr e) ↦ inl (ground (arith, e))
          ]
]

pub complete_state :
    (codec : Codec DataChunk) (addr : Address) (cmd : CommandReq) (m : MobileBufferMap)
    → ((get_complete_buffer codec addr cmd m).1 ≡ m)
      ⊎ ((chunk : DataChunk) × ((get_complete_buffer codec addr cmd m).1
            ≡ set_cursors m addr (collect_chunk cmd.cmd_type chunk (get_cursors m addr)).1))
unfolding get_complete_buffer
complete_state codec addr cmd m = elim (Result-cases (codec.des cmd.payload)) [
  | inl (chunk, e) ↦ inr (chunk, ground (arith, e))
  | inr (inl (x, e)) ↦ inl (ground (arith, e))
  | inr (inr e) ↦ inl (ground (arith, e))
]

pub close_reader-writer :
    (len : ℕ) (qt : QueryApi) (r : ℕ) (c : BufferCursor)
    → (close_reader len qt r c).writer ≡ c.writer
unfolding close_reader
close_reader-writer len qt r c = ground arith

pub close_reader-reader_ne :
    (len : ℕ) (qt other : QueryApi) (r : ℕ) (c : BufferCursor)
    → qt ≢ other
    → get (close_reader len qt r c).reader other ≡ get c.reader other
unfolding close_reader
close_reader-reader_ne len qt other r c h =
    ground (arith, get-remove_ne c.reader qt other h, get-insert_ne c.reader qt other r h)

pub collect_chunk-reader :
    (t : CmdApi) (chunk : DataChunk) (c : BufferCursor)
    → (collect_chunk t chunk c).1.reader ≡ c.reader
unfolding collect_chunk
collect_chunk-reader t chunk c = ground arith

pub collect_chunk-writer_ne :
    (t other : CmdApi) (chunk : DataChunk) (c : BufferCursor)
    → t ≢ other
    → get (collect_chunk t chunk c).1.writer other ≡ get c.writer other
unfolding collect_chunk
collect_chunk-writer_ne t other chunk c h = ground (
  arith,
  get-remove_ne c.writer t other h,
  get-insert_ne c.writer t other (get_or (get c.writer t) [] ++ chunk.d) h,
)

-- A new cursor for one address changes what stands at another only there and where it differs.
pub reader-set :
    (m : MobileBufferMap) (addr other : Address) (c : BufferCursor) (qt : QueryApi)
    → (addr ≢ other) ⊎ (get c.reader qt ≡ get (get_cursors m addr).reader qt)
    → reader_at (set_cursors m addr c) other qt ≡ reader_at m other qt
unfolding reader_at
reader-set m addr other c qt h = ground (arith, cursors-set m addr other c, =?_iff addr other)

pub writer-set :
    (m : MobileBufferMap) (addr other : Address) (c : BufferCursor) (ct : CmdApi)
    → (addr ≢ other) ⊎ (get c.writer ct ≡ get (get_cursors m addr).writer ct)
    → writer_at (set_cursors m addr c) other ct ≡ writer_at m other ct
unfolding writer_at
writer-set m addr other c ct h = ground (arith, cursors-set m addr other c, =?_iff addr other)

-- Giving out a chunk changes no writer, and no reader but that of its mobile and query type.
pub get_next_data_chunk_frame :
    (codec : Codec DataChunk) (addr : Address) (q : QueryReq) (bytes : Bytes) (m : MobileBufferMap)
    (other : Address) (qt : QueryApi) (other' : Address) (ct : CmdApi)
    → (addr ≢ other) ⊎ (q.query_type ≢ qt)
    → let m' = (get_next_data_chunk codec addr q bytes m).1 in
      (reader_at m' other qt ≡ reader_at m other qt)
      × (writer_at m' other' ct ≡ writer_at m other' ct)
get_next_data_chunk_frame codec addr q bytes m other qt other' ct h =
    elim (next_state codec addr q bytes m) [
      | inl e ↦ rw e (refl, refl)
      | inr (chunk, _, e) ↦
          let r = chunk.r in
          let len = q.resp_buffer_len - m.chunk_len in
          let c = get_cursors m addr in
          rw e (
            reader-set m addr other (close_reader len q.query_type r c) qt
                (Either-map (λ x. x) (close_reader-reader_ne len q.query_type qt r c) h),
            writer-set m addr other' (close_reader len q.query_type r c) ct (
                inr (
                  ap (λ (w : HashMap CmdApi CommBuffer). get w ct)
                    (close_reader-writer len q.query_type r c))),
          )
    ]

-- Taking in a chunk changes no reader, and no writer but that of its mobile and command type.
pub get_complete_buffer_frame :
    (codec : Codec DataChunk) (addr : Address) (cmd : CommandReq) (m : MobileBufferMap)
    (other : Address) (ct : CmdApi) (other' : Address) (qt : QueryApi)
    → (addr ≢ other) ⊎ (cmd.cmd_type ≢ ct)
    → let m' = (get_complete_buffer codec addr cmd m).1 in
      (writer_at m' other ct ≡ writer_at m other ct)
      × (reader_at m' other' qt ≡ reader_at m other' qt)
get_complete_buffer_frame codec addr cmd m other ct other' qt h =
    elim (complete_state codec addr cmd m) [
      | inl e ↦ rw e (refl, refl)
      | inr (chunk, e) ↦
          let c = get_cursors m addr in
          rw e (
            writer-set m addr other (collect_chunk cmd.cmd_type chunk c).1 ct
                (Either-map (λ x. x) (collect_chunk-writer_ne cmd.cmd_type ct chunk c) h),
            reader-set m addr other' (collect_chunk cmd.cmd_type chunk c).1 qt (
                inr (
                  ap (λ (w : HashMap QueryApi ℕ). get w qt)
                    (collect_chunk-reader cmd.cmd_type chunk c))),
          )
    ]

-- Taking in a chunk changes no reader at all.
pub reader_at_complete :
    (codec : Codec DataChunk) (addr : Address) (cmd : CommandReq) (m : MobileBufferMap)
    (other : Address) (qt : QueryApi)
    → reader_at (get_complete_buffer codec addr cmd m).1 other qt ≡ reader_at m other qt
reader_at_complete codec addr cmd m other qt = elim (complete_state codec addr cmd m) [
  | inl e ↦ rw e refl
  | inr (chunk, e) ↦
      let c = get_cursors m addr in
      rw e (
        reader-set m addr other (collect_chunk cmd.cmd_type chunk c).1 qt (
          inr (
            ap (λ (w : HashMap QueryApi ℕ). get w qt) (collect_chunk-reader cmd.cmd_type chunk c))))
]

-- A mobile that is removed leaves nothing behind, and the others keep what they had.
pub remove_mobile_frame :
    (addr : Address) (m : MobileBufferMap) (other : Address) (qt : QueryApi) (ct : CmdApi)
    → let m' = remove_mobile addr m in
      (reader_at m' other qt ≡ (if addr =? other then none else reader_at m other qt))
      × (writer_at m' other ct ≡ (if addr =? other then none else writer_at m other ct))
unfolding reader_at writer_at remove_mobile get_cursors get
remove_mobile_frame addr m other qt ct =
    ground (arith, get-remove m.mobile_buffer_status addr other)
