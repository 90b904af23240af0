-- ===== src/Ble/Buffer/Reader.antt =====
-- What one call of `get_next_data_chunk` returns and leaves behind.
use Prim.Native.Nat.add
use webcam_direct_linux.Prelude.{
  ℕ, zero, suc, ◌+◌, ◌-◌, ◌≤◌, ◌<◌, min, ◌≡◌, sym, ap, none, some, arith, Bytes, [], ◌∷◌, length,
  take, drop, take_all, get_or, ltb, ◌==◌, if◌then◌else◌, ok, panic, Result, usize_bound, anyhow,
  lift, pure, Exec, ◌>>=◌, ◌++◌, List, list_key,
}
use webcam_direct_linux.HashMap.{get, get-insert_self, get-remove_self}
use webcam_direct_linux.Ble.Api.{Address, QueryApi, QueryReq, max_buffer_len, query_key}
use webcam_direct_linux.Ble.CommTypes.{DataChunk, Codec}
use webcam_direct_linux.Ble.Buffer.{
  BufferCursor, MobileBufferMap, get_cursors, set_cursors, cut_chunk, close_reader,
  get_next_data_chunk, reader_at,
}

min_zero : (n : ℕ) → min 0 n ≡ 0
min_zero n = omega arith

min_comm : (m n : ℕ) → min m n ≡ min n m
min_comm m n = omega arith

min-suc : (m n : ℕ) → min (suc m) (suc n) ≡ suc (min m n)
min-suc m n = omega arith

take-min : (n : ℕ) (xs : Bytes) → take (min n (length xs)) xs ≡ take n xs
take-min zero xs = rw (min_zero (length xs))
take-min (suc n) [] = rw (min_comm (suc n) 0, min_zero (suc n))
take-min (suc n) (x ∷ xs) = rw (min-suc n (length xs)) (ap (λ (l : Bytes). x ∷ l) (take-min n xs))

drop-take-add : (s n : ℕ) (xs : Bytes) → drop s (take (s + n) xs) ≡ take n (drop s xs)
drop-take-add zero n xs = ap (λ (k : ℕ). take k xs) (omega arith)
drop-take-add (suc s) n [] = rw (add.suc s n) (sym (take_all n [] (omega arith)))
drop-take-add (suc s) n (x ∷ xs) = rw (add.suc s n) (drop-take-add s n xs)

drop-take : (s n : ℕ) (xs : Bytes) → drop s (take (min (s + n) (length xs)) xs) ≡ take n (drop s xs)
drop-take s n xs = rw (take-min (s + n) xs) (drop-take-add s n xs)

-- The chunk that a call with `remain` bytes left ought to give.
abbrev pub expected_chunk : ℕ → ℕ → Bytes → DataChunk
expected_chunk len remain bytes = record {
  r = remain - len;
  d = take len (drop (length bytes - remain) bytes);
}

pub cut_chunk_lem :
    (len remain : ℕ) (bytes : Bytes)
    → remain ≤ length bytes
    → length bytes + len < usize_bound
    → cut_chunk len remain bytes ≡ ok (expected_chunk len remain bytes)
unfolding cut_chunk
cut_chunk_lem len remain bytes h fits = ground (arith, drop-take (length bytes - remain) len bytes)

-- The same for any length that is left: more than the data has, or a length that overflows, panics.
unfoldable pub expected_cut : ℕ → ℕ → Bytes → Result DataChunk
expected_cut len remain bytes =
    if ltb (length bytes) remain
    then panic
    else if ltb (length bytes - remain + len) usize_bound
    then ok (expected_chunk len remain bytes)
    else panic

pub cut_chunk-expected_cut :
    (len remain : ℕ) (bytes : Bytes) → cut_chunk len remain bytes ≡ expected_cut len remain bytes
unfolding cut_chunk expected_cut
cut_chunk-expected_cut len remain bytes =
    ground (arith, drop-take (length bytes - remain) len bytes)

-- The length that is left for a request, when a call begins.
abbrev pub remaining : MobileBufferMap → Address → QueryApi → Bytes → ℕ
remaining m addr query_type bytes = get_or (reader_at m addr query_type) (length bytes)

-- A call whose channel is in step with the data gives the expected chunk.
pub get_next_data_chunk_lem :
    (codec : Codec DataChunk) (addr : Address) (q : QueryReq) (bytes : Bytes) (m : MobileBufferMap)
    (len n : ℕ)
    → q.resp_buffer_len - m.chunk_len ≡ len
    → remaining m addr q.query_type bytes ≡ n
    → 0 < len
    → n ≤ length bytes
    → length bytes + len < usize_bound
    → get_next_data_chunk codec addr q bytes m ≡ (
      codec.ser (expected_chunk len n bytes),
      set_cursors m addr (close_reader len q.query_type (n - len) (get_cursors m addr)),
    )
unfolding get_next_data_chunk reader_at
get_next_data_chunk_lem codec addr q bytes m len n size left room fits bound =
    ground (arith, cut_chunk_lem len n bytes)

-- What `close_reader` leaves of the channel.
pub reader-close_reader :
    (len : ℕ) (query_type : QueryApi) (r : ℕ) (c : BufferCursor)
    → get (close_reader len query_type r c).reader query_type
      ≡ (if r == 0 then none else if ltb max_buffer_len len then none else some r)
unfolding close_reader
reader-close_reader len query_type r c =
    ground (arith, get-remove_self c.reader query_type, get-insert_self c.reader query_type r)

-- The loop in which a client reads the whole of its data: it asks for chunks until one says that
-- nothing remains. `rounds` bounds the calls.
unfoldable pub read_all :
    ℕ → Codec DataChunk → Address → QueryReq → Bytes → Exec MobileBufferMap (List DataChunk)
read_all zero codec addr q bytes = lift (anyhow "chunks left")
read_all (suc rounds) codec addr q bytes = do
  encoded ← get_next_data_chunk codec addr q bytes
  chunk ← lift (codec.des encoded)
  let rest = read_all rounds codec addr q bytes
  if chunk.r == 0 then pure (chunk ∷ []) else (do chunks ← rest; pure (chunk ∷ chunks))

abbrev pub payloads : List DataChunk → Bytes
payloads [] = []
payloads (c ∷ cs) = c.d ++ payloads cs
