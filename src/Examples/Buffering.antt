-- ===== src/Examples/Buffering.antt =====
-- The unit tests of src/ble/server/mobile_buffer.rs, run on the model: an assertion that fails, an
-- index out of range and an `unwrap` of an error panic, and a test passes if it does not.
use webcam_direct_linux.Prelude.{
  ℕ, zero, suc, ◌-◌, ◌*◌, ◌≡◌, refl, Bool, true, false, Bytes, codes, List, [], ◌∷◌, length,
  get_elem?, Option, none, some, Result, ok, err, panic, Exec, lift, pure, ◌>>=◌, ◌>>◌, ◌==◌,
  list_key, number_key, if◌then◌else◌,
}
use webcam_direct_linux.HashMap.{get, insert, remove}
use webcam_direct_linux.Ble.Api.{Address, CmdApi, host_info, cmd_key, query_key}
use webcam_direct_linux.Ble.CommTypes.{DataChunk}
use webcam_direct_linux.Ble.Buffer.{
  MobileBufferMap, new, remove_mobile, get_next_data_chunk, get_complete_buffer, cut_chunk,
  close_reader, collect_chunk, get_cursors, set_cursors,
}
use webcam_direct_linux.Examples.World.{chunk_codec}

abbrev pub Test : Type 0
Test = Exec MobileBufferMap (Unit {0})

abbrev pub chunk_len : ℕ
chunk_len = 5

abbrev pub addr_1 : Address
addr_1 = codes "AA:BB:CC:DD:EE:FF"

abbrev pub addr_2 : Address
addr_2 = codes "11:22:33:44:55:66"

abbrev addr_3 : Address
addr_3 = codes "00:11:22:33:44:55"

abbrev addr_4 : Address
addr_4 = codes "AA:BB:CC:DD:EE:11"

abbrev pub assert : Bool → Test
assert true = pure tt
assert false = lift panic

abbrev unwrap {ℓ} : {A : Type ℓ} → Result A → Result A
unwrap (ok a) = ok a
unwrap (err e) = panic
unwrap panic = panic

abbrev unwrapped {ℓ} : {A : Type ℓ} → Exec MobileBufferMap A → Exec MobileBufferMap A
unwrapped m s = (unwrap (m s).0, (m s).1)

-- `vec![b; n]`.
abbrev pub vec : ℕ → ℕ → Bytes
vec b zero = []
vec b (suc n) = b ∷ vec b n

-- `chunks[i]`.
abbrev at : List DataChunk → ℕ → Exec MobileBufferMap DataChunk
at chunks i = elim (get_elem? chunks i) [ none ↦ lift panic | some chunk ↦ pure chunk ]

unfoldable pub next_chunk : Address → ℕ → Bytes → Exec MobileBufferMap DataChunk
unfolding get_next_data_chunk cut_chunk close_reader get_cursors set_cursors get insert remove
next_chunk addr len bytes = do
  encoded ← unwrapped (
      get_next_data_chunk chunk_codec addr
        (record { query_type = host_info; resp_buffer_len = len }) bytes)
  lift (unwrap (chunk_codec.des encoded))

-- The loop up to the chunk with which nothing remains; `grow` is what becomes of the length after
-- each chunk. The rounds bound the loop.
unfoldable pub next_chunks :
    ℕ → (ℕ → ℕ) → Address → ℕ → Bytes → Exec MobileBufferMap (List DataChunk)
next_chunks zero grow addr len bytes s = (panic, s)
next_chunks (suc rounds) grow addr len bytes s =
    (do
      chunk ← next_chunk addr len bytes
      let rest = next_chunks rounds grow addr (grow len) bytes
      if chunk.r == 0 then pure (chunk ∷ []) else (do chunks ← rest; pure (chunk ∷ chunks)))
      s

unfoldable pub complete : Address → CmdApi → DataChunk → Exec MobileBufferMap (Option Bytes)
unfolding get_complete_buffer collect_chunk get_cursors set_cursors get insert remove
complete addr cmd_type chunk = do
  payload ← lift (unwrap (chunk_codec.ser chunk))
  unwrapped
      (get_complete_buffer chunk_codec addr (record { cmd_type = cmd_type; payload = payload }))

abbrev pub Passes : Test → Type 0
Passes test = (test (new chunk_len)).0 ≡ ok tt

abbrev pub same_length : ℕ → ℕ
same_length len = len

test_remove_mobile : Test
unfolding remove_mobile set_cursors get insert remove
test_remove_mobile m =
    let n = remove_mobile addr_3 (set_cursors m addr_3 (record { writer = []; reader = [] })) in
    (elim (get n.mobile_buffer_status addr_3) [ none ↦ ok tt | some cursor ↦ panic ], n)

test_get_next_data_chunk_simple_data : Test
test_get_next_data_chunk_simple_data = do
  chunk ← next_chunk addr_1 100 (vec 55 95)
  assert (chunk.r == 0)
  assert (length chunk.d == 95)

test_get_next_data_chunk_buffer_too_small : Test
unfolding get_next_data_chunk
test_get_next_data_chunk_buffer_too_small m =
    let out =
      get_next_data_chunk chunk_codec addr_4
        (record { query_type = host_info; resp_buffer_len = chunk_len - 1 }) (vec 0 10) m in
    (elim out.0 [ ok chunk ↦ panic | err e ↦ ok tt | panic ↦ panic ], out.1)

-- `chunks[i].d.len()` and `chunks[i].r`.
abbrev assert_chunk : List DataChunk → ℕ → ℕ → ℕ → Test
assert_chunk chunks i len r = do
  chunk ← at chunks i
  assert (length chunk.d == len)
  assert (chunk.r == r)

test_get_next_data_chunk_large_data : Test
test_get_next_data_chunk_large_data = do
  chunks ← next_chunks 9 same_length addr_1 1024 (vec 55 5000)
  assert (length chunks == 5)
  assert_chunk chunks 0 1019 3981
  assert_chunk chunks 1 1019 2962
  assert_chunk chunks 2 1019 1943
  assert_chunk chunks 3 1019 924
  assert_chunk chunks 4 924 0

test_get_next_data_chunk_large_data_changing_max_buffer : Test
test_get_next_data_chunk_large_data_changing_max_buffer = do
  chunks ← next_chunks 9 (λ len. len * 2) addr_1 15 (vec 55 300)
  last ← at chunks (length chunks - 1)
  assert (last.r == 0)

test_get_next_data_chunk_large_data_twice : Test
test_get_next_data_chunk_large_data_twice = do
  chunks ← next_chunks 40 same_length addr_1 15 (vec 55 300)
  assert (length chunks == 30)
  assert_chunk chunks 0 10 290
  assert_chunk chunks 29 10 0
  again ← next_chunks 40 same_length addr_1 13 (vec 55 300)
  assert (length again == 38)
  assert_chunk again 0 8 292
  assert_chunk again 37 4 0

test_remove_mobile-Passes : Passes test_remove_mobile
unfolding test_remove_mobile new
test_remove_mobile-Passes = refl

test_get_next_data_chunk_simple_data-Passes : Passes test_get_next_data_chunk_simple_data
unfolding test_get_next_data_chunk_simple_data next_chunk new
test_get_next_data_chunk_simple_data-Passes = refl

test_get_next_data_chunk_buffer_too_small-Passes : Passes test_get_next_data_chunk_buffer_too_small
unfolding test_get_next_data_chunk_buffer_too_small new
test_get_next_data_chunk_buffer_too_small-Passes = refl

test_get_next_data_chunk_large_data-Passes : Passes test_get_next_data_chunk_large_data
unfolding test_get_next_data_chunk_large_data next_chunks next_chunk new
test_get_next_data_chunk_large_data-Passes = refl

test_get_next_data_chunk_large_data_changing_max_buffer-Passes :
    Passes test_get_next_data_chunk_large_data_changing_max_buffer
unfolding test_get_next_data_chunk_large_data_changing_max_buffer next_chunks next_chunk new
test_get_next_data_chunk_large_data_changing_max_buffer-Passes = refl

test_get_next_data_chunk_large_data_twice-Passes : Passes test_get_next_data_chunk_large_data_twice
unfolding test_get_next_data_chunk_large_data_twice next_chunks next_chunk new
test_get_next_data_chunk_large_data_twice-Passes = refl
