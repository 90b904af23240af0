-- ===== src/Examples/Gathering.antt =====
-- The unit tests of src/ble/server/mobile_buffer.rs in which commands are collected, run on the model.
use webcam_direct_linux.Prelude.{
  ℕ, zero, suc, ◌+◌, ◌-◌, refl, Bytes, List, [], ◌∷◌, ◌++◌, length, take, drop, Option, none, some,
  panic, Exec, lift, pure, ◌>>=◌, ◌>>◌, leb, ◌==◌, ◌=?◌, list_key, number_key, if◌then◌else◌,
}
use webcam_direct_linux.Ble.Api.{
  CmdApi, mobile_disconnected, register_mobile, sdp_offer, cmd_key, query_key,
}
use webcam_direct_linux.Ble.CommTypes.{DataChunk}
use webcam_direct_linux.Ble.Buffer.{MobileBufferMap, new}
use webcam_direct_linux.Examples.Buffering.{
  Test, chunk_len, addr_1, addr_2, assert, vec, next_chunk, next_chunks, complete, Passes,
  same_length,
}

abbrev assert_length : Option Bytes → ℕ → Test
assert_length none len = pure tt
assert_length (some buffer) len = assert (length buffer == len)

test_get_complete_buffer_simple_data : Test
test_get_complete_buffer_simple_data = do
  chunk ← next_chunk addr_2 100 (vec 55 95)
  assert (chunk.r == 0)
  buffer ← complete addr_2 mobile_disconnected chunk
  assert_length buffer 95

-- The loop up to the first buffer, which ends with an index out of range if there is none.
complete_first : List DataChunk → ℕ → Test
complete_first [] len = lift panic
complete_first (chunk ∷ chunks) len = do
  buffer ← complete addr_2 mobile_disconnected chunk
  elim buffer [ none ↦ complete_first chunks len | some bytes ↦ assert (length bytes == len) ]

test_get_complete_buffer_large_data : Test
test_get_complete_buffer_large_data = do
  chunks ← next_chunks 20 same_length addr_2 512 (vec 55 3355)
  complete_first chunks 3355

-- `assert_eq!` of two byte vectors.
abbrev assert_eq : Bytes → Bytes → Test
assert_eq xs ys = assert (xs =? ys)

assert_all : List DataChunk → Bytes → Test
assert_all [] bytes = pure tt
assert_all (chunk ∷ chunks) bytes = do assert_eq chunk.d bytes; assert_all chunks bytes

test_multiple_device_in_parallel_communication : Test
test_multiple_device_in_parallel_communication = do
  chunks1 ← next_chunks 20 same_length addr_1 (100 + chunk_len) (vec 55 1000)
  chunks2 ← next_chunks 20 same_length addr_2 (100 + chunk_len) (vec 66 1000)
  assert (length chunks1 == 10)
  assert (length chunks2 == 10)
  assert_all chunks1 (vec 55 100)
  assert_all chunks2 (vec 66 100)

-- The loop up to a call that gives nothing, or to as many bytes as are expected. The rounds bound the
-- loop.
complete_all : ℕ → CmdApi → DataChunk → ℕ → Bytes → Exec MobileBufferMap Bytes
complete_all zero cmd_type chunk len buffer = lift panic
complete_all (suc rounds) cmd_type chunk len buffer = do
  next ← complete addr_1 cmd_type chunk
  elim next [
    | none ↦ pure buffer
    | some bytes ↦
        (let rest = complete_all rounds cmd_type chunk len (buffer ++ bytes) in
          if leb len (length (buffer ++ bytes)) then pure (buffer ++ bytes) else rest)
  ]

test_single_device_single_parallel_communication : Test
test_single_device_single_parallel_communication = do
  buffer1 ← complete_all 3 mobile_disconnected (record { r = 0; d = vec 55 500 }) 500 []
  buffer2 ← complete_all 3 register_mobile (record { r = 0; d = vec 66 500 }) 500 []
  assert_eq buffer1 (vec 55 500)
  assert_eq buffer2 (vec 66 500)

-- The chunks of 100 bytes that end with byte 500 of `bytes`, from byte `start` on.
hundreds : ℕ → ℕ → Bytes → List DataChunk
hundreds zero start bytes = []
hundreds (suc rounds) start bytes =
    record { r = 500 - (start + 100); d = take 100 (drop start bytes) }
    ∷ hundreds rounds (start + 100) bytes

abbrev assert_buffer : Option Bytes → Bytes → Test
assert_buffer none bytes = pure tt
assert_buffer (some buffer) bytes = do assert (length buffer == 500); assert_eq buffer bytes

interleave : List DataChunk → List DataChunk → Test
interleave (chunk1 ∷ chunks1) (chunk2 ∷ chunks2) = do
  buffer1 ← complete addr_1 register_mobile chunk1
  assert_buffer buffer1 (vec 55 500)
  buffer2 ← complete addr_1 sdp_offer chunk2
  assert_buffer buffer2 (vec 66 500)
  interleave chunks1 chunks2
interleave [] chunks2 = pure tt
interleave (chunk1 ∷ chunks1) [] = pure tt

test_single_device_multiple_parallel_communication : Test
test_single_device_multiple_parallel_communication =
    interleave (hundreds 5 0 (vec 55 500)) (hundreds 5 0 (vec 66 500))

test_maximum_buffer_size : Test
test_maximum_buffer_size = do
  buffer ← complete addr_1 mobile_disconnected (record { r = 0; d = vec 55 5001 })
  elim buffer [ none ↦ pure tt | some bytes ↦ lift panic ]

test_get_complete_buffer_simple_data-Passes : Passes test_get_complete_buffer_simple_data
unfolding test_get_complete_buffer_simple_data next_chunk complete new
test_get_complete_buffer_simple_data-Passes = refl

test_get_complete_buffer_large_data-Passes : Passes test_get_complete_buffer_large_data
unfolding test_get_complete_buffer_large_data next_chunks next_chunk complete_first complete new
test_get_complete_buffer_large_data-Passes = refl

test_multiple_device_in_parallel_communication-Passes :
    Passes test_multiple_device_in_parallel_communication
unfolding test_multiple_device_in_parallel_communication next_chunks next_chunk assert_all new
test_multiple_device_in_parallel_communication-Passes = refl

test_single_device_single_parallel_communication-Passes :
    Passes test_single_device_single_parallel_communication
unfolding test_single_device_single_parallel_communication complete_all complete new
test_single_device_single_parallel_communication-Passes = refl

test_single_device_multiple_parallel_communication-Passes :
    Passes test_single_device_multiple_parallel_communication
unfolding test_single_device_multiple_parallel_communication interleave hundreds complete new
test_single_device_multiple_parallel_communication-Passes = refl

test_maximum_buffer_size-Passes : Passes test_maximum_buffer_size
unfolding test_maximum_buffer_size complete new
test_maximum_buffer_size-Passes = refl
