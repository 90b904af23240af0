-- ===== src/Ble/Buffer/Writer.antt =====
-- What one call of `get_complete_buffer` returns and leaves behind.
use webcam_direct_linux.Prelude.{
  ◌+◌, ◌≡◌, none, some, arith, Bytes, [], ◌++◌, length, get_or, ltb, ◌==◌, if◌then◌else◌, ok, err,
  Text, list_key, number_key,
}
use webcam_direct_linux.HashMap.{get, get-insert_self, get-remove_self}
use webcam_direct_linux.Ble.Api.{Address, CmdApi, CommandReq, max_buffer_len, cmd_key}
use webcam_direct_linux.Ble.CommTypes.{DataChunk, Codec}
use webcam_direct_linux.Ble.Buffer.{
  MobileBufferMap, get_cursors, set_cursors, collect_chunk, get_complete_buffer, writer_at,
}
use webcam_direct_linux.Ble.Buffer.Cursors.{get_cursors-set_self}

-- The bytes collected so far for a command.
abbrev pub collected : MobileBufferMap → Address → CmdApi → Bytes
collected m addr cmd_type = get_or (writer_at m addr cmd_type) []

-- The state after a chunk.
abbrev pub received : MobileBufferMap → Address → CmdApi → DataChunk → MobileBufferMap
received m addr cmd_type chunk =
    set_cursors m addr (collect_chunk cmd_type chunk (get_cursors m addr)).1

pub get_complete_buffer_lem :
    (codec : Codec DataChunk) (addr : Address) (cmd : CommandReq) (m : MobileBufferMap)
    (chunk : DataChunk)
    → codec.des cmd.payload ≡ ok chunk
    → get_complete_buffer codec addr cmd m ≡ (
      ok (collect_chunk cmd.cmd_type chunk (get_cursors m addr)).0,
      received m addr cmd.cmd_type chunk,
    )
unfolding get_complete_buffer
get_complete_buffer_lem codec addr cmd m chunk e = ground (arith, e)

pub get_complete_buffer-unreadable :
    (codec : Codec DataChunk) (addr : Address) (cmd : CommandReq) (m : MobileBufferMap) (e : Text)
    → codec.des cmd.payload ≡ err e
    → get_complete_buffer codec addr cmd m ≡ (err e, m)
unfolding get_complete_buffer
get_complete_buffer-unreadable codec addr cmd m e h = ground (arith, h)

module _ (m : MobileBufferMap) (addr : Address) (cmd_type : CmdApi) (chunk : DataChunk) where
  -- What the caller is given: the buffer, if this chunk completes it and it is not too long.
  pub answer_lem : (collect_chunk cmd_type chunk (get_cursors m addr)).0 ≡ (
      if ltb max_buffer_len (length (collected m addr cmd_type) + length chunk.d)
      then none
      else if chunk.r == 0
      then some (collected m addr cmd_type ++ chunk.d)
      else none)
  unfolding collect_chunk writer_at
  answer_lem = ground arith

  -- What the channel holds afterwards: the longer buffer, if it is neither complete nor too long.
  pub writer_at-received : writer_at (received m addr cmd_type chunk) addr cmd_type ≡ (
      if ltb max_buffer_len (length (collected m addr cmd_type) + length chunk.d)
      then none
      else if chunk.r == 0
      then none
      else some (collected m addr cmd_type ++ chunk.d))
  unfolding collect_chunk writer_at
  writer_at-received = ground (
    arith,
    get_cursors-set_self m addr (collect_chunk cmd_type chunk (get_cursors m addr)).1,
    get-remove_self (get_cursors m addr).writer cmd_type,
    get-insert_self (get_cursors m addr).writer cmd_type
        (get_or (get (get_cursors m addr).writer cmd_type) [] ++ chunk.d),
  )
