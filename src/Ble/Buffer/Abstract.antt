-- ===== src/Ble/Buffer/Abstract.antt =====
-- What src/ble/server/mobile_buffer.rs promises, without its nested maps: for each mobile and query
-- what is left to give out, and for each mobile and command what has been collected.
pub mod Steps
pub mod Refinement
use webcam_direct_linux.Prelude.{
  ℕ, ◌+◌, ◌-◌, ◌≡◌, ◌≢◌, refl, sym, subst, ap, ◌∙◌, arith, Bytes, Bool, true, false, ◌&&◌, Option,
  none, some, List, [], ◌∷◌, ◌++◌, length, get_or, Result, ok, err, panic, anyhow, ltb, ◌==◌,
  if◌then◌else◌, Bool-cases, Result-cases, inl, inr, list_key, number_key, ◌=?◌, =?_iff,
}
use webcam_direct_linux.HashMap.{HashMap, get}
use webcam_direct_linux.Ble.Buffer.Cursors.{chunk_len-set}
use webcam_direct_linux.Ble.Api.{
  Address, CommBuffer, CmdApi, mobile_disconnected, QueryApi, host_info, QueryReq, CommandReq,
  cmd_key, query_key, max_buffer_len,
}
use webcam_direct_linux.Ble.CommTypes.{DataChunk, Codec}
use webcam_direct_linux.Ble.Buffer.{
  BufferCursor, MobileBufferMap, new, get_cursors, set_cursors, close_reader, collect_chunk,
  get_next_data_chunk, get_complete_buffer, remove_mobile, reader_at, writer_at,
}
use webcam_direct_linux.Ble.Buffer.Reader.{reader-close_reader, expected_cut}
use webcam_direct_linux.Ble.Buffer.Writer.{
  collected, received, get_complete_buffer_lem, answer_lem, writer_at-received,
}
use webcam_direct_linux.Ble.Buffer.Isolation.{
  cursors-set, close_reader-reader_ne, close_reader-writer, collect_chunk-writer_ne,
  collect_chunk-reader, reader-set, writer-set, get_complete_buffer_frame,
  get_next_data_chunk_frame, remove_mobile_frame,
}

pub record View : Type 0 where
  pub room_taken : ℕ
  pub left : Address → QueryApi → Option ℕ
  pub gathered : Address → CmdApi → Option CommBuffer

pub data Call : Type 0 where
  give : Address → QueryReq → Bytes → Call
  take_in : Address → CommandReq → Call
  forget : Address → Call

pub data Answer : Type 0 where
  given : Result Bytes → Answer
  taken : Result (Option CommBuffer) → Answer
  forgotten : Answer

abbrev pub with_left : View → Address → QueryApi → Option ℕ → View
with_left v addr qt r = record v {
  left = λ a q. if (addr =? a) && (qt =? q) then r else v.left a q;
}

abbrev pub with_gathered : View → Address → CmdApi → Option CommBuffer → View
with_gathered v addr ct b = record v {
  gathered = λ a c. if (addr =? a) && (ct =? c) then b else v.gathered a c;
}

-- A chunk from where the last one ended; nothing is left behind the last chunk, or when the chunks
-- are too long.
abbrev pub give_with : Codec DataChunk → Address → QueryReq → Bytes → View → ℕ → Result Bytes × View
give_with codec addr q bytes v len =
    if len == 0
    then (anyhow "Response buffer length too small", v)
    else (elim (expected_cut len (get_or (v.left addr q.query_type) (length bytes)) bytes) [
      | ok chunk ↦ (
        codec.ser chunk,
        with_left v addr q.query_type
            (if chunk.r == 0 then none else if ltb max_buffer_len len then none else some chunk.r),
      )
      | err e ↦ (err e, v)
      | panic ↦ (panic, v)
    ])

abbrev pub give_chunk : Codec DataChunk → Address → QueryReq → Bytes → View → Result Bytes × View
give_chunk codec addr q bytes v = give_with codec addr q bytes v (q.resp_buffer_len - v.room_taken)

-- The bytes behind those gathered: they are the answer with the last chunk, and are dropped if they
-- are too many.
abbrev pub gather : Address → CmdApi → DataChunk → View → Result (Option CommBuffer) × View
gather addr ct chunk v =
    let all = get_or (v.gathered addr ct) [] ++ chunk.d in
    let count = length (get_or (v.gathered addr ct) []) + length chunk.d in
    if ltb max_buffer_len count
    then (ok none, with_gathered v addr ct none)
    else if chunk.r == 0
    then (ok (some all), with_gathered v addr ct none)
    else (ok none, with_gathered v addr ct (some all))

abbrev pub gather_chunk :
    Codec DataChunk → Address → CommandReq → View → Result (Option CommBuffer) × View
gather_chunk codec addr cmd v = elim (codec.des cmd.payload) [
  | ok chunk ↦ gather addr cmd.cmd_type chunk v
  | err e ↦ (err e, v)
  | panic ↦ (panic, v)
]

abbrev pub forget_mobile : Address → View → View
forget_mobile addr v = record v {
  left = λ a q. if addr =? a then none else v.left a q;
  gathered = λ a c. if addr =? a then none else v.gathered a c;
}

abbrev pub empty_view : ℕ → View
empty_view n = record { room_taken = n; left = λ a q. none; gathered = λ a c. none }

-- The map as the view sees it.
pub record Refines (m : MobileBufferMap) (v : View) : Type 0 where
  pub same_room : m.chunk_len ≡ v.room_taken
  pub same_left : (a : Address) (q : QueryApi) → reader_at m a q ≡ v.left a q
  pub same_gathered : (a : Address) (c : CmdApi) → writer_at m a c ≡ v.gathered a c

module _ (codec : Codec DataChunk) where
  -- A call of the map.
  unfoldable pub call : Call → MobileBufferMap → Answer × MobileBufferMap
  call (give addr q bytes) m =
      let (r, m') = get_next_data_chunk codec addr q bytes m in (given r, m')
  call (take_in addr cmd) m = let (r, m') = get_complete_buffer codec addr cmd m in (taken r, m')
  call (forget addr) m = (forgotten, remove_mobile addr m)

  -- The same call of the view.
  unfoldable pub view_call : Call → View → Answer × View
  view_call (give addr q bytes) v = let (r, v') = give_chunk codec addr q bytes v in (given r, v')
  view_call (take_in addr cmd) v = let (r, v') = gather_chunk codec addr cmd v in (taken r, v')
  view_call (forget addr) v = (forgotten, forget_mobile addr v)

  unfoldable pub calls : List Call → MobileBufferMap → List Answer
  calls [] m = []
  calls (c ∷ cs) m = let (r, m') = call c m in r ∷ calls cs m'

  unfoldable pub view_calls : List Call → View → List Answer
  view_calls [] v = []
  view_calls (c ∷ cs) v = let (r, v') = view_call c v in r ∷ view_calls cs v'
