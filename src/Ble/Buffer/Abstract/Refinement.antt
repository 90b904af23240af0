-- ===== src/Ble/Buffer/Abstract/Refinement.antt =====
-- src/ble/server/mobile_buffer.rs: the buffer map answers every sequence of calls as the view does.
use webcam_direct_linux.Prelude.{
  ℕ, ◌-◌, ◌≡◌, refl, subst, ap, ◌∙◌, arith, Bytes, List, [], ◌∷◌, length, get_or, Result, ◌==◌,
  Bool-cases, Result-cases, inl, inr, list_key, number_key,
}
use webcam_direct_linux.HashMap.{get}
use webcam_direct_linux.Ble.Api.{
  Address, mobile_disconnected, host_info, QueryReq, CommandReq, cmd_key, query_key,
}
use webcam_direct_linux.Ble.CommTypes.{DataChunk, Codec}
use webcam_direct_linux.Ble.Buffer.{
  MobileBufferMap, new, get_cursors, get_next_data_chunk, get_complete_buffer, remove_mobile,
  reader_at, writer_at,
}
use webcam_direct_linux.Ble.Buffer.Isolation.{remove_mobile_frame}
use webcam_direct_linux.Ble.Buffer.Reader.{expected_cut, cut_chunk-expected_cut}
use webcam_direct_linux.Ble.Buffer.Abstract.{
  View, Call, give, take_in, forget, Answer, given, taken, give_with, give_chunk, gather_chunk,
  Refines, empty_view, call, view_call, calls, view_calls,
}
use webcam_direct_linux.Ble.Buffer.Abstract.Steps.{give-Refines, left_lem, took_chunk}

new-Refines : (n : ℕ) → Refines (new n) (empty_view n)
unfolding new reader_at writer_at get_cursors get
new-Refines n = record { same_room = refl; same_left = λ a q. refl; same_gathered = λ a c. refl }

module _ (codec : Codec DataChunk) where
  gave_with :
      (addr : Address) (q : QueryReq) (bytes : Bytes) (m : MobileBufferMap) (v : View)
      → Refines m v
      → let (r, m') = get_next_data_chunk codec addr q bytes m in
        let (r', v') = give_with codec addr q bytes v (q.resp_buffer_len - m.chunk_len) in
        (r ≡ r') × Refines m' v'
  unfolding get_next_data_chunk
  gave_with addr q bytes m v s =
      let len = q.resp_buffer_len - m.chunk_len in
      let left = left_lem addr q bytes m v s in
      let same =
        cut_chunk-expected_cut len (get_or (v.left addr q.query_type) (length bytes)) bytes in
      elim (Bool-cases (len == 0)) [
        | inl small ↦ rw small (refl, s)
        | inr big ↦
            elim (Result-cases
              (expected_cut len (get_or (v.left addr q.query_type) (length bytes)) bytes)) [
                | inl (chunk, cut) ↦
                    rw (big, left, same, cut)
                      (refl, give-Refines m v addr len q.query_type chunk.r s)
                | inr (inl (e, failed)) ↦ rw (big, left, same, failed) (refl, s)
                | inr (inr failed) ↦ rw (big, left, same, failed) (refl, s)
              ]
      ]

  took :
      (addr : Address) (cmd : CommandReq) (m : MobileBufferMap) (v : View)
      → Refines m v
      → let (r, m') = get_complete_buffer codec addr cmd m in
        let (r', v') = gather_chunk codec addr cmd v in (r ≡ r') × Refines m' v'
  unfolding get_complete_buffer
  took addr cmd m v s = elim (Result-cases (codec.des cmd.payload)) [
    | inl (chunk, e) ↦
        rw (get_complete_buffer, gather_chunk, e) (took_chunk addr cmd.cmd_type chunk m v s)
    | inr (inl (x, e)) ↦ rw (get_complete_buffer, gather_chunk, e) (refl, s)
    | inr (inr e) ↦ rw (get_complete_buffer, gather_chunk, e) (refl, s)
  ]

  call-Refines :
      (c : Call) (m : MobileBufferMap) (v : View)
      → Refines m v
      → ((call codec c m).0 ≡ (view_call codec c v).0)
        × Refines (call codec c m).1 (view_call codec c v).1
  unfolding call view_call remove_mobile
  call-Refines (give addr q bytes) m v s =
      let (same, after) = gave_with addr q bytes m v s in
      let room : give_with codec addr q bytes v (q.resp_buffer_len - m.chunk_len)
          ≡ give_chunk codec addr q bytes v =
        ap (λ (n : ℕ). give_with codec addr q bytes v (q.resp_buffer_len - n)) s.same_room in
      (
        ap given (same ∙ ap (λ (p : Result Bytes × View). p.0) room),
        subst
            (λ (p : Result Bytes × View). Refines (get_next_data_chunk codec addr q bytes m).1 p.1)
            room after,
      )
  call-Refines (take_in addr cmd) m v s =
      let (same, after) = took addr cmd m v s in (ap taken same, after)
  call-Refines (forget addr) m v s = (
    refl,
    record {
      same_room = s.same_room;
      same_left = λ a q.
          ground (arith, (remove_mobile_frame addr m a q mobile_disconnected).0, s.same_left a q);
      same_gathered =
          λ a c. ground (arith, (remove_mobile_frame addr m a host_info c).1, s.same_gathered a c);
    },
  )

  calls-Refines :
      (cs : List Call) (m : MobileBufferMap) (v : View)
      → Refines m v
      → calls codec cs m ≡ view_calls codec cs v
  unfolding calls view_calls
  calls-Refines [] m v s = refl
  calls-Refines (c ∷ cs) m v s =
      let (same, after) = call-Refines c m v s in
      ap (λ (r : Answer). r ∷ calls codec cs (call codec c m).1) same
      ∙ ap (λ (rs : List Answer). (view_call codec c v).0 ∷ rs)
          (calls-Refines cs (call codec c m).1 (view_call codec c v).1 after)

  -- Every sequence of calls on a map that was just made, of any mobiles and with any results, is
  -- answered as by a table that keeps, for each mobile and query, what is left to give out and,
  -- for each mobile and command, what has been gathered.
  pub calls-view_calls :
      (chunk_len : ℕ) (cs : List Call)
      → calls codec cs (new chunk_len) ≡ view_calls codec cs (empty_view chunk_len)
  calls-view_calls chunk_len cs =
      calls-Refines cs (new chunk_len) (empty_view chunk_len) (new-Refines chunk_len)
