-- ===== src/Ble/Requester/Queue/Waiting.antt =====
-- No client waits in vain: the server's task answers each request that lies in the channel.
use webcam_direct_linux.Prelude.{
  ℕ, zero, suc, ◌≤◌, ◌<◌, ◌≡◌, ◌⊎◌, inl, inr, refl, ap, ◌∙◌, arith, true, false, ◌==◌, ==_iff,
  Bool-cases, Option-cases, List, [], ◌∷◌, length, Result,
}
use webcam_direct_linux.Ble.Api.{BleComm}
use webcam_direct_linux.Ble.Requester.{Broadcast}
use webcam_direct_linux.Ble.Requester.Requests.{ask}
use webcam_direct_linux.Ble.Requester.Queue.{
  Mpsc, IsFifo, waiting, answered, Request, Tasks, Event, answer, serve_next, serve, Run,
  ble_server, drain,
}
use webcam_direct_linux.Ble.Server.Service.{CommDataService, Codecs}
use webcam_direct_linux.Ble.Server.{Reply}
use webcam_direct_linux.Ble.Requester.Queue.Matched.{
  requests_of, in_flight, IsMatched, Step-IsMatched, Run-IsMatched,
}

pending :
    (i : ℕ) (comm : BleComm) (asked : List Request)
    → requests_of i asked ≡ comm ∷ []
    → 0 < length asked
pending i comm [] e = absurd (ground (arith, e))
pending i comm (one ∷ asked) e = omega arith

module _ {Q S Tx Rx : Type 0} (mpsc : Mpsc Q Request) (service : CommDataService S Tx)
    (bus : Broadcast S Tx Rx) (codecs : Codecs) {capacity : ℕ} (fifo : IsFifo mpsc capacity) where
  serve_next_gone :
      (s : Tasks Q S Tx Rx) → s.server.alive ≡ false → serve_next mpsc service bus codecs s ≡ s
  unfolding serve_next
  serve_next_gone s gone = ground arith

  drain_next :
      (n : ℕ) (s t : Tasks Q S Tx Rx)
      → serve_next mpsc service bus codecs s ≡ t
      → drain mpsc service bus codecs (suc n) s ≡ drain mpsc service bus codecs n t
  unfolding drain
  drain_next n s t e = ap (λ (u : Tasks Q S Tx Rx). drain mpsc service bus codecs n u) e

  drain_gone :
      (n : ℕ) (s : Tasks Q S Tx Rx) → s.server.alive ≡ false → drain mpsc service bus codecs n s ≡ s
  unfolding drain
  drain_gone zero s gone = refl
  drain_gone (suc n) s gone = drain_next n s s (serve_next_gone s gone) ∙ drain_gone n s gone

  -- A round of the loop while the task runs: it waits, or serves the first request.
  abbrev Served : Tasks Q S Tx Rx → Type 0
  Served s =
      ((fifo.contents s.queue ≡ []) × (serve_next mpsc service bus codecs s ≡ s))
      ⊎ ((asked : Request) × (q : Q) × (fifo.contents s.queue ≡ asked ∷ fifo.contents q)
          × (serve_next mpsc service bus codecs s ≡ answer mpsc service bus codecs asked q s)
          × IsMatched mpsc service bus codecs fifo (serve_next mpsc service bus codecs s))

  serve_next_cases :
      (s : Tasks Q S Tx Rx)
      → IsMatched mpsc service bus codecs fifo s
      → s.server.alive ≡ true
      → Served s
  unfolding serve_next
  serve_next_cases s h alive = elim (Option-cases (mpsc.recv s.queue)) [
    | inl empty ↦ inl (fifo.waits s.queue empty, ground arith)
    | inr ((asked, q), got) ↦
        let t = answer mpsc service bus codecs asked q s in
        let runs : serve_next mpsc service bus codecs s ≡ t = ground arith in
        let kept : IsMatched mpsc service bus codecs fifo t =
          Step-IsMatched mpsc service bus codecs fifo s t _ (serve asked q alive got refl refl) h in
        inr (asked, q, fifo.receives asked s.queue q got, runs, rw runs kept)
  ]

  -- A client that does not wait is left alone by a round that serves another.
  answer_other :
      (i : ℕ) (asked : Request) (q : Q) (s : Tasks Q S Tx Rx)
      → IsMatched mpsc service bus codecs fifo s
      → s.server.alive ≡ true
      → in_flight (s.client i) ≡ []
      → fifo.contents s.queue ≡ asked ∷ fifo.contents q
      → (answer mpsc service bus codecs asked q s).client i ≡ s.client i
  unfolding answer
  answer_other i (j, comm) q s h alive quiet e = ground (arith, ==_iff j i, h alive i)

  drain_keeps :
      (n i : ℕ) (r : Result (Reply Rx)) (s : Tasks Q S Tx Rx)
      → IsMatched mpsc service bus codecs fifo s
      → s.client i ≡ answered r
      → (drain mpsc service bus codecs n s).client i ≡ answered r
  unfolding drain
  drain_keeps zero i r s h e = e
  drain_keeps (suc n) i r s h e = elim (Bool-cases s.server.alive) [
    | inr gone ↦ ap (λ (t : Tasks Q S Tx Rx). t.client i) (drain_gone (suc n) s gone) ∙ e
    | inl alive ↦ elim (serve_next_cases s h alive) [
      | inl (empty, stays) ↦
          ap (λ (t : Tasks Q S Tx Rx). t.client i) (drain_next n s s stays)
          ∙ drain_keeps n i r s h e
      | inr (asked, q, taken, runs, kept) ↦
          drain_keeps n i r (serve_next mpsc service bus codecs s) kept (
            ap (λ (t : Tasks Q S Tx Rx). t.client i) runs
            ∙ answer_other i asked q s h alive (ap in_flight e) taken
            ∙ e)
    ]
  ]

  -- The client is answered, or the task is gone.
  abbrev pub IsAnswered : ℕ → Tasks Q S Tx Rx → Type 0
  IsAnswered i t = (t.server.alive ≡ false) ⊎ ((r : Result (Reply Rx)) × (t.client i ≡ answered r))

  -- A round that serves a request brings the client its answer, or leaves it waiting with fewer
  -- requests before its own.
  answer_cases :
      (i : ℕ) (comm : BleComm) (asked : Request) (q : Q) (s : Tasks Q S Tx Rx)
      → s.client i ≡ waiting comm
      → let t = answer mpsc service bus codecs asked q s in
        ((r : Result (Reply Rx)) × (t.client i ≡ answered r)) ⊎ (t.client i ≡ waiting comm)
  unfolding answer
  answer_cases i comm (j, other) q s e = elim (Bool-cases (j == i)) [
    | inl same ↦ inl ((ask service bus codecs other s.server).0, ground arith)
    | inr differs ↦ inr (ground arith)
  ]

  drain-IsAnswered :
      (n i : ℕ) (comm : BleComm) (s : Tasks Q S Tx Rx)
      → IsMatched mpsc service bus codecs fifo s
      → length (fifo.contents s.queue) ≤ n
      → s.client i ≡ waiting comm
      → IsAnswered i (drain mpsc service bus codecs n s)
  unfolding drain answer
  drain-IsAnswered zero i comm s h short e = elim (Bool-cases s.server.alive) [
    | inr gone ↦ inl gone
    | inl alive ↦
        absurd (omega (arith, pending i comm (fifo.contents s.queue) (h alive i ∙ ap in_flight e)))
  ]
  drain-IsAnswered (suc n) i comm s h short e = elim (Bool-cases s.server.alive) [
    | inr gone ↦
        inl (ap (λ (t : Tasks Q S Tx Rx). t.server.alive) (drain_gone (suc n) s gone) ∙ gone)
    | inl alive ↦ elim (serve_next_cases s h alive) [
      | inl (empty, stays) ↦ absurd (
          omega (
            arith,
            ap length empty,
            pending i comm (fifo.contents s.queue) (h alive i ∙ ap in_flight e),
          ))
      | inr (asked, q, taken, runs, kept) ↦
          let t = serve_next mpsc service bus codecs s in
          let left : fifo.contents t.queue ≡ fifo.contents q =
            ap (λ (u : Tasks Q S Tx Rx). fifo.contents u.queue) runs in
          elim (answer_cases i comm asked q s e) [
            | inl (r, got) ↦
                inr (
                  r,
                  drain_keeps n i r t kept (ap (λ (u : Tasks Q S Tx Rx). u.client i) runs ∙ got),
                )
            | inr still ↦
                drain-IsAnswered n i comm t kept (omega (arith, ap length left, ap length taken))
                  (ap (λ (u : Tasks Q S Tx Rx). u.client i) runs ∙ still)
          ]
    ]
  ]

  -- However the tasks have taken their steps, a client that waits for an answer has one after as
  -- many rounds of the server's loop as the channel holds at most, unless a request has ended the
  -- task. The channel keeps its messages in order, up to its capacity.
  pub Run-IsAnswered :
      (outside : S) (events : List (Event Rx)) (t : Tasks Q S Tx Rx) (i : ℕ) (comm : BleComm)
      → Run mpsc service bus codecs (ble_server mpsc service bus codecs outside) events t
      → t.client i ≡ waiting comm
      → IsAnswered i (drain mpsc service bus codecs capacity t)
  Run-IsAnswered outside events t i comm run e =
      let kept = Run-IsMatched mpsc service bus codecs fifo outside events t run in
      drain-IsAnswered capacity i comm t kept.0 kept.1 e
