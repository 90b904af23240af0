-- ===== src/Ble/Requester/Queue/Outcomes.antt =====
-- What the calls of `BleRequester` (src/ble/requester.rs) return: the reply that the server gave to the
-- request of the call, or that the channel is closed.
use webcam_direct_linux.Prelude.{
  ℕ, ◌≡◌, ◌⊎◌, inl, inr, arith, true, false, ◌==◌, ==_iff, if◌then◌else◌, Bool, Bool-cases, List,
  [], ◌∷◌, ◌++◌, Result,
}
use webcam_direct_linux.Ble.Requester.{Broadcast}
use webcam_direct_linux.Ble.Requester.Queue.{
  Mpsc, IsFifo, Phase, idle, sending, waiting, answered, finished, abandoned, dropped, closed,
  Request, Tasks, Event, sent, replied, hung_up, returned, silent, answer, Step, request, enqueue,
  refuse, serve, disconnect, finish, withdraw, abandon, ignore, Run, here, next,
}
use webcam_direct_linux.Ble.Requester.Queue.Matched.{IsMatched, Step-IsMatched}
use webcam_direct_linux.Ble.Server.Service.{CommDataService, Codecs}
use webcam_direct_linux.Ble.Server.{Reply}

module _ {Rx : Type 0} where
  -- What there is for one call: the reply to its request, and that the channel is closed.
  abbrev pub given_of : ℕ → List (Event Rx) → List (Result (Reply Rx))
  given_of i [] = []
  given_of i (sent asked ∷ events) = given_of i events
  given_of i (replied (j, comm) r ∷ events) =
      if j == i then r ∷ given_of i events else given_of i events
  given_of i (hung_up j ∷ events) = if j == i then closed ∷ given_of i events else given_of i events
  given_of i (returned j r ∷ events) = given_of i events
  given_of i (silent ∷ events) = given_of i events

  -- What one call returned.
  abbrev pub returned_of : ℕ → List (Event Rx) → List (Result (Reply Rx))
  returned_of i [] = []
  returned_of i (sent asked ∷ events) = returned_of i events
  returned_of i (replied asked r ∷ events) = returned_of i events
  returned_of i (hung_up j ∷ events) = returned_of i events
  returned_of i (returned j r ∷ events) =
      if j == i then r ∷ returned_of i events else returned_of i events
  returned_of i (silent ∷ events) = returned_of i events

  -- An outcome that is there and was not taken.
  abbrev pub outcome : Phase Rx → List (Result (Reply Rx))
  outcome (answered r) = r ∷ []
  outcome idle = []
  outcome (sending comm) = []
  outcome (waiting comm) = []
  outcome finished = []
  outcome (abandoned comm) = []
  outcome dropped = []

  abbrev pub given_up : Phase Rx → Bool
  given_up (abandoned comm) = true
  given_up dropped = true
  given_up idle = false
  given_up (sending comm) = false
  given_up (waiting comm) = false
  given_up (answered r) = false
  given_up finished = false

module _ {Q S Tx Rx : Type 0} (mpsc : Mpsc Q Request) (service : CommDataService S Tx)
    (bus : Broadcast S Tx Rx) (codecs : Codecs) where
  Step-given_up :
      (i : ℕ) (s t : Tasks Q S Tx Rx) (event : Event Rx)
      → Step mpsc service bus codecs s event t
      → given_up (s.client i) ≡ true
      → given_up (t.client i) ≡ true
  unfolding answer
  Step-given_up i s t event (request j comm was e st) h = ground (arith, ==_iff j i)
  Step-given_up i s t event (enqueue j comm q was alive room e st) h = ground (arith, ==_iff j i)
  Step-given_up i s t event (refuse j comm was gone e st) h = ground (arith, ==_iff j i)
  Step-given_up i s t event (serve (j, comm) q alive got e st) h = ground (arith, ==_iff j i)
  Step-given_up i s t event (disconnect j comm was gone e st) h = ground (arith, ==_iff j i)
  Step-given_up i s t event (finish j r was e st) h = ground (arith, ==_iff j i)
  Step-given_up i s t event (withdraw j comm was e st) h = ground (arith, ==_iff j i)
  Step-given_up i s t event (abandon j comm was e st) h = ground (arith, ==_iff j i)
  Step-given_up i s t event (ignore j r was e st) h = ground (arith, ==_iff j i)

  Run-given_up :
      (i : ℕ) (s t : Tasks Q S Tx Rx) (events : List (Event Rx))
      → Run mpsc service bus codecs s events t
      → given_up (s.client i) ≡ true
      → given_up (t.client i) ≡ true
  Run-given_up i s t [] here h = h
  Run-given_up i s t (event ∷ events) (next {t = u} step run) h =
      Run-given_up i u t events run (Step-given_up i s u event step h)

  -- What was there and is given to a call is what it returned, and what is there still.
  abbrev pub IsPassedOn : ℕ → Tasks Q S Tx Rx → List (Event Rx) → Tasks Q S Tx Rx → Type 0
  IsPassedOn i s events t =
      outcome (s.client i) ++ given_of i events ≡ returned_of i events ++ outcome (t.client i)

  module _ {capacity : ℕ} (fifo : IsFifo mpsc capacity) where
    Step-IsPassedOn :
        (i : ℕ) (s t u : Tasks Q S Tx Rx) (event : Event Rx) (events : List (Event Rx))
        → Step mpsc service bus codecs s event t
        → IsMatched mpsc service bus codecs fifo s
        → given_up (t.client i) ≡ false
        → IsPassedOn i t events u
        → IsPassedOn i s (event ∷ events) u
    unfolding answer
    Step-IsPassedOn i s t u event events (request j comm was e st) h up rest =
        ground (arith, ==_iff j i)
    Step-IsPassedOn i s t u event events (enqueue j comm q was alive room e st) h up rest =
        ground (arith, ==_iff j i)
    Step-IsPassedOn i s t u event events (refuse j comm was gone e st) h up rest =
        ground (arith, ==_iff j i)
    Step-IsPassedOn i s t u event events (serve (j, comm) q alive got e st) h up rest =
        ground (arith, ==_iff j i, h alive i, fifo.receives (j, comm) s.queue q got)
    Step-IsPassedOn i s t u event events (disconnect j comm was gone e st) h up rest =
        ground (arith, ==_iff j i)
    Step-IsPassedOn i s t u event events (finish j r was e st) h up rest =
        ground (arith, ==_iff j i)
    Step-IsPassedOn i s t u event events (withdraw j comm was e st) h up rest =
        ground (arith, ==_iff j i)
    Step-IsPassedOn i s t u event events (abandon j comm was e st) h up rest =
        ground (arith, ==_iff j i)
    Step-IsPassedOn i s t u event events (ignore j r was e st) h up rest =
        ground (arith, ==_iff j i)

    -- Of every call that was not given up.
    pub Run-IsPassedOn :
        (i : ℕ) (s t : Tasks Q S Tx Rx) (events : List (Event Rx))
        → Run mpsc service bus codecs s events t
        → IsMatched mpsc service bus codecs fifo s
        → (given_up (t.client i) ≡ true) ⊎ IsPassedOn i s events t
    Run-IsPassedOn i s t [] here h = inr (ground arith)
    Run-IsPassedOn i s t (event ∷ events) (next {t = u} step run) h =
        let h' = Step-IsMatched mpsc service bus codecs fifo s u event step h in
        elim (Bool-cases (given_up (u.client i))) [
          | inl lost ↦ inl (Run-given_up i u t events run lost)
          | inr up ↦ elim (Run-IsPassedOn i u t events run h') [
            | inl lost ↦ inl lost
            | inr rest ↦ inr (Step-IsPassedOn i s u t event events step h up rest)
          ]
        ]
