-- ===== src/Ble/Requester/Queue/Matched.antt =====
-- What the channel holds: while the server's task runs, the request of each client that waits, once,
-- and no other.
use webcam_direct_linux.Prelude.{
  ℕ, ◌≤◌, ◌≡◌, refl, ap, arith, true, ◌==◌, ==_iff, if◌then◌else◌, List, [], ◌∷◌, ◌++◌, length,
  length-append,
}
use webcam_direct_linux.Ble.Api.{BleComm}
use webcam_direct_linux.Ble.Requester.{Broadcast}
use webcam_direct_linux.Ble.Requester.Requests.{ask}
use webcam_direct_linux.Ble.Requester.Queue.{
  Mpsc, IsFifo, Phase, idle, sending, waiting, answered, Request, Tasks, Event, answer, Step,
  request, enqueue, refuse, serve, disconnect, finish, withdraw, abandon, ignore, finished,
  abandoned, dropped, Run, here, next, ble_server,
}
use webcam_direct_linux.Ble.Server.Service.{CommDataService, Codecs}

-- The requests of one call among some.
abbrev pub requests_of : ℕ → List Request → List BleComm
requests_of i [] = []
requests_of i ((j, comm) ∷ asked) =
    if j == i then comm ∷ requests_of i asked else requests_of i asked

-- The request of a call that waits for its answer, or was given up since it was sent.
abbrev pub in_flight : {Rx : Type 0} → Phase Rx → List BleComm
in_flight (waiting comm) = comm ∷ []
in_flight idle = []
in_flight (sending comm) = []
in_flight (answered r) = []
in_flight finished = []
in_flight (abandoned comm) = comm ∷ []
in_flight dropped = []

requests_of-append :
    (i : ℕ) (xs ys : List Request) → requests_of i (xs ++ ys) ≡ requests_of i xs ++ requests_of i ys
requests_of-append i [] ys = refl
requests_of-append i ((j, comm) ∷ xs) ys = ground (arith, requests_of-append i xs ys)

module _ {Q S Tx Rx : Type 0} (mpsc : Mpsc Q Request) (service : CommDataService S Tx)
    (bus : Broadcast S Tx Rx) (codecs : Codecs) {capacity : ℕ} (fifo : IsFifo mpsc capacity) where
  -- While the task runs, the channel holds of each call the request that is in flight, and no other.
  abbrev pub IsMatched : Tasks Q S Tx Rx → Type 0
  IsMatched s =
      s.server.alive ≡ true
      → (i : ℕ) → requests_of i (fifo.contents s.queue) ≡ in_flight (s.client i)

  pub Step-IsMatched :
      (s t : Tasks Q S Tx Rx) (event : Event Rx)
      → Step mpsc service bus codecs s event t
      → IsMatched s
      → IsMatched t
  unfolding answer ask
  Step-IsMatched s t event (request i comm was e st) h alive j =
      ground (arith, ==_iff i j, h (ground arith) j)
  Step-IsMatched s t event (enqueue i comm q was alive room e st) h alive' j = ground (
    arith,
    ==_iff i j,
    h alive j,
    fifo.sends (i, comm) s.queue q room,
    requests_of-append j (fifo.contents s.queue) ((i, comm) ∷ []),
  )
  Step-IsMatched s t event (refuse i comm was gone e st) h alive j = ground arith
  Step-IsMatched s t event (serve (i, comm) q alive got e st) h alive' j =
      ground (arith, ==_iff i j, h alive j, fifo.receives (i, comm) s.queue q got)
  Step-IsMatched s t event (disconnect i comm was gone e st) h alive j = ground arith
  Step-IsMatched s t event (finish i r was e st) h alive j =
      ground (arith, ==_iff i j, h (ground arith) j)
  Step-IsMatched s t event (withdraw i comm was e st) h alive j =
      ground (arith, ==_iff i j, h (ground arith) j)
  Step-IsMatched s t event (abandon i comm was e st) h alive j =
      ground (arith, ==_iff i j, h (ground arith) j)
  Step-IsMatched s t event (ignore i r was e st) h alive j =
      ground (arith, ==_iff i j, h (ground arith) j)

  -- The channel is never longer than its capacity.
  abbrev pub IsBounded : Tasks Q S Tx Rx → Type 0
  IsBounded s = length (fifo.contents s.queue) ≤ capacity

  Step-IsBounded :
      (s t : Tasks Q S Tx Rx) (event : Event Rx)
      → Step mpsc service bus codecs s event t
      → IsBounded s
      → IsBounded t
  unfolding answer
  Step-IsBounded s t event (request i comm was e st) h = ground arith
  Step-IsBounded s t event (enqueue i comm q was alive room e st) h = ground (
    arith,
    fifo.sends (i, comm) s.queue q room,
    fifo.has_room (i, comm) s.queue q room,
    length-append (fifo.contents s.queue) ((i, comm) ∷ []),
  )
  Step-IsBounded s t event (refuse i comm was gone e st) h = ground arith
  Step-IsBounded s t event (serve asked q alive got e st) h =
      ground (arith, fifo.receives asked s.queue q got)
  Step-IsBounded s t event (disconnect i comm was gone e st) h = ground arith
  Step-IsBounded s t event (finish i r was e st) h = ground arith
  Step-IsBounded s t event (withdraw i comm was e st) h = ground arith
  Step-IsBounded s t event (abandon i comm was e st) h = ground arith
  Step-IsBounded s t event (ignore i r was e st) h = ground arith

  invariants_kept :
      (s t : Tasks Q S Tx Rx) (events : List (Event Rx))
      → Run mpsc service bus codecs s events t
      → IsMatched s
      → IsBounded s
      → IsMatched t × IsBounded t
  invariants_kept s t [] here h b = (h, b)
  invariants_kept s t (event ∷ events) (next {t = u} step run) h b =
      invariants_kept u t events run (Step-IsMatched s u event step h)
        (Step-IsBounded s u event step b)

  -- However the tasks take their steps, while the server's task runs the channel holds of each
  -- call that waits, and of each that was given up since it sent its request and whose request was
  -- not handled yet, exactly this request, and none of any other call; it never holds more
  -- requests than its capacity. The channel keeps its messages in order, up to its capacity.
  pub Run-IsMatched :
      (outside : S) (events : List (Event Rx)) (t : Tasks Q S Tx Rx)
      → Run mpsc service bus codecs (ble_server mpsc service bus codecs outside) events t
      → IsMatched t × IsBounded t
  unfolding ble_server
  Run-IsMatched outside events t run =
      invariants_kept (ble_server mpsc service bus codecs outside) t events run
        (λ alive i. ap (requests_of i) fifo.made) (omega (arith, ap length fifo.made))
