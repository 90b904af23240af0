-- ===== src/Ble/Requester/Queue.antt =====
-- The mailbox under concurrency: the tasks of the GATT clients, which send requests with the methods
-- of `BleRequester` (src/ble/requester.rs) and wait, and the task of `BleServer::new`
-- (src/ble/server/mod.rs), which receives them one by one. Their steps interleave in any order.
-- The channel is `tokio::sync::mpsc`, which is not part of the repository: an interface.
pub mod Order
pub mod Outcomes
pub mod Waiting
pub mod Matched
use webcam_direct_linux.Prelude.{
  ℕ, zero, suc, ◌≡◌, ◌<◌, ◌==◌, Bool, true, false, if◌then◌else◌, List, [], ◌∷◌, ◌++◌, length,
  Option, none, some, Result, anyhow,
}
use webcam_direct_linux.Ble.Api.{BleComm}
use webcam_direct_linux.Ble.Requester.{Broadcast}
use webcam_direct_linux.Ble.Requester.Requests.{ServerTask, ask}
use webcam_direct_linux.Ble.Server
use webcam_direct_linux.Ble.Server.Service.{CommDataService, Codecs}
use webcam_direct_linux.Ble.Server.{Reply}

-- `send` gives no channel while there is no room, and `recv` nothing while nothing was sent.
pub record Mpsc (Q A : Type 0) : Type 0 where
  pub channel : Q
  pub send : A → Q → Option Q
  pub recv : Q → Option (A × Q)

-- What its documentation promises of a bounded channel: messages come out in the order in which they
-- were sent, and as many as the capacity are kept.
pub record IsFifo {Q A : Type 0} (mpsc : Mpsc Q A) (capacity : ℕ) : Type 0 where
  pub contents : Q → List A
  pub made : contents mpsc.channel ≡ []
  pub sends : (a : A) (q q' : Q) → mpsc.send a q ≡ some q' → contents q' ≡ contents q ++ a ∷ []
  pub has_room : (a : A) (q q' : Q) → mpsc.send a q ≡ some q' → length (contents q) < capacity
  pub receives : (a : A) (q q' : Q) → mpsc.recv q ≡ some (a, q') → contents q ≡ a ∷ contents q'
  pub waits : (q : Q) → mpsc.recv q ≡ none → contents q ≡ []

-- Where a call of a `BleRequester` method stands: it was not made yet, it waits for room in the
-- channel, it waits on the oneshot channel of its request, its outcome is there, or was taken. A call
-- can be given up, when a `select!` takes another branch: it is `abandoned` while its request lies in
-- the channel, and else `dropped`.
pub data Phase (Rx : Type 0) : Type 0 where
  idle : Phase Rx
  sending waiting : BleComm → Phase Rx
  answered : Result (Reply Rx) → Phase Rx
  finished : Phase Rx
  abandoned : BleComm → Phase Rx
  dropped : Phase Rx

-- What a reply does to the call that it is for: if nobody waits any more it is lost.
abbrev pub deliver : {Rx : Type 0} → Result (Reply Rx) → Phase Rx → Phase Rx
deliver r (waiting comm) = answered r
deliver r (abandoned comm) = dropped
deliver r idle = idle
deliver r (sending comm) = sending comm
deliver r (answered r') = answered r'
deliver r finished = finished
deliver r dropped = dropped

-- The number stands for the call, whose oneshot sender goes with the request. A client makes one call
-- after the other, each with a number of its own.
abbrev pub Request : Type 0
Request = ℕ × BleComm

pub record Tasks (Q S Tx Rx : Type 0) : Type 0 where
  pub queue : Q
  pub server : ServerTask S Tx
  pub client : ℕ → Phase Rx

-- What a step does: a request is sent, it is handled, a call finds the channel closed, a call returns
-- its outcome, or none of these.
pub data Event (Rx : Type 0) : Type 0 where
  sent : Request → Event Rx
  replied : Request → Result (Reply Rx) → Event Rx
  hung_up : ℕ → Event Rx
  returned : ℕ → Result (Reply Rx) → Event Rx
  silent : Event Rx

abbrev pub set_client : {Rx : Type 0} → (ℕ → Phase Rx) → ℕ → Phase Rx → ℕ → Phase Rx
set_client client i phase j = if i == j then phase else client j

abbrev pub to_phase : {Q S Tx Rx : Type 0} → ℕ → Phase Rx → Tasks Q S Tx Rx → Tasks Q S Tx Rx
to_phase i phase s = record s { client = set_client s.client i phase }

abbrev pub closed : {Rx : Type 0} → Result (Reply Rx)
closed = anyhow "channel closed"

module _ {Q S Tx Rx : Type 0} (mpsc : Mpsc Q Request) (service : CommDataService S Tx)
    (bus : Broadcast S Tx Rx) (codecs : Codecs) where
  -- `BleServer::new`, with no call made yet.
  unfoldable pub ble_server : S → Tasks Q S Tx Rx
  ble_server outside = record {
    queue = mpsc.channel;
    server = record {
      alive = true;
      system = record { handler = Server.new codecs.data_chunk; outside = outside };
    };
    client = λ i. idle;
  }

  -- The request is handled, and its call is answered.
  unfoldable pub answer : Request → Q → Tasks Q S Tx Rx → Tasks Q S Tx Rx
  answer (i, comm) q s =
      let (r, task) = ask service bus codecs comm s.server in
      record { queue = q; server = task; client = set_client s.client i (deliver r (s.client i)) }

  -- One round of the task's loop; nothing happens while nothing is received.
  unfoldable pub serve_next : Tasks Q S Tx Rx → Tasks Q S Tx Rx
  serve_next s =
      if s.server.alive
      then elim (mpsc.recv s.queue) [ none ↦ s | some (request, q) ↦ answer request q s ]
      else s

  -- A call that is not answered yet is told that the channel is closed once the task is gone.
  pub data Step (s : Tasks Q S Tx Rx) (event : Event Rx) (t : Tasks Q S Tx Rx) : Type 0 where
    request :
        (i : ℕ) (comm : BleComm)
        → s.client i ≡ idle
        → event ≡ silent
        → t ≡ to_phase i (sending comm) s
        → Step s event t
    enqueue :
        (i : ℕ) (comm : BleComm) (q : Q)
        → s.client i ≡ sending comm
        → s.server.alive ≡ true
        → mpsc.send (i, comm) s.queue ≡ some q
        → event ≡ sent (i, comm)
        → t ≡ record { queue = q; server = s.server; client = set_client s.client i (waiting comm) }
        → Step s event t
    refuse :
        (i : ℕ) (comm : BleComm)
        → s.client i ≡ sending comm
        → s.server.alive ≡ false
        → event ≡ hung_up i
        → t ≡ to_phase i (answered closed) s
        → Step s event t
    serve :
        (asked : Request) (q : Q)
        → s.server.alive ≡ true
        → mpsc.recv s.queue ≡ some (asked, q)
        → event ≡ replied asked (ask service bus codecs asked.1 s.server).0
        → t ≡ answer asked q s
        → Step s event t
    disconnect :
        (i : ℕ) (comm : BleComm)
        → s.client i ≡ waiting comm
        → s.server.alive ≡ false
        → event ≡ hung_up i
        → t ≡ to_phase i (answered closed) s
        → Step s event t
    finish :
        (i : ℕ) (r : Result (Reply Rx))
        → s.client i ≡ answered r
        → event ≡ returned i r
        → t ≡ to_phase i finished s
        → Step s event t
    withdraw :
        (i : ℕ) (comm : BleComm)
        → s.client i ≡ sending comm
        → event ≡ silent
        → t ≡ to_phase i dropped s
        → Step s event t
    abandon :
        (i : ℕ) (comm : BleComm)
        → s.client i ≡ waiting comm
        → event ≡ silent
        → t ≡ to_phase i (abandoned comm) s
        → Step s event t
    ignore :
        (i : ℕ) (r : Result (Reply Rx))
        → s.client i ≡ answered r
        → event ≡ silent
        → t ≡ to_phase i dropped s
        → Step s event t

  pub data Run : Tasks Q S Tx Rx → List (Event Rx) → Tasks Q S Tx Rx → Type 0 where
    here : {s : Tasks Q S Tx Rx} → Run s [] s
    next :
        {s : Tasks Q S Tx Rx} {event : Event Rx} {events : List (Event Rx)} {t u : Tasks Q S Tx Rx}
        → Step s event t
        → Run t events u
        → Run s (event ∷ events) u

  -- Some rounds of the task's loop, while no client does anything.
  unfoldable pub drain : ℕ → Tasks Q S Tx Rx → Tasks Q S Tx Rx
  drain zero s = s
  drain (suc n) s = drain n (serve_next s)
