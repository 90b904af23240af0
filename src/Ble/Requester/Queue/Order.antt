-- ===== src/Ble/Requester/Queue/Order.antt =====
-- The requests of all clients, in whatever order their tasks take their steps, are answered as if
-- they had been asked one after the other.
use webcam_direct_linux.Prelude.{
  ℕ, ◌≡◌, ◌⊎◌, true, ap, refl, arith, List, [], ◌∷◌, ◌++◌, append-nil, append_assoc, Result,
}
use webcam_direct_linux.Ble.Requester.{Broadcast}
use webcam_direct_linux.Ble.Requester.Requests.{ServerTask, ask}
use webcam_direct_linux.Ble.Requester.Queue.{
  Mpsc, IsFifo, Request, Tasks, Event, sent, replied, hung_up, returned, silent, answer, Step,
  request, enqueue, refuse, serve, disconnect, finish, withdraw, abandon, ignore, ble_server, Run,
  here, next,
}
use webcam_direct_linux.Ble.Requester.Queue.Matched.{requests_of}
use webcam_direct_linux.Ble.Requester.Queue.Outcomes.{
  given_of, returned_of, outcome, given_up, Run-IsPassedOn,
}
use webcam_direct_linux.Ble.Server.Service.{CommDataService, Codecs}
use webcam_direct_linux.Ble.Server.{Reply}

module _ {Rx : Type 0} where
  abbrev pub sent_of : List (Event Rx) → List Request
  sent_of [] = []
  sent_of (sent asked ∷ events) = asked ∷ sent_of events
  sent_of (replied asked r ∷ events) = sent_of events
  sent_of (silent ∷ events) = sent_of events
  sent_of (hung_up i ∷ events) = sent_of events
  sent_of (returned i r ∷ events) = sent_of events

  abbrev pub served_of : List (Event Rx) → List Request
  served_of [] = []
  served_of (sent asked ∷ events) = served_of events
  served_of (replied asked r ∷ events) = asked ∷ served_of events
  served_of (silent ∷ events) = served_of events
  served_of (hung_up i ∷ events) = served_of events
  served_of (returned i r ∷ events) = served_of events

  abbrev pub replies_of : List (Event Rx) → List (Result (Reply Rx))
  replies_of [] = []
  replies_of (sent asked ∷ events) = replies_of events
  replies_of (replied asked r ∷ events) = r ∷ replies_of events
  replies_of (silent ∷ events) = replies_of events
  replies_of (hung_up i ∷ events) = replies_of events
  replies_of (returned i r ∷ events) = replies_of events

module _ {S Tx Rx : Type 0} (service : CommDataService S Tx) (bus : Broadcast S Tx Rx)
    (codecs : Codecs) where
  -- The requests asked one after the other, as by one client.
  unfoldable pub ask_all :
      List Request → ServerTask S Tx → List (Result (Reply Rx)) × ServerTask S Tx
  ask_all [] task = ([], task)
  ask_all (asked ∷ rest) task =
      let (r, task') = ask service bus codecs asked.1 task in
      let (replies, last) = ask_all rest task' in (r ∷ replies, last)

module _ {Q S Tx Rx : Type 0} (mpsc : Mpsc Q Request) (service : CommDataService S Tx)
    (bus : Broadcast S Tx Rx) (codecs : Codecs) where
  -- The state and the events of a run are those of asking the served requests in order.
  abbrev AsAsked : Tasks Q S Tx Rx → List (Event Rx) → Tasks Q S Tx Rx → Type 0
  AsAsked s events t =
      ask_all service bus codecs (served_of events) s.server ≡ (replies_of events, t.server)

  Step-AsAsked :
      (s t u : Tasks Q S Tx Rx) (event : Event Rx) (events : List (Event Rx))
      → Step mpsc service bus codecs s event t
      → AsAsked t events u
      → AsAsked s (event ∷ events) u
  unfolding ask_all answer
  Step-AsAsked s t u event events (request i comm was e st) rest = ground arith
  Step-AsAsked s t u event events (enqueue i comm q sending alive room e st) rest = ground arith
  Step-AsAsked s t u event events (refuse i comm sending gone e st) rest = ground arith
  Step-AsAsked s t u event events (serve asked q alive got e st) rest = ground arith
  Step-AsAsked s t u event events (disconnect i comm waits gone e st) rest = ground arith
  Step-AsAsked s t u event events (finish i r was e st) rest = ground arith
  Step-AsAsked s t u event events (withdraw i comm was e st) rest = ground arith
  Step-AsAsked s t u event events (abandon i comm was e st) rest = ground arith
  Step-AsAsked s t u event events (ignore i r was e st) rest = ground arith

  Run-AsAsked :
      (s t : Tasks Q S Tx Rx) (events : List (Event Rx))
      → Run mpsc service bus codecs s events t
      → AsAsked s events t
  unfolding ask_all
  Run-AsAsked s t [] here = refl
  Run-AsAsked s t (event ∷ events) (next {t = u} step run) =
      Step-AsAsked s u t event events step (Run-AsAsked u t events run)

  module _ {capacity : ℕ} (fifo : IsFifo mpsc capacity) where
    -- What was in the channel and what was sent is what was served, and what is left.
    abbrev IsInOrder : Tasks Q S Tx Rx → List (Event Rx) → Tasks Q S Tx Rx → Type 0
    IsInOrder s events t =
        fifo.contents s.queue ++ sent_of events ≡ served_of events ++ fifo.contents t.queue

    Step-IsInOrder :
        (s t u : Tasks Q S Tx Rx) (event : Event Rx) (events : List (Event Rx))
        → Step mpsc service bus codecs s event t
        → IsInOrder t events u
        → IsInOrder s (event ∷ events) u
    unfolding answer
    Step-IsInOrder s t u event events (request i comm was e st) rest = ground arith
    Step-IsInOrder s t u event events (enqueue i comm q sending alive room e st) rest = ground (
      arith,
      fifo.sends (i, comm) s.queue q room,
      append_assoc (fifo.contents s.queue) ((i, comm) ∷ []) (sent_of events),
    )
    Step-IsInOrder s t u event events (refuse i comm sending gone e st) rest = ground arith
    Step-IsInOrder s t u event events (serve asked q alive got e st) rest =
        ground (arith, fifo.receives asked s.queue q got)
    Step-IsInOrder s t u event events (disconnect i comm waits gone e st) rest = ground arith
    Step-IsInOrder s t u event events (finish i r was e st) rest = ground arith
    Step-IsInOrder s t u event events (withdraw i comm was e st) rest = ground arith
    Step-IsInOrder s t u event events (abandon i comm was e st) rest = ground arith
    Step-IsInOrder s t u event events (ignore i r was e st) rest = ground arith

    Run-IsInOrder :
        (s t : Tasks Q S Tx Rx) (events : List (Event Rx))
        → Run mpsc service bus codecs s events t
        → IsInOrder s events t
    Run-IsInOrder s t [] here = append-nil (fifo.contents s.queue)
    Run-IsInOrder s t (event ∷ events) (next {t = u} step run) =
        Step-IsInOrder s u t event events step (Run-IsInOrder u t events run)

    -- However the clients' tasks and the server's take their steps, the requests are served in the
    -- order in which they were sent, none is lost in the channel or served twice, and the replies
    -- and the server's state are those of asking the served requests one after the other. Every
    -- call that is not given up returns what it is given, and nothing else: the reply to its
    -- request, or once the task is gone that the channel is closed. The channel keeps the order of
    -- its messages.
    pub Run-ask_all :
        (outside : S) (events : List (Event Rx)) (t : Tasks Q S Tx Rx)
        → Run mpsc service bus codecs (ble_server mpsc service bus codecs outside) events t
        → (sent_of events ≡ served_of events ++ fifo.contents t.queue)
          × (ask_all service bus codecs
                (served_of events)
                (ble_server mpsc service bus codecs outside).server
              ≡ (replies_of events, t.server))
          × ((i : ℕ)
              → (given_up (t.client i) ≡ true)
                ⊎ (given_of i events ≡ returned_of i events ++ outcome (t.client i)))
    unfolding ble_server
    Run-ask_all outside events t run =
        let s = ble_server mpsc service bus codecs outside in
        (
          ground (arith, fifo.made, Run-IsInOrder s t events run),
          Run-AsAsked s t events run,
          λ i.
              Run-IsPassedOn mpsc service bus codecs fifo i s t events run
                (λ alive j. ap (requests_of j) fifo.made),
        )
