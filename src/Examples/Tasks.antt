-- ===== src/Examples/Tasks.antt =====
-- Two clients' tasks and the server's, over a channel that is a list.
use webcam_direct_linux.Prelude.{
  ℕ, true, ◌⊎◌, ◌≡◌, ◌<◌, refl, arith, ltb, if◌then◌else◌, Bytes, List, [], ◌∷◌, ◌++◌, length,
  Option, none, some,
}
use webcam_direct_linux.Ble.Api
use webcam_direct_linux.Ble.Api.{BleComm}
use webcam_direct_linux.Ble.Requester.Requests.{ask}
use webcam_direct_linux.Ble.Requester.Queue.{
  Mpsc, IsFifo, Request, Tasks, Event, sent, replied, silent, to_phase, set_client, sending,
  waiting, ble_server, answer, Run, drain, request, enqueue, serve, here, next,
}
use webcam_direct_linux.Ble.Requester.Queue.Order.{
  ask_all, sent_of, served_of, replies_of, Run-ask_all,
}
use webcam_direct_linux.Ble.Requester.Queue.Outcomes.{given_of, returned_of, outcome, given_up}
use webcam_direct_linux.Ble.Requester.Queue.Waiting.{IsAnswered, Run-IsAnswered}
use webcam_direct_linux.Ble.Requester.Queue.Matched.{IsMatched, IsBounded, Run-IsMatched}
use webcam_direct_linux.Examples.World.{log_bus}
use webcam_direct_linux.Examples.Serving.{mobile_a, codecs, echo_service}
use webcam_direct_linux.Examples.Sessions.{mobile_b}

abbrev pub send : {A : Type 0} → A → List A → Option (List A)
send a q = if ltb (length q) 2 then some (q ++ a ∷ []) else none

abbrev pub recv : {A : Type 0} → List A → Option (A × List A)
recv [] = none
recv (a ∷ q) = some (a, q)

abbrev pub two_places : Mpsc (List Request) Request
two_places = record { channel = []; send = send; recv = recv }

send_lem :
    (a : Request) (q q' : List Request) → send a q ≡ some q' → (q' ≡ q ++ a ∷ []) × (length q < 2)
send_lem a q q' e = ground arith

recv_some : (a : Request) (q q' : List Request) → recv q ≡ some (a, q') → q ≡ a ∷ q'
recv_some a [] q' e = absurd (ground (arith, e))
recv_some a (b ∷ q) q' e = ground arith

recv_none : (q : List Request) → recv q ≡ none → q ≡ []
recv_none [] e = refl
recv_none (b ∷ q) e = absurd (ground (arith, e))

abbrev two_places-IsFifo : IsFifo two_places 2
two_places-IsFifo = record {
  contents = λ q. q;
  made = refl;
  sends = λ a q q' e. (send_lem a q q' e).0;
  has_room = λ a q q' e. (send_lem a q q' e).1;
  receives = recv_some;
  waits = recv_none;
}

abbrev ask_a : BleComm
ask_a = record {
  addr = mobile_a;
  comm_api = Api.query (record { query_type = Api.host_info; resp_buffer_len = 3 });
}

abbrev ask_b : BleComm
ask_b = record ask_a { addr = mobile_b }

abbrev begin : Tasks (List Request) (List Bytes) (Unit {0}) (Unit {0})
begin = ble_server two_places echo_service log_bus codecs []

abbrev State : Type 0
State = Tasks (List Request) (List Bytes) (Unit {0}) (Unit {0})

-- Client 1 sends before client 0, which asked first, and is answered.
abbrev both_asked : State
both_asked = to_phase 1 (sending ask_b) (to_phase 0 (sending ask_a) begin)

abbrev b_sent : State
b_sent = record {
  queue = (1, ask_b) ∷ [];
  server = begin.server;
  client = set_client both_asked.client 1 (waiting ask_b);
}

abbrev both_sent : State
both_sent = record {
  queue = (1, ask_b) ∷ (0, ask_a) ∷ [];
  server = begin.server;
  client = set_client b_sent.client 0 (waiting ask_a);
}

abbrev b_answered : State
b_answered = answer two_places echo_service log_bus codecs (1, ask_b) ((0, ask_a) ∷ []) both_sent

abbrev events : List (Event (Unit {0}))
events =
    silent
    ∷ silent
    ∷ sent (1, ask_b)
    ∷ sent (0, ask_a)
    ∷ replied (1, ask_b) (ask echo_service log_bus codecs ask_b begin.server).0
    ∷ []

begin_runs : Run two_places echo_service log_bus codecs begin events b_answered
unfolding ble_server
begin_runs = next {t = to_phase 0 (sending ask_a) begin} (request 0 ask_a refl refl refl) (
    next {t = both_asked} (request 1 ask_b refl refl refl) (
      next {t = b_sent} (enqueue 1 ask_b ((1, ask_b) ∷ []) refl refl refl refl refl) (
        next {t = both_sent}
          (enqueue 0 ask_a ((1, ask_b) ∷ (0, ask_a) ∷ []) refl refl refl refl refl)
          (next {t = b_answered} (serve (1, ask_b) ((0, ask_a) ∷ []) refl refl refl refl) here))))

Run-ask_all_example :
    (sent_of events ≡ served_of events ++ b_answered.queue)
    × (ask_all echo_service log_bus codecs (served_of events) begin.server
        ≡ (replies_of events, b_answered.server))
    × ((i : ℕ)
        → (given_up (b_answered.client i) ≡ true)
          ⊎ (given_of i events ≡ returned_of i events ++ outcome (b_answered.client i)))
Run-ask_all_example =
    Run-ask_all two_places echo_service log_bus codecs two_places-IsFifo [] events b_answered
      begin_runs

Run-IsMatched_example :
    IsMatched two_places echo_service log_bus codecs two_places-IsFifo b_answered
    × IsBounded two_places echo_service log_bus codecs two_places-IsFifo b_answered
Run-IsMatched_example =
    Run-IsMatched two_places echo_service log_bus codecs two_places-IsFifo [] events b_answered
      begin_runs

a_waits : b_answered.client 0 ≡ waiting ask_a
unfolding answer
a_waits = refl

Run-IsAnswered_example :
    IsAnswered two_places echo_service log_bus codecs two_places-IsFifo 0
      (drain two_places echo_service log_bus codecs 2 b_answered)
Run-IsAnswered_example =
    Run-IsAnswered two_places echo_service log_bus codecs two_places-IsFifo [] events b_answered 0
      ask_a begin_runs a_waits
