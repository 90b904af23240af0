-- ===== src/Examples/Receiving.antt =====
-- A broadcast channel with one subscriber: its state is the messages sent, and those that wait.
use webcam_direct_linux.Prelude.{
  ◌≡◌, refl, arith, Bytes, List, [], ◌∷◌, ◌++◌, length, Result, ok, anyhow,
}
use webcam_direct_linux.Ble.CommTypes.{DataChunk}
use webcam_direct_linux.Ble.Buffer.Reader.{payloads}
use webcam_direct_linux.Ble.Buffer.ReadAll.{IsTransfer}
use webcam_direct_linux.Ble.Requester.{Broadcast, publish}
use webcam_direct_linux.Ble.Requester.Publishing.{IsLive, ReadAs}
use webcam_direct_linux.Ble.Requester.Receiving.{IsHeard, recv_all, publish-recv_all}
use webcam_direct_linux.Examples.World.{
  chunk_codec, chunk_codec-ReadsBack, chunk_codec-AlwaysWrites,
}
use webcam_direct_linux.Examples.Serving.{by_two}

abbrev Channel : Type 0
Channel = List Bytes × List Bytes

abbrev take_first : List Bytes → Channel → Result Bytes × Channel
take_first [] s = (anyhow "closed", s)
take_first (b ∷ rest) s = (ok b, (s.0, rest))

abbrev heard_bus : Broadcast Channel (Unit {0}) (Unit {0})
heard_bus = record {
  channel = λ s. (ok tt, s);
  send = λ tx b s. (ok tt, (s.0 ++ b ∷ [], s.1 ++ b ∷ []));
  subscribe = λ tx s. (ok tt, s);
  recv = λ rx s. take_first s.1 s;
}

heard_bus-IsLive : IsLive heard_bus tt (λ s. s.0)
heard_bus-IsLive = record { delivers = λ b s. ((s.0 ++ b ∷ [], s.1 ++ b ∷ []), refl, refl) }

sent_waits : (b : Bytes) (s t : Channel) → heard_bus.send tt b s ≡ (ok tt, t) → t.1 ≡ s.1 ++ b ∷ []
sent_waits b s t e = ground arith

first_given :
    (b : Bytes) (rest : List Bytes) (s : Channel)
    → s.1 ≡ b ∷ rest
    → (t : Channel) × (heard_bus.recv tt s ≡ (ok b, t)) × (t.1 ≡ rest)
first_given b rest s e = ((s.0, rest), ground arith, refl)

heard_bus-IsHeard : IsHeard heard_bus tt tt (λ s. s.1)
heard_bus-IsHeard = record { queues = λ b s t e room. sent_waits b s t e; gives = first_given }

publish-recv_all_example :
    (messages : List Bytes) × (cs : List DataChunk) × (t : Channel) × (u : Channel) × (publish
        heard_bus chunk_codec by_two
        (1 ∷ 2 ∷ 3 ∷ [])
        ([], [])
      ≡ (ok tt, t))
    × (recv_all heard_bus tt (length messages) t ≡ (ok messages, u))
    × (u.1 ≡ [])
    × ReadAs chunk_codec messages cs
    × (payloads cs ≡ 1 ∷ 2 ∷ 3 ∷ [])
    × IsTransfer 2 cs
publish-recv_all_example =
    publish-recv_all heard_bus by_two tt (λ s. s.0) (λ s. s.1) chunk_codec (1 ∷ 2 ∷ 3 ∷ []) ([], [])
      heard_bus-IsLive heard_bus-IsHeard chunk_codec-ReadsBack chunk_codec-AlwaysWrites
      (omega arith) (omega arith) (omega arith) refl
