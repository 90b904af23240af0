-- ===== src/Ble/Requester/Receiving.antt =====
-- src/ble/requester.rs: what a `BleSubscriber` receives of what a `BlePublisher` publishes.
use webcam_direct_linux.Prelude.{
  ℕ, zero, suc, ◌+◌, ◌*◌, ◌≤◌, ◌<◌, ◌≡◌, refl, sym, ap, ◌∙◌, arith, Bytes, List, [], ◌∷◌, ◌++◌,
  append-nil, append_assoc, length, drop, length-append, length-drop, ok, Exec, pure, ◌>>=◌,
  continue_ok, checked_sub,
}
use webcam_direct_linux.Ble.CommTypes.{DataChunk, Codec, ReadsBack, AlwaysWrites}
use webcam_direct_linux.Ble.Buffer.Reader.{payloads}
use webcam_direct_linux.Ble.Buffer.ReadAll.{IsTransfer}
use webcam_direct_linux.Ble.Requester.{Broadcast, BlePublisher, chunks, send_chunks, publish, recv}
use webcam_direct_linux.Ble.Requester.Publishing.{IsLive, ReadAs, publish-IsTransfer}

-- `broadcast::channel(128)`.
abbrev pub broadcast_capacity : ℕ
broadcast_capacity = 128

-- What is relied on for a subscriber: a message that was sent waits for it behind the others while
-- there is room for it, and receiving gives the first that waits.
pub record IsHeard {S Tx Rx : Type 0} (bus : Broadcast S Tx Rx) (tx : Tx) (rx : Rx)
    (pending : S → List Bytes) : Type 0 where
  pub queues :
      (b : Bytes) (s t : S)
      → bus.send tx b s ≡ (ok tt, t)
      → length (pending s) < broadcast_capacity
      → pending t ≡ pending s ++ b ∷ []
  pub gives :
      (b : Bytes) (rest : List Bytes) (s : S)
      → pending s ≡ b ∷ rest
      → (t : S) × (bus.recv rx s ≡ (ok b, t)) × (pending t ≡ rest)

-- Receiving as many messages as are asked for.
pub recv_all : {S Tx Rx : Type 0} → Broadcast S Tx Rx → Rx → ℕ → Exec S (List Bytes)
recv_all bus rx zero = pure []
recv_all bus rx (suc n) = do
  message ← recv bus rx
  messages ← recv_all bus rx n
  pure (message ∷ messages)

append_cancel : (xs ys zs : List Bytes) → xs ++ ys ≡ xs ++ zs → ys ≡ zs
append_cancel [] ys zs e = e
append_cancel (x ∷ xs) ys zs e = append_cancel xs ys zs (ground (arith, e))

-- The pieces of a buffer are as many as its length needs.
length-chunks :
    (fuel n k : ℕ) (bytes : Bytes) → 0 < n → length bytes ≤ k * n → length (chunks fuel n bytes) ≤ k
unfolding chunks
length-chunks zero n k bytes room short = omega arith
length-chunks (suc fuel) n k [] room short = omega arith
length-chunks (suc fuel) n zero (b ∷ bytes) room short = absurd (grind arith)
length-chunks (suc fuel) n (suc k) (b ∷ bytes) room short =
    let rest : length (drop n (b ∷ bytes)) ≤ k * n = grind (arith, length-drop n (b ∷ bytes)) in
    omega (arith, length-chunks fuel n k (drop n (b ∷ bytes)) room rest)

module _ {S Tx Rx : Type 0} (bus : Broadcast S Tx Rx) (tx : Tx) (rx : Rx)
    (sent pending : S → List Bytes) (live : IsLive bus tx sent)
    (heard : IsHeard bus tx rx pending) where
  -- The first of some pieces that are sent.
  first_sent :
      (codec : Codec DataChunk) (remain_len : ℕ) (piece : Bytes) (pieces : List Bytes) (s t : S)
      → send_chunks bus codec tx remain_len (piece ∷ pieces) s ≡ (ok tt, t)
      → (left : ℕ) × (b : Bytes) × (u : S) × (bus.send tx b s ≡ (ok tt, u))
        × (sent u ≡ sent s ++ b ∷ [])
        × (send_chunks bus codec tx left pieces u ≡ (ok tt, t))
  unfolding send_chunks
  first_sent codec remain_len piece pieces s t e =
      let (left, _, e1) = continue_ok (checked_sub remain_len (length piece)) _ s t tt e in
      let (b, _, e2) = continue_ok (codec.ser (record { r = left; d = piece })) _ s t tt e1 in
      let (u, delivered, logged) = live.delivers b s in
      (left, b, u, delivered, logged, ground (arith, delivered, e2))

  none_sent :
      (codec : Codec DataChunk) (remain_len : ℕ) (s t : S)
      → send_chunks bus codec tx remain_len [] s ≡ (ok tt, t)
      → s ≡ t
  unfolding send_chunks
  none_sent codec remain_len s t e = ground arith

  -- What is sent, as long as there is room for it, waits for the subscriber.
  send_chunks-pending :
      (codec : Codec DataChunk) (remain_len : ℕ) (pieces : List Bytes) (s t : S)
      → send_chunks bus codec tx remain_len pieces s ≡ (ok tt, t)
      → length (pending s) + length pieces ≤ broadcast_capacity
      → (messages : List Bytes) × (sent t ≡ sent s ++ messages)
        × (pending t ≡ pending s ++ messages)
  send_chunks-pending codec remain_len [] s t e room =
      let same = none_sent codec remain_len s t e in
      (
        [],
        sym (ap sent same) ∙ sym (append-nil (sent s)),
        sym (ap pending same) ∙ sym (append-nil (pending s)),
      )
  send_chunks-pending codec remain_len (piece ∷ pieces) s t e room =
      let (left, b, u, delivered, logged, rest) = first_sent codec remain_len piece pieces s t e in
      let waits = heard.queues b s u delivered (omega arith) in
      let count = ap length waits in
      let (messages, m1, m2) =
        send_chunks-pending codec left pieces u t rest
          (omega (arith, count, length-append (pending s) (b ∷ []))) in
      (
        b ∷ messages,
        m1
            ∙ ap (λ (l : List Bytes). l ++ messages) logged
            ∙ append_assoc (sent s) (b ∷ []) messages,
        m2
            ∙ ap (λ (l : List Bytes). l ++ messages) waits
            ∙ append_assoc (pending s) (b ∷ []) messages,
      )

  recv_all-pending :
      (messages : List Bytes) (s : S)
      → pending s ≡ messages
      → (t : S) × (recv_all bus rx (length messages) s ≡ (ok messages, t)) × (pending t ≡ [])
  unfolding recv_all recv
  recv_all-pending [] s e = (s, refl, e)
  recv_all-pending (m ∷ messages) s e =
      let (t, given, rest) = heard.gives m messages s e in
      let (u, run, done) = recv_all-pending messages t rest in (u, ground (arith, given, run), done)

publish_sends :
    {S Tx Rx : Type 0} (bus : Broadcast S Tx Rx) (codec : Codec DataChunk) (p : BlePublisher Tx)
    (buffer : Bytes) (s : S)
    → 0 < p.resp_buffer_len
    → publish bus codec p buffer s
      ≡ send_chunks bus codec p.publisher_tx
          (length buffer)
          (chunks (length buffer) p.resp_buffer_len buffer)
          s
unfolding publish
publish_sends bus codec p buffer s room = ground arith

-- A subscriber that nothing waits for, and that receives as many messages as were published, is
-- given a complete transfer of exactly the published data, and nothing waits for it again. The
-- data are some, and at most 128 chunks of them; the publisher's chunks have room for a byte, and
-- the encoding writes and reads back.
pub publish-recv_all :
    {S Tx Rx : Type 0} (bus : Broadcast S Tx Rx) (p : BlePublisher Tx) (rx : Rx)
    (sent pending : S → List Bytes) (codec : Codec DataChunk) (buffer : Bytes) (s : S)
    → IsLive bus p.publisher_tx sent
    → IsHeard bus p.publisher_tx rx pending
    → ReadsBack codec
    → AlwaysWrites codec
    → 0 < p.resp_buffer_len
    → 0 < length buffer
    → length buffer ≤ broadcast_capacity * p.resp_buffer_len
    → pending s ≡ []
    → (messages : List Bytes) × (cs : List DataChunk) × (t : S) × (u : S) × (publish bus codec p
          buffer s
        ≡ (ok tt, t))
      × (recv_all bus rx (length messages) t ≡ (ok messages, u))
      × (pending u ≡ [])
      × ReadAs codec messages cs
      × (payloads cs ≡ buffer)
      × IsTransfer p.resp_buffer_len cs
publish-recv_all bus p rx sent pending codec buffer s live heard reads writes room some_data few
      quiet =
    let tx = p.publisher_tx in
    let (messages, cs, t, run, logged, reading, joined, transfer) =
      publish-IsTransfer bus p sent codec buffer s live reads writes room some_data in
    let pieces = chunks (length buffer) p.resp_buffer_len buffer in
    let count =
      length-chunks (length buffer) p.resp_buffer_len broadcast_capacity buffer room few in
    let (messages', logged', waits) =
      send_chunks-pending bus tx rx sent pending live heard codec (length buffer) pieces s t
        (sym (publish_sends bus codec p buffer s room) ∙ run)
        (omega (arith, count, ap length quiet)) in
    let same = append_cancel (sent s) messages' messages (sym logged' ∙ logged) in
    let (u, received, done) =
      recv_all-pending bus tx rx sent pending live heard messages t
        (waits ∙ ap (λ (l : List Bytes). l ++ messages') quiet ∙ same) in
    (messages, cs, t, u, run, received, done, reading, joined, transfer)
