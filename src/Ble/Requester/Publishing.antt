-- ===== src/Ble/Requester/Publishing.antt =====
-- What a publication sends.
use webcam_direct_linux.Prelude.{
  ℕ, zero, suc, ◌≤◌, ◌<◌, ◌≡◌, refl, sym, ap, ◌∙◌, arith, Bytes, List, [], ◌∷◌, ◌++◌, append-nil,
  append_assoc, length, take, drop, length-take, length-drop, take-append-drop, take_all, ◌⊎◌, inl,
  inr, ◌==◌, false, ok, checked_sub,
}
use webcam_direct_linux.Ble.CommTypes.{DataChunk, Codec, ReadsBack, AlwaysWrites}
use webcam_direct_linux.Ble.Buffer.Reader.{payloads}
use webcam_direct_linux.Ble.Buffer.ReadAll.{IsTransfer, IsTransfer-cons}
use webcam_direct_linux.Ble.Requester.{Broadcast, BlePublisher, chunks, send_chunks, publish}

-- What is relied on for a channel with a listener: sending succeeds and appends to the messages.
pub record IsLive {S Tx Rx : Type 0} (bus : Broadcast S Tx Rx) (tx : Tx) (sent : S → List Bytes)
    : Type 0 where
  pub delivers :
      (b : Bytes) (s : S) → (t : S) × (bus.send tx b s ≡ (ok tt, t)) × (sent t ≡ sent s ++ b ∷ [])

-- The messages read as these chunks.
abbrev pub ReadAs : Codec DataChunk → List Bytes → List DataChunk → Type 0
ReadAs codec [] [] = Unit {0}
ReadAs codec (b ∷ bs) (c ∷ cs) = (codec.des b ≡ ok c) × ReadAs codec bs cs
ReadAs codec _ _ = ⊥

chunks_nil : (fuel n : ℕ) → chunks fuel n [] ≡ []
unfolding chunks
chunks_nil zero n = refl
chunks_nil (suc fuel) n = refl

chunks_step :
    (fuel n : ℕ) (l : Bytes)
    → 0 < length l
    → chunks (suc fuel) n l ≡ take n l ∷ chunks fuel n (drop n l)
unfolding chunks
chunks_step fuel n [] h = absurd (omega arith)
chunks_step fuel n (b ∷ bytes) h = refl

empty_or : (l : Bytes) → (l ≡ []) ⊎ (0 < length l)
empty_or [] = inl refl
empty_or (b ∷ l) = inr (omega arith)

module _ {S Tx Rx : Type 0} (bus : Broadcast S Tx Rx) (tx : Tx) (sent : S → List Bytes)
    (live : IsLive bus tx sent) (codec : Codec DataChunk) (reads : ReadsBack codec)
    (writes : AlwaysWrites codec) (n : ℕ) where
  -- One piece: it is sent with the number of bytes behind it, and the loop goes on with those.
  send_step :
      (l : Bytes) (rest : List Bytes) (s : S)
      → let c : DataChunk = record { r = length (drop n l); d = take n l } in
        (b : Bytes) × (t : S) × (send_chunks bus codec tx (length l) (take n l ∷ rest) s
          ≡ send_chunks bus codec tx (length (drop n l)) rest t)
        × (sent t ≡ sent s ++ b ∷ [])
        × (codec.des b ≡ ok c)
  unfolding send_chunks
  send_step l rest s =
      let c : DataChunk = record { r = length (drop n l); d = take n l } in
      let (b, e) = writes c in
      let (t, delivered, logged) = live.delivers b s in
      let left : checked_sub (length l) (length (take n l)) ≡ ok (length (drop n l)) =
        ground (arith, length-take n l, length-drop n l) in
      (b, t, rw (left, e, delivered), logged, reads c b e)

  send_chunks-IsTransfer :
      (fuel : ℕ) (l : Bytes) (s : S)
      → 0 < n
      → 0 < length l
      → length l ≤ fuel
      → (messages : List Bytes) × (cs : List DataChunk) × (t : S) × (send_chunks bus codec tx
            (length l)
            (chunks fuel n l)
            s
          ≡ (ok tt, t))
        × (sent t ≡ sent s ++ messages)
        × ReadAs codec messages cs
        × (payloads cs ≡ l)
        × IsTransfer n cs
  send_chunks-IsTransfer zero l s room some_data enough = absurd (omega arith)
  send_chunks-IsTransfer (suc fuel) l s room some_data enough =
      let (b, t, step, logged, reading) = send_step l (chunks fuel n (drop n l)) s in
      let c : DataChunk = record { r = length (drop n l); d = take n l } in
      let first = chunks_step fuel n l some_data in
      let short : length (take n l) ≤ n = omega (arith, length-take n l) in
      elim (empty_or (drop n l)) [
        | inl e ↦ (
          b ∷ [],
          c ∷ [],
          t,
          rw (first, step, e, chunks_nil fuel n) (unfold send_chunks in refl),
          logged,
          (reading, tt),
          rw append-nil (take_all n l (omega (arith, ap length e, length-drop n l))),
          (ap length e, short),
        )
        | inr more ↦
            let (messages, cs, t', run, logged', reading', joined, transfer) =
              send_chunks-IsTransfer fuel (drop n l) t room more (omega (arith, length-drop n l)) in
            (
              b ∷ messages,
              c ∷ cs,
              t',
              rw (first, step) run,
              logged' ∙ rw (logged, append_assoc),
              (reading, reading'),
              rw joined (take-append-drop n l),
              IsTransfer-cons n c cs transfer (sym (ap length joined)) more short,
            )
      ]

-- Publishing some data to a channel with a listener succeeds, and sends messages that read as a
-- complete transfer of exactly that data. The encoding writes and reads back, and the publisher's
-- chunks have room for a byte.
pub publish-IsTransfer :
    {S Tx Rx : Type 0} (bus : Broadcast S Tx Rx) (p : BlePublisher Tx) (sent : S → List Bytes)
    (codec : Codec DataChunk) (buffer : Bytes) (s : S)
    → IsLive bus p.publisher_tx sent
    → ReadsBack codec
    → AlwaysWrites codec
    → 0 < p.resp_buffer_len
    → 0 < length buffer
    → (messages : List Bytes) × (cs : List DataChunk) × (t : S) × (publish bus codec p buffer s
        ≡ (ok tt, t))
      × (sent t ≡ sent s ++ messages)
      × ReadAs codec messages cs
      × (payloads cs ≡ buffer)
      × IsTransfer p.resp_buffer_len cs
unfolding publish
publish-IsTransfer bus p sent codec buffer s live reads writes room some_data =
    let sending =
      send_chunks-IsTransfer bus p.publisher_tx sent live codec reads writes p.resp_buffer_len
        (length buffer) buffer s room some_data (omega arith) in
    let size : (p.resp_buffer_len == 0) ≡ false = ground arith in rw size sending
