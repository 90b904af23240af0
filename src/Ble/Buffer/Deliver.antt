-- ===== src/Ble/Buffer/Deliver.antt =====
-- The whole transfer from a mobile: its chunks given to `get_complete_buffer` one by one.
use webcam_direct_linux.Prelude.{
  ℕ, ◌+◌, ◌≤◌, ◌<◌, ◌≡◌, ap, Option, none, some, arith, List, [], ◌∷◌, ◌++◌, append-nil,
  append_assoc, length, length-append, ok, lift, pure, Exec, ◌>>=◌,
}
use webcam_direct_linux.Ble.Api.{Address, CmdApi, CommandReq, CommBuffer, max_buffer_len}
use webcam_direct_linux.Ble.CommTypes.{DataChunk, Codec, ReadsBack, AlwaysWrites}
use webcam_direct_linux.Ble.Buffer.{
  MobileBufferMap, collect_chunk, get_cursors, get_complete_buffer, writer_at,
}
use webcam_direct_linux.Ble.Buffer.Reader.{payloads}
use webcam_direct_linux.Ble.Buffer.ReadAll.{IsTransfer}
use webcam_direct_linux.Ble.Buffer.Writer.{
  collected, received, get_complete_buffer_lem, answer_lem, writer_at-received,
}

-- The loop in which a mobile sends its chunks, until one call gives the buffer.
unfoldable pub deliver :
    Codec DataChunk → Address → CmdApi → List DataChunk → Exec MobileBufferMap (Option CommBuffer)
deliver codec addr cmd_type [] = pure none
deliver codec addr cmd_type (chunk ∷ chunks) = do
  payload ← lift (codec.ser chunk)
  answer ← get_complete_buffer codec addr (record { cmd_type = cmd_type; payload = payload })
  elim answer [ some buffer ↦ pure (some buffer) | none ↦ deliver codec addr cmd_type chunks ]

module _ (codec : Codec DataChunk) (reads : ReadsBack codec) (writes : AlwaysWrites codec)
    (addr : Address) (cmd_type : CmdApi) where
  deliver_step :
      (m : MobileBufferMap) (chunk : DataChunk) (chunks : List DataChunk)
      → deliver codec addr cmd_type (chunk ∷ chunks) m
        ≡ elim (collect_chunk cmd_type chunk (get_cursors m addr)).0 [
          | some buffer ↦ (ok (some buffer), received m addr cmd_type chunk)
          | none ↦ deliver codec addr cmd_type chunks (received m addr cmd_type chunk)
        ]
  unfolding deliver
  deliver_step m chunk chunks =
      let (payload, e) = writes chunk in
      let req : CommandReq = record { cmd_type = cmd_type; payload = payload } in
      ground (arith, e, get_complete_buffer_lem codec addr req m chunk (reads chunk payload e))

  -- A complete transfer that fits in the buffer gives exactly its bytes, behind those that were
  -- there, and closes the channel. The encoding writes and reads back.
  pub deliver-transfer :
      (len : ℕ) (chunks : List DataChunk) (m : MobileBufferMap)
      → IsTransfer len chunks
      → length (collected m addr cmd_type) + length (payloads chunks) ≤ max_buffer_len
      → (m' : MobileBufferMap) × (deliver codec addr cmd_type chunks m
          ≡ (ok (some (collected m addr cmd_type ++ payloads chunks)), m'))
        × (writer_at m' addr cmd_type ≡ none)
  deliver-transfer len [] m t fits = absurd t
  deliver-transfer len (c ∷ []) m t fits = (
    received m addr cmd_type c,
    rw append-nil
        (ground (arith, deliver_step m c [], answer_lem m addr cmd_type c, length-append c.d [])),
    ground (arith, writer_at-received m addr cmd_type c, length-append c.d []),
  )
  deliver-transfer len (c ∷ d ∷ cs) m t fits =
      let after = writer_at-received m addr cmd_type c in
      let count = length-append c.d (payloads (d ∷ cs)) in
      let joined : collected (received m addr cmd_type c) addr cmd_type
          ≡ collected m addr cmd_type ++ c.d =
        ground (arith, after, count) in
      let (m', run, closed) =
        deliver-transfer len (d ∷ cs) (received m addr cmd_type c) t.3
          (omega (arith, ap length joined, count, length-append (collected m addr cmd_type) c.d)) in
      (
        m',
        ground (
          arith,
          deliver_step m c (d ∷ cs),
          answer_lem m addr cmd_type c,
          count,
          run,
          joined,
          append_assoc (collected m addr cmd_type) c.d (payloads (d ∷ cs)),
        ),
        closed,
      )

  -- When the limit is met in the middle of a transfer, what was collected is dropped with the
  -- chunk, and the rest of the transfer, if it fits, is delivered as if it were the whole. The
  -- encoding writes and reads back.
  pub deliver-tail :
      (len : ℕ) (c d : DataChunk) (cs : List DataChunk) (m : MobileBufferMap)
      → IsTransfer len (c ∷ d ∷ cs)
      → max_buffer_len < length (collected m addr cmd_type) + length c.d
      → length (payloads (d ∷ cs)) ≤ max_buffer_len
      → (m' : MobileBufferMap) × (deliver codec addr cmd_type (c ∷ d ∷ cs) m
          ≡ (ok (some (payloads (d ∷ cs))), m'))
  deliver-tail len c d cs m t over fits =
      let after = writer_at-received m addr cmd_type c in
      let start : collected (received m addr cmd_type c) addr cmd_type ≡ [] =
        ground (arith, after) in
      let (m', run, _) =
        deliver-transfer len (d ∷ cs) (received m addr cmd_type c) t.3
          (omega (arith, ap length start)) in
      (m', ground (arith, deliver_step m c (d ∷ cs), answer_lem m addr cmd_type c, run, start))
