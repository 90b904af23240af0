-- ===== src/Ble/Requester.antt =====
-- src/ble/requester.rs, `BlePublisher` and `BleSubscriber`: data published to all subscribers of a
-- topic, in chunks. The channel is `tokio::sync::broadcast`, which is not part of the repository:
-- a parameter, an interface over the state `S` in which the channels live.
pub mod Publishing
pub mod Requests
pub mod Queue
pub mod Receiving
use webcam_direct_linux.Prelude.{
  ℕ, zero, suc, ◌-◌, Bytes, Text, List, [], ◌∷◌, length, take, drop, ◌==◌, if◌then◌else◌, Result,
  ok, err, panic, anyhow, checked_sub, Exec, lift, pure, ◌>>=◌, ◌>>◌,
}
use webcam_direct_linux.Ble.CommTypes.{DataChunk, Codec}

-- Senders are handles that may be cloned; `send` fails if nobody listens.
pub record Broadcast (S Tx Rx : Type 0) : Type 0 where
  pub channel : Exec S Tx
  pub send : Tx → Bytes → Exec S (Unit {0})
  pub subscribe : Tx → Exec S Rx
  pub recv : Rx → Exec S Bytes

pub record BlePublisher (Tx : Type 0) : Type 0 where
  pub publisher_tx : Tx
  pub resp_buffer_len : ℕ

-- `buffer.chunks(n)`, which panics at 0. The length of the buffer is enough fuel.
unfoldable pub chunks : ℕ → ℕ → Bytes → List Bytes
chunks zero n bytes = []
chunks (suc fuel) n [] = []
chunks (suc fuel) n (b ∷ bytes) = take n (b ∷ bytes) ∷ chunks fuel n (drop n (b ∷ bytes))

abbrev pub reported : Result Bytes → Result Bytes
reported (ok bytes) = ok bytes
reported (err e) = anyhow "Subscriber dropped"
reported panic = panic

module _ {S Tx Rx : Type 0} (bus : Broadcast S Tx Rx) where
  unfoldable pub new_publisher : ℕ → Exec S (BlePublisher Tx)
  new_publisher resp_buffer_len = do
    tx ← bus.channel
    pure (record { publisher_tx = tx; resp_buffer_len = resp_buffer_len })

  unfoldable pub send_chunks : Codec DataChunk → Tx → ℕ → List Bytes → Exec S (Unit {0})
  send_chunks codec tx remain_len [] = pure tt
  send_chunks codec tx remain_len (chunk ∷ rest) = do
    left ← lift (checked_sub remain_len (length chunk))
    encoded ← lift (codec.ser (record { r = left; d = chunk }))
    bus.send tx encoded
    send_chunks codec tx left rest

  unfoldable pub publish : Codec DataChunk → BlePublisher Tx → Bytes → Exec S (Unit {0})
  publish codec p buffer =
      if p.resp_buffer_len == 0
      then lift panic
      else send_chunks codec p.publisher_tx (length buffer)
          (chunks (length buffer) p.resp_buffer_len buffer)

  unfoldable pub get_subscriber : BlePublisher Tx → Exec S Rx
  get_subscriber p = bus.subscribe p.publisher_tx

  -- Any failure to receive is reported in one way.
  unfoldable pub recv : Rx → Exec S Bytes
  recv rx s = let (r, t) = bus.recv rx s in (reported r, t)
