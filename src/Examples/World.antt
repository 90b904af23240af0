-- ===== src/Examples/World.antt =====
-- A concrete encoding of chunks and a concrete broadcast channel, for the examples.
use webcam_direct_linux.Prelude.{refl, arith, Bytes, List, [], ◌∷◌, ◌++◌, Result, ok, anyhow}
use webcam_direct_linux.Ble.CommTypes.{DataChunk, Codec, ReadsBack, AlwaysWrites}
use webcam_direct_linux.Ble.Requester.{Broadcast}
use webcam_direct_linux.Ble.Requester.Publishing.{IsLive}

-- The remaining length first, then the bytes.
abbrev pub write_chunk : DataChunk → Result Bytes
write_chunk c = ok (c.r ∷ c.d)

abbrev pub read_chunk : Bytes → Result DataChunk
read_chunk [] = anyhow "no chunk"
read_chunk (r ∷ d) = ok (record { r = r; d = d })

abbrev pub chunk_codec : Codec DataChunk
chunk_codec = record { ser = write_chunk; des = read_chunk }

pub chunk_codec-ReadsBack : ReadsBack chunk_codec
chunk_codec-ReadsBack c b e = ground arith

pub chunk_codec-AlwaysWrites : AlwaysWrites chunk_codec
chunk_codec-AlwaysWrites c = (c.r ∷ c.d, refl)

-- A codec that reads nothing and writes nothing.
abbrev pub no_codec {ℓ} : {A : Type ℓ} → Codec A
no_codec = record { ser = λ a. ok []; des = λ b. anyhow "unreadable" }

-- One channel with a listener: its state is the messages sent.
abbrev pub log_bus : Broadcast (List Bytes) (Unit {0}) (Unit {0})
log_bus = record {
  channel = λ s. (ok tt, s);
  send = λ tx b s. (ok tt, s ++ b ∷ []);
  subscribe = λ tx s. (ok tt, s);
  recv = λ rx s. (anyhow "closed", s);
}

pub log_bus-IsLive : IsLive log_bus tt (λ s. s)
log_bus-IsLive = record { delivers = λ b s. (s ++ b ∷ [], refl, refl) }
