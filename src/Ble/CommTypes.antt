-- ===== src/Ble/CommTypes.antt =====
-- src/ble/comm_types.rs: the messages, and their MessagePack encoding. `rmp_serde` is not part of
-- the repository, so an encoding is a parameter: `ser` and `des` of one type, `msgpack_ser` and
-- `msgpack_des` there.
use webcam_direct_linux.Prelude.{ℕ, Text, Bytes, List, Result, ok, ◌≡◌}

-- `r` is the length that remains behind the chunk, `d` its bytes.
pub record DataChunk : Type 0 where
  pub r : ℕ
  pub d : Bytes

pub record VideoProp : Type 0 where
  pub resolution : ℕ × ℕ
  pub fps : ℕ

pub record CameraSdp : Type 0 where
  pub name : Text
  pub format : VideoProp
  pub sdp : Text

pub record MobileSdpOffer : Type 0 where
  pub mobile_id : Text
  pub camera_offer : List CameraSdp

pub record MobileSdpAnswer : Type 0 where
  pub camera_answer : List CameraSdp

pub record HostProvInfo : Type 0 where
  pub id : Text
  pub name : Text
  pub connection_type : Text

pub record SdpAnswerReady : Type 0 where
  pub mobile_id : Text

abbrev pub default_video : VideoProp
default_video = record { resolution = (0, 0); fps = 0 }

-- The two `TryFrom` implementations of a message type.
pub record Codec {ℓ} (A : Type ℓ) : Type ℓ where
  pub ser : A → Result Bytes
  pub des : Bytes → Result A

-- What the program relies on: reading gives back what was written.
abbrev pub ReadsBack {ℓ} : {A : Type ℓ} → Codec A → Type ℓ
ReadsBack {A} c = (a : A) (b : Bytes) → c.ser a ≡ ok b → c.des b ≡ ok a

-- Writing does not fail.
abbrev pub AlwaysWrites {ℓ} : {A : Type ℓ} → Codec A → Type ℓ
AlwaysWrites {A} c = (a : A) → (b : Bytes) × (c.ser a ≡ ok b)
