-- ===== src/VDevices/Device.antt =====
-- src/vdevice_builder/vdevice.rs: a camera's device, which is a pipeline over /dev/video0. JSON, the
-- devices of `v4l2loopback` and the display of numbers are not part of the repository: arguments.
use webcam_direct_linux.Prelude.{
  ℕ, ◌≡◌, arith, Text, codes, List, ◌∷◌, ◌++◌, Option, none, some, Result, ok, err, panic, Exec,
  true,
}
use webcam_direct_linux.Ble.CommTypes.{CameraSdp}
use webcam_direct_linux.VDevices.Pipeline
use webcam_direct_linux.VDevices.Pipeline.{Gst, Elements, Thread, WebrtcPipeline, prepare}
use webcam_direct_linux.VDevices.Pipeline.Callbacks.{PipelineEvent, ice_gathering}
use webcam_direct_linux.VDevices.Pipeline.Answering.{new-answer}
use webcam_direct_linux.VDevices.Pipeline.Sending.{AllSilent}

pub record Sdp : Type 0 where
  pub type_ : Text
  pub sdp : Text

-- What `add_device` is asked for; the other fields are the defaults.
pub record DeviceConfig : Type 0 where
  pub min_width : ℕ
  pub max_width : ℕ
  pub min_height : ℕ
  pub max_height : ℕ
  pub max_buffers : ℕ
  pub max_openers : ℕ
  pub label : Text

pub record Loopback (W : Type 0) : Type 0 where
  pub add_device : DeviceConfig → Exec W ℕ
  pub delete_device : ℕ → Exec W (Unit {0})
  pub display : ℕ → Text

pub record V4l2Device : Type 0 where
  pub num : ℕ
  pub path : Text
  pub name : Text

abbrev pub config_of : Text → DeviceConfig
config_of name = record {
  min_width = 100;
  max_width = 4000;
  min_height = 100;
  max_height = 4000;
  max_buffers = 2;
  max_openers = 9;
  label = name;
}

module _ {W : Type 0} (v4l2 : Loopback W) where
  unfoldable pub new_v4l2_device : Text → Exec W V4l2Device
  new_v4l2_device name w = elim (v4l2.add_device (config_of name) w).0 [
    | ok num ↦ (
      ok (record { num = num; path = codes "/dev/video" ++ v4l2.display num; name = name }),
      (v4l2.add_device (config_of name) w).1,
    )
    | err e ↦ (
      err (codes "Failed to add virtual device with name " ++ name ++ codes " error " ++ e),
      (v4l2.add_device (config_of name) w).1,
    )
    | panic ↦ (panic, (v4l2.add_device (config_of name) w).1)
  ]

  -- A failure is only logged.
  unfoldable pub drop_v4l2_device : V4l2Device → W → W
  drop_v4l2_device device w = (v4l2.delete_device device.num w).1

pub record VDevice (G P Answer : Type 0) : Type 0 where
  pub webrtc_pipeline : WebrtcPipeline G P Answer

abbrev pub device_path : Text
device_path = codes "/dev/video0"

module _ {G E D F P Answer Offer : Type 0} (gst : Gst G E D F P Answer Offer)
    (from_str : Text → Result Sdp) where
  abbrev pub device_of_pipeline :
      Option (Result (WebrtcPipeline G P Answer)) → Option (Result (VDevice G P Answer))
  device_of_pipeline none = none
  device_of_pipeline (some (ok pipeline)) = some (ok (record { webrtc_pipeline = pipeline }))
  device_of_pipeline (some (err e)) = some (err e)
  device_of_pipeline (some panic) = some panic

  -- None while the pipeline's maker waits; an offer that is no JSON is refused before anything is
  -- made. The name is used only for the device that is commented out.
  unfoldable pub new : Text → CameraSdp → G → Option (Result (VDevice G P Answer)) × G
  new name camera_offer g = elim (from_str camera_offer.sdp) [
    | ok sdp_offer ↦
        let (r, thread) = Pipeline.new gst device_path sdp_offer.sdp camera_offer.format g in
        (device_of_pipeline r, thread.outside)
    | err e ↦ (some (err e), g)
    | panic ↦ (some panic, g)
  ]

  unfoldable pub get_sdp_answer : VDevice G P Answer → Text
  get_sdp_answer device = Pipeline.get_sdp_answer gst device.webrtc_pipeline

  -- A camera's device answers with the local description at the first time that the gathering is
  -- complete and the description can be written, once its offer is parsed and the pipeline
  -- prepared, where no callback before that fails, answers or ends the loop.
  pub get_sdp_answer-new :
      (name text : Text) (camera_offer : CameraSdp) (offer : Sdp) (g g1 g2 : G)
      (elements : Elements E) (sdp : Offer) (before after : List (PipelineEvent P Answer))
      → from_str camera_offer.sdp ≡ ok offer
      → prepare gst device_path camera_offer.format g ≡ (ok elements, g1)
      → gst.parse_buffer offer.sdp ≡ ok sdp
      → gst.set_remote_description elements.webrtcbin sdp g1 ≡ (ok tt, g2)
      → gst.events g2 ≡ before ++ ice_gathering true (ok text) ∷ after
      → AllSilent before
      → (device : VDevice G P Answer) × ((new name camera_offer g).0 ≡ some (ok device))
        × (get_sdp_answer device ≡ text)
  unfolding new get_sdp_answer
  get_sdp_answer-new name text camera_offer offer g g1 g2 elements sdp before after json prepared
        parsed set happens silent =
      let (p, made, answer) =
        new-answer gst device_path offer.sdp text camera_offer.format g g1 g2 elements sdp before
          after prepared parsed set happens silent in
      (record { webrtc_pipeline = p }, ground (arith, json, made), answer)
