-- ===== src/Examples/Media.antt =====
-- Kernel modules and pipelines over a system that counts what is asked of it.
use webcam_direct_linux.Prelude.{
  ℕ, suc, ◌≡◌, refl, arith, Text, codes, Bool, true, false, not, List, [], ◌∷◌, none, some, Result,
  ok, anyhow,
}
use webcam_direct_linux.Ble.CommTypes.{CameraSdp, default_video}
use webcam_direct_linux.VDevices.Modules.{
  Shell, any_line, VDeviceBuilder, new, drop, unload_if, is_kmodule_loaded, setup_videodev,
  setup_v4l2loopback, unless_loaded, load_kmodule,
}
use webcam_direct_linux.VDevices.Modules.Flags.{new-drop}
use webcam_direct_linux.VDevices.Pipeline.{
  Gst, Elements, prepare, make_elements, configure_device, assemble, watch_bus,
}
use webcam_direct_linux.VDevices.Pipeline.Callbacks.{
  Pad, PipelineEvent, decodebin_pad, webrtcbin_pad, ice_gathering, bus_error, eos, started,
  callback, run_loop,
}
use webcam_direct_linux.VDevices.Pipeline.Links.{IsWellLinked, run_loop-IsWellLinked}
use webcam_direct_linux.VDevices.Pipeline.Sending.{AllSilent}
use webcam_direct_linux.VDevices.Building.{GivesNone, make_device, build_from, build_from-waits}
use webcam_direct_linux.VDevices.Device
use webcam_direct_linux.VDevices.Device.{
  Sdp, VDevice, get_sdp_answer-new, get_sdp_answer, device_path,
}

abbrev registered : List (Result Text)
registered = ok (codes "snd 1") ∷ ok (codes "videodev 2") ∷ anyhow "unreadable" ∷ []

-- Every command works; only videodev is loaded.
abbrev shell : Shell ℕ
shell = record { status = λ cmd n. (ok true, suc n); lines = λ path n. (ok registered, n) }

abbrev flags : VDeviceBuilder
flags = record { is_v4l2loopback_loaded = true; is_videodev_loaded = false }

builder_made : new shell 0 ≡ (ok flags, 1)
unfolding new setup_videodev setup_v4l2loopback unless_loaded is_kmodule_loaded any_line
    load_kmodule
builder_made = refl

new-drop_example :
    (videodev v4l2loopback : Bool) × ((is_kmodule_loaded shell
        (codes "/proc/modules")
        (codes "videodev")
        0).0
      ≡ ok videodev)
    × ((is_kmodule_loaded shell
          (codes "/proc/modules")
          (codes "v4l2loopback")
          (setup_videodev shell 0).1).0
        ≡ ok v4l2loopback)
    × (drop shell flags 1
        ≡ unload_if shell
            (not videodev)
            (codes "videodev")
            (unload_if shell (not v4l2loopback) (codes "v4l2loopback") 1))
new-drop_example = new-drop shell 0 1 flags builder_made

-- The pads, answers, formats and parsed offers carry nothing; the callbacks are called as given.
abbrev Events : Type 0
Events = List (PipelineEvent (Unit {0}) (Unit {0}))

abbrev gst : Events → Gst ℕ ℕ ℕ (Unit {0}) (Unit {0}) (Unit {0}) Text
gst events = record {
  init = λ n. (ok tt, n);
  make = λ name n. (ok n, suc n);
  set_property = λ e p n. (ok tt, n);
  with_path = λ path n. (ok 0, n);
  format = λ d n. (ok (record { fourcc = []; width = 0; height = 0; rest = tt }), n);
  set_format = λ d f n. (ok tt, n);
  add_many = λ elements n. (ok tt, n);
  link_many = λ elements n. (ok tt, n);
  bus = λ n. some (λ m. (ok tt, m));
  set_state = λ state n. (ok tt, n);
  parse_buffer = λ text. ok text;
  set_remote_description = λ e offer n. (ok tt, n);
  events = λ n. events;
  dropped = λ n. true;
}

abbrev elements : Elements ℕ
elements = record {
  webrtcbin = 0;
  decodebin = 1;
  queue = 2;
  videosink = 6;
  videoconvert = 7;
  videoscale = 9;
}

prepared : (events : Events) → prepare (gst events) device_path default_video 0 ≡ (ok elements, 14)
unfolding prepare make_elements configure_device assemble watch_bus
prepared events = refl

abbrev video_pad : Pad (Unit {0})
video_pad = record {
  pad = tt;
  current_caps = some (some (codes "video/x-raw"));
  allowed_caps = none;
}

abbrev audio_pad : Pad (Unit {0})
audio_pad = record {
  pad = tt;
  current_caps = some (some (codes "audio/x-raw"));
  allowed_caps = none;
}

no_links : IsWellLinked (started {P = Unit {0}} {Answer = Unit {0}})
no_links = record {
  queue = λ pad e. absurd (ground (arith, e));
  decodebin = λ pad e. absurd (ground (arith, e));
}

run_loop-IsWellLinked_example :
    IsWellLinked
      (run_loop {P = Unit {0}} {Answer = Unit {0}}
        (decodebin_pad audio_pad true
          ∷ decodebin_pad video_pad true
          ∷ webrtcbin_pad video_pad true
          ∷ [])
        started).1
run_loop-IsWellLinked_example =
    run_loop-IsWellLinked {P = Unit {0}} {Answer = Unit {0}}
      (decodebin_pad audio_pad true
        ∷ decodebin_pad video_pad true
        ∷ webrtcbin_pad video_pad true
        ∷ [])
      started no_links

-- An error on the bus.
abbrev failing : Events
failing = bus_error ∷ []

failing-AllSilent : AllSilent failing
unfolding callback
failing-AllSilent = ((λ s. (refl, refl, refl)), tt)

abbrev parse_json : Text → Result Sdp
parse_json text = ok (record { type_ = codes "offer"; sdp = text })

abbrev front : CameraSdp
front = record { name = codes "front"; format = default_video; sdp = codes "v=0" }

-- Elements that are all alike.
abbrev still : Events → Gst ℕ ℕ ℕ (Unit {0}) (Unit {0}) (Unit {0}) Text
still events = record (gst events) { make = λ name n. (ok 0, n) }

abbrev alike : Elements ℕ
alike = record {
  webrtcbin = 0;
  decodebin = 0;
  queue = 0;
  videosink = 0;
  videoconvert = 0;
  videoscale = 0;
}

still_prepared : (n : ℕ) → prepare (still failing) device_path default_video n ≡ (ok alike, n)
unfolding prepare make_elements configure_device assemble watch_bus
still_prepared n = refl

abbrev back : CameraSdp
back = record { name = codes "back"; format = default_video; sdp = codes "v=2" }

build_from-waits_example :
    GivesNone
      (make_device (still failing) parse_json)
      (build_from
        (make_device (still failing) parse_json)
        (codes "phone")
        (back ∷ front ∷ back ∷ [])
        0).0
build_from-waits_example =
    build_from-waits (still failing) parse_json (codes "phone") (back ∷ []) (back ∷ []) front
      (record { type_ = codes "offer"; sdp = codes "v=0" }) (codes "v=0") 0 refl refl
      (λ n. (alike, n, n, still_prepared n, refl, failing-AllSilent))

abbrev answering : Events
answering = bus_error ∷ ice_gathering true (ok (codes "v=1")) ∷ eos ∷ []

get_sdp_answer-new_example :
    (device : VDevice ℕ (Unit {0}) (Unit {0})) × ((Device.new
        (gst answering)
        parse_json
        (codes "phone: front")
        front
        0).0
      ≡ some (ok device))
    × (get_sdp_answer (gst answering) parse_json device ≡ codes "v=1")
get_sdp_answer-new_example =
    get_sdp_answer-new (gst answering) parse_json (codes "phone: front") (codes "v=1") front
      (record { type_ = codes "offer"; sdp = codes "v=0" }) 0 14 14 elements (codes "v=0") failing
      (eos ∷ []) refl (prepared answering) refl refl refl failing-AllSilent
