-- ===== src/VDevices/Building.antt =====
-- src/vdevice_builder/mod.rs, `create_from` over `VDevice::new` of src/vdevice_builder/vdevice.rs, which
-- may wait for ever: then none is given, and whoever asked for the devices waits too.
use webcam_direct_linux.Prelude.{
  ◌≡◌, ◌∙◌, sym, subst, ap, arith, Text, List, [], ◌∷◌, ◌++◌, Option, none, some, Result, ok, err,
  panic, ◌⊎◌, inl, inr, Option-cases, Result-cases, list_key, number_key,
}
use webcam_direct_linux.HashMap.{HashMap, insert}
use webcam_direct_linux.Ble.CommTypes.{CameraSdp}
use webcam_direct_linux.VDevices.{vdevice_name}
use webcam_direct_linux.VDevices.Device
use webcam_direct_linux.VDevices.Device.{Sdp, device_path}
use webcam_direct_linux.VDevices.Pipeline.{Gst, Elements, prepare}
use webcam_direct_linux.VDevices.Pipeline.Answering.{new-waits}
use webcam_direct_linux.VDevices.Pipeline.Sending.{AllSilent}

-- What making a device gives: none while it waits.
abbrev pub Making : Type 0 → Type 0 → Type 0
Making G V = Text → CameraSdp → G → Option (Result V) × G

module _ {G V : Type 0} (new_device : Making G V) where
  abbrev Built : Type 0
  Built = Option (Result (HashMap Text V)) × G

  unfoldable pub build_devices :
      Text → List CameraSdp → HashMap Text V → G → Option (Result (HashMap Text V)) × G
  build_devices mobile_name [] device_map g = (some (ok device_map), g)
  build_devices mobile_name (camera_offer ∷ rest) device_map g =
      let made = new_device (vdevice_name mobile_name camera_offer) camera_offer g in
      elim made.0 [
        | none ↦ (none, made.1)
        | some outcome ↦ elim outcome [
          | ok vdevice ↦
              build_devices mobile_name rest (insert device_map camera_offer.name vdevice) made.1
          | err e ↦ build_devices mobile_name rest device_map made.1
          | panic ↦ (some panic, made.1)
        ]
      ]

  unfoldable pub build_from : Text → List CameraSdp → G → Option (Result (HashMap Text V)) × G
  build_from mobile_name camera_offer_list = build_devices mobile_name camera_offer_list []

  -- The builder comes to no map: it waits, or is gone.
  abbrev pub GivesNone : Option (Result (HashMap Text V)) → Type 0
  GivesNone r = (r ≡ none) ⊎ (r ≡ some panic)

  -- What becomes of one camera.
  module _ (mobile_name : Text) (c : CameraSdp) (rest : List CameraSdp) (m : HashMap Text V)
      (g : G) where
    camera_made :
        (v : V)
        → (new_device (vdevice_name mobile_name c) c g).0 ≡ some (ok v)
        → build_devices mobile_name (c ∷ rest) m g
          ≡ build_devices mobile_name rest
              (insert m c.name v)
              (new_device (vdevice_name mobile_name c) c g).1
    unfolding build_devices
    camera_made v e = ground (arith, e)

    camera_left_out :
        (t : Text)
        → (new_device (vdevice_name mobile_name c) c g).0 ≡ some (err t)
        → build_devices mobile_name (c ∷ rest) m g
          ≡ build_devices mobile_name rest m (new_device (vdevice_name mobile_name c) c g).1
    unfolding build_devices
    camera_left_out t e = ground (arith, e)

    camera_waits :
        (new_device (vdevice_name mobile_name c) c g).0 ≡ none
        → (build_devices mobile_name (c ∷ rest) m g).0 ≡ none
    unfolding build_devices
    camera_waits e = ground (arith, e)

    camera_panics :
        (new_device (vdevice_name mobile_name c) c g).0 ≡ some panic
        → (build_devices mobile_name (c ∷ rest) m g).0 ≡ some panic
    unfolding build_devices
    camera_panics e = ground (arith, e)

  build_devices-waits :
      (mobile_name : Text) (before after : List CameraSdp) (camera : CameraSdp) (m : HashMap Text V)
      (g : G)
      → ((g' : G) → (new_device (vdevice_name mobile_name camera) camera g').0 ≡ none)
      → GivesNone (build_devices mobile_name (before ++ camera ∷ after) m g).0
  build_devices-waits mobile_name [] after camera m g waits =
      inl (camera_waits mobile_name camera after m g (waits g))
  build_devices-waits mobile_name (c ∷ before) after camera m g waits =
      let rest = before ++ camera ∷ after in
      let (r, g') = new_device (vdevice_name mobile_name c) c g in
      elim (Option-cases r) [
        | inl e ↦ inl (camera_waits mobile_name c rest m g e)
        | inr (outcome, e) ↦ elim (Result-cases outcome) [
          | inl (v, is_ok) ↦
              subst (λ (b : Built). GivesNone b.0)
                (sym (camera_made mobile_name c rest m g v (e ∙ ap some is_ok)))
                (build_devices-waits mobile_name before after camera (insert m c.name v) g' waits)
          | inr (inl (t, is_err)) ↦
              subst (λ (b : Built). GivesNone b.0)
                (sym (camera_left_out mobile_name c rest m g t (e ∙ ap some is_err)))
                (build_devices-waits mobile_name before after camera m g' waits)
          | inr (inr is_panic) ↦ inr (camera_panics mobile_name c rest m g (e ∙ ap some is_panic))
        ]
      ]

module _ {G E D F P Answer Offer : Type 0} (gst : Gst G E D F P Answer Offer)
    (from_str : Text → Result Sdp) where
  -- The builder of the program.
  abbrev pub make_device : Making G (Device.VDevice G P Answer)
  make_device = Device.new gst from_str

  device_waits :
      (name : Text) (camera : CameraSdp) (offer : Sdp) (sdp : Offer) (g g1 g2 : G)
      (elements : Elements E)
      → from_str camera.sdp ≡ ok offer
      → gst.parse_buffer offer.sdp ≡ ok sdp
      → prepare gst device_path camera.format g ≡ (ok elements, g1)
      → gst.set_remote_description elements.webrtcbin sdp g1 ≡ (ok tt, g2)
      → AllSilent (gst.events g2)
      → (make_device name camera g).0 ≡ none
  unfolding Device.new
  device_waits name camera offer sdp g g1 g2 elements json parsed prepared set silent =
      let waits =
        new-waits gst device_path offer.sdp camera.format g g1 g2 elements sdp prepared parsed set
          silent in
      ground (arith, json, waits)

  -- An offer with one camera whose pipeline is prepared, from whatever state, and then sends no
  -- answer and does not end gives no map of devices, whatever the other cameras are: the builder
  -- waits for ever, unless making an earlier device panics. The camera's offer is parsed and set.
  pub build_from-waits :
      (mobile_name : Text) (before after : List CameraSdp) (camera : CameraSdp) (offer : Sdp)
      (sdp : Offer) (g : G)
      → from_str camera.sdp ≡ ok offer
      → gst.parse_buffer offer.sdp ≡ ok sdp
      → ((g' : G)
          → (elements : Elements E) × (g1 : G) × (g2 : G) × (prepare gst device_path camera.format
                g'
              ≡ (ok elements, g1))
            × (gst.set_remote_description elements.webrtcbin sdp g1 ≡ (ok tt, g2))
            × AllSilent (gst.events g2))
      → GivesNone make_device (build_from make_device mobile_name (before ++ camera ∷ after) g).0
  unfolding build_from
  build_from-waits mobile_name before after camera offer sdp g json parsed stalls =
      build_devices-waits make_device mobile_name before after camera [] g (λ g'.
        let (elements, g1, g2, prepared, set, silent) = stalls g' in
        device_waits (vdevice_name mobile_name camera) camera offer sdp g' g1 g2 elements json
          parsed prepared set silent)
