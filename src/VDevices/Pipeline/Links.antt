-- ===== src/VDevices/Pipeline/Links.antt =====
-- src/vdevice_builder/webrtc_pipeline.rs: what stays so while the callbacks run, in whatever order
-- they are called.
use webcam_direct_linux.Prelude.{
  ◌≡◌, refl, sym, arith, ◌∙◌, Text, codes, Bool, true, false, List, [], ◌∷◌, Option, none, some,
  Result, if◌then◌else◌, Bool-cases, Result-cases, ◌⊎◌, inl, inr, subst,
}
use webcam_direct_linux.VDevices.Modules.{starts_with}
use webcam_direct_linux.VDevices.Pipeline.Callbacks.{
  Pad, PipelineEvent, decodebin_pad, webrtcbin_pad, ice_gathering, offer_set, answer_created,
  negotiation_needed, ice_candidate, eos, bus_error, other_message, Running, or_caps, link_sink,
  callback, run_loop, decodebin_pad_added, webrtcbin_pad_added, ice_gathering_changed, on_offer_set,
  on_answer_created,
}

module _ {P Answer : Type 0} where
  -- What every callback preserves, the loop does.
  pub run_loop_preserves :
      (I : Running P Answer → Type 0)
      → ((event : PipelineEvent P Answer) (s : Running P Answer) → I s → I (callback event s).1)
      → (events : List (PipelineEvent P Answer)) (s : Running P Answer) → I s
      → I (run_loop events s).1
  unfolding run_loop
  run_loop_preserves I step [] s i = i
  run_loop_preserves I step (event ∷ events) s i =
      let next = callback event s in
      let j = step event s i in
      let rest = run_loop_preserves I step events next.1 j in
      elim (Result-cases next.0) [
        | inl (u, done) ↦ elim (Bool-cases next.1.quit) [
          | inl quits ↦ rw (run_loop, done, quits) j
          | inr goes ↦ rw (run_loop, done, goes) rest
        ]
        | inr (inl (e, failed)) ↦ rw (run_loop, failed) j
        | inr (inr failed) ↦ rw (run_loop, failed) j
      ]

-- Whether the caps that a callback looks at start with a media type.
abbrev pub is_media : Option (Option Text) → Text → Bool
is_media none media_type = false
is_media (some none) media_type = false
is_media (some (some name)) media_type = starts_with name media_type

abbrev pub is_video : {P : Type 0} → Pad P → Bool
is_video pad = is_media pad.current_caps (codes "video/")

abbrev pub is_rtp : {P : Type 0} → Pad P → Bool
is_rtp pad = is_media (or_caps pad.current_caps pad.allowed_caps) (codes "application/x-rtp")

-- The queue receives video only, and the decoder RTP packets only.
pub record IsWellLinked {P Answer : Type 0} (s : Running P Answer) : Type 0 where
  pub queue : (pad : Pad P) → s.queue_sink ≡ some pad → is_video pad ≡ true
  pub decodebin : (pad : Pad P) → s.decodebin_sink ≡ some pad → is_rtp pad ≡ true

-- A sink has the pad that it had, or else the new one.
link_sink_lem :
    {P : Type 0} (sink : Option (Pad P)) (pad p : Pad P) (links : Bool)
    → link_sink sink pad links ≡ some p
    → (sink ≡ some p) ⊎ ((sink ≡ none) × (pad ≡ p))
link_sink_lem (some linked) pad p links e = inl e
link_sink_lem none pad p true e = inr (refl, ground (arith, e))
link_sink_lem none pad p false e = absurd (ground (arith, e))

-- A filled sink keeps its pad, and one that is filled has a pad that the test lets through.
filled_by :
    {P : Type 0} (fits : Pad P → Bool) (sink after : Option (Pad P)) (pad p : Pad P) (links : Bool)
    → after ≡ (if fits pad then link_sink sink pad links else sink)
    → ((q : Pad P) → sink ≡ some q → fits q ≡ true)
    → after ≡ some p
    → fits p ≡ true
filled_by fits sink after pad p links a w e = elim (Bool-cases (fits pad)) [
  | inl fit ↦ elim (link_sink_lem sink pad p links (ground (arith, a, e, fit))) [
    | inl old ↦ w p old
    | inr (empty, same) ↦ subst (λ q. fits q ≡ true) same fit
  ]
  | inr unfit ↦ w p (ground (arith, a, e, unfit))
]

module _ {P Answer : Type 0} where
  decodebin_pad_added_queue :
      (pad : Pad P) (links : Bool) (s : Running P Answer)
      → (decodebin_pad_added pad links s).1.queue_sink
        ≡ (if is_video pad then link_sink s.queue_sink pad links else s.queue_sink)
  unfolding decodebin_pad_added
  decodebin_pad_added_queue pad links s = ground arith

  decodebin_pad_added_decodebin :
      (pad : Pad P) (links : Bool) (s : Running P Answer)
      → (decodebin_pad_added pad links s).1.decodebin_sink ≡ s.decodebin_sink
  unfolding decodebin_pad_added
  decodebin_pad_added_decodebin pad links s = ground arith

  webrtcbin_pad_added_decodebin :
      (pad : Pad P) (links : Bool) (s : Running P Answer)
      → (webrtcbin_pad_added pad links s).1.decodebin_sink
        ≡ (if is_rtp pad then link_sink s.decodebin_sink pad links else s.decodebin_sink)
  unfolding webrtcbin_pad_added
  webrtcbin_pad_added_decodebin pad links s = ground arith

  webrtcbin_pad_added_queue :
      (pad : Pad P) (links : Bool) (s : Running P Answer)
      → (webrtcbin_pad_added pad links s).1.queue_sink ≡ s.queue_sink
  unfolding webrtcbin_pad_added
  webrtcbin_pad_added_queue pad links s = ground arith

  -- The pads that are linked are the same.
  abbrev pub SameLinks : Running P Answer → Running P Answer → Type 0
  SameLinks s t = (t.queue_sink ≡ s.queue_sink) × (t.decodebin_sink ≡ s.decodebin_sink)

  ice_gathering_changed-SameLinks :
      (complete : Bool) (text : Result Text) (s : Running P Answer)
      → SameLinks s (ice_gathering_changed complete text s).1
  unfolding ice_gathering_changed
  ice_gathering_changed-SameLinks complete text s = ground arith

  on_offer_set-SameLinks :
      (reply : Result (Unit {0})) (s : Running P Answer) → SameLinks s (on_offer_set reply s).1
  unfolding on_offer_set
  on_offer_set-SameLinks reply s = ground arith

  on_answer_created-SameLinks :
      (reply : Result (Option (Result (Answer × Result Text)))) (s : Running P Answer)
      → SameLinks s (on_answer_created reply s).1
  unfolding on_answer_created
  on_answer_created-SameLinks reply s = ground arith

  SameLinks-IsWellLinked :
      (s t : Running P Answer) → SameLinks s t → IsWellLinked s → IsWellLinked t
  SameLinks-IsWellLinked s t (q, d) w = record {
    queue = λ pad e. w.queue pad (sym q ∙ e);
    decodebin = λ pad e. w.decodebin pad (sym d ∙ e);
  }

  callback-IsWellLinked :
      (event : PipelineEvent P Answer) (s : Running P Answer)
      → IsWellLinked s
      → IsWellLinked (callback event s).1
  unfolding callback
  callback-IsWellLinked (decodebin_pad pad links) s w = record {
    queue = λ p e.
        filled_by is_video s.queue_sink (decodebin_pad_added pad links s).1.queue_sink pad p links
          (decodebin_pad_added_queue pad links s) w.queue e;
    decodebin = λ p e. w.decodebin p (sym (decodebin_pad_added_decodebin pad links s) ∙ e);
  }
  callback-IsWellLinked (webrtcbin_pad pad links) s w = record {
    queue = λ p e. w.queue p (sym (webrtcbin_pad_added_queue pad links s) ∙ e);
    decodebin = λ p e.
        filled_by is_rtp s.decodebin_sink (webrtcbin_pad_added pad links s).1.decodebin_sink pad p
          links (webrtcbin_pad_added_decodebin pad links s) w.decodebin e;
  }
  callback-IsWellLinked (ice_gathering complete text) s w =
      SameLinks-IsWellLinked s _ (ice_gathering_changed-SameLinks complete text s) w
  callback-IsWellLinked (offer_set reply) s w =
      SameLinks-IsWellLinked s _ (on_offer_set-SameLinks reply s) w
  callback-IsWellLinked (answer_created reply) s w =
      SameLinks-IsWellLinked s _ (on_answer_created-SameLinks reply s) w
  callback-IsWellLinked negotiation_needed s w = w
  callback-IsWellLinked ice_candidate s w = w
  callback-IsWellLinked eos s w = SameLinks-IsWellLinked s _ (refl, refl) w
  callback-IsWellLinked bus_error s w = w
  callback-IsWellLinked other_message s w = w

  -- Whatever pads appear in whatever order, the queue stays linked to a video pad only, if to any,
  -- and the decoder to a pad of RTP packets only.
  pub run_loop-IsWellLinked :
      (events : List (PipelineEvent P Answer)) (s : Running P Answer)
      → IsWellLinked s
      → IsWellLinked (run_loop events s).1
  run_loop-IsWellLinked = run_loop_preserves IsWellLinked callback-IsWellLinked
