-- ===== src/VDevices/Pipeline/Sending.antt =====
-- src/vdevice_builder/webrtc_pipeline.rs: which description the callbacks send first.
use webcam_direct_linux.Prelude.{
  ◌≡◌, refl, arith, ◌∙◌, Text, Bool, true, false, List, [], ◌∷◌, ◌++◌, Option, Result, ok, err,
  panic,
}
use webcam_direct_linux.VDevices.Pipeline.Callbacks.{
  PipelineEvent, Pad, decodebin_pad, webrtcbin_pad, ice_gathering, offer_set, answer_created,
  negotiation_needed, ice_candidate, eos, bus_error, other_message, decodebin_pad_added,
  webrtcbin_pad_added, on_offer_set, on_answer_created, Running, callback, run_loop,
  ice_gathering_changed,
}
use webcam_direct_linux.VDevices.Pipeline.Links.{run_loop_preserves}

module _ {P Answer : Type 0} where
  -- An event whose callback succeeds, sends no answer and does not end the loop.
  abbrev pub IsSilent : PipelineEvent P Answer → Type 0
  IsSilent event =
      (s : Running P Answer)
      → ((callback event s).0 ≡ ok tt)
        × ((callback event s).1.sent ≡ s.sent)
        × ((callback event s).1.quit ≡ s.quit)

  abbrev pub AllSilent : List (PipelineEvent P Answer) → Type 0
  AllSilent [] = Unit {0}
  AllSilent (event ∷ events) = IsSilent event × AllSilent events

  pub run_loop_silent :
      (before rest : List (PipelineEvent P Answer)) (s : Running P Answer)
      → AllSilent before
      → s.quit ≡ false
      → (t : Running P Answer) × (run_loop (before ++ rest) s ≡ run_loop rest t)
        × (t.sent ≡ s.sent)
        × (t.quit ≡ false)
  unfolding run_loop
  run_loop_silent [] rest s a q = (s, refl, refl, q)
  run_loop_silent (event ∷ before) rest s (one, a) q =
      let (fine, sent, quit) = one s in
      let (t, runs, same, goes) = run_loop_silent before rest (callback event s).1 a (quit ∙ q) in
      (t, ground (arith, fine, quit, q, runs), same ∙ sent, goes)

  pub run_loop_nil : (s : Running P Answer) → run_loop [] s ≡ (ok tt, s)
  unfolding run_loop
  run_loop_nil s = refl

  -- What was sent first stays the first.
  unfoldable pub Sent : Text → Running P Answer → Type 0
  Sent first s = (more : List Text) × (s.sent ≡ first ∷ more)

  ice_gathering_changed-Sent :
      (first : Text) (complete : Bool) (text : Result Text) (s : Running P Answer)
      → Sent first s
      → Sent first (ice_gathering_changed complete text s).1
  unfolding Sent ice_gathering_changed
  ice_gathering_changed-Sent first true (ok text) s (more, e) = (more ++ text ∷ [], rw e refl)
  ice_gathering_changed-Sent first true (err m) s sent = sent
  ice_gathering_changed-Sent first true panic s sent = sent
  ice_gathering_changed-Sent first false text s sent = sent

  SameSent : Running P Answer → Running P Answer → Type 0
  SameSent s t = t.sent ≡ s.sent

  SameSent-Sent :
      (first : Text) (s t : Running P Answer) → SameSent s t → Sent first s → Sent first t
  unfolding Sent SameSent
  SameSent-Sent first s t same (more, e) = (more, same ∙ e)

  decodebin_pad_added-SameSent :
      (pad : Pad P) (links : Bool) (s : Running P Answer)
      → SameSent s (decodebin_pad_added pad links s).1
  unfolding SameSent decodebin_pad_added
  decodebin_pad_added-SameSent pad links s = ground arith

  webrtcbin_pad_added-SameSent :
      (pad : Pad P) (links : Bool) (s : Running P Answer)
      → SameSent s (webrtcbin_pad_added pad links s).1
  unfolding SameSent webrtcbin_pad_added
  webrtcbin_pad_added-SameSent pad links s = ground arith

  on_offer_set-SameSent :
      (reply : Result (Unit {0})) (s : Running P Answer) → SameSent s (on_offer_set reply s).1
  unfolding SameSent on_offer_set
  on_offer_set-SameSent reply s = ground arith

  on_answer_created-SameSent :
      (reply : Result (Option (Result (Answer × Result Text)))) (s : Running P Answer)
      → SameSent s (on_answer_created reply s).1
  unfolding SameSent on_answer_created
  on_answer_created-SameSent reply s = ground arith

  eos_sent : (s : Running P Answer) → SameSent s (record s { quit = true })
  unfolding SameSent
  eos_sent s = refl

  callback-Sent :
      (first : Text) (event : PipelineEvent P Answer) (s : Running P Answer)
      → Sent first s
      → Sent first (callback event s).1
  unfolding callback
  callback-Sent first (decodebin_pad pad links) s sent =
      SameSent-Sent first s _ (decodebin_pad_added-SameSent pad links s) sent
  callback-Sent first (webrtcbin_pad pad links) s sent =
      SameSent-Sent first s _ (webrtcbin_pad_added-SameSent pad links s) sent
  callback-Sent first (ice_gathering complete text) s sent =
      ice_gathering_changed-Sent first complete text s sent
  callback-Sent first (offer_set reply) s sent =
      SameSent-Sent first s _ (on_offer_set-SameSent reply s) sent
  callback-Sent first (answer_created reply) s sent =
      SameSent-Sent first s _ (on_answer_created-SameSent reply s) sent
  callback-Sent first negotiation_needed s sent = sent
  callback-Sent first ice_candidate s sent = sent
  callback-Sent first eos s sent = SameSent-Sent first s _ (eos_sent s) sent
  callback-Sent first bus_error s sent = sent
  callback-Sent first other_message s sent = sent

  now_sent :
      (text : Text) (s : Running P Answer)
      → s.sent ≡ []
      → Sent text (ice_gathering_changed true (ok text) s).1
  unfolding Sent ice_gathering_changed
  now_sent text s none_sent = ([], rw none_sent refl)

  run_loop_ice :
      (text : Text) (after : List (PipelineEvent P Answer)) (s : Running P Answer)
      → s.quit ≡ false
      → run_loop (ice_gathering true (ok text) ∷ after) s
        ≡ run_loop after (ice_gathering_changed true (ok text) s).1
  unfolding run_loop callback ice_gathering_changed
  run_loop_ice text after s goes = ground (arith, goes)

  pub run_loop_answer :
      (text : Text) (after : List (PipelineEvent P Answer)) (s : Running P Answer)
      → s.sent ≡ []
      → s.quit ≡ false
      → Sent text (run_loop (ice_gathering true (ok text) ∷ after) s).1
  run_loop_answer text after s none_sent goes =
      let t = (ice_gathering_changed true (ok text) s).1 in
      let rest =
        run_loop_preserves (Sent text) (callback-Sent text) after t (now_sent text s none_sent) in
      rw (run_loop_ice text after s goes) rest
