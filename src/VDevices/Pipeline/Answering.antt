-- ===== src/VDevices/Pipeline/Answering.antt =====
-- src/vdevice_builder/webrtc_pipeline.rs: which answer the maker of a pipeline gets, and when it gets
-- none.
use webcam_direct_linux.Prelude.{
  ◌≡◌, refl, sym, arith, ap, ◌>>◌, ◌∙◌, Text, Bool, true, false, List, [], ◌∷◌, ◌++◌, none, some,
  Result, ok, err, anyhow, append-nil,
}
use webcam_direct_linux.Ble.CommTypes.{VideoProp}
use webcam_direct_linux.VDevices.Pipeline.Callbacks.{
  PipelineEvent, ice_gathering, Running, started, run_loop,
}
use webcam_direct_linux.VDevices.Pipeline.{
  Gst, Elements, Thread, Progress, WebrtcPipeline, deliver, main_loop, prepare, create_pipeline,
  new, get_sdp_answer, finish,
}
use webcam_direct_linux.VDevices.Pipeline.Sending.{
  AllSilent, run_loop_silent, run_loop_nil, Sent, run_loop_answer,
}

deliver_first :
    {G P Answer : Type 0} (dropped : G → Bool) (p : Result Progress × Thread G P Answer)
    (text : Text) (more : List Text)
    → p.1.running.sent ≡ text ∷ more
    → (q : WebrtcPipeline G P Answer) × ((deliver dropped p).0 ≡ some (ok q))
      × (q.sdp_answer ≡ text)
deliver_first dropped (progress, thread) text more e =
    (record { thread = thread; progress = progress; sdp_answer = text }, rw e refl, refl)

module _ {G E D F P Answer Offer : Type 0} (gst : Gst G E D F P Answer Offer) where
  -- An offer that cannot be parsed gives no pipeline, once no sender is left; what was prepared is
  -- left as it is, playing.
  pub new-unparsed :
      (vdevice sdp_offer m : Text) (video_prop : VideoProp) (g g1 : G) (elements : Elements E)
      → prepare gst vdevice video_prop g ≡ (ok elements, g1)
      → gst.parse_buffer sdp_offer ≡ err m
      → gst.dropped g1 ≡ true
      → new gst vdevice sdp_offer video_prop g
        ≡ (some (anyhow "Failed to get sdp answer"), record { outside = g1; running = started })
  unfolding new create_pipeline
  new-unparsed vdevice sdp_offer m video_prop g g1 elements prepared unparsed gone =
      ground (arith, prepared, unparsed, gone)

  -- What follows the preparation.
  run_prepared :
      (vdevice sdp_offer : Text) (video_prop : VideoProp) (g g1 g2 : G) (elements : Elements E)
      (sdp : Offer)
      → prepare gst vdevice video_prop g ≡ (ok elements, g1)
      → gst.parse_buffer sdp_offer ≡ ok sdp
      → gst.set_remote_description elements.webrtcbin sdp g1 ≡ (ok tt, g2)
      → create_pipeline gst vdevice sdp_offer video_prop (record { outside = g; running = started })
        ≡ (main_loop gst >> finish gst) (record { outside = g2; running = started })
  unfolding create_pipeline
  run_prepared vdevice sdp_offer video_prop g g1 g2 elements sdp prepared parsed set =
      ground (arith, prepared, parsed, set)

  waits :
      (g : G) (t : Running P Answer)
      → run_loop (gst.events g) started ≡ (ok tt, t)
      → t.sent ≡ []
      → t.quit ≡ false
      → (deliver gst.dropped
          ((main_loop gst >> finish gst) (record { outside = g; running = started }))).0
        ≡ none
  unfolding finish
  waits g t runs sent quit = ground (arith, runs, sent, quit)

  -- Once the offer is parsed and set and the pipeline prepared, whoever makes the pipeline waits
  -- as long as no callback fails, sends an answer or ends the loop; there is no time limit.
  pub new-waits :
      (vdevice sdp_offer : Text) (video_prop : VideoProp) (g g1 g2 : G) (elements : Elements E)
      (sdp : Offer)
      → prepare gst vdevice video_prop g ≡ (ok elements, g1)
      → gst.parse_buffer sdp_offer ≡ ok sdp
      → gst.set_remote_description elements.webrtcbin sdp g1 ≡ (ok tt, g2)
      → AllSilent (gst.events g2)
      → (new gst vdevice sdp_offer video_prop g).0 ≡ none
  unfolding new
  new-waits vdevice sdp_offer video_prop g g1 g2 elements sdp prepared parsed set silent =
      let (t, runs, sent, quit) = run_loop_silent (gst.events g2) [] started silent refl in
      ap (λ p. (deliver gst.dropped p).0)
        (run_prepared vdevice sdp_offer video_prop g g1 g2 elements sdp prepared parsed set)
      ∙ waits g2 t
          (ap (λ l. run_loop l started) (sym (append-nil (gst.events g2))) ∙ runs ∙ run_loop_nil t)
          sent quit

  main_loop_running :
      (g : G)
      → ((main_loop gst >> finish gst) (record { outside = g; running = started })).1.running
        ≡ (run_loop (gst.events g) started).1
  unfolding finish
  main_loop_running g = ground arith

  -- The pipeline's answer is the local description at the first time that the gathering is complete
  -- and the description can be written.
  pub new-answer :
      (vdevice sdp_offer text : Text) (video_prop : VideoProp) (g g1 g2 : G) (elements : Elements E)
      (sdp : Offer) (before after : List (PipelineEvent P Answer))
      → prepare gst vdevice video_prop g ≡ (ok elements, g1)
      → gst.parse_buffer sdp_offer ≡ ok sdp
      → gst.set_remote_description elements.webrtcbin sdp g1 ≡ (ok tt, g2)
      → gst.events g2 ≡ before ++ ice_gathering true (ok text) ∷ after
      → AllSilent before
      → (p : WebrtcPipeline G P Answer) × ((new gst vdevice sdp_offer video_prop g).0 ≡ some (ok p))
        × (get_sdp_answer gst p ≡ text)
  unfolding new get_sdp_answer Sent
  new-answer vdevice sdp_offer text video_prop g g1 g2 elements sdp before after prepared parsed set
        happens silent =
      let started_at : Thread G P Answer = record { outside = g2; running = started } in
      let (t, runs, none_sent, goes) =
        run_loop_silent before (ice_gathering true (ok text) ∷ after) started silent refl in
      let (more, sent) = run_loop_answer text after t none_sent goes in
      let (q, delivered, answer) =
        deliver_first gst.dropped ((main_loop gst >> finish gst) started_at) text more (
          ap (λ (r : Running P Answer). r.sent) (main_loop_running g2)
          ∙ ap (λ (l : List (PipelineEvent P Answer)). (run_loop l started).1.sent) happens
          ∙ ap (λ (r : Result (Unit {0}) × Running P Answer). r.1.sent) runs
          ∙ sent) in
      (
        q,
        ap (λ (p : Result Progress × Thread G P Answer). (deliver gst.dropped p).0)
              (run_prepared vdevice sdp_offer video_prop g g1 g2 elements sdp prepared parsed set)
            ∙ delivered,
        answer,
      )
