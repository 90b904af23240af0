-- ===== src/VDevices/Pipeline/Callbacks.antt =====
-- src/vdevice_builder/webrtc_pipeline.rs: the callbacks that `create_pipeline` connects, and the main
-- loop that runs them. GStreamer is not part of the repository: what it calls them with are the
-- events, and its pads are of a type `P`. Every queue and every decodebin has a sink pad.
use webcam_direct_linux.Prelude.{
  Text, codes, Bool, true, false, List, [], ◌∷◌, ◌++◌, Option, none, some, Result, ok, err, panic,
  Exec, if◌then◌else◌,
}
use webcam_direct_linux.VDevices.Modules.{starts_with}

-- A pad with its current and allowed caps: if there are any, the name of their first structure, if
-- they have one.
pub record Pad (P : Type 0) : Type 0 where
  pub pad : P
  pub current_caps : Option (Option Text)
  pub allowed_caps : Option (Option Text)

-- `ice_gathering` has whether the gathering is complete, and the local description's text;
-- `offer_set` and `answer_created` are the replies of the two promises, the second with what it holds
-- as the answer and that answer's text; the two pads come with whether linking them would succeed.
pub data PipelineEvent (P Answer : Type 0) : Type 0 where
  decodebin_pad webrtcbin_pad : Pad P → Bool → PipelineEvent P Answer
  ice_gathering : Bool → Result Text → PipelineEvent P Answer
  offer_set : Result (Unit {0}) → PipelineEvent P Answer
  answer_created : Result (Option (Result (Answer × Result Text))) → PipelineEvent P Answer
  negotiation_needed ice_candidate eos bus_error other_message : PipelineEvent P Answer

-- What the callbacks ask of webrtcbin.
pub data Request (Answer : Type 0) : Type 0 where
  create_answer : Request Answer
  set_local_description : Answer → Request Answer

-- The pads that are linked to the sinks, what was sent to the thread that waits, the requests, newest
-- last, and whether the loop was told to quit.
pub record Running (P Answer : Type 0) : Type 0 where
  pub queue_sink : Option (Pad P)
  pub decodebin_sink : Option (Pad P)
  pub sent : List Text
  pub requests : List (Request Answer)
  pub quit : Bool

abbrev pub started : {P Answer : Type 0} → Running P Answer
started = record {
  queue_sink = none;
  decodebin_sink = none;
  sent = [];
  requests = [];
  quit = false;
}

-- `pad.link(&sink_pad)`, unless the sink is linked already.
abbrev pub link_sink : {P : Type 0} → Option (Pad P) → Pad P → Bool → Option (Pad P)
link_sink (some linked) pad links = some linked
link_sink none pad links = if links then some pad else none

abbrev pub or_caps : Option (Option Text) → Option (Option Text) → Option (Option Text)
or_caps none allowed = allowed
or_caps (some current) allowed = some current

module _ {P Answer : Type 0} where
  -- The `unwrap`s panic.
  unfoldable pub decodebin_pad_added : Pad P → Bool → Exec (Running P Answer) (Unit {0})
  decodebin_pad_added pad links s = elim pad.current_caps [
    | none ↦ (panic, s)
    | some caps ↦ elim caps [
      | none ↦ (panic, s)
      | some name ↦ (
        ok tt,
        (if starts_with name (codes "video/")
            then record s { queue_sink = link_sink s.queue_sink pad links }
            else s),
      )
    ]
  ]

  unfoldable pub webrtcbin_pad_added : Pad P → Bool → Exec (Running P Answer) (Unit {0})
  webrtcbin_pad_added pad links s = elim (or_caps pad.current_caps pad.allowed_caps) [
    | none ↦ (ok tt, s)
    | some caps ↦ elim caps [
      | none ↦ (ok tt, s)
      | some media_type ↦ (
        ok tt,
        (if starts_with media_type (codes "application/x-rtp")
            then record s { decodebin_sink = link_sink s.decodebin_sink pad links }
            else s),
      )
    ]
  ]

  -- The answer is sent once the gathering is complete; a receiver that is gone is only logged.
  unfoldable pub ice_gathering_changed : Bool → Result Text → Exec (Running P Answer) (Unit {0})
  ice_gathering_changed true (ok sdp_answer) s =
      (ok tt, record s { sent = s.sent ++ sdp_answer ∷ [] })
  ice_gathering_changed true (err e) s = (ok tt, s)
  ice_gathering_changed true panic s = (panic, s)
  ice_gathering_changed false text s = (ok tt, s)

  unfoldable pub on_offer_set : Result (Unit {0}) → Exec (Running P Answer) (Unit {0})
  on_offer_set (ok u) s = (ok tt, record s { requests = s.requests ++ create_answer ∷ [] })
  on_offer_set (err e) s = (ok tt, s)
  on_offer_set panic s = (panic, s)

  unfoldable pub on_answer_created :
      Result (Option (Result (Answer × Result Text))) → Exec (Running P Answer) (Unit {0})
  on_answer_created (ok (some (ok (answer, ok text)))) s =
      (ok tt, record s { requests = s.requests ++ set_local_description answer ∷ [] })
  on_answer_created (ok (some (ok (answer, err e)))) s = (ok tt, s)
  on_answer_created (ok (some (ok (answer, panic)))) s = (panic, s)
  on_answer_created (ok (some (err e))) s = (ok tt, s)
  on_answer_created (ok (some panic)) s = (panic, s)
  on_answer_created (ok none) s = (ok tt, s)
  on_answer_created (err e) s = (ok tt, s)
  on_answer_created panic s = (panic, s)

  -- Only the end of the stream ends the loop: an error on the bus is logged.
  unfoldable pub callback : PipelineEvent P Answer → Exec (Running P Answer) (Unit {0})
  callback (decodebin_pad pad links) s = decodebin_pad_added pad links s
  callback (webrtcbin_pad pad links) s = webrtcbin_pad_added pad links s
  callback (ice_gathering complete text) s = ice_gathering_changed complete text s
  callback (offer_set reply) s = on_offer_set reply s
  callback (answer_created reply) s = on_answer_created reply s
  callback negotiation_needed s = (ok tt, s)
  callback ice_candidate s = (ok tt, s)
  callback eos s = (ok tt, record s { quit = true })
  callback bus_error s = (ok tt, s)
  callback other_message s = (ok tt, s)

  -- `main_loop.run()`, as far as the events go.
  unfoldable pub run_loop : List (PipelineEvent P Answer) → Exec (Running P Answer) (Unit {0})
  run_loop [] s = (ok tt, s)
  run_loop (event ∷ events) s =
      let next = callback event s in
      let rest = run_loop events next.1 in
      elim next.0 [
        | ok u ↦ if next.1.quit then (ok tt, next.1) else rest
        | err e ↦ (err e, next.1)
        | panic ↦ (panic, next.1)
      ]
