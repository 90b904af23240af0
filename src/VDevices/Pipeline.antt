-- ===== src/VDevices/Pipeline.antt =====
-- src/vdevice_builder/webrtc_pipeline.rs: the thread that receives a camera's video, and the answer
-- that it sends to whoever made it. GStreamer and Video4Linux are an interface over the state `G`:
-- its elements, devices, formats, pads, answers and parsed offers are types of its own.
pub mod Callbacks
pub mod Links
pub mod Answering
pub mod Sending
use webcam_direct_linux.Prelude.{
  ℕ, Text, codes, String, Bool, true, false, List, [], ◌∷◌, ◌++◌, Option, none, some, Result, ok,
  err, panic, anyhow, ok_or, Exec, lift, pure, on, ◌>>=◌, ◌>>◌, if◌then◌else◌,
}
use webcam_direct_linux.Ble.CommTypes.{VideoProp}
use Callbacks.{PipelineEvent, Running, started, run_loop}

pub record Caps : Type 0 where
  pub width : ℕ
  pub height : ℕ
  pub format : Text

-- The properties that are set; `max_rate` is the bit pattern of the `i32`.
pub data Property : Type 0 where
  latency max_rate : ℕ → Property
  bundle_policy_none : Property
  caps : Caps → Property
  emit_signals sync : Bool → Property

pub data State : Type 0 where
  playing null : State

-- A device's format; `rest` is what the program does not look at.
pub record Format (F : Type 0) : Type 0 where
  pub fourcc : Text
  pub width : ℕ
  pub height : ℕ
  pub rest : F

-- `bus` is the pipeline's bus with `add_watch`, `events` what the callbacks are called with while the
-- main loop runs.
pub record Gst (G E D F P Answer Offer : Type 0) : Type 0 where
  pub init : Exec G (Unit {0})
  pub make : Text → Exec G E
  pub set_property : E → Property → Exec G (Unit {0})
  pub with_path : Text → Exec G D
  pub format : D → Exec G (Format F)
  pub set_format : D → Format F → Exec G (Unit {0})
  pub add_many : List E → Exec G (Unit {0})
  pub link_many : List E → Exec G (Unit {0})
  pub bus : G → Option (Exec G (Unit {0}))
  pub set_state : State → Exec G (Unit {0})
  pub parse_buffer : Text → Result Offer
  pub set_remote_description : E → Offer → Exec G (Unit {0})
  pub events : G → List (PipelineEvent P Answer)
  -- Whether the elements, whose callbacks hold a sender of the answer each, are gone with the thread.
  pub dropped : G → Bool

pub record Thread (G P Answer : Type 0) : Type 0 where
  pub outside : G
  pub running : Running P Answer

-- Whether the thread has come to its end, or is in its main loop still.
pub data Progress : Type 0 where
  ended looping : Progress

pub record WebrtcPipeline (G P Answer : Type 0) : Type 0 where
  pub thread : Thread G P Answer
  pub progress : Result Progress
  pub sdp_answer : Text

-- The elements that are used after they are made.
pub record Elements (E : Type 0) : Type 0 where
  pub webrtcbin : E
  pub decodebin : E
  pub queue : E
  pub videosink : E
  pub videoconvert : E
  pub videoscale : E

-- `map_err(|e| anyhow!("message: {:?}", e))`.
abbrev pub map_err {ℓ} : {S A : Type ℓ} → String → Exec S A → Exec S A
map_err message m s = elim (m s).0 [
  | ok a ↦ (ok a, (m s).1)
  | err e ↦ (err (codes message ++ e), (m s).1)
  | panic ↦ (panic, (m s).1)
]

-- `rx.recv()`: the first answer that was sent, or an error once the thread is gone without one and
-- no sender is left; none while the caller waits.
abbrev pub recv : Bool → Result Progress → List Text → Option (Result Text)
recv dropped progress (sdp_answer ∷ sent) = some (ok sdp_answer)
recv dropped (ok looping) [] = none
recv false _ [] = none
recv true _ [] = some (anyhow "Failed to get sdp answer")

module _ {G P Answer : Type 0} where
  abbrev pub pipeline_of :
      Result Progress
      → Thread G P Answer
      → Option (Result Text)
      → Option (Result (WebrtcPipeline G P Answer))
  pipeline_of progress thread none = none
  pipeline_of progress thread (some (ok sdp_answer)) =
      some (ok (record { thread = thread; progress = progress; sdp_answer = sdp_answer }))
  pipeline_of progress thread (some (err e)) = some (err e)
  pipeline_of progress thread (some panic) = some panic

  -- What the maker gets of the thread.
  abbrev pub deliver :
      (G → Bool)
      → Result Progress × Thread G P Answer
      → Option (Result (WebrtcPipeline G P Answer)) × Thread G P Answer
  deliver dropped (progress, thread) = (
    pipeline_of progress thread (recv (dropped thread.outside) progress thread.running.sent),
    thread,
  )

module _ {G E D F P Answer Offer : Type 0} (gst : Gst G E D F P Answer Offer) where
  unfoldable pub make_elements : VideoProp → Exec G (Elements E)
  make_elements video_prop = do
    gst.init
    webrtcbin ← gst.make (codes "webrtcbin")
    gst.set_property webrtcbin (latency 0)
    gst.set_property webrtcbin bundle_policy_none
    decodebin ← gst.make (codes "decodebin")
    queue ← gst.make (codes "queue")
    rtph264depay ← gst.make (codes "rtph264depay")
    h264dec ← gst.make (codes "avdec_h264")
    h264parse ← gst.make (codes "h264parse")
    videosink ← gst.make (codes "autovideosink")
    videoconvert ← gst.make (codes "videoconvert")
    videoconvert2 ← gst.make (codes "videoconvert")
    videoscale ← gst.make (codes "videoscale")
    videoscale2 ← gst.make (codes "videoscale")
    videorate ← gst.make (codes "videorate")
    gst.set_property videorate (max_rate video_prop.fps)
    capsfilter ← gst.make (codes "capsfilter")
    gst.set_property capsfilter
        (caps (record { width = 1080; height = 720; format = codes "I420" }))
    pure (record {
      webrtcbin = webrtcbin;
      decodebin = decodebin;
      queue = queue;
      videosink = videosink;
      videoconvert = videoconvert;
      videoscale = videoscale;
    })

  unfoldable pub configure_device : Text → Exec G (Unit {0})
  configure_device vdevice = do
    v4l_dev ← map_err "Failed to create v4l2 device: " (gst.with_path vdevice)
    format ← map_err "Failed to get v4l2 device format: " (gst.format v4l_dev)
    map_err "Failed to set v4l2 device format: " (
        gst.set_format v4l_dev (record format { fourcc = codes "NV12"; width = 540; height = 960 }))
    configured ← map_err "Failed to get v4l2 device format: " (gst.format v4l_dev)
    pure tt

  -- The appsink is made and configured, and then not put into the pipeline.
  unfoldable pub assemble : Elements E → Exec G (Unit {0})
  assemble e = do
    appsink ← gst.make (codes "appsink")
    gst.set_property appsink (emit_signals true)
    gst.set_property appsink (sync false)
    gst.add_many
        (e.webrtcbin ∷ e.decodebin ∷ e.queue ∷ e.videoconvert ∷ e.videoscale ∷ e.videosink ∷ [])
    gst.link_many (e.queue ∷ e.videoconvert ∷ e.videoscale ∷ e.videosink ∷ [])

  unfoldable pub watch_bus : Exec G (Unit {0})
  watch_bus = do watch ← (λ g. (ok_or (gst.bus g) "Failed to get bus", g)); watch

  -- `create_pipeline` up to `set_state(Playing)`.
  unfoldable pub prepare : Text → VideoProp → Exec G (Elements E)
  prepare vdevice video_prop = do
    elements ← make_elements video_prop
    configure_device vdevice
    assemble elements
    watch_bus
    gst.set_state playing
    pure elements

  abbrev pub outside {ℓ} : {A : Type ℓ} → Exec G A → Exec (Thread G P Answer) A
  outside = on (λ t. t.outside) (λ g t. record t { outside = g })

  abbrev pub main_loop : Exec (Thread G P Answer) (Unit {0})
  main_loop t =
      let (r, running) = run_loop (gst.events t.outside) t.running in
      (r, record t { running = running })

  -- The end of `create_pipeline`, once the loop was told to quit.
  unfoldable pub finish : Exec (Thread G P Answer) Progress
  finish t = elim t.running.quit [
    | true ↦ (do outside (gst.set_state null); pure ended) t
    | false ↦ (ok looping, t)
  ]

  unfoldable pub create_pipeline : Text → Text → VideoProp → Exec (Thread G P Answer) Progress
  create_pipeline vdevice sdp_offer video_prop = do
    elements ← outside (prepare vdevice video_prop)
    sdp ← lift (gst.parse_buffer sdp_offer)
    outside (gst.set_remote_description elements.webrtcbin sdp)
    main_loop
    finish

  unfoldable pub new :
      Text → Text → VideoProp → G → Option (Result (WebrtcPipeline G P Answer)) × Thread G P Answer
  new vdevice sdp_offer video_prop g =
      deliver gst.dropped
        (create_pipeline vdevice sdp_offer video_prop (record { outside = g; running = started }))

  unfoldable pub get_sdp_answer : WebrtcPipeline G P Answer → Text
  get_sdp_answer p = p.sdp_answer

  -- The loop is told to quit, and the thread joined: one that is looping comes to its end. How it
  -- ended is only logged.
  unfoldable pub drop : WebrtcPipeline G P Answer → Thread G P Answer
  drop p = elim p.progress [
    | ok progress ↦ elim progress [
      | looping ↦ (finish (record p.thread { running = record p.thread.running { quit = true } })).1
      | ended ↦ p.thread
    ]
    | err e ↦ p.thread
    | panic ↦ p.thread
  ]
