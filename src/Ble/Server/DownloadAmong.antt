-- ===== src/Ble/Server/DownloadAmong.antt =====
-- A mobile reads data at the task of BleServer::new (src/ble/server/mod.rs), to which the others send
-- requests in between: one that panics would end the task, and the transfer with it.
use webcam_direct_linux.Prelude.{
  ℕ, ◌+◌, ◌-◌, ◌≤◌, ◌<◌, ◌≡◌, arith, Bytes, List, [], ◌∷◌, length, Bool-cases, inl, inr, none, some,
  ok, anyhow, Exec, lift, pure, ◌>>=◌, continue_ok, if◌then◌else◌, ◌==◌, usize_bound, list_key,
  number_key,
}
use webcam_direct_linux.Ble.Api.{Address, CommBuffer, BleComm, QueryReq, max_buffer_len}
use webcam_direct_linux.Ble.CommTypes.{DataChunk, Codec, ReadsBack, AlwaysWrites}
use webcam_direct_linux.Ble.Buffer.{reader_at}
use webcam_direct_linux.Ble.Buffer.Reader.{payloads}
use webcam_direct_linux.Ble.Buffer.ReadAll.{IsTransfer}
use webcam_direct_linux.Ble.Requester.{Broadcast}
use webcam_direct_linux.Ble.Requester.Requests.{ServerTask, mailbox, ask, query}
use webcam_direct_linux.Ble.Server.Service.{CommDataService, Codecs}
use webcam_direct_linux.Ble.Server.{System, handle_query, handle_comm}
use webcam_direct_linux.Ble.Server.Cache.{cached}
use webcam_direct_linux.Ble.Server.Serving.{handle_all, serve, running, Quiet, serve-handle_all}
use webcam_direct_linux.Ble.Server.Rounds.{AllOfOthers, read_between}
use webcam_direct_linux.Ble.Server.Download.{read_between_complete}

-- One read, and the others if its chunk says that something is left.
abbrev pub round :
    {S : Type 0}
    → Codec DataChunk
    → Exec S Bytes
    → Exec S (List DataChunk)
    → Exec S (List DataChunk)
round codec get rest = do
  encoded ← get
  chunk ← lift (codec.des encoded)
  if chunk.r == 0 then pure (chunk ∷ []) else (do chunks ← rest; pure (chunk ∷ chunks))

-- Rounds of another state, where each read gives the same.
pub round_same :
    {S T : Type 0} (f : S → T) (codec : Codec DataChunk) (get : Exec S Bytes) (get' : Exec T Bytes)
    (rest : Exec S (List DataChunk)) (rest' : Exec T (List DataChunk)) (out : List DataChunk)
    (s u : S)
    → ((b : Bytes) (t : S) → get s ≡ (ok b, t) → get' (f s) ≡ (ok b, f t))
    → ((chunks : List DataChunk)
        → rest (get s).1 ≡ (ok chunks, u)
        → rest' (f (get s).1) ≡ (ok chunks, f u))
    → round codec get rest s ≡ (ok out, u)
    → round codec get' rest' (f s) ≡ (ok out, f u)
round_same f codec get get' rest rest' out s u gets rests e =
    let (encoded, got, e') = continue_ok (get s).0 _ (get s).1 u out e in
    let (chunk, des, e'') = continue_ok (codec.des encoded) _ (get s).1 u out e' in
    let given = gets encoded (get s).1 (ground (arith, got)) in
    elim (Bool-cases (chunk.r == 0)) [
      | inl done ↦ ground (arith, given, des, e'')
      | inr more ↦
          let e3 : (rest >>= λ chunks. pure (chunk ∷ chunks)) (get s).1 ≡ (ok out, u) =
            ground (arith, e'') in
          let (chunks, got', e4) = continue_ok (rest (get s).1).0 _ (rest (get s).1).1 u out e3 in
          let last = rests chunks (ground (arith, got', e4)) in ground (arith, given, des, last, e4)
    ]

module _ {S Tx Rx : Type 0} (service : CommDataService S Tx) (bus : Broadcast S Tx Rx)
    (codecs : Codecs) where
  -- The mobile asks for chunks until one says that nothing remains; before each of its requests the
  -- task takes some of the others'. The batches bound the rounds.
  unfoldable pub download_among :
      List (List BleComm) → Address → QueryReq → Exec (ServerTask S Tx) (List DataChunk)
  download_among [] addr q task = (anyhow "chunks left", task)
  download_among (others ∷ batches) addr q task =
      round codecs.data_chunk
        (query (mailbox service bus codecs) addr q.query_type q.resp_buffer_len)
        (download_among batches addr q) (serve service bus codecs others task)

  -- No request of the others panics.
  abbrev pub QuietRounds : List (List BleComm) → Address → QueryReq → System S Tx → Type 0
  QuietRounds [] addr q s = Unit {0}
  QuietRounds (others ∷ batches) addr q s =
      let t = handle_all service bus codecs others s in
      Quiet service bus codecs others s
      × QuietRounds batches addr q (handle_query service bus codecs addr q t).1

  query_lem :
      (addr : Address) (q : QueryReq) (encoded : CommBuffer) (s t : System S Tx)
      → handle_query service bus codecs addr q s ≡ (ok encoded, t)
      → query (mailbox service bus codecs) addr q.query_type q.resp_buffer_len (running s)
        ≡ (ok encoded, running t)
  unfolding query ask handle_comm
  query_lem addr q encoded s t e = ground (arith, e)

  download_among-read_between :
      (batches : List (List BleComm)) (addr : Address) (q : QueryReq) (out : List DataChunk)
      (s u : System S Tx)
      → QuietRounds batches addr q s
      → read_between service bus codecs batches addr q s ≡ (ok out, u)
      → download_among batches addr q (running s) ≡ (ok out, running u)
  unfolding download_among read_between
  download_among-read_between [] addr q out s u quiet e = absurd (ground (arith, e))
  download_among-read_between (others ∷ batches) addr q out s u (quiet, more) e =
      let t = handle_all service bus codecs others s in
      rw (serve-handle_all service bus codecs others s quiet) (
        round_same running codecs.data_chunk (handle_query service bus codecs addr q)
          (query (mailbox service bus codecs) addr q.query_type q.resp_buffer_len)
          (read_between service bus codecs batches addr q) (download_among batches addr q) out t u
          (λ encoded v got. query_lem addr q encoded t v got)
          (λ chunks got.
            download_among-read_between batches addr q chunks
              (handle_query service bus codecs addr q t).1 u more got)
          e)

  -- At a task that runs, from an idle channel and with the data in the server's cache, the mobile
  -- is given a complete transfer of exactly that data, whatever the other mobiles ask the task for
  -- in between, as long as no request of theirs panics, within one request more than the data has
  -- bytes; the task runs on and the mobile's channel is idle again. The encoding writes and reads
  -- back, the response length leaves room for 1 to max_buffer_len bytes, and the lengths stay
  -- within usize.
  pub download_among_complete :
      (reads : ReadsBack codecs.data_chunk) (writes : AlwaysWrites codecs.data_chunk)
      (addr : Address) (q : QueryReq) (d : Bytes) (len : ℕ) (batches : List (List BleComm))
      (s : System S Tx)
      → AllOfOthers addr batches
      → QuietRounds batches addr q s
      → cached s.handler.server_data_cache addr q.query_type ≡ some d
      → reader_at s.handler.buffer_map addr q.query_type ≡ none
      → q.resp_buffer_len - s.handler.buffer_map.chunk_len ≡ len
      → length d < length batches
      → 0 < len
      → len ≤ max_buffer_len
      → length d + len < usize_bound
      → (chunks : List DataChunk) × (s' : System S Tx) × (download_among batches addr q (running s)
          ≡ (ok chunks, running s'))
        × (payloads chunks ≡ d)
        × IsTransfer len chunks
        × (reader_at s'.handler.buffer_map addr q.query_type ≡ none)
  download_among_complete reads writes addr q d len batches s others quiet held idle size enough
        room short bound =
      let (chunks, s', run, joined, transfer, closed) =
        read_between_complete service bus codecs reads writes addr q d len batches s others held
          idle size enough room short bound in
      (
        chunks,
        s',
        download_among-read_between batches addr q chunks s s' quiet run,
        joined,
        transfer,
        closed,
      )
