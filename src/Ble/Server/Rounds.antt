-- ===== src/Ble/Server/Rounds.antt =====
-- The rounds in which a mobile reads data from the server, with the requests of others in between.
use webcam_direct_linux.Prelude.{
  ◌≡◌, ◌≢◌, refl, arith, Bytes, List, [], ◌∷◌, some, ok, anyhow, Result, ◌==◌, false, if◌then◌else◌,
  Exec, lift, pure, ◌>>=◌, list_key, number_key,
}
use webcam_direct_linux.Ble.Api.{Address, QueryApi, host_info, sdp_answer, QueryReq, BleComm}
use webcam_direct_linux.Ble.CommTypes.{DataChunk}
use webcam_direct_linux.Ble.Buffer.{MobileBufferMap, get_next_data_chunk}
use webcam_direct_linux.Ble.Requester.{Broadcast}
use webcam_direct_linux.Ble.Server.Service.{CommDataService, Codecs}
use webcam_direct_linux.Ble.Server.{
  System, fetch, fetch_host_info, fetch_sdp_answer, handle_query, handle_comm,
}
use webcam_direct_linux.Ble.Server.Cache.{cached}
use webcam_direct_linux.Ble.Server.Serving.{handle_all}
use webcam_direct_linux.Ble.Server.Frames.{handle_comm-Keeps}
use webcam_direct_linux.Ble.Server.Kept.{Keeps, Keeps-refl, Keeps-trans}

-- Requests that are all of other mobiles.
abbrev pub OfOthers : Address → List BleComm → Type 0
OfOthers addr [] = Unit {0}
OfOthers addr (comm ∷ comms) = (comm.addr ≢ addr) × OfOthers addr comms

abbrev pub AllOfOthers : Address → List (List BleComm) → Type 0
AllOfOthers addr [] = Unit {0}
AllOfOthers addr (comms ∷ rest) = OfOthers addr comms × AllOfOthers addr rest

module _ {S Tx Rx : Type 0} (service : CommDataService S Tx) (bus : Broadcast S Tx Rx)
    (codecs : Codecs) where
  -- The mobile asks for chunks until one says that nothing remains; before each of its requests the
  -- server handles some of the others'. The batches bound the rounds.
  unfoldable pub read_between :
      List (List BleComm) → Address → QueryReq → Exec (System S Tx) (List DataChunk)
  read_between [] addr q s = (anyhow "chunks left", s)
  read_between (others ∷ batches) addr q s =
      (do
        encoded ← handle_query service bus codecs addr q
        chunk ← lift (codecs.data_chunk.des encoded)
        let rest = read_between batches addr q
        if chunk.r == 0 then pure (chunk ∷ []) else (do chunks ← rest; pure (chunk ∷ chunks)))
        (handle_all service bus codecs others s)

  pub handle_all-Keeps :
      (addr : Address) (comms : List BleComm) (s : System S Tx)
      → OfOthers addr comms
      → Keeps addr s.handler (handle_all service bus codecs comms s).handler
  unfolding handle_all
  handle_all-Keeps addr [] s o = Keeps-refl addr s.handler
  handle_all-Keeps addr (comm ∷ comms) s o =
      let t = (handle_comm service bus codecs comm s).1 in
      Keeps-trans addr s.handler t.handler _ (handle_comm-Keeps service bus codecs comm addr s o.0)
        (handle_all-Keeps addr comms t o.1)

  -- Data that the server has is not asked for again.
  pub fetch-cached :
      (qt : QueryApi) (addr : Address) (d : Bytes) (s : System S Tx)
      → cached s.handler.server_data_cache addr qt ≡ some d
      → fetch service bus codecs qt addr s ≡ (ok d, s)
  unfolding fetch fetch_host_info fetch_sdp_answer
  fetch-cached host_info addr d s e = ground arith
  fetch-cached sdp_answer addr d s e = ground arith

  pub handle_query-cached :
      (addr : Address) (q : QueryReq) (d : Bytes) (s : System S Tx) (r : Result Bytes)
      (m : MobileBufferMap)
      → cached s.handler.server_data_cache addr q.query_type ≡ some d
      → get_next_data_chunk codecs.data_chunk addr q d s.handler.buffer_map ≡ (r, m)
      → handle_query service bus codecs addr q s
        ≡ (r, record s { handler = record s.handler { buffer_map = m } })
  unfolding handle_query
  handle_query-cached addr q d s r m e n = rw (fetch-cached q.query_type addr d s e, n) refl

  pub read_between_last :
      (others : List BleComm) (batches : List (List BleComm)) (addr : Address) (q : QueryReq)
      (s t : System S Tx) (encoded : Bytes) (chunk : DataChunk)
      → handle_query service bus codecs addr q (handle_all service bus codecs others s)
        ≡ (ok encoded, t)
      → codecs.data_chunk.des encoded ≡ ok chunk
      → chunk.r ≡ 0
      → read_between (others ∷ batches) addr q s ≡ (ok (chunk ∷ []), t)
  unfolding read_between
  read_between_last others batches addr q s t encoded chunk e d z = rw (e, d, z)

  pub read_between_more :
      (others : List BleComm) (batches : List (List BleComm)) (addr : Address) (q : QueryReq)
      (s t u : System S Tx) (encoded : Bytes) (chunk : DataChunk) (chunks : List DataChunk)
      → handle_query service bus codecs addr q (handle_all service bus codecs others s)
        ≡ (ok encoded, t)
      → codecs.data_chunk.des encoded ≡ ok chunk
      → (chunk.r == 0) ≡ false
      → read_between batches addr q t ≡ (ok chunks, u)
      → read_between (others ∷ batches) addr q s ≡ (ok (chunk ∷ chunks), u)
  unfolding read_between
  read_between_more others batches addr q s t u encoded chunk chunks e d z rest = rw (e, d, z, rest)

  -- A first request fetches the data, and goes on as if it had been there.
  pub read_between_fresh :
      (batches : List (List BleComm)) (addr : Address) (q : QueryReq) (d : Bytes)
      (s t : System S Tx)
      → fetch service bus codecs q.query_type addr s ≡ (ok d, t)
      → fetch service bus codecs q.query_type addr t ≡ (ok d, t)
      → read_between ([] ∷ batches) addr q s ≡ read_between ([] ∷ batches) addr q t
  unfolding read_between handle_all handle_query
  read_between_fresh batches addr q d s t e f = rw (e, f) refl
