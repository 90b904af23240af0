-- ===== src/Ble/Session.antt =====
-- A call with one mobile through the server (src/ble/server/mod.rs) and the service behind it
-- (src/ble/server/mobile_comm.rs): its offer is uploaded, its answer downloaded.
use webcam_direct_linux.Prelude.{
  ℕ, ◌+◌, ◌-◌, ◌≤◌, ◌<◌, ◌≡◌, refl, ap, sym, subst, ◌∙◌, arith, Bytes, List, [], ◌∷◌, ◌++◌, length,
  none, some, ok, usize_bound, list_key, number_key,
}
use webcam_direct_linux.HashMap.{get, insert, get-insert_self}
use webcam_direct_linux.Ble.Api.{Address, sdp_offer, sdp_answer, QueryReq, BleComm, max_buffer_len}
use webcam_direct_linux.Ble.CommTypes.{
  DataChunk, ReadsBack, AlwaysWrites, MobileSdpOffer, MobileSdpAnswer,
}
use webcam_direct_linux.Ble.Buffer.{reader_at}
use webcam_direct_linux.Ble.Buffer.Reader.{payloads}
use webcam_direct_linux.Ble.Buffer.ReadAll.{IsTransfer}
use webcam_direct_linux.Ble.Buffer.Writer.{collected}
use webcam_direct_linux.Ble.Requester.{Broadcast}
use webcam_direct_linux.Ble.Server.Service.{CommDataService, Codecs}
use webcam_direct_linux.Ble.Server.{System, dispatch, fetch, fetch_sdp_answer}
use webcam_direct_linux.Ble.Server.Cache.{cached}
use webcam_direct_linux.Ble.Server.Download.{read_between_complete}
use webcam_direct_linux.Ble.Server.Rounds.{
  AllOfOthers, read_between, read_between_fresh, fetch-cached,
}
use webcam_direct_linux.Ble.Server.Upload.{upload-dispatch}
use webcam_direct_linux.Ble.Server.Sends.{
  alone, chunks_of-alone, chunks_of, BetweenOthers, upload, after_sends, after_sends-alone,
}
use webcam_direct_linux.Ble.MobileComm.{
  AppDataStore, VDeviceBuilderOps, MobileComm, get_sdp_answer, service,
}

alone-BetweenOthers : (addr : Address) (chunks : List DataChunk) → BetweenOthers addr (alone chunks)
alone-BetweenOthers addr [] = tt
alone-BetweenOthers addr (c ∷ chunks) = (tt, alone-BetweenOthers addr chunks)

module _ {S Tx Rx : Type 0} (svc : CommDataService S Tx) (bus : Broadcast S Tx Rx)
    (codecs : Codecs) where
  pub dispatch_offer :
      (addr : Address) (buffer : Bytes) (offer : MobileSdpOffer) (s : System S Tx) (o : S)
      → codecs.mobile_sdp_offer.des buffer ≡ ok offer
      → svc.set_mobile_sdp_offer addr offer s.outside ≡ (ok tt, o)
      → dispatch svc bus codecs sdp_offer addr buffer s ≡ (ok tt, record s { outside = o })
  unfolding dispatch
  dispatch_offer addr buffer offer s o e f = rw (e, f) refl

  -- An uploaded offer is handed to the service once, and its result is the command's.
  upload_offer :
      (reads : ReadsBack codecs.data_chunk) (writes : AlwaysWrites codecs.data_chunk)
      (addr : Address) (buffer : Bytes) (offer : MobileSdpOffer) (chunks : List DataChunk) (len : ℕ)
      (s : System S Tx) (o : S)
      → codecs.mobile_sdp_offer.des buffer ≡ ok offer
      → IsTransfer len chunks
      → payloads chunks ≡ buffer
      → length buffer ≤ max_buffer_len
      → collected s.handler.buffer_map addr sdp_offer ≡ []
      → svc.set_mobile_sdp_offer addr offer s.outside ≡ (ok tt, o)
      → upload svc bus codecs addr sdp_offer (alone chunks) s ≡ (
        ok tt,
        record (after_sends svc bus codecs addr sdp_offer (alone chunks) s) { outside = o },
      )
  upload_offer reads writes addr buffer offer chunks len s o des transfer joined fits idle set =
      let after = after_sends svc bus codecs addr sdp_offer (alone chunks) s in
      let same = (after_sends-alone svc bus codecs reads writes addr sdp_offer chunks s).0 in
      let size : length (collected s.handler.buffer_map addr sdp_offer)
            + length (payloads (chunks_of (alone chunks)))
          ≤ max_buffer_len =
        rw (chunks_of-alone chunks) (omega (arith, ap length idle, ap length joined)) in
      let whole : collected s.handler.buffer_map addr sdp_offer
            ++ payloads (chunks_of (alone chunks))
          ≡ buffer =
        rw (idle, chunks_of-alone chunks) joined in
      let given : svc.set_mobile_sdp_offer addr offer after.outside ≡ (ok tt, o) = rw same set in
      (upload-dispatch svc bus codecs reads writes addr sdp_offer len (alone chunks) s
        (alone-BetweenOthers addr chunks)
        (subst (IsTransfer len) (sym (chunks_of-alone chunks)) transfer) size).0
      ∙ ap (λ (b : Bytes). dispatch svc bus codecs sdp_offer addr b after) whole
      ∙ dispatch_offer addr buffer offer after o des given

  -- The state after the answer has been fetched for the first time.
  abbrev pub with_answer : System S Tx → Address → Bytes → System S Tx
  with_answer s addr d = record s {
    handler = record s.handler {
      server_data_cache = record s.handler.server_data_cache {
        sdp_answer = insert s.handler.server_data_cache.sdp_answer addr (some d);
      };
    };
  }

  fetch_answer :
      (addr : Address) (answer : MobileSdpAnswer) (d : Bytes) (s : System S Tx)
      → get s.handler.server_data_cache.sdp_answer addr ≡ none
      → svc.get_sdp_answer addr s.outside ≡ (ok answer, s.outside)
      → codecs.mobile_sdp_answer.ser answer ≡ ok d
      → fetch svc bus codecs sdp_answer addr s ≡ (ok d, with_answer s addr d)
  unfolding fetch fetch_sdp_answer
  fetch_answer addr answer d s n e f =
      ground (arith, get-insert_self s.handler.server_data_cache.sdp_answer addr (some d))

  -- An answer that the service gives and that was not asked for before is downloaded whole.
  pub download_answer :
      (reads : ReadsBack codecs.data_chunk) (writes : AlwaysWrites codecs.data_chunk)
      (addr : Address) (q : QueryReq) (answer : MobileSdpAnswer) (d : Bytes) (len : ℕ)
      (batches : List (List BleComm)) (s : System S Tx)
      → q.query_type ≡ sdp_answer
      → get s.handler.server_data_cache.sdp_answer addr ≡ none
      → svc.get_sdp_answer addr s.outside ≡ (ok answer, s.outside)
      → codecs.mobile_sdp_answer.ser answer ≡ ok d
      → AllOfOthers addr batches
      → reader_at s.handler.buffer_map addr sdp_answer ≡ none
      → q.resp_buffer_len - s.handler.buffer_map.chunk_len ≡ len
      → length d ≤ length batches
      → 0 < len
      → len ≤ max_buffer_len
      → length d + len < usize_bound
      → (out : List DataChunk) × (s' : System S Tx) × (read_between svc bus codecs
            ([] ∷ batches)
            addr
            q
            s
          ≡ (ok out, s'))
        × (payloads out ≡ d)
        × IsTransfer len out
  download_answer reads writes addr q answer d len batches s qt n e f o idle size enough room short
        bound =
      let t = with_answer s addr d in
      let first = fetch_answer addr answer d s n e f in
      let held : cached t.handler.server_data_cache addr sdp_answer ≡ some d =
        rw (get-insert_self s.handler.server_data_cache.sdp_answer addr (some d)) refl in
      let (out, s', run, joined, transfer, _) =
        read_between_complete svc bus codecs reads writes addr q d len ([] ∷ batches) t (tt, o)
          (rw qt held) (rw qt idle) size (omega arith) room short bound in
      (
        out,
        s',
        read_between_fresh svc bus codecs batches addr q d s t (rw qt first)
              (rw qt (fetch-cached svc bus codecs sdp_answer addr d t held))
            ∙ run,
        joined,
        transfer,
      )

module _ {S Tx Rx : Type 0} (db : AppDataStore S) (builder : VDeviceBuilderOps S)
    (bus : Broadcast S Tx Rx) (server_bus : Broadcast (MobileComm S Tx) Tx Rx)
    (codecs : Codecs) where
  abbrev pub comm_service : CommDataService (MobileComm S Tx) Tx
  comm_service = service db builder bus codecs

  get_sdp_answer_keeps :
      (addr : Address) (c : MobileComm S Tx) → (get_sdp_answer db builder bus codecs addr c).1 ≡ c
  unfolding get_sdp_answer
  get_sdp_answer_keeps addr c = ground arith

  pub answered :
      (addr : Address) (c : MobileComm S Tx) (answer : MobileSdpAnswer)
      → (get_sdp_answer db builder bus codecs addr c).0 ≡ ok answer
      → get_sdp_answer db builder bus codecs addr c ≡ (ok answer, c)
  answered addr c answer e = ground (arith, e, get_sdp_answer_keeps addr c)
