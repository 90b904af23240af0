-- ===== src/Ble/Server/InStep.antt =====
-- What the requests do to the invariant of the server, and the answer to a query under it.
use webcam_direct_linux.Prelude.{
  ℕ, ◌+◌, ◌-◌, ◌≤◌, ◌<◌, ◌≡◌, subst, arith, Bytes, length, none, some, ok, anyhow, leb, [],
  Result-cases, inl, inr, usize_bound, list_key, number_key, if◌then◌else◌,
}
use webcam_direct_linux.HashMap.{get}
use webcam_direct_linux.Ble.Api
use webcam_direct_linux.Ble.Api.{
  Address, QueryApi, host_info, sdp_answer, CmdApi, mobile_disconnected, register_mobile, sdp_offer,
  QueryReq, CommandReq, SubReq, PubReq, BleComm, BleApi, query_key, same_query_iff, max_buffer_len,
}
use webcam_direct_linux.Ble.CommTypes.{DataChunk, Codec}
use webcam_direct_linux.Ble.Buffer.{
  MobileBufferMap, cut_chunk, close_reader, get_next_data_chunk, get_complete_buffer, reader_at,
  get_cursors, set_cursors, remove_mobile,
}
use webcam_direct_linux.Ble.Buffer.Reader.{remaining, expected_chunk, get_next_data_chunk_lem}
use webcam_direct_linux.Ble.Buffer.Isolation.{reader_at_complete}
use webcam_direct_linux.Ble.Buffer.Faults.{get_next_data_chunk-small}
use webcam_direct_linux.Ble.Buffer
use webcam_direct_linux.Ble.Requester.{Broadcast}
use webcam_direct_linux.Ble.Server.Service.{CommDataService, Codecs}
use webcam_direct_linux.Ble.Server.{
  System, fetch, handle_query, handle_command, dispatch, handle_sub, handle_pub, handle_comm, new,
}
use webcam_direct_linux.Ble.Server.Cache.{cached, buffer_map-fetch, cached-fetch, cached-fetch_self}
use webcam_direct_linux.Ble.Server.Held.{
  Held, IsInStep, Held-remaining, Held-mono, gone-Held, IsInStep-same, next-IsInStep,
}

module _ {S Tx Rx : Type 0} (service : CommDataService S Tx) (bus : Broadcast S Tx Rx)
    (codecs : Codecs) where
  fetch-IsInStep :
      (qt : QueryApi) (addr : Address) (s : System S Tx)
      → IsInStep s.handler
      → IsInStep (fetch service bus codecs qt addr s).1.handler
  fetch-IsInStep qt addr s v = record {
    at = λ other qt'. rw (buffer_map-fetch service bus codecs qt addr s) (
        Held-mono (reader_at s.handler.buffer_map other qt')
          (cached s.handler.server_data_cache other qt') _
          (cached-fetch service bus codecs qt addr s other qt') (v.at other qt'));
  }

  query-IsInStep :
      (addr : Address) (q : QueryReq) (s : System S Tx)
      → IsInStep s.handler
      → IsInStep (handle_query service bus codecs addr q s).1.handler
  unfolding handle_query
  query-IsInStep addr q s v =
      let f = fetch service bus codecs q.query_type addr s in
      let w = fetch-IsInStep q.query_type addr s v in
      elim (Result-cases f.0) [
        | inl (d, e) ↦ rw e (
            next-IsInStep codecs.data_chunk addr q d f.1.handler w
              (cached-fetch_self service bus codecs q.query_type addr s d e))
        | inr (inl (x, e)) ↦ rw e w
        | inr (inr e) ↦ rw e w
      ]

  dispatch-IsInStep :
      (t : CmdApi) (addr : Address) (buffer : Bytes) (s : System S Tx)
      → IsInStep s.handler
      → IsInStep (dispatch service bus codecs t addr buffer s).1.handler
  unfolding dispatch
  dispatch-IsInStep mobile_disconnected addr buffer s v = record {
    at = gone-Held addr s.handler.buffer_map s.handler.server_data_cache v.at;
  }
  dispatch-IsInStep register_mobile addr buffer s v =
      elim (Result-cases (codecs.mobile_schema.des buffer)) [
        | inl (a, e) ↦ rw e v
        | inr (inl (x, e)) ↦ rw e v
        | inr (inr e) ↦ rw e v
      ]
  dispatch-IsInStep sdp_offer addr buffer s v =
      elim (Result-cases (codecs.mobile_sdp_offer.des buffer)) [
        | inl (a, e) ↦ rw e v
        | inr (inl (x, e)) ↦ rw e v
        | inr (inr e) ↦ rw e v
      ]

  command-IsInStep :
      (addr : Address) (cmd : CommandReq) (s : System S Tx)
      → IsInStep s.handler
      → IsInStep (handle_command service bus codecs addr cmd s).1.handler
  unfolding handle_command
  command-IsInStep addr cmd s v =
      let c = get_complete_buffer codecs.data_chunk addr cmd s.handler.buffer_map in
      let h = record s.handler { buffer_map = c.1 } in
      let w : IsInStep h = record {
        at = λ other qt.
            rw (reader_at_complete codecs.data_chunk addr cmd s.handler.buffer_map other qt)
              (v.at other qt);
      } in
      elim (Result-cases c.0) [
        | inl (none, e) ↦ rw e w
        | inl (some buffer, e) ↦
            rw e (dispatch-IsInStep cmd.cmd_type addr buffer (record s { handler = h }) w)
        | inr (inl (x, e)) ↦ rw e w
        | inr (inr e) ↦ rw e w
      ]

  sub_keeps :
      (addr : Address) (r : SubReq) (s : System S Tx)
      → ((handle_sub service bus codecs addr r s).1.handler.buffer_map ≡ s.handler.buffer_map)
        × ((handle_sub service bus codecs addr r s).1.handler.server_data_cache
            ≡ s.handler.server_data_cache)
  unfolding handle_sub
  sub_keeps addr r s = ground arith

  pub_keeps :
      (addr : Address) (r : PubReq) (s : System S Tx)
      → ((handle_pub service bus codecs addr r s).1.handler.buffer_map ≡ s.handler.buffer_map)
        × ((handle_pub service bus codecs addr r s).1.handler.server_data_cache
            ≡ s.handler.server_data_cache)
  unfolding handle_pub
  pub_keeps addr r s = ground arith

  -- Every request keeps each open transfer within its cached data, whatever the service, the
  -- channels and the codecs do, and whether the request succeeds or not.
  pub handle_comm-IsInStep :
      (comm : BleComm) (s : System S Tx)
      → IsInStep s.handler
      → IsInStep (handle_comm service bus codecs comm s).1.handler
  unfolding handle_comm
  handle_comm-IsInStep comm s v = by_api comm.comm_api
    where
      by_api :
          (a : BleApi)
          → IsInStep
              (handle_comm service bus codecs
                (record { addr = comm.addr; comm_api = a })
                s).1.handler
      by_api (Api.query q) = query-IsInStep comm.addr q s v
      by_api (Api.command c) = command-IsInStep comm.addr c s v
      by_api (Api.sub r) =
          IsInStep-same _ _ (sub_keeps comm.addr r s).0 (sub_keeps comm.addr r s).1 v
      by_api (Api.publish r) =
          IsInStep-same _ _ (pub_keeps comm.addr r s).0 (pub_keeps comm.addr r s).1 v

  -- A query whose data is at hand never panics: it is refused if the response buffer has no room,
  -- and is answered with the next chunk of the data otherwise. The transfers are within their
  -- data, and the lengths stay within usize.
  pub handle_query_lem :
      (addr : Address) (q : QueryReq) (s : System S Tx) (d : Bytes)
      → IsInStep s.handler
      → (fetch service bus codecs q.query_type addr s).0 ≡ ok d
      → length d + q.resp_buffer_len < usize_bound
      → let m = s.handler.buffer_map in
        (handle_query service bus codecs addr q s).0 ≡ (
          if leb q.resp_buffer_len m.chunk_len
          then anyhow "Response buffer length too small"
          else codecs.data_chunk.ser (
              expected_chunk (q.resp_buffer_len - m.chunk_len) (remaining m addr q.query_type d) d))
  unfolding handle_query
  handle_query_lem addr q s d v e bound =
      let f = fetch service bus codecs q.query_type addr s in
      let m = s.handler.buffer_map in
      let n = remaining m addr q.query_type d in
      let same = buffer_map-fetch service bus codecs q.query_type addr s in
      let held : n ≤ length d = Held-remaining m addr q.query_type d (
        subst (λ c. Held (reader_at m addr q.query_type) c)
          (cached-fetch_self service bus codecs q.query_type addr s d e)
          (subst
            (λ x.
              Held (reader_at x addr q.query_type)
                (cached f.1.handler.server_data_cache addr q.query_type))
            same ((fetch-IsInStep q.query_type addr s v).at addr q.query_type))) in
      rw (e, same)
        (ground (
          arith,
          get_next_data_chunk-small codecs.data_chunk addr q d m,
          get_next_data_chunk_lem codecs.data_chunk addr q d m (q.resp_buffer_len - m.chunk_len) n,
        ))

-- The invariant holds at the start.
pub new-IsInStep : {Tx : Type 0} (codec : Codec DataChunk) → IsInStep {Tx = Tx} (new codec)
unfolding new Buffer.new reader_at get_cursors get
new-IsInStep codec = record {
  at = λ addr qt.
      elim qt
        as (λ t.
          Held (get {V = ℕ} [] t) (cached (record { host_info = none; sdp_answer = [] }) addr t)) [
            | host_info ↦ tt
            | sdp_answer ↦ tt
          ];
}
