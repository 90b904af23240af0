-- ===== src/Ble/Server/Frames.antt =====
-- What the requests of one mobile leave alone: the transfers and the data of every other.
use webcam_direct_linux.Prelude.{
  ◌≢◌, refl, arith, Bytes, none, some, Result-cases, inl, inr, list_key, number_key,
}
use webcam_direct_linux.Ble.Api
use webcam_direct_linux.Ble.Api.{
  Address, QueryApi, host_info, sdp_answer, CmdApi, mobile_disconnected, register_mobile, sdp_offer,
  QueryReq, CommandReq, SubReq, PubReq, BleComm, BleApi,
}
use webcam_direct_linux.Ble.Buffer.{get_complete_buffer}
use webcam_direct_linux.Ble.Requester.{Broadcast}
use webcam_direct_linux.Ble.Server.Service.{CommDataService, Codecs}
use webcam_direct_linux.Ble.Server.{
  System, fetch, handle_query, handle_command, dispatch, handle_sub, handle_pub, handle_comm,
}
use webcam_direct_linux.Ble.Server.Cache.{buffer_map-fetch, cached-fetch}
use webcam_direct_linux.Ble.Server.Kept.{
  Keeps, Keeps-refl, Keeps-trans, next-Keeps, complete-Keeps, gone-Keeps, Keeps-same,
}

module _ {S Tx Rx : Type 0} (service : CommDataService S Tx) (bus : Broadcast S Tx Rx)
    (codecs : Codecs) where
  -- Fetching for one mobile keeps what there is of every mobile.
  pub fetch-Keeps :
      (qt : QueryApi) (addr other : Address) (s : System S Tx)
      → Keeps other s.handler (fetch service bus codecs qt addr s).1.handler
  fetch-Keeps qt addr other s =
      let same = buffer_map-fetch service bus codecs qt addr s in
      record {
        reader = λ qt'. rw same refl;
        writer = λ ct. rw same refl;
        overhead = rw same refl;
        kept = λ qt' d e. cached-fetch service bus codecs qt addr s other qt' d e;
      }

  query-Keeps :
      (addr other : Address) (q : QueryReq) (s : System S Tx)
      → addr ≢ other
      → Keeps other s.handler (handle_query service bus codecs addr q s).1.handler
  unfolding handle_query
  query-Keeps addr other q s ne =
      let f = fetch service bus codecs q.query_type addr s in
      let w = fetch-Keeps q.query_type addr other s in
      elim (Result-cases f.0) [
        | inl (d, e) ↦ rw e (
            Keeps-trans other s.handler f.1.handler _ w
              (next-Keeps codecs.data_chunk addr other q d f.1.handler ne))
        | inr (inl (x, e)) ↦ rw e w
        | inr (inr e) ↦ rw e w
      ]

  dispatch-Keeps :
      (t : CmdApi) (addr other : Address) (buffer : Bytes) (s : System S Tx)
      → addr ≢ other
      → Keeps other s.handler (dispatch service bus codecs t addr buffer s).1.handler
  unfolding dispatch
  dispatch-Keeps mobile_disconnected addr other buffer s ne = gone-Keeps addr other s.handler ne
  dispatch-Keeps register_mobile addr other buffer s ne =
      elim (Result-cases (codecs.mobile_schema.des buffer)) [
        | inl (a, e) ↦ rw e (Keeps-refl other s.handler)
        | inr (inl (x, e)) ↦ rw e (Keeps-refl other s.handler)
        | inr (inr e) ↦ rw e (Keeps-refl other s.handler)
      ]
  dispatch-Keeps sdp_offer addr other buffer s ne =
      elim (Result-cases (codecs.mobile_sdp_offer.des buffer)) [
        | inl (a, e) ↦ rw e (Keeps-refl other s.handler)
        | inr (inl (x, e)) ↦ rw e (Keeps-refl other s.handler)
        | inr (inr e) ↦ rw e (Keeps-refl other s.handler)
      ]

  command-Keeps :
      (addr other : Address) (cmd : CommandReq) (s : System S Tx)
      → addr ≢ other
      → Keeps other s.handler (handle_command service bus codecs addr cmd s).1.handler
  unfolding handle_command
  command-Keeps addr other cmd s ne =
      let c = get_complete_buffer codecs.data_chunk addr cmd s.handler.buffer_map in
      let h = record s.handler { buffer_map = c.1 } in
      let w = complete-Keeps codecs.data_chunk addr other cmd s.handler ne in
      elim (Result-cases c.0) [
        | inl (none, e) ↦ rw e w
        | inl (some buffer, e) ↦ rw e (
            Keeps-trans other s.handler h _ w
              (dispatch-Keeps cmd.cmd_type addr other buffer (record s { handler = h }) ne))
        | inr (inl (x, e)) ↦ rw e w
        | inr (inr e) ↦ rw e w
      ]

  sub-Keeps :
      (addr other : Address) (r : SubReq) (s : System S Tx)
      → Keeps other s.handler (handle_sub service bus codecs addr r s).1.handler
  unfolding handle_sub
  sub-Keeps addr other r s = Keeps-same other _ _ (ground arith) (ground arith)

  pub-Keeps :
      (addr other : Address) (r : PubReq) (s : System S Tx)
      → Keeps other s.handler (handle_pub service bus codecs addr r s).1.handler
  unfolding handle_pub
  pub-Keeps addr other r s = Keeps-same other _ _ (ground arith) (ground arith)

  -- A request of one mobile, whatever it is and whether it succeeds or not, leaves every other its
  -- transfers in both directions, and its data where the server had it.
  pub handle_comm-Keeps :
      (comm : BleComm) (other : Address) (s : System S Tx)
      → comm.addr ≢ other
      → Keeps other s.handler (handle_comm service bus codecs comm s).1.handler
  unfolding handle_comm
  handle_comm-Keeps comm other s ne = by_api comm.comm_api
    where
      by_api :
          (a : BleApi)
          → Keeps other s.handler
              (handle_comm service bus codecs
                (record { addr = comm.addr; comm_api = a })
                s).1.handler
      by_api (Api.query q) = query-Keeps comm.addr other q s ne
      by_api (Api.command c) = command-Keeps comm.addr other c s ne
      by_api (Api.sub r) = sub-Keeps comm.addr other r s
      by_api (Api.publish r) = pub-Keeps comm.addr other r s
