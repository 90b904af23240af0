-- ===== src/Ble/Server/Cache.antt =====
-- What `handle_query` does to the server's data cache.
use webcam_direct_linux.Prelude.{
  ◌≡◌, arith, Bytes, Option, none, some, ok, list_key, number_key, =?_iff,
}
use webcam_direct_linux.HashMap.{get, get-insert, get-insert_self}
use webcam_direct_linux.Ble.Api.{Address, QueryApi, host_info, sdp_answer}
use webcam_direct_linux.Ble.Requester.{Broadcast}
use webcam_direct_linux.Ble.Server.Service.{CommDataService, Codecs}
use webcam_direct_linux.Ble.Server.{
  ServerDataCache, System, fetch, fetch_host_info, fetch_sdp_answer,
}

abbrev pub joined : Option (Option Bytes) → Option Bytes
joined none = none
joined (some entry) = entry

-- The data that a query of an address would be answered with.
abbrev pub cached : ServerDataCache → Address → QueryApi → Option Bytes
cached c addr host_info = c.host_info
cached c addr sdp_answer = joined (get c.sdp_answer addr)

module _ {S Tx Rx : Type 0} (service : CommDataService S Tx) (bus : Broadcast S Tx Rx)
    (codecs : Codecs) where
  -- Fetching leaves the transfers alone.
  pub buffer_map-fetch :
      (qt : QueryApi) (addr : Address) (s : System S Tx)
      → (fetch service bus codecs qt addr s).1.handler.buffer_map ≡ s.handler.buffer_map
  unfolding fetch fetch_host_info fetch_sdp_answer
  buffer_map-fetch host_info addr s = ground arith
  buffer_map-fetch sdp_answer addr s = ground arith

  -- What was in the cache stays there.
  pub cached-fetch :
      (qt : QueryApi) (addr : Address) (s : System S Tx) (other : Address) (qt' : QueryApi)
      (d : Bytes)
      → cached s.handler.server_data_cache other qt' ≡ some d
      → cached (fetch service bus codecs qt addr s).1.handler.server_data_cache other qt' ≡ some d
  unfolding fetch fetch_host_info fetch_sdp_answer
  cached-fetch host_info addr s other host_info d h = ground arith
  cached-fetch host_info addr s other sdp_answer d h = ground arith
  cached-fetch sdp_answer addr s other host_info d h = ground arith
  cached-fetch sdp_answer addr s other sdp_answer d h = grind (arith, get-insert, =?_iff addr other)

  -- What is fetched is in the cache afterwards.
  pub cached-fetch_self :
      (qt : QueryApi) (addr : Address) (s : System S Tx) (d : Bytes)
      → (fetch service bus codecs qt addr s).0 ≡ ok d
      → cached (fetch service bus codecs qt addr s).1.handler.server_data_cache addr qt ≡ some d
  unfolding fetch fetch_host_info fetch_sdp_answer
  cached-fetch_self host_info addr s d h = ground arith
  cached-fetch_self sdp_answer addr s d h = grind (arith, get-insert_self)
