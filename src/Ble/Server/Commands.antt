-- ===== src/Ble/Server/Commands.antt =====
-- What commands and subscriptions do to the server.
use webcam_direct_linux.Prelude.{
  ◌<◌, ◌≡◌, refl, arith, Bytes, Text, none, some, ok, err, panic, list_key, number_key, ◌=?◌,
  =?_iff, ◌≢◌, Bool-cases, inl, inr, if◌then◌else◌,
}
use webcam_direct_linux.HashMap.{get, get-remove, get-insert_self}
use webcam_direct_linux.Ble.Api.{
  Address, CommBuffer, CmdApi, QueryApi, sdp_answer, mobile_disconnected, sdp_offer, CommandReq,
  SubReq, topic_key,
}
use webcam_direct_linux.Ble.Buffer.{
  MobileBufferMap, get_complete_buffer, reader_at, writer_at, remove_mobile,
}
use webcam_direct_linux.Ble.Buffer.Writer.{get_complete_buffer-unreadable}
use webcam_direct_linux.Ble.Buffer.Isolation.{
  remove_mobile_frame, reader_at_complete, get_complete_buffer_frame,
}
use webcam_direct_linux.Ble.Requester.{Broadcast, BlePublisher}
use webcam_direct_linux.Ble.Server.Service.{CommDataService, Codecs}
use webcam_direct_linux.Ble.Server.{
  System, fetch, fetch_sdp_answer, handle_command, dispatch, handle_sub,
}
use webcam_direct_linux.Ble.Server.Cache.{cached}

module _ {S Tx Rx : Type 0} (service : CommDataService S Tx) (bus : Broadcast S Tx Rx)
    (codecs : Codecs) where
  -- A command whose payload is no encoded chunk fails, and changes nothing, whatever it asks for.
  pub handle_command-unreadable :
      (addr : Address) (cmd : CommandReq) (e : Text) (s : System S Tx)
      → codecs.data_chunk.des cmd.payload ≡ err e
      → handle_command service bus codecs addr cmd s ≡ (err e, s)
  unfolding handle_command
  handle_command-unreadable addr cmd e s h =
      rw (get_complete_buffer-unreadable codecs.data_chunk addr cmd s.handler.buffer_map e h)

  -- A command without its last chunk is acknowledged, and changes neither the cached data nor
  -- anything outside the handler.
  pub handle_command-partial :
      (addr : Address) (cmd : CommandReq) (s : System S Tx)
      → (get_complete_buffer codecs.data_chunk addr cmd s.handler.buffer_map).0 ≡ ok none
      → ((handle_command service bus codecs addr cmd s).0 ≡ ok tt)
        × ((handle_command service bus codecs addr cmd s).1.outside ≡ s.outside)
        × ((handle_command service bus codecs addr cmd s).1.handler.server_data_cache
            ≡ s.handler.server_data_cache)
  unfolding handle_command
  handle_command-partial addr cmd s h = rw h (refl, refl, refl)

  -- What is collected of a mobile, once a command was taken in and its sender removed.
  writer_gone :
      (addr : Address) (cmd : CommandReq) (m : MobileBufferMap) (other : Address) (ct : CmdApi)
      → writer_at (remove_mobile addr (get_complete_buffer codecs.data_chunk addr cmd m).1) other ct
        ≡ (if addr =? other then none else writer_at m other ct)
  writer_gone addr cmd m other ct =
      let m' = (get_complete_buffer codecs.data_chunk addr cmd m).1 in
      let gone = (remove_mobile_frame addr m' other sdp_answer ct).1 in
      elim (Bool-cases (addr =? other)) [
        | inl same ↦ ground (arith, gone, same)
        | inr differ ↦
            let apart : addr ≢ other =
              λ same. absurd (ground (arith, differ, (=?_iff addr other).1 same)) in
            let kept =
              (get_complete_buffer_frame codecs.data_chunk addr cmd m other ct other sdp_answer
                (inl apart)).0 in
            ground (arith, gone, differ, kept)
      ]

  -- A complete disconnection forgets the transfers in both directions and the answer of its
  -- mobile, keeps those of every other, and hands the service the address; its result is the
  -- service's.
  pub handle_command-disconnect :
      (addr : Address) (cmd : CommandReq) (buffer : CommBuffer) (s : System S Tx) (other : Address)
      (qt : QueryApi) (ct : CmdApi)
      → cmd.cmd_type ≡ mobile_disconnected
      → (get_complete_buffer codecs.data_chunk addr cmd s.handler.buffer_map).0 ≡ ok (some buffer)
      → let (r, t) = handle_command service bus codecs addr cmd s in
        let (r', o) = service.mobile_disconnected addr s.outside in
        (r ≡ r')
        × (t.outside ≡ o)
        × (reader_at t.handler.buffer_map other qt
            ≡ (if addr =? other then none else reader_at s.handler.buffer_map other qt))
        × (writer_at t.handler.buffer_map other ct
            ≡ (if addr =? other then none else writer_at s.handler.buffer_map other ct))
        × (cached t.handler.server_data_cache other sdp_answer
            ≡ (if addr =? other then none else cached s.handler.server_data_cache other sdp_answer))
        × (t.handler.server_data_cache.host_info ≡ s.handler.server_data_cache.host_info)
  unfolding handle_command dispatch
  handle_command-disconnect addr cmd buffer s other qt ct e h =
      let m = (get_complete_buffer codecs.data_chunk addr cmd s.handler.buffer_map).1 in
      rw (h, e)
        (
          refl,
          refl,
          ground (
            arith,
            (remove_mobile_frame addr m other qt mobile_disconnected).0,
            reader_at_complete codecs.data_chunk addr cmd s.handler.buffer_map other qt,
          ),
          ground (arith, writer_gone addr cmd s.handler.buffer_map other ct),
          ground (arith, get-remove s.handler.server_data_cache.sdp_answer addr other),
          refl,
        )

  -- A new offer does not touch the cached answers, complete or not.
  cache-offer :
      (addr : Address) (cmd : CommandReq) (s : System S Tx)
      → cmd.cmd_type ≡ sdp_offer
      → (handle_command service bus codecs addr cmd s).1.handler.server_data_cache
        ≡ s.handler.server_data_cache
  unfolding handle_command dispatch
  cache-offer addr cmd s e = rw e (ground arith)

  fetch-held :
      (addr : Address) (d : Bytes) (t : System S Tx)
      → get t.handler.server_data_cache.sdp_answer addr ≡ some (some d)
      → fetch service bus codecs sdp_answer addr t ≡ (ok d, t)
  unfolding fetch fetch_sdp_answer
  fetch-held addr d t h = rw (h, fetch_sdp_answer)

  -- After a new offer a mobile that had asked for an answer is given the old one: the next query
  -- takes it from the cache, and does not ask the service.
  pub fetch-stale :
      (addr : Address) (cmd : CommandReq) (d : Bytes) (s : System S Tx)
      → cmd.cmd_type ≡ sdp_offer
      → get s.handler.server_data_cache.sdp_answer addr ≡ some (some d)
      → let t = (handle_command service bus codecs addr cmd s).1 in
        fetch service bus codecs sdp_answer addr t ≡ (ok d, t)
  fetch-stale addr cmd d s e h =
      fetch-held addr d (handle_command service bus codecs addr cmd s).1
        (rw (cache-offer addr cmd s e) h)

  -- The publisher of a topic is made once: a later subscription, with whatever length, leaves it.
  pub handle_sub-keeps :
      (addr : Address) (sub : SubReq) (p : BlePublisher Tx) (s : System S Tx)
      → get s.handler.pubsub_topics_map sub.topic ≡ some p
      → get (handle_sub service bus codecs addr sub s).1.handler.pubsub_topics_map sub.topic
        ≡ some p
  unfolding handle_sub
  handle_sub-keeps addr sub p s h =
      ground (arith, h, get-insert_self s.handler.pubsub_topics_map sub.topic p)

  -- A subscription with a buffer shorter than the overhead of a chunk panics.
  pub handle_sub-small :
      (addr : Address) (sub : SubReq) (s : System S Tx)
      → sub.resp_buffer_len < s.handler.chunk_len
      → handle_sub service bus codecs addr sub s ≡ (panic, s)
  unfolding handle_sub
  handle_sub-small addr sub s h = ground arith
