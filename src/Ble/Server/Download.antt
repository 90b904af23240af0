-- ===== src/Ble/Server/Download.antt =====
-- A mobile reads data from the server, while the other mobiles send requests of their own.
use webcam_direct_linux.Prelude.{
  ℕ, ◌+◌, ◌-◌, ◌≤◌, ◌<◌, ◌≡◌, ap, ◌∙◌, arith, Bytes, List, [], ◌∷◌, append-nil, length, drop,
  length-drop, none, some, ok, Bool-cases, inl, inr, ◌==◌, if◌then◌else◌, usize_bound, list_key,
  number_key, ltb,
}
use webcam_direct_linux.Ble.Api.{Address, QueryReq, BleComm, max_buffer_len}
use webcam_direct_linux.Ble.CommTypes.{DataChunk, ReadsBack, AlwaysWrites}
use webcam_direct_linux.Ble.Buffer.{MobileBufferMap, reader_at}
use webcam_direct_linux.Ble.Buffer.Reader.{expected_chunk, remaining, payloads}
use webcam_direct_linux.Ble.Buffer.ReadAll.{
  IsTransfer, IsTransfer-cons, reader_at-after, last_payload, next_payload, length-payload, after,
  chunk_len-after, one_call,
}
use webcam_direct_linux.Ble.Requester.{Broadcast}
use webcam_direct_linux.Ble.Server.Service.{CommDataService, Codecs}
use webcam_direct_linux.Ble.Server.{System, handle_query}
use webcam_direct_linux.Ble.Server.Cache.{cached}
use webcam_direct_linux.Ble.Server.Serving.{handle_all}
use webcam_direct_linux.Ble.Server.Rounds.{
  OfOthers, AllOfOthers, read_between, handle_all-Keeps, handle_query-cached, read_between_last,
  read_between_more,
}

module _ {S Tx Rx : Type 0} (service : CommDataService S Tx) (bus : Broadcast S Tx Rx)
    (codecs : Codecs) where
  module _ (reads : ReadsBack codecs.data_chunk) (writes : AlwaysWrites codecs.data_chunk)
      (addr : Address) (q : QueryReq) (d : Bytes) (len : ℕ) where
    abbrev WithMap : System S Tx → MobileBufferMap → System S Tx
    WithMap s m = record s { handler = record s.handler { buffer_map = m } }

    -- One request of the mobile, behind some of the others', when `n` bytes are left.
    one_round :
        (others : List BleComm) (s : System S Tx) (n : ℕ)
        → OfOthers addr others
        → cached s.handler.server_data_cache addr q.query_type ≡ some d
        → q.resp_buffer_len - s.handler.buffer_map.chunk_len ≡ len
        → remaining s.handler.buffer_map addr q.query_type d ≡ n
        → n ≤ length d
        → 0 < len
        → length d + len < usize_bound
        → let t = handle_all service bus codecs others s in
          let m = after addr q len t.handler.buffer_map n in
          (encoded : Bytes) × (handle_query service bus codecs addr q t ≡ (ok encoded, WithMap t m))
          × (codecs.data_chunk.des encoded ≡ ok (expected_chunk len n d))
          × (q.resp_buffer_len - m.chunk_len ≡ len)
          × (cached t.handler.server_data_cache addr q.query_type ≡ some d)
          × (reader_at m addr q.query_type ≡ (
              if (n - len) == 0
              then none
              else if ltb max_buffer_len len
              then none
              else some (n - len)))
    one_round others s n o e size left fits room bound =
        let t = handle_all service bus codecs others s in
        let k = handle_all-Keeps service bus codecs addr others s o in
        let e' = k.kept q.query_type d e in
        let size' : q.resp_buffer_len - t.handler.buffer_map.chunk_len ≡ len =
          rw (k.overhead) size in
        let left' : remaining t.handler.buffer_map addr q.query_type d ≡ n =
          rw (k.reader q.query_type) left in
        let (encoded, call, reading) =
          one_call codecs.data_chunk reads writes addr q d len t.handler.buffer_map n size' left'
            fits room bound in
        (
          encoded,
          handle_query-cached service bus codecs addr q d t (ok encoded)
              (after addr q len t.handler.buffer_map n) e' call,
          reading,
          chunk_len-after addr q len t.handler.buffer_map n size',
          e',
          reader_at-after t.handler.buffer_map addr q.query_type len (n - len),
        )

    read_between_from :
        (batches : List (List BleComm)) (s : System S Tx) (n : ℕ)
        → AllOfOthers addr batches
        → cached s.handler.server_data_cache addr q.query_type ≡ some d
        → q.resp_buffer_len - s.handler.buffer_map.chunk_len ≡ len
        → remaining s.handler.buffer_map addr q.query_type d ≡ n
        → n ≤ length d
        → n < length batches
        → 0 < len
        → len ≤ max_buffer_len
        → length d + len < usize_bound
        → (chunks : List DataChunk) × (s' : System S Tx) × (read_between service bus codecs batches
              addr q s
            ≡ (ok chunks, s'))
          × (payloads chunks ≡ drop (length d - n) d)
          × IsTransfer len chunks
          × (reader_at s'.handler.buffer_map addr q.query_type ≡ none)
    read_between_from [] s n o e size left fits enough room short bound = absurd (omega arith)
    read_between_from (others ∷ batches) s n o e size left fits enough room short bound =
        let t = handle_all service bus codecs others s in
        let m = after addr q len t.handler.buffer_map n in
        let (encoded, call, reading, size', e', at_end) =
          one_round others s n o.0 e size left fits room bound in
        elim (Bool-cases ((n - len) == 0)) [
          | inl done ↦ (
            expected_chunk len n d ∷ [],
            WithMap t m,
            read_between_last service bus codecs others batches addr q s (WithMap t m) encoded _
                call reading (ground arith),
            rw append-nil (last_payload len n d fits (ground arith)),
            (ground arith, length-payload len n d),
            ground (arith, at_end),
          )
          | inr more ↦
              let (chunks, s', rest, joined, transfer, closed) =
                read_between_from batches (WithMap t m) (n - len) o.1 e' size'
                  (ground (arith, at_end)) (omega arith) (ground arith) room short bound in
              (
                expected_chunk len n d ∷ chunks,
                s',
                read_between_more service bus codecs others batches addr q s (WithMap t m) s'
                    encoded _ chunks call reading more rest,
                rw joined (next_payload len n d fits (ground arith)),
                IsTransfer-cons len _ chunks transfer
                    (omega (arith, ap length joined, length-drop (length d - (n - len)) d))
                    (ground arith) (length-payload len n d),
                closed,
              )
        ]

    -- From an idle channel and with the data in the server's cache, the mobile is given a complete
    -- transfer of exactly that data, whatever the other mobiles ask for in between, within one
    -- request more than the data has bytes; its channel is idle again. The encoding writes and
    -- reads back, the response length leaves room for 1 to max_buffer_len bytes, and the lengths
    -- stay within usize.
    pub read_between_complete :
        (batches : List (List BleComm)) (s : System S Tx)
        → AllOfOthers addr batches
        → cached s.handler.server_data_cache addr q.query_type ≡ some d
        → reader_at s.handler.buffer_map addr q.query_type ≡ none
        → q.resp_buffer_len - s.handler.buffer_map.chunk_len ≡ len
        → length d < length batches
        → 0 < len
        → len ≤ max_buffer_len
        → length d + len < usize_bound
        → (chunks : List DataChunk) × (s' : System S Tx) × (read_between service bus codecs batches
              addr q s
            ≡ (ok chunks, s'))
          × (payloads chunks ≡ d)
          × IsTransfer len chunks
          × (reader_at s'.handler.buffer_map addr q.query_type ≡ none)
    read_between_complete batches s o e idle size enough room short bound =
        let (chunks, s', run, joined, transfer, closed) =
          read_between_from batches s (length d) o e size (ground arith) (omega arith) enough room
            short bound in
        (chunks, s', run, joined ∙ ap (λ (k : ℕ). drop k d) (sub_self (length d)), transfer, closed)
      where
        sub_self : (k : ℕ) → k - k ≡ 0
        sub_self k = omega arith
