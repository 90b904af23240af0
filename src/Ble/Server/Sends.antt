-- ===== src/Ble/Server/Sends.antt =====
-- What a mobile that sends a command in chunks does, with the requests of others in between, and
-- what its chunks leave of the buffers.
use webcam_direct_linux.Prelude.{
  ◌+◌, ◌≤◌, ◌≡◌, refl, ap, sym, ◌∙◌, arith, Bytes, List, [], ◌∷◌, ◌++◌, length, Option, none, some,
  ok, ◌==◌, false, Exec, lift, ◌>>=◌, ◌>>◌, list_key, number_key, Result,
}
use webcam_direct_linux.Ble.Api.{
  Address, CmdApi, CommandReq, CommBuffer, QueryApi, BleComm, max_buffer_len,
}
use webcam_direct_linux.Ble.CommTypes.{DataChunk, ReadsBack, AlwaysWrites}
use webcam_direct_linux.Ble.Buffer.{
  MobileBufferMap, collect_chunk, get_cursors, writer_at, reader_at,
}
use webcam_direct_linux.Ble.Buffer.Cursors.{chunk_len-set}
use webcam_direct_linux.Ble.Buffer.Isolation.{reader_at_complete}
use webcam_direct_linux.Ble.Buffer.Writer.{
  collected, received, get_complete_buffer_lem, answer_lem, writer_at-received,
}
use webcam_direct_linux.Ble.Requester.{Broadcast}
use webcam_direct_linux.Ble.Server.Service.{CommDataService, Codecs}
use webcam_direct_linux.Ble.Server.{System, dispatch, handle_command}
use webcam_direct_linux.Ble.Server.Serving.{handle_all}
use webcam_direct_linux.Ble.Server.Rounds.{OfOthers}

-- Each chunk with the requests of others that the server handles before it.
abbrev pub Sends : Type 0
Sends = List (List BleComm × DataChunk)

abbrev pub chunks_of : Sends → List DataChunk
chunks_of [] = []
chunks_of ((others, chunk) ∷ sends) = chunk ∷ chunks_of sends

abbrev pub BetweenOthers : Address → Sends → Type 0
BetweenOthers addr [] = Unit {0}
BetweenOthers addr ((others, chunk) ∷ sends) = OfOthers addr others × BetweenOthers addr sends

-- The chunks with nothing in between.
abbrev pub alone : List DataChunk → Sends
alone [] = []
alone (chunk ∷ chunks) = ([], chunk) ∷ alone chunks

pub chunks_of-alone : (chunks : List DataChunk) → chunks_of (alone chunks) ≡ chunks
chunks_of-alone [] = refl
chunks_of-alone (chunk ∷ chunks) = ap (λ (l : List DataChunk). chunk ∷ l) (chunks_of-alone chunks)

module _ {S Tx Rx : Type 0} (service : CommDataService S Tx) (bus : Broadcast S Tx Rx)
    (codecs : Codecs) where
  -- The mobile stops at the first error.
  unfoldable pub upload : Address → CmdApi → Sends → Exec (System S Tx) (Unit {0})
  upload addr cmd_type [] s = (ok tt, s)
  upload addr cmd_type ((others, chunk) ∷ sends) s =
      (do
        payload ← lift (codecs.data_chunk.ser chunk)
        handle_command service bus codecs addr (record { cmd_type = cmd_type; payload = payload })
        upload addr cmd_type sends)
        (handle_all service bus codecs others s)

  -- The state of the system when a chunk has been put to the buffers.
  abbrev pub put : System S Tx → Address → CmdApi → DataChunk → System S Tx
  put s addr cmd_type chunk = record s {
    handler = record s.handler { buffer_map = received s.handler.buffer_map addr cmd_type chunk };
  }

  -- The state of the system when all the chunks have been put to the buffers, behind the requests
  -- of the others.
  unfoldable pub after_sends : Address → CmdApi → Sends → System S Tx → System S Tx
  after_sends addr cmd_type [] s = s
  after_sends addr cmd_type ((others, chunk) ∷ sends) s =
      after_sends addr cmd_type sends
        (put (handle_all service bus codecs others s) addr cmd_type chunk)

  module _ (addr : Address) (cmd_type : CmdApi) where
    -- A chunk that fits and is the last is followed by the dispatch of what was collected.
    pub command_last :
        (c : DataChunk) (payload : Bytes) (t : System S Tx)
        → codecs.data_chunk.des payload ≡ ok c
        → c.r ≡ 0
        → length (collected t.handler.buffer_map addr cmd_type) + length c.d ≤ max_buffer_len
        → handle_command service bus codecs addr
            (record { cmd_type = cmd_type; payload = payload })
            t
          ≡ dispatch service bus codecs cmd_type addr
              (collected t.handler.buffer_map addr cmd_type ++ c.d)
              (put t addr cmd_type c)
    unfolding handle_command
    command_last c payload t e z fits =
        let m = t.handler.buffer_map in
        let req : CommandReq = record { cmd_type = cmd_type; payload = payload } in
        let whole : (collect_chunk cmd_type c (get_cursors m addr)).0
            ≡ some (collected m addr cmd_type ++ c.d) =
          ground (arith, answer_lem m addr cmd_type c) in
        rw (get_complete_buffer_lem codecs.data_chunk addr req m c e, whole) refl

    -- Any other is only kept.
    pub command_more :
        (c : DataChunk) (payload : Bytes) (t : System S Tx)
        → codecs.data_chunk.des payload ≡ ok c
        → (c.r == 0) ≡ false
        → handle_command service bus codecs addr
            (record { cmd_type = cmd_type; payload = payload })
            t
          ≡ (ok tt, put t addr cmd_type c)
    unfolding handle_command
    command_more c payload t e more =
        let m = t.handler.buffer_map in
        let req : CommandReq = record { cmd_type = cmd_type; payload = payload } in
        let part : (collect_chunk cmd_type c (get_cursors m addr)).0 ≡ none =
          ground (arith, answer_lem m addr cmd_type c) in
        rw (get_complete_buffer_lem codecs.data_chunk addr req m c e, part) refl

    -- What a channel holds after a chunk that is not the last.
    pub collected-put :
        (c : DataChunk) (t : System S Tx)
        → (c.r == 0) ≡ false
        → length (collected t.handler.buffer_map addr cmd_type) + length c.d ≤ max_buffer_len
        → collected (put t addr cmd_type c).handler.buffer_map addr cmd_type
          ≡ collected t.handler.buffer_map addr cmd_type ++ c.d
    collected-put c t more fits =
        ground (arith, writer_at-received t.handler.buffer_map addr cmd_type c)

    pub idle-put :
        (c : DataChunk) (t : System S Tx)
        → c.r ≡ 0
        → writer_at (put t addr cmd_type c).handler.buffer_map addr cmd_type ≡ none
    idle-put c t z = ground (arith, writer_at-received t.handler.buffer_map addr cmd_type c)

  -- Without others in between, nothing outside the server changes.
  pub outside-after_sends :
      (addr : Address) (cmd_type : CmdApi) (chunks : List DataChunk) (s : System S Tx)
      → (after_sends addr cmd_type (alone chunks) s).outside ≡ s.outside
  unfolding after_sends handle_all
  outside-after_sends addr cmd_type [] s = refl
  outside-after_sends addr cmd_type (c ∷ chunks) s =
      outside-after_sends addr cmd_type chunks (put s addr cmd_type c)

  reader-put :
      (reads : ReadsBack codecs.data_chunk) (writes : AlwaysWrites codecs.data_chunk)
      (addr : Address) (cmd_type : CmdApi) (c : DataChunk) (s : System S Tx) (qt : QueryApi)
      → reader_at (put s addr cmd_type c).handler.buffer_map addr qt
        ≡ reader_at s.handler.buffer_map addr qt
  reader-put reads writes addr cmd_type c s qt =
      let (payload, e) = writes c in
      let req : CommandReq = record { cmd_type = cmd_type; payload = payload } in
      let m = s.handler.buffer_map in
      ap (λ (p : Result (Option CommBuffer) × MobileBufferMap). reader_at p.1 addr qt)
        (sym (get_complete_buffer_lem codecs.data_chunk addr req m c (reads c payload e)))
      ∙ reader_at_complete codecs.data_chunk addr req m addr qt

  -- Without others in between, only the buffers change, and of them no reader of the mobile.
  pub after_sends-alone :
      (reads : ReadsBack codecs.data_chunk) (writes : AlwaysWrites codecs.data_chunk)
      (addr : Address) (cmd_type : CmdApi) (chunks : List DataChunk) (s : System S Tx)
      → let t = after_sends addr cmd_type (alone chunks) s in
        (t.outside ≡ s.outside)
        × (t.handler.server_data_cache ≡ s.handler.server_data_cache)
        × (t.handler.buffer_map.chunk_len ≡ s.handler.buffer_map.chunk_len)
        × ((qt : QueryApi)
            → reader_at t.handler.buffer_map addr qt ≡ reader_at s.handler.buffer_map addr qt)
  unfolding after_sends handle_all
  after_sends-alone reads writes addr cmd_type [] s = (refl, refl, refl, λ qt. refl)
  after_sends-alone reads writes addr cmd_type (c ∷ chunks) s =
      let (o, k, l, r) =
        after_sends-alone reads writes addr cmd_type chunks (put s addr cmd_type c) in
      (
        o,
        k,
        l ∙ chunk_len-set s.handler.buffer_map addr _,
        λ qt. r qt ∙ reader-put reads writes addr cmd_type c s qt,
      )
