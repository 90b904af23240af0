-- ===== src/Ble/Buffer/ReadAll.antt =====
-- The whole transfer to a mobile: calls of `get_next_data_chunk` until nothing remains.
use webcam_direct_linux.Prelude.{
  ℕ, zero, suc, ◌+◌, ◌-◌, ◌≤◌, ◌<◌, ◌≡◌, sym, ap, ◌∙◌, none, some, arith, Bytes, List, [], ◌∷◌,
  ◌++◌, append-nil, length, take, drop, take-append-drop, drop-drop, take_all, length-take,
  length-drop, ltb, ◌==◌, if◌then◌else◌, ok, Bool-cases, false, usize_bound, inl, inr,
}
use webcam_direct_linux.Ble.Api.{Address, QueryApi, QueryReq, max_buffer_len, query_key}
use webcam_direct_linux.Ble.CommTypes.{DataChunk, Codec, ReadsBack, AlwaysWrites}
use webcam_direct_linux.Ble.Buffer.{
  MobileBufferMap, get_cursors, set_cursors, close_reader, get_next_data_chunk, reader_at,
}
use webcam_direct_linux.Ble.Buffer.Cursors.{get_cursors-set_self, chunk_len-set}
use webcam_direct_linux.Ble.Buffer.Reader.{
  expected_chunk, remaining, get_next_data_chunk_lem, reader-close_reader, read_all, payloads,
}

-- A complete transfer: each chunk announces the bytes that follow it, only the last announces
-- none, and no chunk has more than `len` bytes.
abbrev pub IsTransfer : ℕ → List DataChunk → Type 0
IsTransfer len [] = ⊥
IsTransfer len (c ∷ []) = (c.r ≡ 0) × (length c.d ≤ len)
IsTransfer len (c ∷ d ∷ cs) =
    (c.r ≡ length (payloads (d ∷ cs))) × (0 < c.r) × (length c.d ≤ len) × IsTransfer len (d ∷ cs)

module _ (codec : Codec DataChunk) (addr : Address) (q : QueryReq) (bytes : Bytes) where
  read_all_last :
      (rounds : ℕ) (m m1 : MobileBufferMap) (encoded : Bytes) (chunk : DataChunk)
      → get_next_data_chunk codec addr q bytes m ≡ (ok encoded, m1)
      → codec.des encoded ≡ ok chunk
      → chunk.r ≡ 0
      → read_all (suc rounds) codec addr q bytes m ≡ (ok (chunk ∷ []), m1)
  unfolding read_all
  read_all_last rounds m m1 encoded chunk e d z = rw (e, d, z)

  read_all_more :
      (rounds : ℕ) (m m1 m2 : MobileBufferMap) (encoded : Bytes) (chunk : DataChunk)
      (chunks : List DataChunk)
      → get_next_data_chunk codec addr q bytes m ≡ (ok encoded, m1)
      → codec.des encoded ≡ ok chunk
      → (chunk.r == 0) ≡ false
      → read_all rounds codec addr q bytes m1 ≡ (ok chunks, m2)
      → read_all (suc rounds) codec addr q bytes m ≡ (ok (chunk ∷ chunks), m2)
  unfolding read_all
  read_all_more rounds m m1 m2 encoded chunk chunks e d z rest = rw (e, d, z, rest)

-- After a call the channel says what remains, if the chunks are not too long.
pub reader_at-after :
    (m : MobileBufferMap) (addr : Address) (query_type : QueryApi) (len r : ℕ)
    → reader_at
        (set_cursors m addr (close_reader len query_type r (get_cursors m addr)))
        addr
        query_type
      ≡ (if r == 0 then none else if ltb max_buffer_len len then none else some r)
unfolding reader_at
reader_at-after m addr query_type len r =
    rw (get_cursors-set_self m addr (close_reader len query_type r (get_cursors m addr)))
      (reader-close_reader len query_type r (get_cursors m addr))

pub IsTransfer-cons :
    (len : ℕ) (c : DataChunk) (cs : List DataChunk)
    → IsTransfer len cs
    → c.r ≡ length (payloads cs)
    → 0 < c.r
    → length c.d ≤ len
    → IsTransfer len (c ∷ cs)
IsTransfer-cons len c [] t e p l = absurd t
IsTransfer-cons len c (d ∷ cs) t e p l = (e, p, l, t)

-- The last chunk is all that is left.
pub last_payload :
    (len n : ℕ) (bytes : Bytes)
    → n ≤ length bytes
    → n ≤ len
    → take len (drop (length bytes - n) bytes) ≡ drop (length bytes - n) bytes
last_payload len n bytes h l =
    take_all len (drop (length bytes - n) bytes)
      (omega (arith, length-drop (length bytes - n) bytes))

-- Any other chunk is followed by what is left then.
pub next_payload :
    (len n : ℕ) (bytes : Bytes)
    → n ≤ length bytes
    → len ≤ n
    → take len (drop (length bytes - n) bytes) ++ drop (length bytes - (n - len)) bytes
      ≡ drop (length bytes - n) bytes
next_payload len n bytes h l =
    ap (λ (t : Bytes). take len (drop (length bytes - n) bytes) ++ t)
      (ap (λ (k : ℕ). drop k bytes) (shift (length bytes) n len h l)
        ∙ sym (drop-drop len (length bytes - n) bytes))
    ∙ take-append-drop len (drop (length bytes - n) bytes)
  where
    shift : (a b c : ℕ) → b ≤ a → c ≤ b → a - (b - c) ≡ a - b + c
    shift a b c p q = omega arith

pub length-payload :
    (len n : ℕ) (bytes : Bytes) → length (take len (drop (length bytes - n) bytes)) ≤ len
length-payload len n bytes = omega (arith, length-take len (drop (length bytes - n) bytes))

-- The state that a call leaves when `n` bytes were left before it.
abbrev pub after : Address → QueryReq → ℕ → MobileBufferMap → ℕ → MobileBufferMap
after addr q len m n =
    set_cursors m addr (close_reader len q.query_type (n - len) (get_cursors m addr))

pub chunk_len-after :
    (addr : Address) (q : QueryReq) (len : ℕ) (m : MobileBufferMap) (n : ℕ)
    → q.resp_buffer_len - m.chunk_len ≡ len
    → q.resp_buffer_len - (after addr q len m n).chunk_len ≡ len
chunk_len-after addr q len m n size = rw (chunk_len-set m addr) size

module _ (codec : Codec DataChunk) (reads : ReadsBack codec) (writes : AlwaysWrites codec)
    (addr : Address) (q : QueryReq) (bytes : Bytes) (len : ℕ) where
  -- One call, with the mobile's reading of its answer.
  pub one_call :
      (m : MobileBufferMap) (n : ℕ)
      → q.resp_buffer_len - m.chunk_len ≡ len
      → remaining m addr q.query_type bytes ≡ n
      → n ≤ length bytes
      → 0 < len
      → length bytes + len < usize_bound
      → (encoded : Bytes) × (get_next_data_chunk codec addr q bytes m
          ≡ (ok encoded, after addr q len m n))
        × (codec.des encoded ≡ ok (expected_chunk len n bytes))
  one_call m n size left fits room bound =
      let (encoded, e) = writes (expected_chunk len n bytes) in
      (
        encoded,
        ground (arith, e, get_next_data_chunk_lem codec addr q bytes m len n size left),
        reads (expected_chunk len n bytes) encoded e,
      )

  -- What a completed transfer is, from a state in which `n` bytes are left.
  abbrev pub Completes : ℕ → ℕ → MobileBufferMap → Type 0
  Completes rounds n m =
      (chunks : List DataChunk) × (m' : MobileBufferMap) × (read_all rounds codec addr q bytes m
        ≡ (ok chunks, m'))
      × (payloads chunks ≡ drop (length bytes - n) bytes)
      × IsTransfer len chunks
      × (reader_at m' addr q.query_type ≡ none)

  pub read_all_from :
      (rounds : ℕ) (m : MobileBufferMap) (n : ℕ)
      → q.resp_buffer_len - m.chunk_len ≡ len
      → remaining m addr q.query_type bytes ≡ n
      → n ≤ length bytes
      → n < rounds
      → 0 < len
      → len ≤ max_buffer_len
      → length bytes + len < usize_bound
      → Completes rounds n m
  read_all_from zero m n size left fits enough room short bound = absurd (omega arith)
  read_all_from (suc rounds) m n size left fits enough room short bound =
      let (encoded, call, reading) = one_call m n size left fits room bound in
      let at_end = reader_at-after m addr q.query_type len (n - len) in
      elim (Bool-cases ((n - len) == 0)) [
        | inl done ↦ (
          expected_chunk len n bytes ∷ [],
          after addr q len m n,
          read_all_last codec addr q bytes rounds m (after addr q len m n) encoded _ call reading
              (ground arith),
          rw append-nil (last_payload len n bytes fits (ground arith)),
          (ground arith, length-payload len n bytes),
          ground (arith, at_end),
        )
        | inr more ↦
            let (chunks, m', rest, joined, transfer, closed) =
              read_all_from rounds (after addr q len m n) (n - len)
                (chunk_len-after addr q len m n size) (ground (arith, at_end)) (omega arith)
                (ground arith) room short bound in
            (
              expected_chunk len n bytes ∷ chunks,
              m',
              read_all_more codec addr q bytes rounds m (after addr q len m n) m' encoded _ chunks
                  call reading more rest,
              rw joined (next_payload len n bytes fits (ground arith)),
              IsTransfer-cons len _ chunks transfer
                  (omega (arith, ap length joined, length-drop (length bytes - (n - len)) bytes))
                  (ground arith) (length-payload len n bytes),
              closed,
            )
      ]

  -- From an idle channel, calls of get_next_data_chunk give a complete transfer of exactly the
  -- data within length + 1 rounds, and leave the channel idle. The encoding writes and reads back,
  -- the response length leaves room for 1 to max_buffer_len bytes of data, and the lengths stay
  -- within usize.
  pub read_all_complete :
      (m : MobileBufferMap)
      → reader_at m addr q.query_type ≡ none
      → q.resp_buffer_len - m.chunk_len ≡ len
      → 0 < len
      → len ≤ max_buffer_len
      → length bytes + len < usize_bound
      → (chunks : List DataChunk) × (m' : MobileBufferMap) × (read_all
            (suc (length bytes))
            codec
            addr
            q
            bytes
            m
          ≡ (ok chunks, m'))
        × (payloads chunks ≡ bytes)
        × IsTransfer len chunks
        × (reader_at m' addr q.query_type ≡ none)
  read_all_complete m idle size room short bound =
      let (chunks, m', run, joined, transfer, closed) =
        read_all_from (suc (length bytes)) m (length bytes) size (ground arith) (omega arith)
          (omega arith) room short bound in
      (
        chunks,
        m',
        run,
        joined ∙ ap (λ (k : ℕ). drop k bytes) (sub_self (length bytes)),
        transfer,
        closed,
      )
    where
      sub_self : (k : ℕ) → k - k ≡ 0
      sub_self k = omega arith
