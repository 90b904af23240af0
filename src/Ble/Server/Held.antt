-- ===== src/Ble/Server/Held.antt =====
-- The server's invariant, and what the calls of the buffer map do to it: what a transfer has left is
-- never more than the cached data it is taken from.
use webcam_direct_linux.Prelude.{
  ℕ, ◌-◌, ◌≤◌, ◌≡◌, ◌≢◌, refl, subst, arith, Bytes, length, Option, none, some, ok, Bool-cases, inl,
  inr, ◌⊎◌, list_key, number_key, ◌=?◌, =?_iff,
}
use webcam_direct_linux.HashMap.{remove, get-remove}
use webcam_direct_linux.Ble.Api.{
  Address, QueryApi, host_info, sdp_answer, mobile_disconnected, QueryReq, query_key,
}
use webcam_direct_linux.Ble.CommTypes.{DataChunk, Codec}
use webcam_direct_linux.Ble.Buffer.{
  MobileBufferMap, cut_chunk, get_next_data_chunk, reader_at, remove_mobile,
}
use webcam_direct_linux.Ble.Buffer.Reader.{remaining}
use webcam_direct_linux.Ble.Buffer.ReadAll.{reader_at-after}
use webcam_direct_linux.Ble.Buffer.Isolation.{
  next_state, get_next_data_chunk_frame, remove_mobile_frame,
}
use webcam_direct_linux.Ble.Server.{BleServerCommHandler, ServerDataCache}
use webcam_direct_linux.Ble.Server.Cache.{cached}

-- What is left of a transfer, if any, against the data in the cache, if any.
abbrev pub Held : Option ℕ → Option Bytes → Type 0
Held none d = Unit {0}
Held (some r) none = ⊥
Held (some r) (some d) = r ≤ length d

pub record IsInStep {Tx : Type 0} (h : BleServerCommHandler Tx) : Type 0 where
  pub at :
      (addr : Address) (qt : QueryApi)
      → Held (reader_at h.buffer_map addr qt) (cached h.server_data_cache addr qt)

-- A chunk leaves no more than there was.
pub cut_chunk-le :
    (len n : ℕ) (bytes : Bytes) (chunk : DataChunk)
    → cut_chunk len n bytes ≡ ok chunk
    → n ≤ length bytes
    → chunk.r ≤ length bytes
unfolding cut_chunk
cut_chunk-le len n bytes chunk e h = ground arith

pub Held-remaining :
    (m : MobileBufferMap) (addr : Address) (qt : QueryApi) (d : Bytes)
    → Held (reader_at m addr qt) (some d)
    → remaining m addr qt d ≤ length d
Held-remaining m addr qt d h = ground arith

-- The channel that a call serves stays in step with the data of the call.
pub next-Held :
    (codec : Codec DataChunk) (addr : Address) (q : QueryReq) (d : Bytes) (m : MobileBufferMap)
    → Held (reader_at m addr q.query_type) (some d)
    → Held (reader_at (get_next_data_chunk codec addr q d m).1 addr q.query_type) (some d)
next-Held codec addr q d m h = elim (next_state codec addr q d m) [
  | inl e ↦ rw e h
  | inr (chunk, cut, e) ↦
      let len = q.resp_buffer_len - m.chunk_len in
      rw e (
        ground (
          arith,
          reader_at-after m addr q.query_type len chunk.r,
          cut_chunk-le len (remaining m addr q.query_type d) d chunk (unfold reader_at in cut),
          Held-remaining m addr q.query_type d h,
        ))
]

-- More in the cache does no harm.
pub Held-mono :
    (r : Option ℕ) (c c' : Option Bytes)
    → ((d : Bytes) → c ≡ some d → c' ≡ some d)
    → Held r c
    → Held r c'
Held-mono none c c' h k = tt
Held-mono (some r) none c' h k = absurd k
Held-mono (some r) (some d) c' h k = rw (h d refl) k

-- A mobile that is gone has neither a transfer nor an answer.
pub gone-Held :
    (addr : Address) (m : MobileBufferMap) (c : ServerDataCache)
    → ((other : Address) (qt : QueryApi) → Held (reader_at m other qt) (cached c other qt))
    → (other : Address) (qt : QueryApi)
    → Held
        (reader_at (remove_mobile addr m) other qt)
        (cached (record c { sdp_answer = remove c.sdp_answer addr }) other qt)
gone-Held addr m c v other host_info =
    ground
      (arith, (remove_mobile_frame addr m other host_info mobile_disconnected).0, v other host_info)
gone-Held addr m c v other sdp_answer = ground (
  arith,
  (remove_mobile_frame addr m other sdp_answer mobile_disconnected).0,
  get-remove c.sdp_answer addr other,
  v other sdp_answer,
)

pub IsInStep-same :
    {Tx : Type 0} (h g : BleServerCommHandler Tx)
    → g.buffer_map ≡ h.buffer_map
    → g.server_data_cache ≡ h.server_data_cache
    → IsInStep h
    → IsInStep g
IsInStep-same h g e f v = record { at = λ addr qt. rw (e, f) (v.at addr qt) }

pub same_place : (a b : Address) (p q : QueryApi) → ((a ≡ b) × (p ≡ q)) ⊎ ((a ≢ b) ⊎ (p ≢ q))
same_place a b p q = elim (Bool-cases (a =? b)) [
  | inl same ↦ elim (Bool-cases (p =? q)) [
    | inl agree ↦ inl ((=?_iff a b).0 same, (=?_iff p q).0 agree)
    | inr differ ↦ inr (inr (λ e. cc (differ, (=?_iff p q).1 e)))
  ]
  | inr differ ↦ inr (inl (λ e. cc (differ, (=?_iff a b).1 e)))
]

pub next-IsInStep :
    {Tx : Type 0} (codec : Codec DataChunk) (addr : Address) (q : QueryReq) (d : Bytes)
    (h : BleServerCommHandler Tx)
    → IsInStep h
    → cached h.server_data_cache addr q.query_type ≡ some d
    → IsInStep (record h { buffer_map = (get_next_data_chunk codec addr q d h.buffer_map).1 })
next-IsInStep codec addr q d h v e =
    let m' = (get_next_data_chunk codec addr q d h.buffer_map).1 in
    record {
      at = λ other qt. elim (same_place addr other q.query_type qt) [
        | inl (a, b) ↦
            subst (λ x. Held (reader_at m' x qt) (cached h.server_data_cache x qt)) a
              (subst (λ y. Held (reader_at m' addr y) (cached h.server_data_cache addr y)) b
                (rw e (
                  next-Held codec addr q d h.buffer_map (
                    subst (λ c. Held (reader_at h.buffer_map addr q.query_type) c) e
                      (v.at addr q.query_type)))))
        | inr differs ↦
            rw
              (get_next_data_chunk_frame codec addr q d h.buffer_map other qt addr
                mobile_disconnected differs).0
              (v.at other qt)
      ];
    }
