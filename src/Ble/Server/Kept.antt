-- ===== src/Ble/Server/Kept.antt =====
-- What the buffers and the cache keep of a mobile when they serve another.
use webcam_direct_linux.Prelude.{
  ◌≡◌, ◌≢◌, refl, ◌∙◌, arith, Bytes, some, inl, inr, list_key, number_key, same_ne,
}
use webcam_direct_linux.HashMap.{get-remove_ne, remove}
use webcam_direct_linux.Ble.Api.{
  Address, QueryApi, host_info, sdp_answer, CmdApi, mobile_disconnected, QueryReq, CommandReq,
}
use webcam_direct_linux.Ble.Buffer.{
  MobileBufferMap, get_next_data_chunk, get_complete_buffer, reader_at, writer_at, remove_mobile,
}
use webcam_direct_linux.Ble.Buffer.Isolation.{
  next_state, complete_state, get_next_data_chunk_frame, get_complete_buffer_frame,
  remove_mobile_frame,
}
use webcam_direct_linux.Ble.Buffer.Cursors.{chunk_len-set}
use webcam_direct_linux.Ble.CommTypes.{DataChunk, Codec}
use webcam_direct_linux.Ble.Server.{BleServerCommHandler}
use webcam_direct_linux.Ble.Server.Cache.{cached}

-- `g` has of the mobile what `h` has: its transfers both ways, and its data, once there.
pub record Keeps {Tx : Type 0} (addr : Address) (h g : BleServerCommHandler Tx) : Type 0 where
  pub reader : (qt : QueryApi) → reader_at g.buffer_map addr qt ≡ reader_at h.buffer_map addr qt
  pub writer : (ct : CmdApi) → writer_at g.buffer_map addr ct ≡ writer_at h.buffer_map addr ct
  pub overhead : g.buffer_map.chunk_len ≡ h.buffer_map.chunk_len
  pub kept :
      (qt : QueryApi) (d : Bytes)
      → cached h.server_data_cache addr qt ≡ some d
      → cached g.server_data_cache addr qt ≡ some d

pub Keeps-refl : {Tx : Type 0} (addr : Address) (h : BleServerCommHandler Tx) → Keeps addr h h
Keeps-refl addr h = record {
  reader = λ qt. refl;
  writer = λ ct. refl;
  overhead = refl;
  kept = λ qt d e. e;
}

pub Keeps-trans :
    {Tx : Type 0} (addr : Address) (f g h : BleServerCommHandler Tx)
    → Keeps addr f g
    → Keeps addr g h
    → Keeps addr f h
Keeps-trans addr f g h k l = record {
  reader = λ qt. l.reader qt ∙ k.reader qt;
  writer = λ ct. l.writer ct ∙ k.writer ct;
  overhead = l.overhead ∙ k.overhead;
  kept = λ qt d e. l.kept qt d (k.kept qt d e);
}

chunk_len-next :
    (codec : Codec DataChunk) (addr : Address) (q : QueryReq) (bytes : Bytes) (m : MobileBufferMap)
    → (get_next_data_chunk codec addr q bytes m).1.chunk_len ≡ m.chunk_len
chunk_len-next codec addr q bytes m = elim (next_state codec addr q bytes m) [
  | inl e ↦ rw e refl
  | inr (chunk, _, e) ↦ rw e (chunk_len-set m addr _)
]

chunk_len_complete :
    (codec : Codec DataChunk) (addr : Address) (cmd : CommandReq) (m : MobileBufferMap)
    → (get_complete_buffer codec addr cmd m).1.chunk_len ≡ m.chunk_len
chunk_len_complete codec addr cmd m = elim (complete_state codec addr cmd m) [
  | inl e ↦ rw e refl
  | inr (chunk, e) ↦ rw e (chunk_len-set m addr _)
]

pub next-Keeps :
    {Tx : Type 0} (codec : Codec DataChunk) (addr other : Address) (q : QueryReq) (d : Bytes)
    (h : BleServerCommHandler Tx)
    → addr ≢ other
    → Keeps other h (record h { buffer_map = (get_next_data_chunk codec addr q d h.buffer_map).1 })
next-Keeps codec addr other q d h ne = record {
  reader = λ qt.
      (get_next_data_chunk_frame codec addr q d h.buffer_map other qt other mobile_disconnected
        (inl ne)).0;
  writer = λ ct.
      (get_next_data_chunk_frame codec addr q d h.buffer_map other host_info other ct (inl ne)).1;
  overhead = chunk_len-next codec addr q d h.buffer_map;
  kept = λ qt b e. e;
}

pub complete-Keeps :
    {Tx : Type 0} (codec : Codec DataChunk) (addr other : Address) (cmd : CommandReq)
    (h : BleServerCommHandler Tx)
    → addr ≢ other
    → Keeps other h (record h { buffer_map = (get_complete_buffer codec addr cmd h.buffer_map).1 })
complete-Keeps codec addr other cmd h ne = record {
  reader = λ qt.
      (get_complete_buffer_frame codec addr cmd h.buffer_map other mobile_disconnected other qt
        (inl ne)).1;
  writer = λ ct.
      (get_complete_buffer_frame codec addr cmd h.buffer_map other ct other host_info (inl ne)).0;
  overhead = chunk_len_complete codec addr cmd h.buffer_map;
  kept = λ qt b e. e;
}

gone-cached :
    {Tx : Type 0} (addr other : Address) (h : BleServerCommHandler Tx) (qt : QueryApi)
    → addr ≢ other
    → cached
        (record h.server_data_cache { sdp_answer = remove h.server_data_cache.sdp_answer addr })
        other
        qt
      ≡ cached h.server_data_cache other qt
gone-cached addr other h host_info ne = refl
gone-cached addr other h sdp_answer ne =
    rw (get-remove_ne h.server_data_cache.sdp_answer addr other ne) refl

pub gone-Keeps :
    {Tx : Type 0} (addr other : Address) (h : BleServerCommHandler Tx)
    → addr ≢ other
    → Keeps other h (record h {
      buffer_map = remove_mobile addr h.buffer_map;
      server_data_cache = record h.server_data_cache {
        sdp_answer = remove h.server_data_cache.sdp_answer addr;
      };
    })
gone-Keeps addr other h ne = record {
  reader = λ qt. ground (
    arith,
    (remove_mobile_frame addr h.buffer_map other qt mobile_disconnected).0,
    same_ne addr other ne,
  );
  writer = λ ct.
      ground (
        arith,
        (remove_mobile_frame addr h.buffer_map other host_info ct).1,
        same_ne addr other ne,
      );
  overhead = (unfold remove_mobile in refl);
  kept = λ qt b e. gone-cached addr other h qt ne ∙ e;
}

pub Keeps-same :
    {Tx : Type 0} (addr : Address) (h g : BleServerCommHandler Tx)
    → g.buffer_map ≡ h.buffer_map
    → g.server_data_cache ≡ h.server_data_cache
    → Keeps addr h g
Keeps-same addr h g e f = record {
  reader = λ qt. rw e refl;
  writer = λ ct. rw e refl;
  overhead = rw e refl;
  kept = λ qt d c. rw f c;
}
