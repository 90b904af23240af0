-- ===== src/Ble/Buffer/Abstract/Steps.antt =====
-- src/ble/server/mobile_buffer.rs: what one chunk changes, given out or taken in, in the nested maps
-- and in the view.
use webcam_direct_linux.Prelude.{
  ℕ, ◌+◌, ◌≡◌, ◌≢◌, sym, ap, ◌∙◌, arith, Bytes, true, false, ◌&&◌, Option, none, some, [], ◌++◌,
  length, get_or, ok, ltb, ◌==◌, if◌then◌else◌, Bool-cases, inl, inr, list_key, number_key, ◌=?◌,
  =?_iff,
}
use webcam_direct_linux.HashMap.{HashMap, get}
use webcam_direct_linux.Ble.Buffer.Cursors.{chunk_len-set}
use webcam_direct_linux.Ble.Api.{
  Address, CommBuffer, CmdApi, QueryApi, QueryReq, cmd_key, query_key, max_buffer_len,
}
use webcam_direct_linux.Ble.CommTypes.{DataChunk}
use webcam_direct_linux.Ble.Buffer.{
  MobileBufferMap, get_cursors, set_cursors, close_reader, collect_chunk, reader_at, writer_at,
}
use webcam_direct_linux.Ble.Buffer.Reader.{reader-close_reader}
use webcam_direct_linux.Ble.Buffer.Writer.{collected, received, answer_lem, writer_at-received}
use webcam_direct_linux.Ble.Buffer.Isolation.{
  cursors-set, close_reader-reader_ne, close_reader-writer, collect_chunk-writer_ne,
  collect_chunk-reader, reader-set, writer-set,
}
use webcam_direct_linux.Ble.Buffer.Abstract.{View, with_left, with_gathered, gather, Refines}

bools_differ : false ≢ true
bools_differ e = absurd (ground (arith, e))

-- Readers after a chunk.
reader_after :
    (m : MobileBufferMap) (addr : Address) (len : ℕ) (qt : QueryApi) (r : ℕ) (a : Address)
    (q : QueryApi)
    → reader_at (set_cursors m addr (close_reader len qt r (get_cursors m addr))) a q ≡ (
        if (addr =? a) && (qt =? q)
        then (if r == 0 then none else if ltb max_buffer_len len then none else some r)
        else reader_at m a q)
unfolding reader_at
reader_after m addr len qt r a q =
    let c = get_cursors m addr in
    let set = cursors-set m addr a (close_reader len qt r c) in
    let here = reader-close_reader len qt r c in
    elim (Bool-cases (addr =? a)) [
      | inl same ↦ elim (Bool-cases (qt =? q)) [
        | inl same' ↦ ground (arith, same, same', set, here, =?_iff qt q)
        | inr differ ↦
            let kept =
              close_reader-reader_ne len qt q r c
                (λ e. bools_differ (sym differ ∙ (=?_iff qt q).1 e)) in
            ground (arith, same, differ, set, kept, =?_iff addr a)
      ]
      | inr differ ↦ ground (arith, differ, set)
    ]

writer_after :
    (m : MobileBufferMap) (addr : Address) (ct : CmdApi) (chunk : DataChunk) (a : Address)
    (c : CmdApi)
    → writer_at (received m addr ct chunk) a c ≡ (
        if (addr =? a) && (ct =? c)
        then writer_at (received m addr ct chunk) addr ct
        else writer_at m a c)
writer_after m addr ct chunk a c =
    let k = (collect_chunk ct chunk (get_cursors m addr)).1 in
    elim (Bool-cases (addr =? a)) [
      | inl same ↦ elim (Bool-cases (ct =? c)) [
        | inl same' ↦ ground (arith, same, same', =?_iff addr a, =?_iff ct c)
        | inr differ ↦
            let kept = writer-set m addr a k c (
              inr (
                collect_chunk-writer_ne ct c chunk (get_cursors m addr)
                  (λ e. bools_differ (sym differ ∙ (=?_iff ct c).1 e)))) in
            ground (arith, same, differ, kept)
      ]
      | inr differ ↦
          let kept =
            writer-set m addr a k c (inl (λ e. bools_differ (sym differ ∙ (=?_iff addr a).1 e))) in
          ground (arith, differ, kept)
    ]

-- The state after a chunk was given out, and after one was taken in.
pub give-Refines :
    (m : MobileBufferMap) (v : View) (addr : Address) (len : ℕ) (qt : QueryApi) (r : ℕ)
    → Refines m v
    → Refines (set_cursors m addr (close_reader len qt r (get_cursors m addr))) (
        with_left v addr qt
          (if r == 0 then none else if ltb max_buffer_len len then none else some r))
give-Refines m v addr len qt r s =
    let c = get_cursors m addr in
    record {
      same_room = chunk_len-set m addr (close_reader len qt r c) ∙ s.same_room;
      same_left = λ a q. ground (arith, reader_after m addr len qt r a q, s.same_left a q);
      same_gathered = λ a ct.
          writer-set m addr a (close_reader len qt r c) ct (
            inr (ap (λ (w : HashMap CmdApi CommBuffer). get w ct) (close_reader-writer len qt r c)))
          ∙ s.same_gathered a ct;
    }

take_in-Refines :
    (m : MobileBufferMap) (v : View) (addr : Address) (ct : CmdApi) (chunk : DataChunk)
    (b : Option CommBuffer)
    → Refines m v
    → writer_at (received m addr ct chunk) addr ct ≡ b
    → Refines (received m addr ct chunk) (with_gathered v addr ct b)
take_in-Refines m v addr ct chunk b s held =
    let k = collect_chunk ct chunk (get_cursors m addr) in
    record {
      same_room = chunk_len-set m addr k.1 ∙ s.same_room;
      same_left = λ a q.
          reader-set m addr a k.1 q (
            inr (
              ap (λ (w : HashMap QueryApi ℕ). get w q)
                (collect_chunk-reader ct chunk (get_cursors m addr))))
          ∙ s.same_left a q;
      same_gathered =
          λ a c. ground (arith, writer_after m addr ct chunk a c, held, s.same_gathered a c);
    }

pub left_lem :
    (addr : Address) (q : QueryReq) (bytes : Bytes) (m : MobileBufferMap) (v : View)
    → Refines m v
    → get_or (get (get_cursors m addr).reader q.query_type) (length bytes)
      ≡ get_or (v.left addr q.query_type) (length bytes)
unfolding reader_at
left_lem addr q bytes m v s =
    ap (λ (o : Option ℕ). get_or o (length bytes)) (s.same_left addr q.query_type)

pub took_chunk :
    (addr : Address) (ct : CmdApi) (chunk : DataChunk) (m : MobileBufferMap) (v : View)
    → Refines m v
    → (ok (collect_chunk ct chunk (get_cursors m addr)).0 ≡ (gather addr ct chunk v).0)
      × Refines (received m addr ct chunk) (gather addr ct chunk v).1
took_chunk addr ct chunk m v s =
    let held : collected m addr ct ≡ get_or (v.gathered addr ct) [] =
      ap (λ (o : Option CommBuffer). get_or o []) (s.same_gathered addr ct) in
    let answer = answer_lem m addr ct chunk in
    let after = writer_at-received m addr ct chunk in
    elim (Bool-cases
      (ltb max_buffer_len (length (get_or (v.gathered addr ct) []) + length chunk.d))) [
        | inl long ↦ rw long (
          ground (arith, answer, held, long),
          take_in-Refines m v addr ct chunk none s (ground (arith, after, held, long)),
        )
        | inr short ↦ elim (Bool-cases (chunk.r == 0)) [
          | inl last ↦
              rw (short, last)
                (
                  ground (arith, answer, held, short, last),
                  take_in-Refines m v addr ct chunk none s
                      (ground (arith, after, held, short, last)),
                )
          | inr more ↦
              rw (short, more)
                (
                  ground (arith, answer, held, short, more),
                  take_in-Refines m v addr ct chunk
                      (some (get_or (v.gathered addr ct) [] ++ chunk.d)) s
                      (ground (arith, after, held, short, more)),
                )
        ]
      ]
