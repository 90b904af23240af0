-- ===== src/Examples/Encoding.antt =====
-- A concrete encoding of the records that the store keeps, and a concrete disk.
use webcam_direct_linux.Prelude.{
  ℕ, zero, suc, ◌≡◌, refl, arith, Bytes, Text, List, [], ◌∷◌, ◌++◌, length, take, drop, Option,
  none, some, ok, anyhow, Result, ◌&&◌, ◌=?◌, list_key, number_key, if◌then◌else◌,
}
use webcam_direct_linux.AppData.Schemas.{
  MobileSchema, HostSchema, ConnectionType, wlan, ap, Schema, mobile_schema, host_schema, Item,
}
use webcam_direct_linux.AppData.KvDb.{Sled}
use webcam_direct_linux.AppData.KvDb.Laws.{IsTreeMap}
use webcam_direct_linux.Ble.CommTypes.{Codec, ReadsBack, AlwaysWrites}

-- A text behind its length.
abbrev put : Text → Bytes → Bytes
put t rest = length t ∷ t ++ rest

take-put : (t rest : Bytes) → take (length t) (t ++ rest) ≡ t
take-put [] rest = refl
take-put (c ∷ t) rest = rw (take-put t rest)

drop-put : (t rest : Bytes) → drop (length t) (t ++ rest) ≡ rest
drop-put [] rest = refl
drop-put (c ∷ t) rest = drop-put t rest

abbrev put_texts : List Text → Bytes
put_texts [] = []
put_texts (t ∷ ts) = put t (put_texts ts)

abbrev take_texts : ℕ → Bytes → List Text
take_texts zero b = []
take_texts (suc n) [] = []
take_texts (suc n) (k ∷ b) = take k b ∷ take_texts n (drop k b)

abbrev count : List Text → ℕ
count [] = 0
count (t ∷ ts) = suc (count ts)

take_texts-put : (ts : List Text) → take_texts (count ts) (put_texts ts) ≡ ts
take_texts-put [] = refl
take_texts-put (t ∷ ts) =
    rw (take-put t (put_texts ts), drop-put t (put_texts ts), take_texts-put ts)

abbrev tag : ConnectionType → ℕ
tag wlan = 0
tag ap = 1

abbrev untag : ℕ → ConnectionType
untag zero = wlan
untag (suc n) = ap

abbrev write_mobile : MobileSchema → Result Bytes
write_mobile m = ok (put m.id m.name)

abbrev read_mobile : Bytes → Result MobileSchema
read_mobile [] = anyhow "no record"
read_mobile (n ∷ b) = ok (record { id = take n b; name = drop n b })

abbrev write_host : HostSchema → Result Bytes
write_host h = ok (
    tag h.connection_type
    ∷ put h.id (put h.name (count h.registered_mobiles ∷ put_texts h.registered_mobiles)))

abbrev read_mobiles : ConnectionType → Text → Text → Bytes → Result HostSchema
read_mobiles c id name [] = anyhow "no record"
read_mobiles c id name (n ∷ b) =
    ok (record { id = id; name = name; connection_type = c; registered_mobiles = take_texts n b })

abbrev read_name : ConnectionType → Text → Bytes → Result HostSchema
read_name c id [] = anyhow "no record"
read_name c id (n ∷ b) = read_mobiles c id (take n b) (drop n b)

abbrev read_host : Bytes → Result HostSchema
read_host [] = anyhow "no record"
read_host (t ∷ []) = anyhow "no record"
read_host (t ∷ n ∷ b) = read_name (untag t) (take n b) (drop n b)

abbrev pub bincode : (t : Schema) → Codec (Item t)
bincode mobile_schema = record { ser = write_mobile; des = read_mobile }
bincode host_schema = record { ser = write_host; des = read_host }

untag-tag : (c : ConnectionType) → untag (tag c) ≡ c
untag-tag wlan = refl
untag-tag ap = refl

abbrev tail_of : HostSchema → Bytes
tail_of h = count h.registered_mobiles ∷ put_texts h.registered_mobiles

read_host-write :
    (h : HostSchema) → read_host (tag h.connection_type ∷ put h.id (put h.name (tail_of h))) ≡ ok h
read_host-write h =
    rw
      (
        take-put h.id (put h.name (tail_of h)),
        drop-put h.id (put h.name (tail_of h)),
        take-put h.name (tail_of h),
        drop-put h.name (tail_of h),
        untag-tag h.connection_type,
        take_texts-put h.registered_mobiles,
      )
      refl

pub bincode-ReadsBack : (t : Schema) → ReadsBack (bincode t)
bincode-ReadsBack mobile_schema m b e = ground (arith, take-put m.id m.name, drop-put m.id m.name)
bincode-ReadsBack host_schema h b e = ground (arith, read_host-write h)

pub bincode-AlwaysWrites : (t : Schema) → AlwaysWrites (bincode t)
bincode-AlwaysWrites mobile_schema m = (_, refl)
bincode-AlwaysWrites host_schema h = (_, refl)

abbrev pub Disk : Type 0
Disk = Text → Text → Option Bytes

-- A tree is its name.
abbrev pub disk : Sled Disk Text
disk = record {
  open_tree = λ name w. (ok name, w);
  get = λ tree key w. (ok (w tree key), w);
  insert = λ tree key b w. (ok tt, λ n k. if (tree =? n) && (key =? k) then some b else w n k);
  remove =
      λ tree key w. (ok (w tree key), λ n k. if (tree =? n) && (key =? k) then none else w n k);
}

pub disk-IsTreeMap : IsTreeMap disk (λ n. n) (λ w. w)
disk-IsTreeMap = record {
  opens = λ name w. (w, refl, refl);
  gets = λ name key w. refl;
  inserts = λ name key b w. (_, refl, λ n k. refl);
  removes = λ name key w. (_, refl, λ n k. refl);
}
