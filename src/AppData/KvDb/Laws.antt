-- ===== src/AppData/KvDb/Laws.antt =====
-- The promises of a store, and the proof that the disk-based one keeps them.
use webcam_direct_linux.Prelude.{
  Text, Bytes, ◌≡◌, ◌≢◌, refl, sym, ◌∙◌, arith, ◌⊎◌, inl, inr, Option, none, some, ok, ◌&&◌, ◌=?◌,
  =?_iff, same_refl, if◌then◌else◌, list_key, number_key, true, false,
}
use webcam_direct_linux.Ble.CommTypes.{Codec, ReadsBack, AlwaysWrites}
use webcam_direct_linux.AppData.Schemas.{Schema, mobile_schema, host_schema, Item, keyspace_name}
use webcam_direct_linux.AppData.KvDb.{
  KvDbOps, Sled, add, read, update, delete, decode, disk_based_db,
}

-- What is relied on for `sled` while the disk works: trees are maps that share nothing.
pub record IsTreeMap {W Tree : Type 0} (sled : Sled W Tree) (tree : Text → Tree)
    (held : W → Text → Text → Option Bytes) : Type 0 where
  pub opens :
      (name : Text) (w : W)
      → (w' : W) × (sled.open_tree name w ≡ (ok (tree name), w')) × (held w' ≡ held w)
  pub gets : (name key : Text) (w : W) → sled.get (tree name) key w ≡ (ok (held w name key), w)
  pub inserts :
      (name key : Text) (b : Bytes) (w : W)
      → (w' : W) × (sled.insert (tree name) key b w ≡ (ok tt, w'))
        × ((n k : Text) → held w' n k ≡ (if (name =? n) && (key =? k) then some b else held w n k))
  pub removes :
      (name key : Text) (w : W)
      → (w' : W) × (sled.remove (tree name) key w ≡ (ok (held w name key), w'))
        × ((n k : Text) → held w' n k ≡ (if (name =? n) && (key =? k) then none else held w n k))

-- The promises: an item that is added or updated is read back, one that is deleted is given back and
-- no longer read, and other items stay.
pub record IsStore {S : Type 0} (db : KvDbOps S) : Type 0 where
  pub adds : (t : Schema) (k : Text) (v : Item t) (s : S) → (db.add t k v s).0 ≡ ok tt
  pub updates : (t : Schema) (k : Text) (v : Item t) (s : S) → (db.update t k v s).0 ≡ ok tt
  pub read_add :
      (t : Schema) (k : Text) (v : Item t) (s : S)
      → (db.read t k (db.add t k v s).1).0 ≡ ok (some v)
  pub read_update :
      (t : Schema) (k : Text) (v : Item t) (s : S)
      → (db.read t k (db.update t k v s).1).0 ≡ ok (some v)
  pub read_add_ne :
      (t : Schema) (k : Text) (v : Item t) (s : S) (t' : Schema) (k' : Text)
      → (t ≢ t') ⊎ (k ≢ k')
      → (db.read t' k' (db.add t k v s).1).0 ≡ (db.read t' k' s).0
  pub read_update_ne :
      (t : Schema) (k : Text) (v : Item t) (s : S) (t' : Schema) (k' : Text)
      → (t ≢ t') ⊎ (k ≢ k')
      → (db.read t' k' (db.update t k v s).1).0 ≡ (db.read t' k' s).0
  pub gives_back : (t : Schema) (k : Text) (s : S) → (db.delete t k s).0 ≡ (db.read t k s).0
  pub read_delete : (t : Schema) (k : Text) (s : S) → (db.read t k (db.delete t k s).1).0 ≡ ok none
  pub read_delete_ne :
      (t : Schema) (k : Text) (s : S) (t' : Schema) (k' : Text)
      → (t ≢ t') ⊎ (k ≢ k')
      → (db.read t' k' (db.delete t k s).1).0 ≡ (db.read t' k' s).0
  pub read_read :
      (t : Schema) (k : Text) (s : S) (t' : Schema) (k' : Text)
      → (db.read t' k' (db.read t k s).1).0 ≡ (db.read t' k' s).0

same_keyspace :
    (t t' : Schema) (k k' : Text)
    → (t ≢ t') ⊎ (k ≢ k')
    → ((keyspace_name t =? keyspace_name t') && (k =? k')) ≡ false
same_keyspace mobile_schema mobile_schema k k' (inl h) = absurd (h refl)
same_keyspace host_schema host_schema k k' (inl h) = absurd (h refl)
same_keyspace mobile_schema host_schema k k' h = refl
same_keyspace host_schema mobile_schema k k' h = refl
same_keyspace mobile_schema mobile_schema k k' (inr h) = ground (arith, =?_iff k k')
same_keyspace host_schema host_schema k k' (inr h) = ground (arith, =?_iff k k')

own_keyspace : (t : Schema) (k : Text) → ((keyspace_name t =? keyspace_name t) && (k =? k)) ≡ true
own_keyspace t k = rw (same_refl (keyspace_name t), same_refl k)

module _ {W Tree : Type 0} (sled : Sled W Tree) (bincode : (t : Schema) → Codec (Item t))
    (tree : Text → Tree) (held : W → Text → Text → Option Bytes) (trees : IsTreeMap sled tree held)
    (reads : (t : Schema) → ReadsBack (bincode t))
    (writes : (t : Schema) → AlwaysWrites (bincode t)) where
  -- Reading decodes what is held, and changes nothing that is held.
  read_lem :
      (t : Schema) (k : Text) (w : W)
      → ((read sled bincode t k w).0 ≡ decode (bincode t) (held w (keyspace_name t) k))
        × (held (read sled bincode t k w).1 ≡ held w)
  unfolding read
  read_lem t k w =
      let (w', opened, same) = trees.opens (keyspace_name t) w in
      rw (opened, trees.gets (keyspace_name t) k w', same) (refl, refl)

  -- Adding holds the encoded item, in its place.
  add_lem :
      (t : Schema) (k : Text) (v : Item t) (w : W)
      → (b : Bytes) × ((bincode t).des b ≡ ok v)
        × ((add sled bincode t k v w).0 ≡ ok tt)
        × ((n i : Text)
            → held (add sled bincode t k v w).1 n i
              ≡ (if (keyspace_name t =? n) && (k =? i) then some b else held w n i))
  unfolding add
  add_lem t k v w =
      let (w', opened, same) = trees.opens (keyspace_name t) w in
      let (b, e) = writes t v in
      let (w'', inserted, after) = trees.inserts (keyspace_name t) k b w' in
      (
        b,
        reads t v b e,
        rw (opened, e, inserted) refl,
        λ n i. rw (opened, e, inserted, ← same) (after n i),
      )

  read-add :
      (t : Schema) (k : Text) (v : Item t) (w : W)
      → (read sled bincode t k (add sled bincode t k v w).1).0 ≡ ok (some v)
  read-add t k v w =
      let (b, decoded, _, after) = add_lem t k v w in
      (read_lem t k (add sled bincode t k v w).1).0
      ∙ rw (after (keyspace_name t) k, own_keyspace t k, decoded)

  read-add_ne :
      (t : Schema) (k : Text) (v : Item t) (w : W) (t' : Schema) (k' : Text)
      → (t ≢ t') ⊎ (k ≢ k')
      → (read sled bincode t' k' (add sled bincode t k v w).1).0 ≡ (read sled bincode t' k' w).0
  read-add_ne t k v w t' k' h =
      let (b, decoded, _, after) = add_lem t k v w in
      (read_lem t' k' (add sled bincode t k v w).1).0
      ∙ rw (after (keyspace_name t') k', same_keyspace t t' k k' h) (sym (read_lem t' k' w).0)

  -- Deleting decodes what is held, and takes it from its place.
  delete_lem :
      (t : Schema) (k : Text) (w : W)
      → ((delete sled bincode t k w).0 ≡ decode (bincode t) (held w (keyspace_name t) k))
        × ((n i : Text)
            → held (delete sled bincode t k w).1 n i
              ≡ (if (keyspace_name t =? n) && (k =? i) then none else held w n i))
  unfolding delete
  delete_lem t k w =
      let (w', opened, same) = trees.opens (keyspace_name t) w in
      let (w'', removed, after) = trees.removes (keyspace_name t) k w' in
      (rw (opened, removed, same) refl, λ n i. rw (opened, removed, ← same) (after n i))

  read-delete :
      (t : Schema) (k : Text) (w : W)
      → (read sled bincode t k (delete sled bincode t k w).1).0 ≡ ok none
  read-delete t k w =
      (read_lem t k (delete sled bincode t k w).1).0
      ∙ rw ((delete_lem t k w).1 (keyspace_name t) k, own_keyspace t k)

  read-delete_ne :
      (t : Schema) (k : Text) (w : W) (t' : Schema) (k' : Text)
      → (t ≢ t') ⊎ (k ≢ k')
      → (read sled bincode t' k' (delete sled bincode t k w).1).0 ≡ (read sled bincode t' k' w).0
  read-delete_ne t k w t' k' h =
      (read_lem t' k' (delete sled bincode t k w).1).0
      ∙ rw ((delete_lem t k w).1 (keyspace_name t') k', same_keyspace t t' k k' h)
          (sym (read_lem t' k' w).0)

  update-eq-add :
      (t : Schema) (k : Text) (v : Item t) (w : W)
      → update sled bincode t k v w ≡ add sled bincode t k v w
  unfolding update add
  update-eq-add t k v w = refl

  -- The disk-based database keeps the promises of a store: an added or updated item is read back,
  -- a deleted one is given back and no longer read, other items stay, and reading changes nothing,
  -- if sled's trees are maps and the encodings write and read back.
  pub disk_based_db-IsStore : IsStore (disk_based_db sled bincode)
  disk_based_db-IsStore = record {
    adds = λ t k v w. (add_lem t k v w).2;
    updates = λ t k v w. rw (update-eq-add t k v w) (add_lem t k v w).2;
    read_add = read-add;
    read_update = λ t k v w. rw (update-eq-add t k v w) (read-add t k v w);
    read_add_ne = read-add_ne;
    read_update_ne = λ t k v w t' k' h. rw (update-eq-add t k v w) (read-add_ne t k v w t' k' h);
    gives_back = λ t k w. (delete_lem t k w).0 ∙ sym (read_lem t k w).0;
    read_delete = read-delete;
    read_delete_ne = read-delete_ne;
    read_read = λ t k w t' k'.
        (read_lem t' k' (read sled bincode t k w).1).0
        ∙ rw (read_lem t k w).1 (sym (read_lem t' k' w).0);
  }
