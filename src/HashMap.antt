-- ===== src/HashMap.antt =====
-- Rust's `std::collections::HashMap`, by its contents: an association list with one entry to a
-- key. Clients use the laws; the order of the entries is a choice of the model.
use webcam_direct_linux.Prelude.{
  ◌≡◌, refl, Option, none, some, List, [], ◌∷◌, arith, Key, if◌then◌else◌, ◌≢◌, same_refl, same_ne,
}

abbrev pub HashMap {ℓ κ} : Type ℓ → Type κ → Type (ℓ ⊔ κ)
HashMap K V = List (K × V)

module _ {ℓ κ} {K : Type ℓ} {V : Type κ} ⦃k : Key K⦄ where
  unfoldable pub get : HashMap K V → K → Option V
  get [] i = none
  get ((j, v) ∷ m) i = if k.same j i then some v else get m i

  unfoldable pub remove : HashMap K V → K → HashMap K V
  remove [] i = []
  remove ((j, v) ∷ m) i = let rest = remove m i in if k.same j i then rest else (j, v) ∷ rest

  unfoldable pub insert : HashMap K V → K → V → HashMap K V
  unfolding remove
  insert m i v = (i, v) ∷ remove m i

  pub get-empty : (i : K) → get [] i ≡ none
  unfolding get
  get-empty i = refl

  pub get-remove :
      (m : HashMap K V) (i j : K) → get (remove m i) j ≡ (if k.same i j then none else get m j)
  unfolding get remove
  get-remove [] i j = ground arith
  get-remove ((l, v) ∷ m) i j =
      ground (arith, get-remove m i j, k.same_iff l i, k.same_iff l j, k.same_iff i j)

  pub get-insert :
      (m : HashMap K V) (i j : K) (v : V)
      → get (insert m i v) j ≡ (if k.same i j then some v else get m j)
  unfolding get insert
  get-insert m i j v = ground (arith, get-remove m i j)

  pub get-insert_self : (m : HashMap K V) (i : K) (v : V) → get (insert m i v) i ≡ some v
  get-insert_self m i v = ground (arith, get-insert m i i v, same_refl i)

  pub get-remove_self : (m : HashMap K V) (i : K) → get (remove m i) i ≡ none
  get-remove_self m i = ground (arith, get-remove m i i, same_refl i)

  pub get-insert_ne : (m : HashMap K V) (i j : K) (v : V) → i ≢ j → get (insert m i v) j ≡ get m j
  get-insert_ne m i j v h = ground (arith, get-insert m i j v, same_ne i j h)

  pub get-remove_ne : (m : HashMap K V) (i j : K) → i ≢ j → get (remove m i) j ≡ get m j
  get-remove_ne m i j h = ground (arith, get-remove m i j, same_ne i j h)

pub ruleset map_laws = (get-insert_self, get-remove_self, get-empty)
