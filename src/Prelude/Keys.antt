-- ===== src/Prelude/Keys.antt =====
-- Types with a Boolean equality, as Rust's `Eq`: the keys of a map.
use Prim.Native.Nat.{ℕ}
use mathlib.Core.Path.{◌≡◌, refl}
use mathlib.Core.Logic.{◌↔◌, ◌≢◌}
use mathlib.Core.Bool.{Bool, true, false, ◌&&◌}
use mathlib.Core.List.{List, [], ◌∷◌}
use native.Mathlib.Omega.{arith}
use webcam_direct_linux.Prelude.Tests.{◌==◌, ==_iff}

pub record Key {ℓ} (K : Type ℓ) : Type ℓ where
  pub same : K → K → Bool
  pub same_iff : (a b : K) → (same a b ≡ true) ↔ (a ≡ b)

infix 50 ◌=?◌
abbrev pub ◌=?◌ {ℓ} : {K : Type ℓ} ⦃k : Key K⦄ → K → K → Bool
◌=?◌ ⦃k⦄ = k.same

instance abbrev pub number_key : Key ℕ
number_key = record { same = ◌==◌; same_iff = ==_iff }

pub =?_iff {ℓ} : {K : Type ℓ} ⦃k : Key K⦄ (a b : K) → ((a =? b) ≡ true) ↔ (a ≡ b)
=?_iff ⦃k⦄ a b = k.same_iff a b

module _ {ℓ} {K : Type ℓ} ⦃k : Key K⦄ where
  abbrev pub same_list : List K → List K → Bool
  same_list [] [] = true
  same_list (x ∷ xs) (y ∷ ys) = k.same x y && same_list xs ys
  same_list _ _ = false

  pub same_list_iff : (xs ys : List K) → (same_list xs ys ≡ true) ↔ (xs ≡ ys)
  same_list_iff [] [] = ground arith
  same_list_iff [] (y ∷ ys) = ground arith
  same_list_iff (x ∷ xs) [] = ground arith
  same_list_iff (x ∷ xs) (y ∷ ys) = ground (arith, k.same_iff x y, same_list_iff xs ys)

  instance abbrev pub list_key : Key (List K)
  list_key = record { same = same_list; same_iff = same_list_iff }

  pub same_refl : (i : K) → k.same i i ≡ true
  same_refl i = (k.same_iff i i).1 refl

  pub same_ne : (i j : K) → i ≢ j → k.same i j ≡ false
  same_ne i j h = ground (arith, k.same_iff i j)
