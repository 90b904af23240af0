-- ===== src/Prelude/Results.antt =====
-- Rust's `anyhow::Result`, with a panic as a third outcome, and arithmetic on `usize` as the
-- build with overflow checks does it (`cargo build`, which README.md names).
use Prim.Native.Nat.{ℕ, ◌+◌, ◌-◌, ◌^◌}
use Prim.Native.String.{String}
use mathlib.Core.Path.{◌≡◌, refl}
use mathlib.Core.Logic.{◌⊎◌, inl, inr}
use mathlib.Core.Option.{Option, none, some}
use webcam_direct_linux.Prelude.Tests.{ltb, if◌then◌else◌}
use webcam_direct_linux.Prelude.Lists.{Text, codes}

-- An error is known by its message.
pub data Result {ℓ} (A : Type ℓ) : Type ℓ where
  ok : A → Result A
  err : Text → Result A
  panic : Result A

abbrev pub anyhow {ℓ} : {A : Type ℓ} → String → Result A
anyhow message = err (codes message)

abbrev pub bind {ℓ κ} : {A : Type ℓ} {B : Type κ} → Result A → (A → Result B) → Result B
bind (ok a) f = f a
bind (err e) f = err e
bind panic f = panic

abbrev pub ok_or {ℓ} : {A : Type ℓ} → Option A → String → Result A
ok_or none message = anyhow message
ok_or (some a) message = ok a

abbrev pub usize_bound : ℕ
usize_bound = 2 ^ 64

abbrev pub checked_add : ℕ → ℕ → Result ℕ
checked_add a b = if ltb (a + b) usize_bound then ok (a + b) else panic

abbrev pub checked_sub : ℕ → ℕ → Result ℕ
checked_sub a b = if ltb a b then panic else ok (a - b)

pub Result-cases {ℓ} :
    {A : Type ℓ} (r : Result A)
    → ((a : A) × (r ≡ ok a)) ⊎ (((e : Text) × (r ≡ err e)) ⊎ (r ≡ panic))
Result-cases (ok a) = inl (a, refl)
Result-cases (err e) = inr (inl (e, refl))
Result-cases panic = inr (inr refl)
