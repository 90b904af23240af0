-- ===== src/Prelude/Fallible.antt =====
-- `?` on a `Result`, for `do` blocks in functions that change no state.
use webcam_direct_linux.Prelude.Results.{Result, bind}

infixl 10 ◌>>=◌ ◌>>◌
abbrev pub ◌>>=◌ {ℓ κ} : {A : Type ℓ} {B : Type κ} → Result A → (A → Result B) → Result B
r >>= f = bind r f

abbrev pub ◌>>◌ {ℓ κ} : {A : Type ℓ} {B : Type κ} → Result A → Result B → Result B
r >> s = bind r (λ _. s)
