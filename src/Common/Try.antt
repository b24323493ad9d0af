-- ===== src/Common/Try.antt =====
-- The `?` operator on `Option`, as the bind of `do` blocks.
use open_audio.Common.{Option, none, some, Bool, true, false}

infixl 5 ◌>>=◌
abbrev pub ◌>>=◌ {ℓ κ} : {A : Type ℓ} {B : Type κ} → Option A → (A → Option B) → Option B
none >>= f = none
some a >>= f = f a

infixl 5 ◌>>◌
abbrev pub ◌>>◌ {κ} : {B : Type κ} → Option (Unit {0}) → Option B → Option B
m >> k = m >>= λ _. k

-- `if test { return None; }`
abbrev pub none_if : Bool → Option (Unit {0})
none_if true = none
none_if false = some tt
