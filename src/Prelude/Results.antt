-- ===== src/Prelude/Results.antt =====
-- How a kernel routine ends: it returns, an assertion (KASSERT or panic) stops the machine, it waits
-- for an interrupt that never comes, or it writes to memory that is not its own and goes on: from
-- there on the models say nothing.
use mathlib.Core.Path.{◌≡◌, refl, subst}
use mathlib.Core.Bool.{Bool, true, false}

pub data Outcome {ℓ} (A : Type ℓ) : Type ℓ where
  ok : A → Outcome A
  panic : Outcome A
  waits : Outcome A
  astray : Outcome A

-- What follows runs only if the routine before it has returned.
infixl 5 ◌>>=◌ ◌>>◌
abbrev pub ◌>>=◌ {ℓ κ} :
    {R : Type ℓ} {S : Type κ} (routine : Outcome R) (next : R → Outcome S) → Outcome S
panic >>= next = panic
waits >>= next = waits
astray >>= next = astray
ok r >>= next = next r

abbrev pub ◌>>◌ {κ} : {S : Type κ} (check : Outcome (Unit {0})) (next : Outcome S) → Outcome S
check >> next = check >>= λ u. next

-- KASSERT
abbrev pub kassert : Bool → Outcome (Unit {0})
kassert false = panic
kassert true = ok tt

-- a write that stays within its memory, or not
abbrev pub in_bounds : Bool → Outcome (Unit {0})
in_bounds false = astray
in_bounds true = ok tt

-- If the whole has returned, then so have both its parts.
pub bind_parts {ℓ κ} :
    {R : Type ℓ} {S : Type κ} {s : S} (routine : Outcome R) (next : R → Outcome S)
    → (routine >>= next) ≡ ok s
    → (r : R) × (routine ≡ ok r) × (next r ≡ ok s)
bind_parts panic next whole = cc
bind_parts waits next whole = cc
bind_parts astray next whole = cc
bind_parts (ok r) next whole = (r, refl, whole)

pub subst_ok {ℓ κ} : {R : Type ℓ} (P : R → Type κ) {r s : R} → P r → ok r ≡ ok s → P s
subst_ok P h e = subst P (cc) h
