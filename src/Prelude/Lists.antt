-- ===== src/Prelude/Lists.antt =====
-- Lists measured by native numbers: length, the last element, counting and removing a number.
use Prim.Native.Nat.{ℕ, zero, suc, ◌+◌, ◌<◌}
use mathlib.Core.Path.{◌≡◌, refl, ap}
use mathlib.Core.List.{List, [], ◌∷◌, ◌++◌}
use mathlib.Core.Option.{Option, none, some}
use native.Mathlib.Omega.{arith}
use avengers.Prelude.Tests.{◌==◌, if◌then◌else◌}

module _ {ℓ} {A : Type ℓ} where
  abbrev pub length : List A → ℕ
  length [] = 0
  length (x ∷ xs) = suc (length xs)

  abbrev pub get_elem? : List A → ℕ → Option A
  get_elem? [] i = none
  get_elem? (x ∷ xs) zero = some x
  get_elem? (x ∷ xs) (suc i) = get_elem? xs i

  -- A write out of bounds changes nothing.
  abbrev pub set : List A → ℕ → A → List A
  set [] i v = []
  set (x ∷ xs) zero v = v ∷ xs
  set (x ∷ xs) (suc i) v = x ∷ set xs i v

  abbrev pub get_last : A → List A → A
  get_last x [] = x
  get_last x (y ∷ ys) = get_last y ys

  abbrev pub drop_last : A → List A → List A
  drop_last x [] = []
  drop_last x (y ∷ ys) = x ∷ drop_last y ys

  abbrev pub All {κ} : (A → Type κ) → List A → Type κ
  All P [] = Unit
  All P (x ∷ xs) = P x × All P xs

  pub length-append : (xs ys : List A) → length (xs ++ ys) ≡ length xs + length ys
  length-append [] ys = omega arith
  length-append (x ∷ xs) ys = omega (arith, length-append xs ys)

  pub length-drop_last : (x : A) (xs : List A) → length (drop_last x xs) ≡ length xs
  length-drop_last x [] = refl
  length-drop_last x (y ∷ ys) = ap suc (length-drop_last y ys)

  pub drop_last-append :
      (x : A) (xs ys : List A) → drop_last x xs ++ (get_last x xs ∷ ys) ≡ (x ∷ xs) ++ ys
  drop_last-append x [] ys = refl
  drop_last-append x (y ∷ zs) ys = ap (λ l. x ∷ l) (drop_last-append y zs ys)

-- How often a number occurs in a list.
abbrev pub count : ℕ → List ℕ → ℕ
count t [] = 0
count t (x ∷ xs) = (if x == t then 1 else 0) + count t xs

-- The list without the first occurrence of a number.
abbrev pub erase : ℕ → List ℕ → List ℕ
erase t [] = []
erase t (x ∷ xs) = let rest = x ∷ erase t xs in if x == t then xs else rest

pub count-append : (t : ℕ) (xs ys : List ℕ) → count t (xs ++ ys) ≡ count t xs + count t ys
count-append t [] ys = omega arith
count-append t (x ∷ xs) ys = omega (arith, count-append t xs ys)

pub count-drop_last :
    (t x : ℕ) (xs : List ℕ)
    → count t (drop_last x xs) + (if get_last x xs == t then 1 else 0) ≡ count t (x ∷ xs)
count-drop_last t x [] = omega arith
count-drop_last t x (y ∷ ys) = omega (arith, count-drop_last t y ys)

pub count-erase :
    (t u : ℕ) (xs : List ℕ)
    → 0 < count u xs
    → count t (erase u xs) + (if u == t then 1 else 0) ≡ count t xs
count-erase t u [] h = absurd (omega arith)
count-erase t u (x ∷ xs) h = ground (arith, count-erase t u xs)

pub length-erase : (u : ℕ) (xs : List ℕ) → 0 < count u xs → length (erase u xs) + 1 ≡ length xs
length-erase u [] h = absurd (omega arith)
length-erase u (x ∷ xs) h = ground (arith, length-erase u xs)

module _ {ℓ} {A : Type ℓ} where
  abbrev pub take : ℕ → List A → List A
  take n [] = []
  take zero (x ∷ xs) = []
  take (suc n) (x ∷ xs) = x ∷ take n xs

  abbrev pub replicate : ℕ → A → List A
  replicate zero x = []
  replicate (suc n) x = x ∷ replicate n x

  pub length-set : (i : ℕ) (xs : List A) (x : A) → length (set xs i x) ≡ length xs
  length-set i [] x = refl
  length-set zero (y ∷ xs) x = refl
  length-set (suc i) (y ∷ xs) x = omega (arith, length-set i xs x)

  pub lt_length : (i : ℕ) (xs : List A) (x : A) → get_elem? xs i ≡ some x → i < length xs
  lt_length i [] x e = cc
  lt_length zero (y ∷ xs) x e = omega arith
  lt_length (suc i) (y ∷ xs) x e = omega (arith, lt_length i xs x e)

  pub get_elem?-set :
      (i j : ℕ) (xs : List A) (x : A)
      → i < length xs
      → get_elem? (set xs i x) j ≡ (if i == j then some x else get_elem? xs j)
  get_elem?-set i j [] x h = absurd (omega arith)
  get_elem?-set zero zero (y ∷ xs) x h = refl
  get_elem?-set zero (suc j) (y ∷ xs) x h = ground arith
  get_elem?-set (suc i) zero (y ∷ xs) x h = ground arith
  get_elem?-set (suc i) (suc j) (y ∷ xs) x h = ground (arith, get_elem?-set i j xs x)

  pub set-set : (i : ℕ) (xs : List A) (x y : A) → set (set xs i x) i y ≡ set xs i y
  set-set i [] x y = refl
  set-set zero (z ∷ zs) x y = refl
  set-set (suc i) (z ∷ zs) x y = ap (λ l. z ∷ l) (set-set i zs x y)

  pub get_elem?-set_same :
      (i : ℕ) (xs : List A) (x y : A) → get_elem? xs i ≡ some y → get_elem? (set xs i x) i ≡ some x
  get_elem?-set_same i [] x y e = cc
  get_elem?-set_same zero (z ∷ zs) x y e = refl
  get_elem?-set_same (suc i) (z ∷ zs) x y e = get_elem?-set_same i zs x y e
