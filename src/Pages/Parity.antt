-- ===== src/Pages/Parity.antt =====
-- The bit maps of kernel/mm/page.c: a bit is set when one of two buddies is free, and the other
-- not.
use avengers.Prelude.{
  ℕ, suc, ◌-◌, ◌/◌, ◌≤◌, ◌<◌, ◌≡◌, refl, ap, ◌∙◌, Bool, true, false, not, Bool-cases, eq_of_==,
  List, [], ◌∷◌, ◌==◌, ltb, if◌then◌else◌, count, erase, inl, inr, arith, ok,
}
use avengers.Pages.{Group, pages, set_list, insert_block, flip, index, flip_above, top}

abbrev pub differ : Bool → Bool → Bool
differ true b = not b
differ false b = b

-- Is the number of blocks with an index odd, for an index that counts pairs of so many pages?
abbrev pub is_odd : ℕ → ℕ → ℕ → List ℕ → Bool
is_odd base w i [] = false
is_odd base w i (a ∷ as') = differ ((a - base) / w == i) (is_odd base w i as')

abbrev pub IsParity : Group → Type 0
IsParity g = (o i : ℕ) → o < top → g.map (suc o) i ≡ is_odd g.base (pages (suc o)) i (g.freelist o)

pub is_odd-erase :
    (base w i a : ℕ) (xs : List ℕ)
    → 0 < count a xs
    → is_odd base w i xs ≡ differ ((a - base) / w == i) (is_odd base w i (erase a xs))
is_odd-erase base w i a [] h = absurd (omega arith)
is_odd-erase base w i a (x ∷ xs) h = elim (Bool-cases (x == a)) [
  | inl y ↦ let same : x ≡ a = eq_of_== x a y in ground (arith, ap (λ k. (k - base) / w) same)
  | inr n ↦ ground (arith, is_odd-erase base w i a xs)
]

-- Some block has an index that an odd number has.
pub is_odd-some :
    (base w i : ℕ) (xs : List ℕ)
    → is_odd base w i xs ≡ true
    → (a : ℕ) × (0 < count a xs) × ((a - base) / w ≡ i)
is_odd-some base w i [] h = cc
is_odd-some base w i (x ∷ xs) h = elim (Bool-cases ((x - base) / w == i)) [
  | inl y ↦ (x, ground arith, eq_of_== ((x - base) / w) i y)
  | inr n ↦ let (a, c, e) = is_odd-some base w i xs (ground arith) in (a, ground arith, e)
]

-- No block has the index: the number is even.
pub is_odd-none :
    (base w i : ℕ) (xs : List ℕ)
    → ((a : ℕ) → 0 < count a xs → (a - base) / w == i ≡ false)
    → is_odd base w i xs ≡ false
is_odd-none base w i [] h = refl
is_odd-none base w i (x ∷ xs) h =
    ground (arith, h x, is_odd-none base w i xs (λ a c. h a (ground arith)))

pub index-runs :
    (g : Group) (o a : ℕ)
    → o < 8
    → g.base ≤ a
    → a < g.end_page
    → index g o a ≡ ok ((a - g.base) / pages o)
unfolding index
index-runs g o a h l r = ground arith

-- flip_above of a block in its group flips the bit of its pair.
abbrev pub flipped : Group → ℕ → ℕ → Group
flipped g o a = if ltb o top then flip g (suc o) ((a - g.base) / pages (suc o)) else g

pub flip_above-runs :
    (g : Group) (o a : ℕ) → g.base ≤ a → a < g.end_page → flip_above g o a ≡ ok (flipped g o a)
unfolding flip_above
flip_above-runs g o a l r = elim (Bool-cases (ltb o top)) [
  | inl y ↦ ground (arith, index-runs g (suc o) a)
  | inr n ↦ ground arith
]

-- The bits fit again when a list changes by one block and the bit of the block flips.
pub changed-IsParity :
    (g : Group) (o a : ℕ) (xs : List ℕ)
    → IsParity g
    → ((i : ℕ)
        → is_odd g.base (pages (suc o)) i xs
          ≡ differ
              ((a - g.base) / pages (suc o) == i)
              (is_odd g.base (pages (suc o)) i (g.freelist o)))
    → IsParity (flipped (set_list g o xs) o a)
changed-IsParity g o a xs v change k i h = elim (Bool-cases (k == o)) [
  | inl y ↦
      let same : k ≡ o = eq_of_== k o y in
      let low : o < top = omega (arith, h, same) in
      let bit : g.map (suc k) i ≡ is_odd g.base (pages (suc o)) i (g.freelist o) =
        v k i h ∙ ap (λ j. is_odd g.base (pages (suc j)) i (g.freelist j)) same in
      let goal : is_odd g.base (pages (suc k)) i xs ≡ is_odd g.base (pages (suc o)) i xs =
        ap (λ j. is_odd g.base (pages (suc j)) i xs) same in
      ground (arith, bit, goal, change i)
  | inr n ↦ ground (arith, v k i h)
]

-- A list may change without its bits, if no pair's number of free buddies becomes odd or even.
pub same-IsParity :
    (g : Group) (o : ℕ) (xs : List ℕ)
    → IsParity g
    → ((i : ℕ)
        → is_odd g.base (pages (suc o)) i xs ≡ is_odd g.base (pages (suc o)) i (g.freelist o))
    → IsParity (set_list g o xs)
same-IsParity g o xs v same k i h = elim (Bool-cases (k == o)) [
  | inl y ↦
      let here : k ≡ o = eq_of_== k o y in
      ground (
        arith,
        v k i h,
        same i,
        ap (λ j. is_odd g.base (pages (suc j)) i xs) here,
        ap (λ j. is_odd g.base (pages (suc j)) i (g.freelist j)) here,
      )
  | inr n ↦ ground (arith, v k i h)
]

pub insert_block-IsParity :
    (g : Group) (o a : ℕ) → IsParity g → IsParity (flipped (insert_block g o a) o a)
insert_block-IsParity g o a v = changed-IsParity g o a (a ∷ g.freelist o) v (λ i. refl)

pub take-IsParity :
    (g : Group) (o a : ℕ) (rest : List ℕ)
    → IsParity g
    → g.freelist o ≡ a ∷ rest
    → IsParity (flipped (set_list g o rest) o a)
take-IsParity g o a rest v e =
    changed-IsParity g o a rest v (λ i. ground (arith, ap (is_odd g.base (pages (suc o)) i) e))

-- Two blocks of one pair change no bit.
pub pair-IsParity :
    (g : Group) (o a b : ℕ)
    → IsParity g
    → (b - g.base) / pages (suc o) ≡ (a - g.base) / pages (suc o)
    → IsParity (insert_block (insert_block g o a) o b)
pair-IsParity g o a b v same k i h = elim (Bool-cases (k == o)) [
  | inl y ↦
      let here : k ≡ o = eq_of_== k o y in
      ground (
        arith,
        v k i h,
        ap (λ j. is_odd g.base (pages (suc j)) i (b ∷ a ∷ g.freelist o)) here,
        ap (λ j. is_odd g.base (pages (suc j)) i (g.freelist j)) here,
        ap (λ j. j == i) same,
      )
  | inr n ↦ ground (arith, v k i h)
]
