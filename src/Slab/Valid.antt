-- ===== src/Slab/Valid.antt =====
-- What the slabs of an allocator of kernel/mm/slab.c always satisfy.
use mathlib.Core.Path.{subst}
use avengers.Prelude.{
  ℕ, ◌+◌, ◌≤◌, ◌<◌, ◌≡◌, ap, true, false, Option, none, some, List, [], ◌∷◌, ◌==◌, if◌then◌else◌,
  count, length, arith,
}
use avengers.Slab.{Cache, at}

-- The chain of words from a first object
abbrev pub Chain : (ℕ → Option ℕ) → Option ℕ → List ℕ → Type 0
Chain word h [] = h ≡ none
Chain word h (x ∷ xs) = (h ≡ some x) × Chain word (word x) xs

-- Which objects of each slab are free, in the order of its chain, and which are handed out: the
-- slab counts them, none is in two places, and marks, words and red zones fit.
pub record IsCache (c : Cache) (frees used : ℕ → List ℕ) : Type 0 where
  pub chain : (s : ℕ) → 0 < count s c.slabs → Chain c.word (c.slab s).free (frees s)
  pub full : (s : ℕ) → 0 < count s c.slabs → length (frees s) + length (used s) ≡ c.nobjs
  pub in_use : (s : ℕ) → 0 < count s c.slabs → (c.slab s).inuse ≡ length (used s)
  pub once : (s x : ℕ) → 0 < count s c.slabs → count x (frees s) + count x (used s) ≤ 1
  pub apart :
      (s t x : ℕ)
      → 0 < count s c.slabs
      → 0 < count t c.slabs
      → 0 < count x (frees s) + count x (used s)
      → 0 < count x (frees t) + count x (used t)
      → s ≡ t
  pub marked : (s x : ℕ) → 0 < count s c.slabs → 0 < count x (frees s) → c.is_free x ≡ true
  pub unmarked : (s x : ℕ) → 0 < count s c.slabs → 0 < count x (used s) → c.is_free x ≡ false
  pub owned : (s x : ℕ) → 0 < count s c.slabs → 0 < count x (used s) → c.word x ≡ some s
  pub zones :
      (s x : ℕ) → 0 < count s c.slabs → 0 < count x (frees s) + count x (used s) → c.intact x ≡ true

pub at-yes {ℓ} : {A : Type ℓ} (a k : ℕ) (v : A) (f : ℕ → A) → k == a ≡ true → at a v f k ≡ v
at-yes a k v f y = ap (λ b. if b then v else f k) y

pub at-no {ℓ} : {A : Type ℓ} (a k : ℕ) (v : A) (f : ℕ → A) → k == a ≡ false → at a v f k ≡ f k
at-no a k v f n = ap (λ b. if b then v else f k) n

-- The chain does not change with the word of another object.
pub at-Chain :
    (word : ℕ → Option ℕ) (a : ℕ) (w h : Option ℕ) (xs : List ℕ)
    → count a xs ≡ 0
    → Chain word h xs
    → Chain (at a w word) h xs
at-Chain word a w h [] n e = e
at-Chain word a w h (x ∷ xs) n (e, rest) = (
  e,
  subst (λ k. Chain (at a w word) k xs) (ground (arith, n))
      (at-Chain word a w (word x) xs (ground (arith, n)) rest),
)
