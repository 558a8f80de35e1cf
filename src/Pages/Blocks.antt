-- ===== src/Pages/Blocks.antt =====
-- The pages that the free lists of kernel/mm/page.c cover.
use native.Mathlib.Nat.{zero-add, suc-add}
use avengers.Prelude.{
  ℕ, zero, suc, ◌+◌, ◌≤◌, ◌<◌, ◌≡◌, refl, ap, false, Bool-cases, eq_of_==, ◌&&◌, List, [], ◌∷◌,
  ◌==◌, ltb, leb, if◌then◌else◌, count, erase, inl, inr, arith,
}
use avengers.Pages.{Group, pages, set_list, insert_block}

-- Does a block of so many pages hold a page?
abbrev pub holds : ℕ → ℕ → ℕ → ℕ
holds p w a = if leb a p && ltb p (a + w) then 1 else 0

-- How many blocks of a list hold a page
abbrev pub covered_by : ℕ → ℕ → List ℕ → ℕ
covered_by p w [] = 0
covered_by p w (a ∷ as') = holds p w a + covered_by p w as'

-- How many free blocks of the orders below a number hold a page
abbrev pub covered_below : ℕ → Group → ℕ → ℕ
covered_below zero g p = 0
covered_below (suc n) g p = covered_by p (pages n) (g.freelist n) + covered_below n g p

-- How many free blocks hold a page
unfoldable pub covered : Group → ℕ → ℕ
covered g p = covered_below 8 g p

pub pages_pos : (o : ℕ) → 0 < pages o
pages_pos zero = omega arith
pages_pos (suc o) = omega (arith, pages_pos o)

pub pages-add : (k o : ℕ) → pages o ≤ pages (k + o)
pages-add zero o = omega (arith, ap pages (zero-add o))
pages-add (suc k) o = omega (arith, pages-add k o, ap pages (suc-add k o))

pub covered_by-erase :
    (p w a : ℕ) (xs : List ℕ)
    → 0 < count a xs
    → covered_by p w (erase a xs) + holds p w a ≡ covered_by p w xs
covered_by-erase p w a [] h = absurd (omega arith)
covered_by-erase p w a (x ∷ xs) h = elim (Bool-cases (x == a)) [
  | inl y ↦ ground arith
  | inr n ↦
      omega (arith, covered_by-erase p w a xs (ground arith), ap (covered_by p w) (erase_ne n))
]
  where
    erase_ne : x == a ≡ false → erase a (x ∷ xs) ≡ x ∷ erase a xs
    erase_ne n = ground arith

pub covered_by-count : (p w a : ℕ) (xs : List ℕ) → 0 < count a xs → holds p w a ≤ covered_by p w xs
covered_by-count p w a xs h = omega (arith, covered_by-erase p w a xs h)

covered_below-set_list :
    (n o : ℕ) (g : Group) (xs : List ℕ) (p : ℕ)
    → covered_below n (set_list g o xs) p
        + (if ltb o n then covered_by p (pages o) (g.freelist o) else 0)
      ≡ covered_below n g p + (if ltb o n then covered_by p (pages o) xs else 0)
covered_below-set_list zero o g xs p = ground arith
covered_below-set_list (suc n) o g xs p = elim (Bool-cases (n == o)) [
  | inl y ↦
      let same : n ≡ o = eq_of_== n o y in
      ground (
        arith,
        covered_below-set_list n o g xs p,
        ap (λ k. covered_by p (pages k) xs) same,
        ap (λ k. covered_by p (pages k) (g.freelist k)) same,
      )
  | inr m ↦ ground (arith, covered_below-set_list n o g xs p)
]

-- Only the list that changes counts.
pub covered-set_list :
    (g : Group) (o : ℕ) (xs : List ℕ) (p : ℕ)
    → o < 8
    → covered (set_list g o xs) p + covered_by p (pages o) (g.freelist o)
      ≡ covered g p + covered_by p (pages o) xs
unfolding covered
covered-set_list g o xs p h = ground (arith, covered_below-set_list 8 o g xs p)

-- A list counts among all.
pub covered_by-le :
    (g : Group) (o p : ℕ) → o < 8 → covered_by p (pages o) (g.freelist o) ≤ covered g p
covered_by-le g o p h = omega (arith, covered-set_list g o [] p h)

pub covered-insert_block :
    (g : Group) (o a p : ℕ)
    → o < 8
    → covered (insert_block g o a) p ≡ covered g p + holds p (pages o) a
covered-insert_block g o a p h = omega (arith, covered-set_list g o (a ∷ g.freelist o) p h)

covered_below-empty :
    (n : ℕ) (g : Group) (p : ℕ) → ((k : ℕ) → g.freelist k ≡ []) → covered_below n g p ≡ 0
covered_below-empty zero g p v = refl
covered_below-empty (suc n) g p v =
    omega (arith, ap (covered_by p (pages n)) (v n), covered_below-empty n g p v)

pub covered-empty : (g : Group) (p : ℕ) → ((k : ℕ) → g.freelist k ≡ []) → covered g p ≡ 0
unfolding covered
covered-empty g p v = covered_below-empty 8 g p v
