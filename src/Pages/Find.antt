-- ===== src/Pages/Find.antt =====
-- The searches of kernel/mm/page.c for a free block: in the groups of an order, and in larger
-- orders.
use mathlib.Core.Path.{subst}
use avengers.Prelude.{
  ℕ, zero, suc, ◌+◌, ◌≤◌, ◌<◌, ◌≡◌, refl, sym, true, false, Bool-cases, none, some, List, [], ◌∷◌,
  ◌==◌, eq_of_==, get_elem?, ◌⊎◌, inl, inr, arith,
}
use avengers.Pages.{Group, is_empty, find_group, find_larger}

-- No group has a free block of an order.
abbrev pub NoBlock : ℕ → List Group → Type 0
NoBlock order gs =
    (i : ℕ) (g : Group) → get_elem? gs i ≡ some g → is_empty (g.freelist order) ≡ true

-- The group has a free block of an order.
abbrev pub Has : ℕ → List Group → ℕ → Type 0
Has order gs i = (g : Group) × (get_elem? gs i ≡ some g) × (is_empty (g.freelist order) ≡ false)

NoBlock-cons :
    (order : ℕ) (g : Group) (gs : List Group)
    → is_empty (g.freelist order) ≡ true
    → NoBlock order gs
    → NoBlock order (g ∷ gs)
NoBlock-cons order g gs y nb zero h e = ground (arith, y, e)
NoBlock-cons order g gs y nb (suc i) h e = nb i h e

pub find_group-cases :
    (order : ℕ) (gs : List Group)
    → ((i : ℕ) × (find_group order gs ≡ some i) × Has order gs i)
      ⊎ ((find_group order gs ≡ none) × NoBlock order gs)
find_group-cases order [] = inr (refl, λ i g e. ground arith)
find_group-cases order (g ∷ gs) = elim (Bool-cases (is_empty (g.freelist order))) [
  | inl y ↦ elim (find_group-cases order gs) [
    | inl (i, e, (h, a, n)) ↦ inl (suc i, ground (arith, y, e), (h, ground (arith, a), n))
    | inr (e, none_of) ↦ inr (ground (arith, y, e), NoBlock-cons order g gs y none_of)
  ]
  | inr n ↦ inl (0, ground arith, (g, refl, n))
]

pub find_larger-cases :
    (n k order : ℕ) (gs : List Group)
    → ((j i : ℕ) × (find_larger n k order gs ≡ some (j, i)) × (j < n + k) × Has (j + order) gs i)
      ⊎ ((find_larger n k order gs ≡ none) × ((j : ℕ) → k ≤ j → j < n + k → NoBlock (j + order) gs))
find_larger-cases zero k order gs = inr (refl, λ j l r. absurd (omega arith))
find_larger-cases (suc n) k order gs = elim (find_group-cases (k + order) gs) [
  | inl (i, e, has) ↦ inl (k, i, ground (arith, e), omega arith, has)
  | inr (e, none_of) ↦ elim (find_larger-cases n (suc k) order gs) [
    | inl (j, i, f, l, has) ↦ inl (j, i, ground (arith, e, f), omega (arith, l), has)
    | inr (f, nos) ↦ inr (
      ground (arith, e, f),
      λ j l r. elim (Bool-cases (j == k)) [
        | inl y ↦ subst (λ m. NoBlock (m + order) gs) (sym (eq_of_== j k y)) none_of
        | inr m ↦ nos j (ground (arith, l)) (omega (arith, r))
      ],
    )
  ]
]
