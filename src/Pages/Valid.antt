-- ===== src/Pages/Valid.antt =====
-- What the free lists and bit maps of a group of kernel/mm/page.c always satisfy.
use mathlib.Core.Path.{subst}
use avengers.Prelude.{
  ℕ, suc, ◌+◌, ◌-◌, ◌*◌, ◌/◌, ◌≤◌, ◌<◌, ◌≡◌, ◌≢◌, refl, ap, true, false, Bool-cases, eq_of_==, List,
  [], ◌∷◌, ◌==◌, ltb, if◌then◌else◌, count, inl, inr, arith,
}
use avengers.Pages.{Group, pages, top, set_list, insert_block, flip}
use avengers.Pages.Align.{IsMultiple}
use avengers.Pages.Blocks.{
  covered_by, covered, pages_pos, covered_by-count, covered-set_list, covered_by-le,
}
use avengers.Pages.Parity.{IsParity, flipped}

-- Each block starts a multiple of its size after the group.
abbrev pub IsAligned : Group → Type 0
IsAligned g = (o a : ℕ) → o < 8 → 0 < count a (g.freelist o) → IsMultiple (pages o) (a - g.base)

abbrev pub AreAligned : Group → ℕ → List ℕ → Type 0
AreAligned g o xs = (a : ℕ) → 0 < count a xs → IsMultiple (pages o) (a - g.base)

-- A valid group: its free blocks are aligned, disjoint, and in the group, and the bit maps tell of
-- each pair of buddies whether one is free and the other not.
pub record IsBuddy (g : Group) : Type 0 where
  pub aligned : IsAligned g
  pub parity : IsParity g
  pub once : (p : ℕ) → covered g p ≤ 1
  pub inside : (p : ℕ) → 0 < covered g p → (g.base ≤ p) × (p < g.end_page)

pub set_list-IsAligned :
    (g : Group) (o : ℕ) (xs : List ℕ)
    → IsAligned g
    → AreAligned g o xs
    → IsAligned (set_list g o xs)
set_list-IsAligned g o xs v new k a h c = elim (Bool-cases (k == o)) [
  | inl y ↦
      let same : k ≡ o = eq_of_== k o y in
      let m : IsMultiple (pages o) (a - g.base) = new a (ground arith) in
      ground (arith, m, ap (λ j. (a - g.base) / pages j * pages j) same)
  | inr n ↦ v k a h (ground arith)
]

pub flipped-IsAligned : (g : Group) (o a : ℕ) → IsAligned g → IsAligned (flipped g o a)
flipped-IsAligned g o a v =
    elim (ltb o top)
      as (λ b. IsAligned (if b then flip g (suc o) ((a - g.base) / pages (suc o)) else g)) [
        | true ↦ v
        | false ↦ v
      ]

pub covered-flipped : (g : Group) (o a p : ℕ) → covered (flipped g o a) p ≡ covered g p
unfolding covered
covered-flipped g o a p =
    elim (ltb o top)
      as (λ b.
        covered (if b then flip g (suc o) ((a - g.base) / pages (suc o)) else g) p ≡ covered g p) [
          | true ↦ refl
          | false ↦ refl
        ]

pub flipped-bounds :
    (g : Group) (o a : ℕ)
    → ((flipped g o a).base ≡ g.base) × ((flipped g o a).end_page ≡ g.end_page)
flipped-bounds g o a = ground arith

pub flipped-freelist : (g : Group) (o a k : ℕ) → (flipped g o a).freelist k ≡ g.freelist k
flipped-freelist g o a k = ground arith

-- Blocks of two orders count both.
pub covered_two :
    (g : Group) (o k p : ℕ)
    → o < 8
    → k < 8
    → o ≢ k
    → covered_by p (pages o) (g.freelist o) + covered_by p (pages k) (g.freelist k) ≤ covered g p
covered_two g o k p h l n =
    ground (arith, covered-set_list g o [] p, covered_by-le (set_list g o []) k p)

module _ (g : Group) (v : IsBuddy g) (o a : ℕ) (h : o < 8) (c : 0 < count a (g.freelist o)) where
  -- The pages of a free block are in the group.
  pub block-inside : (p : ℕ) → a ≤ p → p < a + pages o → (g.base ≤ p) × (p < g.end_page)
  block-inside p l r =
      v.inside p
        (ground (arith, covered_by-count p (pages o) a (g.freelist o), covered_by-le g o p))

  pub block-bounds : (g.base ≤ a) × (a < g.end_page)
  block-bounds = block-inside a (omega arith) (omega (arith, pages_pos o))

pub insert_block-IsAligned :
    (g : Group) (o a : ℕ)
    → IsAligned g
    → o < 8
    → IsMultiple (pages o) (a - g.base)
    → IsAligned (insert_block g o a)
insert_block-IsAligned g o a v h m = set_list-IsAligned g o (a ∷ g.freelist o) v (λ b c.
    elim (Bool-cases (a == b)) [
      | inl y ↦ subst (λ x. IsMultiple (pages o) (x - g.base)) (eq_of_== a b y) m
      | inr n ↦ v o b h (ground arith)
    ])
