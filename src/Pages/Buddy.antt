-- ===== src/Pages/Buddy.antt =====
-- The buddy of a free block of kernel/mm/page.c whose bit is clear is free.
use mathlib.Core.Path.{subst}
use avengers.Prelude.{
  ℕ, suc, ◌+◌, ◌-◌, ◌/◌, ◌%◌, ◌≤◌, ◌<◌, ◌≡◌, ◌≢◌, sym, true, false, Bool-cases, eq_of_==, ◌==◌, ltb,
  count, count-erase, erase, ◌⊎◌, inl, inr, arith,
}
use avengers.Pages.{Group, pages, top, buddy_of}
use avengers.Pages.Align.{IsMultiple, IsMultiple-even, IsMultiple-odd, buddy, buddy_unique}
use avengers.Pages.Blocks.{pages_pos, covered_by-erase, covered_by-count, covered_by-le}
use avengers.Pages.Parity.{is_odd, is_odd-erase, is_odd-some}
use avengers.Pages.Valid.{IsBuddy, block-bounds}

-- A block and its buddy are the halves of one block of the next order.
pub buddy_of-cases :
    (g : Group) (o a : ℕ)
    → g.base ≤ a
    → IsMultiple (pages o) (a - g.base)
    → ((buddy_of g o a ≡ a + pages o) × IsMultiple (pages (suc o)) (a - g.base))
      ⊎ ((a ≡ buddy_of g o a + pages o)
          × (g.base ≤ buddy_of g o a)
          × IsMultiple (pages (suc o)) (buddy_of g o a - g.base))
unfolding buddy_of
buddy_of-cases g o a l m = elim (Bool-cases ((a - g.base) / pages o % 2 == 1)) [
  | inl y ↦
      let (le, up) =
        IsMultiple-odd (pages o) (a - g.base) (pages_pos o) m
          (eq_of_== ((a - g.base) / pages o % 2) 1 y) in
      let here : buddy_of g o a ≡ a - pages o = ground (arith, y) in
      inr (
        omega (arith, here, le, l),
        omega (arith, here, le, l),
        subst (IsMultiple (pages (suc o))) (omega (arith, here, le, l)) up,
      )
  | inr n ↦ inl (
    ground (arith, n),
    IsMultiple-even (pages o) (a - g.base) (pages_pos o) m (ground (arith, n)),
  )
]

module _ (g : Group) (v : IsBuddy g) (o a : ℕ) (h : o < top) (c : 0 < count a (g.freelist o)) where
  pub bounds : (g.base ≤ a) × (a < g.end_page)
  bounds = block-bounds g v o a (omega (arith, h)) c

  pub aligned : IsMultiple (pages o) (a - g.base)
  aligned = v.aligned o a (omega (arith, h)) c

  -- A block is on its list once.
  pub once-erase : count a (erase a (g.freelist o)) ≡ 0
  once-erase = elim (Bool-cases (ltb 0 (count a (erase a (g.freelist o))))) [
    | inl y ↦ absurd (
        ground (
          arith,
          y,
          pages_pos o,
          v.once a,
          covered_by-le g o a (omega (arith, h)),
          covered_by-erase a (pages o) a (g.freelist o) c,
          covered_by-count a (pages o) a (erase a (g.freelist o)) (ground (arith, y)),
        ))
    | inr n ↦ ground (arith, n)
  ]

  not_again : 0 < count a (erase a (g.freelist o)) → ⊥
  not_again l = absurd (omega (arith, l, once-erase))

  -- Another free block of the pair is the buddy.
  pub buddy-is :
      (b : ℕ)
      → 0 < count b (erase a (g.freelist o))
      → (b - g.base) / pages (suc o) ≡ (a - g.base) / pages (suc o)
      → b ≡ buddy_of g o a
  unfolding buddy_of
  buddy-is b free same =
      let there : 0 < count b (g.freelist o) =
        omega (arith, free, count-erase b a (g.freelist o) c) in
      let (bl, br) = block-bounds g v o b (omega (arith, h)) there in
      let other : b - g.base ≢ a - g.base = λ e.
        not_again (
          subst (λ x. 0 < count x (erase a (g.freelist o))) (omega (arith, e, bl, bounds.0))
            free) in
      let e : b - g.base ≡ buddy (pages o) (a - g.base) =
        buddy_unique (pages o) (a - g.base) (b - g.base) (pages_pos o) aligned
          (v.aligned o b (omega (arith, h)) there) (sym same) (λ e. other (sym e)) in
      elim (Bool-cases ((a - g.base) / pages o % 2 == 1)) [
        | inl y ↦ ground (
          arith,
          y,
          e,
          bl,
          bounds.0,
          (IsMultiple-odd (pages o) (a - g.base) (pages_pos o) aligned
              (eq_of_== ((a - g.base) / pages o % 2) 1 y)).0,
        )
        | inr n ↦ ground (arith, n, e, bl, bounds.0)
      ]

  -- With the bit clear, the buddy is on the list too.
  pub buddy-free :
      g.map (suc o) ((a - g.base) / pages (suc o)) ≡ false
      → (0 < count (buddy_of g o a) (erase a (g.freelist o)))
        × ((buddy_of g o a - g.base) / pages (suc o) ≡ (a - g.base) / pages (suc o))
  buddy-free clear =
      let i = (a - g.base) / pages (suc o) in
      let odd : is_odd g.base (pages (suc o)) i (erase a (g.freelist o)) ≡ true =
        ground (
          arith,
          clear,
          v.parity o i h,
          is_odd-erase g.base (pages (suc o)) i a (g.freelist o) c,
        ) in
      let (b, free, same) = is_odd-some g.base (pages (suc o)) i (erase a (g.freelist o)) odd in
      let e = buddy-is b free same in
      (
        subst (λ x. 0 < count x (erase a (g.freelist o))) e free,
        subst (λ x. (x - g.base) / pages (suc o) ≡ i) e same,
      )
