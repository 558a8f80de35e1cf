-- ===== src/Pages/Split.antt =====
-- Blocks that leave a free list of kernel/mm/page.c: `_page_alloc_order` and `__page_split`.
use mathlib.Core.Path.{subst}
use avengers.Prelude.{
  ℕ, suc, ◌+◌, ◌-◌, ◌/◌, ◌≤◌, ◌<◌, ◌≡◌, sym, ap, ◌∙◌, false, Bool-cases, eq_of_==, List, ◌∷◌, ◌==◌,
  count, inl, inr, arith, ok,
}
use avengers.Pages.{
  Group, pages, set_list, insert_block, index, flip_above, take_head, split_target,
}
use avengers.Pages.Align.{
  IsMultiple, IsMultiple-half, IsMultiple-upper_half, div-upper_half, index-near,
}
use avengers.Pages.Blocks.{
  holds, covered_by, covered, pages_pos, covered-set_list, covered_by-le, covered_by-count,
  covered-insert_block,
}
use avengers.Pages.Parity.{
  is_odd-none, index-runs, flipped, flip_above-runs, take-IsParity, pair-IsParity,
}
use avengers.Pages.Valid.{
  IsBuddy, set_list-IsAligned, insert_block-IsAligned, flipped-IsAligned, covered-flipped,
  flipped-bounds, block-bounds,
}

module _ (g : Group) (v : IsBuddy g) (o a : ℕ) (rest : List ℕ) (h : o < 8)
    (e : g.freelist o ≡ a ∷ rest) where
  -- The head is on the list, and so is what is on the rest.
  pub head_in : 0 < count a (g.freelist o)
  head_in = ground (arith, ap (count a) e)

  rest_in : (b : ℕ) → 0 < count b rest → 0 < count b (g.freelist o)
  rest_in b c = ground (arith, ap (count b) e)

  abbrev pub without : Group
  without = flipped (set_list g o rest) o a

  pub covered-without : (p : ℕ) → covered without p + holds p (pages o) a ≡ covered g p
  covered-without p = ground (
    arith,
    covered-flipped (set_list g o rest) o a p,
    covered-set_list g o rest p,
    ap (covered_by p (pages o)) e,
  )

  pub without-IsBuddy : IsBuddy without
  without-IsBuddy = record {
    aligned =
        flipped-IsAligned (set_list g o rest) o a
          (set_list-IsAligned g o rest (v.aligned) (λ b c. v.aligned o b h (rest_in b c)));
    parity = take-IsParity g o a rest v.parity e;
    once = λ p. omega (arith, v.once p, covered-without p);
    inside = λ p c.
        ground (arith, v.inside p, covered-without p, flipped-bounds (set_list g o rest) o a);
  }

  pub take_head-runs : take_head g o (g.freelist o) ≡ ok (without, a)
  unfolding take_head
  take_head-runs =
      let (l, r) = block-bounds g v o a h head_in in
      ground (arith, e, flip_above-runs (set_list g o rest) o a l r)

split_target-runs :
    (s g : Group) (o t i : ℕ)
    → flip_above s (suc o) t ≡ ok g
    → index g (suc o) t ≡ ok i
    → g.map (suc o) i ≡ false
    → split_target s o t ≡ ok (insert_block (insert_block g o t) o (t + pages o))
unfolding split_target
split_target-runs s g o t i f e b = ground (arith, f, e, b)

module _ (g : Group) (v : IsBuddy g) (o t : ℕ) (rest : List ℕ) (h : suc o < 8)
    (e : g.freelist (suc o) ≡ t ∷ rest) where
  abbrev pub g1 : Group
  g1 = without g v (suc o) t rest h e

  v1 : IsBuddy g1
  v1 = without-IsBuddy g v (suc o) t rest h e

  same_base : g1.base ≡ g.base
  same_base = (flipped-bounds (set_list g (suc o) rest) (suc o) t).0

  t_bounds : (g.base ≤ t) × (t < g.end_page)
  t_bounds = block-bounds g v (suc o) t h (head_in g v (suc o) t rest h e)

  t_aligned : IsMultiple (pages (suc o)) (t - g1.base)
  t_aligned =
      subst (λ b. IsMultiple (pages (suc o)) (t - b)) (sym same_base)
        (v.aligned (suc o) t h (head_in g v (suc o) t rest h e))

  -- No half of the target is free, or the page would be free twice.
  no_half :
      (b : ℕ)
      → 0 < count b (g1.freelist o)
      → (b - g1.base) / pages (suc o) == (t - g1.base) / pages (suc o) ≡ false
  no_half b c = elim (Bool-cases ((b - g1.base) / pages (suc o) == (t - g1.base) / pages (suc o))) [
    | inl y ↦
        let same : (b - g1.base) / pages (suc o) ≡ (t - g1.base) / pages (suc o) =
          eq_of_== ((b - g1.base) / pages (suc o)) ((t - g1.base) / pages (suc o)) y in
        let (lo, hi) =
          index-near (pages (suc o)) (t - g1.base) (b - g1.base) (pages_pos (suc o)) t_aligned
            same in
        let (bl, br) = block-bounds g1 v1 o b (omega (arith, h)) c in
        absurd (
          ground (
            arith,
            lo,
            hi,
            bl,
            br,
            pages_pos o,
            t_bounds.0,
            same_base,
            v.once b,
            covered-without g v (suc o) t rest h e b,
            covered_by-count b (pages o) b (g1.freelist o) c,
            covered_by-le g1 o b (omega (arith, h)),
          ))
    | inr n ↦ n
  ]

  bit-clear : g1.map (suc o) ((t - g1.base) / pages (suc o)) ≡ false
  bit-clear =
      v1.parity o ((t - g1.base) / pages (suc o)) (omega (arith, h))
      ∙ is_odd-none g1.base (pages (suc o)) ((t - g1.base) / pages (suc o)) (g1.freelist o) no_half

  abbrev pub g2 : Group
  g2 = insert_block (insert_block g1 o t) o (t + pages o)

  pub split-runs : split_target (set_list g (suc o) rest) o t ≡ ok g2
  split-runs =
      let (l, r) = t_bounds in
      let (el, er) = flipped-bounds (set_list g (suc o) rest) (suc o) t in
      split_target-runs (set_list g (suc o) rest) g1 o t ((t - g1.base) / pages (suc o))
        (flip_above-runs (set_list g (suc o) rest) (suc o) t l r)
        (index-runs g1 (suc o) t h (omega (arith, l, el)) (omega (arith, r, er))) bit-clear

  pub covered-split : (p : ℕ) → covered g2 p ≡ covered g p
  covered-split p = ground (
    arith,
    covered-without g v (suc o) t rest h e p,
    covered-insert_block g1 o t p,
    covered-insert_block (insert_block g1 o t) o (t + pages o) p,
  )

  upper : t + pages o - g1.base ≡ t - g1.base + pages o
  upper = omega (arith, t_bounds.0, same_base)

  pub split-IsBuddy : IsBuddy g2
  split-IsBuddy = record {
    aligned =
        insert_block-IsAligned (insert_block g1 o t) o (t + pages o)
          (insert_block-IsAligned g1 o t v1.aligned (omega (arith, h))
            (IsMultiple-half (pages o) (t - g1.base) (pages_pos o) t_aligned))
          (omega (arith, h))
          (subst (IsMultiple (pages o)) (sym upper)
            (IsMultiple-upper_half (pages o) (t - g1.base) (pages_pos o) t_aligned));
    parity = pair-IsParity g1 o t (t + pages o) v1.parity (
        ap (λ x. x / pages (suc o)) upper
        ∙ div-upper_half (pages o) (t - g1.base) (pages_pos o) t_aligned);
    once = λ p. omega (arith, v.once p, covered-split p);
    inside = λ p c.
        ground
          (arith, v.inside p, covered-split p, flipped-bounds (set_list g (suc o) rest) (suc o) t);
  }
