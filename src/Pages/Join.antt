-- ===== src/Pages/Join.antt =====
-- `__page_join` of kernel/mm/page.c: two free buddies become one block, as long as the bit is
-- clear.
use mathlib.Core.Path.{subst}
use avengers.Prelude.{
  ℕ, suc, ◌+◌, ◌-◌, ◌/◌, ◌≤◌, ◌<◌, ◌≡◌, sym, ap, false, List, ◌==◌, count, count-erase, erase, inl,
  inr, arith, ok,
}
use avengers.Pages.{
  Group, pages, top, set_list, insert_block, flip_above, remove, buddy_of, lower, join_buddies,
}
use avengers.Pages.Align.{IsMultiple}
use avengers.Pages.Blocks.{
  holds, covered, pages_pos, covered_by-erase, covered-set_list, covered-insert_block,
}
use avengers.Pages.Parity.{
  is_odd-erase, flipped, flip_above-runs, same-IsParity, insert_block-IsParity,
}
use avengers.Pages.Valid.{
  IsBuddy, set_list-IsAligned, insert_block-IsAligned, flipped-IsAligned, covered-flipped,
  flipped-bounds, flipped-freelist,
}
use avengers.Pages.Buddy.{buddy_of-cases, bounds, aligned, buddy-free}

join_buddies_steps :
    (g g' : Group) (o a : ℕ) (xs ys : List ℕ)
    → remove a (g.freelist o) ≡ ok xs
    → remove (buddy_of g o a) xs ≡ ok ys
    → flip_above
        (insert_block (set_list g o ys) (suc o) (lower a (buddy_of g o a)))
        (suc o)
        (lower a (buddy_of g o a))
      ≡ ok g'
    → join_buddies g o a ≡ ok (g', lower a (buddy_of g o a))
unfolding join_buddies
join_buddies_steps g g' o a xs ys e1 e2 e3 = ground (arith, e1, e2, e3)

module _ (g : Group) (v : IsBuddy g) (o a : ℕ) (h : o < top) (c : 0 < count a (g.freelist o))
    (clear : g.map (suc o) ((a - g.base) / pages (suc o)) ≡ false) where
  abbrev b : ℕ
  b = buddy_of g o a

  free : 0 < count b (erase a (g.freelist o))
  free = (buddy-free g v o a h c clear).0

  same_pair : (b - g.base) / pages (suc o) ≡ (a - g.base) / pages (suc o)
  same_pair = (buddy-free g v o a h c clear).1

  abbrev pub ys : List ℕ
  ys = erase b (erase a (g.freelist o))

  abbrev s1 : Group
  s1 = set_list g o ys

  abbrev pub m : ℕ
  m = lower a b

  abbrev pub joined : Group
  joined = flipped (insert_block s1 (suc o) m) (suc o) m

  on_list : (x : ℕ) → 0 < count x ys → 0 < count x (g.freelist o)
  on_list x l =
      omega
        (arith, l, count-erase x a (g.freelist o) c, count-erase x b (erase a (g.freelist o)) free)

  pub b_in : 0 < count b (g.freelist o)
  b_in = omega (arith, free, count-erase b a (g.freelist o) c)

  whole :
      IsMultiple (pages (suc o)) (m - g.base)
      × ((p : ℕ) → holds p (pages (suc o)) m ≡ holds p (pages o) a + holds p (pages o) b)
      × (g.base ≤ m)
      × (m < g.end_page)
  whole = elim (buddy_of-cases g o a (bounds g v o a h c).0 (aligned g v o a h c)) [
    | inl (e, up) ↦
        let low : m ≡ a = ground (arith, e, pages_pos o) in
        (
          subst (λ x. IsMultiple (pages (suc o)) (x - g.base)) (sym low) up,
          λ p. ground (arith, low, e),
          omega (arith, low, (bounds g v o a h c).0),
          omega (arith, low, (bounds g v o a h c).1),
        )
    | inr (e, l, up) ↦
        let low : m ≡ b = ground (arith, e, pages_pos o) in
        (
          subst (λ x. IsMultiple (pages (suc o)) (x - g.base)) (sym low) up,
          λ p. ground (arith, low, e),
          omega (arith, low, l),
          omega (arith, low, e, (bounds g v o a h c).1),
        )
  ]

  pub covered-joined : (p : ℕ) → covered joined p ≡ covered g p
  covered-joined p = ground (
    arith,
    covered-flipped (insert_block s1 (suc o) m) (suc o) m p,
    covered-insert_block s1 (suc o) m p,
    whole.1 p,
    covered-set_list g o ys p,
    covered_by-erase p (pages o) a (g.freelist o) c,
    covered_by-erase p (pages o) b (erase a (g.freelist o)) free,
  )

  pub joined-IsBuddy : IsBuddy joined
  joined-IsBuddy = record {
    aligned = flipped-IsAligned (insert_block s1 (suc o) m) (suc o) m (
        insert_block-IsAligned s1 (suc o) m
          (set_list-IsAligned g o ys v.aligned
            (λ x l. v.aligned o x (omega (arith, h)) (on_list x l)))
          (omega (arith, h)) whole.0);
    parity = insert_block-IsParity s1 (suc o) m (
        same-IsParity g o ys v.parity (λ i. ground (
          arith,
          is_odd-erase g.base (pages (suc o)) i a (g.freelist o) c,
          is_odd-erase g.base (pages (suc o)) i b (erase a (g.freelist o)) free,
          ap (λ j. j == i) same_pair,
        )));
    once = λ p. omega (arith, v.once p, covered-joined p);
    inside = λ p l.
        ground (
          arith,
          v.inside p,
          covered-joined p,
          flipped-bounds (insert_block s1 (suc o) m) (suc o) m,
        );
  }

  pub joined_in : 0 < count m (joined.freelist (suc o))
  joined_in =
      ground (arith, ap (count m) (flipped-freelist (insert_block s1 (suc o) m) (suc o) m (suc o)))

  pub join_buddies-runs : join_buddies g o a ≡ ok (joined, m)
  join_buddies-runs =
      join_buddies_steps g joined o a (erase a (g.freelist o)) ys (ground (arith, c))
        (ground (arith, free))
        (flip_above-runs (insert_block s1 (suc o) m) (suc o) m whole.2 whole.3)

  pub joined-bounds : (joined.base ≡ g.base) × (joined.end_page ≡ g.end_page)
  joined-bounds = flipped-bounds (insert_block s1 (suc o) m) (suc o) m
