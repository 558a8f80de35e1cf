-- ===== src/Pages/Free.antt =====
-- `_page_free_order` of kernel/mm/page.c, on groups that satisfy IsBuddy.
use avengers.Prelude.{
  ℕ, zero, suc, ◌+◌, ◌-◌, ◌/◌, ◌≤◌, ◌<◌, ◌≡◌, refl, ap, ◌∙◌, true, false, Bool-cases, ltb, count,
  inl, inr, arith, ok,
}
use avengers.Pages.{Group, pages, top, insert_block, flip, index, join_buddies, page_join, free_in}
use avengers.Pages.Align.{IsMultiple}
use avengers.Pages.Blocks.{holds, covered, pages_pos, covered-insert_block}
use avengers.Pages.Parity.{index-runs, flipped, insert_block-IsParity}
use avengers.Pages.Valid.{
  IsBuddy, insert_block-IsAligned, flipped-IsAligned, covered-flipped, flipped-bounds,
  flipped-freelist, block-bounds,
}
use avengers.Pages.Join.{
  joined, m, covered-joined, joined-IsBuddy, joined-bounds, joined_in, join_buddies-runs,
}

-- The group holds other pages, by a number for each page.
pub record IsFreed (g : Group) (more : ℕ → ℕ) (g' : Group) : Type 0 where
  pub buddies : IsBuddy g'
  pub pages_added : (p : ℕ) → covered g' p ≡ covered g p + more p
  pub base_kept : g'.base ≡ g.base
  pub end_kept : g'.end_page ≡ g.end_page

IsFreed-trans :
    (g1 g2 g3 : Group) (more : ℕ → ℕ)
    → IsFreed g1 more g2
    → IsFreed g2 (λ p. 0) g3
    → IsFreed g1 more g3
IsFreed-trans g1 g2 g3 more a b = record {
  buddies = b.buddies;
  pages_added = λ p. omega (arith, a.pages_added p, b.pages_added p);
  base_kept = b.base_kept ∙ a.base_kept;
  end_kept = b.end_kept ∙ a.end_kept;
}

-- the loop of joins: some steps, from what one round gives
pub joins :
    (k : ℕ) (g : Group) (o a : ℕ) (g1 : Group) (m1 : ℕ) (g' : Group)
    → index g (suc o) a ≡ ok ((a - g.base) / pages (suc o))
    → g.map (suc o) ((a - g.base) / pages (suc o)) ≡ false
    → join_buddies g o a ≡ ok (g1, m1)
    → page_join k g1 (suc o) m1 ≡ ok g'
    → page_join (suc k) g o a ≡ ok g'
unfolding page_join
joins k g o a g1 m1 g' e1 e2 e3 e4 = ground (arith, e1, e2, e3, e4)

pub stops :
    (k : ℕ) (g : Group) (o a i : ℕ)
    → index g (suc o) a ≡ ok i
    → g.map (suc o) i ≡ true
    → page_join (suc k) g o a ≡ ok g
unfolding page_join
stops k g o a i e1 e2 = ground (arith, e1, e2)

page_join-IsFreed :
    (k : ℕ) (g : Group) (o a : ℕ)
    → IsBuddy g
    → k + o ≡ top
    → 0 < count a (g.freelist o)
    → (g' : Group) × (page_join k g o a ≡ ok g') × IsFreed g (λ p. 0) g'
unfolding page_join
page_join-IsFreed zero g o a v h c = (
  g,
  refl,
  record { buddies = v; pages_added = λ p. omega arith; base_kept = refl; end_kept = refl },
)
page_join-IsFreed (suc k) g o a v h c =
    let i = (a - g.base) / pages (suc o) in
    let (l, r) = block-bounds g v o a (omega (arith, h)) c in
    let e = index-runs g (suc o) a (omega (arith, h)) l r in
    elim (Bool-cases (g.map (suc o) i)) [
      | inl y ↦ (
        g,
        stops k g o a i e y,
        record { buddies = v; pages_added = λ p. omega arith; base_kept = refl; end_kept = refl },
      )
      | inr n ↦
          let low : o < top = omega (arith, h) in
          let g1 = joined g v o a low c n in
          let m1 = m g v o a low c n in
          let (g', e', f) =
            page_join-IsFreed k g1 (suc o) m1 (joined-IsBuddy g v o a low c n) (omega (arith, h))
              (joined_in g v o a low c n) in
          (
            g',
            joins k g o a g1 m1 g' e n (join_buddies-runs g v o a low c n) e',
            IsFreed-trans g g1 g' (λ p. 0)
                (record {
                  buddies = joined-IsBuddy g v o a low c n;
                  pages_added = λ p. omega (arith, covered-joined g v o a low c n p);
                  base_kept = (joined-bounds g v o a low c n).0;
                  end_kept = (joined-bounds g v o a low c n).1;
                })
                f,
          )
    ]

pub free_in_steps :
    (g g' : Group) (o a i : ℕ)
    → ltb o top ≡ true
    → index (insert_block g o a) (suc o) a ≡ ok i
    → page_join (top - o) (flip (insert_block g o a) (suc o) i) o a ≡ ok g'
    → free_in g o a ≡ ok g'
unfolding free_in
free_in_steps g g' o a i low e1 e2 = ground (arith, low, e1, e2)

pub flipped-low :
    (g : Group) (o a : ℕ)
    → ltb o top ≡ true
    → flip g (suc o) ((a - g.base) / pages (suc o)) ≡ flipped g o a
flipped-low g o a low = ground (arith, low)

module _ (g : Group) (o a : ℕ) (v : IsBuddy g) (h : o < 8) (l : g.base ≤ a)
    (r : a + pages o ≤ g.end_page) (m : IsMultiple (pages o) (a - g.base))
    (used : (p : ℕ) → covered g p + holds p (pages o) a ≤ 1) where
  abbrev pub put : Group
  put = flipped (insert_block g o a) o a

  pub covered-put : (p : ℕ) → covered put p ≡ covered g p + holds p (pages o) a
  covered-put p = covered-flipped (insert_block g o a) o a p ∙ covered-insert_block g o a p h

  pub put-IsBuddy : IsBuddy put
  put-IsBuddy = record {
    aligned =
        flipped-IsAligned (insert_block g o a) o a (insert_block-IsAligned g o a v.aligned h m);
    parity = insert_block-IsParity g o a v.parity;
    once = λ p. omega (arith, used p, covered-put p);
    inside = λ p c.
        ground (arith, v.inside p, covered-put p, l, r, flipped-bounds (insert_block g o a) o a);
  }

  put-IsFreed : IsFreed g (λ p. holds p (pages o) a) put
  put-IsFreed = record {
    buddies = put-IsBuddy;
    pages_added = covered-put;
    base_kept = (flipped-bounds (insert_block g o a) o a).0;
    end_kept = (flipped-bounds (insert_block g o a) o a).1;
  }

  pub put_in : 0 < count a (put.freelist o)
  put_in = ground (arith, ap (count a) (flipped-freelist (insert_block g o a) o a o))

  -- The block joins its free buddies, never panics, and the group has just its pages more.
  pub free_in-IsFreed :
      (g' : Group) × (free_in g o a ≡ ok g') × IsFreed g (λ p. holds p (pages o) a) g'
  unfolding free_in
  free_in-IsFreed = elim (Bool-cases (ltb o top)) [
    | inl y ↦
        let (g', e, f) =
          page_join-IsFreed (top - o) put o a put-IsBuddy (ground (arith, h)) put_in in
        (
          g',
          free_in_steps g g' o a ((a - g.base) / pages (suc o)) y
              (index-runs (insert_block g o a) (suc o) a (ground (arith, y)) l
                (omega (arith, r, pages_pos o)))
              (ap (λ x. page_join (top - o) x o a) (flipped-low (insert_block g o a) o a y) ∙ e),
          IsFreed-trans g put g' (λ p. holds p (pages o) a) put-IsFreed f,
        )
    | inr n ↦ (put, ground (arith, n), put-IsFreed)
  ]
