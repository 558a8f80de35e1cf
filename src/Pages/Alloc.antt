-- ===== src/Pages/Alloc.antt =====
-- `_page_split` and `_page_alloc_order` of kernel/mm/page.c, on groups that satisfy IsBuddy.
use mathlib.Core.Path.{subst}
use avengers.Prelude.{
  ℕ, zero, suc, ◌+◌, ◌-◌, ◌≤◌, ◌<◌, ◌≡◌, refl, sym, ap, ◌∙◌, false, Bool-cases, none, some, List,
  [], ◌∷◌, ◌==◌, eq_of_==, get_elem?, set, get_elem?-set, lt_length, set-set, get_elem?-set_same,
  ◌⊎◌, inl, inr, arith, Outcome, ok, ◌>>=◌,
}
use avengers.Pages.{
  count_down, Group, pages, set_list, split_head, split_block, split_down, is_empty, Pages,
  set_group, take_block, find_larger, page_split, taken, alloc_order, top,
}
use avengers.Pages.Align.{IsMultiple}
use avengers.Pages.Blocks.{holds, covered}
use avengers.Pages.Valid.{IsBuddy, flipped-bounds}
use avengers.Pages.Find.{Has, NoBlock, find_group-cases, find_larger-cases}
use avengers.Pages.Split.{
  without, head_in, take_head-runs, covered-without, without-IsBuddy, g2, split-runs, covered-split,
  split-IsBuddy,
}

-- Splits of a group leave its pages and what the lists cover, and have a block of the order.
pub record IsSplit (g : Group) (order : ℕ) (g' : Group) : Type 0 where
  pub buddies : IsBuddy g'
  pub pages_kept : (p : ℕ) → covered g' p ≡ covered g p
  pub base_kept : g'.base ≡ g.base
  pub end_kept : g'.end_page ≡ g.end_page
  pub has_block : is_empty (g'.freelist order) ≡ false

split_block-IsSplit :
    (g : Group) (o : ℕ) (ts : List ℕ)
    → IsBuddy g
    → suc o < 8
    → g.freelist (suc o) ≡ ts
    → is_empty ts ≡ false
    → (g' : Group) × (split_block g (suc o) ≡ ok g') × IsSplit g o g'
unfolding split_block split_head
split_block-IsSplit g o [] v h e n = cc
split_block-IsSplit g o (t ∷ rest) v h e n = (
  g2 g v o t rest h e,
  ground (arith, e, split-runs g v o t rest h e),
  record {
    buddies = split-IsBuddy g v o t rest h e;
    pages_kept = covered-split g v o t rest h e;
    base_kept = (flipped-bounds (set_list g (suc o) rest) (suc o) t).0;
    end_kept = (flipped-bounds (set_list g (suc o) rest) (suc o) t).1;
    has_block = ground arith;
  },
)

pub split_down-IsSplit :
    (k : ℕ) (g : Group) (order : ℕ)
    → IsBuddy g
    → k + order < 8
    → is_empty (g.freelist (k + order)) ≡ false
    → (g' : Group) × (split_down k g order ≡ ok g') × IsSplit g order g'
unfolding split_down
split_down-IsSplit zero g order v h n = (
  g,
  refl,
  record {
    buddies = v;
    pages_kept = λ p. refl;
    base_kept = refl;
    end_kept = refl;
    has_block = ground (arith, n);
  },
)
split_down-IsSplit (suc k) g order v h n =
    let (g1, e1, s1) =
      split_block-IsSplit g (k + order) (g.freelist (suc (k + order))) v (omega (arith, h)) refl
        (ground (arith, n)) in
    let (g', e', s') = split_down-IsSplit k g1 order s1.buddies (omega (arith, h)) s1.has_block in
    (
      g',
      ground (arith, e1, e'),
      record {
        buddies = s'.buddies;
        pages_kept = λ p. s'.pages_kept p ∙ s1.pages_kept p;
        base_kept = s'.base_kept ∙ s1.base_kept;
        end_kept = s'.end_kept ∙ s1.end_kept;
        has_block = s'.has_block;
      },
    )

-- All groups are valid.
abbrev pub AllBuddy : List Group → Type 0
AllBuddy gs = (i : ℕ) (g : Group) → get_elem? gs i ≡ some g → IsBuddy g

pub set-AllBuddy :
    (gs : List Group) (i : ℕ) (g g' : Group)
    → AllBuddy gs
    → get_elem? gs i ≡ some g
    → IsBuddy g'
    → AllBuddy (set gs i g')
set-AllBuddy gs i g g' v e v' k h f = elim (Bool-cases (i == k)) [
  | inl y ↦ subst IsBuddy (ground (arith, y, f, get_elem?-set i k gs g' (lt_length i gs g e))) v'
  | inr n ↦ v k h (ground (arith, n, f, get_elem?-set i k gs g' (lt_length i gs g e)))
]

-- An allocation takes one free block of one group and lowers the number of free pages.
pub record Taken (s : Pages) (order : ℕ) (s' : Pages) (a : ℕ) : Type 0 where
  pub group_of : ℕ
  pub before : Group
  pub after : Group
  pub was_at : get_elem? s.groups group_of ≡ some before
  pub result :
      s' ≡ record (set_group s group_of after) { freecount = count_down s.freecount (pages order) }
  pub buddies : IsBuddy after
  pub pages_taken : (p : ℕ) → covered after p + holds p (pages order) a ≡ covered before p
  pub base_kept : after.base ≡ before.base
  pub end_kept : after.end_page ≡ before.end_page
  pub aligned : IsMultiple (pages order) (a - before.base)

-- The block is taken from a group that splits have prepared.
take_block-Taken :
    (s0 s : Pages) (i order : ℕ) (g0 g : Group) (xs : List ℕ)
    → get_elem? s0.groups i ≡ some g0
    → get_elem? s.groups i ≡ some g
    → ((x : Group) → set_group s i x ≡ set_group s0 i x)
    → order < 8
    → IsSplit g0 order g
    → g.freelist order ≡ xs
    → is_empty xs ≡ false
    → (s' : Pages) × (a : ℕ) × (take_block s i order ≡ ok (s', some a)) × Taken s0 order s' a
unfolding take_block
take_block-Taken s0 s i order g0 g [] e0 e same h v f n = cc
take_block-Taken s0 s i order g0 g (a ∷ rest) e0 e same h v f n =
    let g' = without g v.buddies order a rest h f in
    let (b, l) = flipped-bounds (set_list g order rest) order a in
    (
      record (set_group s i g') { freecount = count_down s.freecount (pages order) },
      a,
      ground (arith, e, take_head-runs g v.buddies order a rest h f),
      record {
        group_of = i;
        before = g0;
        after = g';
        was_at = e0;
        result =
            ap (λ (x : Pages). record x { freecount = count_down x.freecount (pages order) })
              (same g');
        buddies = without-IsBuddy g v.buddies order a rest h f;
        pages_taken = λ p. covered-without g v.buddies order a rest h f p ∙ v.pages_kept p;
        base_kept = b ∙ v.base_kept;
        end_kept = l ∙ v.end_kept;
        aligned =
            subst (λ x. IsMultiple (pages order) (a - x)) v.base_kept
              (v.buddies.aligned order a h (head_in g v.buddies order a rest h f));
      },
    )

module _ (reclaim : Pages → Outcome Pages) (s : Pages) (order : ℕ) (h : order < 8)
    (v : AllBuddy s.groups) where
  from_found :
      (i : ℕ)
      → Has order s.groups i
      → (s' : Pages) × (a : ℕ) × (take_block s i order ≡ ok (s', some a)) × Taken s order s' a
  from_found i (g, e, n) =
      take_block-Taken s s i order g g (g.freelist order) e e (λ x. refl) h
        (record {
          buddies = v i g e;
          pages_kept = λ p. refl;
          base_kept = refl;
          end_kept = refl;
          has_block = n;
        })
        refl n

  from_larger :
      (k i : ℕ)
      → find_larger (top - order) 1 order s.groups ≡ some (k, i)
      → k + order < 8
      → Has (k + order) s.groups i
      → (s' : Pages) × (a : ℕ) × (page_split reclaim s order >>= (λ r. taken order r)
          ≡ ok (s', some a))
        × Taken s order s' a
  unfolding page_split taken
  from_larger k i f l (g, e, n) =
      let (g1, e1, v1) = split_down-IsSplit k g order (v i g e) l n in
      let (s', a, e', t) =
        take_block-Taken s (set_group s i g1) i order g g1 (g1.freelist order) e
          (get_elem?-set_same i s.groups g1 g e)
          (λ x. ap (λ gs. record s { groups = gs }) (set-set i s.groups g1 x)) h v1 refl
          v1.has_block in
      (s', a, ground (arith, f, e, e1, e'), t)

  split_fails :
      find_larger (top - order) 1 order s.groups ≡ none
      → page_split reclaim s order >>= (λ r. taken order r) ≡ reclaim s >>= λ s'. ok (s', none)
  unfolding page_split taken
  split_fails f = ground (arith, f)

  no_block :
      NoBlock order s.groups
      → ((k : ℕ) → 1 ≤ k → k < top - order + 1 → NoBlock (k + order) s.groups)
      → (j : ℕ) → order ≤ j
      → j < 8
      → NoBlock j s.groups
  no_block here larger j l r = elim (Bool-cases (j == order)) [
    | inl y ↦ subst (λ k. NoBlock k s.groups) (sym (eq_of_== j order y)) here
    | inr n ↦
        subst (λ k. NoBlock k s.groups) (omega (arith, l))
          (larger (j - order) (ground (arith, l, n)) (omega (arith, l, r)))
  ]

  -- For an order below 8 and valid groups, _page_alloc_order never fails an assertion: either it
  -- takes one aligned block of that size, all of whose pages were free, out of one group, which
  -- stays valid and keeps all other free pages; or no group has a free block of the order or a
  -- larger one, and it returns no block once memory is reclaimed.
  pub alloc_order-cases :
      ((s' : Pages) × (a : ℕ) × (alloc_order reclaim s order ≡ ok (s', some a))
        × Taken s order s' a)
      ⊎ ((alloc_order reclaim s order ≡ reclaim s >>= λ s'. ok (s', none))
          × ((j : ℕ) → order ≤ j → j < 8 → NoBlock j s.groups))
  unfolding alloc_order
  alloc_order-cases = elim (find_group-cases order s.groups) [
    | inl (i, e, has) ↦
        let (s', a, e', t) = from_found i has in inl (s', a, ground (arith, e, e'), t)
    | inr (e, none_here) ↦ elim (find_larger-cases (top - order) 1 order s.groups) [
      | inl (k, i, f, l, has) ↦
          let (s', a, e', t) = from_larger k i f (omega (arith, h, l)) has in
          inl (s', a, ground (arith, e, e'), t)
      | inr (f, none_larger) ↦
          inr (ground (arith, e, split_fails f), λ j l r. no_block none_here none_larger j l r)
    ]
  ]
