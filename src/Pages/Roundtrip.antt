-- ===== src/Pages/Roundtrip.antt =====
-- `_page_alloc_order` and `_page_free_order` of kernel/mm/page.c on all groups.
use mathlib.Core.Path.{subst}
use avengers.Prelude.{
  ℕ, zero, suc, ◌+◌, ◌-◌, ◌^◌, ◌≤◌, ◌<◌, ◌≡◌, refl, sym, ap, ◌∙◌, false, Bool-cases, eq_of_==, ◌&&◌,
  Option, none, some, List, [], ◌∷◌, ◌==◌, ltb, leb, if◌then◌else◌, get_elem?, set, get_elem?-set,
  lt_length, get_elem?-set_same, set-set, ◌⊎◌, inl, inr, arith, Outcome, ok, panic, waits, astray,
  ◌>>=◌,
}
use avengers.Pages.{
  count_up, count_down, Group, Pages, pages, set_group, free_in, group_from, free_order,
  alloc_order,
}
use avengers.Pages.Align.{IsMultiple}
use avengers.Pages.Blocks.{holds, covered, pages_pos, pages-add}
use avengers.Pages.Valid.{IsBuddy}
use avengers.Pages.Alloc.{AllBuddy, set-AllBuddy, Taken, alloc_order-cases}
use avengers.Pages.Free.{IsFreed, free_in-IsFreed}

-- A page is in a group, and no page is in two.
abbrev pub In : List Group → ℕ → ℕ → Type 0
In gs a i = (g : Group) × (get_elem? gs i ≡ some g) × (g.base ≤ a) × (a < g.end_page)

abbrev pub Apart : List Group → Type 0
Apart gs = (a i j : ℕ) → In gs a i → In gs a j → i ≡ j

group_from-cases :
    (a : ℕ) (gs : List Group)
    → ((i : ℕ) × (group_from a gs ≡ some i) × In gs a i)
      ⊎ ((group_from a gs ≡ none)
          × ((i : ℕ) (g : Group)
              → get_elem? gs i ≡ some g
              → leb g.base a && ltb a g.end_page ≡ false))
group_from-cases a [] = inr (refl, λ i g e. ground (arith, e))
group_from-cases a (g ∷ gs) = elim (Bool-cases (leb g.base a && ltb a g.end_page)) [
  | inl y ↦ inl (0, ground (arith, y), (g, refl, ground (arith, y), ground (arith, y)))
  | inr n ↦ elim (group_from-cases a gs) [
    | inl (i, e, (h, f, l, r)) ↦ inl (suc i, ground (arith, n, e), (h, ground (arith, f), l, r))
    | inr (e, rest) ↦ inr (ground (arith, n, e), none-cons n rest)
  ]
]
  where
    none-cons :
        leb g.base a && ltb a g.end_page ≡ false
        → ((i : ℕ) (h : Group) → get_elem? gs i ≡ some h → leb h.base a && ltb a h.end_page ≡ false)
        → (i : ℕ) (h : Group) → get_elem? (g ∷ gs) i ≡ some h
        → leb h.base a && ltb a h.end_page ≡ false
    none-cons n rest zero h e = ground (arith, n, e)
    none-cons n rest (suc i) h e = rest i h e

-- The group of a page is found.
pub group_from-finds : (a i : ℕ) (gs : List Group) → Apart gs → In gs a i → group_from a gs ≡ some i
group_from-finds a i gs apart (g, e, l, r) = elim (group_from-cases a gs) [
  | inl (j, f, at) ↦ f ∙ ap some (apart a j i at (g, e, l, r))
  | inr (f, nowhere) ↦ absurd (ground (arith, nowhere i g e, l, r))
]

pub free_order_steps :
    (s : Pages) (i a order : ℕ) (g g' : Group)
    → group_from a s.groups ≡ some i
    → get_elem? s.groups i ≡ some g
    → free_in g order a ≡ ok g'
    → free_order s a order
      ≡ ok (record (set_group s i g') { freecount = count_up s.freecount (pages order) })
unfolding free_order
free_order_steps s i a order g g' e1 e2 e3 = ground (arith, e1, e2, e3)

-- If all groups are valid and no page is in two: _page_free_order of an aligned block of a group,
-- none of whose pages is free, returns. The group has just the pages of the block more, whatever
-- blocks have been joined; all groups are valid, and the count has grown by the pages of the
-- block.
pub free_order-adds :
    (s : Pages) (i a order : ℕ) (g : Group)
    → AllBuddy s.groups
    → Apart s.groups
    → order < 8
    → get_elem? s.groups i ≡ some g
    → g.base ≤ a
    → a + pages order ≤ g.end_page
    → IsMultiple (pages order) (a - g.base)
    → ((p : ℕ) → covered g p + holds p (pages order) a ≤ 1)
    → (g' : Group) × (free_order s a order
        ≡ ok (record (set_group s i g') { freecount = count_up s.freecount (pages order) }))
      × IsFreed g (λ p. holds p (pages order) a) g'
      × AllBuddy (set s.groups i g')
free_order-adds s i a order g v apart h e l r m used =
    let (g', f, freed) = free_in-IsFreed g order a (v i g e) h l r m used in
    (
      g',
      free_order_steps s i a order g g'
          (group_from-finds a i s.groups apart (g, e, l, omega (arith, r, pages_pos order))) e f,
      freed,
      set-AllBuddy s.groups i g g' v e freed.buddies,
    )

-- What an allocation tells of the group that it takes from
module _ (s s' : Pages) (order a : ℕ) (h : order < 8) (v : AllBuddy s.groups)
    (t : Taken s order s' a) where
  -- The pages were free, and in the group.
  before-inside :
      (p : ℕ) → a ≤ p → p < a + pages order → (t.before.base ≤ p) × (p < t.before.end_page)
  before-inside p l r = (v t.group_of t.before t.was_at).inside p (ground (arith, t.pages_taken p))

  low : t.after.base ≤ a
  low = omega (
    arith,
    t.base_kept,
    pages_pos order,
    (before-inside a (omega arith) (omega (arith, pages_pos order))).0,
  )

  high : a + pages order ≤ t.after.end_page
  high = omega (
    arith,
    t.end_kept,
    pages_pos order,
    (before-inside (a + pages order - 1) (omega (arith, pages_pos order))
        (omega (arith, pages_pos order))).1,
  )

  taken_groups : s'.groups ≡ set s.groups t.group_of t.after
  taken_groups = ap (λ (x : Pages). x.groups) t.result

  pub taken-AllBuddy : AllBuddy s'.groups
  taken-AllBuddy =
      subst AllBuddy (sym taken_groups)
        (set-AllBuddy s.groups t.group_of t.before t.after v t.was_at t.buddies)

  taken_at : get_elem? s'.groups t.group_of ≡ some t.after
  taken_at =
      ap (λ gs. get_elem? gs t.group_of) taken_groups
      ∙ get_elem?-set_same t.group_of s.groups t.after t.before t.was_at

  In-before : (p i : ℕ) → In s'.groups p i → In s.groups p i
  In-before p i (g, e, l, r) =
      let at : get_elem? s'.groups i
          ≡ (if t.group_of == i then some t.after else get_elem? s.groups i) =
        ap (λ gs. get_elem? gs i) taken_groups
        ∙ get_elem?-set t.group_of i s.groups t.after
            (lt_length t.group_of s.groups t.before t.was_at) in
      elim (Bool-cases (t.group_of == i)) [
        | inl y ↦
            let here : t.after ≡ g = ground (arith, at, y, e) in
            (
              t.before,
              ap (get_elem? s.groups) (sym (eq_of_== t.group_of i y)) ∙ t.was_at,
              omega (arith, l, t.base_kept, ap (λ (x : Group). x.base) here),
              omega (arith, r, t.end_kept, ap (λ (x : Group). x.end_page) here),
            )
        | inr n ↦ (g, ground (arith, at, n, e), l, r)
      ]

  taken-Apart : Apart s.groups → Apart s'.groups
  taken-Apart apart p i j x y = apart p i j (In-before p i x) (In-before p j y)

  pub free-taken :
      Apart s.groups
      → (g' : Group) × (free_order s' a order
          ≡ ok (record (set_group s t.group_of g') {
            freecount = count_up s'.freecount (pages order);
          }))
        × IsBuddy g'
        × ((p : ℕ) → covered g' p ≡ covered t.before p)
  free-taken apart =
      let (g', e, f, all) =
        free_order-adds s' t.group_of a order t.after taken-AllBuddy (taken-Apart apart) h taken_at
          low high (subst (λ b. IsMultiple (pages order) (a - b)) (sym t.base_kept) t.aligned)
          (λ p. omega (arith, t.pages_taken p, (v t.group_of t.before t.was_at).once p)) in
      (
        g',
        e
            ∙ ap
                (λ gs.
                  ok (record s' { groups = gs; freecount = count_up s'.freecount (pages order) }))
                (ap (λ gs. set gs t.group_of g') taken_groups
                  ∙ set-set t.group_of s.groups t.after g'),
        f.buddies,
        λ p. f.pages_added p ∙ t.pages_taken p,
      )

abbrev failed : Pages → Outcome (Pages × Option ℕ)
failed s = ok (s, none)

allocated : (r : Outcome Pages) (s' : Pages) (a : ℕ) → r >>= failed ≡ ok (s', some a) → ⊥
allocated (ok x) s' a e = cc
allocated panic s' a e = cc
allocated waits s' a e = cc
allocated astray s' a e = cc

-- What an allocation gives is Taken.
pub alloc_order-Taken :
    (reclaim : Pages → Outcome Pages) (s s' : Pages) (order a : ℕ)
    → AllBuddy s.groups
    → order < 8
    → alloc_order reclaim s order ≡ ok (s', some a)
    → Taken s order s' a
alloc_order-Taken reclaim s s' order a v h e = elim (alloc_order-cases reclaim s order h v) [
  | inl (s1, a1, e1, t) ↦
      let same : Path (Outcome (Pages × Option ℕ)) (ok (s1, some a1)) (ok (s', some a)) =
        sym e1 ∙ e in
      subst (λ x. Taken s order x a) (cc) (subst (Taken s order s1) (cc) t)
  | inr (e1, none_left) ↦ absurd (allocated (reclaim s) s' a (sym e1 ∙ e))
]

-- A block has 128 pages at most.
pages-le : (o : ℕ) → o < 8 → pages o ≤ 128
pages-le o h =
    let e : 7 - o + o ≡ 7 = omega (arith, h) in omega (arith, pages-add (7 - o) o, ap pages e)

count_up-count_down :
    (n o : ℕ) → n < 2 ^ 32 → o < 8 → count_up (count_down n (pages o)) (pages o) ≡ n
unfolding count_up count_down
count_up-count_down n o small h = omega (arith, small, pages-le o h)

-- If all groups are valid, no page is in two, and the count is a 32-bit number: freeing a block
-- that was just allocated returns, and leaves the count as it was and each group as it was but for
-- the one that the block is from, which is valid and whose free blocks hold the same pages.
pub alloc_order-free_order :
    (reclaim : Pages → Outcome Pages) (s s' : Pages) (order a : ℕ)
    → AllBuddy s.groups
    → Apart s.groups
    → s.freecount < 2 ^ 32
    → order < 8
    → alloc_order reclaim s order ≡ ok (s', some a)
    → (i : ℕ) × (g g' : Group) × (get_elem? s.groups i ≡ some g)
      × (free_order s' a order ≡ ok (record (set_group s i g') { freecount = s.freecount }))
      × IsBuddy g'
      × ((p : ℕ) → covered g' p ≡ covered g p)
alloc_order-free_order reclaim s s' order a v apart small h e =
    let t = alloc_order-Taken reclaim s s' order a v h e in
    let (g', f, v', c) = free-taken s s' order a h v t apart in
    (
      t.group_of,
      t.before,
      g',
      t.was_at,
      f
          ∙ ap (λ n. ok (record (set_group s t.group_of g') { freecount = n }))
              (ap (λ (x : Pages). count_up x.freecount (pages order)) t.result
                ∙ count_up-count_down s.freecount order small h),
      v',
      c,
    )
