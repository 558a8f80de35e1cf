-- ===== src/Pages/Create/Last.antt =====
-- The last page of a group that `_pagegroup_create` makes of an odd number of pages,
-- kernel/mm/page.c
use mathlib.Core.Path.{subst}
use avengers.Prelude.{
  ℕ, zero, suc, ◌-◌, ◌/◌, ◌%◌, ◌≤◌, ◌<◌, ◌≡◌, refl, sym, ap, ◌∙◌, true, false, Bool-cases, some, [],
  count, ◌∷◌, ◌==◌, ltb, if◌then◌else◌, inl, inr, arith, Outcome, ok, astray,
}
use avengers.Pages.{
  Group, Pages, pages, set_list, is_empty, page_alloc, page_free, alloc_order, take_block,
  free_order, count_up, count_down, take_head, free_in, buddy_of,
}
use avengers.Pages.Create.{usable_end, fill_small, no_bits, group_create, page_init, page_add_range}
use avengers.Pages.Lone.{g1, lone-take, lone-free, lone-buddy}

-- The loop over the small orders sets their lists only.
record IsKept (order : ℕ) (g g' : Group) : Type 0 where
  lists : (k : ℕ) → k < order → g'.freelist k ≡ g.freelist k
  bases : g'.base ≡ g.base
  ends : g'.end_page ≡ g.end_page
  maps : (k i : ℕ) → g'.map k i ≡ g.map k i

fill_small-IsKept :
    (n order npages e : ℕ) (g : Group) → IsKept order g (fill_small n order npages e g).0
unfolding fill_small
fill_small-IsKept zero order npages e g = record {
  lists = λ k h. refl;
  bases = refl;
  ends = refl;
  maps = λ k i. refl;
}
fill_small-IsKept (suc n) order npages e g = elim (Bool-cases (npages / pages order % 2 == 1)) [
  | inl y ↦
      let v =
        fill_small-IsKept n (suc order) npages (e - pages order)
          (set_list g order ((e - pages order) ∷ [])) in
      record {
        lists = λ k h. ground (arith, y, v.lists k, h);
        bases = ground (arith, y, v.bases);
        ends = ground (arith, y, v.ends);
        maps = λ k i. ground (arith, y, v.maps k i);
      }
  | inr m ↦
      let v = fill_small-IsKept n (suc order) npages e (set_list g order []) in
      record {
        lists = λ k h. ground (arith, m, v.lists k, h);
        bases = ground (arith, m, v.bases);
        ends = ground (arith, m, v.ends);
        maps = λ k i. ground (arith, m, v.maps k i);
      }
]

fill_small-odd :
    (n order npages e : ℕ) (g : Group)
    → npages / pages order % 2 ≡ 1
    → fill_small (suc n) order npages e g
      ≡ fill_small n
          (suc order)
          npages
          (e - pages order)
          (set_list g order ((e - pages order) ∷ []))
unfolding fill_small
fill_small-odd n order npages e g odd = ground (arith, odd)

module _ (reclaim : Pages → Outcome Pages) (g g' : Group) (a n : ℕ) where
  page_alloc-one :
      is_empty (g.freelist 0) ≡ false
      → take_head g 0 (g.freelist 0) ≡ ok (g', a)
      → page_alloc reclaim (record { groups = g ∷ []; freecount = n })
        ≡ ok (record { groups = g' ∷ []; freecount = count_down n 1 }, some a)
  unfolding page_alloc alloc_order take_block
  page_alloc-one full e = ground (arith, full, e)

page_free-one :
    (g : Group) (a n : ℕ)
    → g.base ≤ a
    → a < g.end_page
    → free_in g 0 a ≡ astray
    → page_free (record { groups = g ∷ []; freecount = n }) a ≡ astray
unfolding page_free free_order
page_free-one g a n l r e = ground (arith, l, r, e)

ltb-lt : (m n : ℕ) → m < n → ltb m n ≡ true
ltb-lt m n h = ground (arith, h)

page_add_range-first :
    (start end_page : ℕ)
    → (group_create start end_page).base < (group_create start end_page).end_page
    → page_add_range page_init start end_page ≡ record {
      groups = group_create start end_page ∷ [];
      freecount =
          count_up 0 ((group_create start end_page).end_page - (group_create start end_page).base);
    }
unfolding page_add_range
page_add_range-first start end_page h =
    ap
      (λ b.
        if b
        then record {
          groups = group_create start end_page ∷ [];
          freecount =
              count_up 0
                ((group_create start end_page).end_page - (group_create start end_page).base);
        }
        else page_init)
      (ltb-lt (group_create start end_page).base (group_create start end_page).end_page h)

module _ (start end_page : ℕ) (some_page : start < usable_end start end_page)
    (odd : (usable_end start end_page - start) % 2 ≡ 1) where
  abbrev e : ℕ
  e = usable_end start end_page

  abbrev blank : Group
  blank = record { base = start; end_page = e; freelist = λ k. []; map = no_bits }

  abbrev made : Group
  made = group_create start end_page

  kept : IsKept 1 (set_list blank 0 ((e - 1) ∷ [])) (fill_small 7 0 (e - start) e blank).0
  kept =
      subst (λ x. IsKept 1 (set_list blank 0 ((e - 1) ∷ [])) x.0)
        (sym (fill_small-odd 6 0 (e - start) e blank (omega (arith, odd))))
        (fill_small-IsKept 6 1 (e - start) (e - 1) (set_list blank 0 ((e - 1) ∷ [])))

  first_list : made.freelist 0 ≡ (e - 1) ∷ []
  unfolding group_create
  first_list = kept.lists 0 (omega arith)

  made_base : made.base ≡ start
  unfolding group_create
  made_base = kept.bases

  made_end : made.end_page ≡ e
  unfolding group_create
  made_end = kept.ends

  made_map : (i : ℕ) → made.map 1 i ≡ false
  unfolding group_create
  made_map i = kept.maps 1 i

  low : made.base ≤ e - 1
  low = omega (arith, made_base, some_page)

  high : e - 1 < made.end_page
  high = omega (arith, made_end, some_page)

  even : (e - 1 - made.base) % 2 ≡ 0
  even = omega (arith, odd, made_base, some_page)

  abbrev after : Group
  after = g1 made (e - 1) low high first_list even (made_map ((e - 1 - made.base) / 2))

  added :
      page_add_range page_init start end_page
      ≡ record { groups = made ∷ []; freecount = count_up 0 (made.end_page - made.base) }
  added = page_add_range-first start end_page (omega (arith, made_base, made_end, some_page))

  -- If the pages that the bit maps leave are an odd number: page_alloc in a kernel with just this
  -- range gives the last page; the buddy of that page is then the first page beyond the group and not
  -- on the free list of its order, yet page_free of the page takes it off that list, which writes to
  -- other memory.
  pub last_page-page_free :
      (reclaim : Pages → Outcome Pages)
      → (s : Pages) × (g : Group) × (page_alloc reclaim (page_add_range page_init start end_page)
          ≡ ok (s, some (e - 1)))
        × (s.groups ≡ g ∷ [])
        × (g.end_page ≡ e)
        × (buddy_of g 0 (e - 1) ≡ e)
        × (count e (g.freelist 0) ≡ 0)
        × (page_free s (e - 1) ≡ astray)
  last_page-page_free reclaim = (
    record {
      groups = after ∷ [];
      freecount = count_down (count_up 0 (made.end_page - made.base)) 1;
    },
    after,
    ap (page_alloc reclaim) added
        ∙ page_alloc-one reclaim made after (e - 1) (count_up 0 (made.end_page - made.base))
            (ground (arith, first_list))
            (lone-take made (e - 1) low high first_list even (made_map ((e - 1 - made.base) / 2))),
    refl,
    made_end,
    omega (
      arith,
      lone-buddy made (e - 1) low high first_list even (made_map ((e - 1 - made.base) / 2)),
      some_page,
    ),
    refl,
    page_free-one after (e - 1) (count_down (count_up 0 (made.end_page - made.base)) 1) low high
        (lone-free made (e - 1) low high first_list even (made_map ((e - 1 - made.base) / 2))),
  )
