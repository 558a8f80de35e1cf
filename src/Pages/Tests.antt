-- ===== src/Pages/Tests.antt =====
-- Examples of the page allocator, kernel/mm/page.c.
use mathlib.Core.Path.{subst}
use avengers.Prelude.{
  ℕ, zero, suc, ◌-◌, ◌≤◌, ◌<◌, ◌≡◌, refl, sym, ◌∙◌, false, ◌&&◌, ltb, leb, if◌then◌else◌, Option,
  none, some, [], ◌∷◌, count, get_elem?, ◌⊎◌, arith, Outcome, ok, panic, waits, astray, ◌>>=◌,
}
use avengers.Pages.{
  Group, Pages, insert_block, buddy_of, set_group, page_split, taken, take_block, alloc_order,
  free_order, page_alloc, page_free, split_block, split_down, take_head, flip_above, index,
  split_target, split_head,
}
use avengers.Pages.Blocks.{covered}
use avengers.Pages.Valid.{IsBuddy}
use avengers.Pages.Find.{NoBlock}
use avengers.Pages.Create.{
  usable_end, fill_small, fill_top, group_create, page_init, page_add_range,
}
use avengers.Pages.Create.Fit.{group_create-IsBuddy}
use avengers.Pages.Create.Last.{last_page-page_free}
use avengers.Pages.Alloc.{AllBuddy, Taken, alloc_order-cases}
use avengers.Pages.Parity.{flipped}
use avengers.Pages.Roundtrip.{Apart, alloc_order-free_order}

abbrev idle : Pages → Outcome Pages
idle s = ok s

-- 129 pages, of which the bit maps and the struct take the last
usable_129 : usable_end 0 129 ≡ 128
unfolding usable_end
usable_129 = refl

fresh-IsBuddy :
    IsBuddy (group_create 0 129)
    × ((p : ℕ)
        → covered (group_create 0 129) p ≡ (if leb 0 p && ltb p (usable_end 0 129) then 1 else 0))
fresh-IsBuddy = group_create-IsBuddy 0 129 (omega (arith, usable_129)) (omega (arith, usable_129))

abbrev fresh : Pages
fresh = record { groups = group_create 0 129 ∷ []; freecount = 128 }

-- The list has one group.
one_at : (g h : Group) (i : ℕ) → get_elem? (g ∷ []) i ≡ some h → (i ≡ 0) × (g ≡ h)
one_at g h zero e = (refl, ground (arith, e))
one_at g h (suc i) e = ground (arith, e)

one-AllBuddy : (g : Group) → IsBuddy g → AllBuddy (g ∷ [])
one-AllBuddy g v i h e = subst IsBuddy (one_at g h i e).1 v

one-Apart : (g : Group) → Apart (g ∷ [])
one-Apart g a i j (h, e, l, r) (k, f, m, n) = (one_at g h i e).0 ∙ sym (one_at g k j f).0

usable_from_1 : usable_end 1 130 ≡ 129
unfolding usable_end
usable_from_1 = refl

usable_130 : usable_end 0 130 ≡ 129
unfolding usable_end
usable_130 = refl

alloc_order-cases_example :
    ((s' : Pages) × (a : ℕ) × (alloc_order idle fresh 2 ≡ ok (s', some a)) × Taken fresh 2 s' a)
    ⊎ ((alloc_order idle fresh 2 ≡ idle fresh >>= λ s'. ok (s', none))
        × ((j : ℕ) → 2 ≤ j → j < 8 → NoBlock j fresh.groups))
alloc_order-cases_example =
    alloc_order-cases idle fresh 2 (omega arith) (one-AllBuddy (group_create 0 129) fresh-IsBuddy.0)

state_of : Outcome (Pages × Option ℕ) → Pages
state_of (ok (s, a)) = s
state_of panic = page_init
state_of waits = page_init
state_of astray = page_init

-- The splits leave page 127 at the head.
takes_127 : alloc_order idle fresh 0 ≡ ok (state_of (alloc_order idle fresh 0), some 127)
unfolding alloc_order page_split taken take_block take_head split_block split_down split_target
    split_head flip_above index group_create fill_small fill_top usable_end state_of
takes_127 = refl

alloc_order-free_order_example :
    (i : ℕ) × (g g' : Group) × (get_elem? fresh.groups i ≡ some g)
    × (free_order (state_of (alloc_order idle fresh 0)) 127 0
        ≡ ok (record (set_group fresh i g') { freecount = 128 }))
    × IsBuddy g'
    × ((p : ℕ) → covered g' p ≡ covered g p)
alloc_order-free_order_example =
    alloc_order-free_order idle fresh (state_of (alloc_order idle fresh 0)) 0 127
      (one-AllBuddy (group_create 0 129) fresh-IsBuddy.0) (one-Apart (group_create 0 129))
      (omega arith) (omega arith) takes_127

-- A group of 4 pages, none of which is free
abbrev used_up : Group
used_up = record { base = 0; end_page = 4; freelist = λ k. []; map = λ k i. false }

-- The first two of its pages are free.
abbrev half_free : Group
half_free = flipped (insert_block used_up 1 0) 1 0

abbrev some_free : Pages
some_free = record { groups = half_free ∷ []; freecount = 2 }

group_create-IsBuddy_example :
    IsBuddy (group_create 1 130)
    × ((p : ℕ)
        → covered (group_create 1 130) p ≡ (if leb 1 p && ltb p (usable_end 1 130) then 1 else 0))
group_create-IsBuddy_example =
    group_create-IsBuddy 1 130 (omega (arith, usable_from_1)) (omega (arith, usable_from_1))

last_page-page_free_example :
    (s : Pages) × (g : Group) × (page_alloc idle (page_add_range page_init 0 130)
      ≡ ok (s, some (usable_end 0 130 - 1)))
    × (s.groups ≡ g ∷ [])
    × (g.end_page ≡ usable_end 0 130)
    × (buddy_of g 0 (usable_end 0 130 - 1) ≡ usable_end 0 130)
    × (count (usable_end 0 130) (g.freelist 0) ≡ 0)
    × (page_free s (usable_end 0 130 - 1) ≡ astray)
last_page-page_free_example =
    last_page-page_free 0 130 (omega (arith, usable_130)) (omega (arith, usable_130)) idle
