-- ===== src/Pages/Lone.antt =====
-- A page whose buddy is beyond the end of its group, in kernel/mm/page.c.
use avengers.Prelude.{ℕ, ◌+◌, ◌-◌, ◌/◌, ◌%◌, ◌≤◌, ◌<◌, ◌≡◌, false, [], ◌∷◌, arith, ok, astray}
use avengers.Pages.{
  Group, set_list, insert_block, flip, take_head, buddy_of, join_buddies, page_join, free_in,
}
use avengers.Pages.Parity.{index-runs, flip_above-runs}

module _ (g : Group) (a : ℕ) (l : g.base ≤ a) (r : a < g.end_page) (e : g.freelist 0 ≡ a ∷ [])
    (even : (a - g.base) % 2 ≡ 0) (clear : g.map 1 ((a - g.base) / 2) ≡ false) where
  abbrev pub g1 : Group
  g1 = flip (set_list g 0 []) 1 ((a - g.base) / 2)

  pub lone-take : take_head g 0 (g.freelist 0) ≡ ok (g1, a)
  unfolding take_head
  lone-take = ground (arith, e, flip_above-runs (set_list g 0 []) 0 a l r)

  abbrev g2 : Group
  g2 = flip (insert_block g1 0 a) 1 ((a - g.base) / 2)

  pub lone-buddy : buddy_of g1 0 a ≡ a + 1
  unfolding buddy_of
  lone-buddy = ground (arith, even)

  no_buddy : join_buddies g2 0 a ≡ astray
  unfolding join_buddies buddy_of
  no_buddy = ground (arith, even)

  joins_nothing : page_join 7 g2 0 a ≡ astray
  unfolding page_join
  joins_nothing = ground (arith, index-runs g2 1 a (omega arith) l r, clear, no_buddy)

  pub lone-free : free_in g1 0 a ≡ astray
  unfolding free_in
  lone-free = ground (arith, index-runs (insert_block g1 0 a) 1 a (omega arith) l r, joins_nothing)
