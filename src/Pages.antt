-- ===== src/Pages.antt =====
-- The page allocator, kernel/mm/page.c. Addresses of pages are page numbers (an address shifted by
-- PAGE_SHIFT, as all that the allocator handles are page-aligned); a list of free blocks is the
-- List of their first pages, head first, and a bit map a function from orders and indices.
pub mod Create
pub mod Blocks
pub mod Align
pub mod Parity
pub mod Valid
pub mod Split
pub mod Find
pub mod Alloc
pub mod Buddy
pub mod Join
pub mod Free
pub mod Roundtrip
pub mod Joined
pub mod Lone
mod Tests
use avengers.Prelude.{
  ℕ, zero, suc, ◌+◌, ◌-◌, ◌*◌, ◌/◌, ◌%◌, ◌^◌, Bool, true, false, not, ◌&&◌, Option, none, some,
  List, [], ◌∷◌, ◌++◌, ◌==◌, ltb, leb, if◌then◌else◌, count, erase, get_elem?, set, Outcome, ok,
  panic, astray, ◌>>=◌, ◌>>◌, kassert,
}

-- `struct pagegroup`
pub record Group : Type 0 where
  pub base : ℕ
  pub end_page : ℕ
  pub freelist : ℕ → List ℕ
  pub map : ℕ → ℕ → Bool

-- `pagegroup_list` and `page_freecount`
pub record Pages : Type 0 where
  pub groups : List Group
  pub freecount : ℕ

-- PAGE_NSIZES and the last order
abbrev pub nsizes : ℕ
nsizes = 8

abbrev pub top : ℕ
top = 7

-- 1 << order
abbrev pub pages : ℕ → ℕ
pages zero = 1
pages (suc order) = 2 * pages order

abbrev pub set_list : Group → ℕ → List ℕ → Group
set_list g order xs = record g { freelist = λ k. if k == order then xs else g.freelist k }

abbrev pub insert_block : Group → ℕ → ℕ → Group
insert_block g order a = set_list g order (a ∷ g.freelist order)

-- bit_flip on the map of an order
abbrev pub flip : Group → ℕ → ℕ → Group
flip g order i = record g {
  map = λ k j. if k == order && j == i then not (g.map k j) else g.map k j;
}

-- `_pagegroup_calculate_index`; the third assertion holds of every page-aligned address.
pub index : Group → ℕ → ℕ → Outcome ℕ
index g order a =
    kassert (ltb order nsizes)
    >> kassert (leb g.base a && ltb a g.end_page)
    >> ok ((a - g.base) / pages order)

-- The bit of the pair of buddies changes when a block of an order below the last comes or goes.
pub flip_above : Group → ℕ → ℕ → Outcome Group
unfolding index
flip_above g order a =
    if ltb order top then (index g (suc order) a >>= λ i. ok (flip g (suc order) i)) else ok g

-- `__page_split` once the block is off its list
pub split_target : Group → ℕ → ℕ → Outcome Group
split_target g o t = do
  g1 ← flip_above g (suc o) t
  i ← index g1 (suc o) t
  kassert (not (g1.map (suc o) i))
  ok (insert_block (insert_block g1 o t) o (t + pages o))

pub split_head : Group → ℕ → List ℕ → Outcome Group
unfolding split_target
split_head g o [] = panic
split_head g o (t ∷ rest) = split_target (set_list g (suc o) rest) o t

pub split_block : Group → ℕ → Outcome Group
unfolding split_head
split_block g zero = panic
split_block g (suc o) = kassert (ltb (suc o) nsizes) >> split_head g o (g.freelist (suc o))

-- the inner loop of `_page_split`, from a block that is a number of orders larger
pub split_down : ℕ → Group → ℕ → Outcome Group
unfolding split_block
split_down zero g order = ok g
split_down (suc k) g order = split_block g (suc (k + order)) >>= λ g'. split_down k g' order

abbrev pub is_empty : List ℕ → Bool
is_empty [] = true
is_empty (x ∷ xs) = false

-- the first group with a free block of an order
abbrev pub find_group : ℕ → List Group → Option ℕ
find_group order [] = none
find_group order (g ∷ gs) =
    let rest = elim (find_group order gs) as (λ x. Option ℕ) [
      | none ↦ none
      | some i ↦ some (suc i)
    ] in
    if is_empty (g.freelist order) then rest else some 0

-- the loop over the larger orders: how much larger the block is, and its group
abbrev pub find_larger : ℕ → ℕ → ℕ → List Group → Option (ℕ × ℕ)
find_larger zero k order gs = none
find_larger (suc n) k order gs = elim (find_group (k + order) gs) [
  | none ↦ find_larger n (suc k) order gs
  | some i ↦ some (k, i)
]

abbrev pub group_at : List Group → ℕ → Outcome Group
group_at gs i = elim (get_elem? gs i) [ none ↦ panic | some g ↦ ok g ]

-- the steps of the 32-bit page_freecount
unfoldable pub count_up : ℕ → ℕ → ℕ
count_up count n = (count + n) % 2 ^ 32

unfoldable pub count_down : ℕ → ℕ → ℕ
count_down count n = (count + 2 ^ 32 - n) % 2 ^ 32

abbrev pub set_group : Pages → ℕ → Group → Pages
set_group s i g = record s { groups = set s.groups i g }

-- `_page_split`, which reclaims memory of the slab allocator once no block is found, and fails
-- nevertheless
pub page_split : (Pages → Outcome Pages) → Pages → ℕ → Outcome (Pages × Option ℕ)
page_split reclaim s order = elim (find_larger (top - order) 1 order s.groups) [
  | none ↦ reclaim s >>= λ s'. ok (s', none)
  | some (k, i) ↦
      group_at s.groups i >>= λ g. split_down k g order >>= λ g'. ok (set_group s i g', some i)
]

-- the head of a free list as the allocated block
pub take_head : Group → ℕ → List ℕ → Outcome (Group × ℕ)
take_head g order [] = panic
take_head g order (a ∷ rest) = flip_above (set_list g order rest) order a >>= λ g'. ok (g', a)

pub take_block : Pages → ℕ → ℕ → Outcome (Pages × Option ℕ)
unfolding take_head
take_block s i order = do
  g ← group_at s.groups i
  (g', a) ← take_head g order (g.freelist order)
  ok (record (set_group s i g') { freecount = count_down s.freecount (pages order) }, some a)

pub taken : ℕ → Pages × Option ℕ → Outcome (Pages × Option ℕ)
unfolding take_block
taken order (s, none) = ok (s, none)
taken order (s, some i) = take_block s i order

-- `_page_alloc_order`
pub alloc_order : (Pages → Outcome Pages) → Pages → ℕ → Outcome (Pages × Option ℕ)
unfolding page_split taken
alloc_order reclaim s order = elim (find_group order s.groups) [
  | none ↦ page_split reclaim s order >>= λ r. taken order r
  | some i ↦ take_block s i order
]

-- list_remove follows the pointers of the link: one that is not on the list leads it to write to
-- other memory.
abbrev pub remove : ℕ → List ℕ → Outcome (List ℕ)
remove a xs = if ltb 0 (count a xs) then ok (erase a xs) else astray

unfoldable pub buddy_of : Group → ℕ → ℕ → ℕ
buddy_of g order a =
    if (a - g.base) / pages order % 2 == 1 then a - pages order else a + pages order

abbrev pub lower : ℕ → ℕ → ℕ
lower a b = if ltb a b then a else b

-- one round of `__page_join`
pub join_buddies : Group → ℕ → ℕ → Outcome (Group × ℕ)
join_buddies g order a = do
  let buddy = buddy_of g order a
  xs ← remove a (g.freelist order)
  ys ← remove buddy xs
  let m = lower a buddy
  g' ← flip_above (insert_block (set_list g order ys) (suc order) m) (suc order) m
  ok (g', m)

-- `__page_join`, with the number of orders up to the last
pub page_join : ℕ → Group → ℕ → ℕ → Outcome Group
unfolding join_buddies
page_join zero g order a = ok g
page_join (suc k) g order a = do
  i ← index g (suc order) a
  let again = join_buddies g order a >>= λ (g', m). page_join k g' (suc order) m
  if g.map (suc order) i then ok g else again

-- `_page_free_order` in its group
pub free_in : Group → ℕ → ℕ → Outcome Group
unfolding page_join index
free_in g order a =
    let g1 = insert_block g order a in
    if ltb order top
    then (index g1 (suc order) a >>= λ i. page_join (top - order) (flip g1 (suc order) i) order a)
    else ok g1

-- `_pagegroup_from_address`
abbrev pub group_from : ℕ → List Group → Option ℕ
group_from a [] = none
group_from a (g ∷ gs) =
    let rest = elim (group_from a gs) as (λ x. Option ℕ) [ none ↦ none | some i ↦ some (suc i) ] in
    if leb g.base a && ltb a g.end_page then some 0 else rest

-- `_page_free_order`
pub free_order : Pages → ℕ → ℕ → Outcome Pages
free_order s a order = elim (group_from a s.groups) [
  | none ↦ ok s
  | some i ↦ group_at s.groups i >>= λ g. free_in g order a >>= λ g'.
      ok (record (set_group s i g') { freecount = count_up s.freecount (pages order) })
]

pub page_alloc : (Pages → Outcome Pages) → Pages → Outcome (Pages × Option ℕ)
page_alloc reclaim s = alloc_order reclaim s 0

pub page_free : Pages → ℕ → Outcome Pages
page_free s a = free_order s a 0

-- `size >= (int)npages`: from 2 ^ 31 on the cast is negative
abbrev fits_int : ℕ → ℕ → Bool
fits_int size npages = if ltb npages (2 ^ 31) then leb npages size else true

-- the loop over the orders in `page_alloc_n` and `page_free_n`
abbrev pub order_of : ℕ → ℕ → ℕ → Outcome ℕ
order_of zero order npages = panic
order_of (suc n) order npages =
    let rest = order_of n (suc order) npages in
    if fits_int (pages order) npages then ok order else rest

pub page_alloc_n : (Pages → Outcome Pages) → Pages → ℕ → Outcome (Pages × Option ℕ)
page_alloc_n reclaim s npages = order_of nsizes 0 npages >>= λ order. alloc_order reclaim s order

pub page_free_n : Pages → ℕ → ℕ → Outcome Pages
page_free_n s a npages = order_of nsizes 0 npages >>= λ order. free_order s a order

pub page_free_count : Pages → ℕ
page_free_count s = s.freecount
