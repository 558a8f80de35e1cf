-- ===== src/Pages/Create.antt =====
-- Groups of pages that are added to the page allocator, in kernel/mm/page.c. A range is given by
-- the pages that hold its first and its last address.
pub mod Fit
pub mod Last
use avengers.Prelude.{
  ℕ, zero, suc, ◌+◌, ◌-◌, ◌*◌, ◌/◌, ◌%◌, Bool, true, false, List, [], ◌∷◌, ◌++◌, ◌==◌, ltb,
  if◌then◌else◌,
}
use avengers.Pages.{count_up, Group, Pages, pages, top, set_list}

-- the bytes of the bit maps from an order on
abbrev pub map_bytes : ℕ → ℕ → ℕ → ℕ
map_bytes zero order npages = 0
map_bytes (suc n) order npages = (npages / pages order + 7) / 8 + map_bytes n (suc order) npages

-- sizeof (struct pagegroup), and the first page beyond those of the group
abbrev pub group_size : ℕ
group_size = 112

unfoldable pub usable_end : ℕ → ℕ → ℕ
usable_end start end_page =
    (end_page * 4096 - group_size - map_bytes top 1 (end_page - start)) / 4096

-- the loop that cuts pages off for the smaller orders; gives also the new end
unfoldable pub fill_small : ℕ → ℕ → ℕ → ℕ → Group → Group × ℕ
fill_small zero order npages end_page g = (g, end_page)
fill_small (suc n) order npages end_page g =
    let cut = end_page - pages order in
    if npages / pages order % 2 == 1
    then fill_small n (suc order) npages cut (set_list g order (cut ∷ []))
    else fill_small n (suc order) npages end_page (set_list g order [])

-- the loop that puts the rest on the list of the last order
unfoldable pub fill_top : ℕ → ℕ → ℕ → List ℕ → List ℕ
fill_top zero current end_page xs = xs
fill_top (suc n) current end_page xs =
    if ltb current end_page then fill_top n (current + 128) end_page (current ∷ xs) else xs

abbrev pub no_bits : ℕ → ℕ → Bool
no_bits order i = false

-- `_pagegroup_create`; fuel for as many blocks as there are pages
unfoldable pub group_create : ℕ → ℕ → Group
unfolding usable_end fill_small fill_top
group_create start end_page =
    let e = usable_end start end_page in
    let g : Group = record { base = start; end_page = e; freelist = λ k. []; map = no_bits } in
    let (g', rest) = fill_small top 0 (e - start) e g in
    set_list g' top (fill_top (e - start) start rest [])

-- `page_init`
abbrev pub page_init : Pages
page_init = record { groups = []; freecount = 0 }

-- `page_add_range`
pub page_add_range : Pages → ℕ → ℕ → Pages
unfolding group_create
page_add_range s start end_page =
    let g = group_create start end_page in
    if ltb g.base g.end_page
    then record s {
      groups = s.groups ++ (g ∷ []);
      freecount = count_up s.freecount (g.end_page - g.base);
    }
    else s
