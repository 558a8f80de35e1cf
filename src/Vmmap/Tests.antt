-- ===== src/Vmmap/Tests.antt =====
-- Runs of kernel/vm/vmmap.c, and the theorems at concrete inputs.
use avengers.Prelude.{ℕ, ◌≡◌, refl, none, some, List, [], ◌∷◌, ◌↔◌, ok}
use avengers.Vmmap.{
  Vmarea, Slab, RefOp, lookup, find_range, find_from, remove, remove_loop, advance, visit, split,
  area_alloc, minus_one,
}
use avengers.Vmmap.Hits.{hits, one, lookup-none_iff}

-- an area of the pages from `s` up to `e`, of the object 7
abbrev area : ℕ → ℕ → Vmarea
area s e = record { start = s; end = e; off = 0; prot = 3; flags = 2; vmmap = some 1; obj = some 7 }

abbrev slab : Slab
slab n = some (area 0 0)

abbrev two : List Vmarea
two = area 0x500 0x510 ∷ area 0x600 0x610 ∷ []

-- Four pages are cut out of the middle of the first area: the part above them is put at the tail.
remove_splits :
    remove slab 1 two 0x504 4
    ≡ ok (
      0,
      record {
        before = record (area 0x500 0x504) { off = 4 } ∷ [];
        rest = area 0x600 0x610 ∷ area 0x508 0x510 ∷ [];
        allocs = 1;
        refs = RefOp.ref 7 ∷ [];
      },
    )
unfolding remove remove_loop advance visit split area_alloc
remove_splits = refl

lookup-none_iff_example : (lookup two 0x520 ≡ none) ↔ (hits one 0x520 two ≡ 0)
lookup-none_iff_example = lookup-none_iff two 0x520

-- No range is found in a map with no areas.
find_range_of_empty : find_range [] 4 1 ≡ ok minus_one
unfolding find_range find_from
find_range_of_empty = refl
