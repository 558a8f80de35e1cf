-- ===== src/Vmmap.antt =====
-- Address spaces (kernel/vm/vmmap.c, kernel/include/vm/vmmap.h): a map is the list of its areas, in
-- the order of `vmm_list`. All fields are the bit patterns of 32-bit words.
pub mod Hits
pub mod Remove
pub mod Unmap
pub mod Range
pub mod Clone
mod Tests
use avengers.Prelude.{
  ℕ, zero, suc, ◌+◌, ◌-◌, ◌*◌, ◌%◌, ◌^◌, Bool, true, false, ◌&&◌, Option, none, some, List, [], ◌∷◌,
  ◌++◌, ◌==◌, ltb, leb, if◌then◌else◌, is_none, length, Outcome, ok, panic, waits, ◌>>=◌, ◌>>◌,
  kassert,
}
use mathlib.Core.List.{reverse}

-- `vmarea_t`; `vmmap` is the map that `vma_vmmap` points to, `obj` the object of `vma_obj`.
pub record Vmarea : Type 0 where
  pub start : ℕ
  pub end : ℕ
  pub off : ℕ
  pub prot : ℕ
  pub flags : ℕ
  pub vmmap : Option ℕ
  pub obj : Option ℕ

abbrev pub word_mod : ℕ
word_mod = 2 ^ 32

-- -1 as a bit pattern
abbrev pub minus_one : ℕ
minus_one = 0xffffffff

-- ADDR_TO_PN(USER_MEM_LOW) and ADDR_TO_PN(USER_MEM_HIGH)
abbrev pub user_low : ℕ
user_low = 0x400

abbrev pub user_high : ℕ
user_high = 0xc0000

abbrev pub dir_lohi : ℕ
dir_lohi = 1

abbrev pub dir_hilo : ℕ
dir_hilo = 2

-- what the slab allocator hands out: nothing, or memory with any contents
abbrev pub Slab : Type 0
Slab = ℕ → Option Vmarea

-- `vmarea_alloc`: the memory of the `n`th request, with `vma_vmmap` cleared
pub area_alloc : Slab → ℕ → Option Vmarea
area_alloc slab n = elim (slab n) [ none ↦ none | some a ↦ some (record a { vmmap = none }) ]

-- the assertions of `vmmap_insert` on the new area
abbrev pub insertable : Vmarea → Bool
insertable a =
    is_none a.vmmap && (ltb a.start a.end && (leb user_low a.start && leb a.end user_high))

-- Does the new area go to the tail? Its loop looks at the first area only.
abbrev pub goes_last : List Vmarea → Vmarea → Bool
goes_last [] a = true
goes_last (v ∷ vs) a = ltb v.start a.start

-- The first area of a map keeps its null `vma_vmmap`.
pub insert_into : ℕ → List Vmarea → Vmarea → List Vmarea
insert_into map [] a = a ∷ []
insert_into map (v ∷ vs) a =
    let a' = record a { vmmap = some map } in
    if ltb v.start a.start then (v ∷ vs) ++ (a' ∷ []) else a' ∷ v ∷ vs

pub insert : ℕ → List Vmarea → Vmarea → Outcome (List Vmarea)
unfolding insert_into
insert map l a = do kassert (insertable a); ok (insert_into map l a)

abbrev pub covers : Vmarea → ℕ → Bool
covers a vfn = leb a.start vfn && ltb vfn a.end

pub lookup : List Vmarea → ℕ → Option Vmarea
lookup [] vfn = none
lookup (a ∷ l) vfn = if covers a vfn then some a else lookup l vfn

-- the loop of `vmmap_is_range_empty`
pub range_loop : List Vmarea → ℕ → ℕ → ℕ
range_loop [] s e = 1
range_loop (a ∷ l) s e = if leb s a.start && ltb a.end e then 0 else range_loop l s e

pub is_range_empty : List Vmarea → ℕ → ℕ → Outcome ℕ
unfolding range_loop
is_range_empty l s npages = do
  let e = (s + npages) % word_mod
  kassert (ltb s e && (leb user_low s && leb e user_high))
  ok (range_loop l s e)

-- the loops of `vmmap_find_range` over the areas, from the last and from the first
find_hilo : List Vmarea → List Vmarea → ℕ → Outcome ℕ
find_hilo map [] npages = ok minus_one
find_hilo map (a ∷ l) npages =
    let lo = (a.start + word_mod - npages) % word_mod in
    let rest = find_hilo map l npages in
    is_range_empty map lo ((a.start + word_mod - 1) % word_mod) >>= λ i.
    if i == 1 then ok lo else rest

find_lohi : List Vmarea → List Vmarea → ℕ → Outcome ℕ
find_lohi map [] npages = ok minus_one
find_lohi map (a ∷ l) npages =
    let lo = (a.end + 1) % word_mod in
    let rest = find_lohi map l npages in
    is_range_empty map lo ((a.end + npages) % word_mod) >>= λ i. if i == 1 then ok lo else rest

find_from : List Vmarea → List Vmarea → ℕ → ℕ → Outcome ℕ
unfolding find_hilo find_lohi
find_from map [] npages dir = ok minus_one
find_from map (a ∷ l) npages dir =
    if dir == dir_hilo
    then find_hilo map (reverse (a ∷ l)) npages
    else if dir == dir_lohi
    then find_lohi map (a ∷ l) npages
    else ok minus_one

pub find_range : List Vmarea → ℕ → ℕ → Outcome ℕ
unfolding find_from
find_range map npages dir = do kassert (ltb 0 npages); find_from map map npages dir

-- a change of an object's reference count
pub data RefOp : Type 0 where
  ref : ℕ → RefOp
  put : ℕ → RefOp

abbrev pub on_obj : (ℕ → RefOp) → Option ℕ → List RefOp
on_obj f none = []
on_obj f (some o) = f o ∷ []

-- The walk of `vmmap_remove`: the areas behind it, those ahead, the requests made to the slab
-- allocator and the changes of reference counts.
pub record Walk : Type 0 where
  pub before : List Vmarea
  pub rest : List Vmarea
  pub allocs : ℕ
  pub refs : List RefOp

pub data Next : Type 0 where
  stop : Walk → Next
  go : Walk → Next

-- Case 1: the new area for the pages above the gap goes to the tail, where the walk finds it only
-- if it is not at its last area, or to the head.
abbrev pub place : Bool → Walk → Vmarea → Vmarea → List Vmarea → Walk
place true w left right [] = record w { before = w.before ++ (left ∷ right ∷ []); rest = [] }
place true w left right (u ∷ us) = record w {
  before = w.before ++ (left ∷ []);
  rest = u ∷ us ++ (right ∷ []);
}
place false w left right rest = record w { before = right ∷ w.before ++ (left ∷ []); rest = rest }

-- `vmmap_remove` writes through the pointer that `vmarea_alloc` returned without a test.
split : Option Vmarea → ℕ → Walk → ℕ → ℕ → ℕ → Vmarea → List Vmarea → Outcome Next
split none map w lo hi npages v rest = panic
split (some fresh) map w lo hi npages v rest = do
  let right = record fresh { start = hi; end = v.end; obj = v.obj; prot = v.prot; flags = v.flags }
  let left = record v { off = (v.off + npages) % word_mod; end = lo }
  kassert (insertable right)
  let w' =
      place (goes_last (w.before ++ (left ∷ [])) right) w left (record right { vmmap = some map })
        rest
  ok (Next.go (record w' { allocs = suc w.allocs; refs = w.refs ++ on_obj RefOp.ref v.obj }))

-- one round of the loop of `vmmap_remove`
pub visit : Slab → ℕ → ℕ → ℕ → Walk → Vmarea → List Vmarea → Outcome Next
visit slab map lo npages w v rest =
    let hi = (lo + npages) % word_mod in
    if ltb v.start lo && ltb hi v.end
    then split (area_alloc slab w.allocs) map w lo hi npages v rest
    else if ltb v.start lo && (leb lo v.end && leb v.end hi)
    then ok (Next.go (record w { before = w.before ++ (record v { end = lo } ∷ []); rest = rest }))
    else if leb lo v.start && (ltb hi v.end && leb v.start hi)
    then ok (
        Next.go (record w {
          before =
              w.before
              ++ (record v {
                off = (v.off + lo + npages + word_mod - v.start) % word_mod;
                start = hi;
              }
                  ∷ []);
          rest = rest;
        }))
    else if leb lo v.start && leb v.end hi
    then ok (Next.go (record w { rest = rest; refs = w.refs ++ on_obj RefOp.put v.obj }))
    else if ltb lo v.start && ltb hi v.start
    then ok (Next.stop w)
    else ok (Next.go (record w { before = w.before ++ (v ∷ []); rest = rest }))

pub advance : Slab → ℕ → ℕ → ℕ → Walk → List Vmarea → Outcome Next
advance slab map lo npages w [] = ok (Next.stop w)
advance slab map lo npages w (v ∷ rest) = visit slab map lo npages w v rest

-- with no fuel left the walk is still going on
pub remove_loop : ℕ → Slab → ℕ → ℕ → ℕ → Walk → Outcome Walk
unfolding advance
remove_loop zero slab map lo npages w = waits
remove_loop (suc fuel) slab map lo npages w = advance slab map lo npages w w.rest >>= λ x. elim x [
  | Next.stop w' ↦ ok w'
  | Next.go w' ↦ remove_loop fuel slab map lo npages w'
]

-- Each area is visited, and at most one more for each area that is split.
pub remove : Slab → ℕ → List Vmarea → ℕ → ℕ → Outcome (ℕ × Walk)
remove slab map [] lo npages =
    ok (minus_one, record { before = []; rest = []; allocs = 0; refs = [] })
remove slab map (v ∷ l) lo npages =
    remove_loop (suc (2 * length (v ∷ l))) slab map lo npages
      (record { before = []; rest = v ∷ l; allocs = 0; refs = [] })
    >>= λ w. ok (0, w)
