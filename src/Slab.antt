-- ===== src/Slab.antt =====
-- The slab allocator, kernel/mm/slab.c, with red zones and checks of free objects as slab.h sets
-- them. An object is the address of its front red zone; the word of its bufctl is the union of the
-- next free object and of the containing slab, both addresses.
pub mod Sizes
pub mod Valid
pub mod Taken
pub mod Grown
pub mod Added
pub mod Alloc
pub mod Given
pub mod Malloc
pub mod Reclaim
mod Tests
use avengers.Prelude.{
  ℕ, zero, suc, ◌+◌, ◌-◌, ◌*◌, Bool, true, false, not, ◌&&◌, Option, none, some, List, [], ◌∷◌,
  ◌==◌, ltb, if◌then◌else◌, Outcome, ok, panic, waits, ◌>>=◌, ◌>>◌, kassert,
}

-- `struct slab`
pub record Slab : Type 0 where
  pub inuse : ℕ
  pub free : Option ℕ
  pub start : ℕ

-- `struct slab_allocator`, its chain of slabs as the List of their addresses, and the memory of the
-- slabs: of each object the word and the mark of its bufctl, and whether its red zones are intact
pub record Cache : Type 0 where
  pub objsize : ℕ
  pub order : ℕ
  pub nobjs : ℕ
  pub slabs : List ℕ
  pub slab : ℕ → Slab
  pub word : ℕ → Option ℕ
  pub is_free : ℕ → Bool
  pub intact : ℕ → Bool

abbrev pub at {ℓ} : {A : Type ℓ} → ℕ → A → (ℕ → A) → ℕ → A
at a v f k = if k == a then v else f k

-- next_obj, with the 8 bytes of a bufctl
abbrev pub next_obj : Cache → ℕ → ℕ
next_obj c obj = obj + c.objsize + 8

-- the loops of `_slab_allocator_grow` over the objects but the last; gives also the last
pub link_objs : ℕ → Cache → ℕ → Cache × ℕ
link_objs zero c obj = (c, obj)
link_objs (suc n) c obj =
    let c' = record c {
      is_free = at obj true c.is_free;
      word = at obj (some (next_obj c obj)) c.word;
      intact = at obj true c.intact;
    } in
    link_objs n c' (next_obj c obj)

-- `_slab_allocator_grow` with its pages; for at least one object in a slab
pub add_slab : Cache → ℕ → Cache
unfolding link_objs
add_slab c addr =
    let (c', obj) = link_objs (c.nobjs - 1) c addr in
    let s = next_obj c obj in
    record c' {
      is_free = at obj true c'.is_free;
      word = at obj none c'.word;
      intact = at obj true c'.intact;
      slab = at s (record { inuse = 0; free = some addr; start = addr }) c'.slab;
      slabs = s ∷ c'.slabs;
    }

-- `_slab_allocator_grow`; page_alloc_n is a parameter, since it may reclaim slabs
pub grow : (Cache → ℕ → Outcome (Cache × Option ℕ)) → Cache → Outcome (Cache × Bool)
unfolding add_slab
grow pages c = pages c c.order >>= added
  where
    added : Cache × Option ℕ → Outcome (Cache × Bool)
    added (c', none) = ok (c', false)
    added (c', some addr) = ok (add_slab c' addr, true)

-- the loop of slab_obj_alloc over the slabs, and the test after it
abbrev pub find_slab : Cache → List ℕ → Option ℕ
find_slab c [] = none
find_slab c (s ∷ ss) =
    let rest = find_slab c ss in
    if (c.slab s).inuse == c.nobjs
    then rest
    else if ltb (c.slab s).inuse c.nobjs
    then some s
    else none

-- slab_obj_alloc once it has found a slab
pub take_obj : Cache → ℕ → ℕ → Outcome (Cache × Option ℕ)
take_obj c s obj =
    let t = c.slab s in
    kassert (c.intact obj)
    >> ok (
      record c {
        slab = at s (record t { free = c.word obj; inuse = t.inuse + 1 }) c.slab;
        word = at obj (some s) c.word;
        is_free = at obj false c.is_free;
      },
      some (obj + 4),
    )

pub take_from : Cache → ℕ → Outcome (Cache × Option ℕ)
unfolding take_obj
take_from c s = elim ((c.slab s).free) [ none ↦ panic | some obj ↦ take_obj c s obj ]

-- the loop of slab_obj_alloc: some rounds
pub alloc_loop : ℕ → (Cache → ℕ → Outcome (Cache × Option ℕ)) → Cache → Outcome (Cache × Option ℕ)
unfolding take_from
alloc_loop zero pages c = waits
alloc_loop (suc n) pages c =
    let again =
      grow pages c >>= λ (c', grown). if grown then alloc_loop n pages c' else ok (c', none) in
    elim (find_slab c c.slabs) [ none ↦ again | some s ↦ take_from c s ]

-- `slab_obj_alloc`; a slab that has just been added has a free object
pub slab_obj_alloc : (Cache → ℕ → Outcome (Cache × Option ℕ)) → Cache → Outcome (Cache × Option ℕ)
unfolding alloc_loop
slab_obj_alloc pages c = alloc_loop 2 pages c

-- `slab_obj_free` for an object by the address of its front red zone, with its slab
pub give_obj : Cache → ℕ → ℕ → Cache
give_obj c obj s =
    let t = c.slab s in
    record c {
      is_free = at obj true c.is_free;
      word = at obj t.free c.word;
      slab = at s (record t { free = some obj; inuse = t.inuse - 1 }) c.slab;
    }

-- `slab_obj_free`
pub slab_obj_free : Cache → ℕ → Outcome Cache
unfolding give_obj
slab_obj_free c addr =
    let obj = addr - 4 in
    kassert (c.intact obj)
    >> kassert (not (c.is_free obj))
    >> elim (c.word obj) [ none ↦ panic | some s ↦ ok (give_obj c obj s) ]
