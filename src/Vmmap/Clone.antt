-- ===== src/Vmmap/Clone.antt =====
-- vmmap_clone and vmmap_destroy (kernel/vm/vmmap.c).
use avengers.Prelude.{
  ℕ, suc, ◌+◌, ◌≤◌, ◌<◌, ◌≡◌, refl, ◌∙◌, Bool, Option, none, some, List, [], ◌∷◌, ◌++◌,
  if◌then◌else◌, All, Outcome, ok, ◌>>=◌, arith,
}
use avengers.Vmmap.{Vmarea, Slab, RefOp, user_low, user_high, area_alloc, insert, insert_into}
use avengers.Vmmap.Hits.{Weight, hits, hits-insert}
use avengers.Vmmap.Remove.{HasMemory}

put_shadowed : Option ℕ → List RefOp
put_shadowed none = []
put_shadowed (some p) = RefOp.put p ∷ []

-- An area gives up its object: the object itself if its operations have `ref`, else the one that it
-- shadows.
release : (ℕ → Bool) → (ℕ → Option ℕ) → Option ℕ → List RefOp
unfolding put_shadowed
release has_ref shadowed none = []
release has_ref shadowed (some o) =
    if has_ref o then RefOp.put o ∷ [] else put_shadowed (shadowed o)

-- `vmmap_destroy`: the changes of reference counts that it makes
pub destroy : (ℕ → Bool) → (ℕ → Option ℕ) → List Vmarea → List RefOp
unfolding release
destroy has_ref shadowed [] = []
destroy has_ref shadowed (a ∷ l) = release has_ref shadowed a.obj ++ destroy has_ref shadowed l

-- What `vmmap_clone` returns: the new map; or NULL, having destroyed the map that it was given.
pub data Cloned : Type 0 where
  cloned : List Vmarea → Cloned
  failed : List RefOp → Cloned

-- the area as `vmmap_clone` fills it in; its object stays what the memory held
copied : Option Vmarea → Vmarea → Option Vmarea
copied none a = none
copied (some fresh) a =
    some
      (record fresh { prot = a.prot; flags = a.flags; start = a.start; end = a.end; off = a.off })

-- `n` requests have been made to the slab allocator, and `acc` is the clone so far.
clone_loop : Slab → ℕ → List RefOp → ℕ → List Vmarea → List Vmarea → Outcome Cloned
clone_loop slab map undo n acc [] = ok (cloned acc)
clone_loop slab map undo n acc (a ∷ l) = elim (copied (area_alloc slab n) a) [
  | none ↦ ok (failed undo)
  | some c ↦ insert map acc c >>= λ acc'. clone_loop slab map undo (suc n) acc' l
]

pub clone : (ℕ → Bool) → (ℕ → Option ℕ) → Slab → ℕ → List Vmarea → Outcome Cloned
unfolding clone_loop
clone has_ref shadowed slab map l = clone_loop slab map (destroy has_ref shadowed l) 0 [] l

-- an area that `vmmap_insert` accepts, once it belongs to no map
abbrev pub InBounds : Vmarea → Type 0
InBounds a = (a.start < a.end) × (user_low ≤ a.start) × (a.end ≤ user_high)

-- a weight that does not depend on the object
abbrev pub no_obj : (ℕ → ℕ → ℕ) → Weight
no_obj w o p f = w p f

insert-ok :
    (map : ℕ) (l : List Vmarea) (a : Vmarea)
    → a.vmmap ≡ none
    → InBounds a
    → insert map l a ≡ ok (insert_into map l a)
unfolding insert
insert-ok map l a e b = ground arith

copied-ok :
    (slab : Slab) (n : ℕ) (a : Vmarea)
    → HasMemory slab
    → (c : Vmarea) × (copied (area_alloc slab n) a ≡ some c)
      × (c.vmmap ≡ none)
      × (c.start ≡ a.start)
      × (c.end ≡ a.end)
      × (c.prot ≡ a.prot)
      × (c.flags ≡ a.flags)
      × (c.off ≡ a.off)
unfolding copied area_alloc
copied-ok slab n a m =
    let (fresh, e) = m n in
    (
      record fresh {
        vmmap = none;
        prot = a.prot;
        flags = a.flags;
        start = a.start;
        end = a.end;
        off = a.off;
      },
      ground arith,
      refl,
      refl,
      refl,
      refl,
      refl,
      refl,
    )

clone_loop-cons :
    (slab : Slab) (map : ℕ) (undo : List RefOp) (n : ℕ) (acc l : List Vmarea) (a c : Vmarea)
    {acc' : List Vmarea}
    → copied (area_alloc slab n) a ≡ some c
    → insert map acc c ≡ ok acc'
    → clone_loop slab map undo n acc (a ∷ l) ≡ clone_loop slab map undo (suc n) acc' l
unfolding clone_loop
clone_loop-cons slab map undo n acc l a c e i = ground arith

clone_loop-cloned :
    (slab : Slab) (map : ℕ) (undo : List RefOp) (n : ℕ) (acc l : List Vmarea)
    → HasMemory slab
    → All InBounds l
    → (l' : List Vmarea) × (clone_loop slab map undo n acc l ≡ ok (cloned l'))
      × ((w : ℕ → ℕ → ℕ) (vfn : ℕ)
          → hits (no_obj w) vfn l' ≡ hits (no_obj w) vfn acc + hits (no_obj w) vfn l)
unfolding clone_loop
clone_loop-cloned slab map undo n acc [] m b = (acc, refl, λ w vfn. omega arith)
clone_loop-cloned slab map undo n acc (a ∷ l) m b =
    let (c, e, no_map, st, en, pr, fl, of) = copied-ok slab n a m in
    let i = insert-ok map acc c no_map (omega arith) in
    let (l', r, h) = clone_loop-cloned slab map undo (suc n) (insert_into map acc c) l m b.1 in
    (
      l',
      clone_loop-cons slab map undo n acc l a c e i ∙ r,
      λ w vfn. ground (arith, h w vfn, hits-insert (no_obj w) vfn map acc c i),
    )

-- If memory does not run out, cloning a map whose areas are not empty and lie in user memory fails
-- no assertion, and the clone maps every page as often as the map with each protection and flags.
pub clone_same :
    (has_ref : ℕ → Bool) (shadowed : ℕ → Option ℕ) (slab : Slab) (map : ℕ) (l : List Vmarea)
    → HasMemory slab
    → All InBounds l
    → (l' : List Vmarea) × (clone has_ref shadowed slab map l ≡ ok (cloned l'))
      × ((w : ℕ → ℕ → ℕ) (vfn : ℕ) → hits (no_obj w) vfn l' ≡ hits (no_obj w) vfn l)
unfolding clone
clone_same has_ref shadowed slab map l m b =
    let (l', r, h) = clone_loop-cloned slab map (destroy has_ref shadowed l) 0 [] l m b in
    (l', r, λ w vfn. omega (arith, h w vfn))
