-- ===== src/Vmmap/Unmap.antt =====
-- The loop of vmmap_remove (kernel/vm/vmmap.c) as a whole.
use avengers.Prelude.{
  ℕ, zero, suc, ◌+◌, ◌*◌, ◌%◌, ◌≤◌, ◌<◌, ◌≡◌, refl, ap, ◌&&◌, none, some, List, [], ◌∷◌, ◌++◌, leb,
  ltb, if◌then◌else◌, length, ok, arith, ◌∙◌,
}
use avengers.Vmmap.{
  Vmarea, Slab, RefOp, word_mod, on_obj, split, area_alloc, Walk, Next, user_low, user_high, visit,
  advance, remove_loop, remove, lookup,
}
use avengers.Vmmap.Hits.{Weight, hits, one, hits-append, lookup-none_iff}
use avengers.Vmmap.Remove.{IsFit, HasMemory, rounds, rounds-le, left_of, Advanced, visit-Visited}

-- the areas of the map when the walk ends
abbrev pub areas : Walk → List Vmarea
areas s = s.before ++ s.rest

module _ (lo hi npages : ℕ) (low : user_low ≤ lo) (some_pages : lo < hi) (high : hi ≤ user_high)
    (no_wrap : hi ≡ lo + npages) (slab : Slab) (map : ℕ) (memory : HasMemory slab) where
  -- The walk comes to its end, with the pages of the range unmapped ahead of it.
  abbrev Ends : ℕ → Walk → Type 0
  Ends fuel s =
      (s' : Walk) × (remove_loop fuel slab map lo npages s ≡ ok s')
      × ((w : Weight) (vfn : ℕ) → hits w vfn (areas s') ≡ left_of w vfn lo hi s)

  advance-nil : (s : Walk) → s.rest ≡ [] → advance slab map lo npages s s.rest ≡ ok (Next.stop s)
  unfolding advance
  advance-nil s e = ap (advance slab map lo npages s) e

  advance-cons :
      (s : Walk) (v : Vmarea) (l : List Vmarea)
      → s.rest ≡ v ∷ l
      → advance slab map lo npages s s.rest ≡ visit slab map lo npages s v l
  unfolding advance
  advance-cons s v l e = ap (advance slab map lo npages s) e

  after_round :
      (fuel : ℕ) (s : Walk) (v : Vmarea) (l : List Vmarea) (x : Next)
      → s.rest ≡ v ∷ l
      → rounds lo hi (v ∷ l) < suc fuel
      → advance slab map lo npages s s.rest ≡ ok x
      → Advanced lo hi npages low some_pages high no_wrap slab map s v l x
      → ((s' : Walk) → IsFit hi s'.rest → rounds lo hi s'.rest < fuel → Ends fuel s')
      → Ends (suc fuel) s
  unfolding remove_loop
  after_round fuel s v l (Next.stop s') e h eq adv again =
      (s', rw eq, λ w vfn. ground (arith, adv.0, adv.1 w vfn, e, hits-append w vfn s.before s.rest))
  after_round fuel s v l (Next.go s1) e h eq adv again =
      let (s', eq', m) = again s1 adv.0 (omega (arith, adv.1)) in
      (s', rw eq eq', λ w vfn. ground (arith, m w vfn, adv.2 w vfn, e))

  remove_loop_stops :
      (fuel : ℕ) (s : Walk)
      → advance slab map lo npages s s.rest ≡ ok (Next.stop s)
      → remove_loop (suc fuel) slab map lo npages s ≡ ok s
  unfolding remove_loop
  remove_loop_stops fuel s eq = rw eq

  remove_loop-Ends :
      (fuel : ℕ) (s : Walk) (l : List Vmarea)
      → s.rest ≡ l
      → IsFit hi l
      → rounds lo hi l < fuel
      → Ends fuel s
  remove_loop-Ends zero s l e f h = absurd (omega arith)
  remove_loop-Ends (suc fuel) s [] e f h = (
    s,
    remove_loop_stops fuel s (advance-nil s e),
    λ w vfn. ground (arith, e, hits-append w vfn s.before s.rest),
  )
  remove_loop-Ends (suc fuel) s (v ∷ l) e f h =
      let (x, eq, adv) =
        visit-Visited lo hi npages low some_pages high no_wrap slab map s v l f memory in
      after_round fuel s v l x e h (advance-cons s v l e ∙ eq) adv
        (λ s' f' h'. remove_loop-Ends fuel s' s'.rest refl f' h')

pub remove_unmaps :
    (slab : Slab) (map lo npages : ℕ) (v : Vmarea) (l : List Vmarea)
    → HasMemory slab
    → user_low ≤ lo
    → 0 < npages
    → lo + npages ≤ user_high
    → IsFit (lo + npages) (v ∷ l)
    → (s : Walk) × (remove slab map (v ∷ l) lo npages ≡ ok (0, s))
      × ((w : Weight) (vfn : ℕ)
          → hits w vfn (areas s)
            ≡ (if leb lo vfn && ltb vfn (lo + npages) then 0 else hits w vfn (v ∷ l)))
unfolding remove
remove_unmaps slab map lo npages v l memory low some_pages high f =
    let s0 : Walk = record { before = []; rest = v ∷ l; allocs = 0; refs = [] } in
    let (s, eq, m) =
      remove_loop-Ends lo (lo + npages) npages low (omega arith) high refl slab map memory
        (suc (2 * length (v ∷ l))) s0 (v ∷ l) refl f
        (omega (arith, rounds-le lo (lo + npages) (v ∷ l))) in
    (s, rw eq, λ w vfn. omega (arith, m w vfn))

-- So lookup finds no area for a page of the range that was removed.
lookup-remove :
    (slab : Slab) (map lo npages vfn : ℕ) (v : Vmarea) (l : List Vmarea)
    → HasMemory slab
    → user_low ≤ lo
    → lo + npages ≤ user_high
    → IsFit (lo + npages) (v ∷ l)
    → lo ≤ vfn
    → vfn < lo + npages
    → (s : Walk) × (remove slab map (v ∷ l) lo npages ≡ ok (0, s)) × (lookup (areas s) vfn ≡ none)
lookup-remove slab map lo npages vfn v l memory low high f a b =
    let (s, eq, m) = remove_unmaps slab map lo npages v l memory low (omega arith) high f in
    (s, eq, (lookup-none_iff (areas s) vfn).1 (ground (arith, m one vfn)))

-- If the first area of the list starts beyond the range, vmmap_remove returns 0 at once and leaves
-- the whole map as it is, whatever areas follow: one that lies in the range stays mapped.
pub remove_stops_early :
    (slab : Slab) (map lo npages vfn : ℕ) (v : Vmarea) (l : List Vmarea)
    → user_low ≤ lo
    → lo + npages ≤ user_high
    → lo + npages < v.start
    → v.start < v.end
    → lo ≤ vfn
    → vfn < lo + npages
    → (s : Walk) × (remove slab map (v ∷ l) lo npages ≡ ok (0, s))
      × (lookup (areas s) vfn ≡ lookup l vfn)
unfolding remove remove_loop advance visit lookup
remove_stops_early slab map lo npages vfn v l low high above p a b =
    (record { before = []; rest = v ∷ l; allocs = 0; refs = [] }, ground arith, ground arith)

-- When the range lies inside the only area, the part below it gets an offset that is `npages` too
-- large, though its first page has not moved, and the part above it gets whatever offset the
-- allocated memory held.
remove_split_offsets :
    (slab : Slab) (map lo npages : ℕ) (v fresh : Vmarea)
    → slab 0 ≡ some fresh
    → user_low ≤ v.start
    → v.start < lo
    → lo + npages < v.end
    → v.end ≤ user_high
    → (s : Walk) × (a : Vmarea) × (b : Vmarea) × (remove slab map (v ∷ []) lo npages ≡ ok (0, s))
      × (lookup (areas s) v.start ≡ some a)
      × (a.off ≡ (v.off + npages) % word_mod)
      × (lookup (areas s) (lo + npages) ≡ some b)
      × (b.off ≡ fresh.off)
unfolding remove remove_loop advance visit split area_alloc lookup
remove_split_offsets slab map lo npages v fresh e low a b high =
    let left = record v { off = (v.off + npages) % word_mod; end = lo } in
    let right = record fresh {
      start = lo + npages;
      end = v.end;
      vmmap = some map;
      obj = v.obj;
      prot = v.prot;
      flags = v.flags;
    } in
    let wraps : (lo + npages) % word_mod ≡ lo + npages = omega arith in
    (
      record { before = left ∷ right ∷ []; rest = []; allocs = 1; refs = on_obj RefOp.ref v.obj },
      left,
      right,
      ground arith,
      ground arith,
      refl,
      ground arith,
      refl,
    )
