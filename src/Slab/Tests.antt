-- ===== src/Slab/Tests.antt =====
-- Examples of the slab allocator, kernel/mm/slab.c: slabs of two objects of 16 bytes.
use avengers.Prelude.{
  ℕ, ◌+◌, ◌<◌, ◌≡◌, refl, false, Option, none, some, List, [], ◌∷◌, count, erase, arith, Outcome,
  ok, ◌>>=◌,
}
use avengers.Slab.{Cache, at, link_objs, add_slab, slab_obj_alloc, slab_obj_free}
use avengers.Slab.Sizes.{find_bucket, kmalloc_order, kmalloc_order_wraps}
use avengers.Slab.Valid.{IsCache}
use avengers.Slab.Added.{new_objs, new_slab, add_slab-IsCache}
use avengers.Slab.Taken.{taken, taken-IsCache}
use avengers.Slab.Alloc.{IsTaken, slab_obj_alloc-grows}
use avengers.Slab.Given.{slab_obj_free-IsCache}
use avengers.Slab.Reclaim.{slab_allocators_reclaim}
use avengers.Slab.Reclaim.Frees.{
  free_all, idle_blocks, only_busy, total, slab_allocators_reclaim-free_all,
}
use avengers.Slab.Malloc.{Buckets, kmalloc, kfree, kmalloc-kfree}

abbrev no_slabs : Cache
no_slabs = record {
  objsize = 16;
  order = 0;
  nobjs = 2;
  slabs = [];
  slab = λ s. record { inuse = 0; free = none; start = 0 };
  word = λ a. none;
  is_free = λ a. false;
  intact = λ a. false;
}

abbrev no_objs : ℕ → List ℕ
no_objs s = []

no_slabs-IsCache : IsCache no_slabs no_objs no_objs
no_slabs-IsCache = record {
  chain = λ s h. refl;
  full = λ s h. absurd (omega (arith, h));
  in_use = λ s h. absurd (omega (arith, h));
  once = λ s x h. absurd (omega (arith, h));
  apart = λ s t x h. absurd (omega (arith, h));
  marked = λ s x h. absurd (omega (arith, h));
  unmarked = λ s x h. absurd (omega (arith, h));
  owned = λ s x h. absurd (omega (arith, h));
  zones = λ s x h. absurd (omega (arith, h));
}

abbrev one_page : Cache → ℕ → Outcome (Cache × Option ℕ)
one_page c order = ok (c, some 4096)

slab_obj_alloc-grows_example :
    (c' : Cache) × (x : ℕ) × (slab_obj_alloc one_page no_slabs ≡ ok (c', some (x + 4)))
    × IsTaken
        (add_slab no_slabs 4096)
        (at (new_slab no_slabs 4096) (new_objs no_slabs 4096) no_objs)
        (at (new_slab no_slabs 4096) [] no_objs)
        c'
        x
slab_obj_alloc-grows_example =
    slab_obj_alloc-grows one_page no_slabs no_objs no_objs no_slabs no_objs no_objs 4096
      no_slabs-IsCache (λ s h. absurd (omega (arith, h))) refl no_slabs-IsCache (omega arith)
      (λ s y h. absurd (omega (arith, h)))

-- A slab at 4144, with its objects at 4096 and 4120
abbrev fresh : Cache
fresh = add_slab no_slabs 4096

abbrev fresh_objs : ℕ → List ℕ
fresh_objs = at (new_slab no_slabs 4096) (new_objs no_slabs 4096) no_objs

abbrev fresh_used : ℕ → List ℕ
fresh_used = at (new_slab no_slabs 4096) [] no_objs

fresh-IsCache : IsCache fresh fresh_objs fresh_used
fresh-IsCache =
    add_slab-IsCache no_slabs no_objs no_objs 4096 no_slabs-IsCache (omega arith)
      (λ s y h. absurd (omega (arith, h)))

slab_there : 0 < count 4144 fresh.slabs
unfolding add_slab link_objs
slab_there = omega arith

its_objs : fresh_objs 4144 ≡ 4096 ∷ 4120 ∷ []
unfolding link_objs
its_objs = refl

abbrev with_one : Cache
with_one = taken fresh fresh_objs fresh_used fresh-IsCache 4144 4096 (4120 ∷ []) slab_there its_objs

still_there : 0 < count 4144 with_one.slabs
unfolding add_slab link_objs
still_there = omega arith

slab_obj_free-IsCache_example :
    (c' : Cache) × (slab_obj_free with_one 4100 ≡ ok c')
    × IsCache c'
        (at 4144 (4096 ∷ at 4144 (4120 ∷ []) fresh_objs 4144) (at 4144 (4120 ∷ []) fresh_objs))
        (at 4144
          (erase 4096 (at 4144 (4096 ∷ fresh_used 4144) fresh_used 4144))
          (at 4144 (4096 ∷ fresh_used 4144) fresh_used))
slab_obj_free-IsCache_example =
    slab_obj_free-IsCache with_one (at 4144 (4120 ∷ []) fresh_objs)
      (at 4144 (4096 ∷ fresh_used 4144) fresh_used)
      (taken-IsCache fresh fresh_objs fresh_used fresh-IsCache 4144 4096 (4120 ∷ []) slab_there
        its_objs)
      4144 4096 still_there (omega arith)

kmalloc_order_wraps_example : kmalloc_order 4294967295 ≡ ok 6
kmalloc_order_wraps_example = kmalloc_order_wraps 4294967295 (omega arith) (omega arith)

order_of_10 : kmalloc_order 10 ≡ ok 6
unfolding kmalloc_order find_bucket
order_of_10 = refl

abbrev fresh_buckets : Buckets
fresh_buckets = record { cache = λ o. fresh; header = λ a. none }

slab_room : (fresh.slab 4144).inuse < fresh.nobjs
unfolding add_slab link_objs
slab_room = omega arith

kmalloc-kfree_example :
    (b1 b2 : Buckets) × (a : ℕ) × (frees2 used2 : ℕ → List ℕ) × (kmalloc one_page fresh_buckets 10
      ≡ ok (b1, some a))
    × (kfree b1 a ≡ ok b2)
    × IsCache (b2.cache 6) frees2 used2
    × ((k : ℕ) → frees2 k ≡ fresh_objs k)
    × ((k : ℕ) → used2 k ≡ fresh_used k)
kmalloc-kfree_example =
    kmalloc-kfree one_page fresh_buckets 10 6 4144 fresh_objs fresh_used order_of_10 fresh-IsCache
      slab_there slab_room

-- Pages as the number of those that have been freed
abbrev count_freed : ℕ → ℕ → ℕ → Outcome ℕ
count_freed p a n = ok (p + n)

-- The slab at 4144 has no object in use.
slab_allocators_reclaim-free_all_example :
    slab_allocators_reclaim ℕ count_freed 0 (fresh ∷ with_one ∷ []) 0 ≡ (
      free_all ℕ count_freed (idle_blocks (fresh ∷ with_one ∷ [])) 0 >>= λ q.
      ok (only_busy (fresh ∷ with_one ∷ []), q, total (idle_blocks (fresh ∷ with_one ∷ []))))
slab_allocators_reclaim-free_all_example =
    slab_allocators_reclaim-free_all ℕ count_freed (fresh ∷ with_one ∷ []) 0
