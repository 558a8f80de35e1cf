-- ===== src/Slab/Reclaim.antt =====
-- slab_allocators_reclaim of kernel/mm/slab.c. The count of pages, an int, is a plain number: no
-- machine has 2 ^ 31 pages.
use avengers.Prelude.{
  ℕ, ◌+◌, ◌*◌, ◌<◌, ◌≡◌, ap, ◌∙◌, Bool, true, false, Bool-cases, eq_of_==, ◌&&◌, List, [], ◌∷◌,
  ◌++◌, ◌==◌, ltb, leb, if◌then◌else◌, count, inl, inr, arith, Outcome, ok, ◌>>=◌,
}
use avengers.Pages.{pages}
use avengers.Slab.{Cache}
pub mod Frees

-- The state of the pages, and the routine that frees pages, page_free_n
module _ (P : Type 0) (page_free_n : P → ℕ → ℕ → Outcome P) (target : ℕ) where
  -- What is left of a chain, the pages, how many were freed, and whether the target is met
  abbrev pub Reclaimed : Type 0
  Reclaimed = List ℕ × P × ℕ × Bool

  abbrev pub kept_on : List ℕ → Reclaimed → Outcome Reclaimed
  kept_on keep (kept, p, freed, met) = ok (keep ++ kept, p, freed, met)

  -- the end of a round: the test of the target, or the next slab
  abbrev next_slab : (P → ℕ → Outcome Reclaimed) → List ℕ → List ℕ → P → ℕ → Outcome Reclaimed
  next_slab go keep rest p freed =
      if ltb 0 target && leb target freed
      then ok (keep ++ rest, p, freed, true)
      else (go p freed >>= kept_on keep)

  -- the loop over the slabs of an allocator
  pub reclaim_slabs : Cache → List ℕ → P → ℕ → Outcome Reclaimed
  reclaim_slabs c [] p freed = ok ([], p, freed, false)
  reclaim_slabs c (s ∷ rest) p freed =
      let go : P → ℕ → Outcome Reclaimed = λ q n. reclaim_slabs c rest q n in
      if (c.slab s).inuse == 0
      then (page_free_n p (c.slab s).start (pages c.order) >>= λ q.
          next_slab go [] rest q (freed + pages c.order))
      else next_slab go (s ∷ []) rest p freed

  -- the loop over the allocators
  pub reclaim_caches : List Cache → P → ℕ → Outcome (List Cache × P × ℕ)
  unfolding reclaim_slabs
  reclaim_caches [] p freed = ok ([], p, freed)
  reclaim_caches (c ∷ cs) p freed = do
    (kept, q, n, met) ← reclaim_slabs c c.slabs p freed
    let c' = record c { slabs = kept }
    let more = reclaim_caches cs q n
    if met then ok (c' ∷ cs, q, n) else (more >>= λ (cs', r, m). ok (c' ∷ cs', r, m))

  -- slab_allocators_reclaim, where a target that is not positive is 0
  pub slab_allocators_reclaim : List Cache → P → Outcome (List Cache × P × ℕ)
  slab_allocators_reclaim cs p = reclaim_caches cs p 0
