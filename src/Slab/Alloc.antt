-- ===== src/Slab/Alloc.antt =====
-- `slab_obj_alloc` of kernel/mm/slab.c: the search for a slab with a free object.
use mathlib.Core.Path.{subst}
use avengers.Prelude.{
  ℕ, suc, ◌+◌, ◌≤◌, ◌<◌, ◌≡◌, refl, sym, ap, ◌∙◌, true, false, Bool-cases, eq_of_==, Option, none,
  some, List, [], ◌∷◌, ◌==◌, count, length, ◌⊎◌, inl, inr, arith, Outcome, ok,
}
use avengers.Slab.{
  Cache, at, add_slab, grow, find_slab, take_obj, take_from, alloc_loop, slab_obj_alloc,
}
use avengers.Slab.Valid.{Chain, IsCache}
use avengers.Slab.Added.{new_objs, new_slab, add_slab-IsCache, add_slab-nobjs, add_slab_room}
use avengers.Slab.Taken.{taken, taken-IsCache}

-- Every slab of a list has all its objects in use.
abbrev pub AllFull : Cache → List ℕ → Type 0
AllFull c ss = (s : ℕ) → 0 < count s ss → (c.slab s).inuse ≡ c.nobjs

module _ (c : Cache) where
  find_slab-cases :
      (ss : List ℕ)
      → ((s : ℕ) → 0 < count s ss → (c.slab s).inuse ≤ c.nobjs)
      → ((s : ℕ) × (find_slab c ss ≡ some s) × (0 < count s ss) × ((c.slab s).inuse < c.nobjs))
        ⊎ ((find_slab c ss ≡ none) × AllFull c ss)
  find_slab-cases [] bound = inr (refl, λ s h. absurd (omega (arith, h)))
  find_slab-cases (s ∷ ss) bound = elim (Bool-cases ((c.slab s).inuse == c.nobjs)) [
    | inl y ↦ elim (find_slab-cases ss (λ t h. bound t (ground (arith, h)))) [
      | inl (t, e, h, r) ↦ inl (t, ground (arith, y, e), ground (arith, h), r)
      | inr (e, all) ↦ inr (
        ground (arith, y, e),
        λ t h. elim (Bool-cases (s == t)) [
          | inl m ↦
              ap (λ k. (c.slab k).inuse) (sym (eq_of_== s t m))
              ∙ eq_of_== ((c.slab s).inuse) c.nobjs y
          | inr n ↦ all t (ground (arith, h, n))
        ],
      )
    ]
    | inr n ↦ inl (s, ground (arith, n, bound s), ground arith, ground (arith, n, bound s))
  ]

take_from_lem :
    (c : Cache) (s x : ℕ) (c' : Cache)
    → (c.slab s).free ≡ some x
    → take_obj c s x ≡ ok (c', some (x + 4))
    → take_from c s ≡ ok (c', some (x + 4))
unfolding take_from
take_from_lem c s x c' e f = ground (arith, e, f)

-- An allocation takes the first free object of one slab.
pub record IsTaken (c : Cache) (frees used : ℕ → List ℕ) (c' : Cache) (x : ℕ) : Type 0 where
  pub from : ℕ
  pub rest : List ℕ
  pub slab_in : 0 < count from c.slabs
  pub was_free : frees from ≡ x ∷ rest
  pub slabs_kept : c'.slabs ≡ c.slabs
  pub stays_valid : IsCache c' (at from rest frees) (at from (x ∷ used from) used)

module _ (pages : Cache → ℕ → Outcome (Cache × Option ℕ)) (c c' : Cache) where
  grow-none : pages c c.order ≡ ok (c', none) → grow pages c ≡ ok (c', false)
  unfolding grow
  grow-none e = ground (arith, e)

  alloc_loop-none :
      (n : ℕ)
      → find_slab c c.slabs ≡ none
      → grow pages c ≡ ok (c', false)
      → alloc_loop (suc n) pages c ≡ ok (c', none)
  unfolding alloc_loop
  alloc_loop-none n e f = ground (arith, e, f)

  grow-some :
      (addr : ℕ) → pages c c.order ≡ ok (c', some addr) → grow pages c ≡ ok (add_slab c' addr, true)
  unfolding grow
  grow-some addr e = ground (arith, e)

  alloc_loop-grows :
      (n : ℕ) (r : Outcome (Cache × Option ℕ))
      → find_slab c c.slabs ≡ none
      → grow pages c ≡ ok (c', true)
      → alloc_loop n pages c' ≡ r
      → alloc_loop (suc n) pages c ≡ r
  unfolding alloc_loop
  alloc_loop-grows n r e f g = ground (arith, e, f, g)

module _ (pages : Cache → ℕ → Outcome (Cache × Option ℕ)) (c : Cache) (frees used : ℕ → List ℕ)
    (v : IsCache c frees used) where
  take_obj-taken :
      (s x : ℕ) (rest : List ℕ) (here : 0 < count s c.slabs) (e : frees s ≡ x ∷ rest)
      → take_obj c s x ≡ ok (taken c frees used v s x rest here e, some (x + 4))
  unfolding take_obj
  take_obj-taken s x rest here e = ground (arith, v.zones s x here (ground (arith, ap (count x) e)))

  take_from-IsTaken :
      (s : ℕ) (fs : List ℕ)
      → 0 < count s c.slabs
      → (c.slab s).inuse < c.nobjs
      → frees s ≡ fs
      → (c' : Cache) × (x : ℕ) × (take_from c s ≡ ok (c', some (x + 4))) × IsTaken c frees used c' x
  take_from-IsTaken s [] here room e =
      absurd (omega (arith, v.full s here, v.in_use s here, room, ap length e))
  take_from-IsTaken s (x ∷ rest) here room e = (
    taken c frees used v s x rest here e,
    x,
    take_from_lem c s x (taken c frees used v s x rest here e)
        (subst (Chain c.word (c.slab s).free) e (v.chain s here)).0
        (take_obj-taken s x rest here e),
    record {
      from = s;
      rest = rest;
      slab_in = here;
      was_free = e;
      slabs_kept = refl;
      stays_valid = taken-IsCache c frees used v s x rest here e;
    },
  )

  alloc_loop-cases :
      (n : ℕ)
      → ((c' : Cache) × (x : ℕ) × (alloc_loop (suc n) pages c ≡ ok (c', some (x + 4)))
          × IsTaken c frees used c' x)
        ⊎ ((find_slab c c.slabs ≡ none) × AllFull c c.slabs)
  unfolding alloc_loop
  alloc_loop-cases n =
      elim (find_slab-cases c c.slabs (λ s h. omega (arith, v.full s h, v.in_use s h))) [
        | inl (s, e, here, room) ↦
            let (c', x, f, t) = take_from-IsTaken s (frees s) here room refl in
            inl (c', x, ground (arith, e, f), t)
        | inr (e, all) ↦ inr (e, all)
      ]

  -- On valid slabs: slab_obj_alloc either takes the first free object of a slab, past its red
  -- zone, and the slabs stay valid; or all slabs are full, and it gives nothing if it gets no
  -- pages.
  pub slab_obj_alloc-cases :
      ((c' : Cache) × (x : ℕ) × (slab_obj_alloc pages c ≡ ok (c', some (x + 4)))
        × IsTaken c frees used c' x)
      ⊎ (AllFull c c.slabs
          × ((c' : Cache)
              → pages c c.order ≡ ok (c', none)
              → slab_obj_alloc pages c ≡ ok (c', none)))
  unfolding slab_obj_alloc
  slab_obj_alloc-cases = elim (alloc_loop-cases 1) [
    | inl t ↦ inl t
    | inr (e, all) ↦ inr (all, λ c' f. alloc_loop-none pages c c' 1 e (grow-none pages c c' f))
  ]

-- If all slabs are full and pages come, which may leave other slabs, valid, with at least one
-- object in a slab and none of their objects on the pages: slab_obj_alloc takes an object of the
-- slabs with the new one, and they stay valid.
pub slab_obj_alloc-grows :
    (pages : Cache → ℕ → Outcome (Cache × Option ℕ)) (c : Cache) (frees used : ℕ → List ℕ)
    (c1 : Cache) (frees1 used1 : ℕ → List ℕ) (addr : ℕ)
    → IsCache c frees used
    → AllFull c c.slabs
    → pages c c.order ≡ ok (c1, some addr)
    → IsCache c1 frees1 used1
    → 0 < c1.nobjs
    → ((s y : ℕ)
        → 0 < count s c1.slabs
        → 0 < count y (frees1 s) + count y (used1 s)
        → count y (new_objs c1 addr) ≡ 0)
    → (c' : Cache) × (x : ℕ) × (slab_obj_alloc pages c ≡ ok (c', some (x + 4)))
      × IsTaken
          (add_slab c1 addr)
          (at (new_slab c1 addr) (new_objs c1 addr) frees1)
          (at (new_slab c1 addr) [] used1)
          c'
          x
unfolding slab_obj_alloc
slab_obj_alloc-grows pages c frees used c1 frees1 used1 addr v all e v1 some_obj fresh =
    let c2 = add_slab c1 addr in
    let v2 = add_slab-IsCache c1 frees1 used1 addr v1 some_obj fresh in
    elim (alloc_loop-cases pages c frees used v 1) [
      | inl (c', x, f, t) ↦ absurd (
          omega (
            arith,
            v.full t.from t.slab_in,
            v.in_use t.from t.slab_in,
            all t.from t.slab_in,
            ap length t.was_free,
          ))
      | inr (none_free, full) ↦
          elim (alloc_loop-cases pages c2 (at (new_slab c1 addr) (new_objs c1 addr) frees1)
            (at (new_slab c1 addr) [] used1) v2 0) [
              | inl (c', x, f, t) ↦ (
                c',
                x,
                alloc_loop-grows pages c c2 1 (ok (c', some (x + 4))) none_free
                    (grow-some pages c c1 addr e) f,
                t,
              )
              | inr (g, full2) ↦
                  let (there, zero_used) = add_slab_room c1 frees1 used1 addr v1 some_obj fresh in
                  absurd (
                    omega (
                      arith,
                      some_obj,
                      zero_used,
                      full2 (new_slab c1 addr) there,
                      add_slab-nobjs c1 frees1 used1 addr v1 some_obj fresh,
                    ))
            ]
    ]
