-- ===== src/Slab/Reclaim/Frees.antt =====
-- Which pages slab_allocators_reclaim of kernel/mm/slab.c frees for a target of 0, and what it leaves.
use avengers.Prelude.{
  ℕ, ◌+◌, ◌<◌, ◌≡◌, refl, sym, ap, ◌∙◌, Bool, true, false, List, [], ◌∷◌, ◌++◌, ◌==◌, if◌then◌else◌,
  count, arith, Outcome, ok, panic, waits, astray, ◌>>=◌,
}
use avengers.Pages.{pages}
use avengers.Slab.{Cache}
use avengers.Slab.Valid.{IsCache}
use avengers.Slab.Reclaim.{kept_on, reclaim_slabs, reclaim_caches, slab_allocators_reclaim}

-- The slabs of a list that have an object in use.
abbrev busy : Cache → List ℕ → List ℕ
busy c [] = []
busy c (s ∷ ss) = let rest = busy c ss in if (c.slab s).inuse == 0 then rest else s ∷ rest

-- The blocks of pages, by address and size, of the slabs of a list that have none.
abbrev idle : Cache → List ℕ → List (ℕ × ℕ)
idle c [] = []
idle c (s ∷ ss) =
    let rest = idle c ss in
    if (c.slab s).inuse == 0 then ((c.slab s).start, pages c.order) ∷ rest else rest

abbrev pub only_busy : List Cache → List Cache
only_busy [] = []
only_busy (c ∷ cs) = record c { slabs = busy c c.slabs } ∷ only_busy cs

abbrev pub idle_blocks : List Cache → List (ℕ × ℕ)
idle_blocks [] = []
idle_blocks (c ∷ cs) = idle c c.slabs ++ idle_blocks cs

abbrev pub total : List (ℕ × ℕ) → ℕ
total [] = 0
total ((a, n) ∷ bs) = n + total bs

total-append : (bs ds : List (ℕ × ℕ)) → total (bs ++ ds) ≡ total bs + total ds
total-append [] ds = omega arith
total-append ((a, n) ∷ bs) ds = omega (arith, total-append bs ds)

bind_cong :
    {S T : Type 0} (o : Outcome S) (f g : S → Outcome T)
    → ((s : S) → f s ≡ g s)
    → (o >>= f) ≡ (o >>= g)
bind_cong panic f g h = refl
bind_cong waits f g h = refl
bind_cong astray f g h = refl
bind_cong (ok s) f g h = h s

bind_assoc :
    {R S T : Type 0} (o : Outcome R) (f : R → Outcome S) (g : S → Outcome T)
    → (o >>= f >>= g) ≡ (o >>= λ r. f r >>= g)
bind_assoc panic f g = refl
bind_assoc waits f g = refl
bind_assoc astray f g = refl
bind_assoc (ok r) f g = refl

module _ (P : Type 0) (page_free_n : P → ℕ → ℕ → Outcome P) where
  abbrev pub free_all : List (ℕ × ℕ) → P → Outcome P
  free_all [] p = ok p
  free_all ((a, n) ∷ bs) p = page_free_n p a n >>= free_all bs

  abbrev Left : Type 0
  Left = List ℕ × P × ℕ × Bool

  abbrev after_slabs : Cache → List ℕ → ℕ → P → Outcome Left
  after_slabs c ss freed = λ q. ok (busy c ss, q, freed + total (idle c ss), false)

  -- One round of the loop, for a slab that is idle or not
  Round : Cache → ℕ → List ℕ → P → ℕ → Bool → Type 0
  Round c s ss p freed b =
      let n = pages c.order in
      let bs = if b then ((c.slab s).start, n) ∷ idle c ss else idle c ss in
      (if b
        then (page_free_n p (c.slab s).start n >>= λ q.
            reclaim_slabs P page_free_n 0 c ss q (freed + n) >>= kept_on P page_free_n 0 [])
        else (reclaim_slabs P page_free_n 0 c ss p freed >>= kept_on P page_free_n 0 (s ∷ [])))
      ≡ (free_all bs p >>= λ q.
          ok (if b then busy c ss else s ∷ busy c ss, q, freed + total bs, false))

  slabs-Round :
      (c : Cache) (s : ℕ) (ss : List ℕ) (p : P) (freed : ℕ)
      → ((q : P) (m : ℕ)
          → reclaim_slabs P page_free_n 0 c ss q m
            ≡ (free_all (idle c ss) q >>= after_slabs c ss m))
      → (b : Bool) → Round c s ss p freed b
  unfolding Round
  slabs-Round c s ss p freed h true =
      let n = pages c.order in
      let sum : freed + n + total (idle c ss) ≡ freed + (n + total (idle c ss)) = omega arith in
      let keep = λ (q : P). after_slabs c ss (freed + n) q >>= kept_on P page_free_n 0 [] in
      bind_cong (page_free_n p (c.slab s).start n)
        (λ q. reclaim_slabs P page_free_n 0 c ss q (freed + n) >>= kept_on P page_free_n 0 [])
        (λ q. free_all (idle c ss) q >>= keep)
        (λ q.
          ap (λ o. o >>= kept_on P page_free_n 0 []) (h q (freed + n))
          ∙ bind_assoc (free_all (idle c ss) q) (after_slabs c ss (freed + n))
              (kept_on P page_free_n 0 []))
      ∙ sym (bind_assoc (page_free_n p (c.slab s).start n) (free_all (idle c ss)) keep)
      ∙ ap
          (λ (m : ℕ). page_free_n p (c.slab s).start n >>= free_all (idle c ss) >>= λ q.
            ok (busy c ss, q, m, false))
          sum
  slabs-Round c s ss p freed h false =
      ap (λ o. o >>= kept_on P page_free_n 0 (s ∷ [])) (h p freed)
      ∙ bind_assoc (free_all (idle c ss) p) (after_slabs c ss freed)
          (kept_on P page_free_n 0 (s ∷ []))

  reclaim_slabs-frees :
      (c : Cache) (ss : List ℕ) (p : P) (freed : ℕ)
      → reclaim_slabs P page_free_n 0 c ss p freed
        ≡ (free_all (idle c ss) p >>= after_slabs c ss freed)
  unfolding reclaim_slabs Round
  reclaim_slabs-frees c [] p freed = ap (λ n. ok ([], p, n, false)) (omega arith)
  reclaim_slabs-frees c (s ∷ ss) p freed =
      slabs-Round c s ss p freed (reclaim_slabs-frees c ss) ((c.slab s).inuse == 0)

  free_all-append :
      (bs ds : List (ℕ × ℕ)) (p : P) → free_all (bs ++ ds) p ≡ (free_all bs p >>= free_all ds)
  free_all-append [] ds p = refl
  free_all-append ((a, n) ∷ bs) ds p =
      bind_cong (page_free_n p a n) (free_all (bs ++ ds)) (λ q. free_all bs q >>= free_all ds)
        (free_all-append bs ds)
      ∙ sym (bind_assoc (page_free_n p a n) (free_all bs) (free_all ds))

  abbrev after_caches : List Cache → ℕ → P → Outcome (List Cache × P × ℕ)
  after_caches cs freed q = ok (only_busy cs, q, freed + total (idle_blocks cs))

  reclaim_caches-frees :
      (cs : List Cache) (p : P) (freed : ℕ)
      → reclaim_caches P page_free_n 0 cs p freed
        ≡ (free_all (idle_blocks cs) p >>= after_caches cs freed)
  unfolding reclaim_caches
  reclaim_caches-frees [] p freed = ap (λ n. ok ([], p, n)) (omega arith)
  reclaim_caches-frees (c ∷ cs) p freed =
      let mine = idle c c.slabs in
      let others = idle_blocks cs in
      ap (λ o. o >>= next) (reclaim_slabs-frees c c.slabs p freed)
      ∙ bind_assoc (free_all mine p) (after_slabs c c.slabs freed) next
      ∙ bind_cong (free_all mine p) (λ q. after_slabs c c.slabs freed q >>= next)
          (λ q. free_all others q >>= after_caches (c ∷ cs) freed)
          (λ q.
            ap (λ o. o >>= add) (reclaim_caches-frees cs q (freed + total mine))
            ∙ bind_assoc (free_all others q) (after_caches cs (freed + total mine)) add
            ∙ bind_cong (free_all others q) (λ r. after_caches cs (freed + total mine) r >>= add)
                (after_caches (c ∷ cs) freed)
                (λ r.
                  ap (λ n. ok (only_busy (c ∷ cs), r, n))
                    (omega (arith, total-append mine others))))
      ∙ sym (bind_assoc (free_all mine p) (free_all others) (after_caches (c ∷ cs) freed))
      ∙ ap (λ o. o >>= after_caches (c ∷ cs) freed) (sym (free_all-append mine others p))
    where
      add : List Cache × P × ℕ → Outcome (List Cache × P × ℕ)
      add (cs', r, m) = ok (record c { slabs = busy c c.slabs } ∷ cs', r, m)

      next : Left → Outcome (List Cache × P × ℕ)
      next (kept, q, n, met) =
          let c' = record c { slabs = kept } in
          if met
          then ok (c' ∷ cs, q, n)
          else (reclaim_caches P page_free_n 0 cs q n >>= λ (cs', r, m). ok (c' ∷ cs', r, m))

  -- With a target of 0, slab_allocators_reclaim frees exactly the pages of the slabs without an
  -- object in use, each block once, allocator by allocator, in the order of their lists; unless
  -- page_free_n fails it leaves each allocator the other slabs in their order, and returns the number
  -- of pages freed.
  pub slab_allocators_reclaim-free_all :
      (cs : List Cache) (p : P)
      → slab_allocators_reclaim P page_free_n 0 cs p
        ≡ (free_all (idle_blocks cs) p >>= λ q. ok (only_busy cs, q, total (idle_blocks cs)))
  unfolding slab_allocators_reclaim
  slab_allocators_reclaim-free_all cs p =
      reclaim_caches-frees cs p 0
      ∙ bind_cong (free_all (idle_blocks cs) p) (after_caches cs 0)
          (λ q. ok (only_busy cs, q, total (idle_blocks cs)))
          (λ q. ap (λ n. ok (only_busy cs, q, n)) (omega arith))

busy-sub : (c : Cache) (ss : List ℕ) (s : ℕ) → 0 < count s (busy c ss) → 0 < count s ss
busy-sub c [] s h = h
busy-sub c (t ∷ ss) s h = ground (arith, busy-sub c ss s)

sub-IsCache :
    (c : Cache) (frees used : ℕ → List ℕ) (kept : List ℕ)
    → IsCache c frees used
    → ((s : ℕ) → 0 < count s kept → 0 < count s c.slabs)
    → IsCache (record c { slabs = kept }) frees used
sub-IsCache c frees used kept v sub = record {
  chain = λ s h. v.chain s (sub s h);
  full = λ s h. v.full s (sub s h);
  in_use = λ s h. v.in_use s (sub s h);
  once = λ s x h. v.once s x (sub s h);
  apart = λ s t x h l. v.apart s t x (sub s h) (sub t l);
  marked = λ s x h. v.marked s x (sub s h);
  unmarked = λ s x h. v.unmarked s x (sub s h);
  owned = λ s x h. v.owned s x (sub s h);
  zones = λ s x h. v.zones s x (sub s h);
}

-- What is left of a valid allocator is valid.
only_busy-IsCache :
    (c : Cache) (frees used : ℕ → List ℕ)
    → IsCache c frees used
    → IsCache (record c { slabs = busy c c.slabs }) frees used
only_busy-IsCache c frees used v =
    sub-IsCache c frees used (busy c c.slabs) v (λ s h. busy-sub c c.slabs s h)
