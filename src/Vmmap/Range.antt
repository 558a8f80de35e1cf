-- ===== src/Vmmap/Range.antt =====
-- vmmap_is_range_empty (kernel/vm/vmmap.c): which overlaps it sees.
use avengers.Prelude.{
  ℕ, ◌+◌, ◌%◌, ◌≤◌, ◌<◌, ◌≡◌, refl, ◌&&◌, List, [], ◌∷◌, ◌⊎◌, leb, ltb, All, ok, arith, Bool-cases,
  inl, inr,
}
use avengers.Vmmap.{Vmarea, word_mod, user_low, user_high, range_loop, is_range_empty}
use avengers.Vmmap.Hits.{hits, one}

-- the pages from `s` up to `e` are a range of user memory
abbrev pub IsRange : ℕ → ℕ → Type 0
IsRange s e = (s < e) × (user_low ≤ s) × (e ≤ user_high)

range_loop-zero :
    (l : List Vmarea) (s e : ℕ)
    → All (λ a. a.start < a.end) l
    → range_loop l s e ≡ 0
    → (vfn : ℕ) × (s ≤ vfn) × (vfn < e) × (0 < hits one vfn l)
unfolding range_loop
range_loop-zero [] s e p h = absurd (omega (arith, h))
range_loop-zero (a ∷ l) s e p h = elim (Bool-cases (leb s a.start && ltb a.end e)) [
  | inl t ↦ (a.start, ground arith, ground arith, ground arith)
  | inr t ↦
      let (vfn, x, y, z) = range_loop-zero l s e p.1 (ground arith) in (vfn, x, y, omega arith)
]

-- If vmmap_is_range_empty answers 0 for a range of user memory, then a page of it is mapped, when
-- no area is empty.
is_range_empty-zero :
    (l : List Vmarea) (s n : ℕ)
    → IsRange s (s + n)
    → All (λ a. a.start < a.end) l
    → is_range_empty l s n ≡ ok 0
    → (vfn : ℕ) × (s ≤ vfn) × (vfn < s + n) × (0 < hits one vfn l)
unfolding is_range_empty
is_range_empty-zero l s n r p h =
    let e : (s + n) % word_mod ≡ s + n = omega arith in range_loop-zero l s (s + n) p (ground arith)

range_loop-one :
    (l : List Vmarea) (s e : ℕ) → All (λ a. (a.start < s) ⊎ (e ≤ a.end)) l → range_loop l s e ≡ 1
unfolding range_loop
range_loop-one [] s e p = refl
range_loop-one (a ∷ l) s e p = ground (arith, range_loop-one l s e p.1)

-- The answer 1 does not mean that the range is free: it is given whenever each area starts before
-- the range or reaches its end, such as one that covers the whole of the range.
is_range_empty_misses :
    (l : List Vmarea) (s n : ℕ)
    → IsRange s (s + n)
    → All (λ a. (a.start < s) ⊎ (s + n ≤ a.end)) l
    → is_range_empty l s n ≡ ok 1
unfolding is_range_empty
is_range_empty_misses l s n r p =
    let e : (s + n) % word_mod ≡ s + n = omega arith in ground (arith, range_loop-one l s (s + n) p)
