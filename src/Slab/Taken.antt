-- ===== src/Slab/Taken.antt =====
-- `slab_obj_alloc` of kernel/mm/slab.c on valid slabs
use mathlib.Core.Path.{subst}
use avengers.Prelude.{
  ℕ, suc, ◌+◌, ◌≤◌, ◌<◌, ◌≡◌, sym, ap, ◌∙◌, false, Bool-cases, eq_of_==, some, List, ◌∷◌, ◌==◌, ltb,
  if◌then◌else◌, count, length, inl, inr, arith,
}
use avengers.Slab.{Slab, Cache, at}
use avengers.Slab.Valid.{Chain, IsCache, at-Chain, at-yes, at-no}

module _ (c : Cache) (frees used : ℕ → List ℕ) (v : IsCache c frees used) (s x : ℕ) (rest : List ℕ)
    (here : 0 < count s c.slabs) (e : frees s ≡ x ∷ rest) where
  abbrev new_slab : Slab
  new_slab = record (c.slab s) { free = c.word x; inuse = (c.slab s).inuse + 1 }

  abbrev pub taken : Cache
  taken = record c {
    slab = at s (record (c.slab s) { free = c.word x; inuse = (c.slab s).inuse + 1 }) c.slab;
    word = at x (some s) c.word;
    is_free = at x false c.is_free;
  }

  counts : (y : ℕ) → count y (frees s) ≡ (if x == y then suc (count y rest) else count y rest)
  counts y = ground (arith, ap (count y) e)

  -- The objects of a slab are the same before and after.
  abbrev frees' : ℕ → List ℕ
  frees' = at s rest frees

  abbrev used' : ℕ → List ℕ
  used' = at s (x ∷ used s) used

  same_objs :
      (k y : ℕ) → count y (frees' k) + count y (used' k) ≡ count y (frees k) + count y (used k)
  same_objs k y = elim (Bool-cases (k == s)) [
    | inl m ↦
        let same : k ≡ s = eq_of_== k s m in
        ground (arith, m, counts y, ap (λ j. count y (frees j) + count y (used j)) same)
    | inr n ↦ ground (arith, n)
  ]

  -- x is of no other slab, and on no list twice.
  only : (k : ℕ) → 0 < count k c.slabs → k == s ≡ false → count x (frees k) + count x (used k) ≡ 0
  only k there n = elim (Bool-cases (ltb 0 (count x (frees k) + count x (used k)))) [
    | inl m ↦
        let same : k ≡ s =
          v.apart k s x there here (ground (arith, m)) (ground (arith, counts x)) in
        absurd (ground (arith, n, same))
    | inr z ↦ ground (arith, z)
  ]

  gone : (count x rest ≡ 0) × (count x (used s) ≡ 0)
  gone = (ground (arith, v.once s x here, counts x), ground (arith, v.once s x here, counts x))

  free_x : (k : ℕ) → 0 < count k c.slabs → count x (frees' k) ≡ 0
  free_x k there = elim (Bool-cases (k == s)) [
    | inl m ↦ ap (count x) (at-yes s k rest frees m) ∙ gone.0
    | inr n ↦ omega (arith, ap (count x) (at-no s k rest frees n), only k there n)
  ]

  not_x : (k y : ℕ) → 0 < count k c.slabs → 0 < count y (frees' k) → y == x ≡ false
  not_x k y there l = elim (Bool-cases (y == x)) [
    | inl m ↦
        absurd (omega (arith, l, free_x k there, ap (λ z. count z (frees' k)) (eq_of_== y x m)))
    | inr n ↦ n
  ]

  frees-le : (k y : ℕ) → count y (frees' k) ≤ count y (frees k)
  frees-le k y = elim (Bool-cases (k == s)) [
    | inl m ↦ ground (
      arith,
      ap (count y) (at-yes s k rest frees m),
      counts y,
      ap (λ j. count y (frees j)) (eq_of_== k s m),
    )
    | inr n ↦ omega (arith, ap (count y) (at-no s k rest frees n))
  ]

  used-le : (k y : ℕ) → y == x ≡ false → count y (used' k) ≤ count y (used k)
  used-le k y n = elim (Bool-cases (k == s)) [
    | inl m ↦ ground (
      arith,
      n,
      ap (count y) (at-yes s k (x ∷ used s) used m),
      ap (λ j. count y (used j)) (eq_of_== k s m),
    )
    | inr z ↦ omega (arith, ap (count y) (at-no s k (x ∷ used s) used z))
  ]

  chains : (k : ℕ) → 0 < count k c.slabs → Chain taken.word (taken.slab k).free (frees' k)
  chains k there = elim (Bool-cases (k == s)) [
    | inl m ↦
        let old : Chain c.word (c.slab s).free (x ∷ rest) =
          subst (Chain c.word (c.slab s).free) e (v.chain s here) in
        subst (Chain taken.word (taken.slab k).free) (sym (at-yes s k rest frees m)) (
          subst (λ h. Chain taken.word h rest)
            (sym (ap (λ (t : Slab). t.free) (at-yes s k new_slab c.slab m)))
            (at-Chain c.word x (some s) (c.word x) rest gone.0 old.1))
    | inr n ↦ subst (Chain taken.word (taken.slab k).free) (sym (at-no s k rest frees n)) (
        subst (λ h. Chain taken.word h (frees k))
          (sym (ap (λ (t : Slab). t.free) (at-no s k new_slab c.slab n)))
          (at-Chain c.word x (some s) (c.slab k).free (frees k) (omega (arith, only k there n))
            (v.chain k there)))
  ]

  lengths :
      (k : ℕ)
      → 0 < count k c.slabs
      → length (frees' k) + length (used' k) ≡ length (frees k) + length (used k)
  lengths k there = elim (Bool-cases (k == s)) [
    | inl m ↦ ground (
      arith,
      ap length e,
      ap length (at-yes s k rest frees m),
      ap length (at-yes s k (x ∷ used s) used m),
      ap (λ j. length (frees j) + length (used j)) (eq_of_== k s m),
    )
    | inr n ↦
        omega (arith, ap length (at-no s k rest frees n), ap length (at-no s k (x ∷ used s) used n))
  ]

  uses : (k : ℕ) → 0 < count k c.slabs → (taken.slab k).inuse ≡ length (used' k)
  uses k there = elim (Bool-cases (k == s)) [
    | inl m ↦ omega (
      arith,
      v.in_use s here,
      ap (λ (t : Slab). t.inuse) (at-yes s k new_slab c.slab m),
      ap length (at-yes s k (x ∷ used s) used m),
    )
    | inr n ↦ omega (
      arith,
      v.in_use k there,
      ap (λ (t : Slab). t.inuse) (at-no s k new_slab c.slab n),
      ap length (at-no s k (x ∷ used s) used n),
    )
  ]

  frees_used : (k y : ℕ) → 0 < count k c.slabs → 0 < count y (used' k) → taken.is_free y ≡ false
  frees_used k y there l = elim (Bool-cases (y == x)) [
    | inl m ↦ at-yes x y false c.is_free m
    | inr n ↦ at-no x y false c.is_free n ∙ v.unmarked k y there (omega (arith, l, used-le k y n))
  ]

  owners : (k y : ℕ) → 0 < count k c.slabs → 0 < count y (used' k) → taken.word y ≡ some k
  owners k y there l = elim (Bool-cases (y == x)) [
    | inl m ↦ elim (Bool-cases (k == s)) [
      | inl z ↦ at-yes x y (some s) c.word m ∙ ap some (sym (eq_of_== k s z))
      | inr n ↦ absurd (
          omega (
            arith,
            l,
            only k there n,
            ap (λ j. count j (used' k)) (eq_of_== y x m),
            ap (count x) (at-no s k (x ∷ used s) used n),
          ))
    ]
    | inr n ↦ at-no x y (some s) c.word n ∙ v.owned k y there (omega (arith, l, used-le k y n))
  ]

  pub taken-IsCache : IsCache taken (at s rest frees) (at s (x ∷ used s) used)
  taken-IsCache = record {
    chain = chains;
    full = λ k there. lengths k there ∙ v.full k there;
    in_use = uses;
    once = λ k y there. omega (arith, v.once k y there, same_objs k y);
    apart = λ k t y a b l r.
        v.apart k t y a b (omega (arith, l, same_objs k y)) (omega (arith, r, same_objs t y));
    marked = λ k y there l.
        at-no x y false c.is_free (not_x k y there l)
        ∙ v.marked k y there (omega (arith, l, frees-le k y));
    unmarked = frees_used;
    owned = owners;
    zones = λ k y there l. v.zones k y there (omega (arith, l, same_objs k y));
  }
