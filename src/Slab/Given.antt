-- ===== src/Slab/Given.antt =====
-- `slab_obj_free` of kernel/mm/slab.c on valid slabs
use mathlib.Core.Path.{subst}
use avengers.Prelude.{
  ℕ, ◌+◌, ◌-◌, ◌≤◌, ◌<◌, ◌≡◌, refl, sym, ap, ◌∙◌, true, false, Bool-cases, eq_of_==, some, List,
  ◌∷◌, ◌==◌, ltb, count, count-erase, length, length-erase, erase, inl, inr, arith, ok,
}
use avengers.Slab.{Slab, Cache, at, give_obj, slab_obj_free}
use avengers.Slab.Valid.{Chain, IsCache, at-Chain, at-yes, at-no}

module _ (c : Cache) (frees used : ℕ → List ℕ) (v : IsCache c frees used) (s x : ℕ)
    (here : 0 < count s c.slabs) (mine : 0 < count x (used s)) where
  abbrev given : Cache
  given = record c {
    is_free = at x true c.is_free;
    word = at x (c.slab s).free c.word;
    slab = at s (record (c.slab s) { free = some x; inuse = (c.slab s).inuse - 1 }) c.slab;
  }

  abbrev new_slab : Slab
  new_slab = record (c.slab s) { free = some x; inuse = (c.slab s).inuse - 1 }

  abbrev frees' : ℕ → List ℕ
  frees' = at s (x ∷ frees s) frees

  abbrev used' : ℕ → List ℕ
  used' = at s (erase x (used s)) used

  -- The objects of a slab are the same before and after.
  same_objs :
      (k y : ℕ) → count y (frees' k) + count y (used' k) ≡ count y (frees k) + count y (used k)
  same_objs k y = elim (Bool-cases (k == s)) [
    | inl m ↦ ground (
      arith,
      ap (count y) (at-yes s k (x ∷ frees s) frees m),
      ap (count y) (at-yes s k (erase x (used s)) used m),
      count-erase y x (used s) mine,
      ap (λ j. count y (frees j) + count y (used j)) (eq_of_== k s m),
    )
    | inr n ↦ omega (
      arith,
      ap (count y) (at-no s k (x ∷ frees s) frees n),
      ap (count y) (at-no s k (erase x (used s)) used n),
    )
  ]

  -- x is of no other slab, and on no list twice.
  only : (k : ℕ) → 0 < count k c.slabs → k == s ≡ false → count x (frees k) + count x (used k) ≡ 0
  only k there n = elim (Bool-cases (ltb 0 (count x (frees k) + count x (used k)))) [
    | inl m ↦
        let same : k ≡ s = v.apart k s x there here (ground (arith, m)) (omega (arith, mine)) in
        absurd (ground (arith, n, same))
    | inr z ↦ ground (arith, z)
  ]

  not_free : count x (frees s) ≡ 0
  not_free = omega (arith, v.once s x here, mine)

  chains : (k : ℕ) → 0 < count k c.slabs → Chain given.word (given.slab k).free (frees' k)
  chains k there = elim (Bool-cases (k == s)) [
    | inl m ↦
        subst (Chain given.word (given.slab k).free) (sym (at-yes s k (x ∷ frees s) frees m)) (
          subst (λ h. Chain given.word h (x ∷ frees s))
            (sym (ap (λ (t : Slab). t.free) (at-yes s k new_slab c.slab m)))
            (
              refl,
              subst (λ h. Chain given.word h (frees s))
                  (sym (at-yes x x (c.slab s).free c.word (ground arith)))
                  (at-Chain c.word x (c.slab s).free (c.slab s).free (frees s) not_free
                    (v.chain s here)),
            ))
    | inr n ↦ subst (Chain given.word (given.slab k).free) (sym (at-no s k (x ∷ frees s) frees n)) (
        subst (λ h. Chain given.word h (frees k))
          (sym (ap (λ (t : Slab). t.free) (at-no s k new_slab c.slab n)))
          (at-Chain c.word x (c.slab s).free (c.slab k).free (frees k)
            (omega (arith, only k there n)) (v.chain k there)))
  ]

  lengths :
      (k : ℕ)
      → 0 < count k c.slabs
      → length (frees' k) + length (used' k) ≡ length (frees k) + length (used k)
  lengths k there = elim (Bool-cases (k == s)) [
    | inl m ↦ ground (
      arith,
      length-erase x (used s) mine,
      ap length (at-yes s k (x ∷ frees s) frees m),
      ap length (at-yes s k (erase x (used s)) used m),
      ap (λ j. length (frees j) + length (used j)) (eq_of_== k s m),
    )
    | inr n ↦ omega (
      arith,
      ap length (at-no s k (x ∷ frees s) frees n),
      ap length (at-no s k (erase x (used s)) used n),
    )
  ]

  uses : (k : ℕ) → 0 < count k c.slabs → (given.slab k).inuse ≡ length (used' k)
  uses k there = elim (Bool-cases (k == s)) [
    | inl m ↦ omega (
      arith,
      v.in_use s here,
      ap (λ (t : Slab). t.inuse) (at-yes s k new_slab c.slab m),
      length-erase x (used s) mine,
      ap length (at-yes s k (erase x (used s)) used m),
    )
    | inr n ↦ omega (
      arith,
      v.in_use k there,
      ap (λ (t : Slab). t.inuse) (at-no s k new_slab c.slab n),
      ap length (at-no s k (erase x (used s)) used n),
    )
  ]

  -- x is not among those in use any more.
  used_x : (k : ℕ) → 0 < count k c.slabs → count x (used' k) ≡ 0
  used_x k there = elim (Bool-cases (k == s)) [
    | inl m ↦ ground (
      arith,
      ap (count x) (at-yes s k (erase x (used s)) used m),
      count-erase x x (used s) mine,
      v.once s x here,
    )
    | inr n ↦ omega (arith, ap (count x) (at-no s k (erase x (used s)) used n), only k there n)
  ]

  not_x : (k y : ℕ) → 0 < count k c.slabs → 0 < count y (used' k) → y == x ≡ false
  not_x k y there l = elim (Bool-cases (y == x)) [
    | inl m ↦
        absurd (omega (arith, l, used_x k there, ap (λ z. count z (used' k)) (eq_of_== y x m)))
    | inr n ↦ n
  ]

  used-le : (k y : ℕ) → count y (used' k) ≤ count y (used k)
  used-le k y = elim (Bool-cases (k == s)) [
    | inl m ↦ omega (
      arith,
      ap (count y) (at-yes s k (erase x (used s)) used m),
      count-erase y x (used s) mine,
      ap (λ j. count y (used j)) (eq_of_== k s m),
    )
    | inr n ↦ omega (arith, ap (count y) (at-no s k (erase x (used s)) used n))
  ]

  frees-le : (k y : ℕ) → y == x ≡ false → count y (frees' k) ≤ count y (frees k)
  frees-le k y n = elim (Bool-cases (k == s)) [
    | inl m ↦ ground (
      arith,
      n,
      ap (count y) (at-yes s k (x ∷ frees s) frees m),
      ap (λ j. count y (frees j)) (eq_of_== k s m),
    )
    | inr z ↦ omega (arith, ap (count y) (at-no s k (x ∷ frees s) frees z))
  ]

  marks : (k y : ℕ) → 0 < count k c.slabs → 0 < count y (frees' k) → given.is_free y ≡ true
  marks k y there l = elim (Bool-cases (y == x)) [
    | inl m ↦ at-yes x y true c.is_free m
    | inr n ↦ at-no x y true c.is_free n ∙ v.marked k y there (omega (arith, l, frees-le k y n))
  ]

  pub given-IsCache : IsCache given (at s (x ∷ frees s) frees) (at s (erase x (used s)) used)
  given-IsCache = record {
    chain = chains;
    full = λ k there. lengths k there ∙ v.full k there;
    in_use = uses;
    once = λ k y there. omega (arith, v.once k y there, same_objs k y);
    apart = λ k t y a b l r.
        v.apart k t y a b (omega (arith, l, same_objs k y)) (omega (arith, r, same_objs t y));
    marked = marks;
    unmarked = λ k y there l.
        at-no x y true c.is_free (not_x k y there l)
        ∙ v.unmarked k y there (omega (arith, l, used-le k y));
    owned = λ k y there l.
        at-no x y (c.slab s).free c.word (not_x k y there l)
        ∙ v.owned k y there (omega (arith, l, used-le k y));
    zones = λ k y there l. v.zones k y there (omega (arith, l, same_objs k y));
  }

  -- On valid slabs, slab_obj_free of an object that is handed out returns: the object is the first
  -- free one of its slab and no longer handed out, and the slabs stay valid.
  pub slab_obj_free-IsCache :
      (c' : Cache) × (slab_obj_free c (x + 4) ≡ ok c')
      × IsCache c' (at s (x ∷ frees s) frees) (at s (erase x (used s)) used)
  unfolding slab_obj_free give_obj
  slab_obj_free-IsCache = (
    given,
    ground (
      arith,
      v.zones s x here (omega (arith, mine)),
      v.unmarked s x here mine,
      v.owned s x here mine,
    ),
    given-IsCache,
  )
