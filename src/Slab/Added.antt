-- ===== src/Slab/Added.antt =====
-- The slabs of an allocator of kernel/mm/slab.c stay valid when `_slab_allocator_grow` adds one.
use mathlib.Core.Path.{subst}
use avengers.Prelude.{
  ℕ, suc, ◌+◌, ◌-◌, ◌≤◌, ◌<◌, ◌≡◌, sym, ap, ◌∙◌, Bool, true, false, Bool-cases, eq_of_==, Option,
  none, some, List, [], ◌∷◌, ◌==◌, count, length, ◌⊎◌, inl, inr, arith,
}
use avengers.Slab.{Slab, Cache, at, next_obj, link_objs, add_slab}
use avengers.Slab.Valid.{Chain, IsCache, at-yes, at-no}
use avengers.Slab.Grown.{objs, length-objs, objs_once, Linked, link_objs-Linked}

-- The objects of a new slab, and the address of its struct
abbrev pub new_objs : Cache → ℕ → List ℕ
new_objs c addr = objs (suc (c.nobjs - 1)) c.objsize addr

abbrev pub new_slab : Cache → ℕ → ℕ
new_slab c addr = next_obj c (link_objs (c.nobjs - 1) c addr).1

module _ (c : Cache) (frees used : ℕ → List ℕ) (addr : ℕ) (v : IsCache c frees used)
    (some_obj : 0 < c.nobjs)
    (fresh : (s y : ℕ)
      → 0 < count s c.slabs
      → 0 < count y (frees s) + count y (used s)
      → count y (new_objs c addr) ≡ 0) where
  abbrev r : Cache × ℕ
  r = link_objs (c.nobjs - 1) c addr

  abbrev s : ℕ
  s = new_slab c addr

  linked : Linked (c.nobjs - 1) c addr r
  linked = link_objs-Linked (c.nobjs - 1) c addr

  abbrev word' : ℕ → Option ℕ
  word' = at r.1 none r.0.word

  abbrev slab' : ℕ → Slab
  slab' = at s (record { inuse = 0; free = some addr; start = addr }) r.0.slab

  abbrev frees' : ℕ → List ℕ
  frees' = at s (new_objs c addr) frees

  abbrev used' : ℕ → List ℕ
  used' = at s [] used

  -- A slab of the new chain is the new one, or one of the old.
  which :
      (k : ℕ)
      → 0 < count k (s ∷ r.0.slabs)
      → (k == s ≡ true) ⊎ ((k == s ≡ false) × (0 < count k c.slabs))
  which k there = elim (Bool-cases (k == s)) [
    | inl y ↦ inl y
    | inr n ↦ inr (n, ground (arith, n, there, ap (count k) linked.slabs_kept))
  ]

  -- What the old slabs hold is not the last new object.
  not_last :
      (k y : ℕ) → 0 < count k c.slabs → 0 < count y (frees k) + count y (used k) → y == r.1 ≡ false
  not_last k y there l = elim (Bool-cases (y == r.1)) [
    | inl m ↦ absurd (
        omega (
          arith,
          fresh k y there l,
          linked.last_in,
          ap (λ z. count z (new_objs c addr)) (eq_of_== y r.1 m),
        ))
    | inr n ↦ n
  ]

  old_word :
      (k y : ℕ)
      → 0 < count k c.slabs
      → 0 < count y (frees k) + count y (used k)
      → word' y ≡ c.word y
  old_word k y there l =
      at-no r.1 y none r.0.word (not_last k y there l) ∙ (linked.outside y (fresh k y there l)).0

  -- A chain of old objects is as it was.
  old-Chain :
      (xs : List ℕ) (h : Option ℕ)
      → ((y : ℕ) → 0 < count y xs → word' y ≡ c.word y)
      → Chain c.word h xs
      → Chain word' h xs
  old-Chain [] h same e = e
  old-Chain (x ∷ xs) h same (e, rest) = (
    e,
    subst (λ k. Chain word' k xs) (sym (same x (ground arith)))
        (old-Chain xs (c.word x) (λ y l. same y (ground (arith, l))) rest),
  )

  chains : (k : ℕ) → 0 < count k (s ∷ r.0.slabs) → Chain word' (slab' k).free (frees' k)
  chains k there = elim (which k there) [
    | inl m ↦ subst (Chain word' (slab' k).free) (sym (at-yes s k (new_objs c addr) frees m)) (
        subst (λ h. Chain word' h (new_objs c addr))
          (sym (
            ap (λ (t : Slab). t.free)
              (at-yes s k (record { inuse = 0; free = some addr; start = addr }) r.0.slab m)))
          (linked.chained word' (λ y n. at-no r.1 y none r.0.word n)
            (at-yes r.1 r.1 none r.0.word (ground arith))))
    | inr (n, old) ↦
        subst (Chain word' (slab' k).free) (sym (at-no s k (new_objs c addr) frees n)) (
          subst (λ h. Chain word' h (frees k))
            (sym (
              ap (λ (t : Slab). t.free)
                (at-no s k (record { inuse = 0; free = some addr; start = addr }) r.0.slab n
                  ∙ linked.slab_kept k)))
            (old-Chain (frees k) (c.slab k).free (λ y l. old_word k y old (omega (arith, l)))
              (v.chain k old)))
  ]

  -- The marks and red zones of the new objects
  new_marks :
      (y : ℕ)
      → 0 < count y (new_objs c addr)
      → (at r.1 true r.0.is_free y ≡ true) × (at r.1 true r.0.intact y ≡ true)
  new_marks y l = elim (Bool-cases (y == r.1)) [
    | inl m ↦ (at-yes r.1 y true r.0.is_free m, at-yes r.1 y true r.0.intact m)
    | inr n ↦
        let (f, t) = linked.last_free y l n in
        (at-no r.1 y true r.0.is_free n ∙ f, at-no r.1 y true r.0.intact n ∙ t)
  ]

  old_marks :
      (k y : ℕ)
      → 0 < count k c.slabs
      → 0 < count y (frees k) + count y (used k)
      → (at r.1 true r.0.is_free y ≡ c.is_free y) × (at r.1 true r.0.intact y ≡ c.intact y)
  old_marks k y there l =
      let n = not_last k y there l in
      let (w, f, t) = linked.outside y (fresh k y there l) in
      (at-no r.1 y true r.0.is_free n ∙ f, at-no r.1 y true r.0.intact n ∙ t)

  -- The lists of a slab of the new chain
  abbrev Lists : ℕ → Type 0
  Lists k =
      ((k ≡ s) × (frees' k ≡ new_objs c addr) × (used' k ≡ []))
      ⊎ ((0 < count k c.slabs) × (k == s ≡ false) × (frees' k ≡ frees k) × (used' k ≡ used k))

  lists : (k : ℕ) → 0 < count k (s ∷ r.0.slabs) → Lists k
  lists k there = elim (which k there) [
    | inl m ↦ inl (eq_of_== k s m, at-yes s k (new_objs c addr) frees m, at-yes s k [] used m)
    | inr (n, old) ↦ inr (old, n, at-no s k (new_objs c addr) frees n, at-no s k [] used n)
  ]

  sizes : (k : ℕ) → 0 < count k (s ∷ r.0.slabs) → length (frees' k) + length (used' k) ≡ c.nobjs
  sizes k there = elim (lists k there) [
    | inl (e, f, u) ↦
        omega (
          arith,
          some_obj,
          ap length f,
          ap length u,
          length-objs (suc (c.nobjs - 1)) c.objsize addr,
        )
    | inr (old, n, f, u) ↦ omega (arith, ap length f, ap length u, v.full k old)
  ]

  uses : (k : ℕ) → 0 < count k (s ∷ r.0.slabs) → (slab' k).inuse ≡ length (used' k)
  uses k there = elim (which k there) [
    | inl m ↦
        ap (λ (t : Slab). t.inuse)
          (at-yes s k (record { inuse = 0; free = some addr; start = addr }) r.0.slab m)
        ∙ sym (ap length (at-yes s k [] used m))
    | inr (n, old) ↦
        ap (λ (t : Slab). t.inuse)
          (at-no s k (record { inuse = 0; free = some addr; start = addr }) r.0.slab n
            ∙ linked.slab_kept k)
        ∙ v.in_use k old
        ∙ sym (ap length (at-no s k [] used n))
  ]

  singles : (k y : ℕ) → 0 < count k (s ∷ r.0.slabs) → count y (frees' k) + count y (used' k) ≤ 1
  singles k y there = elim (lists k there) [
    | inl (e, f, u) ↦
        omega
          (arith, ap (count y) f, ap (count y) u, objs_once (suc (c.nobjs - 1)) c.objsize addr y)
    | inr (old, n, f, u) ↦ omega (arith, ap (count y) f, ap (count y) u, v.once k y old)
  ]

  parts :
      (k t y : ℕ)
      → 0 < count k (s ∷ r.0.slabs)
      → 0 < count t (s ∷ r.0.slabs)
      → 0 < count y (frees' k) + count y (used' k)
      → 0 < count y (frees' t) + count y (used' t)
      → k ≡ t
  parts k t y there too a b = elim (lists k there) [
    | inl (e, f, u) ↦ elim (lists t too) [
      | inl (e', f', u') ↦ e ∙ sym e'
      | inr (old, n, f', u') ↦ absurd (
          omega (
            arith,
            a,
            b,
            ap (count y) f,
            ap (count y) u,
            ap (count y) f',
            ap (count y) u',
            fresh t y old (omega (arith, b, ap (count y) f', ap (count y) u')),
          ))
    ]
    | inr (old, n, f, u) ↦ elim (lists t too) [
      | inl (e', f', u') ↦ absurd (
          omega (
            arith,
            a,
            b,
            ap (count y) f,
            ap (count y) u,
            ap (count y) f',
            ap (count y) u',
            fresh k y old (omega (arith, a, ap (count y) f, ap (count y) u)),
          ))
      | inr (old', n', f', u') ↦
          v.apart k t y old old' (omega (arith, a, ap (count y) f, ap (count y) u))
            (omega (arith, b, ap (count y) f', ap (count y) u'))
    ]
  ]

  abbrev free' : ℕ → Bool
  free' = at r.1 true r.0.is_free

  marks : (k y : ℕ) → 0 < count k (s ∷ r.0.slabs) → 0 < count y (frees' k) → free' y ≡ true
  marks k y there l = elim (lists k there) [
    | inl (e, f, u) ↦ (new_marks y (omega (arith, l, ap (count y) f))).0
    | inr (old, n, f, u) ↦
        (old_marks k y old (omega (arith, l, ap (count y) f))).0
        ∙ v.marked k y old (omega (arith, l, ap (count y) f))
  ]

  handed :
      (k y : ℕ)
      → 0 < count k (s ∷ r.0.slabs)
      → 0 < count y (used' k)
      → (free' y ≡ false) × (word' y ≡ some k)
  handed k y there l = elim (lists k there) [
    | inl (e, f, u) ↦ absurd (omega (arith, l, ap (count y) u))
    | inr (old, n, f, u) ↦
        let l' : 0 < count y (used k) = omega (arith, l, ap (count y) u) in
        (
          (old_marks k y old (omega (arith, l'))).0 ∙ v.unmarked k y old l',
          old_word k y old (omega (arith, l')) ∙ v.owned k y old l',
        )
  ]

  whole :
      (k y : ℕ)
      → 0 < count k (s ∷ r.0.slabs)
      → 0 < count y (frees' k) + count y (used' k)
      → at r.1 true r.0.intact y ≡ true
  whole k y there l = elim (lists k there) [
    | inl (e, f, u) ↦ (new_marks y (omega (arith, l, ap (count y) f, ap (count y) u))).1
    | inr (old, n, f, u) ↦
        let l' : 0 < count y (frees k) + count y (used k) =
          omega (arith, l, ap (count y) f, ap (count y) u) in
        (old_marks k y old l').1 ∙ v.zones k y old l'
  ]

  -- If the objects of the new slab are none of the old ones, then it is valid with all of them
  -- free.
  pub add_slab-IsCache :
      IsCache
        (add_slab c addr)
        (at (new_slab c addr) (new_objs c addr) frees)
        (at (new_slab c addr) [] used)
  unfolding add_slab
  add_slab-IsCache = record {
    chain = chains;
    full = λ k there. sizes k there ∙ sym linked.nobjs_kept;
    in_use = uses;
    once = singles;
    apart = parts;
    marked = marks;
    unmarked = λ k y there l. (handed k y there l).0;
    owned = λ k y there l. (handed k y there l).1;
    zones = whole;
  }

  pub add_slab-nobjs : (add_slab c addr).nobjs ≡ c.nobjs
  unfolding add_slab
  add_slab-nobjs = linked.nobjs_kept

  -- The new slab is in the chain, and not full.
  pub add_slab_room : (0 < count s (add_slab c addr).slabs) × (((add_slab c addr).slab s).inuse ≡ 0)
  unfolding add_slab
  add_slab_room = (
    ground arith,
    ap (λ (t : Slab). t.inuse)
        (at-yes s s (record { inuse = 0; free = some addr; start = addr }) r.0.slab (ground arith)),
  )
