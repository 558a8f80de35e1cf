-- ===== src/Slab/Grown.antt =====
-- A slab that `_slab_allocator_grow` of kernel/mm/slab.c adds
use mathlib.Core.Path.{subst}
use avengers.Prelude.{
  ℕ, zero, suc, ◌+◌, ◌≤◌, ◌<◌, ◌≡◌, refl, sym, ◌∙◌, true, false, Bool-cases, eq_of_==, Option, none,
  some, List, [], ◌∷◌, ◌==◌, ltb, count, length, inl, inr, arith,
}
use avengers.Slab.{Cache, at, next_obj, link_objs}
use avengers.Slab.Valid.{Chain, at-yes, at-no}

-- The objects of a slab, from the first on
abbrev pub objs : ℕ → ℕ → ℕ → List ℕ
objs zero sz a = []
objs (suc n) sz a = a ∷ objs n sz (a + sz + 8)

pub length-objs : (n sz a : ℕ) → length (objs n sz a) ≡ n
length-objs zero sz a = refl
length-objs (suc n) sz a = omega (arith, length-objs n sz (a + sz + 8))

objs-from : (n sz a y : ℕ) → 0 < count y (objs n sz a) → a ≤ y
objs-from zero sz a y h = absurd (omega (arith, h))
objs-from (suc n) sz a y h = elim (Bool-cases (a == y)) [
  | inl m ↦ omega (arith, eq_of_== a y m)
  | inr m ↦ omega (arith, objs-from n sz (a + sz + 8) y (ground (arith, m, h)))
]

objs_before : (n sz a y : ℕ) → y < a → count y (objs n sz a) ≡ 0
objs_before n sz a y h = elim (Bool-cases (ltb 0 (count y (objs n sz a)))) [
  | inl m ↦ absurd (omega (arith, h, objs-from n sz a y (ground (arith, m))))
  | inr m ↦ ground (arith, m)
]

pub objs_once : (n sz a y : ℕ) → count y (objs n sz a) ≤ 1
objs_once zero sz a y = omega arith
objs_once (suc n) sz a y = elim (Bool-cases (a == y)) [
  | inl m ↦ ground (arith, m, objs_before n sz (a + sz + 8) y (omega (arith, eq_of_== a y m)))
  | inr m ↦ ground (arith, m, objs_once n sz (a + sz + 8) y)
]

not_same : (m n : ℕ) → m < n → m == n ≡ false
not_same m n h = ground (arith, h)

-- What the loop over the objects but the last does
pub record Linked (n : ℕ) (c : Cache) (obj : ℕ) (r : Cache × ℕ) : Type 0 where
  pub slabs_kept : r.0.slabs ≡ c.slabs
  pub nobjs_kept : r.0.nobjs ≡ c.nobjs
  pub slab_kept : (s : ℕ) → r.0.slab s ≡ c.slab s
  pub last_free :
      (y : ℕ)
      → 0 < count y (objs (suc n) c.objsize obj)
      → y == r.1 ≡ false
      → (r.0.is_free y ≡ true) × (r.0.intact y ≡ true)
  pub last_in : 0 < count r.1 (objs (suc n) c.objsize obj)
  pub outside :
      (y : ℕ)
      → count y (objs (suc n) c.objsize obj) ≡ 0
      → (r.0.word y ≡ c.word y) × (r.0.is_free y ≡ c.is_free y) × (r.0.intact y ≡ c.intact y)
  pub before : (y : ℕ) → y < obj → r.0.word y ≡ c.word y
  pub chained :
      (w : ℕ → Option ℕ)
      → ((y : ℕ) → y == r.1 ≡ false → w y ≡ r.0.word y)
      → w r.1 ≡ none
      → Chain w (some obj) (objs (suc n) c.objsize obj)

pub link_objs-Linked : (n : ℕ) (c : Cache) (obj : ℕ) → Linked n c obj (link_objs n c obj)
unfolding link_objs
link_objs-Linked zero c obj = record {
  slabs_kept = refl;
  nobjs_kept = refl;
  slab_kept = λ s. refl;
  last_free = λ y h m. absurd (ground (arith, h, m));
  last_in = ground arith;
  outside = λ y h. (refl, refl, refl);
  before = λ y h. refl;
  chained = λ w same end. (refl, end);
}
link_objs-Linked (suc n) c obj =
    let c' : Cache = record c {
      is_free = at obj true c.is_free;
      word = at obj (some (next_obj c obj)) c.word;
      intact = at obj true c.intact;
    } in
    let v = link_objs-Linked n c' (next_obj c obj) in
    record {
      slabs_kept = v.slabs_kept;
      nobjs_kept = v.nobjs_kept;
      slab_kept = v.slab_kept;
      last_free = λ y h m. elim (Bool-cases (y == obj)) [
        | inl z ↦
            let (w, f, t) = v.outside y (
              objs_before (suc n) c.objsize (next_obj c obj) y (omega (arith, eq_of_== y obj z))) in
            (f ∙ at-yes obj y true c.is_free z, t ∙ at-yes obj y true c.intact z)
        | inr z ↦ v.last_free y (ground (arith, h, z)) m
      ];
      last_in = omega (arith, v.last_in);
      outside = λ y h.
          let n_obj : y == obj ≡ false = ground (arith, h) in
          let (w, f, t) = v.outside y (omega (arith, h)) in
          (
            w ∙ at-no obj y (some (next_obj c obj)) c.word n_obj,
            f ∙ at-no obj y true c.is_free n_obj,
            t ∙ at-no obj y true c.intact n_obj,
          );
      before = λ y h.
          v.before y (omega (arith, h))
          ∙ at-no obj y (some (next_obj c obj)) c.word (ground (arith, h));
      chained = λ w same end.
          let beyond : obj + c.objsize + 8 ≤ (link_objs n c' (next_obj c obj)).1 =
            objs-from (suc n) c.objsize (next_obj c obj) ((link_objs n c' (next_obj c obj)).1)
              v.last_in in
          let linked : w obj ≡ some (next_obj c obj) =
            same obj (not_same obj ((link_objs n c' (next_obj c obj)).1) (omega (arith, beyond)))
            ∙ v.before obj (omega arith)
            ∙ at-yes obj obj (some (next_obj c obj)) c.word (ground arith) in
          (
            refl,
            subst (λ k. Chain w k (objs (suc n) c.objsize (next_obj c obj))) (sym linked)
                (v.chained w same end),
          );
    }
