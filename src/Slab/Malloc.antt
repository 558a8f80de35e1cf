-- ===== src/Slab/Malloc.antt =====
-- kmalloc and kfree of kernel/mm/slab.c. What memory holds, but for the header before each piece,
-- is left out.
use mathlib.Core.Path.{subst}
use avengers.Prelude.{
  ℕ, ◌+◌, ◌-◌, ◌<◌, ◌≡◌, sym, ap, ◌∙◌, true, Bool-cases, eq_of_==, Option, none, some, List, ◌∷◌,
  ◌==◌, count, erase, inl, inr, arith, Outcome, ok, panic, ◌>>=◌,
}
use avengers.Slab.{Cache, at, slab_obj_alloc, slab_obj_free}
use avengers.Slab.Sizes.{kmalloc_order}
use avengers.Slab.Valid.{IsCache, at-yes, at-no}
use avengers.Slab.Alloc.{slab_obj_alloc-cases}
use avengers.Slab.Given.{slab_obj_free-IsCache}

-- kmalloc_allocators by the order of the bucket, and the pointers to them before the pieces of
-- memory
pub record Buckets : Type 0 where
  pub cache : ℕ → Cache
  pub header : ℕ → Option ℕ

pub kmalloc : (Cache → ℕ → Outcome (Cache × Option ℕ)) → Buckets → ℕ → Outcome (Buckets × Option ℕ)
kmalloc pages b size = do
  o ← kmalloc_order size
  (c, r) ← slab_obj_alloc pages (b.cache o)
  let b' = record b { cache = at o c b.cache }
  elim r [
    | none ↦ ok (b', none)
    | some a ↦ ok (record b' { header = at a (some o) b.header }, some (a + 4))
  ]

-- The poison goes over the header too, and names no allocator.
pub kfree : Buckets → ℕ → Outcome Buckets
kfree b addr = elim (b.header (addr - 4)) [
  | none ↦ panic
  | some o ↦ slab_obj_free (b.cache o) (addr - 4) >>= λ c.
      ok (record { cache = at o c b.cache; header = at (addr - 4) none b.header })
]

kmalloc_steps :
    (pages : Cache → ℕ → Outcome (Cache × Option ℕ)) (b : Buckets) (size o a : ℕ) (c : Cache)
    → kmalloc_order size ≡ ok o
    → slab_obj_alloc pages (b.cache o) ≡ ok (c, some a)
    → kmalloc pages b size
      ≡ ok (record { cache = at o c b.cache; header = at a (some o) b.header }, some (a + 4))
unfolding kmalloc
kmalloc_steps pages b size o a c e f = ground (arith, e, f)

kfree_steps :
    (b : Buckets) (o a : ℕ) (c : Cache)
    → b.header a ≡ some o
    → slab_obj_free (b.cache o) a ≡ ok c
    → kfree b (a + 4) ≡ ok (record { cache = at o c b.cache; header = at a none b.header })
unfolding kfree
kfree_steps b o a c e f = ground (
  arith,
  e,
  f,
  ap (λ k. b.header k) (add_sub a),
  ap (slab_obj_free (b.cache o)) (add_sub a),
  ap (λ k. at k none b.header) (add_sub a),
)
  where
    add_sub : (n : ℕ) → n + 4 - 4 ≡ n
    add_sub n = omega arith

same_num : (n : ℕ) → n == n ≡ true
same_num n = ground arith

erase_head : (x : ℕ) (xs : List ℕ) → erase x (x ∷ xs) ≡ xs
erase_head x xs = ground arith

-- A list that is stored twice is as it was.
back :
    (s : ℕ) (new mid : List ℕ) (f : ℕ → List ℕ)
    → new ≡ f s
    → (k : ℕ) → at s new (at s mid f) k ≡ f k
back s new mid f e k = elim (Bool-cases (k == s)) [
  | inl m ↦ at-yes s k new (at s mid f) m ∙ e ∙ ap f (sym (eq_of_== k s m))
  | inr n ↦ at-no s k new (at s mid f) n ∙ at-no s k mid f n
]

-- If the bucket for a size has valid slabs, not all full: kmalloc gives a piece of memory, kfree
-- takes it back, and the slabs of the bucket are valid with the same free objects, in the same
-- order, and the same objects handed out.
pub kmalloc-kfree :
    (pages : Cache → ℕ → Outcome (Cache × Option ℕ)) (b : Buckets) (size o s : ℕ)
    (frees used : ℕ → List ℕ)
    → kmalloc_order size ≡ ok o
    → IsCache (b.cache o) frees used
    → 0 < count s (b.cache o).slabs
    → ((b.cache o).slab s).inuse < (b.cache o).nobjs
    → (b1 b2 : Buckets) × (a : ℕ) × (frees2 used2 : ℕ → List ℕ) × (kmalloc pages b size
        ≡ ok (b1, some a))
      × (kfree b1 a ≡ ok b2)
      × IsCache (b2.cache o) frees2 used2
      × ((k : ℕ) → frees2 k ≡ frees k)
      × ((k : ℕ) → used2 k ≡ used k)
kmalloc-kfree pages b size o s frees used e v there room =
    elim (slab_obj_alloc-cases pages (b.cache o) frees used v) [
      | inr (all, no_pages) ↦ absurd (omega (arith, room, all s there))
      | inl (c1, x, f, t) ↦
          let f1 = at t.from t.rest frees in
          let u1 = at t.from (x ∷ used t.from) used in
          let (c2, g, v2) =
            slab_obj_free-IsCache c1 f1 u1 t.stays_valid t.from x
              (omega (arith, t.slab_in, ap (count t.from) t.slabs_kept))
              (ground (
                arith,
                ap (count x) (at-yes t.from t.from (x ∷ used t.from) used (same_num t.from)),
              )) in
          let b1 : Buckets = record {
            cache = at o c1 b.cache;
            header = at (x + 4) (some o) b.header;
          } in
          let b2 : Buckets = record {
            cache = at o c2 b1.cache;
            header = at (x + 4) none b1.header;
          } in
          (
            b1,
            b2,
            x + 4 + 4,
            at t.from (x ∷ f1 t.from) f1,
            at t.from (erase x (u1 t.from)) u1,
            kmalloc_steps pages b size o (x + 4) c1 e f,
            kfree_steps b1 o (x + 4) c2
                (at-yes (x + 4) (x + 4) (some o) b.header (same_num (x + 4)))
                (ap (λ z. slab_obj_free z (x + 4)) (at-yes o o c1 b.cache (same_num o)) ∙ g),
            subst
                (λ z. IsCache z (at t.from (x ∷ f1 t.from) f1) (at t.from (erase x (u1 t.from)) u1))
                (sym (at-yes o o c2 b1.cache (same_num o))) v2,
            back t.from (x ∷ f1 t.from) t.rest frees (
                ap (λ l. x ∷ l) (at-yes t.from t.from t.rest frees (same_num t.from))
                ∙ sym t.was_free),
            back t.from (erase x (u1 t.from)) (x ∷ used t.from) used (
                ap (erase x) (at-yes t.from t.from (x ∷ used t.from) used (same_num t.from))
                ∙ erase_head x (used t.from)),
          )
    ]
