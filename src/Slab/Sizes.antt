-- ===== src/Slab/Sizes.antt =====
-- The sizes of slabs and of the buckets of kmalloc, kernel/mm/slab.c. A size_t has 32 bits, and an
-- int from 2 ^ 31 on is negative.
pub mod Best
use avengers.Prelude.{
  ℕ, zero, suc, ◌+◌, ◌-◌, ◌*◌, ◌/◌, ◌%◌, ◌^◌, ◌≤◌, ◌<◌, ◌≡◌, refl, sym, ap, ◌∙◌, Bool, true, false,
  Bool-cases, eq_of_==, ◌==◌, ltb, leb, if◌then◌else◌, ◌⊎◌, inl, inr, arith, Outcome, ok, panic,
  ◌>>=◌, ◌>>◌, kassert, not,
}
use native.Mathlib.Nat.{div-mul-le_self, lt-div-mul-add}
use avengers.Pages.{pages}

-- `_slab_size`, with the 8 bytes of a bufctl and the 16 bytes of struct slab
abbrev pub slab_size : ℕ → ℕ → ℕ
slab_size objsize nobjs = (nobjs * (objsize + 8) + 16) % 2 ^ 32

-- PAGE_SIZE << order
abbrev pub block_bytes : ℕ → ℕ
block_bytes order = 4096 * pages order

-- `_slab_nobjs`
abbrev pub slab_nobjs : ℕ → ℕ → ℕ
slab_nobjs objsize order = (block_bytes order - 16) / ((objsize + 8) % 2 ^ 32)

-- `_slab_waste`
unfoldable pub slab_waste : ℕ → ℕ → ℕ
slab_waste objsize order =
    (block_bytes order + 2 ^ 32 - slab_size objsize (slab_nobjs objsize order)) % 2 ^ 32

-- `<` on int
abbrev pub ltb_int : ℕ → ℕ → Bool
ltb_int a b = ltb ((a + 2 ^ 31) % 2 ^ 32) ((b + 2 ^ 31) % 2 ^ 32)

-- the loop of `_calc_slab_size` for the least order, which panics beyond PAGE_NSIZES
unfoldable pub min_order : ℕ → ℕ → ℕ → Outcome ℕ
min_order zero order size = panic
min_order (suc n) order size =
    let rest = min_order n (suc order) size in
    if ltb_int (block_bytes order) size then rest else ok order

-- the loop of `_calc_slab_size` for the order with the least waste
unfoldable pub best_order : ℕ → ℕ → ℕ → ℕ → ℕ → ℕ
best_order zero objsize order best waste = best
best_order (suc n) objsize order best waste =
    let w = slab_waste objsize order in
    let better = ltb_int w waste in
    best_order n objsize (suc order) (if better then order else best) (if better then w else waste)

-- `_calc_slab_size`: the order and the number of objects. A divisor of 0 in `_slab_nobjs` faults.
unfoldable pub calc_slab_size : ℕ → Outcome (ℕ × ℕ)
unfolding min_order best_order
calc_slab_size objsize = do
  least ← min_order 8 0 (slab_size objsize 1)
  kassert (not ((objsize + 8) % 2 ^ 32 == 0))
  let best = best_order (4 - least) objsize (suc least) least (slab_waste objsize least)
  ok (best, slab_nobjs objsize best)

-- the loop of kmalloc over the buckets, from 2 ^ 6 to 2 ^ 18 bytes
unfoldable pub find_bucket : ℕ → ℕ → ℕ → Outcome ℕ
find_bucket zero order size = panic
find_bucket (suc n) order size =
    let rest = find_bucket n (suc order) size in if leb size (pages order) then ok order else rest

-- the bucket of kmalloc, whose size is a 32-bit number
unfoldable pub kmalloc_order : ℕ → Outcome ℕ
unfolding find_bucket
kmalloc_order size = find_bucket 13 6 ((size + 4) % 2 ^ 32)

find_bucket-fits :
    (n order size o : ℕ)
    → find_bucket n order size ≡ ok o
    → (order ≤ o)
      × (o < n + order)
      × (size ≤ pages o)
      × ((k : ℕ) → order ≤ k → k < o → pages k < size)
unfolding find_bucket
find_bucket-fits zero order size o e = cc
find_bucket-fits (suc n) order size o e = elim (Bool-cases (leb size (pages order))) [
  | inl y ↦
      let same : order ≡ o = ground (arith, y, e) in
      (
        omega (arith, same),
        omega (arith, same),
        ground (arith, y, ap pages same),
        λ k l r. absurd (omega (arith, same, l, r)),
      )
  | inr m ↦
      let (l, r, fit, least) = find_bucket-fits n (suc order) size o (ground (arith, m, e)) in
      (
        omega (arith, l),
        omega (arith, r),
        fit,
        λ k a b. elim (Bool-cases (k == order)) [
          | inl z ↦ ground (arith, m, ap pages (eq_of_== k order z))
          | inr z ↦ least k (ground (arith, z, a)) b
        ],
      )
]

-- For sizes that the header does not make overflow: kmalloc takes its memory from the least
-- bucket, of those from 64 bytes to 256 KB, that has room for the size and the header.
pub kmalloc_order-fits :
    (size o : ℕ)
    → size + 4 < 2 ^ 32
    → kmalloc_order size ≡ ok o
    → (6 ≤ o) × (o ≤ 18) × (size + 4 ≤ pages o) × ((k : ℕ) → 6 ≤ k → k < o → pages k < size + 4)
unfolding kmalloc_order
kmalloc_order-fits size o small e =
    let same : (size + 4) % 2 ^ 32 ≡ size + 4 = omega (arith, small) in
    let (l, r, fit, least) = find_bucket-fits 13 6 ((size + 4) % 2 ^ 32) o e in
    (l, omega (arith, r), omega (arith, fit, same), λ k a b. omega (arith, least k a b, same))

find_bucket-first :
    (n order size : ℕ) → size ≤ pages order → find_bucket (suc n) order size ≡ ok order
unfolding find_bucket
find_bucket-first n order size h = ground (arith, h)

-- For a size of 2 ^ 32 - 4 or more, which with the header overflows, kmalloc takes the bucket of 64
-- bytes.
pub kmalloc_order_wraps : (size : ℕ) → 2 ^ 32 ≤ size + 4 → size < 2 ^ 32 → kmalloc_order size ≡ ok 6
unfolding kmalloc_order
kmalloc_order_wraps size l r = find_bucket-first 12 6 ((size + 4) % 2 ^ 32) (omega (arith, l, r))
