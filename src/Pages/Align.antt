-- ===== src/Pages/Align.antt =====
-- Multiples of the sizes of blocks, as kernel/mm/page.c computes with them: halves and buddies.
use native.Mathlib.Nat.{
  div-eq_of_eq-mul_left, div-eq_of_lt-le, div-div-eq-div-mul, div-mul-le_self, lt-div-mul-add,
  mul_comm,
}
use avengers.Prelude.{
  ℕ, ◌+◌, ◌-◌, ◌*◌, ◌/◌, ◌%◌, ◌≤◌, ◌<◌, ◌≡◌, ◌≢◌, sym, ap, ◌∙◌, Bool-cases, ◌==◌, if◌then◌else◌,
  inl, inr, arith,
}

-- a multiple of w
abbrev pub IsMultiple : ℕ → ℕ → Type 0
IsMultiple w x = x ≡ x / w * w

IsMultiple-mul : (w k x : ℕ) → 0 < w → x ≡ k * w → IsMultiple w x
IsMultiple-mul w k x pos e = e ∙ ap (λ q. q * w) (sym (div-eq_of_eq-mul_left pos e))

double : (k w : ℕ) → k * (2 * w) ≡ 2 * k * w
double k w = grind arith

module _ (w x : ℕ) (pos : 0 < w) where
  pub IsMultiple-half : IsMultiple (2 * w) x → IsMultiple w x
  IsMultiple-half m = IsMultiple-mul w (2 * (x / (2 * w))) x pos (m ∙ double (x / (2 * w)) w)

  pub IsMultiple-upper_half : IsMultiple (2 * w) x → IsMultiple w (x + w)
  IsMultiple-upper_half m =
      IsMultiple-mul w (2 * (x / (2 * w)) + 1) (x + w) pos
        (grind (arith, m, double (x / (2 * w)) w))

  pub div-upper_half : IsMultiple (2 * w) x → (x + w) / (2 * w) ≡ x / (2 * w)
  div-upper_half d =
      div-eq_of_lt-le {k = x / (2 * w)} (2 * w) {m = x + w} (omega (arith, d)) (grind (arith, d))

  -- The index of a pair is half the index of a block.
  pair : x / (2 * w) ≡ x / w / 2
  pair = ap (λ k. x / k) (mul_comm 2 w) ∙ sym (div-div-eq-div-mul x w 2)

  -- A block is the lower or the upper half of its pair.
  halves : IsMultiple w x → x ≡ (2 * (x / (2 * w)) + x / w % 2) * w
  halves m = m ∙ ap (λ i. i * w) (omega (arith, pair))

  pub IsMultiple-even : IsMultiple w x → x / w % 2 ≡ 0 → x ≡ x / (2 * w) * (2 * w)
  IsMultiple-even m e = halves m ∙ ap (λ r. (2 * (x / (2 * w)) + r) * w) e ∙ grind arith

  above : IsMultiple w x → x / w % 2 ≡ 1 → x ≡ x / (2 * w) * (2 * w) + w
  above m e = halves m ∙ ap (λ r. (2 * (x / (2 * w)) + r) * w) e ∙ grind arith

  pub IsMultiple-odd : IsMultiple w x → x / w % 2 ≡ 1 → (w ≤ x) × IsMultiple (2 * w) (x - w)
  IsMultiple-odd m e = (
    omega (arith, above m e),
    IsMultiple-mul (2 * w) (x / (2 * w)) (x - w) (omega arith) (omega (arith, above m e)),
  )

-- The two blocks of a pair.
abbrev pub buddy : ℕ → ℕ → ℕ
buddy w x = if x / w % 2 == 1 then x - w else x + w

module _ (w x y : ℕ) (pos : 0 < w) where
  pub buddy_unique :
      IsMultiple w x → IsMultiple w y → x / (2 * w) ≡ y / (2 * w) → x ≢ y → y ≡ buddy w x
  buddy_unique m n same other =
      let base : x / (2 * w) * (2 * w) ≡ y / (2 * w) * (2 * w) = ap (λ q. q * (2 * w)) same in
      elim (Bool-cases (x / w % 2 == 1)) [
        | inl o ↦
            ground (arith, base, other, above w x pos m, IsMultiple-even w y pos n, above w y pos n)
        | inr e ↦ ground (
          arith,
          base,
          other,
          IsMultiple-even w x pos m,
          IsMultiple-even w y pos n,
          above w y pos n,
        )
      ]

-- Numbers of one index lie in one block.
pub index-near : (w x y : ℕ) → 0 < w → IsMultiple w x → y / w ≡ x / w → (x ≤ y) × (y < x + w)
index-near w x y pos m same =
    let q : y / w * w ≡ x / w * w = ap (λ k. k * w) same in
    (
      omega (arith, q, m, div-mul-le_self y w),
      omega (arith, q, m, lt-div-mul-add {a = y} {b = w} pos),
    )
