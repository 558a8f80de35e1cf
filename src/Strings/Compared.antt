-- ===== src/Strings/Compared.antt =====
-- Comparing strings (strcmp of kernel/util/string.c).
use avengers.Prelude.{
  ℕ, ◌≡◌, refl, ◌≢◌, ◌⊎◌, inl, inr, Bool-cases, false, List, [], ◌∷◌, ◌==◌, eq_of_==, All, ok,
  arith,
}
use avengers.Strings.{strcmp, char_diff, int_of_char}
use avengers.Strings.Copies.{IsChar, text}

-- strcmp returns 0 for equal strings, and a number other than 0 for strings that
-- differ, of characters that are not null.
strcmp-cases :
    (v w rest rest' : List ℕ)
    → All IsChar v
    → All IsChar w
    → ((v ≡ w) × (strcmp (text v rest) (text w rest') ≡ ok 0))
      ⊎ ((v ≢ w) × (r : ℕ) × (strcmp (text v rest) (text w rest') ≡ ok r) × (r ≢ 0))
unfolding strcmp
strcmp-cases [] [] r s hv hw = inl (refl, refl)
strcmp-cases [] (d ∷ w) r s hv (h, hs) =
    inr (
      λ e. cc,
      int_of_char (char_diff 0 d),
      ground (arith, h.0, h.1),
      λ e. ground (arith, h.0, h.1),
    )
strcmp-cases (c ∷ v) [] r s (h, hs) hw =
    inr (
      λ e. cc,
      int_of_char (char_diff c 0),
      ground (arith, h.0, h.1),
      λ e. ground (arith, h.0, h.1),
    )
strcmp-cases (c ∷ v) (d ∷ w) r s (h, hs) (k, ks) = elim (Bool-cases (c == d)) [
  | inr other ↦ inr (
    λ e. unequal other (head_eq e),
    int_of_char (char_diff c d),
    ground (arith, h.0, h.1, k.0, k.1, other),
    λ e. ground (arith, h.0, h.1, k.0, k.1, other),
  )
  | inl same ↦ elim (strcmp-cases v w r s hs ks) [
    | inl (e, z) ↦ inl (cons_eq (eq_of_== c d same) e, ground (arith, h.0, same))
    | inr (n, x, e, z) ↦ inr (λ q. n (tail_eq q), x, ground (arith, h.0, same), z)
  ]
]
  where
    head_eq : (c ∷ v) ≡ (d ∷ w) → c ≡ d
    head_eq e = cc

    tail_eq : (c ∷ v) ≡ (d ∷ w) → v ≡ w
    tail_eq e = cc

    cons_eq : c ≡ d → v ≡ w → (c ∷ v) ≡ (d ∷ w)
    cons_eq e f = cc

    unequal : (c == d) ≡ false → c ≡ d → ⊥
    unequal other e = ground arith
