-- ===== src/Strings/Tests.antt =====
-- Runs of kernel/util/string.c, and the theorems at concrete inputs.
use avengers.Prelude.{ℕ, ◌≡◌, refl, some, List, [], ◌∷◌, length, All, ok, arith}
use avengers.Strings.{
  strcpy, strlen, strchr, strrchr, strstr, strstr_loop, memcmp, strpbrk, strspn, in_set,
}
use avengers.Strings.Copies.{IsChar, text, strlen-strcpy}

-- "ab" and "aba"
abbrev ab : List ℕ
ab = 97 ∷ 98 ∷ []

abbrev aba : List ℕ
aba = 97 ∷ 98 ∷ 97 ∷ []

ab-chars : All IsChar ab
ab-chars = ((omega arith, omega arith), ((omega arith, omega arith), tt))

aba-chars : All IsChar aba
aba-chars =
    ((omega arith, omega arith), ((omega arith, omega arith), ((omega arith, omega arith), tt)))

strlen-strcpy_example :
    (dest' after : List ℕ) × (strcpy (9 ∷ 9 ∷ 9 ∷ 9 ∷ []) (text ab []) ≡ ok dest')
    × (dest' ≡ text ab after)
    × (strlen dest' ≡ ok 2)
    × (length dest' ≡ 4)
strlen-strcpy_example = strlen-strcpy (9 ∷ 9 ∷ 9 ∷ 9 ∷ []) ab [] ab-chars (omega arith)

finds_first : strchr (text aba []) 97 ≡ ok (some 0)
unfolding strchr
finds_first = refl

finds_last : strrchr (text aba []) 97 ≡ ok (some 2)
unfolding strrchr
finds_last = refl

finds_part : strstr (text aba []) (text (98 ∷ 97 ∷ []) []) ≡ ok (some 1)
unfolding strstr strstr_loop memcmp strlen
finds_part = refl

breaks_at : strpbrk (text aba []) (text (98 ∷ []) []) ≡ ok (some 1)
unfolding strpbrk in_set
breaks_at = refl

spans : strspn (text aba []) (text (97 ∷ []) []) ≡ ok 1
unfolding strspn in_set
spans = refl
