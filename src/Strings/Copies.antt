-- ===== src/Strings/Copies.antt =====
-- Copying and joining strings (kernel/util/string.c).
use avengers.Prelude.{
  ℕ, ◌+◌, ◌<◌, ◌≡◌, refl, List, [], ◌∷◌, ◌++◌, length, length-append, All, ok, arith,
}
use avengers.Strings.{strcpy, strcat, strlen}

-- the characters of a string: neither null nor beyond a byte
abbrev pub IsChar : ℕ → Type 0
IsChar c = (0 < c) × (c < 256)

-- a string in memory: its characters, the null byte, and what follows
abbrev pub text : List ℕ → List ℕ → List ℕ
text w rest = w ++ (0 ∷ rest)

strlen-text : (w rest : List ℕ) → All IsChar w → strlen (text w rest) ≡ ok (length w)
unfolding strlen
strlen-text [] rest h = refl
strlen-text (c ∷ w) rest (h, hs) = ground (arith, h.0, strlen-text w rest hs)

strcpy-text :
    (dest w rest : List ℕ)
    → All IsChar w
    → length w < length dest
    → (after : List ℕ) × (strcpy dest (text w rest) ≡ ok (text w after))
      × (length after + length w + 1 ≡ length dest)
unfolding strcpy
strcpy-text [] w rest h b = absurd (omega (arith, b))
strcpy-text (d ∷ dest) [] rest h b = (dest, refl, omega arith)
strcpy-text (d ∷ dest) (c ∷ w) rest (h, hs) b =
    let r = strcpy-text dest w rest hs (omega (arith, b)) in
    (r.0, ground (arith, h.0, r.1), omega (arith, r.2))

-- strcpy into memory with room for the string and its null byte: the memory then starts with the
-- characters of the string and a null byte, strlen of it returns the length of the string, and it
-- keeps its size.
pub strlen-strcpy :
    (dest w rest : List ℕ)
    → All IsChar w
    → length w < length dest
    → (dest' after : List ℕ) × (strcpy dest (text w rest) ≡ ok dest')
      × (dest' ≡ text w after)
      × (strlen dest' ≡ ok (length w))
      × (length dest' ≡ length dest)
strlen-strcpy dest w rest h b =
    let r = strcpy-text dest w rest h b in
    (text w r.0, r.0, r.1, refl, strlen-text w r.0 h, omega (arith, r.2, length-append w (0 ∷ r.0)))

-- strcat into memory with room for both strings joins them, and keeps the size of the memory.
strcat-text :
    (v room w rest : List ℕ)
    → All IsChar v
    → All IsChar w
    → length w < length room + 1
    → (after : List ℕ) × (strcat (text v room) (text w rest) ≡ ok (text (v ++ w) after))
      × (length after + length w ≡ length room)
unfolding strcat
strcat-text [] room w rest hv hw b =
    let r = strcpy-text (0 ∷ room) w rest hw (omega (arith, b)) in (r.0, r.1, omega (arith, r.2))
strcat-text (c ∷ v) room w rest (h, hs) hw b =
    let r = strcat-text v room w rest hs hw b in (r.0, ground (arith, h.0, r.1), r.2)
