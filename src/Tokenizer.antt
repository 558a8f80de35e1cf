-- ===== src/Tokenizer.antt =====
-- kshell_next_token of kernel/test/kshell/tokenizer.c. A line is the list of its bytes up to the end;
-- a token has the place in the line where its text starts.
mod Tests
use avengers.Prelude.{
  ℕ, zero, suc, ◌+◌, ◌≡◌, refl, sym, ap, ◌∙◌, Bool, true, false, not, Bool-cases, ◌&&◌, List, [],
  ◌∷◌, ◌++◌, ◌==◌, if◌then◌else◌, length, ◌⊎◌, inl, inr, arith,
}

-- kshell_token_type_t
pub data Kind : Type 0 where
  word : Kind
  redirect_in : Kind
  redirect_out : Kind
  redirect_out_append : Kind
  eol : Kind

-- kshell_token_t
pub record Token : Type 0 where
  pub kind : Kind
  pub start : ℕ
  pub textlen : ℕ

-- isspace is a parameter.
module _ (isspace : ℕ → Bool) where
  -- Does the loop over the text of a word go on at a byte?
  abbrev pub in_word : ℕ → Bool
  in_word c = not (isspace c) && not (c == 60) && not (c == 62)

  pub word_len : List ℕ → ℕ
  word_len [] = 0
  word_len (c ∷ cs) = let rest = word_len cs in if in_word c then suc rest else 0

  -- the type of the token that starts with ">"
  abbrev pub out_kind : List ℕ → Kind
  out_kind [] = redirect_out
  out_kind (c ∷ cs) = if c == 62 then redirect_out_append else redirect_out

  -- what follows the blanks, and how many there are
  pub token_at : List ℕ → ℕ → Token × ℕ
  unfolding word_len
  token_at [] i = (record { kind = eol; start = i; textlen = 0 }, 0)
  token_at (c ∷ cs) i =
      if c == 60
      then (record { kind = redirect_in; start = i; textlen = 1 }, 1)
      else if c == 62
      then out_token (out_kind cs)
      else (record { kind = word; start = i; textlen = word_len (c ∷ cs) }, i + word_len (c ∷ cs))
    where
      out_token : Kind → Token × ℕ
      out_token redirect_out_append =
          (record { kind = redirect_out_append; start = i; textlen = 2 }, 2)
      out_token k = (record { kind = k; start = i; textlen = 1 }, 1)

  -- the loop over blanks
  pub from_blanks : List ℕ → ℕ → Token × ℕ
  unfolding token_at
  from_blanks [] i = token_at [] i
  from_blanks (c ∷ cs) i =
      let rest = from_blanks cs (suc i) in if isspace c then rest else token_at (c ∷ cs) i

  -- `kshell_next_token`: the token and the result
  pub kshell_next_token : List ℕ → Token × ℕ
  unfolding from_blanks
  kshell_next_token line = from_blanks line 0

  abbrev pub AllBlank : List ℕ → Type 0
  AllBlank [] = Unit {0}
  AllBlank (b ∷ bs) = (isspace b ≡ true) × AllBlank bs

  abbrev pub AllWord : List ℕ → Type 0
  AllWord [] = Unit {0}
  AllWord (c ∷ cs) = (in_word c ≡ true) × AllWord cs

  -- What follows a word: the end of the line, a blank, "<" or ">"
  abbrev pub EndsWord : List ℕ → Type 0
  EndsWord [] = Unit {0}
  EndsWord (c ∷ cs) = in_word c ≡ false

  word_len-append : (w tail : List ℕ) → AllWord w → EndsWord tail → word_len (w ++ tail) ≡ length w
  unfolding word_len
  word_len-append [] [] v e = refl
  word_len-append [] (c ∷ cs) v e = ap (λ b. if b then suc (word_len cs) else 0) e
  word_len-append (c ∷ w) tail (y, v) e =
      ap (λ b. if b then suc (word_len (w ++ tail)) else 0) y ∙ ap suc (word_len-append w tail v e)

  -- Blanks before the first byte of a token only move it.
  from_blanks-skips :
      (bs line : List ℕ) (c i : ℕ)
      → AllBlank bs
      → isspace c ≡ false
      → from_blanks (bs ++ (c ∷ line)) i ≡ token_at (c ∷ line) (i + length bs)
  unfolding from_blanks
  from_blanks-skips [] line c i v n =
      ap (λ b. if b then from_blanks line (suc i) else token_at (c ∷ line) i) n
      ∙ ap (token_at (c ∷ line)) (omega arith)
  from_blanks-skips (b ∷ bs) line c i (y, v) n =
      ap
        (λ x.
          if x then from_blanks (bs ++ (c ∷ line)) (suc i) else token_at (b ∷ bs ++ (c ∷ line)) i)
        y
      ∙ from_blanks-skips bs line c (suc i) v n
      ∙ ap (token_at (c ∷ line)) (omega arith)

  from_zero : (line : List ℕ) (i : ℕ) → token_at line (0 + i) ≡ token_at line i
  from_zero line i = ap (token_at line) (omega arith)

  token_at_word :
      (c : ℕ) (cs : List ℕ) (i : ℕ)
      → in_word c ≡ true
      → token_at (c ∷ cs) i
        ≡ (record { kind = word; start = i; textlen = word_len (c ∷ cs) }, i + word_len (c ∷ cs))
  unfolding token_at
  token_at_word c cs i y = ground (arith, y)

  -- Of blanks, a word that is not empty, and what ends a word, kshell_next_token gives the word, and
  -- returns the length of the blanks and the word together.
  pub kshell_next_token_word :
      (bs w tail : List ℕ) (c : ℕ)
      → AllBlank bs
      → AllWord (c ∷ w)
      → EndsWord tail
      → kshell_next_token (bs ++ (c ∷ w ++ tail)) ≡ (
        record { kind = word; start = length bs; textlen = length (c ∷ w) },
        length bs + length (c ∷ w),
      )
  unfolding kshell_next_token token_at
  kshell_next_token_word bs w tail c v (y, u) e =
      from_blanks-skips bs (w ++ tail) c 0 v (ground (arith, y))
      ∙ from_zero (c ∷ (w ++ tail)) (length bs)
      ∙ token_at_word c (w ++ tail) (length bs) y
      ∙ ap (λ n. (record { kind = word; start = length bs; textlen = n }, length bs + n))
          (word_len-append (c ∷ w) tail (y, u) e)

  -- After at least one blank, "<" is given with the result 1, which passes only the first blank: the call
  -- at the next byte gives the same "<" again.
  pub redirect_again :
      (b : ℕ) (bs line : List ℕ)
      → AllBlank (b ∷ bs)
      → isspace 60 ≡ false
      → (kshell_next_token (b ∷ bs ++ (60 ∷ line))
          ≡ (record { kind = redirect_in; start = suc (length bs); textlen = 1 }, 1))
        × (kshell_next_token (bs ++ (60 ∷ line))
            ≡ (record { kind = redirect_in; start = length bs; textlen = 1 }, 1))
  unfolding kshell_next_token token_at
  redirect_again b bs line (y, v) n = (
    from_blanks-skips (b ∷ bs) line 60 0 (y, v) n ∙ from_zero (60 ∷ line) (suc (length bs)),
    from_blanks-skips bs line 60 0 v n ∙ from_zero (60 ∷ line) (length bs),
  )
