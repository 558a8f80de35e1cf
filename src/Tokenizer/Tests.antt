-- ===== src/Tokenizer/Tests.antt =====
-- Lines of the kernel shell, with 32 as the only blank.
use avengers.Prelude.{ℕ, ◌≡◌, refl, Bool, [], ◌∷◌, ◌==◌}
use avengers.Tokenizer.{
  word, redirect_in, kshell_next_token, kshell_next_token_word, redirect_again,
}

abbrev blank : ℕ → Bool
blank c = c == 32

kshell_next_token_word_example :
    kshell_next_token blank (32 ∷ 108 ∷ 115 ∷ 62 ∷ [])
    ≡ (record { kind = word; start = 1; textlen = 2 }, 3)
kshell_next_token_word_example =
    kshell_next_token_word blank (32 ∷ []) (115 ∷ []) (62 ∷ []) 108 (refl, tt) (refl, (refl, tt))
      refl

redirect_again_example :
    (kshell_next_token blank (32 ∷ 60 ∷ [])
      ≡ (record { kind = redirect_in; start = 1; textlen = 1 }, 1))
    × (kshell_next_token blank (60 ∷ [])
        ≡ (record { kind = redirect_in; start = 0; textlen = 1 }, 1))
redirect_again_example = redirect_again blank 32 [] [] (refl, tt) refl
