-- ===== src/Keyboard/Tests.antt =====
-- Runs of kernel/drivers/tty/keyboard.c, and the theorems at concrete inputs.
use avengers.Prelude.{ℕ, ◌≡◌, refl, true, false, List, [], ◌∷◌}
use avengers.Keyboard.{
  Mask, Action, is_shift, is_ctrl, shift_scancodes, plain, pressed, intr_handler,
}
use avengers.Keyboard.Modifiers.{masks, held, masks-held}

abbrev clear : Mask
clear = record { shift = false; ctrl = false; esc = false }

-- shift and "a", then shift let go and control held
abbrev bytes : List ℕ
bytes = 0x2a ∷ 0x1e ∷ 0xaa ∷ 0x1d ∷ []

masks-held_example :
    ((masks true clear bytes).shift ≡ held is_shift false bytes)
    × ((masks true clear bytes).ctrl ≡ held is_ctrl false bytes)
masks-held_example = masks-held true clear bytes

capital : (intr_handler true (record clear { shift = true }) 0x1e).1 ≡ Action.char 65
unfolding intr_handler pressed plain shift_scancodes
capital = refl

control_a : (intr_handler true (record clear { ctrl = true }) 0x1e).1 ≡ Action.char 1
unfolding intr_handler pressed plain shift_scancodes
control_a = refl
