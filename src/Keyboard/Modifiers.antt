-- ===== src/Keyboard/Modifiers.antt =====
-- The modifiers of kernel/drivers/tty/keyboard.c over sequences of interrupts.
use avengers.Prelude.{
  ℕ, ◌-◌, ◌≡◌, refl, ◌∙◌, ap, Bool, true, false, List, [], ◌∷◌, leb, if◌then◌else◌, arith,
}
use avengers.Keyboard.{Mask, is_shift, is_ctrl, released, plain, pressed, intr_handler}

-- the mask after a sequence of bytes from the keyboard
abbrev pub masks : Bool → Mask → List ℕ → Mask
masks registered m [] = m
masks registered m (b ∷ bs) = masks registered (intr_handler registered m b).0 bs

-- Is a key that `is_key` accepts held? The latest byte about such a key tells.
abbrev pub held : (ℕ → Bool) → Bool → List ℕ → Bool
held is_key now [] = now
held is_key now (b ∷ bs) =
    held is_key
      (if leb 0x80 b
        then if is_key (b - 0x80) then false else now
        else if is_key b
        then true
        else now)
      bs

shift-step :
    (registered : Bool) (m : Mask) (b : ℕ)
    → (intr_handler registered m b).0.shift ≡ (
        if leb 0x80 b
        then if is_shift (b - 0x80) then false else m.shift
        else if is_shift b
        then true
        else m.shift)
unfolding intr_handler released pressed plain
shift-step registered m b = ground arith

ctrl-step :
    (registered : Bool) (m : Mask) (b : ℕ)
    → (intr_handler registered m b).0.ctrl ≡ (
        if leb 0x80 b
        then if is_ctrl (b - 0x80) then false else m.ctrl
        else if is_ctrl b
        then true
        else m.ctrl)
unfolding intr_handler released pressed plain
ctrl-step registered m b = ground arith

-- After any sequence of bytes the shift and control bits of the mask are set exactly if the latest
-- byte about such a key, or else the first mask, says that it is held.
pub masks-held :
    (registered : Bool) (m : Mask) (bs : List ℕ)
    → ((masks registered m bs).shift ≡ held is_shift m.shift bs)
      × ((masks registered m bs).ctrl ≡ held is_ctrl m.ctrl bs)
masks-held registered m [] = (refl, refl)
masks-held registered m (b ∷ bs) =
    let r = masks-held registered (intr_handler registered m b).0 bs in
    (
      r.0 ∙ ap (λ now. held is_shift now bs) (shift-step registered m b),
      r.1 ∙ ap (λ now. held is_ctrl now bs) (ctrl-step registered m b),
    )
