-- ===== src/Keyboard.antt =====
-- The keyboard (kernel/drivers/tty/keyboard.c): the mask of modifiers and the interrupt handler,
-- which gets the scan code that `inb` has read.
pub mod Modifiers
mod Tests
use avengers.Prelude.{
  ℕ, ◌+◌, ◌-◌, ◌%◌, Bool, true, false, not, ◌&&◌, ◌||◌, Option, none, some, List, [], ◌∷◌, ◌++◌,
  ◌==◌, ltb, leb, if◌then◌else◌, get_elem?,
}

-- SHIFT_MASK, CTRL_MASK and ESC_MASK of `curmask`
pub record Mask : Type 0 where
  pub shift : Bool
  pub ctrl : Bool
  pub esc : Bool

-- What the handler calls: nothing, vt_switch, vt_scroll of DISPLAY_HEIGHT lines, or
-- `keyboard_handler` with a character.
pub data Action : Type 0 where
  nothing : Action
  vt_switch : ℕ → Action
  vt_scroll : ℕ → Action
  char : ℕ → Action

abbrev pub no_char : ℕ
no_char = 0xff

-- the character of a scan code up to NORMAL_KEY_HIGH
normal_scancodes : List ℕ
normal_scancodes =
    0 ∷ 27 ∷ 49 ∷ 50 ∷ 51 ∷ 52 ∷ 53 ∷ 54 ∷ 55 ∷ 56 ∷ 57 ∷ 48 ∷ 45 ∷ 61 ∷ 8 ∷ 9 ∷ 113 ∷ 119 ∷ 101
    ∷ 114 ∷ 116 ∷ 121 ∷ 117 ∷ 105 ∷ 111 ∷ 112 ∷ 91 ∷ 93 ∷ 10 ∷ 0 ∷ 97 ∷ 115 ∷ 100 ∷ 102 ∷ 103 ∷ 104
    ∷ 106 ∷ 107 ∷ 108 ∷ 59 ∷ 39 ∷ 96 ∷ 0 ∷ 92 ∷ 122 ∷ 120 ∷ 99 ∷ 118 ∷ 98 ∷ 110 ∷ 109 ∷ 44 ∷ 46 ∷ 47
    ∷ 0 ∷ 0 ∷ 0 ∷ 32 ∷ []

shift_scancodes : List ℕ
shift_scancodes =
    0 ∷ 27 ∷ 33 ∷ 64 ∷ 35 ∷ 36 ∷ 37 ∷ 94 ∷ 38 ∷ 42 ∷ 40 ∷ 41 ∷ 95 ∷ 43 ∷ 8 ∷ 9 ∷ 81 ∷ 87 ∷ 69 ∷ 82
    ∷ 84 ∷ 89 ∷ 85 ∷ 73 ∷ 79 ∷ 80 ∷ 123 ∷ 125 ∷ 10 ∷ 0 ∷ 65 ∷ 83 ∷ 68 ∷ 70 ∷ 71 ∷ 72 ∷ 74 ∷ 75 ∷ 76
    ∷ 58 ∷ 34 ∷ 126 ∷ 0 ∷ 124 ∷ 90 ∷ 88 ∷ 67 ∷ 86 ∷ 66 ∷ 78 ∷ 77 ∷ 60 ∷ 62 ∷ 63 ∷ 0 ∷ 0 ∷ 0 ∷ 32
    ∷ []

abbrev pub char_of : List ℕ → ℕ → ℕ
char_of codes sc = elim (get_elem? codes sc) [ none ↦ no_char | some c ↦ c ]

abbrev pub control_of : ℕ → ℕ
control_of c = if leb 0x40 c && ltb c 0x60 then c - 0x40 else no_char

-- the end of the handler, if a keyboard handler is registered or not
abbrev pub give : Bool → ℕ → Action
give registered c = if not (c == no_char) && registered then Action.char c else Action.nothing

abbrev pub is_shift : ℕ → Bool
is_shift sc = sc == 0x2a || sc == 0x36

abbrev pub is_ctrl : ℕ → Bool
is_ctrl sc = sc == 0x1d

released : Mask → ℕ → Mask
released m sc =
    if is_shift sc
    then record m { shift = false }
    else if is_ctrl sc
    then record m { ctrl = false }
    else m

-- the keys past the check for the escape mask
plain : Bool → Mask → ℕ → Mask × Action
plain registered m sc =
    if sc == 0xe0 || sc == 0xe1
    then (record m { esc = true }, Action.nothing)
    else if leb 0x3b sc && leb sc 0x44
    then (m, Action.vt_switch (sc - 0x3b))
    else if m.ctrl && sc == 0x1c
    then (m, Action.vt_scroll 0)
    else if m.ctrl && sc == 0x0e
    then (m, Action.vt_scroll 1)
    else if ltb 0x39 sc
    then (m, Action.nothing)
    else if m.ctrl
    then (m, give registered (control_of (char_of shift_scancodes sc)))
    else if m.shift
    then (m, give registered (char_of shift_scancodes sc))
    else (m, give registered (char_of normal_scancodes sc))

pressed : Bool → Mask → ℕ → Mask × Action
unfolding plain
pressed registered m sc =
    if is_shift sc
    then (record m { shift = true }, Action.nothing)
    else if is_ctrl sc
    then (record m { ctrl = true }, Action.nothing)
    else if m.esc
    then (record m { esc = false }, Action.nothing)
    else plain registered m sc

-- `keyboard_intr_handler` of a byte: BREAK_MASK is its highest bit.
pub intr_handler : Bool → Mask → ℕ → Mask × Action
unfolding released pressed
intr_handler registered m byte =
    if leb 0x80 byte then (released m (byte - 0x80), Action.nothing) else pressed registered m byte
