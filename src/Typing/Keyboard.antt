-- ===== src/Typing/Keyboard.antt =====
-- apps/typing/keyboard.c: the keys of the letters. What `read_key` returns is an argument.
pub mod Letters
use wukong_am.Base.{ℕ, zero, suc, Bool, true, false, ◌==◌, if◌then◌else◌, truthy}
use wukong_am.Base.{Option, none, some, List, [], ◌∷◌, bit_and}

-- The key codes of am/amdev.h, from A to Z.
abbrev pub letter_codes : List ℕ
letter_codes =
    43 ∷ 60 ∷ 58 ∷ 45 ∷ 31 ∷ 46 ∷ 47 ∷ 48 ∷ 36 ∷ 49 ∷ 50 ∷ 51 ∷ 62 ∷ 61 ∷ 37 ∷ 38 ∷ 29 ∷ 32 ∷ 44
    ∷ 33 ∷ 35 ∷ 59 ∷ 30 ∷ 57 ∷ 34 ∷ 56 ∷ []

pub get_or_zero : List ℕ → ℕ → ℕ
get_or_zero [] i = 0
get_or_zero (c ∷ cs) zero = c
get_or_zero (c ∷ cs) (suc i) = get_or_zero cs i

pub letter_code : ℕ → ℕ
letter_code i = get_or_zero letter_codes i

abbrev pub set_pressed : (ℕ → Bool) → ℕ → Bool → ℕ → Bool
set_pressed pressed i b j = if j == i then b else pressed j

-- The static variables `letter_pressed` and `key_code`.
pub record Keyboard : Type 0 where
  pub pressed : ℕ → Bool
  pub key_code : ℕ

-- The loop of `press_key` over the first `count` letters, and that of a release.
pub set_letters : ℕ → ℕ → Bool → (ℕ → Bool) → ℕ → Bool
set_letters zero scan_code b pressed = pressed
set_letters (suc count) scan_code b pressed =
    let rest = set_letters count scan_code b pressed in
    if letter_code count == scan_code then set_pressed rest count b else rest

pub press_key : ℕ → Keyboard → Keyboard
press_key scan_code s = record s { pressed = set_letters 26 scan_code true s.pressed }

pub release_key : ℕ → Keyboard → Keyboard
release_key index s = record s { pressed = set_pressed s.pressed index false }

pub query_key : ℕ → Keyboard → Bool
query_key index s = s.pressed index

-- `none` is the halt.
unfoldable pub keyboard_event : ℕ → Keyboard → Option (Bool × Keyboard)
keyboard_event keycode s =
    let code = bit_and keycode 0xffff7fff in
    if code == 1
    then none
    else if code == 0
    then some (false, s)
    else if truthy (bit_and keycode 0x8000)
    then some (true, press_key code (record s { key_code = code }))
    else some (true, record s { pressed = set_letters 26 keycode false s.pressed })
