-- ===== src/Typing/Keyboard/Letters.antt =====
-- What an event of the keyboard does to the 26 keys.
use wukong_am.Base.{
  ℕ, zero, suc, ◌+◌, ◌<◌, ◌≤◌, ◌≡◌, refl, ◌∙◌, Bool, true, false, ◌||◌, ◌&&◌, ◌==◌, if◌then◌else◌,
  arith, not,
}
use wukong_am.Base.{Bool-cases, inl, inr, some, bit_and, truthy}
use wukong_am.Base.Bytes.{all_below, all_below_sound}
use wukong_am.Typing.Keyboard.{
  Keyboard, letter_code, get_or_zero, set_letters, press_key, query_key, keyboard_event,
}

set_letters-above :
    (count code : ℕ) (b : Bool) (pressed : ℕ → Bool) (i : ℕ)
    → count ≤ i
    → set_letters count code b pressed i ≡ pressed i
unfolding set_letters
set_letters-above zero code b pressed i h = refl
set_letters-above (suc count) code b pressed i h =
    let rest = set_letters-above count code b pressed i (omega (arith, h)) in
    elim (Bool-cases (letter_code count == code)) [
      | inl same ↦ let other : (i == count) ≡ false = ground (arith, h) in rw (same, other) rest
      | inr differs ↦ rw differs rest
    ]

set_letters-below :
    (count code : ℕ) (b : Bool) (pressed : ℕ → Bool) (i : ℕ)
    → i < count
    → set_letters count code b pressed i ≡ (if letter_code i == code then b else pressed i)
unfolding set_letters
set_letters-below zero code b pressed i h = absurd (omega (arith, h))
set_letters-below (suc count) code b pressed i h = elim (Bool-cases (i == count)) [
  | inl last ↦
      let e : i ≡ count = ground (arith, last) in
      rw e (elim (Bool-cases (letter_code count == code)) [
        | inl same ↦ let here : (count == count) ≡ true = ground arith in rw (same, here) refl
        | inr differs ↦ rw differs (set_letters-above count code b pressed count (omega arith))
      ])
  | inr earlier ↦
      let rest = set_letters-below count code b pressed i (ground (arith, earlier, h)) in
      elim (Bool-cases (letter_code count == code)) [
        | inl same ↦ rw (same, earlier) rest
        | inr differs ↦ rw differs rest
      ]
]

-- No two letters have one key, and the mask of a pressed key does not hide a letter.
abbrev is_distinct : ℕ → ℕ → Bool
is_distinct i j = if i == j then true else not (letter_code i == letter_code j)

abbrev is_plain : ℕ → Bool
is_plain j =
    (bit_and (letter_code j + 0x8000) 0xffff7fff == letter_code j)
    && (bit_and (letter_code j) 0xffff7fff == letter_code j)
    && truthy (bit_and (letter_code j + 0x8000) 0x8000)
    && not (truthy (bit_and (letter_code j) 0x8000))
    && not (letter_code j == 0)
    && not (letter_code j == 1)

codes_distinct : all_below 26 (λ i. all_below 26 (λ j. is_distinct i j)) ≡ true
unfolding all_below letter_code get_or_zero
codes_distinct = refl

codes_plain : all_below 26 is_plain ≡ true
unfolding all_below letter_code get_or_zero
codes_plain = refl

-- The codes of two letters are the same exactly for one letter.
letter_code-== : (i j : ℕ) → i < 26 → j < 26 → (letter_code i == letter_code j) ≡ (i == j)
letter_code-== i j h k =
    let d =
      all_below_sound 26 (λ j. is_distinct i j) j
        (all_below_sound 26 (λ i. all_below 26 (λ j. is_distinct i j)) i codes_distinct h) k in
    elim (Bool-cases (i == j)) [
      | inl same ↦ let e : i ≡ j = ground (arith, same) in rw (same, e) (ground arith)
      | inr other ↦ rw other (ground (arith, d, other))
    ]

or_if : (a b : Bool) → (if a then true else b) ≡ (a || b)
or_if true b = refl
or_if false b = refl

and_if : (a b : Bool) → (if a then false else b) ≡ (not a && b)
and_if true b = refl
and_if false b = refl

-- The event that a letter's key is pressed leaves the game with that key held besides those that
-- were held and with its code as the last one, and the event that it is released with the other keys.
-- After both the loop over the events goes on.
pub keyboard_event-query_key :
    (i j : ℕ) (k : Keyboard)
    → i < 26
    → j < 26
    → ((k' : Keyboard) × (keyboard_event (letter_code j + 0x8000) k ≡ some (true, k'))
        × (query_key i k' ≡ (i == j || query_key i k))
        × (k'.key_code ≡ letter_code j))
      × ((k' : Keyboard) × (keyboard_event (letter_code j) k ≡ some (true, k'))
          × (query_key i k' ≡ (not (i == j) && query_key i k))
          × (k'.key_code ≡ k.key_code))
unfolding keyboard_event query_key press_key
keyboard_event-query_key i j k h m =
    let plain = all_below_sound 26 is_plain j codes_plain m in
    let code = letter_code j in
    let down : bit_and (code + 0x8000) 0xffff7fff ≡ code = ground (arith, plain) in
    let up : bit_and code 0xffff7fff ≡ code = ground (arith, plain) in
    let is_down : truthy (bit_and (code + 0x8000) 0x8000) ≡ true = ground (arith, plain) in
    let is_up : truthy (bit_and code 0x8000) ≡ false = ground (arith, plain) in
    let not_none : (code == 0) ≡ false = ground (arith, plain) in
    let not_escape : (code == 1) ≡ false = ground (arith, plain) in
    let same = letter_code-== i j h m in
    (
      (
        press_key code (record k { key_code = code }),
        rw (down, not_escape, not_none, is_down) refl,
        set_letters-below 26 code true k.pressed i h ∙ rw same (or_if (i == j) (query_key i k)),
        refl,
      ),
      (
        record k { pressed = set_letters 26 code false k.pressed },
        rw (up, not_escape, not_none, is_up) refl,
        set_letters-below 26 code false k.pressed i h ∙ rw same (and_if (i == j) (query_key i k)),
        refl,
      ),
    )
