-- ===== src/Typing/Main.antt =====
-- apps/typing/game.c: the main loop, a round of it for each frame. What `read_key` returns in a frame is a
-- list, after which it returns `_KEY_NONE`. `none` is the halt, or a loop without fuel.
pub mod Aged
pub mod Strikes
pub mod Between
pub mod Play
use wukong_am.Base.{ℕ, zero, suc, ◌+◌, ◌/◌, ◌%◌, Bool, true, false, ◌==◌, if◌then◌else◌, u32}
use wukong_am.Base.{Option, none, some, List, [], ◌∷◌}
use wukong_am.Typing.Linklist.{Node}
use wukong_am.Typing.Keyboard.{Keyboard, keyboard_event}
use wukong_am.Typing.Game.{Letter, Game, create_new_letter, update_letter_pos, update_keypress}

-- `while (keyboard_event());`
pub keyboard_loop : List ℕ → Keyboard → Option Keyboard
keyboard_loop [] k = some k
keyboard_loop (c ∷ cs) k = elim (keyboard_event c k) [
  | none ↦ none
  | some (again, k') ↦ if again then keyboard_loop cs k' else some k'
]

-- `while (update_keypress());`, which has the second fuel in each round.
pub keypress_loop : ℕ → ℕ → Game → Option Game
keypress_loop zero fuel s = none
keypress_loop (suc rounds) fuel s = elim (update_keypress fuel s) [
  | none ↦ none
  | some (again, s') ↦ if again then keypress_loop rounds fuel s' else some s'
]

-- The creation and the move of the letters in the frame `frames`.
pub letters_frame : ℕ → ℕ → Game → Option Game
letters_frame fuel frames s =
    let created = if frames % (100 / 10) == 0 then create_new_letter s else s in
    if frames % (100 / 100) == 0 then update_letter_pos fuel created else some created

pub game_frame : ℕ → ℕ → List ℕ → Game → Option Game
game_frame fuel frames keys s = elim (keyboard_loop keys s.keyboard) [
  | none ↦ none
  | some k ↦ elim (keypress_loop fuel fuel (record s { keyboard = k })) [
    | none ↦ none
    | some s' ↦ letters_frame fuel frames s'
  ]
]

-- The frames after the frame `frames`, with the keys of each.
pub play : ℕ → ℕ → List (List ℕ) → Game → Option Game
play fuel frames [] s = some s
play fuel frames (keys ∷ rest) s = elim (game_frame fuel (u32 (frames + 1)) keys s) [
  | none ↦ none
  | some s' ↦ play fuel (u32 (frames + 1)) rest s'
]

-- The static variables when the program starts; `seed` is that of `rand`.
unfoldable pub initial_game : ℕ → Game
initial_game seed = record {
  pool = record {
    cells = λ q. record { value = record { x = 0; y = 0; text = 0; v = 0 }; prev = 0; next = 0 };
    free_head = 0;
  };
  head = 0;
  hit = 0;
  miss = 0;
  keyboard = record { pressed = λ i. false; key_code = 0 };
  seed = seed;
}
