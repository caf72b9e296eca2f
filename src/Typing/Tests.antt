-- ===== src/Typing/Tests.antt =====
-- The theorems of apps/typing at concrete inputs, and runs of the game.
use wukong_am.Base.{
  ℕ, ◌+◌, ◌-◌, ◌^◌, ◌≡◌, ◌≤◌, ◌<◌, refl, ◌==◌, if◌then◌else◌, arith, some, List, [], ◌∷◌, ◌++◌,
}
use wukong_am.Base.{true, false, not, ◌&&◌, ◌||◌, ◌⊎◌, u32}
use wukong_am.Klib.Heap.{rand}
use wukong_am.Typing.Keyboard.{Keyboard, letter_code, keyboard_event, query_key, release_key}
use wukong_am.Typing.Keyboard.Letters.{keyboard_event-query_key}
use wukong_am.Typing.Linklist.{Node, list_remove}
use wukong_am.Typing.Linklist.Segment.{Segment, has, length}
use wukong_am.Typing.Linklist.Remove.{Place, Split, list_remove-Split}
use wukong_am.Typing.Game.{
  Letter, Game, new_letter, create_new_letter, update_letter_pos, update_keypress,
}
use wukong_am.Typing.Game.View.{Represents}
use wukong_am.Typing.Game.Create.{create_new_letter-Represents}
use wukong_am.Typing.Game.Update.{update_letter_pos-Represents}
use wukong_am.Typing.Game.Fallen.{fallen, count_above, count_below}
use wukong_am.Typing.Game.Keypress.{Struck, update_keypress-Represents}
use wukong_am.Typing.Game.Target.{none_below}
use wukong_am.Typing.Main.{keypress_loop, play, initial_game}
use wukong_am.Typing.Main.Aged.{IsFair}
use wukong_am.Typing.Main.Strikes.{Quiet, count_falling, keypress_loop-Quiet, no_escape}
use wukong_am.Typing.Main.Between.{Represents-keyboard}
use wukong_am.Typing.Main.Play.{no_escapes, play-IsFair, initial-Represents}

-- Three nodes, linked in their order.
abbrev three : ℕ → Node ℕ
three q = record {
  value = q + 10;
  prev = (if q == 1 then 0 else q - 1);
  next = (if q == 3 then 0 else q + 1);
}

Place-of_two : Place three 1 2 (1 ∷ []) (3 ∷ []) 1 3
unfolding has
Place-of_two = record {
  front = Segment.cons (omega arith) refl refl Segment.nil;
  pos = omega arith;
  not_behind = refl;
  not_before = refl;
  prev = refl;
  rest = Segment.cons (omega arith) refl refl Segment.nil;
  apart = λ q h. ground (arith, h);
}

list_remove-Split_example :
    ((last' : ℕ) × Split (list_remove 2 three) 1 3 (1 ∷ []) (3 ∷ []) 1 last')
    × ((q : ℕ) → (list_remove 2 three q).value ≡ (three q).value)
    × ((q : ℕ) → has q (1 ∷ []) ≡ false → has q (3 ∷ []) ≡ false → list_remove 2 three q ≡ three q)
list_remove-Split_example = list_remove-Split three 1 2 1 3 (1 ∷ []) (3 ∷ []) Place-of_two

-- B is pressed and released while A is held.
abbrev a_held : Keyboard
a_held = record { pressed = λ i. i == 0; key_code = 43 }

keyboard_event-query_key_example :
    ((k' : Keyboard) × (keyboard_event (letter_code 1 + 0x8000) a_held ≡ some (true, k'))
      × (query_key 0 k' ≡ (0 == 1 || query_key 0 a_held))
      × (k'.key_code ≡ letter_code 1))
    × ((k' : Keyboard) × (keyboard_event (letter_code 1) a_held ≡ some (true, k'))
        × (query_key 0 k' ≡ (not (0 == 1) && query_key 0 a_held))
        × (k'.key_code ≡ a_held.key_code))
keyboard_event-query_key_example = keyboard_event-query_key 0 1 a_held (omega arith) (omega arith)

-- The game with the first letter.
abbrev start : Game
start = initial_game 1

abbrev first_letter : Letter
first_letter = (new_letter 1).0

abbrev one_letter : Game
one_letter = create_new_letter start

create_new_letter-Represents_example :
    Represents one_letter (first_letter ∷ [])
    × ((first_letter.text < 26)
        × (first_letter.v ≡ 1)
        × (first_letter.y ≡ 0)
        × (8 ≤ first_letter.x)
        × (first_letter.x + 8 ≤ 312))
    × (one_letter.keyboard ≡ release_key first_letter.text start.keyboard)
    × (one_letter.hit ≡ start.hit)
    × (one_letter.miss ≡ start.miss)
unfolding length initial_game
create_new_letter-Represents_example =
    create_new_letter-Represents start [] (initial-Represents 1) (omega arith)

one_letter-Represents : Represents one_letter (first_letter ∷ [])
unfolding length initial_game
one_letter-Represents =
    (create_new_letter-Represents start [] (initial-Represents 1) (omega arith)).0

update_letter_pos-Represents_example :
    (s' : Game) × (update_letter_pos 2 one_letter ≡ some s')
    × Represents s' (fallen (first_letter ∷ []))
    × (u32 s'.hit ≡ u32 (one_letter.hit + count_above (first_letter ∷ [])))
    × (u32 s'.miss ≡ u32 (one_letter.miss + count_below (first_letter ∷ [])))
    × (s'.keyboard ≡ one_letter.keyboard)
    × (s'.seed ≡ one_letter.seed)
unfolding length
update_letter_pos-Represents_example =
    update_letter_pos-Represents 2 one_letter (first_letter ∷ []) one_letter-Represents
      (omega arith)

-- The same game, with every key held.
abbrev held : Game
held = record one_letter { keyboard = record { pressed = λ i. true; key_code = 0 } }

held-Represents : Represents held (first_letter ∷ [])
held-Represents =
    Represents-keyboard one_letter held.keyboard (first_letter ∷ []) one_letter-Represents

update_keypress-Represents_example :
    ((update_keypress 2 held ≡ some (false, held))
      × (none_below held.keyboard (2 ^ 32 - 100) (first_letter ∷ []) ≡ true))
    ⊎ Struck 2 held (first_letter ∷ [])
unfolding length
update_keypress-Represents_example =
    update_keypress-Represents 2 held (first_letter ∷ []) held-Represents (omega arith)

keypress_loop-Quiet_example : Quiet held (first_letter ∷ []) (keypress_loop 2 2 held)
unfolding length count_falling new_letter rand
keypress_loop-Quiet_example =
    keypress_loop-Quiet 2 2 held (first_letter ∷ []) held-Represents (omega arith) (omega arith)

-- Twenty frames without a key, and B in the last of them.
abbrev frames : List (List ℕ)
frames =
    []
    ∷ []
    ∷ []
    ∷ []
    ∷ []
    ∷ []
    ∷ []
    ∷ []
    ∷ []
    ∷ []
    ∷ []
    ∷ []
    ∷ []
    ∷ []
    ∷ []
    ∷ []
    ∷ []
    ∷ []
    ∷ []
    ∷ ((60 + 0x8000) ∷ 60 ∷ [])
    ∷ []

play-IsFair_example :
    (s' : Game) × (ls : List Letter) × (play 27 0 frames start ≡ some s')
    × Represents s' ls
    × (length ls ≤ 26)
    × ((before behind : List Letter) (l : Letter) → ls ≡ before ++ l ∷ behind → IsFair l)
unfolding length no_escapes no_escape
play-IsFair_example = play-IsFair 27 1 frames (omega arith) refl (omega arith)
