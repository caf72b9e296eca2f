-- ===== src/Typing/Game.antt =====
-- apps/typing/game.c: the letters of the game. An `int` is its 32-bit pattern; the loops over the list
-- are on fuel, `none` without any. `seed` is the state of klib's `rand`.
pub mod View
pub mod Create
pub mod Steps
pub mod Fallen
pub mod Update
pub mod Target
pub mod Keypress
use wukong_am.Base.{ℕ, zero, suc, ◌+◌, ◌-◌, ◌*◌, ◌/◌, ◌%◌, ◌^◌, Bool, true, false, ◌&&◌, ◌||◌, ◌==◌}
use wukong_am.Base.{Option, none, some, if◌then◌else◌, u32, int_lt}
use wukong_am.Klib.Heap.{rand}
use wukong_am.Typing.Linklist.{Node, Pool, set_cell, list_new, list_insert, list_remove, list_free}
use wukong_am.Typing.Keyboard.{Keyboard, release_key, query_key}

-- The fields of `fly_t` besides its links.
pub record Letter : Type 0 where
  pub x : ℕ
  pub y : ℕ
  pub text : ℕ
  pub v : ℕ

pub record Game : Type 0 where
  pub pool : Pool Letter
  pub head : ℕ
  pub hit : ℕ
  pub miss : ℕ
  pub keyboard : Keyboard
  pub seed : ℕ

abbrev pub width : ℕ
width = 320

abbrev pub height : ℕ
height = 200

abbrev pub pool_size : ℕ
pool_size = 1000

abbrev pub set_value : (ℕ → Node Letter) → ℕ → Letter → ℕ → Node Letter
set_value cells p letter = set_cell cells p (record (cells p) { value = letter })

-- The letter that the calls of `rand` give, and the state after them.
unfoldable pub new_letter : ℕ → Letter × ℕ
new_letter seed =
    let first = rand seed in
    let second = rand first.1 in
    let third = rand second.1 in
    (
      record {
        x = first.0 % (width / 8 - 2) * 8 + 8;
        y = 0;
        text = third.0 % 26;
        v = second.0 % 1000 / 2000 + 1;
      },
      third.1,
    )

pub create_new_letter : Game → Game
create_new_letter s =
    let (now, pool) = list_new pool_size s.pool in
    let (letter, seed) = new_letter s.seed in
    let cells = if s.head == 0 then pool.cells else list_insert 0 s.head now pool.cells in
    record s {
      pool = record pool { cells = set_value cells now letter };
      head = now;
      keyboard = release_key letter.text s.keyboard;
      seed = seed;
    }

-- A letter that moves, and the tests on its place.
abbrev pub moved : Letter → Letter
moved l = record l { y = u32 (l.y + l.v) }

abbrev pub is_above : Letter → Bool
is_above l = int_lt l.y 0

abbrev pub is_off : Letter → Bool
is_off l = is_above l || int_lt height (u32 (l.y + 8))

-- A round of the loop of `update_letter_pos`.
pub update_letter : ℕ → Game → Game
update_letter it s =
    let next = (s.pool.cells it).next in
    let letter = moved (s.pool.cells it).value in
    let placed = set_value s.pool.cells it letter in
    let removed = list_free it (record (s.pool) { cells = list_remove it placed }) in
    let scored =
      if is_above letter
      then record s { hit = u32 (s.hit + 1) }
      else record s { miss = u32 (s.miss + 1) } in
    if is_off letter
    then record scored { pool = removed; head = (if it == s.head then next else s.head) }
    else record s { pool = record (s.pool) { cells = placed } }

pub update_loop : ℕ → ℕ → Game → Option Game
update_loop zero it s = none
update_loop (suc fuel) it s =
    let rest = update_loop fuel (s.pool.cells it).next (update_letter it s) in
    if it == 0 then some s else rest

pub update_letter_pos : ℕ → Game → Option Game
update_letter_pos fuel s = update_loop fuel s.head s

-- The loop of `update_keypress`: `min` and `target` so far.
pub find_target : ℕ → ℕ → ℕ → ℕ → Game → Option ℕ
find_target zero it min target s = none
find_target (suc fuel) it min target s =
    let l = (s.pool.cells it).value in
    let better = int_lt 0 l.v && int_lt min l.y && query_key l.text s.keyboard in
    let rest =
      find_target fuel (s.pool.cells it).next (if better then l.y else min)
        (if better then it else target) s in
    if it == 0 then some target else rest

-- A letter that is hit gets the speed -3.
pub strike : ℕ → Game → Bool × Game
strike target s =
    let l = (s.pool.cells target).value in
    if target == 0 then (false, s) else (
      true,
      record s {
        pool = record (s.pool) {
          cells = set_value s.pool.cells target (record l { v = 2 ^ 32 - 3 });
        };
        keyboard = release_key l.text s.keyboard;
      },
    )

-- `min` begins with -100.
pub update_keypress : ℕ → Game → Option (Bool × Game)
update_keypress fuel s = elim (find_target fuel s.head (2 ^ 32 - 100) 0 s) [
  | none ↦ none
  | some target ↦ some (strike target s)
]
