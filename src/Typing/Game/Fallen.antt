-- ===== src/Typing/Game/Fallen.antt =====
-- The letters after a move as a list, and a round of `update_letter_pos` in its three cases.
use wukong_am.Base.{ℕ, ◌+◌, ◌≡◌, refl, true, false, ◌==◌, if◌then◌else◌}
use wukong_am.Base.{List, [], ◌∷◌, u32}
use wukong_am.Typing.Linklist.{list_remove, list_free}
use wukong_am.Typing.Game.{Letter, Game, set_value, moved, is_above, is_off, update_letter}

-- The letters after a move, and how many leave at the top and at the bottom.
unfoldable pub fallen : List Letter → List Letter
fallen [] = []
fallen (l ∷ ls) = let rest = fallen ls in if is_off (moved l) then rest else moved l ∷ rest

unfoldable pub count_above : List Letter → ℕ
count_above [] = 0
count_above (l ∷ ls) = if is_above (moved l) then count_above ls + 1 else count_above ls

unfoldable pub count_below : List Letter → ℕ
count_below [] = 0
count_below (l ∷ ls) =
    let rest = count_below ls in
    if is_above (moved l) then rest else if is_off (moved l) then rest + 1 else rest

-- A round of the loop for each of the three cases.
pub letter_above :
    (it : ℕ) (s : Game)
    → is_above (moved (s.pool.cells it).value) ≡ true
    → update_letter it s ≡ record s {
      pool = list_free it (record (s.pool) {
        cells = list_remove it (set_value s.pool.cells it (moved (s.pool.cells it).value));
      });
      head = (if it == s.head then (s.pool.cells it).next else s.head);
      hit = u32 (s.hit + 1);
    }
unfolding update_letter
letter_above it s e = rw e refl

pub letter_below :
    (it : ℕ) (s : Game)
    → is_above (moved (s.pool.cells it).value) ≡ false
    → is_off (moved (s.pool.cells it).value) ≡ true
    → update_letter it s ≡ record s {
      pool = list_free it (record (s.pool) {
        cells = list_remove it (set_value s.pool.cells it (moved (s.pool.cells it).value));
      });
      head = (if it == s.head then (s.pool.cells it).next else s.head);
      miss = u32 (s.miss + 1);
    }
unfolding update_letter
letter_below it s e f = rw (f, e) refl

pub letter_stays :
    (it : ℕ) (s : Game)
    → is_off (moved (s.pool.cells it).value) ≡ false
    → update_letter it s ≡ record s {
      pool = record (s.pool) { cells = set_value s.pool.cells it (moved (s.pool.cells it).value) };
    }
unfolding update_letter
letter_stays it s e = rw e refl
