-- ===== src/Typing/Main/Between.antt =====
-- The letters in a frame of the main loop, once its keys are read.
use mathlib.Core.Path.{subst}
use wukong_am.Base.{ℕ, ◌+◌, ◌<◌, ◌%◌, ◌≡◌, sym, true, false, ◌==◌, arith}
use wukong_am.Base.{List, ◌∷◌, Bool-cases, inl, inr, some}
use wukong_am.Typing.Keyboard.{Keyboard}
use wukong_am.Typing.Game.{Letter, Game, new_letter, create_new_letter}
use wukong_am.Typing.Game.View.{Represents}
use wukong_am.Typing.Game.Create.{create_new_letter-Represents}
use wukong_am.Typing.Game.Update.{update_letter_pos-Represents}
use wukong_am.Typing.Game.Fallen.{fallen}
use wukong_am.Typing.Main.{letters_frame}
use wukong_am.Typing.Main.Aged.{Aged, Aged-length, fallen-Aged, life-falls}

-- The game between two frames: the newest letter is from the last frame whose number ends in 0.
pub record IsBetween (frames : ℕ) (s : Game) : Type 0 where
  pub letters : List Letter
  pub represents : Represents s letters
  pub aged : Aged (frames % 10 + 1) letters

-- The game has a keyboard of its own beside the letters.
pub Represents-keyboard :
    (s : Game) (k : Keyboard) (ls : List Letter)
    → Represents s ls
    → Represents (record s { keyboard = k }) ls
Represents-keyboard s k ls h = record {
  ps = h.ps;
  fs = h.fs;
  last = h.last;
  game = record { list = h.game.list; pool = h.game.pool };
  letters = h.letters;
}

-- The letters move once they are there.
letters_frame-moved :
    (fuel frames : ℕ) (s : Game) (ls : List Letter)
    → (frames % 10 == 0) ≡ false
    → Represents s ls
    → Aged (frames % 10) ls
    → 26 < fuel
    → (s' : Game) × (letters_frame fuel frames s ≡ some s') × IsBetween frames s'
unfolding letters_frame
letters_frame-moved fuel frames s ls old h aged enough =
    let few = Aged-length (frames % 10) ls aged (omega arith) in
    let (s', e, represents, _, _, _, _) =
      update_letter_pos-Represents fuel s ls h (omega (arith, few, enough)) in
    let each : (frames % 1 == 0) ≡ true = ground arith in
    (
      s',
      rw (old, each) e,
      record {
        letters = fallen ls;
        represents = represents;
        aged = fallen-Aged (frames % 10) ls aged;
      },
    )

letters_frame-created :
    (fuel frames : ℕ) (s : Game) (ls : List Letter)
    → (frames % 10 == 0) ≡ true
    → Represents s ls
    → Aged 10 ls
    → 26 < fuel
    → (s' : Game) × (letters_frame fuel frames s ≡ some s') × IsBetween frames s'
unfolding letters_frame Aged
letters_frame-created fuel frames s ls new h aged enough =
    let few = Aged-length 10 ls aged (omega arith) in
    let (created, (text, v, y, x, x'), _, _, _) =
      create_new_letter-Represents s ls h (omega (arith, few)) in
    let l = (new_letter s.seed).0 in
    let now : Aged 0 (l ∷ ls) = (
      record { on_x = omega (arith, x'); on_y = omega (arith, y); text = text; speed = inl v },
      omega (arith, life-falls l v),
      aged,
    ) in
    let few' = Aged-length 0 (l ∷ ls) now (omega arith) in
    let (s', e, represents, _, _, _, _) =
      update_letter_pos-Represents fuel (create_new_letter s) (l ∷ ls) created
        (omega (arith, few', enough)) in
    let each : (frames % 1 == 0) ≡ true = ground arith in
    let start : frames % 10 + 1 ≡ 1 = ground (arith, new) in
    (
      s',
      rw (new, each) e,
      record {
        letters = fallen (l ∷ ls);
        represents = represents;
        aged = subst (λ n. Aged n (fallen (l ∷ ls))) (sym start) (fallen-Aged 0 (l ∷ ls) now);
      },
    )

pub letters_frame-IsBetween :
    (fuel frames : ℕ) (s : Game) (ls : List Letter)
    → Represents s ls
    → Aged (frames % 10 + 1) ls
    → 26 < fuel
    → (s' : Game) × (letters_frame fuel (frames + 1) s ≡ some s') × IsBetween (frames + 1) s'
letters_frame-IsBetween fuel frames s ls h aged enough =
    elim (Bool-cases ((frames + 1) % 10 == 0)) [
      | inl new ↦
          let tenth : frames % 10 + 1 ≡ 10 = ground (arith, new) in
          letters_frame-created fuel (frames + 1) s ls new h (subst (λ n. Aged n ls) tenth aged)
            enough
      | inr old ↦
          let next : frames % 10 + 1 ≡ (frames + 1) % 10 = ground (arith, old) in
          letters_frame-moved fuel (frames + 1) s ls old h (subst (λ n. Aged n ls) next aged) enough
    ]
