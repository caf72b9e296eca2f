-- ===== src/Typing/Main/Play.antt =====
-- The frames of the main loop, from the start of the program.
use mathlib.Core.Path.{subst}
use wukong_am.Base.{ℕ, ◌+◌, ◌<◌, ◌≤◌, ◌^◌, ◌%◌, ◌≡◌, refl, ap, ◌∙◌, Bool, true, ◌&&◌, arith}
use wukong_am.Base.{List, [], ◌∷◌, ◌++◌, inr, u32, Option, none, some}
use wukong_am.Typing.Keyboard.{Keyboard}
use wukong_am.Typing.Linklist.Segment.{Chain, length, has, nil}
use wukong_am.Typing.Game.{Letter, Game}
use wukong_am.Typing.Game.View.{Represents, values}
use wukong_am.Typing.Main.{keypress_loop, letters_frame, game_frame, play, initial_game}
use wukong_am.Typing.Main.Aged.{Aged, Aged-length, IsFair}
use wukong_am.Typing.Main.Strikes.{
  keypress_loop-Quiet, Strikes-Aged, count_falling-bound, keyboard_loop-returns, no_escape,
}
use wukong_am.Typing.Main.Between.{IsBetween, Represents-keyboard, letters_frame-IsBetween}

game_frame-IsBetween :
    (fuel frames : ℕ) (keys : List ℕ) (s : Game)
    → 26 < fuel
    → no_escape keys ≡ true
    → IsBetween frames s
    → (s' : Game) × (game_frame fuel (frames + 1) keys s ≡ some s') × IsBetween (frames + 1) s'
unfolding game_frame
game_frame-IsBetween fuel frames keys s enough keys_ok h =
    let (k, e) = keyboard_loop-returns keys s.keyboard keys_ok in
    let few = Aged-length (frames % 10 + 1) h.letters h.aged (omega arith) in
    let falling = count_falling-bound h.letters in
    let r =
      keypress_loop-Quiet fuel fuel (record s { keyboard = k }) h.letters
        (Represents-keyboard s k h.letters h.represents) (omega (arith, few, enough))
        (omega (arith, few, falling, enough)) in
    let aged = Strikes-Aged (frames % 10 + 1) h.letters r.letters r.strikes h.aged in
    let (s', e', between) =
      letters_frame-IsBetween fuel frames r.last r.letters r.represents aged enough in
    (
      s',
      ap
            (λ (o : Option Keyboard). elim o as (λ x. Option Game) [
              | none ↦ none
              | some k ↦
                  elim (keypress_loop fuel fuel (record s { keyboard = k })) as (λ x. Option Game) [
                    | none ↦ none
                    | some s' ↦ letters_frame fuel (frames + 1) s'
                  ]
            ])
            e
          ∙ ap
              (λ (o : Option Game). elim o as (λ x. Option Game) [
                | none ↦ none
                | some s' ↦ letters_frame fuel (frames + 1) s'
              ])
              r.returns
          ∙ e',
      between,
    )

-- No key of any frame is Escape.
unfoldable pub no_escapes : List (List ℕ) → Bool
no_escapes [] = true
no_escapes (keys ∷ rest) = no_escape keys && no_escapes rest

play-IsBetween :
    (fuel frames : ℕ) (keys : List (List ℕ)) (s : Game)
    → 26 < fuel
    → no_escapes keys ≡ true
    → frames + length keys < 2 ^ 31
    → IsBetween frames s
    → (s' : Game) × (play fuel frames keys s ≡ some s') × IsBetween (frames + length keys) s'
unfolding play no_escapes length
play-IsBetween fuel frames [] s enough ok small h =
    (s, refl, subst (λ n. IsBetween n s) (omega arith) h)
play-IsBetween fuel frames (keys ∷ rest) s enough ok small h =
    let (s1, e1, h1) = game_frame-IsBetween fuel frames keys s enough (ground (arith, ok)) h in
    let next : u32 (frames + 1) ≡ frames + 1 = omega (arith, small) in
    let (s2, e2, h2) =
      play-IsBetween fuel (frames + 1) rest s1 enough (ground (arith, ok)) (omega (arith, small))
        h1 in
    (
      s2,
      ap
            (λ n. elim (game_frame fuel n keys s) as (λ x. Option Game) [
              | none ↦ none
              | some s' ↦ play fuel n rest s'
            ])
            next
          ∙ ap
              (λ (o : Option Game). elim o as (λ x. Option Game) [
                | none ↦ none
                | some s' ↦ play fuel (frames + 1) rest s'
              ])
              e1
          ∙ e2,
      subst (λ n. IsBetween n s2) (omega arith) h2,
    )

Aged-IsFair :
    (age : ℕ) (before behind : List Letter) (l : Letter)
    → Aged age (before ++ l ∷ behind)
    → IsFair l
unfolding Aged
Aged-IsFair age [] behind l (fair, young, rest) = fair
Aged-IsFair age (b ∷ bs) behind l (fair, young, rest) = Aged-IsFair (age + 10) bs behind l rest

-- The program starts without letters, and with a pool that is not linked yet.
pub initial-Represents : (seed : ℕ) → Represents (initial_game seed) []
unfolding initial_game values has
initial-Represents seed = record {
  ps = [];
  fs = [];
  last = 0;
  game = record {
    list = nil;
    pool = record {
      free = Chain.nil;
      apart = λ q k. absurd (ground (arith, k));
      stock = inr (refl, refl, refl);
    };
  };
  letters = refl;
}

initial-IsBetween : (seed : ℕ) → IsBetween 0 (initial_game seed)
unfolding Aged
initial-IsBetween seed = record { letters = []; represents = initial-Represents seed; aged = tt }

-- From the start of the program, for any seed and any keys that are not Escape, fewer than 2 ^ 31 frames
-- of the main loop all end where each inner loop has more than 26 rounds. Then at most 26 letters are in
-- the game, so that the pool of 1001 nodes is never exhausted; its list is well linked, and every letter
-- has its 8 x 8 points on the screen of 320 x 200, is one of the 26, and falls by 1 or flies by 3.
pub play-IsFair :
    (fuel seed : ℕ) (keys : List (List ℕ))
    → 26 < fuel
    → no_escapes keys ≡ true
    → length keys < 2 ^ 31
    → (s' : Game) × (ls : List Letter) × (play fuel 0 keys (initial_game seed) ≡ some s')
      × Represents s' ls
      × (length ls ≤ 26)
      × ((before behind : List Letter) (l : Letter) → ls ≡ before ++ l ∷ behind → IsFair l)
play-IsFair fuel seed keys enough ok small =
    let (s', e, h) =
      play-IsBetween fuel 0 keys (initial_game seed) enough ok (omega (arith, small))
        (initial-IsBetween seed) in
    let age = (0 + length keys) % 10 + 1 in
    let few = Aged-length age h.letters h.aged (omega arith) in
    (
      s',
      h.letters,
      e,
      h.represents,
      omega (arith, few),
      λ before behind l k. Aged-IsFair age before behind l (subst (Aged age) k h.aged),
    )
