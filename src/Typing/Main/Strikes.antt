-- ===== src/Typing/Main/Strikes.antt =====
-- The loops of the main loop over the keyboard and over the letters that are struck.
use wukong_am.Base.{
  ℕ, zero, suc, ◌+◌, ◌-◌, ◌<◌, ◌≤◌, ◌^◌, ◌≡◌, refl, sym, ap, ◌∙◌, Bool, true, false, ◌&&◌, ◌==◌,
  if◌then◌else◌, arith, not,
}
use wukong_am.Base.{
  List, [], ◌∷◌, ◌++◌, Bool-cases, inl, inr, int_lt, Option, none, some, bit_and, truthy,
}
use wukong_am.Typing.Keyboard.{Keyboard, keyboard_event, press_key, set_letters}
use wukong_am.Typing.Linklist.Segment.{length}
use wukong_am.Typing.Game.{Letter, Game, update_keypress}
use wukong_am.Typing.Game.View.{Represents}
use wukong_am.Typing.Game.Keypress.{update_keypress-Represents}
use wukong_am.Typing.Game.Target.{none_below, is_aimed}
use wukong_am.Typing.Main.{keypress_loop, keyboard_loop}
use wukong_am.Typing.Main.Aged.{Aged, struck-Aged}

-- The letters that fall.
unfoldable pub count_falling : List Letter → ℕ
count_falling [] = 0
count_falling (l ∷ ls) = let rest = count_falling ls in if int_lt 0 l.v then rest + 1 else rest

pub count_falling-bound : (ls : List Letter) → count_falling ls ≤ length ls
unfolding count_falling length
count_falling-bound [] = ground arith
count_falling-bound (l ∷ ls) = let rest = count_falling-bound ls in ground arith

-- A letter that is struck does not fall any more.
count_falling-struck :
    (before behind : List Letter) (l : Letter)
    → int_lt 0 l.v ≡ true
    → count_falling (before ++ record l { v = 2 ^ 32 - 3 } ∷ behind) + 1
      ≡ count_falling (before ++ l ∷ behind)
unfolding count_falling
count_falling-struck [] behind l h = rw h refl
count_falling-struck (b ∷ bs) behind l h =
    let rest = count_falling-struck bs behind l h in
    elim (Bool-cases (int_lt 0 b.v)) [
      | inl falls ↦ rw falls (omega (arith, rest))
      | inr flies ↦ rw flies rest
    ]

length-struck :
    (before behind : List Letter) (l m : Letter)
    → length (before ++ l ∷ behind) ≡ length (before ++ m ∷ behind)
unfolding length
length-struck [] behind l m = refl
length-struck (b ∷ bs) behind l m = ap (λ n. n + 1) (length-struck bs behind l m)

-- The letter after it was struck.
abbrev pub struck : Letter → Letter
struck l = record l { v = 2 ^ 32 - 3 }

-- Some of the falling letters are struck, one after the other.
pub data Strikes : List Letter → List Letter → Type 0 where
  no_strike : {ls : List Letter} → Strikes ls ls
  next_strike :
      {ls ms : List Letter} (before behind : List Letter) (l : Letter)
      → ls ≡ before ++ l ∷ behind
      → int_lt 0 l.v ≡ true
      → Strikes (before ++ struck l ∷ behind) ms
      → Strikes ls ms

pub Strikes-Aged : (age : ℕ) (ls ms : List Letter) → Strikes ls ms → Aged age ls → Aged age ms
Strikes-Aged age ls ms Strikes.no_strike h = h
Strikes-Aged age ls ms (Strikes.next_strike before behind l at falls rest) h =
    Strikes-Aged age (before ++ struck l ∷ behind) ms rest
      (struck-Aged age before behind l (rw⁻¹ at h) falls)

-- What the loop ends with: letters were struck, the scores and the seed stay, and none is left to strike.
pub record Quiet (s : Game) (ls : List Letter) (r : Option Game) : Type 0 where
  pub last : Game
  pub letters : List Letter
  pub returns : r ≡ some last
  pub represents : Represents last letters
  pub strikes : Strikes ls letters
  pub hit : last.hit ≡ s.hit
  pub miss : last.miss ≡ s.miss
  pub seed : last.seed ≡ s.seed
  pub quiet : none_below last.keyboard (2 ^ 32 - 100) letters ≡ true

aimed-falls : (k : Keyboard) (l : Letter) → is_aimed k l ≡ true → int_lt 0 l.v ≡ true
aimed-falls k l h = ground (arith, h)

-- A round of the loop.
keypress_loop-round :
    (rounds fuel : ℕ) (s : Game) (again : Bool) (s' : Game)
    → update_keypress fuel s ≡ some (again, s')
    → keypress_loop (suc rounds) fuel s ≡ (if again then keypress_loop rounds fuel s' else some s')
unfolding keypress_loop
keypress_loop-round rounds fuel s again s' e =
    ap
      (λ (o : Option (Bool × Game)). elim o as (λ x. Option Game) [
        | none ↦ none
        | some (again, s') ↦ if again then keypress_loop rounds fuel s' else some s'
      ])
      e

-- On a game with a well-linked list of letters, with more rounds than letters fall and more fuel than there
-- are letters for the search in each, the loop over update_keypress ends. Nothing has happened to the
-- list but that falling letters were struck, which gave them the speed -3; the scores and the seed
-- stay; and below -100 no letter falls any more whose key is pressed.
pub keypress_loop-Quiet :
    (rounds fuel : ℕ) (s : Game) (ls : List Letter)
    → Represents s ls
    → length ls < fuel
    → count_falling ls < rounds
    → Quiet s ls (keypress_loop rounds fuel s)
keypress_loop-Quiet zero fuel s ls h enough k = absurd (omega (arith, k))
keypress_loop-Quiet (suc rounds) fuel s ls h enough k =
    elim (update_keypress-Represents fuel s ls h enough) [
      | inl (e, below) ↦ record {
        last = s;
        letters = ls;
        returns = keypress_loop-round rounds fuel s false s e;
        represents = h;
        strikes = Strikes.no_strike;
        hit = refl;
        miss = refl;
        seed = refl;
        quiet = below;
      }
      | inr hit ↦
          let falling = aimed-falls s.keyboard hit.letter hit.aimed in
          let after = hit.before ++ struck (hit.letter) ∷ hit.behind in
          let size : length after ≡ length ls =
            length-struck hit.before hit.behind (struck (hit.letter)) hit.letter
            ∙ sym (ap length hit.at) in
          let fewer : count_falling after + 1 ≡ count_falling ls =
            count_falling-struck hit.before hit.behind hit.letter falling
            ∙ sym (ap count_falling hit.at) in
          let r =
            keypress_loop-Quiet rounds fuel hit.last after hit.letters (omega (arith, size, enough))
              (omega (arith, fewer, k)) in
          record {
            last = r.last;
            letters = r.letters;
            returns = keypress_loop-round rounds fuel s true hit.last hit.returns ∙ r.returns;
            represents = r.represents;
            strikes = Strikes.next_strike hit.before hit.behind hit.letter hit.at falling r.strikes;
            hit = r.hit ∙ hit.hit;
            miss = r.miss ∙ hit.miss;
            seed = r.seed ∙ hit.seed;
            quiet = r.quiet;
          }
    ]

-- No result of `read_key` is that of the Escape key, pressed or released.
unfoldable pub no_escape : List ℕ → Bool
no_escape [] = true
no_escape (c ∷ cs) = not (bit_and c 0xffff7fff == 1) && no_escape cs

keyboard_event-returns :
    (c : ℕ) (k : Keyboard)
    → (bit_and c 0xffff7fff == 1) ≡ false
    → (again : Bool) × (k' : Keyboard) × (keyboard_event c k ≡ some (again, k'))
unfolding keyboard_event
keyboard_event-returns c k h = elim (Bool-cases (bit_and c 0xffff7fff == 0)) [
  | inl empty ↦ (false, k, rw (h, empty) refl)
  | inr other ↦ elim (Bool-cases (truthy (bit_and c 0x8000))) [
    | inl down ↦ (
      true,
      press_key (bit_and c 0xffff7fff) (record k { key_code = bit_and c 0xffff7fff }),
      rw (h, other, down) refl,
    )
    | inr up ↦
        (true, record k { pressed = set_letters 26 c false k.pressed }, rw (h, other, up) refl)
  ]
]

pub keyboard_loop-returns :
    (cs : List ℕ) (k : Keyboard)
    → no_escape cs ≡ true
    → (k' : Keyboard) × (keyboard_loop cs k ≡ some k')
unfolding no_escape keyboard_loop
keyboard_loop-returns [] k h = (k, refl)
keyboard_loop-returns (c ∷ cs) k h =
    let other : (bit_and c 0xffff7fff == 1) ≡ false = ground (arith, h) in
    let (again, k1, e) = keyboard_event-returns c k other in
    let (k2, e2) = keyboard_loop-returns cs k1 (ground (arith, h)) in
    let first : keyboard_loop (c ∷ cs) k ≡ (if again then keyboard_loop cs k1 else some k1) =
      ap
        (λ (o : Option (Bool × Keyboard)). elim o as (λ x. Option Keyboard) [
          | none ↦ none
          | some (again, k') ↦ if again then keyboard_loop cs k' else some k'
        ])
        e in
    elim (Bool-cases again) [
      | inl more ↦ (k2, first ∙ rw more e2)
      | inr done ↦ (k1, first ∙ rw done refl)
    ]
