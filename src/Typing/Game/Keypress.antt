-- ===== src/Typing/Game/Keypress.antt =====
-- `update_keypress`: the letter that is found flies back up.
use mathlib.Core.Path.{subst}
use wukong_am.Base.{ℕ, ◌-◌, ◌<◌, ◌^◌, ◌≡◌, refl, sym, ap, ◌∙◌, Bool, true, false, ◌⊎◌, ◌==◌, arith}
use wukong_am.Base.{List, [], ◌∷◌, ◌++◌, Bool-cases, inl, inr, Option, none, some}
use wukong_am.Typing.Keyboard.{release_key}
use wukong_am.Typing.Linklist.{Node}
use wukong_am.Typing.Linklist.Segment.{Segment, Segment-frame, has, has-append, length, cons}
use wukong_am.Typing.Linklist.Links.{not_has'}
use wukong_am.Typing.Linklist.New.{IsPool-frame}
use wukong_am.Typing.Game.{Letter, Game, pool_size, set_value, find_target, strike, update_keypress}
use wukong_am.Typing.Game.View.{
  values, values-frame, values-append, length-values, IsGame, Represents, set_value-prev,
  set_value-next,
}
use wukong_am.Typing.Game.Target.{is_aimed, none_below, Found, find_target-IsTarget}

-- A node stands in a list at one place.
Segment-once :
    (cells : ℕ → Node Letter) (stop prev p last r : ℕ) (before behind : List ℕ)
    → Segment cells stop prev p (before ++ r ∷ behind) last
    → (has r before ≡ false) × (has r behind ≡ false)
unfolding has
Segment-once cells stop prev p last r [] behind (cons pos out back rest) = (refl, out)
Segment-once cells stop prev p last r (b ∷ bs) behind (cons pos out back rest) =
    let (before, after) = Segment-once cells stop b (cells b).next last r bs behind rest in
    (
      elim (Bool-cases (r == b)) [
        | inl same ↦ absurd (ground (arith, sym out ∙ has-append b bs (r ∷ behind)))
        | inr other ↦ ground (arith, other, before)
      ],
      after,
    )

-- The game in which a letter is struck.
pub record Struck (fuel : ℕ) (s : Game) (ls : List Letter) : Type 0 where
  pub before : List Letter
  pub behind : List Letter
  pub letter : Letter
  pub last : Game
  pub at : ls ≡ before ++ letter ∷ behind
  pub aimed : is_aimed s.keyboard letter ≡ true
  pub lowest : none_below s.keyboard letter.y ls ≡ true
  pub returns : update_keypress fuel s ≡ some (true, last)
  pub letters : Represents last (before ++ record letter { v = 2 ^ 32 - 3 } ∷ behind)
  pub keyboard : last.keyboard ≡ release_key letter.text s.keyboard
  pub hit : last.hit ≡ s.hit
  pub miss : last.miss ≡ s.miss
  pub seed : last.seed ≡ s.seed

-- The letters after the write of the speed.
values-struck :
    (cells : ℕ → Node Letter) (r : ℕ) (l : Letter) (before behind : List ℕ)
    → has r before ≡ false
    → has r behind ≡ false
    → values (set_value cells r l) (before ++ r ∷ behind)
      ≡ values cells before ++ l ∷ values cells behind
unfolding values
values-struck cells r l before behind a b =
    let struck = set_value cells r l in
    let here : (r == r) ≡ true = ground arith in
    let values_before : values struck before ≡ values cells before =
      values-frame cells struck before
        (λ q k. let other : (q == r) ≡ false = not_has' r q before a k in rw other refl) in
    let values_behind : values struck behind ≡ values cells behind =
      values-frame cells struck behind
        (λ q k. let other : (q == r) ≡ false = not_has' r q behind b k in rw other refl) in
    values-append struck before (r ∷ behind) ∙ rw (values_before, values_behind, here) refl

-- Once the loop has its target, the letter there is struck.
update_keypress-strike :
    (fuel : ℕ) (s : Game) (r : ℕ)
    → find_target fuel s.head (2 ^ 32 - 100) 0 s ≡ some r
    → update_keypress fuel s ≡ some (strike r s)
unfolding update_keypress
update_keypress-strike fuel s r e =
    ap
      (λ (o : Option ℕ). elim o as (λ x. Option (Bool × Game)) [
        | none ↦ none
        | some t ↦ some (strike t s)
      ])
      e

update_keypress-Struck :
    (fuel : ℕ) (s : Game) (ps fs : List ℕ) (last r : ℕ)
    → IsGame s ps fs last
    → find_target fuel s.head (2 ^ 32 - 100) 0 s ≡ some r
    → Found s (2 ^ 32 - 100) ps r
    → Struck fuel s (values s.pool.cells ps)
unfolding values strike has
update_keypress-Struck fuel s ps fs last r g e f =
    let l = (s.pool.cells r).value in
    let some_node : (r == 0) ≡ false = ground (arith, f.pos) in
    let struck : Letter = record l { v = 2 ^ 32 - 3 } in
    let cells : ℕ → Node Letter = set_value s.pool.cells r struck in
    let (out, out') =
      Segment-once s.pool.cells 0 0 s.head last r f.before f.behind
        (subst (λ ns. Segment s.pool.cells 0 0 s.head ns last) f.at g.list) in
    record {
      before = values s.pool.cells f.before;
      behind = values s.pool.cells f.behind;
      letter = l;
      last = record s {
        pool = record (s.pool) { cells = cells };
        keyboard = release_key l.text s.keyboard;
      };
      at = ap (values s.pool.cells) f.at ∙ values-append s.pool.cells f.before (r ∷ f.behind);
      aimed = f.aimed;
      lowest = f.lowest;
      returns = update_keypress-strike fuel s r e ∙ rw some_node refl;
      letters = record {
        ps = ps;
        fs = fs;
        last = last;
        game = record {
          list =
              Segment-frame g.list (λ q k. set_value-prev s.pool.cells r struck q)
                (λ q k. set_value-next s.pool.cells r struck q);
          pool =
              IsPool-frame pool_size s.pool cells r ps fs g.pool
                (ap (has r) f.at ∙ has-append r f.before (r ∷ f.behind) ∙ ground arith)
                (λ q k. set_value-next s.pool.cells r struck q);
        };
        letters =
            ap (values cells) f.at ∙ values-struck s.pool.cells r struck f.before f.behind out out';
      };
      keyboard = refl;
      hit = refl;
      miss = refl;
      seed = refl;
    }

-- Where more rounds are given than there are letters, update_keypress returns: false, with the game as it
-- was, where below -100 no letter falls whose key is pressed, and otherwise true. Then one of the letters
-- gets the speed -3 and its key counts as released; it falls, its key is pressed, and no other
-- such letter is below it. The other letters, the links and the scores stay.
pub update_keypress-Represents :
    (fuel : ℕ) (s : Game) (ls : List Letter)
    → Represents s ls
    → length ls < fuel
    → ((update_keypress fuel s ≡ some (false, s))
        × (none_below s.keyboard (2 ^ 32 - 100) ls ≡ true))
      ⊎ Struck fuel s ls
unfolding strike
update_keypress-Represents fuel s ls h enough =
    let few : length h.ps < fuel =
      ground (arith, length-values s.pool.cells h.ps, ap length h.letters) in
    let (r, e, target) =
      find_target-IsTarget fuel s.head (2 ^ 32 - 100) 0 s 0 h.last h.ps h.game.list few in
    subst
      (λ ms.
        ((update_keypress fuel s ≡ some (false, s))
          × (none_below s.keyboard (2 ^ 32 - 100) ms ≡ true))
        ⊎ Struck fuel s ms)
      h.letters
      (elim target [
        | inl (none_found, below) ↦
            let null : (r == 0) ≡ true = ground (arith, none_found) in
            inl (update_keypress-strike fuel s r e ∙ rw null refl, below)
        | inr f ↦ inr (update_keypress-Struck fuel s h.ps h.fs h.last r h.game e f)
      ])
