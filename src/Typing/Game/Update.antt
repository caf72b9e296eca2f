-- ===== src/Typing/Game/Update.antt =====
-- `update_letter_pos`: the letters move, and those off the screen leave the list and are counted.
use mathlib.Core.Path.{subst}
use mathlib.Core.List.{append_assoc, append-nil}
use wukong_am.Base.{
  ℕ, zero, suc, ◌+◌, ◌<◌, ◌≡◌, refl, sym, ap, ◌∙◌, true, false, ◌==◌, if◌then◌else◌, arith,
}
use wukong_am.Base.{List, [], ◌∷◌, ◌++◌, Bool-cases, inl, inr, Option, some, u32}
use wukong_am.Typing.Linklist.{Pool, list_remove, list_free}
use wukong_am.Typing.Linklist.Segment.{Segment, has, has-append, length, nil, cons}
use wukong_am.Typing.Linklist.Remove.{Place}
use wukong_am.Typing.Linklist.Links.{not_has'}
use wukong_am.Typing.Linklist.New.{IsPool}
use wukong_am.Typing.Game.{
  Letter, Game, pool_size, set_value, moved, is_above, is_off, update_loop, update_letter_pos,
}
use wukong_am.Typing.Game.View.{values, values-frame, values-append, length-values, Represents}
use wukong_am.Typing.Game.Steps.{drop, keep}
use wukong_am.Typing.Game.Fallen.{
  fallen, count_above, count_below, letter_above, letter_below, letter_stays,
}

-- What the loop ends with, where the nodes hold `ms` in the end and `above` and `below` letters left.
record Ends (s : Game) (r : Option Game) (ms : List Letter) (above below : ℕ) : Type 0 where
  last : Game
  returns : r ≡ some last
  letters : Represents last ms
  hit : u32 last.hit ≡ u32 (s.hit + above)
  miss : u32 last.miss ≡ u32 (s.miss + below)
  keyboard : last.keyboard ≡ s.keyboard
  seed : last.seed ≡ s.seed

-- What a round leaves to the others, in terms of the game before the round.
Ends-round :
    (s s1 : Game) (r : Option Game) (ms ms' : List Letter) (a b a' b' : ℕ)
    → Ends s1 r ms a b
    → ms ≡ ms'
    → u32 (s1.hit + a) ≡ u32 (s.hit + a')
    → u32 (s1.miss + b) ≡ u32 (s.miss + b')
    → s1.keyboard ≡ s.keyboard
    → s1.seed ≡ s.seed
    → Ends s r ms' a' b'
Ends-round s s1 r ms ms' a b a' b' h e f g k l = record {
  last = h.last;
  returns = h.returns;
  letters = subst (Represents h.last) e h.letters;
  hit = h.hit ∙ f;
  miss = h.miss ∙ g;
  keyboard = h.keyboard ∙ k;
  seed = h.seed ∙ l;
}

above_off : (l : Letter) → is_above (moved l) ≡ true → is_off (moved l) ≡ true
above_off l e = rw e refl

stays_inside : (l : Letter) → is_off (moved l) ≡ false → is_above (moved l) ≡ false
stays_inside l e = ground (arith, e)

update_loop-Ends :
    (fuel : ℕ) (s : Game) (it : ℕ) (ks ps fs : List ℕ) (mid last : ℕ)
    → Segment s.pool.cells 0 mid it ps last
    → Segment s.pool.cells it 0 s.head ks mid
    → ((q : ℕ) → has q ks ≡ true → has q ps ≡ false)
    → IsPool pool_size s.pool (ks ++ ps) fs
    → length ps < fuel
    → Ends s
        (update_loop fuel it s)
        (values s.pool.cells ks ++ fallen (values s.pool.cells ps))
        (count_above (values s.pool.cells ps))
        (count_below (values s.pool.cells ps))
unfolding update_loop values fallen count_above count_below has length
update_loop-Ends zero s it ks ps fs mid last back front apart pool enough =
    absurd (omega (arith, enough))
update_loop-Ends (suc fuel) s it ks ps fs mid last nil front apart pool enough = record {
  last = s;
  returns = refl;
  letters = record {
    ps = ks;
    fs = fs;
    last = mid;
    game = record {
      list = front;
      pool = subst (λ ps. IsPool pool_size s.pool ps fs) (append-nil ks) pool;
    };
    letters = sym (append-nil (values s.pool.cells ks));
  };
  hit = ground arith;
  miss = ground arith;
  keyboard = refl;
  seed = refl;
}
update_loop-Ends (suc fuel) s it ks ps fs mid last (cons {p = p} {ps = rs} pos out prev rest) front
      apart pool enough =
    let l = (s.pool.cells p).value in
    let some_node : (p == 0) ≡ false = ground arith in
    let place : Place s.pool.cells s.head p ks rs mid last = record {
      front = front;
      pos = pos;
      not_behind = out;
      not_before = elim (Bool-cases (has p ks)) [
        | inl inside ↦ absurd (ground (arith, apart p inside))
        | inr outside ↦ outside
      ];
      prev = prev;
      rest = rest;
      apart = λ q k. ground (arith, apart q k);
    } in
    let ((last', split), pool', same) =
      drop s.pool (moved l) s.head p ks rs fs mid last place pool in
    let removed : Pool Letter =
      list_free p
        (record (s.pool) { cells = list_remove p (set_value s.pool.cells p (moved l)) }) in
    let next = (s.pool.cells p).next in
    let head : ℕ = if p == s.head then next else s.head in
    let values_ks : values removed.cells ks ≡ values s.pool.cells ks =
      values-frame s.pool.cells removed.cells ks
        (λ q k. same q (has-append q ks rs ∙ ground (arith, k))) in
    let values_rs : values removed.cells rs ≡ values s.pool.cells rs =
      values-frame s.pool.cells removed.cells rs
        (λ q k. same q (has-append q ks rs ∙ ground (arith, k))) in
    let (split2, pool2) = keep s.pool (moved l) s.head p ks rs fs mid last place pool in
    rw some_node (elim (Bool-cases (is_off (moved l))) [
      | inl off ↦ elim (Bool-cases (is_above (moved l))) [
        | inl above ↦ rw (letter_above p s above) (
            let s1 : Game = record s { pool = removed; head = head; hit = u32 (s.hit + 1) } in
            Ends-round s s1 _ _ _ _ _ _ _
              (update_loop-Ends fuel s1 next ks rs (p ∷ fs) mid last' split.back split.front
                split.apart pool' (omega (arith, enough)))
              (rw (values_ks, values_rs, above) refl) (rw (values_rs, above) (omega arith))
              (rw (values_rs, above) refl) refl refl)
        | inr below ↦ rw (letter_below p s below off) (
            let s1 : Game = record s { pool = removed; head = head; miss = u32 (s.miss + 1) } in
            Ends-round s s1 _ _ _ _ _ _ _
              (update_loop-Ends fuel s1 next ks rs (p ∷ fs) mid last' split.back split.front
                split.apart pool' (omega (arith, enough)))
              (rw (values_ks, values_rs, off) refl) (rw (values_rs, below) refl)
              (rw (values_rs, off, below) (omega arith)) refl refl)
      ]
      | inr on ↦ rw (letter_stays p s on) (
          let placed = set_value s.pool.cells p (moved l) in
          let s1 : Game = record s { pool = record (s.pool) { cells = placed } } in
          let assoc : ks ++ p ∷ rs ≡ (ks ++ p ∷ []) ++ rs = sym (append_assoc ks (p ∷ []) rs) in
          let values_ks' : values placed ks ≡ values s.pool.cells ks =
            values-frame s.pool.cells placed ks (λ q k.
              let other : (q == p) ≡ false = not_has' p q ks place.not_before k in rw other refl) in
          let values_rs' : values placed rs ≡ values s.pool.cells rs =
            values-frame s.pool.cells placed rs
              (λ q k. let other : (q == p) ≡ false = not_has' p q rs out k in rw other refl) in
          let here : (p == p) ≡ true = ground arith in
          let inside : is_above (moved l) ≡ false = stays_inside l on in
          Ends-round s s1 _ _ _ _ _ _ _
            (update_loop-Ends fuel s1 next (ks ++ p ∷ []) rs fs p last split2.back split2.front
              split2.apart (subst (λ ps. IsPool pool_size s1.pool ps fs) assoc pool2)
              (omega (arith, enough)))
            (ap (λ ms. ms ++ fallen (values placed rs)) (values-append placed ks (p ∷ []))
              ∙ append_assoc (values placed ks) (values placed (p ∷ [])) (fallen (values placed rs))
              ∙ rw (values_ks', values_rs', on, here) refl)
            (rw (values_rs', inside) refl) (rw (values_rs', on, inside) refl) refl refl)
    ])

-- A letter on the screen is not moved off it without being counted: of the letters of the game,
-- update_letter_pos keeps exactly those whose new place has 0 <= y and y + 8 <= 200, moved by their speed
-- and in their order, in a well-linked list whose pool has the nodes of the others; the letters that
-- leave at the top are added to the hits and the others to the misses, all modulo 2 ^ 32. The loop ends
-- in one round more than there are letters.
pub update_letter_pos-Represents :
    (fuel : ℕ) (s : Game) (ls : List Letter)
    → Represents s ls
    → length ls < fuel
    → (s' : Game) × (update_letter_pos fuel s ≡ some s')
      × Represents s' (fallen ls)
      × (u32 s'.hit ≡ u32 (s.hit + count_above ls))
      × (u32 s'.miss ≡ u32 (s.miss + count_below ls))
      × (s'.keyboard ≡ s.keyboard)
      × (s'.seed ≡ s.seed)
unfolding values has update_letter_pos update_loop
update_letter_pos-Represents fuel s ls h enough =
    let few : length h.ps < fuel =
      ground (arith, length-values s.pool.cells h.ps, ap length h.letters) in
    let r =
      update_loop-Ends fuel s s.head [] h.ps h.fs 0 h.last h.game.list nil
        (λ q k. absurd (ground (arith, k))) h.game.pool few in
    (
      r.last,
      r.returns,
      subst (λ ms. Represents r.last (fallen ms)) h.letters r.letters,
      r.hit ∙ ap (λ ms. u32 (s.hit + count_above ms)) h.letters,
      r.miss ∙ ap (λ ms. u32 (s.miss + count_below ms)) h.letters,
      r.keyboard,
      r.seed,
    )
