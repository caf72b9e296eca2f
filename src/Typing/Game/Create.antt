-- ===== src/Typing/Game/Create.antt =====
-- `create_new_letter`: a letter in front of the others.
use wukong_am.Base.{ℕ, ◌+◌, ◌≤◌, ◌<◌, ◌≡◌, refl, ap, ◌∙◌, true, false, ◌==◌, arith}
use wukong_am.Base.{List, ◌∷◌}
use wukong_am.Typing.Keyboard.{release_key}
use wukong_am.Typing.Linklist.{Node, list_new}
use wukong_am.Typing.Linklist.Segment.{Segment, Segment-frame, has, length}
use wukong_am.Typing.Linklist.Links.{not_has'}
use wukong_am.Typing.Linklist.New.{Fresh, list_new-Fresh, IsPool-frame}
use wukong_am.Typing.Linklist.Insert.{push, push-Segment, push-value, push-next}
use wukong_am.Typing.Game.{Letter, Game, pool_size, set_value, new_letter, create_new_letter}
use wukong_am.Typing.Game.View.{
  values, values-frame, length-values, IsGame, Represents, set_value-prev, set_value-next,
}

-- The letter is one of the 26, falls by a point, and starts at the top on a place of the screen.
new_letter-place :
    (seed : ℕ)
    → ((new_letter seed).0.text < 26)
      × ((new_letter seed).0.v ≡ 1)
      × ((new_letter seed).0.y ≡ 0)
      × (8 ≤ (new_letter seed).0.x)
      × ((new_letter seed).0.x + 8 ≤ 312)
unfolding new_letter
new_letter-place seed = (omega arith, omega arith, refl, omega arith, omega arith)

-- The new game, once `NAME_new` has given the node.
create_at :
    (s : Game) (ps fs fs' : List ℕ) (last : ℕ)
    → IsGame s ps fs last
    → Fresh pool_size s.pool ps (list_new pool_size s.pool).0 (list_new pool_size s.pool).1 fs'
    → (last' : ℕ) × IsGame (create_new_letter s) ((list_new pool_size s.pool).0 ∷ ps) fs' last'
      × (values (create_new_letter s).pool.cells ((list_new pool_size s.pool).0 ∷ ps)
          ≡ (new_letter s.seed).0 ∷ values s.pool.cells ps)
unfolding create_new_letter values has
create_at s ps fs fs' last g h =
    let now = (list_new pool_size s.pool).0 in
    let cells = (list_new pool_size s.pool).1.cells in
    let letter = (new_letter s.seed).0 in
    let linked : ℕ → Node Letter = push s.head now cells in
    let other : (q : ℕ) → has q ps ≡ true → (q == now) ≡ false =
      λ q k. not_has' now q ps h.unused k in
    let old : Segment cells 0 0 s.head ps last =
      Segment-frame g.list (λ q k. ap (λ (c : Node Letter). c.prev) (h.others q k))
        (λ q k. ap (λ (c : Node Letter). c.next) (h.others q k)) in
    let (last', list) = push-Segment cells s.head now last ps old h.pos h.unused h.prev h.next in
    let first : (now == now) ≡ true = ground arith in
    (
      last',
      record {
        list =
            Segment-frame list (λ q k. set_value-prev linked now letter q)
              (λ q k. set_value-next linked now letter q);
        pool =
            IsPool-frame pool_size (list_new pool_size s.pool).1 (set_value linked now letter) now
              (now ∷ ps) fs' h.pool (ground arith)
              (λ q k.
                set_value-next linked now letter q
                ∙ push-next cells s.head now q
                    (not_has' now q fs' (h.pool.apart now (ground arith)) k));
      },
      rw first (
          ap (λ ls. letter ∷ ls)
            (values-frame s.pool.cells (set_value linked now letter) ps (λ q k.
              let apart = other q k in
              rw apart (push-value cells s.head now q apart)
              ∙ ap (λ (c : Node Letter). c.value) (h.others q k)))),
    )

-- With at most 1000 letters, which is one node short of the pool, create_new_letter puts the letter that
-- rand gives in front of the others, whose list stays well linked. The letter is one of the 26, starts at
-- the top, on a place that is on the screen, and falls by a point, its key counts as released, and the
-- scores stay.
pub create_new_letter-Represents :
    (s : Game) (ls : List Letter)
    → Represents s ls
    → length ls ≤ pool_size
    → let l = (new_letter s.seed).0 in
      Represents (create_new_letter s) (l ∷ ls)
      × ((l.text < 26) × (l.v ≡ 1) × (l.y ≡ 0) × (8 ≤ l.x) × (l.x + 8 ≤ 312))
      × ((create_new_letter s).keyboard ≡ release_key l.text s.keyboard)
      × ((create_new_letter s).hit ≡ s.hit)
      × ((create_new_letter s).miss ≡ s.miss)
unfolding create_new_letter
create_new_letter-Represents s ls h room =
    let few : length h.ps ≤ pool_size =
      ground (arith, length-values s.pool.cells h.ps, ap length h.letters) in
    let (fs', fresh) = list_new-Fresh pool_size s.pool h.ps h.fs h.game.pool few in
    let (last', game, letters) = create_at s h.ps h.fs fs' h.last h.game fresh in
    (
      record {
        ps = (list_new pool_size s.pool).0 ∷ h.ps;
        fs = fs';
        last = last';
        game = game;
        letters = letters ∙ ap (λ ms. (new_letter s.seed).0 ∷ ms) h.letters;
      },
      new_letter-place s.seed,
      refl,
      refl,
      refl,
    )
