-- ===== src/Typing/Game/Target.antt =====
-- The search of `update_keypress` for the lowest falling letter whose key is pressed.
use mathlib.Core.Path.{subst}
use wukong_am.Base.{
  ℕ, zero, suc, ◌<◌, ◌≡◌, refl, sym, ap, Bool, true, false, ◌&&◌, not, ◌⊎◌, ◌==◌, arith,
}
use wukong_am.Base.{List, [], ◌∷◌, ◌++◌, Bool-cases, inl, inr, some, int_lt}
use wukong_am.Typing.Keyboard.{Keyboard, query_key}
use wukong_am.Typing.Linklist.Segment.{Segment, length, nil, cons}
use wukong_am.Typing.Game.{Letter, Game, find_target}
use wukong_am.Typing.Game.View.{values}

-- A falling letter whose key is pressed.
abbrev pub is_aimed : Keyboard → Letter → Bool
is_aimed k l = int_lt 0 l.v && query_key l.text k

-- No such letter is below `y`.
pub none_below : Keyboard → ℕ → List Letter → Bool
none_below k y [] = true
none_below k y (l ∷ ls) = not (is_aimed k l && int_lt y l.y) && none_below k y ls

int_lt_trans : (a b c : ℕ) → int_lt a b ≡ true → int_lt b c ≡ true → int_lt a c ≡ true
int_lt_trans a b c h k = ground arith

int_lt_asym : (a b : ℕ) → int_lt a b ≡ true → int_lt b a ≡ false
int_lt_asym a b h = ground arith

int_lt_irrefl : (a : ℕ) → int_lt a a ≡ false
int_lt_irrefl a = ground arith

int_lt-below : (a b c : ℕ) → int_lt a b ≡ false → int_lt a c ≡ true → int_lt c b ≡ false
int_lt-below a b c h k = ground arith

-- One more letter that is not below.
none_below-above :
    (k : Keyboard) (y : ℕ) (l : Letter) (ls : List Letter)
    → int_lt y l.y ≡ false
    → none_below k y ls ≡ true
    → none_below k y (l ∷ ls) ≡ true
unfolding none_below
none_below-above k y l ls h rest = elim (Bool-cases (is_aimed k l)) [
  | inl aimed ↦ rw (aimed, h) rest
  | inr not_aimed ↦ rw not_aimed rest
]

none_below-other :
    (k : Keyboard) (y : ℕ) (l : Letter) (ls : List Letter)
    → is_aimed k l ≡ false
    → none_below k y ls ≡ true
    → none_below k y (l ∷ ls) ≡ true
unfolding none_below
none_below-other k y l ls h rest = rw h rest

-- The loop finds `r` among the nodes `ps`, where `min` is from before it.
pub record Found (s : Game) (min : ℕ) (ps : List ℕ) (r : ℕ) : Type 0 where
  pub before : List ℕ
  pub behind : List ℕ
  pub at : ps ≡ before ++ r ∷ behind
  pub pos : 0 < r
  pub aimed : is_aimed s.keyboard (s.pool.cells r).value ≡ true
  pub lower : int_lt min (s.pool.cells r).value.y ≡ true
  pub lowest : none_below s.keyboard (s.pool.cells r).value.y (values s.pool.cells ps) ≡ true

-- The target is the one from before the loop, or one of the nodes.
abbrev pub IsTarget : Game → ℕ → ℕ → List ℕ → ℕ → Type 0
IsTarget s min target ps r =
    ((r ≡ target) × (none_below s.keyboard min (values s.pool.cells ps) ≡ true)) ⊎ Found s min ps r

IsTarget-better :
    (s : Game) (min target p r : ℕ) (qs : List ℕ)
    → 0 < p
    → is_aimed s.keyboard (s.pool.cells p).value ≡ true
    → int_lt min (s.pool.cells p).value.y ≡ true
    → IsTarget s (s.pool.cells p).value.y p qs r
    → IsTarget s min target (p ∷ qs) r
unfolding none_below values
IsTarget-better s min target p r qs pos aimed lower (inl (e, below)) = inr (
    subst (λ n. Found s min (p ∷ qs) n) (sym e)
      (record {
        before = [];
        behind = qs;
        at = refl;
        pos = pos;
        aimed = aimed;
        lower = lower;
        lowest =
            none_below-above s.keyboard (s.pool.cells p).value.y (s.pool.cells p).value
              (values s.pool.cells qs) (int_lt_irrefl (s.pool.cells p).value.y) below;
      }))
IsTarget-better s min target p r qs pos aimed lower (inr f) = inr (record {
  before = p ∷ f.before;
  behind = f.behind;
  at = ap (λ ns. p ∷ ns) f.at;
  pos = f.pos;
  aimed = f.aimed;
  lower = int_lt_trans min (s.pool.cells p).value.y (s.pool.cells r).value.y lower f.lower;
  lowest =
      none_below-above s.keyboard (s.pool.cells r).value.y (s.pool.cells p).value
        (values s.pool.cells qs)
        (int_lt_asym (s.pool.cells p).value.y (s.pool.cells r).value.y f.lower) f.lowest;
})

IsTarget-other :
    (s : Game) (min target p r : ℕ) (qs : List ℕ)
    → (is_aimed s.keyboard (s.pool.cells p).value ≡ false)
      ⊎ (int_lt min (s.pool.cells p).value.y ≡ false)
    → IsTarget s min target qs r
    → IsTarget s min target (p ∷ qs) r
unfolding values
IsTarget-other s min target p r qs (inl other) (inl (e, below)) =
    inl (
      e,
      none_below-other s.keyboard min (s.pool.cells p).value (values s.pool.cells qs) other below,
    )
IsTarget-other s min target p r qs (inr above) (inl (e, below)) =
    inl (
      e,
      none_below-above s.keyboard min (s.pool.cells p).value (values s.pool.cells qs) above below,
    )
IsTarget-other s min target p r qs why (inr f) = inr (record {
  before = p ∷ f.before;
  behind = f.behind;
  at = ap (λ ns. p ∷ ns) f.at;
  pos = f.pos;
  aimed = f.aimed;
  lower = f.lower;
  lowest = elim why [
    | inl other ↦
        none_below-other s.keyboard (s.pool.cells r).value.y (s.pool.cells p).value
          (values s.pool.cells qs) other f.lowest
    | inr above ↦
        none_below-above s.keyboard (s.pool.cells r).value.y (s.pool.cells p).value
          (values s.pool.cells qs)
          (int_lt-below min (s.pool.cells p).value.y (s.pool.cells r).value.y above f.lower)
          f.lowest
  ];
})

-- The test of the loop, from its three parts.
better_true : (a b c : Bool) → (a && c) ≡ true → b ≡ true → (a && b && c) ≡ true
better_true a b c h k = ground (arith, h, k)

better_lower : (a b c : Bool) → b ≡ false → (a && b && c) ≡ false
better_lower a b c h = ground (arith, h)

better_other : (a b c : Bool) → (a && c) ≡ false → (a && b && c) ≡ false
better_other a b c h = ground (arith, h)

pub find_target-IsTarget :
    (fuel it min target : ℕ) (s : Game) (prev last : ℕ) (ps : List ℕ)
    → Segment s.pool.cells 0 prev it ps last
    → length ps < fuel
    → (r : ℕ) × (find_target fuel it min target s ≡ some r) × IsTarget s min target ps r
unfolding find_target values none_below length
find_target-IsTarget zero it min target s prev last ps h enough = absurd (omega (arith, enough))
find_target-IsTarget (suc fuel) it min target s prev last ps nil enough =
    (target, refl, inl (refl, refl))
find_target-IsTarget (suc fuel) it min target s prev last ps
      (cons {p = p} {ps = qs} pos out back rest) enough =
    let l = (s.pool.cells p).value in
    let some_node : (p == 0) ≡ false = ground arith in
    let better = int_lt 0 l.v && int_lt min l.y && query_key l.text s.keyboard in
    elim (Bool-cases (is_aimed s.keyboard l)) [
      | inl aimed ↦ elim (Bool-cases (int_lt min l.y)) [
        | inl lower ↦
            let (r, e, found) =
              find_target-IsTarget fuel (s.pool.cells p).next l.y p s p last qs rest
                (omega (arith, enough)) in
            (
              r,
              (let b : better ≡ true =
                    better_true (int_lt 0 l.v) (int_lt min l.y) (query_key l.text s.keyboard) aimed
                      lower in
                  rw (some_node, b) e),
              IsTarget-better s min target p r qs pos aimed lower found,
            )
        | inr above ↦
            let (r, e, found) =
              find_target-IsTarget fuel (s.pool.cells p).next min target s p last qs rest
                (omega (arith, enough)) in
            (
              r,
              (let b : better ≡ false =
                    better_lower (int_lt 0 l.v) (int_lt min l.y) (query_key l.text s.keyboard)
                      above in
                  rw (some_node, b) e),
              IsTarget-other s min target p r qs (inr above) found,
            )
      ]
      | inr other ↦
          let (r, e, found) =
            find_target-IsTarget fuel (s.pool.cells p).next min target s p last qs rest
              (omega (arith, enough)) in
          (
            r,
            (let b : better ≡ false =
                  better_other (int_lt 0 l.v) (int_lt min l.y) (query_key l.text s.keyboard)
                    other in
                rw (some_node, b) e),
            IsTarget-other s min target p r qs (inl other) found,
          )
    ]
