-- ===== src/Typing/Game/View.antt =====
-- The letters of the game as a list, without the nodes that hold them.
use wukong_am.Base.{ℕ, ◌≡◌, refl, sym, ap, true, ◌==◌, arith}
use wukong_am.Base.{List, [], ◌∷◌, ◌++◌, Bool-cases, inl, inr}
use wukong_am.Typing.Linklist.Links.{equal}
use wukong_am.Typing.Linklist.{Node}
use wukong_am.Typing.Linklist.Segment.{Segment, has, length}
use wukong_am.Typing.Linklist.New.{IsPool}
use wukong_am.Typing.Game.{Letter, Game, pool_size, set_value}

unfoldable pub values : (ℕ → Node Letter) → List ℕ → List Letter
values cells [] = []
values cells (p ∷ ps) = (cells p).value ∷ values cells ps

-- The list of the game is well linked, and its pool has the other nodes.
pub record IsGame (s : Game) (ps fs : List ℕ) (last : ℕ) : Type 0 where
  pub list : Segment s.pool.cells 0 0 s.head ps last
  pub pool : IsPool pool_size s.pool ps fs

-- The game with the letters `ls`.
pub record Represents (s : Game) (ls : List Letter) : Type 0 where
  pub ps : List ℕ
  pub fs : List ℕ
  pub last : ℕ
  pub game : IsGame s ps fs last
  pub letters : values s.pool.cells ps ≡ ls

-- The letters depend on the values of their nodes.
pub values-frame :
    (cells cells' : ℕ → Node Letter) (ps : List ℕ)
    → ((q : ℕ) → has q ps ≡ true → (cells' q).value ≡ (cells q).value)
    → values cells' ps ≡ values cells ps
unfolding values has
values-frame cells cells' [] f = refl
values-frame cells cells' (p ∷ ps) f =
    rw (f p (ground arith), values-frame cells cells' ps (λ q h. f q (ground arith))) refl

pub values-append :
    (cells : ℕ → Node Letter) (ps qs : List ℕ)
    → values cells (ps ++ qs) ≡ values cells ps ++ values cells qs
unfolding values
values-append cells [] qs = refl
values-append cells (p ∷ ps) qs = ap (λ ls. (cells p).value ∷ ls) (values-append cells ps qs)

pub length-values : (cells : ℕ → Node Letter) (ps : List ℕ) → length (values cells ps) ≡ length ps
unfolding values length
length-values cells [] = refl
length-values cells (p ∷ ps) = ground (arith, length-values cells ps)

-- The value of a node is no part of its links.
pub set_value-prev :
    (cells : ℕ → Node Letter) (p : ℕ) (l : Letter) (q : ℕ)
    → (set_value cells p l q).prev ≡ (cells q).prev
set_value-prev cells p l q = elim (Bool-cases (q == p)) [
  | inl same ↦ rw same (ap (λ n. (cells n).prev) (sym (equal q p same)))
  | inr other ↦ rw other refl
]

pub set_value-next :
    (cells : ℕ → Node Letter) (p : ℕ) (l : Letter) (q : ℕ)
    → (set_value cells p l q).next ≡ (cells q).next
set_value-next cells p l q = elim (Bool-cases (q == p)) [
  | inl same ↦ rw same (ap (λ n. (cells n).next) (sym (equal q p same)))
  | inr other ↦ rw other refl
]
