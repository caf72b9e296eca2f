-- ===== src/Typing/Linklist/Segment.antt =====
-- Segments of a doubly linked list, and the chain of the free nodes.
use wukong_am.Base.{ℕ, ◌+◌, ◌<◌, ◌≡◌, refl, ◌∙◌, Bool, true, false, ◌||◌, ◌==◌, arith}
use wukong_am.Base.{List, [], ◌∷◌, ◌++◌}
use wukong_am.Typing.Linklist.{Node}

unfoldable pub has : ℕ → List ℕ → Bool
has a [] = false
has a (p ∷ ps) = (a == p) || has a ps

unfoldable pub length {ℓ} : {A : Type ℓ} → List A → ℕ
length [] = 0
length (x ∷ xs) = length xs + 1

pub has-append : (a : ℕ) (ps qs : List ℕ) → has a (ps ++ qs) ≡ (has a ps || has a qs)
unfolding has
has-append a [] qs = refl
has-append a (p ∷ ps) qs = ground (arith, has-append a ps qs)

module _ {ℓ} {A : Type ℓ} where
  -- From `p`, whose predecessor is `prev`, the nodes `ps` are linked both ways up to `last`, and the
  -- successor of that is `stop`.
  pub data Segment (cells : ℕ → Node A) (stop : ℕ) : ℕ → ℕ → List ℕ → ℕ → Type ℓ where
    nil : {prev : ℕ} → Segment cells stop prev stop [] prev
    cons :
        {prev p last : ℕ} {ps : List ℕ}
        → 0 < p
        → has p ps ≡ false
        → (cells p).prev ≡ prev
        → Segment cells stop p (cells p).next ps last
        → Segment cells stop prev p (p ∷ ps) last

  -- From `p` the free nodes `ps` are linked up to NULL.
  pub data Chain (cells : ℕ → Node A) : ℕ → List ℕ → Type ℓ where
    nil : Chain cells 0 []
    cons :
        {p : ℕ} {ps : List ℕ}
        → 0 < p
        → has p ps ≡ false
        → Chain cells (cells p).next ps
        → Chain cells p (p ∷ ps)

  -- A segment depends on the links of its nodes.
  pub Segment-frame :
      {cells cells' : ℕ → Node A} {stop prev p last : ℕ} {ps : List ℕ}
      → Segment cells stop prev p ps last
      → ((q : ℕ) → has q ps ≡ true → (cells' q).prev ≡ (cells q).prev)
      → ((q : ℕ) → has q ps ≡ true → (cells' q).next ≡ (cells q).next)
      → Segment cells' stop prev p ps last
  unfolding has
  Segment-frame nil f g = nil
  Segment-frame {cells} {cells'} {stop} {prev} (cons {p} {last} {ps} pos out back rest) f g =
      cons pos out (f p (ground arith) ∙ back) (
        rw (g p (ground arith))
          (Segment-frame rest (λ q h. f q (ground arith)) (λ q h. g q (ground arith))))

  pub Chain-frame :
      {cells cells' : ℕ → Node A} {p : ℕ} {ps : List ℕ}
      → Chain cells p ps
      → ((q : ℕ) → has q ps ≡ true → (cells' q).next ≡ (cells q).next)
      → Chain cells' p ps
  unfolding has
  Chain-frame nil g = nil
  Chain-frame (cons {p} {ps} pos out rest) g =
      cons pos out (rw (g p (ground arith)) (Chain-frame rest (λ q h. g q (ground arith))))

  -- A segment goes on with the node where it stops.
  pub Segment-snoc :
      {cells : ℕ → Node A} {stop prev p last : ℕ} {ps : List ℕ}
      → Segment cells stop prev p ps last
      → 0 < stop
      → has stop ps ≡ false
      → (cells stop).prev ≡ last
      → Segment cells (cells stop).next prev p (ps ++ stop ∷ []) stop
  unfolding has
  Segment-snoc nil pos out back = cons pos refl back nil
  Segment-snoc {stop} (cons {p} {ps} pos' out' back' rest) pos out back =
      cons pos' (has-append p ps (stop ∷ []) ∙ ground arith) back'
        (Segment-snoc rest pos (ground arith) back)
