-- ===== src/Typing/Game/Steps.antt =====
-- The steps of `update_letter_pos` over the list: a letter leaves it, or stays at its new place.
use mathlib.Core.Path.{subst}
use wukong_am.Base.{ℕ, ◌+◌, ◌≡◌, refl, sym, ap, ◌∙◌, true, false, ◌==◌, if◌then◌else◌, arith}
use wukong_am.Base.{List, [], ◌∷◌, ◌++◌, Bool-cases, inl, inr}
use wukong_am.Typing.Linklist.{Node, Pool, set_next, list_remove, list_free}
use wukong_am.Typing.Linklist.Segment.{Segment-frame, Segment-snoc, has, has-append, length}
use wukong_am.Typing.Linklist.Remove.{Place, Split, list_remove-Split}
use wukong_am.Typing.Linklist.Links.{not_has', equal}
use wukong_am.Typing.Linklist.New.{IsPool, IsPool-frame, list_free-IsPool}
use wukong_am.Typing.Game.{Letter, pool_size, set_value}
use wukong_am.Typing.Game.View.{set_value-prev, set_value-next}

-- A place whose nodes keep their links.
Place-frame :
    (cells cells' : ℕ → Node Letter) (head it : ℕ) (ks rs : List ℕ) (mid last : ℕ)
    → Place cells head it ks rs mid last
    → ((q : ℕ) → (cells' q).prev ≡ (cells q).prev)
    → ((q : ℕ) → (cells' q).next ≡ (cells q).next)
    → Place cells' head it ks rs mid last
Place-frame cells cells' head it ks rs mid last h f g = record {
  front = Segment-frame h.front (λ q k. f q) (λ q k. g q);
  pos = h.pos;
  not_behind = h.not_behind;
  not_before = h.not_before;
  prev = f it ∙ h.prev;
  rest = rw (g it) (Segment-frame h.rest (λ q k. f q) (λ q k. g q));
  apart = h.apart;
}

has-middle : (it : ℕ) (ks rs : List ℕ) → has it (ks ++ it ∷ rs) ≡ true
unfolding has
has-middle it ks rs = has-append it ks (it ∷ rs) ∙ ground arith

length-append : (ks rs : List ℕ) → length (ks ++ rs) ≡ length ks + length rs
unfolding length
length-append [] rs = ground arith
length-append (k ∷ ks) rs = ground (arith, length-append ks rs)

-- A node that is free is not one of the list.
not_used :
    (q it : ℕ) (ks rs fs : List ℕ)
    → ((p : ℕ) → has p (ks ++ it ∷ rs) ≡ true → has p fs ≡ false)
    → has q fs ≡ true
    → (has q ks ≡ false) × (has q rs ≡ false)
unfolding has
not_used q it ks rs fs apart h = elim (Bool-cases (has q (ks ++ it ∷ rs))) [
  | inl inside ↦ absurd (ground (arith, apart q inside))
  | inr out ↦ (ground (arith, has-append q ks (it ∷ rs)), ground (arith, has-append q ks (it ∷ rs)))
]

-- The letter at `it` leaves the list, and its node is free.
pub drop :
    (pool : Pool Letter) (letter : Letter) (head it : ℕ) (ks rs fs : List ℕ) (mid last : ℕ)
    → Place pool.cells head it ks rs mid last
    → IsPool pool_size pool (ks ++ it ∷ rs) fs
    → let removed =
        list_free it (record pool { cells = list_remove it (set_value pool.cells it letter) }) in
      let next = (pool.cells it).next in
      ((last' : ℕ) × Split removed.cells (if it == head then next else head) next ks rs mid last')
      × IsPool pool_size removed (ks ++ rs) (it ∷ fs)
      × ((q : ℕ) → has q (ks ++ rs) ≡ true → (removed.cells q).value ≡ (pool.cells q).value)
unfolding list_free length has
drop pool letter head it ks rs fs mid last h stock =
    let placed : ℕ → Node Letter = set_value pool.cells it letter in
    let there =
      Place-frame pool.cells placed head it ks rs mid last h
        (λ q. set_value-prev pool.cells it letter q) (λ q. set_value-next pool.cells it letter q) in
    let ((last', split), value, other) = list_remove-Split placed head it mid last ks rs there in
    let gone : has it (ks ++ rs) ≡ false =
      has-append it ks rs ∙ ground (arith, h.not_before, h.not_behind) in
    let cells = list_remove it placed in
    let freed : ℕ → Node Letter = set_next cells it pool.free_head in
    let frame : (qs : List ℕ) → has it qs ≡ false → (q : ℕ) → has q qs ≡ true → freed q ≡ cells q =
      λ qs out q k. let apart : (q == it) ≡ false = not_has' it q qs out k in rw apart refl in
    let before =
      IsPool-frame pool_size pool cells it (ks ++ it ∷ rs) fs stock (has-middle it ks rs) (λ q k.
        let (a, b) = not_used q it ks rs fs stock.apart k in
        ap (λ (c : Node Letter). c.next) (other q a b) ∙ set_value-next pool.cells it letter q) in
    (
      (
        last',
        subst (λ n. Split freed (if it == head then n else head) n ks rs mid last')
            (set_value-next pool.cells it letter it)
            (record {
              front =
                  Segment-frame split.front
                    (λ q k. ap (λ (c : Node Letter). c.prev) (frame ks h.not_before q k))
                    (λ q k. ap (λ (c : Node Letter). c.next) (frame ks h.not_before q k));
              back =
                  Segment-frame split.back
                    (λ q k. ap (λ (c : Node Letter). c.prev) (frame rs h.not_behind q k))
                    (λ q k. ap (λ (c : Node Letter). c.next) (frame rs h.not_behind q k));
              apart = split.apart;
            }),
      ),
      list_free-IsPool pool_size (record pool { cells = cells }) (ks ++ it ∷ rs) (ks ++ rs) fs it
          before h.pos (has-middle it ks rs) gone
          (ground (arith, length-append ks (it ∷ rs), length-append ks rs))
          (λ q k. has-append q ks (it ∷ rs) ∙ ground (arith, sym (has-append q ks rs) ∙ k)),
      λ q k.
          let apart : (q == it) ≡ false = not_has' it q (ks ++ rs) gone k in
          ap (λ (c : Node Letter). c.value) (frame (ks ++ rs) gone q k) ∙ value q ∙ rw apart refl,
    )

-- The letter at `it` stays, and is one of those before the next one.
pub keep :
    (pool : Pool Letter) (letter : Letter) (head it : ℕ) (ks rs fs : List ℕ) (mid last : ℕ)
    → Place pool.cells head it ks rs mid last
    → IsPool pool_size pool (ks ++ it ∷ rs) fs
    → let placed = record pool { cells = set_value pool.cells it letter } in
      Split placed.cells head (pool.cells it).next (ks ++ it ∷ []) rs it last
      × IsPool pool_size placed (ks ++ it ∷ rs) fs
unfolding has
keep pool letter head it ks rs fs mid last h stock =
    let placed : ℕ → Node Letter = set_value pool.cells it letter in
    let there =
      Place-frame pool.cells placed head it ks rs mid last h
        (λ q. set_value-prev pool.cells it letter q) (λ q. set_value-next pool.cells it letter q) in
    (
      subst (λ n. Split placed head n (ks ++ it ∷ []) rs it last)
          (set_value-next pool.cells it letter it)
          (record {
            front = Segment-snoc there.front h.pos h.not_before there.prev;
            back = there.rest;
            apart = λ q k. elim (Bool-cases (has q ks)) [
              | inl inside ↦ h.apart q inside
              | inr out ↦
                  let at : (q == it) ≡ true =
                    ground (arith, sym (has-append q ks (it ∷ [])) ∙ k, out) in
                  ap (λ n. has n rs) (equal q it at) ∙ h.not_behind
            ];
          }),
      IsPool-frame pool_size pool placed it (ks ++ it ∷ rs) fs stock (has-middle it ks rs)
          (λ q k. set_value-next pool.cells it letter q),
    )
