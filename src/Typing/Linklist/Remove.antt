-- ===== src/Typing/Linklist/Remove.antt =====
-- A list around a place: what is before it and what follows, and the removal of the node there.
use wukong_am.Base.{ℕ, ◌<◌, ◌≡◌, refl, sym, ap, ◌∙◌, true, false, ◌⊎◌, ◌==◌, if◌then◌else◌, arith}
use wukong_am.Base.{List, [], Bool-cases, inl, inr}
use wukong_am.Typing.Linklist.{Node, set_next, set_prev, list_remove}
use wukong_am.Typing.Linklist.Segment.{has, Segment, nil, cons, Segment-frame}
use wukong_am.Typing.Linklist.Links.{
  not_has, not_has', IsOutside, IsInside, link_next, link_prev, link_next-value, link_next-prev,
  link_prev-value, link_next-inside, link_prev-inside, link_next-outside, link_prev-outside,
}

-- Nodes of one of two lists without a common node are outside the other.
IsOutside-of :
    (p : ℕ) (ps qs : List ℕ)
    → IsInside p ps
    → ((q : ℕ) → has q ps ≡ true → has q qs ≡ false)
    → IsOutside p qs
IsOutside-of p ps qs (inl null) apart = inl null
IsOutside-of p ps qs (inr inside) apart = inr (apart p inside)

apart_sym :
    (ps qs : List ℕ)
    → ((q : ℕ) → has q ps ≡ true → has q qs ≡ false)
    → (q : ℕ) → has q qs ≡ true
    → has q ps ≡ false
apart_sym ps qs apart q h = elim (Bool-cases (has q ps)) [
  | inl inside ↦ absurd (ground (arith, sym h ∙ apart q inside))
  | inr out ↦ out
]

module _ {ℓ} {A : Type ℓ} where
  Segment-last :
      {cells : ℕ → Node A} {stop prev p last : ℕ} {ps : List ℕ}
      → Segment cells stop prev p ps last
      → ((ps ≡ []) × (last ≡ prev) × (p ≡ stop))
        ⊎ ((has last ps ≡ true) × (has p ps ≡ true) × (0 < last))
  unfolding has
  Segment-last nil = inl (refl, refl, refl)
  Segment-last (cons {p} {last} {ps} pos out back rest) = elim (Segment-last rest) [
    | inl (empty, e, at) ↦ inr (rw e (ground arith), ground arith, rw e pos)
    | inr (inside, first, large) ↦ inr (ground arith, ground arith, large)
  ]

  -- The last node gets another successor.
  Segment-stop :
      {cells : ℕ → Node A} {stop prev p last : ℕ} {ps : List ℕ} (stop' : ℕ)
      → Segment cells stop prev p ps last
      → has last ps ≡ true
      → Segment (set_next cells last stop') stop' prev p ps last
  unfolding has
  Segment-stop stop' nil h = absurd (ground (arith, h))
  Segment-stop {cells} stop' (cons {prev} {p} {last} {ps} pos out back rest) h =
      elim (Segment-last rest) [
        | inl (empty, e, at) ↦
            let next : (set_next cells p stop' p).next ≡ stop' = ground arith in
            let prev_same : (set_next cells p stop' p).prev ≡ prev = ground (arith, back) in
            rw (e, empty) (cons pos refl prev_same (rw next nil))
        | inr (inside, first, large) ↦
            let other : (p == last) ≡ false = not_has p last ps out inside in
            let next : (set_next cells last stop' p).next ≡ (cells p).next = rw other refl in
            let prev_same : (set_next cells last stop' p).prev ≡ prev = rw other back in
            cons pos out prev_same (rw next (Segment-stop stop' rest inside))
      ]

  -- The first node of a list gets another predecessor.
  Segment-prev :
      {cells : ℕ → Node A} {prev p last : ℕ} {ps : List ℕ} (prev' : ℕ)
      → Segment cells 0 prev p ps last
      → (last' : ℕ) × Segment (if p == 0 then cells else set_prev cells p prev') 0 prev' p ps last'
  unfolding has
  Segment-prev prev' nil = (prev', nil)
  Segment-prev {cells} prev' (cons {prev} {p} {last} {ps} pos out back rest) =
      let some_node : (p == 0) ≡ false = ground arith in
      let next : (set_prev cells p prev' p).next ≡ (cells p).next = ground arith in
      let back' : (set_prev cells p prev' p).prev ≡ prev' = ground arith in
      let tail =
        Segment-frame {cells' = set_prev cells p prev'} rest
          (λ q h. let other : (q == p) ≡ false = not_has' p q ps out h in rw other refl)
          (λ q h. let other : (q == p) ≡ false = not_has' p q ps out h in rw other refl) in
      (last, rw some_node (cons pos out back' (rw next tail)))

  -- The nodes `ks` before `it`, and the nodes `rs` from there on.
  pub record Split (cells : ℕ → Node A) (head it : ℕ) (ks rs : List ℕ) (mid last : ℕ) : Type ℓ where
    pub front : Segment cells it 0 head ks mid
    pub back : Segment cells 0 mid it rs last
    pub apart : (q : ℕ) → has q ks ≡ true → has q rs ≡ false

  -- The part before the removed node.
  remove_front :
      (cells : ℕ → Node A) (head it mid next : ℕ) (ks : List ℕ)
      → Segment cells it 0 head ks mid
      → has it ks ≡ false
      → Segment (link_next cells mid next) next 0 (if it == head then next else head) ks mid
  unfolding has
  remove_front cells head it mid next ks s out = elim (Segment-last s) [
    | inl (empty, e, at) ↦
        let first : (it == head) ≡ true = ground (arith, at) in rw (first, e, empty) nil
    | inr (inside, first, large) ↦
        let some_node : (mid == 0) ≡ false = ground arith in
        let other : (it == head) ≡ false = not_has it head ks out first in
        rw (some_node, other) (Segment-stop next s inside)
  ]

  -- The part behind the removed node.
  remove_back :
      (cells : ℕ → Node A) (it mid next last : ℕ) (rs : List ℕ)
      → Segment cells 0 it next rs last
      → IsOutside mid rs
      → (last' : ℕ) × Segment (link_prev (link_next cells mid next) next mid) 0 mid next rs last'
  remove_back cells it mid next last rs s out = Segment-prev mid (
      Segment-frame {cells' = link_next cells mid next} s (λ q h. link_next-prev cells mid next q)
        (λ q h. ap (λ (c : Node A). c.next) (link_next-outside cells mid next q rs out h)))

  -- Where a removal happens: the node `it`, the nodes `ks` before it and `rs` behind it.
  pub record Place (cells : ℕ → Node A) (head it : ℕ) (ks rs : List ℕ) (mid last : ℕ) : Type ℓ where
    pub front : Segment cells it 0 head ks mid
    pub pos : 0 < it
    pub not_behind : has it rs ≡ false
    pub not_before : has it ks ≡ false
    pub prev : (cells it).prev ≡ mid
    pub rest : Segment cells 0 it (cells it).next rs last
    pub apart : (q : ℕ) → has q ks ≡ true → has q rs ≡ false

  -- In a list with the nodes `ks` before the node `it` and `rs` behind it, list_remove leaves a list that is
  -- linked both ways with `rs` behind `ks`, whose first node is the old one, or the next one where that was
  -- removed. The fields of all nodes keep their values, and a node that is not in the list is not changed.
  pub list_remove-Split :
      (cells : ℕ → Node A) (head it mid last : ℕ) (ks rs : List ℕ)
      → Place cells head it ks rs mid last
      → ((last' : ℕ) × Split
            (list_remove it cells)
            (if it == head then (cells it).next else head)
            (cells it).next
            ks
            rs
            mid
            last')
        × ((q : ℕ) → (list_remove it cells q).value ≡ (cells q).value)
        × ((q : ℕ) → has q ks ≡ false → has q rs ≡ false → list_remove it cells q ≡ cells q)
  unfolding list_remove
  list_remove-Split cells head it mid last ks rs h =
      let next = (cells it).next in
      let result : list_remove it cells ≡ link_prev (link_next cells mid next) next mid =
        ap (λ m. link_prev (link_next cells m next) next m) h.prev in
      let middle = inside_front (Segment-last h.front) in
      let following = inside_rest (Segment-last h.rest) in
      let beyond = IsOutside-of next rs ks following (apart_sym ks rs h.apart) in
      let (last', back) =
        remove_back cells it mid next last rs h.rest (IsOutside-of mid ks rs middle h.apart) in
      let front =
        Segment-frame {cells' = link_prev (link_next cells mid next) next mid}
          (remove_front cells head it mid next ks h.front h.not_before)
          (λ q k.
            ap (λ (c : Node A). c.prev)
              (link_prev-outside (link_next cells mid next) next mid q ks beyond k))
          (λ q k.
            ap (λ (c : Node A). c.next)
              (link_prev-outside (link_next cells mid next) next mid q ks beyond k)) in
      rw result (
        (last', record { front = front; back = back; apart = h.apart }),
        (λ q.
            link_prev-value (link_next cells mid next) next mid q
            ∙ link_next-value cells mid next q),
        (λ q a b.
            link_prev-inside (link_next cells mid next) next mid q rs following b
            ∙ link_next-inside cells mid next q ks middle a),
      )
    where
      inside_front :
          ((ks ≡ []) × (mid ≡ 0) × (head ≡ it))
            ⊎ ((has mid ks ≡ true) × (has head ks ≡ true) × (0 < mid))
          → IsInside mid ks
      inside_front (inl (a, b, c)) = inl b
      inside_front (inr (a, b, c)) = inr a

      inside_rest :
          ((rs ≡ []) × (last ≡ it) × ((cells it).next ≡ 0))
            ⊎ ((has last rs ≡ true) × (has (cells it).next rs ≡ true) × (0 < last))
          → IsInside (cells it).next rs
      inside_rest (inl (a, b, c)) = inl c
      inside_rest (inr (a, b, c)) = inr b
