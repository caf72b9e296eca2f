-- ===== src/Typing/Linklist/Insert.antt =====
-- `NAME_insert` of a node before the first one.
use wukong_am.Base.{ℕ, ◌<◌, ◌≡◌, refl, sym, ap, false, ◌==◌, if◌then◌else◌, arith}
use wukong_am.Base.{List, ◌∷◌, Bool-cases, inl, inr}
use wukong_am.Typing.Linklist.{Node, set_cell, set_prev, list_insert}
use wukong_am.Typing.Linklist.Segment.{has, Segment, nil, cons, Segment-frame}
use wukong_am.Typing.Linklist.Links.{not_has', equal}

module _ {ℓ} {A : Type ℓ} where
  -- The cells with `now` in front of the list from `head` on, as `create_new_letter` has them.
  abbrev pub push : ℕ → ℕ → (ℕ → Node A) → ℕ → Node A
  push head now cells = if head == 0 then cells else list_insert 0 head now cells

  pub push-Segment :
      (cells : ℕ → Node A) (head now last : ℕ) (ps : List ℕ)
      → Segment cells 0 0 head ps last
      → 0 < now
      → has now ps ≡ false
      → (cells now).prev ≡ 0
      → (cells now).next ≡ 0
      → (last' : ℕ) × Segment (push head now cells) 0 0 now (now ∷ ps) last'
  unfolding has list_insert
  push-Segment cells head now last ps nil pos unused prev next =
      (now, cons pos refl prev (rw next nil))
  push-Segment cells head now last ps (cons {p = p} {ps = qs} pos' out back rest) pos unused prev
        next =
      let some_node : (p == 0) ≡ false = ground arith in
      let other : (now == p) ≡ false = ground arith in
      let linked : ℕ → Node A =
        set_prev (set_cell cells now (record (cells now) { prev = 0; next = p })) p now in
      let same : push p now cells ≡ linked = rw some_node refl in
      let tail =
        Segment-frame {cells' = linked} rest
          (λ q h.
            let apart_now : (q == now) ≡ false = not_has' now q qs (ground arith) h in
            let apart_p : (q == p) ≡ false = not_has' p q qs out h in rw (apart_p, apart_now) refl)
          (λ q h.
            let apart_now : (q == now) ≡ false = not_has' now q qs (ground arith) h in
            let apart_p : (q == p) ≡ false = not_has' p q qs out h in
            rw (apart_p, apart_now) refl) in
      let other' : (p == now) ≡ false = ground arith in
      let now_prev : (linked now).prev ≡ 0 = rw other (ground arith) in
      let now_next : (linked now).next ≡ p = rw other (ground arith) in
      let p_prev : (linked p).prev ≡ now = ground arith in
      let p_next : (linked p).next ≡ (cells p).next = rw other' (ground arith) in
      let here : Segment linked 0 now p (p ∷ qs) last = cons pos' out p_prev (rw p_next tail) in
      rw same (last, cons pos unused now_prev (rw now_next here))

  pub push-value :
      (cells : ℕ → Node A) (head now q : ℕ)
      → (q == now) ≡ false
      → (push head now cells q).value ≡ (cells q).value
  unfolding list_insert
  push-value cells head now q other = elim (Bool-cases (head == 0)) [
    | inl null ↦ rw null refl
    | inr some_node ↦ rw some_node (elim (Bool-cases (q == head)) [
      | inl same ↦ rw same (elim (Bool-cases (head == now)) [
        | inl at ↦ absurd (ground arith)
        | inr apart ↦ rw apart (ap (λ n. (cells n).value) (sym (equal q head same)))
      ])
      | inr apart ↦ rw (apart, other) refl
    ])
  ]

  pub push-next :
      (cells : ℕ → Node A) (head now q : ℕ)
      → (q == now) ≡ false
      → (push head now cells q).next ≡ (cells q).next
  unfolding list_insert
  push-next cells head now q other = elim (Bool-cases (head == 0)) [
    | inl null ↦ rw null refl
    | inr some_node ↦ rw some_node (elim (Bool-cases (q == head)) [
      | inl same ↦ rw same (elim (Bool-cases (head == now)) [
        | inl at ↦ absurd (ground arith)
        | inr apart ↦ rw apart (ap (λ n. (cells n).next) (sym (equal q head same)))
      ])
      | inr apart ↦ rw (apart, other) refl
    ])
  ]
