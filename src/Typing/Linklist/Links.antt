-- ===== src/Typing/Linklist/Links.antt =====
-- Writes through a pointer that may be NULL, and the nodes that they spare.
use wukong_am.Base.{ℕ, ◌≡◌, refl, sym, ap, ◌∙◌, true, false, ◌⊎◌, ◌==◌, if◌then◌else◌, arith}
use wukong_am.Base.{List, Bool-cases, inl, inr}
use wukong_am.Typing.Linklist.{Node, set_next, set_prev}
use wukong_am.Typing.Linklist.Segment.{has}

-- A node of a list is not one outside it.
pub not_has : (p q : ℕ) (ps : List ℕ) → has p ps ≡ false → has q ps ≡ true → (p == q) ≡ false
not_has p q ps out inside = elim (Bool-cases (p == q)) [
  | inl same ↦
      let e : p ≡ q = ground arith in
      absurd (ground (arith, sym out ∙ ap (λ n. has n ps) e ∙ inside))
  | inr other ↦ other
]

pub equal : (p q : ℕ) → (p == q) ≡ true → p ≡ q
equal p q h = ground arith

pub not_has' : (p q : ℕ) (ps : List ℕ) → has p ps ≡ false → has q ps ≡ true → (q == p) ≡ false
not_has' p q ps out inside = ground (arith, not_has p q ps out inside)

-- A pointer that is NULL or none of the nodes `qs`, and one that is NULL or one of them.
abbrev pub IsOutside : ℕ → List ℕ → Type 0
IsOutside p qs = (p ≡ 0) ⊎ (has p qs ≡ false)

abbrev pub IsInside : ℕ → List ℕ → Type 0
IsInside p qs = (p ≡ 0) ⊎ (has p qs ≡ true)

module _ {ℓ} {A : Type ℓ} where
  -- The writes of `list_remove` and `list_insert` through a pointer that may be NULL.
  abbrev pub link_next : (ℕ → Node A) → ℕ → ℕ → ℕ → Node A
  link_next cells p q = if p == 0 then cells else set_next cells p q

  abbrev pub link_prev : (ℕ → Node A) → ℕ → ℕ → ℕ → Node A
  link_prev cells p q = if p == 0 then cells else set_prev cells p q

  pub link_next-value :
      (cells : ℕ → Node A) (p x q : ℕ) → (link_next cells p x q).value ≡ (cells q).value
  link_next-value cells p x q = elim (Bool-cases (p == 0)) [
    | inl null ↦ rw null refl
    | inr some_node ↦ rw some_node (elim (Bool-cases (q == p)) [
      | inl same ↦ rw same (ap (λ n. (cells n).value) (sym (equal q p same)))
      | inr other ↦ rw other refl
    ])
  ]

  pub link_next-prev :
      (cells : ℕ → Node A) (p x q : ℕ) → (link_next cells p x q).prev ≡ (cells q).prev
  link_next-prev cells p x q = elim (Bool-cases (p == 0)) [
    | inl null ↦ rw null refl
    | inr some_node ↦ rw some_node (elim (Bool-cases (q == p)) [
      | inl same ↦ rw same (ap (λ n. (cells n).prev) (sym (equal q p same)))
      | inr other ↦ rw other refl
    ])
  ]

  pub link_next-other :
      (cells : ℕ → Node A) (p x q : ℕ) → (q == p) ≡ false → link_next cells p x q ≡ cells q
  link_next-other cells p x q other = elim (Bool-cases (p == 0)) [
    | inl null ↦ rw null refl
    | inr some_node ↦ rw (some_node, other) refl
  ]

  pub link_prev-value :
      (cells : ℕ → Node A) (p x q : ℕ) → (link_prev cells p x q).value ≡ (cells q).value
  link_prev-value cells p x q = elim (Bool-cases (p == 0)) [
    | inl null ↦ rw null refl
    | inr some_node ↦ rw some_node (elim (Bool-cases (q == p)) [
      | inl same ↦ rw same (ap (λ n. (cells n).value) (sym (equal q p same)))
      | inr other ↦ rw other refl
    ])
  ]

  pub link_prev-other :
      (cells : ℕ → Node A) (p x q : ℕ) → (q == p) ≡ false → link_prev cells p x q ≡ cells q
  link_prev-other cells p x q other = elim (Bool-cases (p == 0)) [
    | inl null ↦ rw null refl
    | inr some_node ↦ rw (some_node, other) refl
  ]

  -- A write through NULL or a node of `qs` spares the others.
  pub link_next-inside :
      (cells : ℕ → Node A) (p x q : ℕ) (qs : List ℕ)
      → IsInside p qs
      → has q qs ≡ false
      → link_next cells p x q ≡ cells q
  link_next-inside cells p x q qs (inl null) h =
      let e : (p == 0) ≡ true = ground (arith, null) in rw e refl
  link_next-inside cells p x q qs (inr inside) h =
      link_next-other cells p x q (not_has q p qs h inside)

  pub link_prev-inside :
      (cells : ℕ → Node A) (p x q : ℕ) (qs : List ℕ)
      → IsInside p qs
      → has q qs ≡ false
      → link_prev cells p x q ≡ cells q
  link_prev-inside cells p x q qs (inl null) h =
      let e : (p == 0) ≡ true = ground (arith, null) in rw e refl
  link_prev-inside cells p x q qs (inr inside) h =
      link_prev-other cells p x q (not_has q p qs h inside)

  pub link_next-outside :
      (cells : ℕ → Node A) (p x q : ℕ) (qs : List ℕ)
      → IsOutside p qs
      → has q qs ≡ true
      → link_next cells p x q ≡ cells q
  link_next-outside cells p x q qs (inl null) h =
      let e : (p == 0) ≡ true = ground (arith, null) in rw e refl
  link_next-outside cells p x q qs (inr out) h = link_next-other cells p x q (not_has' p q qs out h)

  pub link_prev-outside :
      (cells : ℕ → Node A) (p x q : ℕ) (qs : List ℕ)
      → IsOutside p qs
      → has q qs ≡ true
      → link_prev cells p x q ≡ cells q
  link_prev-outside cells p x q qs (inl null) h =
      let e : (p == 0) ≡ true = ground (arith, null) in rw e refl
  link_prev-outside cells p x q qs (inr out) h = link_prev-other cells p x q (not_has' p q qs out h)
