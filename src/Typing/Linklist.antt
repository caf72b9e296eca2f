-- ===== src/Typing/Linklist.antt =====
-- apps/typing/game.h: the doubly linked lists of `LINKLIST_IMPL`, with their pool of nodes. A pointer is
-- a number, 0 for NULL and `i + 1` for `pool + i`; `A` has the fields of the list's own.
pub mod Segment
pub mod Links
pub mod Remove
pub mod New
pub mod Insert
use wukong_am.Base.{ℕ, zero, suc, ◌+◌, ◌==◌, if◌then◌else◌}

pub record Node {ℓ} (A : Type ℓ) : Type ℓ where
  pub value : A
  pub prev : ℕ
  pub next : ℕ

pub record Pool {ℓ} (A : Type ℓ) : Type ℓ where
  pub cells : ℕ → Node A
  pub free_head : ℕ

module _ {ℓ} {A : Type ℓ} where
  abbrev pub set_cell : (ℕ → Node A) → ℕ → Node A → ℕ → Node A
  set_cell cells p node q = if q == p then node else cells q

  abbrev pub set_next : (ℕ → Node A) → ℕ → ℕ → ℕ → Node A
  set_next cells p q = set_cell cells p (record (cells p) { next = q })

  abbrev pub set_prev : (ℕ → Node A) → ℕ → ℕ → ℕ → Node A
  set_prev cells p q = set_cell cells p (record (cells p) { prev = q })

  -- The loop that links the elements of the pool, after `count` rounds.
  unfoldable pub link_pool : ℕ → (ℕ → Node A) → ℕ → Node A
  link_pool zero cells = cells
  link_pool (suc count) cells = set_next (link_pool count cells) (count + 1) (count + 2)

  -- `NAME_new`
  unfoldable pub list_new : ℕ → Pool A → ℕ × Pool A
  list_new size s =
      let empty = s.free_head == 0 in
      let cells = if empty then link_pool size s.cells else s.cells in
      let ret = if empty then 1 else s.free_head in
      (
        ret,
        record {
          cells = set_cell cells ret (record (cells ret) { prev = 0; next = 0 });
          free_head = (cells ret).next;
        },
      )

  -- `NAME_insert`
  unfoldable pub list_insert : ℕ → ℕ → ℕ → (ℕ → Node A) → ℕ → Node A
  list_insert prev next obj cells =
      let linked = set_cell cells obj (record (cells obj) { prev = prev; next = next }) in
      let before = if prev == 0 then linked else set_next linked prev obj in
      if next == 0 then before else set_prev before next obj

  -- `NAME_remove`
  unfoldable pub list_remove : ℕ → (ℕ → Node A) → ℕ → Node A
  list_remove node cells =
      let prev = (cells node).prev in
      let next = (cells node).next in
      let before = if prev == 0 then cells else set_next cells prev next in
      if next == 0 then before else set_prev before next prev

  -- `NAME_free`
  unfoldable pub list_free : ℕ → Pool A → Pool A
  list_free node s = record { cells = set_next s.cells node s.free_head; free_head = node }
