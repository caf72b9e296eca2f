-- ===== src/Typing/Linklist/New.antt =====
-- The pool of a list: its free nodes, and the node that `NAME_new` takes.
use wukong_am.Base.{
  ℕ, zero, suc, ◌+◌, ◌<◌, ◌≤◌, ◌≡◌, refl, sym, ap, ◌∙◌, true, false, ◌⊎◌, ◌==◌, arith,
}
use mathlib.Core.Path.{subst}
use wukong_am.Base.{List, [], ◌∷◌, Bool-cases, inl, inr}
use wukong_am.Typing.Linklist.{Node, Pool, set_cell, set_next, link_pool, list_new, list_free}
use wukong_am.Typing.Linklist.Segment.{has, length, Chain, nil, cons, Chain-frame}
use wukong_am.Typing.Linklist.Links.{not_has', equal}

-- The numbers from `start` on.
pub range : ℕ → ℕ → List ℕ
range start zero = []
range start (suc n) = start ∷ range (start + 1) n

length-range : (start n : ℕ) → length (range start n) ≡ n
unfolding range length
length-range start zero = refl
length-range start (suc n) = ground (arith, length-range (start + 1) n)

has-range : (q start n : ℕ) → q < start → has q (range start n) ≡ false
unfolding range has
has-range q start zero h = refl
has-range q start (suc n) h = ground (arith, has-range q (start + 1) n (omega arith))

module _ {ℓ} {A : Type ℓ} where
  link_pool-beyond : (n : ℕ) (cells : ℕ → Node A) (q : ℕ) → n < q → link_pool n cells q ≡ cells q
  unfolding link_pool
  link_pool-beyond zero cells q h = refl
  link_pool-beyond (suc n) cells q h =
      let other : (q == (n + 1)) ≡ false = ground arith in
      rw other (link_pool-beyond n cells q (omega arith))

  link_pool-next :
      (n : ℕ) (cells : ℕ → Node A) (q : ℕ) → 0 < q → q ≤ n → (link_pool n cells q).next ≡ q + 1
  unfolding link_pool
  link_pool-next zero cells q pos h = absurd (omega arith)
  link_pool-next (suc n) cells q pos h = elim (Bool-cases (q == (n + 1))) [
    | inl same ↦ rw same (ground arith)
    | inr other ↦ rw other (link_pool-next n cells q pos (ground arith))
  ]

  -- The elements that `NAME_new` links are a chain up to the last one of the pool.
  link_pool-Chain :
      (size start n : ℕ) (cells : ℕ → Node A)
      → 0 < start
      → start + n ≡ size + 1
      → (cells (size + 1)).next ≡ 0
      → Chain (link_pool size cells) start (range start (suc n))
  unfolding range
  link_pool-Chain size start zero cells pos e h =
      let last : (link_pool size cells start).next ≡ 0 =
        ap (λ (c : Node A). c.next) (link_pool-beyond size cells start (omega arith))
        ∙ ap (λ q. (cells q).next) (omega arith)
        ∙ h in
      cons pos (has-range start (start + 1) 0 (omega arith)) (rw last nil)
  link_pool-Chain size start (suc n) cells pos e h =
      let next : (link_pool size cells start).next ≡ start + 1 =
        link_pool-next size cells start pos (omega arith) in
      cons pos (has-range start (start + 1) (suc n) (omega arith))
        (rw next (link_pool-Chain size (start + 1) n cells (omega arith) (omega arith) h))

  -- The pool with the nodes `ps` in use and `fs` free. Before the first `NAME_new` nothing is linked.
  pub record IsPool (size : ℕ) (s : Pool A) (ps fs : List ℕ) : Type ℓ where
    pub free : Chain s.cells s.free_head fs
    pub apart : (q : ℕ) → has q ps ≡ true → has q fs ≡ false
    pub stock :
        (length ps + length fs ≡ size + 1)
        ⊎ ((ps ≡ []) × (fs ≡ []) × ((s.cells (size + 1)).next ≡ 0))

  Chain-head : {cells : ℕ → Node A} {p : ℕ} {fs : List ℕ} → Chain cells p fs → fs ≡ [] → p ≡ 0
  Chain-head nil e = refl
  Chain-head (cons pos out rest) e = absurd (ground (arith, e))

  Chain-uncons :
      {cells : ℕ → Node A} {p f : ℕ} {fs : List ℕ}
      → Chain cells p (f ∷ fs)
      → (p ≡ f) × (0 < f) × (has f fs ≡ false) × Chain cells (cells f).next fs
  Chain-uncons (cons pos out rest) = (refl, pos, out, rest)

  -- What `NAME_new` gives: a node that was not in use, not linked, and the pool without it.
  pub record Fresh (size : ℕ) (s : Pool A) (ps : List ℕ) (now : ℕ) (s' : Pool A) (fs : List ℕ)
      : Type ℓ where
    pub pos : 0 < now
    pub unused : has now ps ≡ false
    pub pool : IsPool size s' (now ∷ ps) fs
    pub prev : (s'.cells now).prev ≡ 0
    pub next : (s'.cells now).next ≡ 0
    pub others : (q : ℕ) → has q ps ≡ true → s'.cells q ≡ s.cells q

  -- Once the first free node is known, it is taken off the chain.
  take_free :
      (size : ℕ) (s : Pool A) (ps fs : List ℕ) (now : ℕ) (cells : ℕ → Node A)
      → Chain cells now (now ∷ fs)
      → ((q : ℕ) → has q ps ≡ true → has q (now ∷ fs) ≡ false)
      → length ps + length (now ∷ fs) ≡ size + 1
      → ((q : ℕ) → has q ps ≡ true → cells q ≡ s.cells q)
      → Fresh size s ps now
          (record {
            cells = set_cell cells now (record (cells now) { prev = 0; next = 0 });
            free_head = (cells now).next;
          })
          fs
  unfolding has length
  take_free size s ps fs now cells chain apart stock same =
      let (_, pos, out, rest) = Chain-uncons chain in
      let unused : has now ps ≡ false = elim (Bool-cases (has now ps)) [
        | inl inside ↦ absurd (ground (arith, apart now inside))
        | inr outside ↦ outside
      ] in
      record {
        pos = pos;
        unused = unused;
        pool = record {
          free =
              Chain-frame rest
                (λ q h. let other : (q == now) ≡ false = not_has' now q fs out h in rw other refl);
          apart = λ q h. elim (Bool-cases (q == now)) [
            | inl at ↦ rw (equal q now at) out
            | inr other ↦
                let inside : has q ps ≡ true = ground arith in ground (arith, apart q inside)
          ];
          stock = inl (ground arith);
        };
        prev = ground arith;
        next = ground arith;
        others = λ q h.
            let other : (q == now) ≡ false = not_has' now q ps unused h in rw other (same q h);
      }

  -- `NAME_new` gives a fresh node as long as the pool is not exhausted, the first time too.
  pub list_new-Fresh :
      (size : ℕ) (s : Pool A) (ps fs : List ℕ)
      → IsPool size s ps fs
      → length ps ≤ size
      → (fs' : List ℕ) × Fresh size s ps (list_new size s).0 (list_new size s).1 fs'
  unfolding list_new length has range
  list_new-Fresh size s ps (f ∷ fs) h room =
      let (at, pos, out, rest) = Chain-uncons h.free in
      let linked : (s.free_head == 0) ≡ false = ground (arith, at) in
      let stock : length ps + length (f ∷ fs) ≡ size + 1 = elim h.stock [
        | inl e ↦ e
        | inr (a, b, c) ↦ absurd (ground (arith, b))
      ] in
      let chain = subst (λ n. Chain s.cells s.free_head (n ∷ fs)) (sym at) h.free in
      let apart =
        subst (λ n. (q : ℕ) → has q ps ≡ true → has q (n ∷ fs) ≡ false) (sym at) h.apart in
      rw linked (fs, take_free size s ps fs s.free_head s.cells chain apart stock (λ q k. refl))
  list_new-Fresh size s ps [] h room =
      let empty : (s.free_head == 0) ≡ true = ground (arith, Chain-head h.free refl) in
      elim h.stock [
        | inl e ↦ absurd (omega (arith, e))
        | inr (none_used, b, last) ↦
            let chain = link_pool-Chain size 1 size s.cells (ground arith) (omega arith) last in
            rw empty (
              range 2 size,
              take_free size s ps (range 2 size) 1 (link_pool size s.cells) (first chain)
                  (unused none_used) (all none_used) (vacuous none_used),
            )
      ]
    where
      first :
          Chain (link_pool size s.cells) 1 (range 1 (suc size))
          → Chain (link_pool size s.cells) 1 (1 ∷ range 2 size)
      first c = c

      unused : ps ≡ [] → (q : ℕ) → has q ps ≡ true → has q (1 ∷ range 2 size) ≡ false
      unused e q k = absurd (ground (arith, k, ap (has q) e))

      all : ps ≡ [] → length ps + length (1 ∷ range 2 size) ≡ size + 1
      all e = ground (arith, length-range 2 size, ap length e)

      vacuous : ps ≡ [] → (q : ℕ) → has q ps ≡ true → link_pool size s.cells q ≡ s.cells q
      vacuous e q k = absurd (ground (arith, k, ap (has q) e))

  -- `NAME_free` gives a node back.
  pub list_free-IsPool :
      (size : ℕ) (s : Pool A) (ps qs fs : List ℕ) (node : ℕ)
      → IsPool size s ps fs
      → 0 < node
      → has node ps ≡ true
      → has node qs ≡ false
      → length ps ≡ length qs + 1
      → ((q : ℕ) → has q qs ≡ true → has q ps ≡ true)
      → IsPool size (list_free node s) qs (node ∷ fs)
  unfolding list_free has length
  list_free-IsPool size s ps qs fs node h pos inside gone one part =
      let out : has node fs ≡ false = h.apart node inside in
      let own : (set_next s.cells node s.free_head node).next ≡ s.free_head = ground arith in
      record {
        free = cons pos out (
            rw own (
              Chain-frame h.free (λ q k.
                let other : (q == node) ≡ false = not_has' node q fs out k in rw other refl)));
        apart = λ q k.
            let other : (q == node) ≡ false = not_has' node q qs gone k in
            ground (arith, other, h.apart q (part q k));
        stock = elim h.stock [
          | inl e ↦ inl (omega (arith, e, one))
          | inr (a, b, c) ↦ absurd (ground (arith, ap (has node) a, inside))
        ];
      }

  -- The pool depends on the links of its free nodes.
  pub IsPool-frame :
      (size : ℕ) (s : Pool A) (cells : ℕ → Node A) (p : ℕ) (ps fs : List ℕ)
      → IsPool size s ps fs
      → has p ps ≡ true
      → ((q : ℕ) → has q fs ≡ true → (cells q).next ≡ (s.cells q).next)
      → IsPool size (record s { cells = cells }) ps fs
  unfolding has
  IsPool-frame size s cells p ps fs h inside f = record {
    free = Chain-frame h.free f;
    apart = h.apart;
    stock = elim h.stock [
      | inl e ↦ inl e
      | inr (a, b, c) ↦ absurd (ground (arith, ap (has p) a, inside))
    ];
  }
