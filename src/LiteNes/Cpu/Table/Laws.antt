-- ===== src/LiteNes/Cpu/Table/Laws.antt =====
-- The instruction table as a whole, by evaluation over all 256 opcodes.
use wukong_am.Base.{
  arith, ◌≤◌, ◌<◌, ◌↔◌, ℕ, ◌≡◌, refl, Bool, true, false, Option, none, some, List, [], ◌∷◌,
}
use wukong_am.Base.{◌==◌, ◌&&◌, ◌||◌, leb, not}
use wukong_am.Base.Bytes.{all_below, all_below_sound}
use wukong_am.LiteNes.Cpu.Table.{Entry, cpu_op_table}

-- Opcodes that no row of the table has.
abbrev pub unset_opcodes : List ℕ
unset_opcodes =
    0x02 ∷ 0x0b ∷ 0x12 ∷ 0x22 ∷ 0x2b ∷ 0x32 ∷ 0x42 ∷ 0x4b ∷ 0x52 ∷ 0x62 ∷ 0x6b ∷ 0x72 ∷ 0x82 ∷ 0x89
    ∷ 0x8b ∷ 0x92 ∷ 0x9b ∷ 0x9c ∷ 0x9e ∷ 0xab ∷ 0xb2 ∷ 0xbb ∷ 0xc2 ∷ 0xcb ∷ 0xd2 ∷ 0xe2 ∷ 0xf2 ∷ []

abbrev pub contains : List ℕ → ℕ → Bool
contains [] code = false
contains (c ∷ cs) code = (c == code) || contains cs code

is_none : Option Entry → Bool
is_none none = true
is_none (some e) = false

costs : Option Entry → Bool
costs none = true
costs (some e) = leb 1 e.cycles && leb e.cycles 8

same : Bool → Bool → Bool
same true b = b
same false b = not b

unset_table : all_below 256 (λ c. same (is_none (cpu_op_table c)) (contains unset_opcodes c)) ≡ true
unfolding all_below cpu_op_table is_none same
unset_table = refl

costs_table : all_below 256 (λ c. costs (cpu_op_table c)) ≡ true
unfolding all_below cpu_op_table costs
costs_table = refl

none_of_is_none : (e : Option Entry) → is_none e ≡ true → e ≡ none
unfolding is_none
none_of_is_none none h = refl
none_of_is_none (some e) h = cc

-- An opcode has no row exactly if it is one of the 27 that are listed; so the rows cover the other
-- 229.
pub cpu_op_table-unset :
    (code : ℕ) → code < 256 → (cpu_op_table code ≡ none) ↔ (contains unset_opcodes code ≡ true)
unfolding is_none same
cpu_op_table-unset code h =
    let agree = all_below_sound 256 _ code unset_table h in
    (
      (λ e. ground (arith, agree)),
      (λ e. none_of_is_none (cpu_op_table code) (ground (arith, agree))),
    )

-- Every row of the table, at an opcode below 256, costs between 1 and 8 cycles.
pub cpu_op_table-cycles :
    (code : ℕ) {e : Entry}
    → code < 256
    → cpu_op_table code ≡ some e
    → (1 ≤ e.cycles) × (e.cycles ≤ 8)
unfolding costs
cpu_op_table-cycles code h row =
    let fine = all_below_sound 256 _ code costs_table h in ground (arith, fine)
