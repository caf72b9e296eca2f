-- ===== src/Riscv/Vme/Entry.antt =====
-- The arithmetic of the entries of a table and of the indices of an address.
use native.Mathlib.Nat.{pow-suc, div-div-eq-div-mul}
use wukong_am.Base.{ℕ, zero, suc, ◌+◌, ◌*◌, ◌/◌, ◌%◌, ◌^◌, ◌<◌, ◌≡◌, sym, ap, ◌∙◌, arith}
use wukong_am.Base.{Bool, true, false, ◌==◌, ◌||◌, bit_and, bit_or, truthy}
use wukong_am.Base.{◌>>>◌, ◌<<<◌}
use wukong_am.Base.Bits.{bit_and_mask, bit_and_digit, bit_or_digit}
use wukong_am.Base.Bits.Fields.{bit_or-field, bit_and_high, zero-bit_or}
use wukong_am.Riscv.Vme.{pte_v, pn, pte_addr, vpn_i, is_valid}

-- An entry with the flag R or X is a leaf.
abbrev pub is_leaf : ℕ → Bool
is_leaf pte = truthy (bit_and pte 0x0a)

pub is_valid_lem : (e : ℕ) → is_valid e ≡ (e % 2 == 1)
is_valid_lem e = ground (arith, bit_and_mask 1 e)

pub is_leaf_lem : (e : ℕ) → is_leaf e ≡ ((e / 2 % 2 == 1) || (e / 8 % 2 == 1))
is_leaf_lem e = ground (
  arith,
  bit_and_digit e 10,
  bit_and_digit (e / 2) 5,
  bit_and_digit (e / 2 / 2) 2,
  bit_and_mask 1 (e / 2 / 2 / 2),
)

pub vpn_i-lt : (va i : ℕ) → vpn_i va i < 512
vpn_i-lt va i = omega (arith, bit_and_mask 9 (va >>> (12 + 9 * i)))

-- What stands above the index of `level` in an address.
abbrev pub prefix : ℕ → ℕ → ℕ
prefix level va = va / 2 ^ (12 + 9 * level) / 512

pow_add : (n k : ℕ) → 2 ^ (n + k) ≡ 2 ^ n * 2 ^ k
pow_add n zero = let e : n + 0 ≡ n = omega arith in ap (λ t. 2 ^ t) e ∙ omega arith
pow_add n (suc k) =
    let next : n + suc k ≡ suc (n + k) = omega arith in
    let double : 2 ^ suc k ≡ 2 ^ k * 2 = pow-suc 2 k ∙ omega arith in
    ap (λ t. 2 ^ t) next ∙ pow-suc 2 (n + k) ∙ grind (arith, pow_add n k, double)

-- The part of an address from the index of `level` on, and the next one.
cut_suc : (level va : ℕ) → prefix level va ≡ va / 2 ^ (12 + 9 * suc level)
cut_suc level va =
    let next : 12 + 9 * suc level ≡ 12 + 9 * level + 9 = omega arith in
    let power : 2 ^ (12 + 9 * suc level) ≡ 2 ^ (12 + 9 * level) * 512 =
      ap (λ n. 2 ^ n) next ∙ pow_add (12 + 9 * level) 9 in
    div-div-eq-div-mul va (2 ^ (12 + 9 * level)) 512 ∙ ap (λ d. va / d) (sym power)

pub prefix-suc :
    (level va : ℕ) → prefix (suc level) va * 512 + vpn_i va (suc level) ≡ prefix level va
prefix-suc level va = omega (arith, cut_suc level va, bit_and_mask 9 (va >>> (12 + 9 * suc level)))

pub prefix-zero : (va : ℕ) → prefix 0 va * 512 + vpn_i va 0 ≡ va / 4096
prefix-zero va = omega (arith, bit_and_mask 9 (va >>> 12))

-- Addresses in one page have one index at each level.
cut_page : (i va va' : ℕ) → va / 4096 ≡ va' / 4096 → va / 2 ^ (12 + 9 * i) ≡ va' / 2 ^ (12 + 9 * i)
cut_page zero va va' e = e
cut_page (suc i) va va' e =
    sym (cut_suc i va) ∙ ap (λ t. t / 512) (cut_page i va va' e) ∙ cut_suc i va'

pub vpn_i_page : (va va' i : ℕ) → va / 4096 ≡ va' / 4096 → vpn_i va i ≡ vpn_i va' i
vpn_i_page va va' i e = ap (λ t. bit_and t 511) (cut_page i va va' e)

-- The entry of a table below: valid, no leaf, and it leads to the table.
pub link : ℕ → ℕ
link page = 1 + page / 4096 * 1024

pub link_lem :
    (page : ℕ)
    → page % 4096 ≡ 0
    → page < 2 ^ 56
    → (bit_or pte_v (pn page <<< 10) ≡ link page)
      × (is_valid (link page) ≡ true)
      × (is_leaf (link page) ≡ false)
      × (pte_addr (link page) ≡ page)
unfolding link
link_lem page a h =
    let e = 1 + page / 4096 * 1024 in
    (
      bit_or-field 10 1 (page / 4096) (omega arith),
      ground (arith, is_valid_lem e),
      ground (arith, is_leaf_lem e),
      omega (arith, bit_and_high 10 54 e (omega arith)),
    )

-- The entry of a page: valid, a leaf as its flags say, and it leads to the page.
unfoldable pub entry : ℕ → ℕ → ℕ
entry pa prot = bit_or (bit_or pte_v prot) (pn pa <<< 10)

pub entry_lem :
    (pa prot : ℕ)
    → pa % 4096 ≡ 0
    → pa < 2 ^ 56
    → prot < 1024
    → is_leaf prot ≡ true
    → (is_valid (entry pa prot) ≡ true)
      × (is_leaf (entry pa prot) ≡ true)
      × (pte_addr (entry pa prot) ≡ pa)
unfolding entry
entry_lem pa prot a h k leaf =
    let flags : bit_or 1 prot ≡ prot / 2 * 2 + 1 =
      omega (arith, bit_or_digit 1 prot, zero-bit_or (prot / 2) (prot / 2) (omega arith)) in
    let sum = bit_or-field 10 (bit_or 1 prot) (pa / 4096) (omega (arith, flags)) in
    let e = bit_or (bit_or 1 prot) (pa / 4096 * 1024) in
    (
      ground (arith, is_valid_lem e, sum, flags),
      ground (arith, is_leaf_lem e, is_leaf_lem prot, sum, flags),
      omega (arith, bit_and_high 10 54 e (omega (arith, sum, flags)), sum, flags),
    )
