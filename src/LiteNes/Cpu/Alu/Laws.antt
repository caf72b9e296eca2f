-- ===== src/LiteNes/Cpu/Alu/Laws.antt =====
-- Addition, subtraction and comparison against arithmetic.
use Prim.Native.Nat.{differ}
use wukong_am.Base.{
  ℕ, zero, suc, ◌+◌, ◌-◌, ◌^◌, ◌%◌, ◌/◌, ◌≤◌, ◌<◌, ◌≡◌, refl, Bool-cases, inl, inr, ap, ◌>>>◌, ◌∙◌,
  ◌||◌, min, Bool, arith,
}
use wukong_am.Base.{not, ◌==◌, ltb, leb, if◌then◌else◌, bit_and, bit_xor, truthy, of_bool, u32}
use native.Mathlib.Nat.{one-le-pow}
use wukong_am.LiteNes.Machine.{Cpu, Nes, IsNes}
use wukong_am.LiteNes.Cpu.Flags.{
  cpu_flag_set, cpu_modify_flag, cpu_update_zn_flags, carry_bp, overflow_bp,
}
use wukong_am.LiteNes.Cpu.Flags.Laws.{flag_set-modify_flag, flag_set-update_zn}
use wukong_am.LiteNes.Cpu.Alu.{
  finish, adc, sbc, cpu_compare, cpu_op_adc, cpu_op_sbc, cpu_op_cmp, cpu_op_cpx, cpu_op_cpy,
}
use wukong_am.Base.Bits.{bit, bit-bit_xor, bit-bit_and, bit-lt, bit_and-two_pow, bit_and_mask}

-- A nonzero test of one bit.
truthy-bit : (a i : ℕ) → truthy (bit_and a (2 ^ i)) ≡ (bit a i == 1)
truthy-bit a i = ground (arith, bit_and-two_pow a i, bit-lt a i, one-le-pow i 2)

-- `finish` in terms of its parts.
module _ (carry overflow : Bool) (result : ℕ) (c : Cpu) where
  finish-a : (finish carry overflow result c).a ≡ result % 256
  unfolding finish cpu_update_zn_flags
  finish-a = bit_and_mask 8 result

  finish-flag :
      (j : ℕ)
      → j < 8
      → cpu_flag_set (finish carry overflow result c) j ≡ (
          if j == 0
          then carry
          else if j == 1
          then result % 256 == 0
          else if j == 6
          then overflow
          else if j == 7
          then leb 128 (result % 256)
          else cpu_flag_set c j)
  unfolding finish
  finish-flag j h =
      let c1 = cpu_modify_flag overflow_bp overflow (cpu_modify_flag carry_bp carry c) in
      let same : cpu_flag_set (record c1 { a = bit_and result 0xff }) j ≡ cpu_flag_set c1 j =
        unfold cpu_flag_set in refl in
      ground (
        arith,
        same,
        flag_set-update_zn (bit_and result 0xff) j (record c1 { a = bit_and result 0xff }),
        flag_set-modify_flag 6 j overflow (cpu_modify_flag carry_bp carry c),
        flag_set-modify_flag 0 j carry c,
        bit_and_mask 8 result,
      )

-- A byte as a signed number, plus 128.
abbrev pub bias : ℕ → ℕ
bias x = (x + 128) % 256

-- The signed sum of two bytes and a carry lies outside of -128 .. 127.
abbrev pub signed_overflow : ℕ → ℕ → ℕ → Bool
signed_overflow x y carry = let sum = bias x + bias y + carry in ltb sum 128 || leb 384 sum

differ-mod : (x y : ℕ) → x < 2 → y < 2 → differ x y ≡ (x + y) % 2
differ-mod zero zero h k = refl
differ-mod zero (suc y) h k = omega arith
differ-mod (suc x) zero h k = omega arith
differ-mod (suc x) (suc y) h k = omega (arith, differ-mod x y (omega arith) (omega arith))

bit-seven : (a : ℕ) → bit a 7 ≡ a / 128 % 2
bit-seven a = omega arith

bit-eight : (a : ℕ) → bit a 8 ≡ a / 256 % 2
bit-eight a = omega arith

xor-seven : (a b : ℕ) → bit (bit_xor a b) 7 ≡ (a / 128 % 2 + b / 128 % 2) % 2
xor-seven a b =
    ground
      (arith, bit-bit_xor a b 7, bit-seven a, bit-seven b, differ-mod (a / 128 % 2) (b / 128 % 2))

and-seven : (a b : ℕ) → bit (bit_and a b) 7 ≡ min (bit a 7) (bit b 7)
and-seven a b = bit-bit_and a b 7

-- The overflow test of the addition, on bytes and a carry.
adc-overflow :
    (a v carry : ℕ)
    → a < 256
    → v < 256
    → carry < 2
    → truthy
        (bit_and (bit_and (bit_xor (bit_xor a v) 0xffff_ffff) (bit_xor a (a + v + carry))) 0x80)
      ≡ signed_overflow a v carry
adc-overflow a v carry h k l =
    let value : bit (bit_and (bit_xor (bit_xor a v) 0xffff_ffff) (bit_xor a (a + v + carry))) 7
        ≡ min (((a / 128 % 2 + v / 128 % 2) % 2 + 1) % 2)
            ((a / 128 % 2 + (a + v + carry) / 128 % 2) % 2) =
      omega (
        arith,
        and-seven (bit_xor (bit_xor a v) 0xffff_ffff) (bit_xor a (a + v + carry)),
        xor-seven (bit_xor a v) 0xffff_ffff,
        bit-seven (bit_xor a v),
        xor-seven a v,
        xor-seven a (a + v + carry),
      ) in
    truthy-bit _ 7 ∙ rw value (ground arith)

-- The same of the subtraction: `v` is complemented.
sbc-overflow :
    (a v borrow : ℕ)
    → a < 256
    → v < 256
    → borrow < 2
    → truthy (bit_and (bit_and (bit_xor a v) (bit_xor a (u32 (a + 2 ^ 32 - v - borrow)))) 0x80)
      ≡ signed_overflow a (255 - v) (1 - borrow)
sbc-overflow a v borrow h k l =
    let r = u32 (a + 2 ^ 32 - v - borrow) in
    let value : bit (bit_and (bit_xor a v) (bit_xor a r)) 7
        ≡ min ((a / 128 % 2 + v / 128 % 2) % 2) ((a / 128 % 2 + r / 128 % 2) % 2) =
      omega (arith, and-seven (bit_xor a v) (bit_xor a r), xor-seven a v, xor-seven a r) in
    truthy-bit _ 7 ∙ rw value (ground arith)

-- What an addition of `v` and a carry leaves behind.
pub record IsSum (c : Cpu) (v carry : ℕ) (c' : Cpu) : Type 0 where
  pub a : c'.a ≡ (c.a + v + carry) % 256
  pub carry_flag : cpu_flag_set c' 0 ≡ leb 256 (c.a + v + carry)
  pub zero_flag : cpu_flag_set c' 1 ≡ ((c.a + v + carry) % 256 == 0)
  pub negative_flag : cpu_flag_set c' 7 ≡ leb 128 ((c.a + v + carry) % 256)
  pub overflow_flag : cpu_flag_set c' 6 ≡ signed_overflow c.a v carry
  pub kept :
      (cpu_flag_set c' 2 ≡ cpu_flag_set c 2)
      × (cpu_flag_set c' 3 ≡ cpu_flag_set c 3)
      × (cpu_flag_set c' 4 ≡ cpu_flag_set c 4)
      × (cpu_flag_set c' 5 ≡ cpu_flag_set c 5)

carry_bit : (r : ℕ) → r < 512 → truthy (bit_and r 0x100) ≡ leb 256 r
carry_bit r h = truthy-bit r 8 ∙ ground (arith, bit-eight r)

-- A finished operation whose flags and result are right is such an addition.
finish-IsSum :
    (carry overflow : Bool) (result v c0 : ℕ) (c : Cpu)
    → result % 256 ≡ (c.a + v + c0) % 256
    → carry ≡ leb 256 (c.a + v + c0)
    → overflow ≡ signed_overflow c.a v c0
    → IsSum c v c0 (finish carry overflow result c)
finish-IsSum carry overflow result v c0 c e f g =
    let flag = finish-flag carry overflow result c in
    record {
      a = finish-a carry overflow result c ∙ e;
      carry_flag = flag 0 (omega arith) ∙ f;
      zero_flag = flag 1 (omega arith) ∙ ap (λ n. n == 0) e;
      negative_flag = flag 7 (omega arith) ∙ ap (leb 128) e;
      overflow_flag = flag 6 (omega arith) ∙ g;
      kept =
          (flag 2 (omega arith), flag 3 (omega arith), flag 4 (omega arith), flag 5 (omega arith));
    }

adc-IsSum :
    (v : ℕ) (c : Cpu) → c.a < 256 → v < 256 → IsSum c v (of_bool (cpu_flag_set c 0)) (adc v c)
unfolding adc
adc-IsSum v c h k =
    let c0 = of_bool (cpu_flag_set c 0) in
    let small : c0 < 2 = ground arith in
    finish-IsSum _ _ (c.a + v + c0) v c0 c refl (carry_bit (c.a + v + c0) (omega arith))
      (adc-overflow c.a v c0 h k small)

sbc_borrow-IsSum :
    (v borrow : ℕ) (c : Cpu)
    → c.a < 256
    → v < 256
    → borrow < 2
    → (let r = u32 (c.a + 2 ^ 32 - v - borrow) in
        IsSum c (255 - v) (1 - borrow) (
          finish
            (not (truthy (bit_and r 0x100)))
            (truthy (bit_and (bit_and (bit_xor c.a v) (bit_xor c.a r)) 0x80))
            r
            c))
sbc_borrow-IsSum v borrow c h k l =
    let r = u32 (c.a + 2 ^ 32 - v - borrow) in
    let carry : not (truthy (bit_and r 0x100)) ≡ leb 256 (c.a + (255 - v) + (1 - borrow)) =
      ap not (truthy-bit r 8) ∙ ground (arith, bit-eight r) in
    finish-IsSum _ _ r (255 - v) (1 - borrow) c (omega arith) carry
      (sbc-overflow c.a v borrow h k l)

sbc-IsSum :
    (v : ℕ) (c : Cpu)
    → c.a < 256
    → v < 256
    → IsSum c (255 - v) (of_bool (cpu_flag_set c 0)) (sbc v c)
unfolding sbc
sbc-IsSum v c h k = elim (Bool-cases (cpu_flag_set c 0)) [
  | inl e ↦ rw e (sbc_borrow-IsSum v 0 c h k (omega arith))
  | inr e ↦ rw e (sbc_borrow-IsSum v 1 c h k (omega arith))
]

-- ADC, on a machine in range: the accumulator becomes the sum of itself, the argument and the
-- carry modulo 256; the carry flag tells a sum of at least 256, the zero and the negative flag
-- describe the new accumulator, the overflow flag tells that the signed sum does not fit, and flags
-- 2 to 5 are kept.
pub cpu_op_adc-IsSum :
    {s : Nes} → IsNes s → IsSum s.cpu s.op_value (of_bool (cpu_flag_set s.cpu 0)) (cpu_op_adc s).cpu
unfolding cpu_op_adc
cpu_op_adc-IsSum {s} h = adc-IsSum s.op_value s.cpu h.cpu.a h.op_value

-- SBC, on a machine in range, is the addition of the argument's complement with the same carry:
-- the accumulator, all flags and the overflow are those of the sum with 255 minus the argument.
pub cpu_op_sbc-IsSum :
    {s : Nes}
    → IsNes s
    → IsSum s.cpu (255 - s.op_value) (of_bool (cpu_flag_set s.cpu 0)) (cpu_op_sbc s).cpu
unfolding cpu_op_sbc
cpu_op_sbc-IsSum {s} h = sbc-IsSum s.op_value s.cpu h.cpu.a h.op_value

-- What a comparison of the register value `reg` with `v` leaves behind.
pub record IsComparison (reg v : ℕ) (c c' : Cpu) : Type 0 where
  pub carry_flag : cpu_flag_set c' 0 ≡ leb v reg
  pub zero_flag : cpu_flag_set c' 1 ≡ (reg == v)
  pub negative_flag : cpu_flag_set c' 7 ≡ leb 128 ((reg + 256 - v) % 256)
  pub kept :
      (cpu_flag_set c' 2 ≡ cpu_flag_set c 2)
      × (cpu_flag_set c' 3 ≡ cpu_flag_set c 3)
      × (cpu_flag_set c' 4 ≡ cpu_flag_set c 4)
      × (cpu_flag_set c' 5 ≡ cpu_flag_set c 5)
      × (cpu_flag_set c' 6 ≡ cpu_flag_set c 6)
  pub registers : (c'.pc ≡ c.pc) × (c'.sp ≡ c.sp) × (c'.a ≡ c.a) × (c'.x ≡ c.x) × (c'.y ≡ c.y)

compare-IsComparison :
    (reg v : ℕ) (c : Cpu) → reg < 256 → v < 256 → IsComparison reg v c (cpu_compare reg v c)
unfolding cpu_compare
compare-IsComparison reg v c h k =
    let r = u32 (reg + 2 ^ 32 - v) in
    let sign = truthy (bit_and (r >>> 7) 1) in
    let c1 = cpu_modify_flag 0 (ltb r (2 ^ 31)) c in
    let c2 = cpu_modify_flag 1 (r == 0) c1 in
    let flag = λ (j : ℕ). flag_set-modify_flag 7 j sign c2 in
    let flag1 = λ (j : ℕ). flag_set-modify_flag 1 j (r == 0) c1 in
    let flag0 = λ (j : ℕ). flag_set-modify_flag 0 j (ltb r (2 ^ 31)) c in
    let same : (j : ℕ)
        → 2 ≤ j
        → j < 7
        → cpu_flag_set (cpu_modify_flag 7 sign c2) j ≡ cpu_flag_set c j =
      λ j p q. ground (arith, flag j, flag1 j, flag0 j) in
    record {
      carry_flag = ground (arith, flag 0, flag1 0, flag0 0);
      zero_flag = ground (arith, flag 1, flag1 1);
      negative_flag = ground (arith, flag 7, truthy-bit (r >>> 7) 0);
      kept = (
        same 2 (omega arith) (omega arith),
        same 3 (omega arith) (omega arith),
        same 4 (omega arith) (omega arith),
        same 5 (omega arith) (omega arith),
        same 6 (omega arith) (omega arith),
      );
      registers = unfold cpu_modify_flag in (refl, refl, refl, refl, refl);
    }

-- CMP, CPX and CPY, on a machine in range: the carry flag tells that the register is at least the
-- argument, the zero flag that they are equal, the negative flag is bit 7 of their difference, and
-- the other flags and all registers are kept.
pub cpu_op_cmp-IsComparison :
    {s : Nes}
    → IsNes s
    → IsComparison s.cpu.a s.op_value s.cpu (cpu_op_cmp s).cpu
      × IsComparison s.cpu.x s.op_value s.cpu (cpu_op_cpx s).cpu
      × IsComparison s.cpu.y s.op_value s.cpu (cpu_op_cpy s).cpu
unfolding cpu_op_cmp cpu_op_cpx cpu_op_cpy
cpu_op_cmp-IsComparison {s} h = (
  compare-IsComparison s.cpu.a s.op_value s.cpu h.cpu.a h.op_value,
  compare-IsComparison s.cpu.x s.op_value s.cpu h.cpu.x h.op_value,
  compare-IsComparison s.cpu.y s.op_value s.cpu h.cpu.y h.op_value,
)
