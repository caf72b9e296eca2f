-- ===== src/LiteNes/Memory/Laws.antt =====
-- The memory map over the processor's own memory: 2 KiB, seen at 0x0000 to 0x1fff and once more at
-- 0x6000 to 0x7fff.
use wukong_am.Base.{
  ◌∙◌, if-intro, ℕ, ◌+◌, ◌*◌, ◌≤◌, ◌<◌, ◌%◌, ◌/◌, ◌==◌, ◌≡◌, refl, ap, ◌⊎◌, inl, inr,
}
use wukong_am.Base.{arith, bit_and, if◌then◌else◌, u8, u16, ◌>>>◌, false}
use wukong_am.Base.Bits.{bit_and_mask}
use wukong_am.Base.Bytes.{write}
use wukong_am.LiteNes.Machine.{Nes}
use wukong_am.LiteNes.Memory.{
  cpu_ram_read, cpu_ram_write, memory_readb, memory_writeb, memory_readw, memory_writew,
}

-- An address of the processor's own memory.
abbrev pub InRam : ℕ → Type 0
InRam a = (a < 0x2000) ⊎ ((0x6000 ≤ a) × (a < 0x8000))

ram_index : (a : ℕ) → bit_and (u16 (bit_and (u16 a) 0x7ff)) 0x7ff ≡ a % 0x800
ram_index a = omega (arith, bit_and_mask 11 (u16 a), bit_and_mask 11 (u16 (bit_and (u16 a) 0x7ff)))

high_index : (a : ℕ) → bit_and (u16 (bit_and (u16 a) 0x1fff)) 0x7ff ≡ a % 0x800
high_index a =
    omega (arith, bit_and_mask 13 (u16 a), bit_and_mask 11 (u16 (bit_and (u16 a) 0x1fff)))

pub memory_readb-InRam : (s : Nes) (a : ℕ) → InRam a → memory_readb s a ≡ (s.ram (a % 0x800), s)
unfolding memory_readb cpu_ram_read
memory_readb-InRam s a (inl h) =
    let page : u16 a >>> 13 ≡ 0 = omega arith in rw page (ap (λ n. (s.ram n, s)) (ram_index a))
memory_readb-InRam s a (inr h) =
    let page : u16 a >>> 13 ≡ 3 = omega arith in rw page (ap (λ n. (s.ram n, s)) (high_index a))

pub memory_writeb-InRam :
    (s : Nes) (a v : ℕ)
    → InRam a
    → memory_writeb s a v ≡ record s { ram = write s.ram (a % 0x800) (u8 v) }
unfolding memory_writeb cpu_ram_write
memory_writeb-InRam s a v (inl h) =
    let page : u16 a >>> 13 ≡ 0 = omega arith in
    let other : (u16 a == 0x4014) ≡ false = ground arith in
    rw (page, other) (ap (λ n. record s { ram = write s.ram n (u8 v) }) (ram_index a))
memory_writeb-InRam s a v (inr h) =
    let page : u16 a >>> 13 ≡ 3 = omega arith in
    let other : (u16 a == 0x4014) ≡ false = ground arith in
    rw (page, other) (ap (λ n. record s { ram = write s.ram n (u8 v) }) (high_index a))

-- A byte below 256 written to the processor's memory is read back at every address that mirrors it,
-- and every other byte of that memory is as before.
pub memory_readb-memory_writeb :
    (s : Nes) (a b v : ℕ)
    → InRam a
    → InRam b
    → v < 256
    → (memory_readb (memory_writeb s a v) b).0
      ≡ (if b % 0x800 == a % 0x800 then v else (memory_readb s b).0)
memory_readb-memory_writeb s a b v h k l =
    rw (memory_writeb-InRam s a v h, memory_readb-InRam _ b k)
      (ground (arith, memory_readb-InRam s b k))

-- The two bytes of a word in the first 8 KiB, which do not fall on the same cell.
pub memory_writew-InRam :
    (s : Nes) (a v : ℕ)
    → a < 0x1fff
    → memory_writew s a v ≡ record s {
      ram = write (write s.ram (a % 0x800) (v % 256)) ((a + 1) % 0x800) (v / 256 % 256);
    }
unfolding memory_writew
memory_writew-InRam s a v h =
    let next : u16 a + 1 ≡ a + 1 = omega arith in
    let low : u8 (bit_and v 0xff) ≡ v % 256 = omega (arith, bit_and_mask 8 v) in
    rw
      (
        next,
        memory_writeb-InRam s a (bit_and v 0xff) (inl (omega arith)),
        memory_writeb-InRam _ (a + 1) (v >>> 8) (inl (omega arith)),
        low,
      )
      refl

pub memory_readw-InRam :
    (s : Nes) (a : ℕ)
    → a < 0x1fff
    → memory_readw s a ≡ (u16 (s.ram (a % 0x800) + s.ram ((a + 1) % 0x800) * 256), s)
unfolding memory_readw
memory_readw-InRam s a h =
    let next : u16 a + 1 ≡ a + 1 = omega arith in
    rw
      (
        next,
        memory_readb-InRam s a (inl (omega arith)),
        memory_readb-InRam s (a + 1) (inl (omega arith)),
      )
      refl

-- A read leaves the processor, its memory and the argument of the instruction alone.
pub memory_readb-keeps :
    (s : Nes) (a : ℕ)
    → (let t = (memory_readb s a).1 in
        (t.cpu ≡ s.cpu) × (t.ram ≡ s.ram) × (t.op_cycles ≡ s.op_cycles))
unfolding memory_readb
memory_readb-keeps s a0 =
    let keeps : ℕ × Nes → Type 0 =
      λ r. (r.1.cpu ≡ s.cpu) × (r.1.ram ≡ s.ram) × (r.1.op_cycles ≡ s.op_cycles) in
    let page = u16 a0 >>> 13 in
    if-intro keeps (page == 0) (refl, refl, refl)
      (if-intro keeps (page == 1) (refl, refl, refl)
        (if-intro keeps (page == 2) (refl, refl, refl)
          (if-intro keeps (page == 3) (refl, refl, refl) (refl, refl, refl))))

pub memory_readw-keeps :
    (s : Nes) (a : ℕ) → (let t = (memory_readw s a).1 in (t.cpu ≡ s.cpu) × (t.ram ≡ s.ram))
unfolding memory_readw
memory_readw-keeps s a =
    let first = memory_readb-keeps s a in
    let second = memory_readb-keeps (memory_readb s a).1 (u16 a + 1) in
    (second.0 ∙ first.0, second.1 ∙ first.1)
