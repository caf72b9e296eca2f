-- ===== src/LiteNes/Ppu/Laws.antt =====
-- The address space of the picture unit, and the ports through which the processor uses it.
use wukong_am.Base.{ℕ, ◌+◌, ◌*◌, ◌%◌, ◌<◌, ◌≡◌, refl, sym, ap, ◌∙◌, true, false, arith}
use wukong_am.Base.{◌==◌, ◌||◌, ltb, if◌then◌else◌, bit_and, bit_or, u16, ==_iff}
use wukong_am.Base.Bits.{bit_and_mask}
use wukong_am.Base.Bytes.{all_below, all_below_sound}
use wukong_am.LiteNes.Ppu.{
  Ppu, ppu_get_real_ram_address, ppu_ram_read, ppu_ram_write, ppu_io_read, ppu_io_write, read_data,
  wrap_addr, write_addr, write_data,
}

palette_table : all_below 32 (λ x. bit_or 0x3f00 x == 0x3f00 + x) ≡ true
unfolding all_below
palette_table = refl

-- The address of a palette entry.
palette_address : (a : ℕ) → bit_or 0x3f00 (bit_and a 0x1f) ≡ 0x3f00 + a % 32
palette_address a =
    let low : bit_and a 0x1f ≡ a % 32 = bit_and_mask 5 a in
    rw low ((==_iff _ _).0 (all_below_sound 32 _ (a % 32) palette_table (omega arith)))

-- The memory cell behind each address below 0x4000: below 0x3f00 the address itself; from there the
-- 32 palette entries repeat, and the entries 16, 20, 24 and 28 are those 16 below.
pub ppu_get_real_ram_address_lem :
    (a : ℕ)
    → a < 0x4000
    → ppu_get_real_ram_address a ≡ (
        if ltb a 0x3f00
        then a
        else (if (a % 32 == 16) || (a % 32 == 20) || (a % 32 == 24) || (a % 32 == 28)
            then 0x3ef0 + a % 32
            else 0x3f00 + a % 32))
unfolding ppu_get_real_ram_address
ppu_get_real_ram_address_lem a h = ground (arith, palette_address a)

-- No address below 0x4000 leads out of the 16 KiB array, and the mapping is idempotent.
pub ppu_get_real_ram_address-lt :
    (a : ℕ)
    → a < 0x4000
    → (ppu_get_real_ram_address a < 0x4000)
      × (ppu_get_real_ram_address (ppu_get_real_ram_address a) ≡ ppu_get_real_ram_address a)
ppu_get_real_ram_address-lt a h =
    let first = ppu_get_real_ram_address_lem a h in
    let small : ppu_get_real_ram_address a < 0x4000 = ground (arith, first) in
    let second = ppu_get_real_ram_address_lem (ppu_get_real_ram_address a) small in
    (small, ground (arith, first, second))

-- The mirrored write of the data port does not cover the cell at the address itself.
ram-write_data :
    (s : Ppu) (value : ℕ) → (write_data s value).ram (ppu_get_real_ram_address (u16 s.addr)) ≡ value
unfolding write_data ppu_ram_write
ram-write_data s value = ground arith

-- Two writes to port 0x2006 set the address, high byte first.
addr-write_addr :
    (s : Ppu) (hi lo : ℕ)
    → s.ready ≡ true
    → s.addr_received_high_byte ≡ false
    → hi < 256
    → lo < 256
    → (let t = ppu_io_write (ppu_io_write s 0x2006 hi) 0x2006 lo in
        (t.addr ≡ hi * 256 + lo)
        × (t.ready ≡ true)
        × (t.addr_received_high_byte ≡ false)
        × (t.first_read_2007 ≡ true)
        × (t.ram ≡ s.ram))
unfolding ppu_io_write write_addr wrap_addr
addr-write_addr s hi lo ready fresh h k = rw (ready, fresh) (omega arith, refl, refl, refl, refl)

-- Reading the data port right after an address was set gives the cell of the address.
read_data_lem :
    (s : Ppu)
    → (ppu_io_read s 0x2007).0 ≡ s.ram (ppu_get_real_ram_address (u16 (bit_and s.addr 0x3fff)))
unfolding ppu_io_read read_data ppu_ram_read wrap_addr
read_data_lem s = refl

-- What one access to the data port writes.
port_write_lem :
    (s : Ppu) (v : ℕ)
    → (ppu_io_write s 0x2007 v).ram (ppu_get_real_ram_address (u16 (bit_and s.addr 0x3fff))) ≡ v
unfolding ppu_io_write wrap_addr
port_write_lem s v = ram-write_data (record (wrap_addr s) { latch = v }) v

port_write_keeps :
    (s : Ppu) (v : ℕ)
    → ((ppu_io_write s 0x2007 v).ready ≡ s.ready)
      × ((ppu_io_write s 0x2007 v).addr_received_high_byte ≡ s.addr_received_high_byte)
unfolding ppu_io_write wrap_addr write_data ppu_ram_write
port_write_keeps s v = ground arith

-- `ppu_io_write` to 0x2006 twice: it sets an address of the picture unit.
pub set_address : Ppu → ℕ → ℕ → Ppu
set_address s hi lo = ppu_io_write (ppu_io_write s 0x2006 hi) 0x2006 lo

-- Once the picture unit is ready and no half of an address is pending, a byte written through the
-- ports 0x2006 and 0x2007 is read back through them from the same address, for any two bytes `hi`
-- and `lo` of it below 256.
pub ppu_io_read-ppu_io_write :
    (s : Ppu) (hi lo v : ℕ)
    → s.ready ≡ true
    → s.addr_received_high_byte ≡ false
    → hi < 256
    → lo < 256
    → (let written = ppu_io_write (set_address s hi lo) 0x2007 v in
        (ppu_io_read (set_address written hi lo) 0x2007).0 ≡ v)
unfolding set_address
ppu_io_read-ppu_io_write s hi lo v ready fresh h k =
    let t = set_address s hi lo in
    let first = addr-write_addr s hi lo ready fresh h k in
    let w = ppu_io_write t 0x2007 v in
    let kept = port_write_keeps t v in
    let second = addr-write_addr w hi lo (kept.0 ∙ first.1) (kept.1 ∙ first.2) h k in
    let r = set_address w hi lo in
    let same : r.addr ≡ t.addr = unfold set_address in (second.0 ∙ sym first.0) in
    let memory : r.ram ≡ w.ram = unfold set_address in second.4 in
    read_data_lem r
    ∙ ap (λ m. m (ppu_get_real_ram_address (u16 (bit_and r.addr 0x3fff)))) memory
    ∙ ap (λ a. w.ram (ppu_get_real_ram_address (u16 (bit_and a 0x3fff)))) same
    ∙ port_write_lem t v
