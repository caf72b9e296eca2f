-- ===== src/Riscv/Vme.antt =====
-- am/src/nemu/isa/riscv/vme.c with the macros of am/include/riscv.h and am/src/nemu/include/nemu.h, for
-- 64-bit RISC-V: the page tables of Sv39. The memory holds the table entries by their addresses.
-- `pages k` is the page that the `k`-th call of `pgalloc_usr` returns.
pub mod Entry
pub mod Walk
pub mod Table
pub mod Frame
pub mod Link
pub mod Leaf
pub mod Loop
pub mod Mapped
pub mod Descent
pub mod Laws
pub mod Segments
pub mod Init
pub mod Protect
use wukong_am.Base.{ℕ, zero, suc, ◌+◌, ◌-◌, ◌*◌, ◌/◌, ◌%◌, ◌^◌, Bool, not, ◌&&◌, ◌==◌, leb, ltb}
use wukong_am.Base.{Option, none, some, List, [], ◌∷◌, if◌then◌else◌, bit_and, bit_or, truthy}
use wukong_am.Base.{u64, ◌<<<◌, ◌>>>◌}
use wukong_am.Base.Bytes.{Array, write}

abbrev pub pgsize : ℕ
pgsize = 4096

-- `PTE_V`, and the flags of the kernel's mappings: `PTE_R | PTE_W | PTE_X | PTE_A | PTE_D`.
abbrev pub pte_v : ℕ
pte_v = 1

abbrev pub kernel_flags : ℕ
kernel_flags = 0xce

-- `PN` and `PTE_ADDR`: the page of an address, and the address of an entry.
abbrev pub pn : ℕ → ℕ
pn addr = addr >>> 12

abbrev pub pte_addr : ℕ → ℕ
pte_addr pte = u64 (bit_and pte (2 ^ 64 - 0x400) <<< 2)

-- `VPNi` for `PTW_SV39`, with nine bits for each level.
abbrev pub vpn_i : ℕ → ℕ → ℕ
vpn_i va i = bit_and (va >>> (12 + 9 * i)) (1 <<< 9 - 1)

-- The memory, and the number of pages that have been allocated.
pub record Vm : Type 0 where
  pub mem : Array
  pub used : ℕ

-- An address space: `ptr` is the root of its table. Its page size and its area are constants.
pub record AddressSpace : Type 0 where
  pub ptr : ℕ

abbrev pub is_valid : ℕ → Bool
is_valid pte = truthy (bit_and pte pte_v)

-- `memset(p, 0, PGSIZE)`, as the entries see it.
abbrev pub clear_page : Array → ℕ → Array
clear_page m p a = if leb p a && ltb a (p + pgsize) then 0 else m a

module _ (pages : ℕ → ℕ) where
  unfoldable pub new_page : Vm → ℕ × Vm
  new_page s = (pages s.used, record { mem = clear_page s.mem (pages s.used); used = s.used + 1 })

  -- The loop of `_map` from `level` on, with the table of that level at `pg_base`.
  unfoldable pub map_level : ℕ → ℕ → ℕ → ℕ → ℕ → Vm → Vm
  map_level zero pg_base va pa prot s =
      let pte = pg_base + 8 * vpn_i va 0 in
      if is_valid (s.mem pte)
      then s
      else record s { mem = write s.mem pte (bit_or (bit_or pte_v prot) (pn pa <<< 10)) }
  map_level (suc level) pg_base va pa prot s =
      let pte = pg_base + 8 * vpn_i va (suc level) in
      let p = (new_page s).0 in
      let fresh = (new_page s).1 in
      let linked = record fresh { mem = write fresh.mem pte (bit_or pte_v (pn p <<< 10)) } in
      if is_valid (s.mem pte)
      then map_level level (pte_addr (s.mem pte)) va pa prot s
      else map_level level p va pa prot linked

  -- `none` is a failed assertion.
  unfoldable pub map : AddressSpace → ℕ → ℕ → ℕ → Vm → Option Vm
  map space va pa prot s =
      if (va % pgsize == 0) && (pa % pgsize == 0)
      then some (map_level 2 space.ptr va pa prot s)
      else none

  -- The inner loop of `_vme_init`, with `count` pages to go.
  unfoldable pub map_pages : ℕ → AddressSpace → ℕ → Vm → Option Vm
  map_pages zero kas va s = some s
  map_pages (suc count) kas va s = elim (map kas va va kernel_flags s) [
    | none ↦ none
    | some t ↦ map_pages count kas (va + pgsize) t
  ]

  -- A segment with its start and its end; a last page that it shares is mapped whole.
  unfoldable pub map_segments : List (ℕ × ℕ) → AddressSpace → Vm → Option Vm
  map_segments [] kas s = some s
  map_segments ((start, end) ∷ rest) kas s =
      elim (map_pages ((end - start + pgsize - 1) / pgsize) kas start s) [
        | none ↦ none
        | some t ↦ map_segments rest kas t
      ]

  -- The table that `_vme_init` builds, without the switch to it.
  unfoldable pub vme_init : List (ℕ × ℕ) → Vm → Option (AddressSpace × Vm)
  vme_init segments s =
      let (root, t) = new_page s in
      let kas : AddressSpace = record { ptr = root } in
      elim (map_segments segments kas t) [ none ↦ none | some u ↦ some (kas, u) ]

  -- `_protect`: a new root with the kernel's entries.
  unfoldable pub protect : AddressSpace → Vm → AddressSpace × Vm
  protect kas s =
      let (updir, t) = new_page s in
      (
        record { ptr = updir },
        record t {
          mem = λ a.
              if leb updir a && ltb a (updir + pgsize)
              then t.mem (kas.ptr + (a - updir))
              else t.mem a;
        },
      )

-- `set_satp`: the value that it writes, of mode 8.
unfoldable pub satp_of : ℕ → ℕ
satp_of pdir = bit_or (8 <<< 60) (pn pdir)

-- `get_satp`, from the value of the register.
unfoldable pub get_satp : ℕ → ℕ
get_satp satp = u64 (satp <<< 12)

-- `segments` of a XiangShan: memory, uart, timer, frame buffer, screen, interrupt controller, tests.
abbrev pub xs_segments : List (ℕ × ℕ)
xs_segments =
    (0x80000000, 0x88000000)
    ∷ (0x40600000, 0x40601000)
    ∷ (0x38000000, 0x38010000)
    ∷ (0x50000000, 0x50400000)
    ∷ (0x40001000, 0x40002000)
    ∷ (0x3c000000, 0x40000000)
    ∷ (0xc0000000, 0xc0100000)
    ∷ []
