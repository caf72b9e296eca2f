-- ===== src/LiteNes/Rom/Laws.antt =====
-- Which cartridge images `fce_load_rom` accepts, and where their blocks go.
use wukong_am.Base.{ℕ, zero, suc, ◌+◌, ◌-◌, ◌*◌, ◌%◌, ◌<◌, ◌≡◌, refl, ap, ◌∙◌, true, false, arith}
use wukong_am.Base.{
  Bool, ◌&&◌, ◌||◌, ◌==◌, leb, ltb, if◌then◌else◌, Bool-cases, inl, inr, Option, none, some,
  bit_and, ◌>>>◌,
}
use wukong_am.Base.Bytes.{Array, copy}
use wukong_am.LiteNes.Ppu.{ppu_copy}
use wukong_am.LiteNes.Mmc.{Mmc, mmc_copy, mmc_append_chr_rom_page, mmc_max_page_count}
use wukong_am.LiteNes.Machine.{Nes}
use wukong_am.LiteNes.Rom.{
  romread, rom_type, is_signature, set_mmc, copy_program, load_pages, fce_load_rom,
}

-- The signature and the mapper.
abbrev pub is_supported : Array → Bool
is_supported rom =
    is_signature rom
    && ((bit_and (rom_type rom) 0xf0 >>> 4 == 0) || (bit_and (rom_type rom) 0xf0 >>> 4 == 3))

-- Room for the character pages.
abbrev pub has_room : ℕ → ℕ → Bool
has_room number count = (count == 0) || leb (number + count) mmc_max_page_count

-- The return value.
abbrev pub return_value : Option (ℕ × Nes) → Option ℕ
return_value none = none
return_value (some (code, t)) = some code

-- The machine after one page of the loop.
page_added : ℕ → Array → ℕ → Nes → Nes
page_added i rom buf s =
    let blk : Array = λ j. rom (buf + j) in
    let m : Mmc = record (s.mmc) {
      chr_pages = copy s.mmc.chr_pages (s.mmc.number * 0x2000) blk 0x2000;
      number = s.mmc.number + 1;
    } in
    let s1 = set_mmc m s in if i == 0 then record s1 { ppu = ppu_copy s1.ppu 0 blk 0x2000 } else s1

page_added_lem :
    (i : ℕ) (rom : Array) (buf : ℕ) (s : Nes)
    → ((page_added i rom buf s).mmc.number ≡ s.mmc.number + 1)
      × ((page_added i rom buf s).mmc.memory ≡ s.mmc.memory)
unfolding page_added set_mmc
page_added_lem i rom buf s = elim (Bool-cases (i == 0)) [
  | inl here ↦ rw here (refl, refl)
  | inr other ↦ rw other (refl, refl)
]

-- The rest of the loop, by the result of `mmc_append_chr_rom_page`.
after_page : ℕ → ℕ → Array → ℕ → Nes → Option Mmc → Option Nes
after_page left i rom buf s o = elim o [
  | none ↦ none
  | some m ↦
      let s1 = set_mmc m s in
      load_pages left (i + 1) rom (buf + 0x2000)
        (if i == 0 then record s1 { ppu = ppu_copy s1.ppu 0 (λ j. rom (buf + j)) 0x2000 } else s1)
]

load_pages-after_page :
    (left i : ℕ) (rom : Array) (buf : ℕ) (s : Nes)
    → load_pages (suc left) i rom buf s
      ≡ after_page left i rom buf s (mmc_append_chr_rom_page s.mmc (λ j. rom (buf + j)))
unfolding load_pages romread after_page
load_pages-after_page left i rom buf s = refl

load_pages_step :
    (left i : ℕ) (rom : Array) (buf : ℕ) (s : Nes)
    → ltb s.mmc.number 1 ≡ true
    → load_pages (suc left) i rom buf s
      ≡ load_pages left (i + 1) rom (buf + 0x2000) (page_added i rom buf s)
unfolding mmc_append_chr_rom_page page_added after_page
load_pages_step left i rom buf s h =
    let room : mmc_append_chr_rom_page s.mmc (λ j. rom (buf + j))
        ≡ some (record (s.mmc) {
          chr_pages = copy s.mmc.chr_pages (s.mmc.number * 0x2000) (λ j. rom (buf + j)) 0x2000;
          number = s.mmc.number + 1;
        }) =
      rw h refl in
    load_pages-after_page left i rom buf s ∙ ap (after_page left i rom buf s) room

load_pages_full :
    (left i : ℕ) (rom : Array) (buf : ℕ) (s : Nes)
    → ltb s.mmc.number 1 ≡ false
    → load_pages (suc left) i rom buf s ≡ none
unfolding mmc_append_chr_rom_page after_page
load_pages_full left i rom buf s h =
    let full : mmc_append_chr_rom_page s.mmc (λ j. rom (buf + j)) ≡ none = rw h refl in
    load_pages-after_page left i rom buf s ∙ ap (after_page left i rom buf s) full

-- The loop over the pages succeeds just if there is room; it keeps the program's memory, and a page
-- that is the first goes to the picture unit.
pages_full :
    (count i : ℕ) (rom : Array) (buf : ℕ) (s : Nes)
    → has_room s.mmc.number count ≡ false
    → load_pages count i rom buf s ≡ none
pages_full zero i rom buf s h = absurd (ground (arith, h))
pages_full (suc left) i rom buf s h = elim (Bool-cases (ltb s.mmc.number 1)) [
  | inl room ↦
      let added = page_added_lem i rom buf s in
      load_pages_step left i rom buf s room
      ∙ pages_full left (i + 1) rom (buf + 0x2000) (page_added i rom buf s)
          (ground (arith, added.0))
  | inr full ↦ load_pages_full left i rom buf s full
]

pages_loaded :
    (count : ℕ) (rom : Array) (buf : ℕ) (s : Nes)
    → has_room s.mmc.number count ≡ true
    → (t : Nes) × (load_pages count 0 rom buf s ≡ some t)
      × (t.mmc.memory ≡ s.mmc.memory)
      × ((j : ℕ) → count ≡ 1 → j < 0x2000 → t.ppu.ram j ≡ rom (buf + j))
unfolding load_pages page_added ppu_copy
pages_loaded zero rom buf s h = (s, refl, refl, λ j e k. absurd (omega (arith, e)))
pages_loaded (suc zero) rom buf s h = (
  page_added 0 rom buf s,
  load_pages_step 0 0 rom buf s (ground arith),
  (page_added_lem 0 rom buf s).1,
  λ j e k. ground arith,
)
pages_loaded (suc (suc count)) rom buf s h = absurd (ground arith)

-- The machine before the loop over the pages.
prepared : Array → Nes → Nes
prepared rom s =
    copy_program (λ i. rom (16 + i)) (rom 4)
      (set_mmc (record (s.mmc) { id = bit_and (rom_type rom) 0xf0 >>> 4 }) s)

prepared-number : (rom : Array) (s : Nes) → (prepared rom s).mmc.number ≡ s.mmc.number
unfolding prepared copy_program set_mmc mmc_copy
prepared-number rom s = elim (Bool-cases (rom 4 == 1)) [
  | inl one ↦ rw one refl
  | inr more ↦ rw more refl
]

copy_at :
    (m : Array) (a : ℕ) (source : Array) (n x y : ℕ)
    → x ≡ a + y
    → y < n
    → copy m a source n x ≡ source y
copy_at m a source n x y e h =
    let inside : (leb a x && ltb x (a + n)) ≡ true = ground arith in
    let at : x - a ≡ y = omega arith in rw inside (ap source at)

copy_after : (m : Array) (a : ℕ) (source : Array) (n x : ℕ) → x < a → copy m a source n x ≡ m x
copy_after m a source n x h =
    let before : (leb a x && ltb x (a + n)) ≡ false = ground arith in rw before refl

prepared-memory :
    (rom : Array) (s : Nes) (i : ℕ)
    → i < 0x8000
    → (prepared rom s).mmc.memory (0x8000 + i) ≡ rom (16 + (if rom 4 == 1 then i % 0x4000 else i))
unfolding prepared copy_program set_mmc mmc_copy
prepared-memory rom s i h =
    let blk : Array = λ j. rom (16 + j) in
    elim (Bool-cases (rom 4 == 1)) [
      | inl one ↦ rw one (elim (Bool-cases (ltb i 0x4000)) [
        | inl low ↦
            let y : i ≡ i % 0x4000 = ground arith in
            copy_after (copy s.mmc.memory 0x8000 blk 0x4000) 0xc000 blk 0x4000 (0x8000 + i)
              (ground arith)
            ∙ copy_at s.mmc.memory 0x8000 blk 0x4000 (0x8000 + i) (i % 0x4000) (omega (arith, y))
                (omega arith)
        | inr high ↦
            copy_at (copy s.mmc.memory 0x8000 blk 0x4000) 0xc000 blk 0x4000 (0x8000 + i)
              (i % 0x4000) (ground arith) (omega arith)
      ])
      | inr more ↦ rw more (copy_at s.mmc.memory 0x8000 blk 0x8000 (0x8000 + i) i refl h)
    ]

finished : Option Nes → Option (ℕ × Nes)
finished o = elim o [ none ↦ none | some t ↦ some (0, t) ]

accepted :
    (rom : Array) (s : Nes)
    → is_supported rom ≡ true
    → fce_load_rom rom s
      ≡ finished (load_pages (rom 5) 0 rom (16 + rom 4 * 0x4000) (prepared rom s))
unfolding fce_load_rom romread finished prepared is_signature rom_type
accepted rom s h =
    let sign : is_signature rom ≡ true = ground (arith, h) in
    let mapper : ((bit_and (rom_type rom) 0xf0 >>> 4 == 0)
          || (bit_and (rom_type rom) 0xf0 >>> 4 == 3))
        ≡ true =
      ground (arith, h) in
    rw (sign, mapper) refl

rejected :
    (rom : Array) (s : Nes)
    → is_supported rom ≡ false
    → return_value (fce_load_rom rom s) ≡ some 0xffff_ffff
unfolding fce_load_rom romread is_signature rom_type
rejected rom s h = elim (Bool-cases (is_signature rom)) [
  | inl sign ↦
      let mapper : ((bit_and (rom_type rom) 0xf0 >>> 4 == 0)
            || (bit_and (rom_type rom) 0xf0 >>> 4 == 3))
          ≡ false =
        ground (arith, h, sign) in
      rw (sign, mapper) refl
  | inr other ↦ rw other refl
]

-- The return value, for every image: -1 as `2 ^ 32 - 1` for a wrong signature or a mapper other than 0
-- and 3; otherwise 0 if there is room for the character pages, and a failed assertion if there is not.
pub return_value-fce_load_rom :
    (rom : Array) (s : Nes)
    → return_value (fce_load_rom rom s) ≡ (
        if is_supported rom
        then (if has_room s.mmc.number (rom 5) then some 0 else none)
        else some 0xffff_ffff)
unfolding finished
return_value-fce_load_rom rom s = elim (Bool-cases (is_supported rom)) [
  | inl yes_supported ↦
      let same = prepared-number rom s in
      let buf = 16 + rom 4 * 0x4000 in
      ap return_value (accepted rom s yes_supported)
      ∙ rw yes_supported (elim (Bool-cases (has_room s.mmc.number (rom 5))) [
        | inl room ↦
            let (t, runs, memory, page) =
              pages_loaded (rom 5) rom buf (prepared rom s) (ground (arith, same)) in
            ap (λ o. return_value (finished o)) runs ∙ rw room refl
        | inr full ↦
            ap (λ o. return_value (finished o))
              (pages_full (rom 5) 0 rom buf (prepared rom s) (ground (arith, same)))
            ∙ rw full refl
      ])
  | inr unsupported ↦ rejected rom s unsupported ∙ rw unsupported refl
]

-- An image with the signature and with mapper 0 or 3, with room for its character pages, is loaded:
-- the 32 KiB from 0x8000 on hold its program, a single block of 16 KiB twice, and if it has one
-- character page, the first 8 KiB of the picture unit's memory hold that.
pub fce_load_rom_lem :
    (rom : Array) (s : Nes)
    → is_supported rom ≡ true
    → has_room s.mmc.number (rom 5) ≡ true
    → (t : Nes) × (fce_load_rom rom s ≡ some (0, t))
      × ((i : ℕ)
          → i < 0x8000
          → t.mmc.memory (0x8000 + i) ≡ rom (16 + (if rom 4 == 1 then i % 0x4000 else i)))
      × ((i : ℕ) → rom 5 ≡ 1 → i < 0x2000 → t.ppu.ram i ≡ rom (16 + rom 4 * 0x4000 + i))
unfolding finished
fce_load_rom_lem rom s h room =
    let same = prepared-number rom s in
    let (t, runs, memory, page) =
      pages_loaded (rom 5) rom (16 + rom 4 * 0x4000) (prepared rom s) (ground (arith, same)) in
    (
      t,
      accepted rom s h ∙ ap finished runs,
      λ i k. ap (λ (m : Array). m (0x8000 + i)) memory ∙ prepared-memory rom s i k,
      page,
    )
