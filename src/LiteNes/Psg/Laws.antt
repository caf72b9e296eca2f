-- ===== src/LiteNes/Psg/Laws.antt =====
-- The joystick port: what the reads after a strobe return.
use wukong_am.Base.Bits.{bit_and_mask}
use wukong_am.Base.{
  ℕ, zero, suc, ◌+◌, ◌%◌, ◌∙◌, ltb, if◌then◌else◌, refl, u8, u32, int_lt, ◌^◌, ◌≡◌, arith, ◌<◌,
}
use wukong_am.LiteNes.Psg.{Psg, map, psg_io_read, psg_io_write}

pub psg_io_read-lt : (s : Psg) (address : ℕ) → (psg_io_read s address).0 < 256
unfolding psg_io_read
psg_io_read-lt s address = ground arith

-- The state after `n` reads of port 0x4016.
abbrev pub after : ℕ → Psg → Psg
after zero s = s
after (suc n) s = after n (psg_io_read s 0x4016).1

after_lem :
    (n : ℕ) (s : Psg)
    → s.p + n < 2 ^ 31
    → ((after n s).p ≡ s.p + n) × ((after n s).key_state ≡ s.key_state)
unfolding psg_io_read
after_lem zero s few = (omega arith, refl)
after_lem (suc n) s few =
    let rest = after_lem n (psg_io_read s 0x4016).1 (omega (arith, few)) in
    (omega (arith, rest.0, few), rest.1)

-- The test and the index of the read after `i` ones.
nine :
    (i : ℕ)
    → i < 2 ^ 31
    → (f : ℕ → ℕ) → (if int_lt i 9 then f (u32 (i + 1)) else 0) ≡ (if ltb i 9 then f (i + 1) else 0)
nine i few f =
    let test : int_lt i 9 ≡ ltb i 9 = ground (arith, few) in
    let next : u32 (i + 1) ≡ i + 1 = omega (arith, few) in rw (test, next) refl

-- After an odd and then an even byte were written to port 0x4016, the reads of it return the states
-- of the nine keys of the table `MAP` one after the other, then 0, up to 2 ^ 31 reads.
pub psg_io_read-strobe :
    (s : Psg) (odd even i : ℕ)
    → odd % 2 ≡ 1
    → even % 2 ≡ 0
    → i < 2 ^ 31
    → (let t = psg_io_write (psg_io_write s 0x4016 odd) 0x4016 even in
        (psg_io_read (after i t) 0x4016).0
        ≡ (if ltb i 9 then u8 (s.key_state (map (i + 1))) else 0))
psg_io_read-strobe s odd even i h k few =
    let t = psg_io_write (psg_io_write s 0x4016 odd) 0x4016 even in
    let start : t.p ≡ 0 =
      unfold psg_io_write in ground (arith, bit_and_mask 1 odd, bit_and_mask 1 even) in
    let keys : t.key_state ≡ s.key_state = unfold psg_io_write in refl in
    let reads = after_lem i t (omega (arith, start, few)) in
    let p : (after i t).p ≡ i = omega (arith, reads.0) in
    let state : (after i t).key_state ≡ s.key_state = reads.1 ∙ keys in
    unfold psg_io_read in rw (p, state) (nine i few (λ n. u8 (s.key_state (map n))))
