-- ===== src/LiteNes/Psg.antt =====
-- apps/litenes/src/psg.c: the first joystick, read bit by bit through port 0x4016. Key codes are
-- those of am/amdev.h.
pub mod Laws
use wukong_am.Base.{ℕ, ◌+◌, List, [], ◌∷◌, ◌&&◌, ◌==◌, int_lt, if◌then◌else◌}
use wukong_am.Base.{bit_and, truthy, of_bool, u8, u32}
use wukong_am.Base.Bytes.{Array, write}

-- The static variables `p` and `key_state`, and `prev_write` of `psg_io_write`.
pub record Psg : Type 0 where
  pub p : ℕ
  pub key_state : Array
  pub prev_write : ℕ

-- The table `MAP`: the key behind each button.
unfoldable pub map : ℕ → ℕ
map n =
    if n == 1
    then 49
    else if n == 2
    then 50
    else if n == 3
    then 35
    else if n == 4
    then 36
    else if n == 5
    then 30
    else if n == 6
    then 44
    else if n == 7
    then 43
    else if n == 8
    then 45
    else if n == 9
    then 255
    else 0

-- `p` is an `int`, held as its 32-bit pattern. A negative index of `MAP`, which only the overflow of `p`
-- leads to, is taken as one that has no key.
pub psg_io_read : Psg → ℕ → ℕ × Psg
psg_io_read s address =
    if address == 0x4016
    then (
      (if int_lt s.p 9 then u8 (s.key_state (map (u32 (s.p + 1)))) else 0),
      record s { p = u32 (s.p + 1) },
    )
    else (0, s)

pub psg_io_write : Psg → ℕ → ℕ → Psg
psg_io_write s address value =
    let strobe = (address == 0x4016) && (bit_and value 1 == 0) && (s.prev_write == 1) in
    record s { p = if strobe then 0 else s.p; prev_write = bit_and value 1 }

-- The loop of `psg_detect_key`, over what `read_key` returns until it returns `_KEY_NONE`.
pub psg_detect_key : Psg → List ℕ → Psg
psg_detect_key s [] = s
psg_detect_key s (key ∷ keys) =
    let down = of_bool (truthy (bit_and key 0x8000)) in
    let code = bit_and key 0xffff7fff in
    psg_detect_key (record s { key_state = write s.key_state code down }) keys

pub psg_init : Psg → Psg
psg_init s = record s { key_state = write s.key_state 0 1 }
