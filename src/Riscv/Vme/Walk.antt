-- ===== src/Riscv/Vme/Walk.antt =====
-- The translation of an address by the hardware.
use wukong_am.Base.{ℕ, zero, suc, ◌+◌, ◌*◌, ◌%◌, ◌^◌, ◌<◌, ◌≡◌, refl, true, false, if◌then◌else◌}
use wukong_am.Base.{Option, none, some}
use wukong_am.Base.Bytes.{Array}
use wukong_am.Riscv.Vme.{pte_addr, vpn_i, is_valid}
use wukong_am.Riscv.Vme.Entry.{is_leaf, link, link_lem}

-- The walk of the privileged architecture from `level` on, with the table of that level at `base`:
-- the leaf entry and its level, or a page fault.
pub walk : ℕ → ℕ → ℕ → Array → Option (ℕ × ℕ)
walk zero base va m =
    let pte = m (base + 8 * vpn_i va 0) in
    if is_valid pte then (if is_leaf pte then some (pte, 0) else none) else none
walk (suc level) base va m =
    let pte = m (base + 8 * vpn_i va (suc level)) in
    let rest = walk level (pte_addr pte) va m in
    if is_valid pte then (if is_leaf pte then some (pte, suc level) else rest) else none

abbrev pub or_else : Option (ℕ × ℕ) → ℕ × ℕ → Option (ℕ × ℕ)
or_else none e = some e
or_else (some d) e = some d

pub walk-invalid :
    (level base va : ℕ) (m : Array)
    → is_valid (m (base + 8 * vpn_i va level)) ≡ false
    → walk level base va m ≡ none
unfolding walk
walk-invalid zero base va m h = rw h refl
walk-invalid (suc level) base va m h = rw h refl

pub walk-link :
    (level base va page : ℕ) (m : Array)
    → m (base + 8 * vpn_i va (suc level)) ≡ link page
    → page % 4096 ≡ 0
    → page < 2 ^ 56
    → walk (suc level) base va m ≡ walk level page va m
unfolding walk
walk-link level base va page m h a k = let l = link_lem page a k in rw (h, l.1, l.2, l.3) refl

-- The leaf of the last level.
pub walk-leaf :
    (base va : ℕ) (m : Array)
    → is_valid (m (base + 8 * vpn_i va 0)) ≡ true
    → is_leaf (m (base + 8 * vpn_i va 0)) ≡ true
    → walk 0 base va m ≡ some (m (base + 8 * vpn_i va 0), 0)
unfolding walk
walk-leaf base va m h k = rw (h, k) refl

pub walk-cell :
    (base va : ℕ) (m n : Array)
    → m (base + 8 * vpn_i va 0) ≡ n (base + 8 * vpn_i va 0)
    → walk 0 base va m ≡ walk 0 base va n
unfolding walk
walk-cell base va m n h = rw h refl
