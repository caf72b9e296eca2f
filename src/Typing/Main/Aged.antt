-- ===== src/Typing/Main/Aged.antt =====
-- How long a letter stays in the list, so that there are never many of them.
use wukong_am.Base.{
  ℕ, ◌+◌, ◌-◌, ◌*◌, ◌/◌, ◌<◌, ◌≤◌, ◌^◌, ◌≡◌, refl, ap, ◌∙◌, true, false, ◌||◌, ◌⊎◌, ◌==◌,
  if◌then◌else◌, arith,
}
use wukong_am.Base.{List, [], ◌∷◌, ◌++◌, Bool-cases, inl, inr, u32, int_lt}
use wukong_am.Typing.Linklist.Segment.{length}
use wukong_am.Typing.Game.{Letter, moved, is_off}
use wukong_am.Typing.Game.Fallen.{fallen}

-- A letter that falls by a point or flies back by three, on the screen and one of the 26.
pub record IsFair (l : Letter) : Type 0 where
  pub on_x : l.x + 8 ≤ 320
  pub on_y : l.y + 8 ≤ 200
  pub text : l.text < 26
  pub speed : (l.v ≡ 1) ⊎ (l.v ≡ 2 ^ 32 - 3)

-- A bound of the frames that the letter stays: it may fall to the bottom and be struck there.
abbrev pub life : Letter → ℕ
life l = if l.v == 1 then 258 - l.y else l.y / 3 + 1

-- Every letter is on the screen, and is older by ten frames than the one before it.
unfoldable pub Aged : ℕ → List Letter → Type 0
Aged age [] = Unit
Aged age (l ∷ ls) = IsFair l × (life l + age ≤ 258) × Aged (age + 10) ls

pub Aged-younger : (age age' : ℕ) (ls : List Letter) → Aged age ls → age' ≤ age → Aged age' ls
unfolding Aged
Aged-younger age age' [] h e = tt
Aged-younger age age' (l ∷ ls) (fair, young, rest) e =
    (fair, omega (arith, young, e), Aged-younger (age + 10) (age' + 10) ls rest (omega (arith, e)))

-- A letter stays for a frame at least.
life-positive : (l : Letter) → IsFair l → 0 < life l
life-positive l h = elim h.speed [
  | inl falls ↦ let y = h.on_y in ground (arith, falls)
  | inr flies ↦ let e : (l.v == 1) ≡ false = ground (arith, flies) in rw e (omega arith)
]

pub Aged-length :
    (age : ℕ) (ls : List Letter) → Aged age ls → age ≤ 267 → length ls * 10 + age ≤ 267
unfolding Aged length
Aged-length age [] h e = omega (arith, e)
Aged-length age (l ∷ ls) (fair, young, rest) e =
    let pos = life-positive l fair in
    let few = Aged-length (age + 10) ls rest (omega (arith, young, pos)) in omega (arith, few)

-- The places of a letter that falls and of one that flies.
falls_on :
    (y : ℕ)
    → y + 8 ≤ 200
    → (int_lt (u32 (y + 1)) 0 || int_lt 200 (u32 (u32 (y + 1) + 8))) ≡ false
    → (u32 (y + 1) ≡ y + 1) × (y + 9 ≤ 200)
falls_on y h on = (ground (arith, h), ground (arith, h, on))

flies_on :
    (y : ℕ)
    → y + 8 ≤ 200
    → (int_lt (u32 (y + (2 ^ 32 - 3))) 0 || int_lt 200 (u32 (u32 (y + (2 ^ 32 - 3)) + 8))) ≡ false
    → (u32 (y + (2 ^ 32 - 3)) ≡ y - 3) × (3 ≤ y)
flies_on y h on = (ground (arith, h, on), ground (arith, h, on))

pub life-falls : (l : Letter) → l.v ≡ 1 → life l ≡ 258 - l.y
life-falls l e = ground (arith, e)

life-flies : (l : Letter) → l.v ≡ 2 ^ 32 - 3 → life l ≡ l.y / 3 + 1
life-flies l e = ground (arith, e)

-- The move of a letter that stays on the screen.
moved-IsFair :
    (l : Letter)
    → IsFair l
    → is_off (moved l) ≡ false
    → IsFair (moved l) × (life (moved l) + 1 ≤ life l)
moved-IsFair l h on = elim h.speed [
  | inl falls ↦
      let (e, low) = falls_on l.y h.on_y (rw⁻¹ falls on) in
      let place : (moved l).y ≡ l.y + 1 = ap (λ v. u32 (l.y + v)) falls ∙ e in
      let before = life-falls l falls in
      let after = life-falls (moved l) falls in
      (
        record { on_x = h.on_x; on_y = omega (arith, place, low); text = h.text; speed = h.speed },
        omega (arith, place, before, after, low),
      )
  | inr flies ↦
      let (e, high) = flies_on l.y h.on_y (rw⁻¹ flies on) in
      let place : (moved l).y ≡ l.y - 3 = ap (λ v. u32 (l.y + v)) flies ∙ e in
      let before = life-flies l flies in
      let after = life-flies (moved l) flies in
      let y = h.on_y in
      (
        record { on_x = h.on_x; on_y = omega (arith, place, y); text = h.text; speed = h.speed },
        omega (arith, place, before, after, high),
      )
]

-- After a move every letter is older by a frame.
pub fallen-Aged : (age : ℕ) (ls : List Letter) → Aged age ls → Aged (age + 1) (fallen ls)
unfolding Aged fallen
fallen-Aged age [] h = tt
fallen-Aged age (l ∷ ls) (fair, young, rest) =
    let after = fallen-Aged (age + 10) ls rest in
    elim (Bool-cases (is_off (moved l))) [
      | inl off ↦ rw off (Aged-younger (age + 10 + 1) (age + 1) (fallen ls) after (omega arith))
      | inr on ↦
          let (fair', less) = moved-IsFair l fair on in
          rw on (
            fair',
            omega (arith, less, young),
            Aged-younger (age + 10 + 1) (age + 1 + 10) (fallen ls) after (omega arith),
          )
    ]

-- A letter that is struck flies back, and leaves before it would have left.
pub struck-Aged :
    (age : ℕ) (before behind : List Letter) (l : Letter)
    → Aged age (before ++ l ∷ behind)
    → int_lt 0 l.v ≡ true
    → Aged age (before ++ record l { v = 2 ^ 32 - 3 } ∷ behind)
unfolding Aged
struck-Aged age [] behind l (fair, young, rest) falling =
    let falls : l.v ≡ 1 = elim fair.speed [
      | inl falls ↦ falls
      | inr flies ↦ absurd (ground (arith, flies, falling))
    ] in
    let before = life-falls l falls in
    let y = fair.on_y in
    (
      record { on_x = fair.on_x; on_y = fair.on_y; text = fair.text; speed = inr refl },
      omega (arith, before, y, young),
      rest,
    )
struck-Aged age (b ∷ bs) behind l (fair, young, rest) falling =
    (fair, young, struck-Aged (age + 10) bs behind l rest falling)
