-- ===== src/Grading/Rounding.antt =====
-- Python's `round`, to the nearest and to the even one of two that are equally near, on exact
-- quotients.
use native.Mathlib.Nat.{div-add-mod, mod-lt}
use study_sys.Prelude.{
  zero, inl, inr, ◌⊎◌, ℕ, suc, ◌+◌, ◌*◌, ◌/◌, ◌%◌, ◌≤◌, ◌<◌, ◌≡◌, refl, ◌||◌, ◌&&◌, ltb, ◌==◌,
  if◌then◌else◌, arith,
}

-- a / b to the nearest integer
unfoldable pub round_div : ℕ → ℕ → ℕ
round_div a b =
    let q = a / b in let r = a % b in if ltb b (2 * r) || 2 * r == b && q % 2 == 1 then q + 1 else q

-- `round(x, 1)` on thousandths
unfoldable pub round_tenth : ℕ → ℕ
round_tenth x = 100 * round_div x 100

-- With a = q * b + r and r below b, from a ≤ n * b it follows that q < n, or q = n and r = 0.
quotient_cases : (q n b r : ℕ) → r < b → b * q + r ≤ b * n → (q < n) ⊎ ((q ≡ n) × (r ≡ 0))
quotient_cases zero zero b r h le = inr (refl, omega arith)
quotient_cases zero (suc n) b r h le = inl (omega arith)
quotient_cases (suc q) zero b r h le = absurd (omega arith)
quotient_cases (suc q) (suc n) b r h le = ground (arith, quotient_cases q n b r h (omega arith))

-- Rounding stays below any whole number that the quotient does not exceed.
pub round_div_le : (a b n : ℕ) → 0 < b → a ≤ b * n → round_div a b ≤ n
unfolding round_div
round_div_le a b n h le =
    ground (arith, div-add-mod a b, mod-lt a h, quotient_cases (a / b) n b (a % b))

quotient_mono :
    (q p b r t : ℕ) → r < b → t < b → b * q + r ≤ b * p + t → (q < p) ⊎ ((q ≡ p) × (r ≤ t))
quotient_mono zero zero b r t h g le = inr (refl, omega arith)
quotient_mono zero (suc p) b r t h g le = inl (omega arith)
quotient_mono (suc q) zero b r t h g le = absurd (omega arith)
quotient_mono (suc q) (suc p) b r t h g le =
    ground (arith, quotient_mono q p b r t h g (omega arith))

pub round_div_mono : (a c b : ℕ) → 0 < b → a ≤ c → round_div a b ≤ round_div c b
unfolding round_div
round_div_mono a c b h le = ground (
  arith,
  div-add-mod a b,
  div-add-mod c b,
  mod-lt a h,
  mod-lt c h,
  quotient_mono (a / b) (c / b) b (a % b) (c % b),
)

pub round_tenth_mono : (a b : ℕ) → a ≤ b → round_tenth a ≤ round_tenth b
unfolding round_tenth
round_tenth_mono a b h = ground (arith, round_div_mono a b 100)
