-- ===== src/Text/Decimal.antt =====
-- Decimal prints: the digits spell the number, and how many there are.
use libgitledger.Prelude.{
  ℕ, zero, suc, ◌+◌, ◌-◌, ◌*◌, ◌/◌, ◌%◌, ◌^◌, ◌≤◌, ◌<◌, ◌≡◌, [], ◌∷◌, inl, inr, arith, ◌==◌,
  if◌then◌else◌, Bool-cases, length,
}
use libgitledger.Text.{Bytes, All, decimal_digits, decimal}

abbrev pub IsDigit : ℕ → Type 0
IsDigit c = (b'0' ≤ c) × (c ≤ b'9')

-- The number that a text of digits spells behind `acc`.
unfoldable pub value : ℕ → Bytes → ℕ
value acc [] = acc
value acc (c ∷ s) = value (acc * 10 + (c - b'0')) s

-- More rounds than the number's value change nothing.
pub decimal_digits_fuel :
    (f g n : ℕ) (out : Bytes) → n < f → n < g → decimal_digits f n out ≡ decimal_digits g n out
unfolding decimal_digits
decimal_digits_fuel zero g n out h k = absurd (omega arith)
decimal_digits_fuel (suc f) zero n out h k = absurd (omega arith)
decimal_digits_fuel (suc f) (suc g) n out h k = elim (Bool-cases (n / 10 == 0)) [
  | inl e ↦ rw e
  | inr e ↦ rw e (decimal_digits_fuel f g (n / 10) _ (ground arith) (ground arith))
]

-- One round of the print.
pub decimal_digits_step :
    (n : ℕ) (out : Bytes)
    → decimal_digits (n + 1) n out ≡ (
        if n / 10 == 0
        then (b'0' + n % 10) ∷ out
        else decimal_digits (n / 10 + 1) (n / 10) ((b'0' + n % 10) ∷ out))
unfolding decimal_digits
decimal_digits_step n out =
    let e : n + 1 ≡ suc n = omega arith in
    rw e (elim (Bool-cases (n / 10 == 0)) [
      | inl z ↦ rw z
      | inr z ↦ rw z (decimal_digits_fuel n (n / 10 + 1) (n / 10) _ (ground arith) (omega arith))
    ])

pub value-decimal_digits :
    (f n : ℕ) (out : Bytes) → n < f → value 0 (decimal_digits f n out) ≡ value n out
unfolding decimal_digits value
value-decimal_digits zero n out h = absurd (omega arith)
value-decimal_digits (suc f) n out h =
    ground (arith, value-decimal_digits f (n / 10) ((b'0' + n % 10) ∷ out))

pub decimal_digits-IsDigit :
    (f n : ℕ) (out : Bytes) → All IsDigit out → All IsDigit (decimal_digits f n out)
unfolding decimal_digits
decimal_digits-IsDigit zero n out h = h
decimal_digits-IsDigit (suc f) n out h = elim (Bool-cases (n / 10 == 0)) [
  | inl e ↦ rw e ((omega arith, omega arith), h)
  | inr e ↦ rw e (decimal_digits-IsDigit f (n / 10) _ ((omega arith, omega arith), h))
]

-- A decimal print has digits only, and spells the number.
pub value-decimal : (n : ℕ) → (value 0 (decimal n) ≡ n) × All IsDigit (decimal n)
unfolding decimal value
value-decimal n =
    (value-decimal_digits (n + 1) n [] (omega arith), decimal_digits-IsDigit (n + 1) n [] tt)

-- A number of at most `k` digits is printed in at most `k`.
pub length-decimal_digits :
    (k f n : ℕ) (out : Bytes)
    → n < 10 ^ suc k
    → n < f
    → length (decimal_digits f n out) ≤ length out + suc k
unfolding decimal_digits
length-decimal_digits k zero n out h g = absurd (omega arith)
length-decimal_digits zero (suc f) n out h g = ground arith
length-decimal_digits (suc k) (suc f) n out h g =
    ground (arith, length-decimal_digits k f (n / 10) ((b'0' + n % 10) ∷ out))
