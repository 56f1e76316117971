-- ===== src/Json/Decode/Numbers.antt =====
-- The reader of JSON values on printed integers.
use libgitledger.Prelude.{
  ℕ, zero, suc, ◌+◌, ◌-◌, ◌*◌, ◌/◌, ◌%◌, ◌≤◌, ◌<◌, ◌≡◌, ◌≢◌, refl, sym, ap, subst, ◌∙◌, true, false,
  some, [], ◌∷◌, ◌++◌, arith, ◌==◌, Bool-cases, inl, inr,
}
use libgitledger.Text.{Bytes, All, CInt, pos, negsuc, decimal_digits, decimal, signed_decimal}
use libgitledger.Text.Decimal
use libgitledger.Text.Decimal.{IsDigit, value-decimal}
use libgitledger.Json.Values.{number, is_digit, read_digits, read_natural, read_number, value, read}
use libgitledger.Json.Decode.{Reads, Stops}

read_digits-append :
    (acc : ℕ) (ds rest : Bytes)
    → All IsDigit ds
    → Stops rest
    → read_digits acc (ds ++ rest) ≡ (Decimal.value acc ds, rest)
unfolding read_digits Decimal.value
read_digits-append acc [] [] d s = refl
read_digits-append acc [] (c ∷ rest) d s = rw s
read_digits-append acc (c ∷ ds) rest (d, e) s =
    let digit : is_digit c ≡ true = ground arith in
    rw digit (read_digits-append (acc * 10 + (c - b'0')) ds rest e s)

-- The first digit of a number that is not 0 is not 0.
decimal_digits-head :
    (f n : ℕ) (out : Bytes)
    → n < f
    → n ≢ 0
    → (c : ℕ) × (s : Bytes) × (decimal_digits f n out ≡ c ∷ s) × (b'0' < c) × (c ≤ b'9')
unfolding decimal_digits
decimal_digits-head zero n out h z = absurd (omega arith)
decimal_digits-head (suc f) n out h z = elim (Bool-cases (n / 10 == 0)) [
  | inl e ↦
      let first : decimal_digits (suc f) n out ≡ (b'0' + n % 10) ∷ out = rw e in
      (b'0' + n % 10, out, first, ground arith, omega arith)
  | inr e ↦
      let (c, s, d, lo, hi) =
        decimal_digits-head f (n / 10) ((b'0' + n % 10) ∷ out) (ground arith) (ground arith) in
      let later : decimal_digits (suc f) n out ≡ c ∷ s = rw e d in (c, s, later, lo, hi)
]

read_natural_head :
    (c : ℕ) (s rest : Bytes)
    → b'0' < c
    → c ≤ b'9'
    → All IsDigit (c ∷ s)
    → Stops rest
    → read_natural ((c ∷ s) ++ rest) ≡ some (Decimal.value 0 (c ∷ s), rest)
unfolding read_natural
read_natural_head c s rest lo hi d stop =
    let zero_not : (c == b'0') ≡ false = ground arith in
    let digit : is_digit c ≡ true = ground arith in
    rw zero_not (rw digit (rw (read_digits-append 0 (c ∷ s) rest d stop)))

read_natural-decimal :
    (n : ℕ) (rest : Bytes) → Stops rest → read_natural (decimal n ++ rest) ≡ some (n, rest)
unfolding read_natural decimal
read_natural-decimal zero rest stop = refl
read_natural-decimal (suc n) rest stop =
    let (c, s, e, lo, hi) =
      decimal_digits-head (suc n + 1) (suc n) [] (omega arith) (omega arith) in
    let (spelt, digits) = value-decimal (suc n) in
    subst (λ ds. read_natural (ds ++ rest) ≡ some (Decimal.value 0 ds, rest)) (sym e)
      (read_natural_head c s rest lo hi (subst (All IsDigit) e digits) stop)
    ∙ ap (λ v. some (v, rest)) spelt

decimal-head : (n : ℕ) → (c : ℕ) × (s : Bytes) × (decimal n ≡ c ∷ s) × (b'0' ≤ c) × (c ≤ b'9')
unfolding decimal
decimal-head zero = (b'0', [], refl, omega arith, omega arith)
decimal-head (suc n) =
    let (c, s, e, lo, hi) =
      decimal_digits-head (suc n + 1) (suc n) [] (omega arith) (omega arith) in
    (c, s, e, omega arith, hi)

number_run :
    (c : ℕ) (s rest : Bytes) (i : CInt)
    → b'-' ≤ c
    → c ≤ b'9'
    → read_number (c ∷ s) ≡ some (i, rest)
    → (fuel : ℕ) → 1 ≤ fuel
    → read value fuel (c ∷ s) ≡ some (number i, rest)
unfolding read
number_run c s rest i lo hi e zero h = absurd (omega arith)
number_run c s rest i lo hi e (suc fuel) h =
    let n1 : (c == b'"') ≡ false = ground arith in
    let n2 : (c == b'{') ≡ false = ground arith in
    let n3 : (c == b'[') ≡ false = ground arith in
    let n4 : (c == b't') ≡ false = ground arith in rw (n1, n2, n3, n4) (rw e)

read_number_digit :
    (c : ℕ) (s : Bytes) (n : ℕ) (rest : Bytes)
    → b'0' ≤ c
    → read_natural ((c ∷ s) ++ rest) ≡ some (n, rest)
    → read_number (c ∷ (s ++ rest)) ≡ some (pos n, rest)
unfolding read_number
read_number_digit c s n rest lo e =
    let no_sign : (c == b'-') ≡ false = ground arith in rw no_sign (rw e)

read_number_minus :
    (n : ℕ) (rest : Bytes)
    → Stops rest
    → read_number (b'-' ∷ (decimal (n + 1) ++ rest)) ≡ some (negsuc n, rest)
unfolding read_number
read_number_minus n rest stop =
    let one : n + 1 ≡ suc n = omega arith in rw one (rw (read_natural-decimal (suc n) rest stop))

positive-Reads :
    (n : ℕ) (rest : Bytes) → Stops rest → Reads value (decimal n ++ rest) (number (pos n)) rest 1
positive-Reads n rest stop =
    let (c, s, e, lo, hi) = decimal-head n in
    subst (λ ds. Reads value (ds ++ rest) (number (pos n)) rest 1) (sym e)
      record {
        run = number_run c (s ++ rest) rest (pos n) (omega arith) hi (
            read_number_digit c s n rest lo (
              subst (λ ds. read_natural (ds ++ rest) ≡ some (n, rest)) e
                (read_natural-decimal n rest stop)));
      }

-- An integer in front of a text that does not go on with a digit.
pub signed-Reads :
    (i : CInt) (rest : Bytes)
    → Stops rest
    → Reads value (signed_decimal i ++ rest) (number i) rest 1
unfolding signed_decimal
signed-Reads (pos n) rest stop = positive-Reads n rest stop
signed-Reads (negsuc n) rest stop = record {
  run =
      number_run b'-' (decimal (n + 1) ++ rest) rest (negsuc n) (omega arith) (omega arith)
        (read_number_minus n rest stop);
}
