-- ===== src/Text.antt =====
-- C strings as lists of bytes, and what the sources use of the C library on them: `strlen` over
-- NUL-terminated bytes, and the conversions `%u`, `%d` and `%04x` of `snprintf`.
pub mod Decimal
pub mod Strings
use Prim.Native.Char.{code}
use Prim.Native.String.{String}
use libgitledger.Prelude.{
  ℕ, zero, suc, ◌+◌, ◌/◌, ◌%◌, ◌^◌, ◌-◌, ◌<◌, ◌≡◌, ◌≢◌, List, [], ◌∷◌, ltb, ◌==◌, if◌then◌else◌,
  min, length, take, drop, ◌++◌,
}

abbrev pub Bytes : Type 0
Bytes = List ℕ

-- The bytes of an ASCII literal, its NUL left off.
abbrev pub codes : String → Bytes
codes String.[] = []
codes (String.◌∷◌ c s) = code c ∷ codes s

-- What a C function reads through a `const char*`: the bytes before the first NUL.
unfoldable pub c_string : Bytes → Bytes
c_string [] = []
c_string (c ∷ s) = let rest = c_string s in if c == 0 then [] else c ∷ rest

module _ {ℓ κ} {A : Type ℓ} (P : A → Type κ) where
  abbrev pub All : List A → Type κ
  All [] = Unit
  All (x ∷ xs) = P x × All xs

-- A text with no NUL inside.
abbrev pub IsText : Bytes → Type 0
IsText = All (λ c. c ≢ 0)

-- The array `buf` after text has been written to it with room for `n` bytes, by the rules of
-- `snprintf`: the first `n - 1` bytes of the text at most, a NUL, and the old bytes behind it.
unfoldable pub snprintf_result : Bytes → Bytes → ℕ → Bytes
snprintf_result text buf n =
    let k = min (length text) (n - 1) in take k text ++ (0 ∷ drop (suc k) buf)

-- `%u`: the digits of `n` in front of `out`, one round for each; `n + 1` rounds are enough.
unfoldable pub decimal_digits : ℕ → ℕ → Bytes → Bytes
decimal_digits zero n out = out
decimal_digits (suc k) n out =
    let rest = decimal_digits k (n / 10) ((b'0' + n % 10) ∷ out) in
    if n / 10 == 0 then (b'0' + n % 10) ∷ out else rest

unfoldable pub decimal : ℕ → Bytes
unfolding decimal_digits
decimal n = decimal_digits (n + 1) n []

-- An `int` is its magnitude and its sign.
pub data CInt : Type 0 where
  pos : ℕ → CInt
  negsuc : ℕ → CInt

-- `%d`.
unfoldable pub signed_decimal : CInt → Bytes
unfolding decimal
signed_decimal (pos n) = decimal n
signed_decimal (negsuc n) = b'-' ∷ decimal (n + 1)

-- `%x` of one digit, and `%04x` of a byte.
unfoldable pub hex_digit : ℕ → ℕ
hex_digit d = if ltb d 10 then b'0' + d else b'a' + (d - 10)

unfoldable pub hex4 : ℕ → Bytes
hex4 c =
    hex_digit (c / 4096 % 16)
    ∷ hex_digit (c / 256 % 16)
    ∷ hex_digit (c / 16 % 16)
    ∷ hex_digit (c % 16)
    ∷ []
