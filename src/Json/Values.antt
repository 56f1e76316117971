-- ===== src/Json/Values.antt =====
-- A reader of JSON values, after RFC 8259, for what the library writes: strings, integers, `true`,
-- arrays of strings, and objects. White space is not accepted.
use libgitledger.Prelude.{
  ℕ, zero, suc, ◌+◌, ◌-◌, ◌*◌, Bool, true, false, ◌&&◌, Option, none, some, List, [], ◌∷◌, leb,
  ◌==◌, if◌then◌else◌,
}
use libgitledger.Text.{Bytes, CInt, pos, negsuc}
use libgitledger.Json.Reader.{plain, read_body}

-- An object is a list of members, which ends with `no_members`.
pub data Value : Type 0 where
  text : Bytes → Value
  number : CInt → Value
  truth : Value
  texts : List Bytes → Value
  no_members : Value
  member : (key : Bytes) → Value → (others : Value) → Value

abbrev pub is_digit : ℕ → Bool
is_digit c = leb b'0' c && leb c b'9'

-- The number that the digits at the front spell behind `acc`, and what follows them.
unfoldable pub read_digits : ℕ → Bytes → ℕ × Bytes
read_digits acc [] = (acc, [])
read_digits acc (c ∷ s) =
    let more = read_digits (acc * 10 + (c - b'0')) s in if is_digit c then more else (acc, c ∷ s)

-- A number has no zero at its front, but for 0 itself.
unfoldable pub read_natural : Bytes → Option (ℕ × Bytes)
read_natural [] = none
read_natural (c ∷ s) =
    if c == b'0' then some (0, s) else if is_digit c then some (read_digits 0 (c ∷ s)) else none

abbrev pub negated : ℕ → CInt
negated zero = pos zero
negated (suc n) = negsuc n

unfoldable pub read_number : Bytes → Option (CInt × Bytes)
read_number [] = none
read_number (c ∷ s) =
    if c == b'-'
    then elim (read_natural s) [ none ↦ none | some (n, rest) ↦ some (negated n, rest) ]
    else elim (read_natural (c ∷ s)) [ none ↦ none | some (n, rest) ↦ some (pos n, rest) ]

-- A reader after a reader.
module _ {ℓ κ} {A : Type ℓ} {B : Type κ} where
  abbrev pub continue : Option (A × Bytes) → (A → Bytes → Option (B × Bytes)) → Option (B × Bytes)
  continue none k = none
  continue (some (a, s)) k = k a s

-- A reader behind the byte `c`.
abbrev pub behind {ℓ} : {A : Type ℓ} → ℕ → Bytes → (Bytes → Option (A × Bytes)) → Option (A × Bytes)
behind c [] k = none
behind c (d ∷ s) k = if d == c then k s else none

-- The strings of an array, from its first entry or behind an entry.
unfoldable pub read_texts : (fuel : ℕ) → (first : Bool) → Bytes → Option (List Bytes × Bytes)
read_texts zero first s = none
read_texts (suc fuel) first [] = none
read_texts (suc fuel) first (c ∷ s) =
    let entry = λ (s : Bytes). behind b'"' s (λ s.
      continue (read_body plain s)
        (λ t s. continue (read_texts fuel false s) (λ ts s. some (t ∷ ts, s)))) in
    if c == b']' then some ([], s) else if first then entry (c ∷ s) else behind b',' (c ∷ s) entry

-- Where a reader stands: at a value, behind an opening brace, behind a member, or at a key.
pub data Place : Type 0 where
  value first more key : Place

unfoldable pub read : Place → (fuel : ℕ) → Bytes → Option (Value × Bytes)
read _ zero s = none
read _ (suc fuel) [] = none
read value (suc fuel) (c ∷ s) =
    let members = read first fuel s in
    if c == b'"'
    then continue (read_body plain s) (λ t s. some (text t, s))
    else if c == b'{'
    then members
    else if c == b'['
    then continue (read_texts fuel true s) (λ ts s. some (texts ts, s))
    else if c == b't'
    then behind b'r' s (λ s. behind b'u' s (λ s. behind b'e' s (λ s. some (truth, s))))
    else continue (read_number (c ∷ s)) (λ n s. some (number n, s))
read first (suc fuel) (c ∷ s) =
    let members = read key fuel (c ∷ s) in if c == b'}' then some (no_members, s) else members
read more (suc fuel) (c ∷ s) =
    let members = read key fuel s in
    if c == b'}' then some (no_members, s) else if c == b',' then members else none
read key (suc fuel) (c ∷ s) = behind b'"' (c ∷ s) (λ s. continue (read_body plain s) (λ k s.
    behind b':' s (λ s.
      continue (read value fuel s)
        (λ v s. continue (read more fuel s) (λ ms s. some (member k v ms, s))))))
