-- ===== src/Json/Reader.antt =====
-- A reader of JSON strings, after RFC 8259: what stands behind an opening quote, up to the closing
-- one. It is written without regard to the escapes that the library chooses.
use libgitledger.Prelude.{
  ℕ, zero, suc, ◌+◌, ◌-◌, ◌*◌, Option, none, some, [], ◌∷◌, ltb, leb, ◌==◌, ◌&&◌, if◌then◌else◌,
}
use libgitledger.Text.{Bytes}

-- Inside a string; behind a backslash; with `suc n` digits of a `\u` to come behind `acc`.
pub data Mode : Type 0 where
  plain escaped : Mode
  hex : ℕ → ℕ → Mode

unfoldable pub hex_value : ℕ → Option ℕ
hex_value c =
    if leb b'0' c && leb c b'9'
    then some (c - b'0')
    else if leb b'a' c && leb c b'f'
    then some (c - b'a' + 10)
    else if leb b'A' c && leb c b'F'
    then some (c - b'A' + 10)
    else none

unfoldable pub short_escape : ℕ → Option ℕ
short_escape c =
    if c == b'"'
    then some b'"'
    else if c == b'\\'
    then some b'\\'
    else if c == b'/'
    then some b'/'
    else if c == b'b'
    then some 8
    else if c == b'f'
    then some 12
    else if c == b'n'
    then some 10
    else if c == b'r'
    then some 13
    else if c == b't'
    then some 9
    else none

-- One more character of the string in front of a result.
abbrev pub push : ℕ → Option (Bytes × Bytes) → Option (Bytes × Bytes)
push c none = none
push c (some (text, rest)) = some (c ∷ text, rest)

-- The string, and what follows its closing quote. A `\u` escape gives its code as one character.
unfoldable pub read_body : Mode → Bytes → Option (Bytes × Bytes)
read_body plain [] = none
read_body plain (c ∷ s) =
    let on = read_body plain s in
    let escape = read_body escaped s in
    if c == b'"'
    then some ([], s)
    else if c == b'\\'
    then escape
    else if ltb c 32
    then none
    else push c on
read_body escaped [] = none
read_body escaped (c ∷ s) =
    let code = read_body (hex 3 0) s in
    elim (short_escape c) [
      | some v ↦ push v (read_body plain s)
      | none ↦ if c == b'u' then code else none
    ]
read_body (hex n acc) [] = none
read_body (hex zero acc) (c ∷ s) = elim (hex_value c) [
  | some v ↦ push (acc * 16 + v) (read_body plain s)
  | none ↦ none
]
read_body (hex (suc n) acc) (c ∷ s) = elim (hex_value c) [
  | some v ↦ read_body (hex n (acc * 16 + v)) s
  | none ↦ none
]
