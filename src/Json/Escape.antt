-- ===== src/Json/Escape.antt =====
-- `gl_json_escape` and the reader of JSON strings.
use libgitledger.Prelude.{
  ℕ, zero, suc, length, true, false, ◌+◌, ◌*◌, ◌/◌, ◌%◌, ◌<◌, ◌≤◌, ◌≡◌, refl, ap, ◌∙◌, Option, some,
  [], ◌∷◌, ◌++◌, append_assoc, arith, ltb, ◌==◌, Bool-cases, inl, inr,
}
use libgitledger.Text.{Bytes, c_string, hex4, hex_digit}
use libgitledger.Buffer.{Buf, size_max}
use libgitledger.Buffer.Contents.{Represents}
use libgitledger.Json.{escape_byte, escape_loop, json_escape}
use libgitledger.Json.Writer.{Writes, append-Writes, nothing-Writes, then-Writes}
use libgitledger.Json.Reader.{plain, escaped, hex, hex_value, short_escape, push, read_body}

unfoldable pub escape_text : Bytes → Bytes
escape_text [] = []
escape_text (c ∷ text) = escape_byte c ++ escape_text text

pub escape_loop-Writes : (text : Bytes) → Writes (λ buf. escape_loop buf text) (escape_text text)
unfolding escape_loop escape_text
escape_loop-Writes [] = nothing-Writes
escape_loop-Writes (c ∷ text) =
    then-Writes (escape_byte c) (escape_text text) (append-Writes (escape_byte c))
      (escape_loop-Writes text)

hex_value-hex_digit : (d : ℕ) → d < 16 → hex_value (hex_digit d) ≡ some d
unfolding hex_value hex_digit
hex_value-hex_digit d h = ground arith

read_hex_more :
    (n acc d v : ℕ) (s : Bytes)
    → hex_value d ≡ some v
    → read_body (hex (suc n) acc) (d ∷ s) ≡ read_body (hex n (acc * 16 + v)) s
unfolding read_body
read_hex_more n acc d v s e = rw (e, read_body)

read_hex_last :
    (acc d v : ℕ) (s : Bytes)
    → hex_value d ≡ some v
    → read_body (hex zero acc) (d ∷ s) ≡ push (acc * 16 + v) (read_body plain s)
unfolding read_body
read_hex_last acc d v s e = rw (e, read_body)

read_body-hex4 :
    (c : ℕ) (rest : Bytes)
    → c < 65536
    → read_body (hex 3 0) (hex4 c ++ rest) ≡ push c (read_body plain rest)
unfolding hex4
read_body-hex4 c rest h =
    read_hex_more 2 0 _ _ _ (hex_value-hex_digit (c / 4096 % 16) (omega arith))
    ∙ read_hex_more 1 _ _ _ _ (hex_value-hex_digit (c / 256 % 16) (omega arith))
    ∙ read_hex_more 0 _ _ _ _ (hex_value-hex_digit (c / 16 % 16) (omega arith))
    ∙ read_hex_last _ _ _ _ (hex_value-hex_digit (c % 16) (omega arith))
    ∙ ap (λ k. push k (read_body plain rest)) (omega arith)

read_escape_u :
    (c : ℕ) (rest : Bytes)
    → c < 65536
    → read_body plain (b'\\' ∷ b'u' ∷ (hex4 c ++ rest)) ≡ push c (read_body plain rest)
unfolding read_body short_escape
read_escape_u c rest h = read_body-hex4 c rest h

read_escaped :
    (e v : ℕ) (rest : Bytes)
    → short_escape e ≡ some v
    → read_body escaped (e ∷ rest) ≡ push v (read_body plain rest)
unfolding read_body
read_escaped e v rest f = rw (f, read_body)

read_short :
    (c e v : ℕ) (rest : Bytes)
    → short_escape e ≡ some v
    → (c == v) ≡ true
    → read_body plain (b'\\' ∷ e ∷ rest) ≡ push c (read_body plain rest)
unfolding read_body
read_short c e v rest f g = let same : c ≡ v = ground arith in rw same (read_escaped e v rest f)

read_plain :
    (c : ℕ) (rest : Bytes)
    → (c == b'"') ≡ false
    → (c == b'\\') ≡ false
    → ltb c 32 ≡ false
    → read_body plain (c ∷ rest) ≡ push c (read_body plain rest)
unfolding read_body
read_plain c rest q b p = rw (q, b, p)

-- Each escaped byte is read back as itself.
read_body-escape_byte :
    (c : ℕ) (rest : Bytes) → read_body plain (escape_byte c ++ rest) ≡ push c (read_body plain rest)
unfolding escape_byte short_escape
read_body-escape_byte c rest = elim (Bool-cases (c == b'\\')) [
  | inl e ↦ rw e (read_short c b'\\' b'\\' rest refl e)
  | inr back ↦ rw back (elim (Bool-cases (c == b'"')) [
    | inl e ↦ rw e (read_short c b'"' b'"' rest refl e)
    | inr quote ↦ rw quote (elim (Bool-cases (c == 8)) [
      | inl e ↦ rw e (read_short c b'b' 8 rest refl e)
      | inr e8 ↦ rw e8 (elim (Bool-cases (c == 12)) [
        | inl e ↦ rw e (read_short c b'f' 12 rest refl e)
        | inr e12 ↦ rw e12 (elim (Bool-cases (c == 10)) [
          | inl e ↦ rw e (read_short c b'n' 10 rest refl e)
          | inr e10 ↦ rw e10 (elim (Bool-cases (c == 13)) [
            | inl e ↦ rw e (read_short c b'r' 13 rest refl e)
            | inr e13 ↦ rw e13 (elim (Bool-cases (c == 9)) [
              | inl e ↦ rw e (read_short c b't' 9 rest refl e)
              | inr e9 ↦ rw e9 (elim (Bool-cases (ltb c 32)) [
                | inl e ↦ rw e (read_escape_u c rest (ground arith))
                | inr e ↦ rw e (read_plain c rest quote back e)
              ])
            ])
          ])
        ])
      ])
    ])
  ])
]

-- Escaping any text and closing it with a quote gives a JSON string: a reader takes it whole, stops
-- at that quote, and returns the text.
pub read_body-escape_text :
    (text rest : Bytes) → read_body plain (escape_text text ++ (b'"' ∷ rest)) ≡ some (text, rest)
unfolding escape_text read_body
read_body-escape_text [] rest = refl
read_body-escape_text (c ∷ text) rest =
    rw (append_assoc, read_body-escape_byte, read_body-escape_text text rest)

-- Where a builder represents a text, and the escaped C string can be counted on top of it,
-- escaping the C string appends a text that, closed with a quote, a reader of JSON strings takes
-- whole: it stops at that quote, and returns the bytes of the C string.
pub json_escape-read_body :
    (storage : Option Bytes) (cap : ℕ) (front text : Bytes) (buf : Buf)
    → Represents storage cap front buf
    → length front + length (escape_text (c_string text)) ≤ size_max
    → (body : Bytes) × Represents storage cap (front ++ body) (json_escape buf (some text))
      × ((rest : Bytes) → read_body plain (body ++ (b'"' ∷ rest)) ≡ some (c_string text, rest))
unfolding json_escape
json_escape-read_body storage cap front text buf rep fits = (
  escape_text (c_string text),
  (escape_loop-Writes (c_string text)).run storage cap front buf rep fits,
  read_body-escape_text (c_string text),
)
