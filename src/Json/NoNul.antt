-- ===== src/Json/NoNul.antt =====
-- The JSON text holds no NUL, so that a C string of it is read whole.
use libgitledger.Prelude.{
  ℕ, zero, suc, ◌+◌, ◌-◌, ◌/◌, ◌%◌, ◌≢◌, Bool, true, false, Option, none, some, List, [], ◌∷◌, ◌++◌,
  arith, length,
}
use libgitledger.Text.{
  Bytes, codes, c_string, All, IsText, CInt, pos, negsuc, decimal, signed_decimal, hex4, hex_digit,
}
use libgitledger.Text.Decimal.{IsDigit, value-decimal}
use libgitledger.Text.Strings.{c_string-IsText, IsText-append}
use libgitledger.ErrorCode.{
  has_flag, flag_retryable, flag_permanent, flag_auth, domain_to_string, code_to_string,
}
use libgitledger.Memory.{ErrorObject, Env, Memory}
use libgitledger.Json.{escape_byte}
use libgitledger.Json.Escape.{escape_text}
use libgitledger.Json.Fields.{
  fields_text, flags_array_text, flag_item, string_text, file_text, func_text,
  domain_to_string-IsText, code_to_string-IsText,
}
use libgitledger.Json.Render.Chain.{View, chain_text}
use libgitledger.Json.Render.Depth.{json_text, capacity_for}

digits-IsText : (s : Bytes) → All IsDigit s → IsText s
digits-IsText [] h = tt
digits-IsText (c ∷ s) (d, h) = (omega arith, digits-IsText s h)

signed_decimal-IsText : (i : CInt) → IsText (signed_decimal i)
unfolding signed_decimal
signed_decimal-IsText (pos n) = digits-IsText (decimal n) (value-decimal n).1
signed_decimal-IsText (negsuc n) =
    (omega arith, digits-IsText (decimal (n + 1)) (value-decimal (n + 1)).1)

hex_digit-ne-zero : (d : ℕ) → hex_digit d ≢ 0
unfolding hex_digit
hex_digit-ne-zero d = ground arith

hex4-IsText : (c : ℕ) → IsText (hex4 c)
unfolding hex4
hex4-IsText c = (
  hex_digit-ne-zero (c / 4096 % 16),
  (
    hex_digit-ne-zero (c / 256 % 16),
    (hex_digit-ne-zero (c / 16 % 16), (hex_digit-ne-zero (c % 16), tt)),
  ),
)

escape_byte-IsText : (c : ℕ) → c ≢ 0 → IsText (escape_byte c)
unfolding escape_byte
escape_byte-IsText c h = ground (arith, hex4-IsText c)

escape_text-IsText : (t : Bytes) → IsText t → IsText (escape_text t)
unfolding escape_text
escape_text-IsText [] h = tt
escape_text-IsText (c ∷ t) (z, h) =
    IsText-append (escape_byte c) (escape_text t) (escape_byte-IsText c z) (escape_text-IsText t h)

string_text-IsText : (t : Option Bytes) → IsText (string_text t)
unfolding string_text
string_text-IsText none = tt
string_text-IsText (some t) = escape_text-IsText (c_string t) (c_string-IsText t)

flag_items-IsText :
    (r p a : Bool)
    → IsText (
        (flag_item a (codes "\"AUTH\"") (
          flag_item p
            (codes "\"PERMANENT\"")
            (flag_item r (codes "\"RETRYABLE\"") (b'[' ∷ [], true)))).0
        ++ (b']' ∷ []))
unfolding flag_item
flag_items-IsText true true true = omega arith
flag_items-IsText true true false = omega arith
flag_items-IsText true false true = omega arith
flag_items-IsText true false false = omega arith
flag_items-IsText false true true = omega arith
flag_items-IsText false true false = omega arith
flag_items-IsText false false true = omega arith
flag_items-IsText false false false = omega arith

flags_array_text-IsText : (flags : ℕ) → IsText (flags_array_text flags)
unfolding flags_array_text
flags_array_text-IsText flags =
    flag_items-IsText (has_flag flags flag_retryable) (has_flag flags flag_permanent)
      (has_flag flags flag_auth)

quoted-IsText : (t : Option Bytes) → IsText (string_text t ++ (b'"' ∷ []))
quoted-IsText t = IsText-append (string_text t) (b'"' ∷ []) (string_text-IsText t) (omega arith)

func_text-IsText : (name : Option Bytes) → IsText (func_text name)
unfolding func_text
func_text-IsText none = tt
func_text-IsText (some name) =
    IsText-append (codes ",\"func\":\"") (string_text (some name) ++ (b'"' ∷ [])) (omega arith)
      (quoted-IsText (some name))

file_text-IsText : (name : Option Bytes) (line : CInt) → IsText (file_text name line)
unfolding file_text
file_text-IsText none line = tt
file_text-IsText (some name) line =
    let quoted = string_text (some name) ++ (b'"' ∷ []) in
    let prefix = codes ",\"file\":\"" in
    IsText-append ((prefix ++ quoted) ++ codes ",\"line\":") (signed_decimal line)
      (IsText-append (prefix ++ quoted) (codes ",\"line\":")
        (IsText-append prefix quoted (omega arith) (quoted-IsText (some name))) (omega arith))
      (signed_decimal-IsText line)

fields_text-IsText : (e : ErrorObject) (message : Option Bytes) → IsText (fields_text e message)
unfolding fields_text
fields_text-IsText e message =
    let place = file_text e.file e.line ++ func_text e.func in
    let quoted = string_text message ++ (b'"' ∷ []) in
    let at_message = codes ",\"message\":\"" ++ quoted in
    let at_flags = flags_array_text e.flags ++ (at_message ++ place) in
    let at_code = code_to_string e.code ++ ((b'"' ∷ []) ++ (codes ",\"flags\":" ++ at_flags)) in
    let flags_clean : IsText at_flags =
      IsText-append (flags_array_text e.flags) (at_message ++ place)
        (flags_array_text-IsText e.flags)
        (IsText-append at_message place
          (IsText-append (codes ",\"message\":\"") quoted (omega arith) (quoted-IsText message))
          (IsText-append (file_text e.file e.line) (func_text e.func)
            (file_text-IsText e.file e.line) (func_text-IsText e.func))) in
    let code_clean : IsText at_code =
      IsText-append (code_to_string e.code) ((b'"' ∷ []) ++ (codes ",\"flags\":" ++ at_flags))
        (code_to_string-IsText e.code)
        (IsText-append (codes "\",\"flags\":") at_flags (omega arith) flags_clean) in
    IsText-append (codes "\"domain\":\"") _ (omega arith) (
      IsText-append (domain_to_string e.domain) ((b'"' ∷ []) ++ (codes ",\"code\":\"" ++ at_code))
        (domain_to_string-IsText e.domain)
        (IsText-append (codes "\",\"code\":\"") at_code (omega arith) code_clean))

braced-IsText :
    (e : ErrorObject) (message : Option Bytes) (s : Bytes)
    → IsText s
    → IsText ((b'{' ∷ []) ++ (fields_text e message ++ s))
braced-IsText e message s h =
    (omega arith, IsText-append (fields_text e message) s (fields_text-IsText e message) h)

chain_text-IsText : (left : ℕ) (vs : List View) → IsText (chain_text left vs)
unfolding chain_text
chain_text-IsText zero [] = tt
chain_text-IsText (suc left) [] = tt
chain_text-IsText zero (v ∷ []) = braced-IsText v.object v.message (b'}' ∷ []) (omega arith)
chain_text-IsText (suc left) (v ∷ []) = braced-IsText v.object v.message (b'}' ∷ []) (omega arith)
chain_text-IsText zero (v ∷ w ∷ vs) =
    braced-IsText v.object v.message (codes ",\"cause\":{\"truncated\":true}" ++ (b'}' ∷ []))
      (omega arith)
chain_text-IsText (suc left) (v ∷ w ∷ vs) =
    let inner = chain_text left (w ∷ vs) in
    braced-IsText v.object v.message (codes ",\"cause\":" ++ (inner ++ (b'}' ∷ []))) (
      IsText-append (codes ",\"cause\":") (inner ++ (b'}' ∷ [])) (omega arith)
        (IsText-append inner (b'}' ∷ []) (chain_text-IsText left (w ∷ vs)) (omega arith)))

pub json_text-IsText :
    (env : Env) (m : Memory) (v : View) (vs : List View) → IsText (json_text env m v vs)
unfolding json_text
json_text-IsText env m v vs = chain_text-IsText (capacity_for env m (suc (length vs)) - 1) (v ∷ vs)
