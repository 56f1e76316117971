-- ===== src/Version.antt =====
-- src/version.c and libgitledger/core/domain/gitledger.c: the library's version, its rendering
-- into a caller's buffer with the rules of `snprintf`, and its encoding as a number.
-- A `char*` argument is `none` for NULL, or the bytes of the array that it points to.
pub mod Digits
pub mod Render
use libgitledger.Prelude.{
  ℕ, zero, suc, ◌+◌, ◌-◌, ◌*◌, ◌/◌, ◌%◌, Bool, true, false, Option, none, some, [], ◌∷◌, ◌++◌, ltb,
  leb, ◌==◌, if◌then◌else◌, length, get_or, set,
}
use libgitledger.Text.{Bytes}

pub record SemanticVersion : Type 0 where
  pub major : ℕ
  pub minor : ℕ
  pub patch : ℕ

abbrev pub version_value : SemanticVersion
version_value = record { major = 0; minor = 1; patch = 0 }

abbrev pub decimal_digit_cap : ℕ
decimal_digit_cap = 10

abbrev pub buffer_size : ℕ
buffer_size = 34

pub semantic_version : SemanticVersion
semantic_version = version_value

-- A `char*` that walks through an array: the bytes written before it, and the room behind it.
pub record Cursor : Type 0 where
  pub written : Bytes
  pub remaining : ℕ

-- `*cursor++ = c; --remaining;`
abbrev pub put : Cursor → ℕ → Cursor
put cur c = record { written = cur.written ++ (c ∷ []); remaining = cur.remaining - 1 }

-- The do loop over `digits`, whose last entry comes first here. `room` is `sizeof digits - idx`:
-- with no room left the function returns 0.
collect_digits : (room : ℕ) → ℕ → Bytes → Option Bytes
collect_digits zero n digits = none
collect_digits (suc room) n digits =
    let rest = collect_digits room (n / 10) ((b'0' + n % 10) ∷ digits) in
    if n / 10 == 0 then some ((b'0' + n % 10) ∷ digits) else rest

-- The loop `while (idx-- > 0)`, which writes the digits from the last entry to the first.
emit_digits : Bytes → Cursor → Cursor
emit_digits [] cur = cur
emit_digits (d ∷ digits) cur = emit_digits digits (put cur d)

pub write_decimal : ℕ → Cursor → Bool × Cursor
unfolding collect_digits emit_digits
write_decimal n cur = elim (collect_digits decimal_digit_cap n []) [
  | none ↦ (false, cur)
  | some digits ↦
      if ltb cur.remaining (length digits) then (false, cur) else (true, emit_digits digits cur)
]

-- One round of the loop divides by ten; a number makes fewer rounds than its value.
decimal_length_loop : (fuel : ℕ) → ℕ → ℕ → ℕ
decimal_length_loop zero n len = len
decimal_length_loop (suc fuel) n len =
    let rest = decimal_length_loop fuel (n / 10) (len + 1) in if leb 10 n then rest else len

pub decimal_length : ℕ → ℕ
unfolding decimal_length_loop
decimal_length n = decimal_length_loop (n + 1) n 1

pub required_length : SemanticVersion → ℕ
required_length v = decimal_length v.major + 1 + decimal_length v.minor + 1 + decimal_length v.patch

-- The rendering into the scratch buffer `tmp`; the statuses of `write_decimal` are discarded.
pub render_scratch : SemanticVersion → Bytes
render_scratch v =
    let start : Cursor = record { written = []; remaining = buffer_size } in
    let major = (write_decimal v.major start).1 in
    let minor = (write_decimal v.minor (put major b'.')).1 in
    let patch = (write_decimal v.patch (put minor b'.')).1 in patch.written ++ (0 ∷ [])

-- `for (i = 0; i < to_copy; ++i) buf[i] = tmp[i];`, with `rounds` rounds left.
copy_loop : (rounds : ℕ) → (i : ℕ) → Bytes → Bytes → Bytes
copy_loop zero i tmp buf = buf
copy_loop (suc rounds) i tmp buf = copy_loop rounds (i + 1) tmp (set buf i (get_or tmp i 0))

-- `gitledger_semantic_version_snprintf`, for any value of the version constant.
pub snprintf_value : SemanticVersion → Option Bytes → ℕ → ℕ × Option Bytes
unfolding copy_loop
snprintf_value v none n = (required_length v, none)
snprintf_value v (some buf) n =
    let required = required_length v in
    let to_copy = if ltb required (n - 1) then required else n - 1 in
    if n == 0
    then (required, some buf)
    else (required, some (set (copy_loop to_copy 0 (render_scratch v) buf) to_copy 0))

pub semantic_version_snprintf : Option Bytes → ℕ → ℕ × Option Bytes
semantic_version_snprintf = snprintf_value version_value

-- The argument is the static buffer before the call, the result what the pointer shows after it.
pub semantic_version_string : Bytes → Option Bytes
unfolding semantic_version_snprintf
semantic_version_string buffer =
    let (required, out) = semantic_version_snprintf (some buffer) buffer_size in
    if required == 0 then none else out

abbrev pub major_factor : ℕ
major_factor = 10000

abbrev pub minor_factor : ℕ
minor_factor = 100

-- `gitledger_version`, and the encoding that it applies to the version's three parts.
pub encode_version : SemanticVersion → ℕ
encode_version v = v.major * major_factor + v.minor * minor_factor + v.patch

pub gitledger_version : ℕ
unfolding encode_version
gitledger_version = encode_version (record { major = 0; minor = 1; patch = 0 })
