-- ===== src/Version/Render.antt =====
-- `gitledger_semantic_version_snprintf` against the rules of `snprintf`.
use libgitledger.Prelude.{
  ℕ, zero, suc, ◌+◌, ◌-◌, ◌^◌, ◌≤◌, ◌<◌, ◌≡◌, refl, ◌∙◌, [], ◌∷◌, ◌++◌, false, none, some, arith,
  ltb, ◌==◌, if◌then◌else◌, min, length, set, take, drop, subst, length-append, set-append_at,
  get_or-append_at, set_behind_take, append_assoc, take-append_le, Option, ◌⊎◌, inl, inr,
  Bool-cases,
}
use libgitledger.Text.{Bytes, codes, decimal, c_string, snprintf_result}
use mathlib.Core.Option
use libgitledger.Buffer.Contents.{room}
use libgitledger.Version.{
  SemanticVersion, Cursor, put, required_length, render_scratch, copy_loop, snprintf_value,
  semantic_version_string, buffer_size, semantic_version_snprintf, version_value,
}
use libgitledger.Version.Digits.{write_decimal_lem, decimal_length_lem, length-decimal}

-- "major.minor.patch".
unfoldable pub version_text : SemanticVersion → Bytes
version_text v = decimal v.major ++ (b'.' ∷ (decimal v.minor ++ (b'.' ∷ decimal v.patch)))

-- The parts are `uint32_t`.
pub record FitsU32 (v : SemanticVersion) : Type 0 where
  pub major : v.major < 2 ^ 32
  pub minor : v.minor < 2 ^ 32
  pub patch : v.patch < 2 ^ 32

pub required_length_lem : (v : SemanticVersion) → required_length v ≡ length (version_text v)
unfolding required_length version_text
required_length_lem v = omega (
  arith,
  length-append (decimal v.major) (b'.' ∷ (decimal v.minor ++ (b'.' ∷ decimal v.patch))),
  length-append (decimal v.minor) (b'.' ∷ decimal v.patch),
  decimal_length_lem v.major,
  decimal_length_lem v.minor,
  decimal_length_lem v.patch,
)

length-version_text : {v : SemanticVersion} → FitsU32 v → length (version_text v) ≤ 32
unfolding version_text
length-version_text {v} fits = omega (
  arith,
  length-append (decimal v.major) (b'.' ∷ (decimal v.minor ++ (b'.' ∷ decimal v.patch))),
  length-append (decimal v.minor) (b'.' ∷ decimal v.patch),
  length-decimal v.major fits.major,
  length-decimal v.minor fits.minor,
  length-decimal v.patch fits.patch,
)

render_scratch_lem :
    {v : SemanticVersion} → FitsU32 v → render_scratch v ≡ version_text v ++ (0 ∷ [])
unfolding render_scratch version_text
render_scratch_lem {v} fits =
    let first : Cursor = record { written = []; remaining = buffer_size } in
    let second : Cursor = put (after first v.major) b'.' in
    let third : Cursor = put (after second v.minor) b'.' in
    rw (write_decimal_lem v.major first fits.major (omega arith)) (
      rw
        (write_decimal_lem v.minor second fits.minor
          (omega (arith, length-decimal v.major fits.major)))
        (rw
          (write_decimal_lem v.patch third fits.patch
            (omega (arith, length-decimal v.major fits.major, length-decimal v.minor fits.minor)))
          (simp append_assoc)))
  where
    after : Cursor → ℕ → Cursor
    after cur n = record {
      written = cur.written ++ decimal n;
      remaining = cur.remaining - length (decimal n);
    }

-- With `i` bytes copied, the loop copies `k` more of `src` over `rest`.
copy_loop_lem :
    (k i : ℕ) (pre src front rest : Bytes)
    → i ≡ length pre
    → i ≡ length front
    → k ≤ length src
    → k ≤ length rest
    → copy_loop k i (pre ++ src) (front ++ rest) ≡ front ++ (take k src ++ drop k rest)
unfolding copy_loop
copy_loop_lem zero i pre src front rest e f h g = refl
copy_loop_lem (suc k) i pre [] front rest e f h g = absurd (omega arith)
copy_loop_lem (suc k) i pre (x ∷ src) front [] e f h g = absurd (omega arith)
copy_loop_lem (suc k) i pre (x ∷ src) front (y ∷ rest) e f h g =
    rw (e, get_or-append_at)
      (rw (← e, f, set-append_at)
        (rw (← f) (
          subst
            (λ r.
              copy_loop k (i + 1) r (front ++ (x ∷ rest))
              ≡ front ++ (x ∷ (take k src ++ drop k rest)))
            (append_assoc pre (x ∷ []) src)
            (subst
              (λ r.
                copy_loop k (i + 1) ((pre ++ (x ∷ [])) ++ src) r
                ≡ front ++ (x ∷ (take k src ++ drop k rest)))
              (append_assoc front (x ∷ []) rest)
              (copy_loop_lem k (i + 1) (pre ++ (x ∷ [])) src (front ++ (x ∷ [])) rest
                  (omega (arith, length-append pre (x ∷ [])))
                  (omega (arith, length-append front (x ∷ []))) (omega arith) (omega arith)
                ∙ append_assoc front (x ∷ []) _)))))

copied :
    (k : ℕ) (text buf : Bytes)
    → k ≤ length text
    → k < length buf
    → set (copy_loop k 0 (text ++ (0 ∷ [])) buf) k 0 ≡ take k text ++ (0 ∷ drop (suc k) buf)
copied k text buf h g =
    rw
      (copy_loop_lem k 0 [] (text ++ (0 ∷ [])) [] buf refl refl
        (omega (arith, length-append text (0 ∷ []))) (omega arith))
      (rw (take-append_le k text (0 ∷ []) h) (set_behind_take k text buf 0 h g))

-- For a version with 32-bit parts, a buffer and a size of at least 1 within it, `snprintf_value`
-- returns the length of the text major.minor.patch, and leaves in the buffer what `snprintf` would
-- leave of that text.
pub snprintf_value_lem :
    (v : SemanticVersion) (buf : Bytes) (n : ℕ)
    → FitsU32 v
    → 0 < n
    → n ≤ length buf
    → snprintf_value v (some buf) n
      ≡ (length (version_text v), some (snprintf_result (version_text v) buf n))
unfolding snprintf_value snprintf_result
snprintf_value_lem v buf n fits pos room =
    let size = required_length_lem v in
    let some_room : (n == 0) ≡ false = ground arith in
    let chosen : (if ltb (length (version_text v)) (n - 1) then length (version_text v) else n - 1)
        ≡ min (length (version_text v)) (n - 1) =
      ground arith in
    rw some_room (
      rw (size, render_scratch_lem fits)
        (rw chosen (
          rw (
            copied (min (length (version_text v)) (n - 1)) (version_text v) buf (omega arith)
              (omega arith)))))

-- With no buffer, or with no room, the call writes nothing and returns the length as well.
pub snprintf_value_no_room :
    (v : SemanticVersion) (buf : Option Bytes) (n : ℕ)
    → (buf ≡ none) ⊎ (n ≡ 0)
    → snprintf_value v buf n ≡ (length (version_text v), buf)
unfolding snprintf_value
snprintf_value_no_room v none n h = rw (required_length_lem v)
snprintf_value_no_room v (some buf) n (inl h) = cc
snprintf_value_no_room v (some buf) n (inr h) = rw (h, required_length_lem v)

version_value-FitsU32 : FitsU32 version_value
version_value-FitsU32 = omega arith

pub semantic_version_snprintf_lem :
    (buf : Option Bytes) (n : ℕ)
    → n ≤ room buf
    → semantic_version_snprintf buf n
      ≡ (5, Option.map (λ xs. if n == 0 then xs else snprintf_result (codes "0.1.0") xs n) buf)
unfolding semantic_version_snprintf version_text decimal
semantic_version_snprintf_lem none n fits = snprintf_value_no_room version_value none n (inl refl)
semantic_version_snprintf_lem (some buf) n fits = elim (Bool-cases (n == 0)) [
  | inl z ↦ rw z (snprintf_value_no_room version_value (some buf) n (inr (ground (arith, z))))
  | inr some_room ↦ rw some_room (
      snprintf_value_lem version_value buf n version_value-FitsU32 (ground (arith, some_room)) fits)
]

-- Whatever the static buffer of 34 bytes holds.
pub semantic_version_string_lem :
    (buffer : Bytes)
    → length buffer ≡ buffer_size
    → Option.map c_string (semantic_version_string buffer) ≡ some (codes "0.1.0")
unfolding semantic_version_string snprintf_result c_string
semantic_version_string_lem buffer h =
    rw (semantic_version_snprintf_lem (some buffer) buffer_size (omega arith)) refl
