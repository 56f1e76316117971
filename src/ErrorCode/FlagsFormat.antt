-- ===== src/ErrorCode/FlagsFormat.antt =====
-- `gitledger_error_flags_format` against the rules of `snprintf`.
use libgitledger.Prelude.{
  ℕ, suc, ◌+◌, ◌-◌, ◌≤◌, ◌<◌, ◌≡◌, refl, sym, ap, subst, ◌∙◌, true, false, ◌&&◌, inl, inr, none,
  some, Option, ◌⊎◌, List, [], ◌∷◌, ◌++◌, append-nil, append_assoc, arith, ltb, ◌==◌, if◌then◌else◌,
  Bool-cases, min, length, take, drop, length-append, take-append_le, take_all, set_behind_take,
}
use libgitledger.Text.{Bytes, snprintf_result}
use libgitledger.ErrorCode.{
  flag_names, required_loop, Output, put, name_loop, write_loop, flags_format,
}

-- `a` has the front of `text`, cut to `size - 1` bytes, over the array `storage`.
record Printed (storage : Bytes) (size : ℕ) (text : Bytes) (out : Output) : Type 0 where
  written : out.written ≡ min (length text) (size - 1)
  array : out.array ≡ take out.written text ++ drop out.written storage

-- The names with a bar between them.
unfoldable pub join_behind : Bytes → List Bytes → Bytes
join_behind text [] = text
join_behind text (name ∷ names) =
    join_behind (if length text == 0 then name else (text ++ (b'|' ∷ name))) names

unfoldable pub flags_text : ℕ → Bytes
unfolding join_behind
flags_text flags = join_behind [] (flag_names flags)

required_loop_lem :
    (names : List Bytes) (text : Bytes)
    → required_loop names (length text) ≡ length (join_behind text names)
unfolding required_loop join_behind
required_loop_lem [] text = refl
required_loop_lem (name ∷ names) [] =
    let e : 0 + length name ≡ length name = omega arith in rw e (required_loop_lem names name)
required_loop_lem (name ∷ names) (c ∷ text) =
    let some_text : (length (c ∷ text) == 0) ≡ false = ground arith in
    let e : (if ltb 0 (length (c ∷ text)) then length (c ∷ text) + 1 else length (c ∷ text))
          + length name
        ≡ length ((c ∷ text) ++ (b'|' ∷ name)) =
      ground (arith, length-append (c ∷ text) (b'|' ∷ name)) in
    rw (some_text, e) (required_loop_lem names ((c ∷ text) ++ (b'|' ∷ name)))

module _ {storage : Bytes} {size : ℕ} (room : size ≤ length storage) where
  put-Printed :
      (text : Bytes) (c : ℕ) (out : Output)
      → Printed storage size text out
      → out.written < size - 1
      → Printed storage size (text ++ (c ∷ [])) (put out c)
  put-Printed text c out p lt =
      let next : out.written + 1 ≡ suc out.written = omega arith in
      let full : out.written ≡ length text = omega (arith, p.written) in
      record {
        written = omega (arith, length-append text (c ∷ []));
        array =
            rw
              (
                p.array,
                next,
                set_behind_take out.written text storage c (omega arith) (omega arith),
              )
              (set_front text full);
      }
    where
      set_front :
          (text : Bytes) {k : ℕ}
          → k ≡ length text
          → take k text ++ (c ∷ drop (suc k) storage)
            ≡ take (suc k) (text ++ (c ∷ [])) ++ drop (suc k) storage
      set_front text {k} e = rw (
        take_all k text (omega arith),
        take_all (suc k) (text ++ (c ∷ [])) (omega (arith, length-append text (c ∷ []))),
        append_assoc,
      )

  cut-Printed :
      (text more : Bytes) (out : Output)
      → Printed storage size text out
      → size - 1 ≤ out.written
      → Printed storage size (text ++ more) out
  cut-Printed text more out p le = record {
    written = omega (arith, length-append text more, p.written);
    array =
        p.array
        ∙ ap (λ r. r ++ drop out.written storage)
            (sym (take-append_le out.written text more (omega (arith, p.written))));
  }

  name_loop-Printed :
      (name text : Bytes) (out : Output)
      → Printed storage size text out
      → Printed storage size (text ++ name) (name_loop size name out)
  unfolding name_loop
  name_loop-Printed [] text out p = rw append-nil p
  name_loop-Printed (c ∷ name) text out p = elim (Bool-cases (ltb out.written (size - 1))) [
    | inl lt ↦
        rw (lt, ← append_assoc text (c ∷ []) name)
          (name_loop-Printed name (text ++ (c ∷ [])) (put out c)
            (put-Printed text c out p (ground arith)))
    | inr ge ↦ rw ge (cut-Printed text (c ∷ name) out p (ground arith))
  ]

  bar-Printed :
      (text : Bytes) (out : Output)
      → Printed storage size text out
      → 0 < length text
      → Printed storage size
          (text ++ (b'|' ∷ []))
          (if ltb 0 out.written && ltb out.written (size - 1) then put out b'|' else out)
  bar-Printed text out p pos = elim (Bool-cases (ltb out.written (size - 1))) [
    | inl lt ↦
        let some_text : ltb 0 out.written ≡ true = ground (arith, p.written) in
        rw (some_text, lt) (put-Printed text b'|' out p (ground arith))
    | inr ge ↦
        let skip : (ltb 0 out.written && ltb out.written (size - 1)) ≡ false = ground arith in
        rw skip (cut-Printed text (b'|' ∷ []) out p (ground arith))
  ]

  write_loop-Printed :
      (names : List Bytes) (text : Bytes) (out : Output)
      → Printed storage size text out
      → Printed storage size (join_behind text names) (write_loop size names out)
  unfolding write_loop join_behind
  write_loop-Printed [] text out p = p
  write_loop-Printed (name ∷ names) [] out p =
      let empty : ltb 0 out.written ≡ false = ground (arith, p.written) in
      rw empty (write_loop-Printed names name _ (name_loop-Printed name [] out p))
  write_loop-Printed (name ∷ names) (c ∷ text) out p =
      let some_text : (length (c ∷ text) == 0) ≡ false = ground arith in
      let next =
        name_loop size name
          (if ltb 0 out.written && ltb out.written (size - 1) then put out b'|' else out) in
      rw some_text (
        write_loop-Printed names _ next (
          subst (λ t. Printed storage size t next) (append_assoc (c ∷ text) (b'|' ∷ []) name)
            (name_loop-Printed name _ _ (bar-Printed (c ∷ text) out p (omega arith)))))

-- For any flags, a buffer and a size of at least 1 within it, `flags_format` returns the length of
-- the flags' names with bars between them, and leaves in the buffer what `snprintf` would leave of
-- that text.
pub flags_format_lem :
    (flags : ℕ) (buf : Bytes) (size : ℕ)
    → 0 < size
    → size ≤ length buf
    → flags_format flags (some buf) size
      ≡ (length (flags_text flags), some (snprintf_result (flags_text flags) buf size))
unfolding flags_format snprintf_result flags_text
flags_format_lem flags buf size pos room =
    let some_room : ltb 0 size ≡ true = ground arith in
    let out = write_loop size (flag_names flags) (record { array = buf; written = 0 }) in
    let p : Printed buf size (join_behind [] (flag_names flags)) out =
      write_loop-Printed room (flag_names flags) [] (record { array = buf; written = 0 })
        (record { written = omega arith; array = refl }) in
    let index : (if ltb out.written size then out.written else size - 1)
        ≡ min (length (join_behind [] (flag_names flags))) (size - 1) =
      ground (arith, p.written) in
    rw (required_loop_lem (flag_names flags) [], some_room)
      (rw index (
        rw (p.array, p.written)
          (ap (pair _) (
            set_behind_take (min (length (join_behind [] (flag_names flags))) (size - 1))
              (join_behind [] (flag_names flags)) buf 0 (omega arith) (omega arith)))))
  where
    pair : ℕ → Bytes → ℕ × Option Bytes
    pair n xs = (n, some xs)

-- With no buffer, or no room, the call writes nothing and returns the length as well.
pub flags_format_no_room :
    (flags : ℕ) (buf : Option Bytes) (size : ℕ)
    → (buf ≡ none) ⊎ (size ≡ 0)
    → flags_format flags buf size ≡ (length (flags_text flags), buf)
unfolding flags_format flags_text
flags_format_no_room flags none size h = rw (required_loop_lem (flag_names flags) [])
flags_format_no_room flags (some buf) size (inl h) = cc
flags_format_no_room flags (some buf) size (inr h) = rw (h, required_loop_lem (flag_names flags) [])
