-- ===== src/Json.antt =====
-- The JSON rendering of libgitledger/core/domain/error.c: escaping, the fields of one error, and
-- the explicit stack of frames that walks the chain of causes.
pub mod Writer
pub mod Reader
pub mod Values
pub mod Decode
pub mod NoNul
pub mod RoundTrip
pub mod Escape
pub mod Fields
pub mod Render
use libgitledger.Prelude.{
  ℕ, zero, suc, ◌+◌, ◌-◌, ◌*◌, Bool, true, false, not, ◌||◌, ◌&&◌, Option, none, some, List, [],
  ◌∷◌, ◌++◌, ltb, leb, ◌==◌, if◌then◌else◌, length, set,
}
use libgitledger.Text.{Bytes, codes, c_string, CInt, pos, hex4, signed_decimal}
use libgitledger.ErrorCode.{
  Domain, Code, has_flag, flag_retryable, flag_permanent, flag_auth, domain_to_string,
  code_to_string,
}
use libgitledger.Memory.{
  Ptr, null, ErrorObject, Env, M, fault, out_of_fuel, pure, ◌>>=◌, ◌>>◌, load_error, load_bytes, ok,
}
use libgitledger.Error.{max_depth}
use libgitledger.Buffer.{size_max, Buf, init, append, putc, append_literal, finalize}

abbrev pub static_stack_depth : ℕ
static_stack_depth = 16

abbrev pub ascii_min_printable : ℕ
ascii_min_printable = 0x20

-- What one round of `gl_json_escape` appends for a byte.
unfoldable pub escape_byte : ℕ → Bytes
escape_byte c =
    if c == b'\\'
    then codes "\\\\"
    else if c == b'"'
    then codes "\\\""
    else if c == 8
    then codes "\\b"
    else if c == 12
    then codes "\\f"
    else if c == b'\n'
    then codes "\\n"
    else if c == b'\r'
    then codes "\\r"
    else if c == b'\t'
    then codes "\\t"
    else if ltb c ascii_min_printable
    then codes "\\u" ++ hex4 c
    else c ∷ []

-- `gl_json_escape`: one round for each byte before the NUL.
unfoldable pub escape_loop : Buf → Bytes → Buf
escape_loop buf [] = buf
escape_loop buf (c ∷ text) = escape_loop (append buf (escape_byte c)) text

unfoldable pub json_escape : Buf → Option Bytes → Buf
json_escape buf none = buf
json_escape buf (some text) = escape_loop buf (c_string text)

-- One branch of `write_flags_array`, over the builder and the flag `first`.
unfoldable pub write_flag : Bool → Bytes → Buf × Bool → Buf × Bool
write_flag present name (buf, first) =
    if present
    then (append_literal (if first then buf else putc buf b',') name, false)
    else (buf, first)

unfoldable pub write_flags_array : Buf → ℕ → Buf
write_flags_array buf flags =
    let a =
      write_flag (has_flag flags flag_retryable) (codes "\"RETRYABLE\"") (putc buf b'[', true) in
    let b = write_flag (has_flag flags flag_permanent) (codes "\"PERMANENT\"") a in
    let c = write_flag (has_flag flags flag_auth) (codes "\"AUTH\"") b in putc c.0 b']'

-- A field whose value is an escaped string: `prefix` opens it.
unfoldable pub write_string : Bytes → Option Bytes → Buf → Buf
write_string prefix text buf = putc (json_escape (append_literal buf prefix) text) b'"'

-- The fields `file` and `line`, which are there if `err->file` is not NULL.
unfoldable pub write_file : Option Bytes → CInt → Buf → Buf
write_file none line buf = buf
write_file (some name) line buf =
    append
      (append_literal (write_string (codes ",\"file\":\"") (some name) buf) (codes ",\"line\":"))
      (signed_decimal line)

-- The field `func`, which is there if `err->func` is not NULL.
unfoldable pub write_func : Option Bytes → Buf → Buf
write_func none buf = buf
write_func (some name) buf = write_string (codes ",\"func\":\"") (some name) buf

-- `json_write_error_fields`, with the bytes that `err->message` shows.
unfoldable pub write_fields : ErrorObject → Option Bytes → Buf → Buf
write_fields e message buf =
    let buf = append_literal buf (codes "\"domain\":\"") in
    let buf = putc (append_literal buf (domain_to_string e.domain)) b'"' in
    let buf = append_literal buf (codes ",\"code\":\"") in
    let buf = putc (append_literal buf (code_to_string e.code)) b'"' in
    let buf = append_literal buf (codes ",\"flags\":") in
    let buf = write_flags_array buf e.flags in
    let buf = write_string (codes ",\"message\":\"") message buf in
    write_func e.func (write_file e.file e.line buf)

unfoldable pub load_message : ErrorObject → M (Option Bytes)
load_message e = if e.message == null then pure none else do s ← load_bytes e.message; pure (some s)

-- `error_json_frame_t`. The stack's top comes first, so `stack_size` is the length.
pub record Frame : Type 0 where
  pub err : Ptr
  pub state : ℕ

-- `json_push_cause_frame`: the stack, and whether the frame was pushed.
unfoldable pub push_cause_frame : (capacity : ℕ) → List Frame → Ptr → List Frame × Bool
push_cause_frame capacity stack cause =
    if cause == null || leb capacity (length stack)
    then (stack, false)
    else (record { err = cause; state = 0 } ∷ stack, true)

-- The variables of the loop in `json_write_error`.
pub record Emit : Type 0 where
  pub buf : Buf
  pub stack : List Frame
  pub truncated : Bool

-- The end of `json_emit_frame`: the object is closed, and its frame goes.
unfoldable pub close_frame : Buf → List Frame → Bool → Emit
close_frame buf below truncated = record {
  buf = putc buf b'}';
  stack = below;
  truncated = truncated;
}

-- The part of `json_emit_frame` behind the fields, for a frame `top` over `below`.
unfoldable pub enter_cause : (capacity : ℕ) → Buf → Frame → List Frame → (cause : Ptr) → Bool → Emit
enter_cause capacity buf top below cause truncated =
    let (stack, pushed) = push_cause_frame capacity (record top { state = 1 } ∷ below) cause in
    if pushed
    then record {
      buf = append_literal buf (codes ",\"cause\":");
      stack = stack;
      truncated = truncated;
    }
    else if cause == null
    then close_frame buf below truncated
    else close_frame (append_literal buf (codes ",\"cause\":{\"truncated\":true}")) below true

-- `json_emit_frame`. The loop calls it on a stack that is not empty.
unfoldable pub emit_frame : (capacity : ℕ) → Buf → Frame → List Frame → Bool → M Emit
emit_frame capacity buf top below truncated =
    if top.state == 0
    then (do
      e ← load_error top.err
      message ← load_message e
      pure (
          enter_cause capacity (write_fields e message (putc buf b'{')) top below e.cause
            truncated))
    else pure (close_frame buf below truncated)

-- `json_measure_depth`: `left` is `GITLEDGER_ERROR_MAX_DEPTH - depth`. The depth, and whether the
-- chain is longer.
unfoldable pub measure_loop : (left : ℕ) → Ptr → (depth : ℕ) → M (ℕ × Bool)
measure_loop zero iter depth = pure (depth, not (iter == null))
measure_loop (suc left) iter depth =
    if iter == null
    then pure (depth, false)
    else do e ← load_error iter; measure_loop left e.cause (depth + 1)

unfoldable pub measure_depth : Ptr → M (ℕ × Bool)
measure_depth err = measure_loop max_depth err 0

-- `json_acquire_stack`: the capacity, and whether the stack is short of the depth. The array of
-- frames that `malloc` gives, and that `json_write_error` frees, is not a block of the memory.
unfoldable pub acquire_stack : Env → (depth : ℕ) → M (ℕ × Bool)
acquire_stack env depth m =
    if ltb static_stack_depth depth
    then (if env.malloc_succeeds (depth * 16) m
        then ok (depth, false) m
        else ok (static_stack_depth, true) m)
    else ok (static_stack_depth, false) m

-- The loop of `json_write_error`. A frame is on top twice at most.
unfoldable pub emit_loop : (fuel : ℕ) → (capacity : ℕ) → Emit → M Emit
emit_loop zero capacity s = λ _. out_of_fuel
emit_loop (suc fuel) capacity s = elim s.stack [
  | [] ↦ pure s
  | top ∷ below ↦ do
    s' ← emit_frame capacity s.buf top below s.truncated
    emit_loop fuel capacity s'
]

abbrev pub emit_fuel : ℕ
emit_fuel = 2 * max_depth + 1

-- `json_write_error`: the builder, and whether the output was truncated.
unfoldable pub write_error : Env → Buf → Ptr → M (Buf × Bool)
write_error env buf err = do
  (depth, too_deep) ← measure_depth err
  (capacity, no_memory) ← acquire_stack env depth
  let stack : List Frame = if err == null then [] else record { err = err; state = 0 } ∷ []
  s ←
      emit_loop emit_fuel capacity
        (record { buf = buf; stack = stack; truncated = too_deep || no_memory })
  pure (s.buf, s.truncated)

-- `gitledger_error_render_json`: the size that it returns, and the array that `buf` points to.
unfoldable pub render_json : Env → Ptr → Option Bytes → ℕ → M (ℕ × Option Bytes)
render_json env err buf size =
    if err == null
    then pure (1, elim buf [ none ↦ none | some xs ↦ some (if ltb 0 size then set xs 0 0 else xs) ])
    else do
      (builder, _) ← write_error env (init buf size) err
      let finished = finalize builder
      pure (
        if finished.required == size_max then size_max else finished.required + 1,
        finished.array,
      )
