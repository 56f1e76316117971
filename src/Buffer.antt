-- ===== src/Buffer.antt =====
-- The bounded text builder of libgitledger/core/domain/error.c (`gl_buf_t` and the functions
-- `gl_buf_*`). The array that `data` points to is `none` for NULL, or its bytes.
-- `size_t` has 64 bits.
pub mod Contents
pub mod Append
use mathlib.Core.Option
use libgitledger.Prelude.{
  ℕ, ◌+◌, ◌-◌, ◌%◌, ◌^◌, Bool, true, false, ◌||◌, Option, none, some, [], ◌∷◌, ltb, leb, ◌==◌,
  if◌then◌else◌, length, set, take, write_at,
}
use libgitledger.Text.{Bytes, c_string}

abbrev pub size_max : ℕ
size_max = 2 ^ 64 - 1

abbrev pub add_size : ℕ → ℕ → ℕ
add_size a b = (a + b) % 2 ^ 64

pub record Buf : Type 0 where
  pub array : Option Bytes
  pub capacity : ℕ
  pub length : ℕ
  pub required : ℕ
  pub overflow : Bool

-- `(data && capacity) ? capacity : 0U`
abbrev pub usable : Option Bytes → ℕ → ℕ
usable none capacity = 0
usable (some _) capacity = capacity

unfoldable pub init : Option Bytes → ℕ → Buf
init array capacity = record {
  array = if ltb 0 (usable array capacity) then Option.map (λ xs. set xs 0 0) array else array;
  capacity = usable array capacity;
  length = 0;
  required = 0;
  overflow = false;
}

-- `memcpy(buf->data + buf->length, chunk, len); buf->length += len;`
abbrev pub copy_in : Buf → Bytes → Buf
copy_in buf chunk = record buf {
  array = Option.map (λ xs. write_at xs buf.length chunk) buf.array;
  length = add_size buf.length (length chunk);
}

-- The update of `required`, which saturates.
pub account : Buf → ℕ → Buf
account buf len =
    if leb buf.required (size_max - len)
    then record buf { required = add_size buf.required len }
    else record buf { required = size_max; overflow = true }

-- What fits is copied, and a chunk that does not fit whole sets `overflow`.
pub store_chunk : Buf → Bytes → Buf
store_chunk buf chunk =
    let available =
      if ltb (add_size buf.length 1) buf.capacity then buf.capacity - buf.length - 1 else 0 in
    if buf.overflow || buf.capacity == 0
    then buf
    else if ltb available (length chunk)
    then record (if ltb 0 available then copy_in buf (take available chunk) else buf) {
      overflow = true;
    }
    else copy_in buf chunk

pub append : Buf → Bytes → Buf
append buf chunk = if length chunk == 0 then buf else store_chunk (account buf (length chunk)) chunk

unfoldable pub putc : Buf → ℕ → Buf
putc buf character = append buf (character ∷ [])

unfoldable pub append_literal : Buf → Bytes → Buf
append_literal buf literal = append buf (c_string literal)

unfoldable pub finalize : Buf → Buf
finalize buf =
    let index = if ltb buf.length buf.capacity then buf.length else buf.capacity - 1 in
    if buf.capacity == 0
    then buf
    else record buf { array = Option.map (λ xs. set xs index 0) buf.array }
