-- ===== src/Cache.antt =====
-- The cached JSON of an error, and the copies, of libgitledger/core/domain/error.c.
pub mod Fill
pub mod Stale
pub mod Copy
pub mod Snapshot
pub mod Threads
use libgitledger.Prelude.{◌+◌, not, ◌||◌, none, some, [], ◌∷◌, ◌++◌, ◌==◌, if◌then◌else◌, length}
use libgitledger.Text.{Bytes, codes, c_string}
use libgitledger.Memory.{
  Ptr, null, ErrorObject, error, bytes, Env, M, pure, ◌>>=◌, ◌>>◌, skip, load_error, load_bytes,
  store,
}
use libgitledger.Context
use libgitledger.Context.{is_valid, generation_snapshot}
use libgitledger.Error
use libgitledger.Json.{render_json}

-- A returned `const char*`: the literal "{}", or a block.
pub data JsonText : Type 0 where
  empty_object : JsonText
  cached : Ptr → JsonText

-- `ensure_json_cache_current`.
unfoldable pub ensure_current : Ptr → M (Unit {0})
ensure_current err = do
  e ← load_error err
  if e.ctx == null then skip else do
    snapshot ← generation_snapshot e.ctx
    if e.ctx_generation == snapshot then skip else do
      store err (error (record e { json_cache = null }))
      if e.json_cache == null then skip else Context.free e.ctx e.json_cache
      e' ← load_error err
      store err (error (record e' { ctx_generation = snapshot }))

-- The compare-and-exchange at the end of `gitledger_error_json`.
unfoldable pub publish : Ptr → Ptr → M JsonText
publish err buffer = do
  e ← load_error err
  if e.json_cache == null
      then (do store err (error (record e { json_cache = buffer })); pure (cached buffer))
      else (do Context.free e.ctx buffer; pure (cached e.json_cache))

-- The rendering into a new block.
unfoldable pub render_cache : Env → Ptr → ErrorObject → M JsonText
render_cache env err e = do
  (required, _) ← render_json env err none 0
  buffer ← Context.alloc env e.ctx required
  if buffer == null then pure empty_object else do
    array ← load_bytes buffer
    (_, rendered) ← render_json env err (some array) required
    store buffer (bytes (elim rendered [ none ↦ array | some xs ↦ xs ]))
    publish err buffer

-- `gitledger_error_json`.
unfoldable pub error_json : Env → Ptr → M JsonText
error_json env err = if err == null then pure empty_object else do
  ensure_current err
  e ← load_error err
  if not (e.json_cache == null)
      then pure (cached e.json_cache)
      else (if e.ctx == null then pure empty_object else render_cache env err e)

-- What a `const char*` shows, up to its NUL.
unfoldable pub read_json : JsonText → M Bytes
read_json empty_object = pure (codes "{}")
read_json (cached p) = do s ← load_bytes p; pure (c_string s)

-- `strlen`, the allocation and `memcpy` of the copies.
unfoldable pub copy_text : Env → Ptr → Bytes → M Ptr
copy_text env ctx text = do
  copy ← Context.alloc env ctx (length text + 1)
  if copy == null then pure null else do store copy (bytes (text ++ (0 ∷ []))); pure copy

-- `gitledger_error_json_copy`.
unfoldable pub json_copy : Env → Ptr → Ptr → M Ptr
json_copy env ctx err = if ctx == null then pure null else do
  v ← is_valid ctx
  if not v
      then pure null
      else do json ← error_json env err; text ← read_json json; copy_text env ctx text

-- `gitledger_error_message_copy`.
unfoldable pub message_copy : Env → Ptr → Ptr → M Ptr
message_copy env ctx err = if ctx == null || err == null then pure null else do
  v ← is_valid ctx
  if not v then pure null else do text ← Error.message err; copy_text env ctx text
