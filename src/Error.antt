-- ===== src/Error.antt =====
-- The error objects of libgitledger/core/domain/error.c: creation, reference counts, release along
-- the chain of causes, accessors and the walk. They run on the memory that contexts use too.
pub mod Walk
pub mod Creation
pub mod Placed
pub mod Created
pub mod Caused
pub mod Release
use libgitledger.Prelude.{
  ℕ, zero, suc, ◌+◌, Bool, not, Option, none, some, [], ◌∷◌, ◌++◌, ◌==◌, if◌then◌else◌, length,
}
use libgitledger.Text.{Bytes, c_string, CInt, pos}
use libgitledger.ErrorCode.{Domain, Code, default_flags, flag_none}
use libgitledger.Memory.{
  Ptr, null, Allocator, ErrorObject, error, bytes, Env, M, out_of_fuel, pure, ◌>>=◌, ◌>>◌, skip,
  load_error, load_bytes, store, call_free,
}
use libgitledger.Context
use libgitledger.Context.{
  is_valid, add_one32, sub_one32, generation_snapshot, register_error, unregister_error,
  detach_context,
}

-- `gitledger_source_location_t`.
pub record SourceLocation : Type 0 where
  pub file : Option Bytes
  pub line : CInt
  pub func : Option Bytes

-- A format with its variable arguments: `none` for a NULL format; else whether the format string
-- is empty, and what `vsnprintf` makes of it, `none` where it reports an error.
pub record Format : Type 0 where
  pub is_empty : Bool
  pub expand : Option Bytes

-- The allocator snapshot before one is taken: zeroed memory.
abbrev pub no_allocator : Allocator
no_allocator = record { alloc = null; free = null; userdata = null }

abbrev pub zeroed_error : ErrorObject
zeroed_error = record {
  ctx = null;
  ctx_generation = 0;
  refcount = 0;
  allocator = no_allocator;
  domain = Domain.ok;
  code = Code.ok;
  flags = flag_none;
  message = null;
  json_cache = null;
  cause = null;
  file = none;
  func = none;
  line = pos 0;
}

-- A text of `n` bytes and its NUL in a new block.
unfoldable pub store_text : Env → Ptr → Bytes → M Ptr
store_text env ctx text = do
  p ← Context.alloc env ctx (length text + 1)
  if p == null then pure null else do store p (bytes (text ++ (0 ∷ []))); pure p

unfoldable pub duplicate_format : Env → Ptr → Option Format → M Ptr
duplicate_format env ctx none = store_text env ctx []
duplicate_format env ctx (some f) =
    if f.is_empty
    then store_text env ctx []
    else elim f.expand [ none ↦ pure null | some text ↦ store_text env ctx text ]

unfoldable pub allocate_error : Env → Ptr → M Ptr
allocate_error env ctx = do
  err ← Context.alloc env ctx env.sizeof_error
  if err == null then pure null else do
    snap ← generation_snapshot ctx
    a ← Context.allocator ctx
    store err (
        error (record zeroed_error {
          ctx = ctx;
          ctx_generation = snap;
          refcount = 1;
          allocator = elim a [ none ↦ no_allocator | some x ↦ x ];
        }))
    pure err

-- `if (ptr) allocator_snapshot.free(allocator_snapshot.userdata, ptr);`
unfoldable pub free_part : Allocator → Ptr → M (Unit {0})
free_part a ptr = if ptr == null then skip else call_free a ptr

unfoldable pub free_error : Ptr → M (Unit {0})
free_error err = do
  e ← load_error err
  if e.allocator.free == null then skip else (do
    store err (error (record e { json_cache = null }))
    free_part e.allocator e.json_cache
    free_part e.allocator e.message)
  e' ← load_error err
  store err (error (record e' { ctx = null; ctx_generation = 0 }))
  if e.allocator.free == null then skip else call_free e.allocator err

-- `gitledger_error_retain`.
unfoldable pub retain : Ptr → M (Unit {0})
retain err =
    if err == null
    then skip
    else do e ← load_error err; store err (error (record e { refcount = add_one32 e.refcount }))

-- `gitledger_error_release`: the loop frees an error whose last reference goes, and then gives up
-- the reference that it held on its cause.
unfoldable pub release_loop : (fuel : ℕ) → Env → Ptr → M (Unit {0})
release_loop zero env current = λ _. out_of_fuel
release_loop (suc fuel) env current = if current == null then skip else do
  e ← load_error current
  store current (error (record e { refcount = sub_one32 e.refcount }))
  if not (e.refcount == 1) then skip else do
    if e.ctx == null then skip else unregister_error env e.ctx current
    e' ← load_error current
    store current (error (record e' { cause = null }))
    free_error current
    release_loop fuel env e.cause

unfoldable pub release : Env → Ptr → M (Unit {0})
release env err = release_loop env.rounds env err

-- The fields that `create_error_internal` sets from its arguments.
abbrev pub with_fields : Domain → Code → SourceLocation → ErrorObject → ErrorObject
with_fields domain code location e = record e {
  domain = domain;
  code = code;
  flags = default_flags domain code;
  file = location.file;
  line = location.line;
  func = location.func;
}

-- `create_error_internal` from the cause on.
unfoldable pub link_and_track : Env → Ptr → Ptr → Ptr → M Ptr
link_and_track env ctx err cause = do
  if cause == null
      then skip
      else (do retain cause; e ← load_error err; store err (error (record e { cause = cause })))
  tracked ← register_error env ctx err
  if tracked then skip else detach_context err
  pure err

unfoldable pub create_error :
    Env → Ptr → Domain → Code → (cause : Ptr) → SourceLocation → Option Format → M Ptr
create_error env ctx domain code cause location fmt = do
  v ← is_valid ctx
  if not v then pure null else do
    err ← allocate_error env ctx
    if err == null then pure null else do
      e ← load_error err
      store err (error (with_fields domain code location e))
      message ← duplicate_format env ctx fmt
      if message == null then (do Context.free ctx err; pure null) else do
        e ← load_error err
        store err (error (record e { message = message }))
        link_and_track env ctx err cause

-- `gitledger_error_create_ctx_loc` and `gitledger_error_create_ctx_loc_v`.
unfoldable pub create_ctx_loc : Env → Ptr → Domain → Code → SourceLocation → Option Format → M Ptr
create_ctx_loc env ctx domain code location fmt = create_error env ctx domain code null location fmt

-- `gitledger_error_with_cause_ctx_loc` and `gitledger_error_with_cause_ctx_loc_v`.
unfoldable pub with_cause_ctx_loc :
    Env → Ptr → Domain → Code → (cause : Ptr) → SourceLocation → Option Format → M Ptr
with_cause_ctx_loc env ctx domain code cause location fmt =
    create_error env ctx domain code cause location fmt

-- The accessors, with what each returns for NULL.
unfoldable pub field_of : {A : Type 0} → (ErrorObject → A) → A → Ptr → M A
field_of get missing err = if err == null then pure missing else do e ← load_error err; pure (get e)

unfoldable pub domain : Ptr → M Domain
domain = field_of (λ e. e.domain) Domain.generic

unfoldable pub code : Ptr → M Code
code = field_of (λ e. e.code) Code.unknown

unfoldable pub flags : Ptr → M ℕ
flags = field_of (λ e. e.flags) flag_none

unfoldable pub cause : Ptr → M Ptr
cause = field_of (λ e. e.cause) null

unfoldable pub file : Ptr → M (Option Bytes)
file = field_of (λ e. e.file) none

unfoldable pub line : Ptr → M CInt
line = field_of (λ e. e.line) (pos 0)

unfoldable pub func : Ptr → M (Option Bytes)
func = field_of (λ e. e.func) none

-- `gitledger_error_message`: the bytes that the pointer shows, up to their NUL; a block without a
-- NUL, which the program never makes, is read to its end.
unfoldable pub message : Ptr → M Bytes
message err = if err == null then pure [] else do
  e ← load_error err
  if e.message == null then pure [] else do s ← load_bytes e.message; pure (c_string s)

-- `GITLEDGER_ERROR_MAX_DEPTH`.
abbrev pub max_depth : ℕ
max_depth = 64

-- `gitledger_error_walk`: the visitor takes its user data and an error, and returns the new user
-- data and whether to go on. `left` is `GITLEDGER_ERROR_MAX_DEPTH - depth`.
module _ {S : Type 0} (visitor : S → Ptr → M (S × Bool)) where
  unfoldable pub walk_loop : (left : ℕ) → Ptr → S → M S
  walk_loop zero current s = pure s
  walk_loop (suc left) current s = if current == null then pure s else do
    (s', more) ← visitor s current
    if not more then pure s' else do e ← load_error current; walk_loop left e.cause s'

  unfoldable pub walk : Ptr → S → M S
  walk top s = walk_loop max_depth top s
