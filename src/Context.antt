-- ===== src/Context.antt =====
-- libgitledger/core/context.c: contexts, their allocator, their registry of live errors and their
-- destruction. Each function runs on the memory that all objects share.
-- `context_lock` waits for ever where the lock is held, since nothing else runs here.
pub mod Registry
pub mod Threads
use libgitledger.Prelude.{
  ℕ, zero, suc, ◌+◌, ◌-◌, ◌%◌, ◌^◌, Bool, true, false, not, ◌||◌, ◌&&◌, Option, none, some, [], ◌∷◌,
  ◌++◌, ltb, ◌==◌, if◌then◌else◌, length, take,
}
use libgitledger.Text.{Bytes, codes, decimal, CInt, pos, negsuc}
use libgitledger.Memory.{
  Ptr, null, Allocator, default_alloc, default_free, Context, ErrorNode, ErrorObject, context, node,
  error, live_errors, register_failed, Env, M, ok, aborted, blocked, out_of_fuel, pure, ◌>>=◌, ◌>>◌,
  skip, load_context, load_node, load_error, store, call_alloc, call_free, print_error,
}

abbrev pub context_magic : ℕ
context_magic = 0xC0FFEE01

abbrev pub diag_buf : ℕ
diag_buf = 160

-- `atomic_fetch_add` and `atomic_fetch_sub` of 1 on a `uint32_t`, the new value.
abbrev pub add_one32 : ℕ → ℕ
add_one32 x = (x + 1) % 2 ^ 32

abbrev pub sub_one32 : ℕ → ℕ
sub_one32 x = (x + 2 ^ 32 - 1) % 2 ^ 32

unfoldable pub is_valid : Ptr → M Bool
is_valid ctx =
    if ctx == null then pure false else do c ← load_context ctx; pure (c.magic == context_magic)

-- `gitledger_context_valid`.
unfoldable pub valid : Ptr → M ℕ
valid ctx = do v ← is_valid ctx; pure (if v then 1 else 0)

unfoldable pub lock : Ptr → M (Unit {0})
lock ctx = do
  c ← load_context ctx
  if c.locked then (λ _. blocked) else store ctx (context (record c { locked = true }))

unfoldable pub unlock : Ptr → M (Unit {0})
unlock ctx = do c ← load_context ctx; store ctx (context (record c { locked = false }))

-- `gitledger_context_allocator`: the allocator of a valid context.
unfoldable pub allocator : Ptr → M (Option Allocator)
allocator ctx = do
  v ← is_valid ctx
  if v then (do c ← load_context ctx; pure (some c.allocator)) else pure none

-- `gitledger_context_alloc`.
unfoldable pub alloc : Env → Ptr → ℕ → M Ptr
alloc env ctx size = do
  v ← is_valid ctx
  if not v then pure null else do
    c ← load_context ctx
    if c.allocator.alloc == null then pure null else call_alloc env c.allocator size

-- `gitledger_context_free`.
unfoldable pub free : Ptr → Ptr → M (Unit {0})
free ctx ptr = do
  v ← is_valid ctx
  if not v then skip else do
    c ← load_context ctx
    if c.allocator.free == null || ptr == null then skip else call_free c.allocator ptr

-- `gitledger_context_generation_snapshot_internal`.
unfoldable pub generation_snapshot : Ptr → M ℕ
generation_snapshot ctx = do
  v ← is_valid ctx
  if v then (do c ← load_context ctx; pure c.generation) else pure 0

-- `gitledger_context_bump_generation_internal`.
unfoldable pub bump_generation : Ptr → M (Unit {0})
bump_generation ctx = do
  v ← is_valid ctx
  if v
      then (do
        c ← load_context ctx
        store ctx (context (record c { generation = add_one32 c.generation })))
      else skip

-- `gitledger_error_detach_context_internal` of error.c.
unfoldable pub detach_context : Ptr → M (Unit {0})
detach_context err =
    if err == null
    then skip
    else do e ← load_error err; store err (error (record e { ctx = null; ctx_generation = 0 }))

-- `context_count_errors_locked`.
unfoldable pub count_loop : (fuel : ℕ) → Ptr → ℕ → M ℕ
count_loop zero p count = λ _. out_of_fuel
count_loop (suc fuel) p count =
    if p == null then pure count else do n ← load_node p; count_loop fuel n.next (count + 1)

unfoldable pub count_errors_locked : Env → Ptr → M ℕ
count_errors_locked env ctx = do c ← load_context ctx; count_loop env.rounds c.errors 0

-- `context_detach_and_free_error_nodes`.
unfoldable pub detach_loop : (fuel : ℕ) → Ptr → Ptr → ℕ → M ℕ
detach_loop zero ctx p live = λ _. out_of_fuel
detach_loop (suc fuel) ctx p live = if p == null then pure live else do
  n ← load_node p
  if n.error == null then skip else detach_context n.error
  c ← load_context ctx
  call_free c.allocator p
  detach_loop fuel ctx n.next (if n.error == null then live else live + 1)

unfoldable pub detach_and_free_error_nodes : Env → Ptr → M ℕ
detach_and_free_error_nodes env ctx = do
  c ← load_context ctx
  store ctx (context (record c { errors = null }))
  detach_loop env.rounds ctx c.errors 0

-- The text that `context_debug_log_live_errors` formats, and the part of it that fits its buffer.
unfoldable pub live_errors_text : ℕ → Bytes
live_errors_text live =
    codes "gitledger_context_destroy: "
    ++ (decimal live ++ codes " live error(s) at context teardown (leaked)\n")

unfoldable pub debug_log_live_errors : ℕ → M (Unit {0})
debug_log_live_errors live =
    let text = live_errors_text live in
    let len = if ltb (length text) diag_buf then length text else diag_buf - 1 in
    if live == 0 then skip else print_error (live_errors (take len text))

-- The critical section of `context_register_error`: the node goes to the registry's front.
unfoldable pub link_node : Ptr → Ptr → (err : Ptr) → M (Unit {0})
link_node ctx p err = do
  lock ctx
  c ← load_context ctx
  store p (node (record { error = err; next = c.errors }))
  store ctx (context (record c { errors = p }))
  unlock ctx

-- `context_register_error`, which `gitledger_context_track_error_internal` calls.
unfoldable pub register_error : Env → Ptr → Ptr → M Bool
register_error env ctx err = do
  v ← is_valid ctx
  if not v then pure false else do
    p ← alloc env ctx env.sizeof_node
    if p == null
        then print_error (register_failed ctx err) >> pure false
        else do store p (node (record { error = err; next = null })); link_node ctx p err; pure true

-- `gitledger_error_node_t** cursor`: the field `errors` of the context, or a node's field `next`.
pub data Cursor : Type 0 where
  at_head : Cursor
  at_next : Ptr → Cursor

unfoldable pub get_cursor : Ptr → Cursor → M Ptr
get_cursor ctx at_head = do c ← load_context ctx; pure c.errors
get_cursor ctx (at_next p) = do n ← load_node p; pure n.next

unfoldable pub set_cursor : Ptr → Cursor → Ptr → M (Unit {0})
set_cursor ctx at_head q = do c ← load_context ctx; store ctx (context (record c { errors = q }))
set_cursor ctx (at_next p) q = do n ← load_node p; store p (node (record n { next = q }))

unfoldable pub unregister_loop : (fuel : ℕ) → Ptr → Ptr → Cursor → M (Unit {0})
unregister_loop zero ctx err cursor = λ _. out_of_fuel
unregister_loop (suc fuel) ctx err cursor = do
  p ← get_cursor ctx cursor
  if p == null then unlock ctx else do
    n ← load_node p
    if n.error == err
        then (do set_cursor ctx cursor n.next; unlock ctx; free ctx p)
        else unregister_loop fuel ctx err (at_next p)

-- `context_unregister_error`, which `gitledger_context_untrack_error_internal` calls.
unfoldable pub unregister_error : Env → Ptr → Ptr → M (Unit {0})
unregister_error env ctx err = do
  v ← is_valid ctx
  if not v then skip else do lock ctx; unregister_loop env.rounds ctx err at_head

-- The defaults of `gitledger_context_create`, for an argument that is NULL or has NULL parts.
unfoldable pub complete_allocator : Option Allocator → Allocator
complete_allocator none = record { alloc = default_alloc; free = default_free; userdata = null }
complete_allocator (some a) = record a {
  alloc = if a.alloc == null then default_alloc else a.alloc;
  free = if a.free == null then default_free else a.free;
}

abbrev pub new_context : Allocator → Context
new_context a = record {
  magic = context_magic;
  generation = 1;
  refcount = 1;
  allocator = a;
  errors = null;
  locked = false;
}

unfoldable pub create : Env → Option Allocator → M Ptr
create env given = do
  let a = complete_allocator given
  ctx ← call_alloc env a env.sizeof_context
  if ctx == null then pure null else do store ctx (context (new_context a)); pure ctx

unfoldable pub retain : Ptr → M (Unit {0})
retain ctx = do
  v ← is_valid ctx
  if v
      then (do
        c ← load_context ctx
        store ctx (context (record c { refcount = add_one32 c.refcount })))
      else skip

-- The first part of `context_destroy`, under the lock: the number of live errors.
unfoldable pub live_error_count : Env → Ptr → M (Bool × ℕ)
live_error_count env ctx = do
  lock ctx
  c ← load_context ctx
  live ← (if c.errors == null then pure 0 else count_errors_locked env ctx)
  unlock ctx
  pure (not (c.errors == null), live)

-- What `context_destroy` does with live errors: a debug build aborts, a release build takes the
-- reference back and refuses.
unfoldable pub refuse : Env → Ptr → ℕ → M CInt
refuse env ctx live = do
  debug_log_live_errors live
  if env.debug then (λ _. aborted) else do
    c ← load_context ctx
    store ctx (context (record c { refcount = add_one32 c.refcount }))
    pure (pos 0)

-- The rest of `context_destroy`.
unfoldable pub teardown : Env → Ptr → M CInt
teardown env ctx = do
  bump_generation ctx
  live ← detach_and_free_error_nodes env ctx
  debug_log_live_errors live
  c ← load_context ctx
  store ctx (context (record c { magic = 0 }))
  call_free c.allocator ctx
  pure (pos 1)

unfoldable pub destroy : Env → Ptr → M CInt
destroy env ctx = do
  (has_errors, live) ← live_error_count env ctx
  if has_errors then refuse env ctx live else teardown env ctx

-- `gitledger_context_try_release`: 1 destroyed, 0 not destroyed, -1 invalid.
unfoldable pub try_release : Env → Ptr → M CInt
try_release env ctx = do
  v ← is_valid ctx
  if not v then pure (negsuc 0) else do
    c ← load_context ctx
    store ctx (context (record c { refcount = sub_one32 c.refcount }))
    if c.refcount == 1 then destroy env ctx else pure (pos 0)

-- `gitledger_context_release`.
unfoldable pub release : Env → Ptr → M (Unit {0})
release env ctx = do _ ← try_release env ctx; skip
