-- ===== src/Cache/Threads.antt =====
-- Several threads in `gitledger_error_json` of one error whose cache is of the current generation:
-- their steps on the shared memory interleave.
pub mod Owners
pub mod Moves
pub mod Publishing
pub mod Reading
pub mod Winner
pub mod Agreement
use libgitledger.Prelude.{ℕ, ◌≡◌, Bool, true, false, ◌||◌, List, [], ◌∷◌, ◌==◌, if◌then◌else◌}
use libgitledger.Text.{Bytes}
use libgitledger.Memory.{
  Ptr, null, ErrorObject, error, bytes, Env, Memory, M, ok, pure, ◌>>=◌, ◌>>◌, skip, load_error,
  store,
}
use libgitledger.Context
use libgitledger.Json.{render_json}
use libgitledger.Cache.{ensure_current}
use libgitledger.Memory.{load_bytes}
use libgitledger.Prelude.{Option, none, some}

-- `atomic_compare_exchange_strong` of the cache with NULL for the expected pointer; the result is
-- the pointer that was there.
unfoldable pub exchange : Ptr → Ptr → M Ptr
exchange err buffer = do
  e ← load_error err
  if e.json_cache == null then store err (error (record e { json_cache = buffer })) else skip
  pure e.json_cache

-- The second rendering, into a new buffer of the size that the first one required; NULL for want
-- of room. Nobody else has the buffer yet.
unfoldable pub fill : Env → Ptr → (required : ℕ) → M Ptr
fill env err required = do
  e ← load_error err
  buffer ← Context.alloc env e.ctx required
  if buffer == null then pure null else do
    array ← load_bytes buffer
    (_, rendered) ← render_json env err (some array) required
    store buffer (bytes (elim rendered [ none ↦ array | some xs ↦ xs ]))
    pure buffer

-- Where a thread stands in `gitledger_error_json`: at the check of the generation, at the load of
-- the cache, at the first rendering, at the second with what the first required, at the exchange
-- with its buffer, at the return of its buffer for the cache of another; it is done with a pointer,
-- or with "{}".
pub data Thread : Type 0 where
  starting : Thread
  asking : Thread
  measuring : Thread
  making : ℕ → Thread
  holding : Ptr → Thread
  losing : Ptr → Ptr → Thread
  done : Ptr → Thread
  without : Thread

-- The steps of a thread; the error is at `q`.
module _ (env : Env) (q : Ptr) where
  pub data Move : Memory → Thread → Memory → Thread → Type 0 where
    checked : {m m' : Memory} → ensure_current q m ≡ ok tt m' → Move m starting m' asking
    found :
        {m : Memory} {e : ErrorObject}
        → load_error q m ≡ ok e m
        → (e.json_cache == null) ≡ false
        → Move m asking m (done e.json_cache)
    no_context :
        {m : Memory} {e : ErrorObject}
        → load_error q m ≡ ok e m
        → (e.json_cache == null) ≡ true
        → (e.ctx == null) ≡ true
        → Move m asking m without
    missed :
        {m : Memory} {e : ErrorObject}
        → load_error q m ≡ ok e m
        → (e.json_cache == null) ≡ true
        → (e.ctx == null) ≡ false
        → Move m asking m measuring
    measured :
        {m m' : Memory} {required : ℕ} {nothing : Option Bytes}
        → render_json env q none 0 m ≡ ok (required, nothing) m'
        → Move m measuring m' (making required)
    made :
        {m m' : Memory} {required : ℕ} {b : Ptr}
        → fill env q required m ≡ ok b m'
        → (b == null) ≡ false
        → Move m (making required) m' (holding b)
    no_room :
        {m m' : Memory} {required : ℕ} {b : Ptr}
        → fill env q required m ≡ ok b m'
        → (b == null) ≡ true
        → Move m (making required) m' without
    won :
        {m m' : Memory} {b j : Ptr}
        → exchange q b m ≡ ok j m'
        → (j == null) ≡ true
        → Move m (holding b) m' (done b)
    lost :
        {m m' : Memory} {b j : Ptr}
        → exchange q b m ≡ ok j m'
        → (j == null) ≡ false
        → Move m (holding b) m' (losing b j)
    freed :
        {m m' : Memory} {b j : Ptr} {e : ErrorObject}
        → load_error q m ≡ ok e m
        → Context.free e.ctx b m ≡ ok tt m'
        → Move m (losing b j) m' (done j)

-- The second list is the first with `t'` in the place of `t`.
pub data Change (t t' : Thread) : List Thread → List Thread → Type 0 where
  here : {ts : List Thread} → Change t t' (t ∷ ts) (t' ∷ ts)
  there : {u : Thread} {ts ts' : List Thread} → Change t t' ts ts' → Change t t' (u ∷ ts) (u ∷ ts')

module _ (env : Env) (q : Ptr) where
  pub data Reach (m0 : Memory) (ts0 : List Thread) : Memory → List Thread → Type 0 where
    start : Reach m0 ts0 m0 ts0
    later :
        {m m' : Memory} {ts ts' : List Thread} {t t' : Thread}
        → Reach m0 ts0 m ts
        → Move env q m t m' t'
        → Change t t' ts ts'
        → Reach m0 ts0 m' ts'

-- The address of a thread's own buffer.
abbrev pub mine : Ptr → Thread → Bool
mine r (holding b) = r == b
mine r (losing b j) = r == b
mine r t = false

abbrev pub owns : Ptr → List Thread → Bool
owns r [] = false
owns r (t ∷ ts) = mine r t || owns r ts
