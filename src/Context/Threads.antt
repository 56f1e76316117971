-- ===== src/Context/Threads.antt =====
-- Several threads at the lock of one context (libgitledger/core/context.c). Each runs a critical
-- section, one access to the memory at a time, and the accesses of the threads interleave.
pub mod Keeps
pub mod Steps
pub mod Order
pub mod Sections
pub mod Registering
pub mod Unlinking
pub mod Jobs
pub mod Progress
pub mod Completion
pub mod Ending
use libgitledger.Prelude.{ℕ, ◌+◌, ◌≡◌, Bool, List, [], ◌∷◌, ◌++◌}
use libgitledger.Memory.{Ptr, Memory, M, ok, blocked, pure, ◌>>=◌, ◌>>◌}
use libgitledger.Context.{lock, unlock}

-- What a thread does while it holds the lock: accesses, each of which gives a pointer, to the end,
-- where the section has its result.
pub data Body : Type 0 where
  finish : Ptr → Body
  access : M Ptr → (Ptr → Body) → Body

unfoldable pub run_body : Body → M Ptr
run_body (finish v) = pure v
run_body (access f k) = f >>= λ v. run_body (k v)

-- `context_lock`, the section, and `context_unlock`, with nobody else running.
unfoldable pub guarded : Ptr → Body → M Ptr
guarded ctx b = do lock ctx; v ← run_body b; unlock ctx; pure v

module _ {J : Type 0} (ctx : Ptr) (program : J → Body) where
  -- A thread has a job. It waits at the lock, is inside with the rest of its section, or is done.
  pub data Thread : Type 0 where
    waiting : J → Thread
    inside : J → Body → Thread
    done : J → Ptr → Thread

  -- One step of one thread: `atomic_flag_test_and_set` in `context_lock`, which finds the flag clear
  -- or set, an access, and `context_unlock`.
  pub data Move : Memory → Thread → Memory → Thread → Type 0 where
    enter :
        {m m' : Memory} {j : J}
        → lock ctx m ≡ ok tt m'
        → Move m (waiting j) m' (inside j (program j))
    spin : {m : Memory} {j : J} → lock ctx m ≡ blocked → Move m (waiting j) m (waiting j)
    act :
        {m m' : Memory} {j : J} {f : M Ptr} {k : Ptr → Body} {v : Ptr}
        → f m ≡ ok v m'
        → Move m (inside j (access f k)) m' (inside j (k v))
    leave :
        {m m' : Memory} {j : J} {v : Ptr}
        → unlock ctx m ≡ ok tt m'
        → Move m (inside j (finish v)) m' (done j v)

  pub data Step : Memory → List Thread → Memory → List Thread → Type 0 where
    this :
        {m m' : Memory} {t t' : Thread} {ts : List Thread}
        → Move m t m' t'
        → Step m (t ∷ ts) m' (t' ∷ ts)
    other :
        {m m' : Memory} {t : Thread} {ts ts' : List Thread}
        → Step m ts m' ts'
        → Step m (t ∷ ts) m' (t ∷ ts')

  pub data Reach (m0 : Memory) (ts0 : List Thread) : Memory → List Thread → Type 0 where
    start : Reach m0 ts0 m0 ts0
    later :
        {m m' : Memory} {ts ts' : List Thread}
        → Reach m0 ts0 m ts
        → Step m ts m' ts'
        → Reach m0 ts0 m' ts'

  abbrev pub all_waiting : List J → List Thread
  all_waiting [] = []
  all_waiting (j ∷ js) = waiting j ∷ all_waiting js

  abbrev pub job : Thread → J
  job (waiting j) = j
  job (inside j b) = j
  job (done j v) = j

  abbrev pub jobs : List Thread → List J
  jobs [] = []
  jobs (t ∷ ts) = job t ∷ jobs ts

  -- The jobs that are done, with their results.
  abbrev pub result : Thread → List (J × Ptr)
  result (waiting j) = []
  result (inside j b) = []
  result (done j v) = (j, v) ∷ []

  abbrev pub results : List Thread → List (J × Ptr)
  results [] = []
  results (t ∷ ts) = result t ++ results ts

  abbrev pub weight : Thread → ℕ
  weight (waiting j) = 0
  weight (inside j b) = 1
  weight (done j v) = 0

  abbrev pub number_inside : List Thread → ℕ
  number_inside [] = 0
  number_inside (t ∷ ts) = weight t + number_inside ts

  -- The sections of the jobs run whole, one after the other, the last of the list first of all.
  pub data Serial (m0 : Memory) : List (J × Ptr) → Memory → Type 0 where
    idle : Serial m0 [] m0
    then_run :
        {m m' : Memory} {log : List (J × Ptr)} (j : J) (v : Ptr)
        → Serial m0 log m
        → guarded ctx (program j) m ≡ ok v m'
        → Serial m0 ((j, v) ∷ log) m'
