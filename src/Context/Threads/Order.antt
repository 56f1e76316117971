-- ===== src/Context/Threads/Order.antt =====
-- Whatever the order of the accesses, the sections have the effect of whole sections in turn.
use libgitledger.Prelude.{◌≤◌, ◌≡◌, refl, sym, subst, List, [], ◌∷◌, arith}
use libgitledger.Memory.{Ptr, Memory, ok, blocked}
use libgitledger.Context.{lock, unlock}
use libgitledger.Context.Threads.{
  Body, finish, run_body, guarded, Thread, Step, Reach, start, later, all_waiting, results,
  number_inside, Serial, idle, then_run,
}
use libgitledger.Prelude.Insert.{Shuffle, none_left, put, Shuffle-perm}
use libgitledger.Context.Threads.Keeps.{Keeps, lock-lock}
use libgitledger.Context.Threads.Steps.{
  Holder, holder_behind, FreeStep, spun, entered, HeldStep, acted, left, free_step, held_step,
  Holder-number,
}
use mathlib.Core.List.{Perm}

module _ {J : Type 0} (ctx : Ptr) (program : J → Body) where
  -- What the threads have done so far, when the memory was `m0` at the start.
  pub data Phase (m0 m : Memory) (ts : List (Thread ctx program)) : Type 0 where
    free :
        {log : List (J × Ptr)}
        → Serial ctx program m0 log m
        → Shuffle log (results ctx program ts)
        → number_inside ctx program ts ≡ 0
        → Phase m0 m ts
    held :
        {log : List (J × Ptr)} (m1 m2 : Memory) (j : J) (r : Body)
        → Serial ctx program m0 log m1
        → Shuffle log (results ctx program ts)
        → lock ctx m1 ≡ ok tt m2
        → run_body r m ≡ run_body (program j) m2
        → lock ctx m ≡ blocked
        → Keeps ctx r
        → Holder ctx program j r ts
        → Phase m0 m ts

  guarded_done :
      (m m1 m2 m' : Memory) (j : J) (v : Ptr)
      → lock ctx m1 ≡ ok tt m2
      → run_body (finish v) m ≡ run_body (program j) m2
      → unlock ctx m ≡ ok tt m'
      → guarded ctx (program j) m1 ≡ ok v m'
  unfolding guarded run_body
  guarded_done m m1 m2 m' j v l e u = rw l (rw (sym e) (rw u))

  module _ (keeps : (j : J) → Keeps ctx (program j)) {m0 : Memory} where
    free_Phase :
        {m m' : Memory} {ts ts' : List (Thread ctx program)} {log : List (J × Ptr)}
        → Serial ctx program m0 log m
        → Shuffle log (results ctx program ts)
        → number_inside ctx program ts ≡ 0
        → FreeStep ctx program m ts m' ts'
        → Phase m0 m' ts'
    free_Phase s sh q spun = free s sh q
    free_Phase {m} {m'} {log} s sh q (entered j l h e) =
        held m m' j (program j) s (subst (Shuffle log) (sym e) sh) l refl (lock-lock ctx m m' l)
          (keeps j) h

    held_Phase :
        {m m' m1 m2 : Memory} {ts ts' : List (Thread ctx program)} {log : List (J × Ptr)} {j : J}
        {r : Body}
        → Serial ctx program m0 log m1
        → Shuffle log (results ctx program ts)
        → lock ctx m1 ≡ ok tt m2
        → run_body r m ≡ run_body (program j) m2
        → lock ctx m ≡ blocked
        → Keeps ctx r
        → Holder ctx program j r ts
        → HeldStep ctx program m ts j r m' ts'
        → Phase m0 m' ts'
    unfolding run_body
    held_Phase {m1} {m2} {j} {r} s sh l e taken k h spun = held m1 m2 j r s sh l e taken k h
    held_Phase {m} {m'} {m1} {m2} {log} {j} s sh l e taken k h (acted {k = rest} v a hold same) =
        held m1 m2 j (rest v) s (subst (Shuffle log) (sym same) sh) l (rw a at e)
          (k.0 m m' v a taken) (k.1 v) hold
    held_Phase {m} {m'} {m1} {m2} {j} s sh l e taken k h (left v u q i) =
        free (then_run j v s (guarded_done m m1 m2 m' j v l e u)) (put sh i) q

    Step-Phase :
        {m m' : Memory} {ts ts' : List (Thread ctx program)}
        → Phase m0 m ts
        → Step ctx program m ts m' ts'
        → Phase m0 m' ts'
    Step-Phase (free s sh q) st = free_Phase s sh q (free_step ctx program st q)
    Step-Phase (held m1 m2 j r s sh l e taken k h) st =
        held_Phase s sh l e taken k h (held_step ctx program h taken st)

    Phase-start : (js : List J) → Phase m0 m0 (all_waiting ctx program js)
    Phase-start [] = free idle none_left refl
    Phase-start (j ∷ js) = elim (Phase-start js) [
      | free s sh q ↦ free s sh (omega arith)
      | held m1 m2 i r s sh l e taken k h ↦ held m1 m2 i r s sh l e taken k (holder_behind refl h)
    ]

    pub Reach-Phase :
        (js : List J) {m : Memory} {ts : List (Thread ctx program)}
        → Reach ctx program m0 (all_waiting ctx program js) m ts
        → Phase m0 m ts
    Reach-Phase js start = Phase-start js
    Reach-Phase js (later r st) = Step-Phase (Reach-Phase js r) st

    -- Threads that start in front of the lock of a context, whose sections leave the lock as it
    -- is, and whose steps interleave in any way, are never two inside their sections.
    pub mutual_exclusion :
        (js : List J) {m : Memory} {ts : List (Thread ctx program)}
        → Reach ctx program m0 (all_waiting ctx program js) m ts
        → number_inside ctx program ts ≤ 1
    mutual_exclusion js r = elim (Reach-Phase js r) [
      | free s sh q ↦ omega arith
      | held m1 m2 j b s sh l e taken k h ↦ omega (arith, Holder-number ctx program h)
    ]

    pub Reach-Shuffle :
        (js : List J) {m : Memory} {ts : List (Thread ctx program)}
        → Reach ctx program m0 (all_waiting ctx program js) m ts
        → number_inside ctx program ts ≡ 0
        → (log : List (J × Ptr)) × Serial ctx program m0 log m
          × Shuffle log (results ctx program ts)
    Reach-Shuffle js r q = elim (Reach-Phase js r) [
      | free {log} s sh q' ↦ (log, s, sh)
      | held m1 m2 j b s sh l e taken k h ↦ absurd (omega (arith, Holder-number ctx program h))
    ]

    -- Threads start in front of the lock of a context, their sections leave the lock as it is, and
    -- their steps interleave in any way. In each state with no thread inside, the memory is what
    -- the sections of the threads that are done make of it when they run whole, one after the
    -- other, in some order, with the results that the threads have.
    pub Reach-Serial :
        (js : List J) {m : Memory} {ts : List (Thread ctx program)}
        → Reach ctx program m0 (all_waiting ctx program js) m ts
        → number_inside ctx program ts ≡ 0
        → (log : List (J × Ptr)) × Serial ctx program m0 log m × Perm log (results ctx program ts)
    Reach-Serial js r q = let (log, s, sh) = Reach-Shuffle js r q in (log, s, Shuffle-perm sh)
