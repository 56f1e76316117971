-- ===== src/Context/Threads/Completion.antt =====
-- Threads that can still go on: from every state there is a way to the end of all of them.
use libgitledger.Prelude.{ℕ, zero, suc, ◌≡◌, refl, ◌∙◌, List, arith}
use libgitledger.Memory.{Ptr, ok, Memory}
use libgitledger.Context.{unlock}
use libgitledger.Context.Threads.{
  Body, finish, access, run_body, guarded, Thread, Reach, start, later, all_waiting, results,
  number_inside, Serial,
}
use libgitledger.Prelude.Insert.{Shuffle}
use libgitledger.Context.Threads.Keeps.{Keeps}
use libgitledger.Context.Threads.Steps.{Holder, Holder-number}
use libgitledger.Context.Threads.Progress.{
  and_then-ok, number_waiting, Pending, Holder-Pending, act_holder, leave_holder, first_waiting,
  guarded-ok,
}
use libgitledger.Context.Threads.Order.{free, held, Reach-Phase}

module _ {J : Type 0} (ctx : Ptr) (program : J → Body) where
  -- Nobody is inside, and nobody waits.
  abbrev pub AllDone : List (Thread ctx program) → Type 0
  AllDone ts = (number_inside ctx program ts ≡ 0) × (number_waiting ctx program ts ≡ 0)

  module _ (m0 : Memory) (js : List J) where
    abbrev pub Reached : Memory → List (Thread ctx program) → Type 0
    Reached m ts = Reach ctx program m0 (all_waiting ctx program js) m ts

    -- A state that is reached from the start and from `m` and `ts`, with nobody inside.
    record Quiet (m : Memory) (ts : List (Thread ctx program)) (n : ℕ) : Type 0 where
      memory : Memory
      threads : List (Thread ctx program)
      reached : Reached memory threads
      onward : Reach ctx program m ts memory threads
      quiet : number_inside ctx program threads ≡ 0
      left : number_waiting ctx program threads ≡ n

    -- The thread that is inside comes to its end.
    finish_holder :
        (r : Body) {j : J} {m : Memory} {ts : List (Thread ctx program)} {m' m1 m2 : Memory}
        {ts' : List (Thread ctx program)} (v : Ptr) (n : ℕ)
        → Reached m' ts'
        → Reach ctx program m ts m' ts'
        → Holder ctx program j r ts'
        → run_body r m' ≡ ok v m1
        → unlock ctx m1 ≡ ok tt m2
        → number_waiting ctx program ts' ≡ n
        → Quiet m ts n
    unfolding run_body
    finish_holder (finish w) {m'} {m1} {m2} v n at from h e u k =
        let same : m' ≡ m1 = cc in
        let g = leave_holder ctx program h (rw same u) in
        record {
          memory = m2;
          threads = g.after;
          reached = later at g.step;
          onward = later from g.step;
          quiet = g.quiet;
          left = omega (arith, g.fewer);
        }
    finish_holder (access f rest) {m'} v n at from h e u k =
        let (w, m3, e1, e2) = and_then-ok (f m') (λ w. run_body (rest w)) e in
        let g = act_holder ctx program h e1 in
        finish_holder (rest w) v n (later at g.step) (later from g.step) g.holder e2 u
          (omega (arith, g.fewer))

    module _ (keeps : (j : J) → Keeps ctx (program j))
        (safe : (log : List (J × Ptr)) (m1 m : Memory) (ts : List (Thread ctx program)) (j : J)
          → Reached m ts
          → Serial ctx program m0 log m1
          → Shuffle log (results ctx program ts)
          → Pending ctx program j ts
          → (v : Ptr) × (m' : Memory) × (guarded ctx (program j) m1 ≡ ok v m')) where
      run_waiting :
          (n : ℕ) {m : Memory} {ts : List (Thread ctx program)} → Quiet m ts n → Quiet m ts 0
      run_waiting zero s = s
      run_waiting (suc n) s =
          let (j, p, go) = first_waiting ctx program s.threads n s.left s.quiet in
          elim (Reach-Phase ctx program keeps js s.reached) [
            | free {log} ser sh q ↦
                let (v, m', e) = safe log s.memory s.memory s.threads j s.reached ser sh p in
                let (m1, m2, e1, e2, e3) = guarded-ok ctx program j s.memory m' v e in
                let g = go s.memory m1 e1 in
                run_waiting n (
                  finish_holder (program j) v n (later s.reached g.step) (later s.onward g.step)
                    g.holder e2 e3 (omega (arith, g.fewer, s.left)))
            | held m1 m2 i r ser sh l e taken k h ↦
                absurd (omega (arith, s.quiet, Holder-number ctx program h))
          ]

      -- From every state that the threads reach they can go on until all are done.
      pub all_finish :
          {m : Memory} {ts : List (Thread ctx program)}
          → Reached m ts
          → (m' : Memory) × (ts' : List (Thread ctx program)) × Reach ctx program m ts m' ts'
            × AllDone ts'
      all_finish {m} {ts} at =
          let s =
            elim (Reach-Phase ctx program keeps js at)
              as (λ x. Quiet m ts (number_waiting ctx program ts)) [
                | free ser sh q ↦ record {
                  memory = m;
                  threads = ts;
                  reached = at;
                  onward = start;
                  quiet = q;
                  left = refl;
                }
                | held {log} m1 m2 j r ser sh l e taken k h ↦
                    let (v, m', run) =
                      safe log m1 m ts j at ser sh (Holder-Pending ctx program h) in
                    let (n1, n2, e1, e2, e3) = guarded-ok ctx program j m1 m' v run in
                    let same : m2 ≡ n1 = cc in
                    finish_holder r v (number_waiting ctx program ts) at start h (e ∙ rw same e2) e3
                      refl
              ] in
          let d = run_waiting (number_waiting ctx program ts) s in
          (d.memory, d.threads, d.onward, (d.quiet, d.left))
