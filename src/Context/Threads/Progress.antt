-- ===== src/Context/Threads/Progress.antt =====
-- The steps that threads can take on their way to the end.
use libgitledger.Prelude.{ℕ, suc, ◌+◌, ◌≡◌, refl, List, [], ◌∷◌, arith}
use libgitledger.Memory.{Ptr, Run, ok, fault, aborted, blocked, out_of_fuel, Memory, M, and_then}
use libgitledger.Context.{lock, unlock}
use libgitledger.Context.Threads.{
  Body, finish, access, run_body, guarded, Thread, waiting, inside, done, enter, act, leave, Step,
  this, other, number_inside,
}
use libgitledger.Context.Threads.Steps.{Holder, holder_here, holder_behind}

-- A result that came through a bind came through both parts.
pub and_then-ok :
    {A B : Type 0} (r : Run A) (k : A → M B) {b : B} {m' : Memory}
    → and_then r k ≡ ok b m'
    → (a : A) × (m : Memory) × (r ≡ ok a m) × (k a m ≡ ok b m')
and_then-ok (ok a m) k e = (a, m, refl, e)
and_then-ok fault k e = cc
and_then-ok aborted k e = cc
and_then-ok blocked k e = cc
and_then-ok out_of_fuel k e = cc

module _ {J : Type 0} (ctx : Ptr) (program : J → Body) where
  abbrev pub number_waiting : List (Thread ctx program) → ℕ
  number_waiting [] = 0
  number_waiting (waiting j ∷ ts) = number_waiting ts + 1
  number_waiting (inside j b ∷ ts) = number_waiting ts
  number_waiting (done j v ∷ ts) = number_waiting ts

  -- A thread is not done with the job `j`.
  pub data Pending (j : J) : List (Thread ctx program) → Type 0 where
    pending_waiting : {ts : List (Thread ctx program)} → Pending j (waiting j ∷ ts)
    pending_inside : {b : Body} {ts : List (Thread ctx program)} → Pending j (inside j b ∷ ts)
    pending_behind :
        {t : Thread ctx program} {ts : List (Thread ctx program)}
        → Pending j ts
        → Pending j (t ∷ ts)

  pub Holder-Pending :
      {j : J} {r : Body} {ts : List (Thread ctx program)} → Holder ctx program j r ts → Pending j ts
  Holder-Pending (holder_here q) = pending_inside
  Holder-Pending (holder_behind w h) = pending_behind (Holder-Pending h)

  -- The same step with one thread more.
  number_waiting-cons :
      (t : Thread ctx program) (ts ts' : List (Thread ctx program)) (n : ℕ)
      → number_waiting ts ≡ number_waiting ts' + n
      → number_waiting (t ∷ ts) ≡ number_waiting (t ∷ ts') + n
  number_waiting-cons (waiting j) ts ts' n e = omega arith
  number_waiting-cons (inside j b) ts ts' n e = omega arith
  number_waiting-cons (done j v) ts ts' n e = omega arith

  pub record Goes (m : Memory) (ts : List (Thread ctx program)) (m' : Memory) (j : J) (r : Body)
      (n : ℕ) : Type 0 where
    pub after : List (Thread ctx program)
    pub step : Step ctx program m ts m' after
    pub holder : Holder ctx program j r after
    pub fewer : number_waiting ts ≡ number_waiting after + n

  pub act_holder :
      {j : J} {f : M Ptr} {k : Ptr → Body} {ts : List (Thread ctx program)} {m m' : Memory}
      {v : Ptr}
      → Holder ctx program j (access f k) ts
      → f m ≡ ok v m'
      → Goes m ts m' j (k v) 0
  act_holder (holder_here q) e = record {
    after = _;
    step = this (act e);
    holder = holder_here q;
    fewer = omega arith;
  }
  act_holder (holder_behind {t} w h) e =
      let g = act_holder h e in
      record {
        after = t ∷ g.after;
        step = other g.step;
        holder = holder_behind w g.holder;
        fewer = number_waiting-cons t _ g.after 0 g.fewer;
      }

  pub record Leaves (m : Memory) (ts : List (Thread ctx program)) (m' : Memory) : Type 0 where
    pub after : List (Thread ctx program)
    pub step : Step ctx program m ts m' after
    pub quiet : number_inside ctx program after ≡ 0
    pub fewer : number_waiting ts ≡ number_waiting after + 0

  pub leave_holder :
      {j : J} {v : Ptr} {ts : List (Thread ctx program)} {m m' : Memory}
      → Holder ctx program j (finish v) ts
      → unlock ctx m ≡ ok tt m'
      → Leaves m ts m'
  leave_holder (holder_here q) e = record {
    after = _;
    step = this (leave e);
    quiet = omega arith;
    fewer = omega arith;
  }
  leave_holder (holder_behind {t} w h) e =
      let g = leave_holder h e in
      record {
        after = t ∷ g.after;
        step = other g.step;
        quiet = omega (arith, g.quiet);
        fewer = number_waiting-cons t _ g.after 0 g.fewer;
      }

  -- The first that waits may enter.
  pub first_waiting :
      (ts : List (Thread ctx program)) (n : ℕ)
      → number_waiting ts ≡ suc n
      → number_inside ctx program ts ≡ 0
      → (j : J) × Pending j ts
        × ((m m' : Memory) → lock ctx m ≡ ok tt m' → Goes m ts m' j (program j) 1)
  first_waiting [] n e q = absurd (omega arith)
  first_waiting (waiting j ∷ ts) n e q = (
    j,
    pending_waiting,
    λ m m' l. record {
      after = _;
      step = this (enter l);
      holder = holder_here (omega arith);
      fewer = refl;
    },
  )
  first_waiting (inside j b ∷ ts) n e q = absurd (omega arith)
  first_waiting (done i v ∷ ts) n e q =
      let (j, p, go) = first_waiting ts n e (omega arith) in
      (
        j,
        pending_behind p,
        λ m m' l.
            let g = go m m' l in
            record {
              after = done i v ∷ g.after;
              step = other g.step;
              holder = holder_behind refl g.holder;
              fewer = g.fewer;
            },
      )

  pub guarded-ok :
      (j : J) (m m' : Memory) (v : Ptr)
      → guarded ctx (program j) m ≡ ok v m'
      → (m1 : Memory) × (m2 : Memory) × (lock ctx m ≡ ok tt m1)
        × (run_body (program j) m1 ≡ ok v m2)
        × (unlock ctx m2 ≡ ok tt m')
  unfolding guarded
  guarded-ok j m m' v e =
      let (u, m1, e1, e2) = and_then-ok (lock ctx m) _ e in
      let (w, m2, e3, e4) = and_then-ok (run_body (program j) m1) _ e2 in
      let (z, m3, e5, e6) = and_then-ok (unlock ctx m2) _ e4 in (m1, m2, e1, cc, cc)
