-- ===== src/Context/Threads/Steps.antt =====
-- What a step of the threads is while nobody is inside, and while one of them is.
use libgitledger.Prelude.{◌≡◌, refl, List, ◌∷◌, ◌++◌, arith}
use libgitledger.Memory.{Ptr, Memory, M, ok, blocked}
use libgitledger.Context.{lock, unlock}
use libgitledger.Context.Threads.{
  Body, finish, access, Thread, waiting, inside, done, enter, spin, act, leave, Step, this, other,
  result, results, weight, number_inside,
}
use libgitledger.Prelude.Insert.{Insert, front, behind}

module _ {J : Type 0} (ctx : Ptr) (program : J → Body) where
  -- Just one thread is inside, with the job `j` and the rest `r` of its section.
  pub data Holder (j : J) (r : Body) : List (Thread ctx program) → Type 0 where
    holder_here :
        {ts : List (Thread ctx program)}
        → number_inside ctx program ts ≡ 0
        → Holder j r (inside j r ∷ ts)
    holder_behind :
        {t : Thread ctx program} {ts : List (Thread ctx program)}
        → weight ctx program t ≡ 0
        → Holder j r ts
        → Holder j r (t ∷ ts)

  -- A step while nobody is inside.
  pub data FreeStep (m : Memory) (ts : List (Thread ctx program))
      : Memory → List (Thread ctx program) → Type 0 where
    spun : FreeStep m ts m ts
    entered :
        {m' : Memory} {ts' : List (Thread ctx program)} (j : J)
        → lock ctx m ≡ ok tt m'
        → Holder j (program j) ts'
        → results ctx program ts' ≡ results ctx program ts
        → FreeStep m ts m' ts'

  pub free_step :
      {m m' : Memory} {ts ts' : List (Thread ctx program)}
      → Step ctx program m ts m' ts'
      → number_inside ctx program ts ≡ 0
      → FreeStep m ts m' ts'
  free_step (this (enter {j} l)) q = entered j l (holder_here (omega arith)) refl
  free_step (this (spin l)) q = spun
  free_step (this (act l)) q = absurd (omega arith)
  free_step (this (leave l)) q = absurd (omega arith)
  free_step (other {t} st) q = behind_one (free_step st (omega arith))
    where
      behind_one :
          {m m' : Memory} {ts ts' : List (Thread ctx program)}
          → FreeStep m ts m' ts'
          → FreeStep m (t ∷ ts) m' (t ∷ ts')
      behind_one spun = spun
      behind_one (entered j l h e) =
          entered j l (holder_behind (omega arith) h) (λ i. result ctx program t ++ e i)

  -- A step while a thread is inside with the rest `r` of its section.
  pub data HeldStep (m : Memory) (ts : List (Thread ctx program)) (j : J)
      : Body → Memory → List (Thread ctx program) → Type 0 where
    spun : {r : Body} → HeldStep m ts j r m ts
    acted :
        {m' : Memory} {ts' : List (Thread ctx program)} {f : M Ptr} {k : Ptr → Body} (v : Ptr)
        → f m ≡ ok v m'
        → Holder j (k v) ts'
        → results ctx program ts' ≡ results ctx program ts
        → HeldStep m ts j (access f k) m' ts'
    left :
        {m' : Memory} {ts' : List (Thread ctx program)} (v : Ptr)
        → unlock ctx m ≡ ok tt m'
        → number_inside ctx program ts' ≡ 0
        → Insert (j, v) (results ctx program ts) (results ctx program ts')
        → HeldStep m ts j (finish v) m' ts'

  Insert-result :
      (t : Thread ctx program) {x : J × Ptr} {xs ys : List (J × Ptr)}
      → Insert x xs ys
      → Insert x (result ctx program t ++ xs) (result ctx program t ++ ys)
  Insert-result (waiting j) i = i
  Insert-result (inside j b) i = i
  Insert-result (done j v) i = behind i

  pub held_step :
      {j : J} {r : Body} {m m' : Memory} {ts ts' : List (Thread ctx program)}
      → Holder j r ts
      → lock ctx m ≡ blocked
      → Step ctx program m ts m' ts'
      → HeldStep m ts j r m' ts'
  held_step (holder_here q) taken (this (act {v} e)) = acted v e (holder_here q) refl
  held_step (holder_here q) taken (this (leave {v} e)) = left v e (omega arith) front
  held_step {m} (holder_here {ts} q) taken (other st) = waits (free_step st q)
    where
      waits :
          {m' : Memory} {ts' : List (Thread ctx program)} {j : J} {r : Body}
          → FreeStep m ts m' ts'
          → HeldStep m (inside j r ∷ ts) j r m' (inside j r ∷ ts')
      waits spun = spun
      waits (entered i l h e) = absurd (cc)
  held_step (holder_behind w h) taken (this (enter l)) = absurd (cc)
  held_step (holder_behind w h) taken (this (spin l)) = spun
  held_step (holder_behind w h) taken (this (act l)) = absurd (omega arith)
  held_step (holder_behind w h) taken (this (leave l)) = absurd (omega arith)
  held_step (holder_behind {t} w h) taken (other st) = behind_one (held_step h taken st)
    where
      behind_one :
          {m m' : Memory} {ts ts' : List (Thread ctx program)} {j : J} {r : Body}
          → HeldStep m ts j r m' ts'
          → HeldStep m (t ∷ ts) j r m' (t ∷ ts')
      behind_one spun = spun
      behind_one (acted v e hold same) =
          acted v e (holder_behind w hold) (λ i. result ctx program t ++ same i)
      behind_one (left v e q i) = left v e (omega arith) (Insert-result t i)

  pub Holder-number :
      {j : J} {r : Body} {ts : List (Thread ctx program)}
      → Holder j r ts
      → number_inside ctx program ts ≡ 1
  Holder-number (holder_here q) = omega arith
  Holder-number (holder_behind w h) = omega (arith, Holder-number h)
