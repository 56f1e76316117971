-- ===== src/Session/Client/Life.antt =====
-- Any number of commands of a caller that follows the rules of ownership, from
-- `gitledger_context_create` to `gitledger_context_try_release`.
use libgitledger.Prelude.{
  ℕ, zero, suc, ◌+◌, ◌-◌, ◌*◌, ◌^◌, ◌<◌, ◌≡◌, ◌⊎◌, refl, false, Option, none, some, List, [], ◌∷◌,
  ◌==◌, ==_refl, arith, inl, inr, Bool-cases, length,
}
use libgitledger.Text.{pos}
use libgitledger.Memory.{Ptr, null, Allocator, Context, Env, Memory, ok}
use libgitledger.Context.{complete_allocator, new_context, create}
use libgitledger.Context.Registry.Creation.{Created, create_out_of_memory, create-IsContext}
use libgitledger.Session.{Item, Session}
use libgitledger.Session.Last.{Session-hands}
use libgitledger.Session.Drop.{release-Session}
use libgitledger.Session.Ends.{create-Session, try_release-Session}
use libgitledger.Session.Counters.{try_release_shared-Session}
use libgitledger.Session.Client.{Command, Client, Handles, obey, perform, release_all, close, life}
use libgitledger.Session.Client.Holding.{times, Holds, Left, gave_up, goes_on, length-Remains}
use libgitledger.Session.Client.Obeys.{Obeyed, obey_lem}

go_on :
    {env : Env} (command : Command) (commands : List Command) {base : Memory} (m : Memory)
    {m1 : Memory} {p : Ptr} (self : Client) (end : Option Client)
    → ((after : Client)
        → Holds env base m1 p after (length commands)
        → Obeyed env base p 0 (perform env p commands after m1))
    → obey env p command self m ≡ ok end m1
    → Left env base m1 p (length commands) end
    → Obeyed env base p 0 (perform env p (command ∷ commands) self m)
go_on command commands m {m1} self none performs run gave_up = (none, m1, rw run refl, gave_up)
go_on command commands m self (some after) performs run (goes_on h1) =
    let (last, m', run', left) = performs after h1 in (last, m', rw run run', left)

-- A caller that can obey as many commands as there are in the list performs it without a fault.
pub perform_lem :
    (env : Env)
    → env.debug ≡ false
    → (commands : List Command) {base m : Memory} {p : Ptr} {self : Client}
    → Holds env base m p self (length commands)
    → Obeyed env base p 0 (perform env p commands self m)
perform_lem env build [] {m} {self} h = (some self, m, refl, goes_on h)
perform_lem env build (command ∷ commands) {m} {self} h =
    let (end, m1, run, left) = obey_lem h build command in
    go_on command commands m self end (λ after h1. perform_lem env build commands h1) run left

-- All that is held is given up, one after the other.
pub release_all_lem :
    (env : Env) (qs : Handles) {base m : Memory} {p : Ptr} {c : Context} {ys : List Item}
    → length ys < env.rounds
    → times qs null ≡ 0
    → Session base m p c (times qs) ys
    → (m' : Memory) × (zs : List Item) × (release_all env qs m ≡ ok tt m')
      × Session base m' p c (times []) zs
release_all_lem env [] {m} {ys} few h s = (m, ys, refl, s)
release_all_lem env (q ∷ qs) few h s =
    let q_some : (q == null) ≡ false = ground (arith, h) in
    let (m1, zs, run, s1, rest) =
      release-Session env q few (inr (q_some, ground (arith, ==_refl q))) s in
    let (m', end, run', s') =
      release_all_lem env qs {ys = zs} (omega (arith, few, length-Remains rest)) (omega (arith, h))
        (Session-hands (λ r k. ground arith) s1) in
    (m', end, rw run run', s')

-- The references to the context are given up, one after the other.
pub close_lem :
    (env : Env) (n : ℕ) {base m : Memory} {p : Ptr} {c : Context} {zs : List Item}
    → 0 < env.rounds
    → 0 < n
    → n < 2 ^ 32
    → c.refcount ≡ n
    → Session base m p c (times []) zs
    → (m' : Memory) × (close env p n m ≡ ok (pos 1) m')
      × ((r : Ptr) → (r == null) ≡ false → m'.blocks r ≡ base.blocks r)
close_lem env zero rounds some_left fits e s = absurd (omega arith)
close_lem env (suc n) {base} {m} {p} {c} {zs} rounds some_left fits e s =
    elim (Bool-cases (n == 0)) [
      | inl z ↦
          let (m', run, same) =
            try_release-Session env s (λ r k. refl) (ground (arith, e, z)) rounds in
          (m', rw z run, same)
      | inr more ↦
          let (m1, run, s1) =
            try_release_shared-Session s env (ground (arith, e, more)) (rw e fits) in
          let (m', run', same) =
            close_lem env n {c = record c { refcount = c.refcount - 1 }} {zs = zs} rounds
              (ground (arith, more)) (omega (arith, fits)) (omega (arith, e)) s1 in
          (m', rw more (rw run run'), same)
    ]

-- How a life can end: the caller could not make the context or gave up, or the last release of the
-- context returns 1, and every address but NULL holds what it held at the start.
abbrev pub Ends : Env → Option Allocator → List Command → (m m' : Memory) → Type 0
Ends env given commands m m' =
    (life env given commands m ≡ ok none m')
    ⊎ ((life env given commands m ≡ ok (some (pos 1)) m')
        × ((r : Ptr) → (r == null) ≡ false → m'.blocks r ≡ m.blocks r))

module _ (env : Env) (given : Option Allocator) (commands : List Command) (m : Memory)
    (build : env.debug ≡ false) (few : length commands < env.rounds)
    (room : 1 + 2 * length commands < 2 ^ 32) where
  at_start :
      {p : Ptr} {m1 : Memory}
      → Created m (complete_allocator given) p m1
      → Holds env m m1 p (record { errors = []; contexts = 1 }) (length commands)
  at_start made = record {
    context = new_context (complete_allocator given);
    items = [];
    session = create-Session made;
    not_null = refl;
    of_context = refl;
    positive = omega arith;
    room = omega (arith, room);
    few = omega (arith, few);
  }

  after_commands :
      {p : Ptr} {m1 m2 : Memory} (end : Option Client)
      → create env given m ≡ ok p m1
      → (p == null) ≡ false
      → perform env p commands (record { errors = []; contexts = 1 }) m1 ≡ ok end m2
      → Left env m m2 p 0 end
      → (m' : Memory) × Ends env given commands m m'
  after_commands {m2} none start there run gave_up = (m2, inl (rw start (rw there (rw run refl))))
  after_commands (some self) start there run (goes_on h) =
      let (m3, zs, run', s) =
        release_all_lem env self.errors (omega (arith, h.few)) h.not_null h.session in
      let (m', last, same) =
        close_lem env self.contexts (omega (arith, few)) h.positive (omega (arith, h.room))
          h.of_context s in
      (m', inr (rw start (rw there (rw run (rw run' (rw last refl)))), same))

  -- A caller that makes a context, makes and wraps errors, retains and releases the context and
  -- the errors that it holds, in any order and with any answers of the allocator, and gives up at
  -- an error that could not be registered, then releases all that it holds: in a release build,
  -- with fewer commands than rounds and a number of commands whose double plus 1 fits 32 bits, its
  -- life ends without a fault, an abort or a wait, and unless it could not make the context or
  -- gave up, the last release of the context returns 1, and every address but NULL holds what it
  -- held at the start.
  pub life_lem : (m' : Memory) × Ends env given commands m m'
  life_lem =
      let q = env.allocate (complete_allocator given) env.sizeof_context m in
      elim (Bool-cases (q == null)) [
        | inl z ↦ (m, inl (rw (create_out_of_memory env given m (ground (arith, z))) refl))
        | inr there ↦
            let (p, m1, start, made) = create-IsContext env given m (ground (arith, there)) in
            let (end, m2, run, left) = perform_lem env build commands (at_start made) in
            after_commands end start made.live.at.not_null run left
      ]
