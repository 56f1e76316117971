-- ===== src/Session/Client/Obeys.antt =====
-- One command of a caller that holds references in a session.
use libgitledger.Prelude.{
  ℕ, suc, ◌+◌, ◌-◌, ◌^◌, ◌<◌, ◌≡◌, refl, sym, ◌∙◌, true, false, Option, some, [], ◌∷◌, ◌==◌, ==_iff,
  arith, inl, inr, Bool-cases, Option-cases,
}
use libgitledger.Memory.{Ptr, Env, Memory, Run, ok}
use libgitledger.Text.{pos}
use libgitledger.Context.{try_release}
use libgitledger.Session.Adjust.{retain-Session}
use libgitledger.Session.Drop.{release-Session}
use libgitledger.Session.Calls.{create_ctx_loc-Outcome, with_cause_ctx_loc-Outcome}
use libgitledger.Session.Counters.{
  retain_context-Session, try_release_shared-Session, try_release_refuse-Session,
}
use libgitledger.Session.Client.{
  Command, make, wrap, keep, drop, hold, let_go, Client, Handles, nth, but_nth, let_context_go,
  obey,
}
use libgitledger.Session.Client.Holding.{
  times_le, effects_le, Holds, Left, goes_on, at_nth, moved, one_more, one_less, other_contexts,
  taken_in,
}

-- A command ends well, and leaves what the next `n` need.
abbrev pub Obeyed : Env → (base : Memory) → Ptr → ℕ → Run (Option Client) → Type 0
Obeyed env base p n run =
    (end : Option Client) × (m' : Memory) × (run ≡ ok end m') × Left env base m' p n end

-- `let_go` of one of several references to the context.
release_shared :
    {env : Env} {base m : Memory} {p : Ptr} {n k : ℕ} (qs : Handles)
    → Holds env base m p (record { errors = qs; contexts = k }) (suc n)
    → (k == 1) ≡ false
    → Obeyed env base p n (let_context_go env p qs k m)
release_shared {env} {m} {p} {k} qs h several =
    let fits : h.context.refcount < 2 ^ 32 = omega (arith, h.of_context, h.room) in
    let more : 1 < h.context.refcount = ground (arith, several, h.of_context, h.positive) in
    let (m', run, s) = try_release_shared-Session h.session env more fits in
    (
      some (record { errors = qs; contexts = k - 1 }),
      m',
      given_back qs run,
      goes_on (
          other_contexts h (k - 1) (omega (arith, more, h.of_context)) (omega arith)
            (rw (sym h.of_context) s)),
    )
  where
    given_back :
        {m' : Memory} (rs : Handles)
        → try_release env p m ≡ ok (pos 0) m'
        → let_context_go env p rs k m ≡ ok (some (record { errors = rs; contexts = k - 1 })) m'
    given_back [] run = rw several (rw run refl)
    given_back (q ∷ rs) run = rw run (rw several refl)

-- `let_go` of the last one.
keep_last :
    {env : Env} {base m : Memory} {p : Ptr} {n k : ℕ} (qs : Handles)
    → Holds env base m p (record { errors = qs; contexts = k }) (suc n)
    → (k == 1) ≡ true
    → env.debug ≡ false
    → Obeyed env base p n (let_context_go env p qs k m)
keep_last {m} {k} [] h last build =
    (some (record { errors = []; contexts = k }), m, rw last refl, goes_on (moved h h.session))
keep_last {env} {k} (q ∷ qs) h last build =
    let (q_some, here) = at_nth h 0 refl in
    let (m', run, s) =
      try_release_refuse-Session env h.items q h.session q_some here (omega (arith, h.few))
        (h.of_context ∙ (==_iff k 1).0 last) build in
    (
      some (record { errors = q ∷ qs; contexts = k }),
      m',
      rw run (rw last refl),
      goes_on (moved h s),
    )

module _ {env : Env} {base m : Memory} {p : Ptr} {self : Client} {n : ℕ}
    (h : Holds env base m p self (suc n)) where
  obey-let_go : env.debug ≡ false → Obeyed env base p n (obey env p let_go self m)
  obey-let_go build = elim (Bool-cases (self.contexts == 1)) [
    | inl last ↦ keep_last self.errors h last build
    | inr several ↦ release_shared self.errors h several
  ]

  -- A caller that can obey `n` + 1 commands obeys one and can then obey `n`, unless it has given up.
  pub obey_lem :
      env.debug ≡ false → (command : Command) → Obeyed env base p n (obey env p command self m)
  obey_lem build (make domain code location fmt) =
      taken_in h (create_ctx_loc-Outcome env h.session domain code location fmt)
  obey_lem build (wrap i domain code location fmt) = elim (Option-cases (nth i self.errors)) [
    | inl e ↦ (some self, m, rw (obey, e) refl, goes_on (moved h h.session))
    | inr (k, e) ↦
        let (k_some, here) = at_nth h i e in
        let (end, m', run, left) = taken_in h (
          with_cause_ctx_loc-Outcome env h.session domain code location fmt k k_some here
            (omega (arith, times_le self.errors k, effects_le k h.items, h.room))) in
        (end, m', rw (obey, e) run, left)
  ]
  obey_lem build (keep i) = elim (Option-cases (nth i self.errors)) [
    | inl e ↦ (some self, m, rw (obey, e) refl, goes_on (moved h h.session))
    | inr (q, e) ↦
        let (q_some, here) = at_nth h i e in
        let (m', run, s) =
          retain-Session q h.session q_some here
            (omega (arith, times_le self.errors q, effects_le q h.items, h.room)) in
        (
          some (record self { errors = q ∷ self.errors }),
          m',
          rw (obey, e) (rw run refl),
          goes_on (one_more h q_some (omega arith) s),
        )
  ]
  obey_lem build (drop i) = elim (Option-cases (nth i self.errors)) [
    | inl e ↦ (some self, m, rw (obey, e) refl, goes_on (moved h h.session))
    | inr (q, e) ↦
        let (q_some, here) = at_nth h i e in
        let (m', ys, run, s, rest) =
          release-Session env q (omega (arith, h.few)) (inr (q_some, here)) h.session in
        (
          some (record self { errors = but_nth i self.errors }),
          m',
          rw (obey, e) (rw run refl),
          goes_on (one_less h i e rest s),
        )
  ]
  obey_lem build hold =
      let (m', run, s) =
        retain_context-Session h.session env (omega (arith, h.of_context, h.room)) in
      (
        some (record self { contexts = self.contexts + 1 }),
        m',
        rw run refl,
        goes_on (
            other_contexts h (self.contexts + 1) (omega arith) (omega arith)
              (rw (sym h.of_context) s)),
      )
  obey_lem build let_go = obey-let_go build
