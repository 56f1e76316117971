-- ===== src/Session/Counters.antt =====
-- The references to the context of a session: `gitledger_context_retain`, and
-- `gitledger_context_try_release` that does not destroy.
use libgitledger.Prelude.{
  ℕ, ◌+◌, ◌-◌, ◌^◌, ◌<◌, ◌≡◌, refl, ◌∙◌, false, List, [], ◌∷◌, ◌==◌, arith, length,
}
use libgitledger.Text.{pos}
use libgitledger.Memory.{Ptr, null, Context, Diagnostic, Env, Memory, ok}
use libgitledger.Memory.Blocks.{blocks-write_ne}
use libgitledger.Context.{try_release}
use libgitledger.Context
use libgitledger.Context.Registry.{IsContext-counters, IsContext-stderr}
use libgitledger.Context.Registry.Release.{
  with_context, with_diagnostic, retain_lem, try_release_shared, try_release_refuse,
}
use libgitledger.Session.{Item, registry, Session}
use libgitledger.Session.Taken.{Stored-same}
use libgitledger.Session.Last.{among-apart, length-registry}

module _ {base m : Memory} {p : Ptr} {c : Context} {hands : Ptr → ℕ} {ys : List Item}
    (s : Session base m p c hands ys) where
  abbrev live_context : Context
  live_context = record c { errors = s.first; locked = false }

  -- The number of references to the context is its own affair.
  Session-refcount :
      (n : ℕ)
      → Session base
          (with_context m p (record live_context { refcount = n }))
          p
          (record c { refcount = n })
          hands
          ys
  Session-refcount n = record {
    count = s.count;
    first = s.first;
    live = IsContext-counters c.generation n s.live;
    stored =
        Stored-same (λ r h k. blocks-write_ne m p r _ (among-apart s.live s.stored r k).0)
          (λ r k. refl) s.stored;
    current = s.current;
    counted = s.counted;
    absent = s.absent;
    frame =
        λ r h r_p r_parts r_nodes. blocks-write_ne m p r _ r_p ∙ s.frame r h r_p r_parts r_nodes;
    fresh_context = s.fresh_context;
    fresh_parts = s.fresh_parts;
    fresh_nodes = s.fresh_nodes;
  }

  -- And so is what is printed.
  Session-stderr :
      (lines : List Diagnostic) → Session base (record m { stderr = lines }) p c hands ys
  Session-stderr lines = record {
    count = s.count;
    first = s.first;
    live = IsContext-stderr lines s.live;
    stored = Stored-same (λ r h k. refl) (λ r k. refl) s.stored;
    current = s.current;
    counted = s.counted;
    absent = s.absent;
    frame = s.frame;
    fresh_context = s.fresh_context;
    fresh_parts = s.fresh_parts;
    fresh_nodes = s.fresh_nodes;
  }

  -- `gitledger_context_retain`.
  pub retain_context-Session :
      (env : Env)
      → c.refcount + 1 < 2 ^ 32
      → (m' : Memory) × (package.libgitledger.Context.retain p m ≡ ok tt m')
        × Session base m' p (record c { refcount = c.refcount + 1 }) hands ys
  retain_context-Session env fits = (
    with_context m p (record live_context { refcount = c.refcount + 1 }),
    retain_lem env s.live fits,
    Session-refcount (c.refcount + 1),
  )

  -- A release that leaves another reference.
  pub try_release_shared-Session :
      (env : Env)
      → 1 < c.refcount
      → c.refcount < 2 ^ 32
      → (m' : Memory) × (try_release env p m ≡ ok (pos 0) m')
        × Session base m' p (record c { refcount = c.refcount - 1 }) hands ys
  try_release_shared-Session env more fits = (
    with_context m p (record live_context { refcount = c.refcount - 1 }),
    try_release_shared env s.live more fits,
    Session-refcount (c.refcount - 1),
  )

-- A last release that is refused, since a caller still holds the error at `q`.
pub try_release_refuse-Session :
    (env : Env) {base m : Memory} {p : Ptr} {c : Context} {hands : Ptr → ℕ} (ys : List Item)
    (q : Ptr)
    → Session base m p c hands ys
    → (q == null) ≡ false
    → 0 < hands q
    → length ys < env.rounds
    → c.refcount ≡ 1
    → env.debug ≡ false
    → (m' : Memory) × (try_release env p m ≡ ok (pos 0) m') × Session base m' p c hands ys
try_release_refuse-Session env [] q s q_some held few last build =
    absurd (omega (arith, held, s.counted q q_some, s.absent q refl))
try_release_refuse-Session env {m} (y ∷ ys) q s q_some held few last build = (
  with_diagnostic m (length ((y.node, y.object) ∷ registry ys)),
  try_release_refuse env s.live (rw (length-registry ys) few) last build,
  Session-stderr s _,
)
