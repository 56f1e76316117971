-- ===== src/Session/Ends.antt =====
-- The beginning and the end of a session: `gitledger_context_create` and
-- `gitledger_context_try_release`.
use libgitledger.Prelude.{
  ℕ, ◌+◌, ◌<◌, ◌≡◌, refl, sym, ap, subst, ◌∙◌, false, none, List, [], ◌==◌, ==_iff, arith, inl, inr,
  Bool-cases,
}
use libgitledger.Text.{pos}
use libgitledger.Memory.{Ptr, null, Allocator, Context, Env, Memory, ok, write}
use libgitledger.Memory.Blocks.{blocks-write_ne, blocks-write_same}
use libgitledger.Context.{new_context, try_release}
use libgitledger.Context.Registry.Creation.{Created}
use libgitledger.Context.Registry.Destruction.{try_release_destroy}
use libgitledger.Session.{Item, effects, Stored, nothing, newest, Session}

-- A new context has no errors.
pub create-Session :
    {base m : Memory} {a : Allocator} {p : Ptr}
    → Created base a p m
    → Session base m p (new_context a) (λ r. 0) []
create-Session {base} {m} {a} {p} made = record {
  count = λ r. 0;
  first = null;
  live = made.live;
  stored = nothing;
  current = tt;
  counted = λ r h. refl;
  absent = λ r h. refl;
  frame =
      λ r h r_p r_parts r_nodes. ap (λ n. n.blocks r) made.only ∙ blocks-write_ne base p r _ r_p;
  fresh_context = made.unused;
  fresh_parts = λ r n h. absurd (cc);
  fresh_nodes = λ r h. absurd (cc);
}

-- While there is an error, the callers hold a reference to one: the newest is no cause.
pub someone_holds :
    {base m : Memory} {p : Ptr} {c : Context} {hands : Ptr → ℕ} {ys : List Item}
    → Session base m p c hands ys
    → ((r : Ptr) → (r == null) ≡ false → hands r ≡ 0)
    → ys ≡ []
someone_holds {hands} s h = none_left s.stored s.counted
  where
    none_left :
        {m : Memory} {p : Ptr} {a : Allocator} {count : Ptr → ℕ} {zs : List Item}
        → Stored m p a count zs
        → ((r : Ptr) → (r == null) ≡ false → count r ≡ hands r + effects r zs)
        → zs ≡ []
    none_left nothing counted = refl
    none_left (newest {x} at g j s_j ao ag aj positive fit old st) counted =
        absurd (omega (arith, h x.object at.not_null, counted x.object at.not_null, positive, old))

-- The memory after the context has been given back.
pub ended_blocks :
    {base m : Memory} {p : Ptr} {c : Context} {hands : Ptr → ℕ}
    → Session base m p c hands []
    → (r : Ptr) → (r == null) ≡ false
    → (write m p none).blocks r ≡ base.blocks r
ended_blocks {base} {m} {p} s r h = elim (Bool-cases (r == p)) [
  | inl e ↦
      blocks-write_same m p r none e
      ∙ (sym s.fresh_context ∙ ap base.blocks (sym ((==_iff r p).0 e)))
  | inr other ↦ blocks-write_ne m p r none other ∙ s.frame r h other refl refl
]

-- For a session of a context with one reference in which callers hold no reference to an error,
-- and with at least one round, `try_release` returns 1, and every address but NULL then holds what
-- it held in the memory before the session.
pub try_release-Session :
    (env : Env) {base m : Memory} {p : Ptr} {c : Context} {hands : Ptr → ℕ} {ys : List Item}
    → Session base m p c hands ys
    → ((r : Ptr) → (r == null) ≡ false → hands r ≡ 0)
    → c.refcount ≡ 1
    → 0 < env.rounds
    → (m' : Memory) × (try_release env p m ≡ ok (pos 1) m')
      × ((r : Ptr) → (r == null) ≡ false → m'.blocks r ≡ base.blocks r)
try_release-Session env {base} {m} {p} {c} {hands} s h one rounds =
    let s0 : Session base m p c hands [] = subst (Session base m p c hands) (someone_holds s h) s in
    (write m p none, try_release_destroy env s0.live one rounds, ended_blocks s0)
