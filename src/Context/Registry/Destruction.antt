-- ===== src/Context/Registry/Destruction.antt =====
-- The release that destroys a context.
use libgitledger.Prelude.{ℕ, zero, suc, ◌<◌, ◌≡◌, refl, ap, ◌∙◌, none, [], arith, length}
use libgitledger.Text.{pos}
use libgitledger.Memory.{Ptr, null, Allocator, Context, Env, context, Memory, ok, write}
use libgitledger.Memory.Blocks.{
  block, load_context-At, store-At, call_free-At, At-write_self, write-write,
}
use libgitledger.Context.{
  add_one32, debug_log_live_errors, teardown, bump_generation, detach_and_free_error_nodes,
  detach_loop, destroy, try_release,
}
use libgitledger.Context.Registry.{
  Entries, IsContext, Nodes, nil, cons, IsContext-counters, is_valid-At,
}
use libgitledger.Context.Registry.Release.{with_context, live_error_count_lem, last_reference}

no_errors : {m : Memory} {p : Ptr} {c : Context} → IsContext m p c [] → c.errors ≡ null
no_errors is = empty is.nodes refl
  where
    empty :
        {m : Memory} {a : Allocator} {q : Ptr} {ys : Entries}
        → Nodes m a q ys
        → length ys ≡ 0
        → q ≡ null
    empty (nil z) e = z
    empty (cons h d ns) e = absurd (omega arith)

detach_loop-null :
    (fuel : ℕ) (ctx p : Ptr) (m : Memory)
    → p ≡ null
    → 0 < fuel
    → detach_loop fuel ctx p 0 m ≡ ok 0 m
unfolding detach_loop
detach_loop-null zero ctx p m z h = absurd (omega arith)
detach_loop-null (suc fuel) ctx p m z h = rw z

module _ (env : Env) {m : Memory} {p : Ptr} {c : Context} (is : IsContext m p c [])
    (some_rounds : 0 < env.rounds) where
  bump_lem :
      bump_generation p m
      ≡ ok tt (with_context m p (record c { generation = add_one32 c.generation }))
  unfolding bump_generation
  bump_lem = rw (is_valid-At is.at is.magic) (rw (load_context-At is.at) (store-At _ is.at))

  detach_lem :
      detach_and_free_error_nodes env p m ≡ ok 0 (with_context m p (record c { errors = null }))
  unfolding detach_and_free_error_nodes
  detach_lem =
      rw (load_context-At is.at) (
        rw (store-At _ is.at) (detach_loop-null env.rounds p c.errors _ (no_errors is) some_rounds))

no_log : (m : Memory) → debug_log_live_errors 0 m ≡ ok tt m
unfolding debug_log_live_errors
no_log m = refl

module _ (env : Env) {m : Memory} {p : Ptr} {c : Context} (is : IsContext m p c [])
    (some_rounds : 0 < env.rounds) where
  teardown_lem : teardown env p m ≡ ok (pos 1) (write m p none)
  unfolding teardown
  teardown_lem =
      let bumped : Context = record c { generation = add_one32 c.generation } in
      let emptied : Context = record bumped { errors = null } in
      let is' = IsContext-counters (add_one32 c.generation) c.refcount is in
      let at =
        At-write_self (with_context m p bumped) p (block c.allocator (context emptied))
          is.at.not_null in
      let dead =
        At-write_self (with_context (with_context m p bumped) p emptied) p
          (block c.allocator (context (record emptied { magic = 0 }))) is.at.not_null in
      rw (bump_lem env is some_rounds) (
        rw (detach_lem env is' some_rounds) (
          rw no_log (
            rw (load_context-At at)
              (rw (store-At _ at) (rw (call_free-At dead) (simp write-write))))))

  destroy_lem : destroy env p m ≡ ok (pos 1) (write m p none)
  unfolding destroy
  destroy_lem = rw (live_error_count_lem env is some_rounds) (rw (no_errors is) teardown_lem)

module _ (env : Env) {m : Memory} {p : Ptr} {c : Context} (is : IsContext m p c []) where
  -- For a live context whose registry is empty and whose reference count is 1, and with at least
  -- one round for the loop over its nodes, `try_release` returns 1, gives the context's block back
  -- to its own allocator, and changes nothing else.
  pub try_release_destroy :
      c.refcount ≡ 1 → 0 < env.rounds → try_release env p m ≡ ok (pos 1) (write m p none)
  try_release_destroy last some_rounds =
      last_reference env is last
      ∙ destroy_lem env (IsContext-counters _ 0 is) some_rounds
      ∙ ap (ok (pos 1)) (write-write m p _ none)
