-- ===== src/Examples/Contexts.antt =====
-- Contexts with and without errors, and what their operations do.
use libgitledger.Prelude.{ℕ, ◌≡◌, refl, true, none, some, [], ◌∷◌, arith}
use libgitledger.Text.{pos}
use libgitledger.Memory.{null, Context, context, node, Memory, ok, aborted, write}
use libgitledger.Memory.Blocks.{block, At-write_self, At-write_ne}
use libgitledger.Context.{new_context, retain, try_release, register_error, unregister_error}
use libgitledger.Context.Registry.{entry, IsContext, nil, cons}
use libgitledger.Context.Registry.Release.{
  with_context, with_diagnostic, try_release_abort, try_release_refuse, retain_lem,
}
use libgitledger.Context.Registry.Destruction.{try_release_destroy}
use libgitledger.Context.Registry.Tracking.{registered, register_error_lem}
use libgitledger.Context.Registry.Unregister.{Unregistered, unregister_error_lem}
use libgitledger.Memory.{◌>>=◌}
use libgitledger.Context.{at_head}
use libgitledger.Context.Threads.{guarded}
use libgitledger.Context.Threads.Unlinking.{unlink_body, free_doomed, unlink_body-Unregistered}
use libgitledger.Examples.World.{world, plain_allocator, empty_memory, debug_world}

-- A context at 10 without errors.
abbrev m0 : Memory
m0 = write empty_memory 10 (some (block plain_allocator (context (new_context plain_allocator))))

m0-IsContext : IsContext m0 10 (new_context plain_allocator) []
m0-IsContext = record {
  at = At-write_self empty_memory 10 _ refl;
  magic = refl;
  unlocked = refl;
  can_alloc = refl;
  can_free = refl;
  nodes = nil refl;
}

-- The same with `n` references and an error at 12, in the node at 11.
abbrev c1 : ℕ → Context
c1 n = record (new_context plain_allocator) { refcount = n; errors = 11 }

abbrev m1 : ℕ → Memory
m1 n =
    with_context (write empty_memory 11 (some (block plain_allocator (node (entry 12 null))))) 10
      (c1 n)

m1-IsContext : (n : ℕ) → IsContext (m1 n) 10 (c1 n) ((11, 12) ∷ [])
m1-IsContext n = record {
  at = At-write_self _ 10 _ refl;
  magic = refl;
  unlocked = refl;
  can_alloc = refl;
  can_free = refl;
  nodes = cons (At-write_ne 10 _ (At-write_self empty_memory 11 _ refl) refl) refl (nil refl);
}

try_release_refuse_example : try_release world 10 (m1 1) ≡ ok (pos 0) (with_diagnostic (m1 1) 1)
try_release_refuse_example = try_release_refuse world (m1-IsContext 1) (omega arith) refl refl

try_release_abort_example : try_release debug_world 10 (m1 1) ≡ aborted
try_release_abort_example = try_release_abort debug_world (m1-IsContext 1) (omega arith) refl refl

try_release_destroy_example : try_release world 10 m0 ≡ ok (pos 1) (write m0 10 none)
try_release_destroy_example = try_release_destroy world m0-IsContext refl (omega arith)

retain_lem_example : retain 10 (m1 1) ≡ ok tt (with_context (m1 1) 10 (c1 2))
retain_lem_example = retain_lem world (m1-IsContext 1) (omega arith)

register_error_lem_example :
    (register_error world 10 12 m0 ≡ ok true (registered m0 10 (new_context plain_allocator) 12 11))
    × IsContext
        (registered m0 10 (new_context plain_allocator) 12 11)
        10
        (record (new_context plain_allocator) { errors = 11 })
        ((11, 12) ∷ [])
    × (m0.blocks 11 ≡ none)
unfolding write
register_error_lem_example = register_error_lem world 12 m0-IsContext (omega arith)

unregister_error_lem_example :
    (m' : Memory) × Unregistered (m1 1) 10 (c1 1) 12 ((11, 12) ∷ []) m'
    × (unregister_error world 10 12 (m1 1) ≡ ok tt m')
unregister_error_lem_example = unregister_error_lem world 12 (m1-IsContext 1) (omega arith)

unlink_body-Unregistered_example :
    (m' : Memory) × Unregistered (m1 1) 10 (c1 1) 12 ((11, 12) ∷ []) m'
    × ((guarded 10 (unlink_body 100 10 12 at_head) >>= free_doomed 10) (m1 1) ≡ ok tt m')
unlink_body-Unregistered_example = unlink_body-Unregistered world 12 (m1-IsContext 1) (omega arith)
