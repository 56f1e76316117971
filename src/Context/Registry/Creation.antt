-- ===== src/Context/Registry/Creation.antt =====
-- `gitledger_context_create` with and without memory.
use libgitledger.Prelude.{◌≡◌, ◌≢◌, refl, false, Option, none, some, [], ◌==◌, arith, ap}
use libgitledger.Memory.{Ptr, null, Allocator, context, Env, Memory, ok, write}
use libgitledger.Memory.Blocks.{
  block, call_alloc-null, call_alloc-some, allocated-At, write-allocated, store-At, At-write_self,
}
use libgitledger.Context.{complete_allocator, new_context, create}
use libgitledger.Context.Registry.{IsContext, nil}

complete_allocator_parts :
    (given : Option Allocator)
    → ((complete_allocator given).alloc ≢ null) × ((complete_allocator given).free ≢ null)
unfolding complete_allocator
complete_allocator_parts none = (ground arith, ground arith)
complete_allocator_parts (some a) = (ground arith, ground arith)

-- Without memory there is no context, and nothing changes.
pub create_out_of_memory :
    (env : Env) (given : Option Allocator) (m : Memory)
    → env.allocate (complete_allocator given) env.sizeof_context m ≡ null
    → create env given m ≡ ok null m
unfolding create
create_out_of_memory env given m h = rw (call_alloc-null env _ _ m h)

-- What `gitledger_context_create` leaves: one more block, and in it a live context.
pub record Created (m : Memory) (a : Allocator) (p : Ptr) (m' : Memory) : Type 0 where
  pub unused : m.blocks p ≡ none
  pub only : m' ≡ write m p (some (block a (context (new_context a))))
  pub live : IsContext m' p (new_context a) []

-- Where the allocator that `create` completes has room, `create` returns an address that was not
-- in use, changes the memory only there, and leaves at it a live context with one reference,
-- generation 1 and an empty registry.
pub create-IsContext :
    (env : Env) (given : Option Allocator) (m : Memory)
    → env.allocate (complete_allocator given) env.sizeof_context m ≢ null
    → (p : Ptr) × (m' : Memory) × (create env given m ≡ ok p m')
      × Created m (complete_allocator given) p m'
unfolding create
create-IsContext env given m h =
    let a = complete_allocator given in
    let p = env.allocate a env.sizeof_context m in
    let there : (p == null) ≡ false = ground arith in
    let (has_alloc, has_free) = complete_allocator_parts given in
    (
      p,
      write m p (some (block a (context (new_context a)))),
      rw (call_alloc-some env a env.sizeof_context m h) (
          rw there (
            rw (store-At _ (allocated-At env a env.sizeof_context m h))
              (ap (ok p) (write-allocated env a env.sizeof_context m _)))),
      record {
        unused = env.fresh a env.sizeof_context m h;
        only = refl;
        live = record {
          at = At-write_self m p _ there;
          magic = refl;
          unlocked = refl;
          can_alloc = ground arith;
          can_free = ground arith;
          nodes = nil refl;
        };
      },
    )
