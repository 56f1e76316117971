-- ===== src/Examples/Errors.antt =====
-- Errors that are made in a context, or cannot be made.
use libgitledger.Prelude.{◌≡◌, refl, false, none, some, [], ◌∷◌, ◌++◌, arith, inl, inr}
use libgitledger.Text.{codes, pos}
use libgitledger.ErrorCode.{Domain, Code}
use libgitledger.Memory.{null, Context, ErrorObject, context, node, error, bytes, Memory, ok, write}
use libgitledger.Memory.Blocks.{block, At, At-write_self, At-write_ne}
use libgitledger.Context.{new_context}
use libgitledger.Context.Registry.{IsContext, IsContext-write_ne, entry, nil, cons}
use libgitledger.Error.{SourceLocation, Format, create_error, create_ctx_loc}
use libgitledger.Error.Creation.{create_error_fails}
use libgitledger.Error.Created.{Untracked, create_ctx_loc-Untracked}
use libgitledger.Error.Placed.{new_error}
use libgitledger.Error.Release.{owned_error}
use libgitledger.Error.Release.Causes.{parts, Owned, stop, own, Cleared}
use libgitledger.Error.Release.Whole.{release-Owned}
use libgitledger.Error.{zeroed_error, release}
use libgitledger.Error.Release.Last.{last_error}
use libgitledger.Examples.World.{world, small_world, plain_allocator, empty_memory}

-- A context at 10 without errors.
abbrev heap : Memory
heap = write empty_memory 10 (some (block plain_allocator (context (new_context plain_allocator))))

heap-IsContext : IsContext heap 10 (new_context plain_allocator) []
heap-IsContext = record {
  at = At-write_self empty_memory 10 _ refl;
  magic = refl;
  unlocked = refl;
  can_alloc = refl;
  can_free = refl;
  nodes = nil refl;
}

abbrev place : SourceLocation
place = record { file = some (codes "a.c"); line = pos 7; func = none }

abbrev greeting : Format
greeting = record { is_empty = false; expand = some (codes "hi") }

abbrev broken : Format
broken = record { is_empty = false; expand = none }

-- `vsnprintf` reports an error.
create_error_fails_example :
    create_error world 10 Domain.io Code.io_error null place (some broken) heap ≡ ok null heap
unfolding write
create_error_fails_example =
    create_error_fails world Domain.io Code.io_error null place (some broken) heap-IsContext
      (inr (omega arith, inl refl))

create_ctx_loc-Untracked_example :
    (m' : Memory) × (create_ctx_loc small_world 10 Domain.io Code.io_error place
        (some greeting)
        heap
      ≡ ok 11 m')
    × Untracked heap 10
        (new_context plain_allocator)
        []
        (new_error 10 (new_context plain_allocator) Domain.io Code.io_error place 12)
        (codes "hi")
        11
        m'
unfolding write
create_ctx_loc-Untracked_example =
    create_ctx_loc-Untracked small_world Domain.io Code.io_error place (codes "hi") heap-IsContext
      11 refl (omega arith) 12 refl (omega arith) (some greeting) refl refl

-- A context at 10 with the error at 12 in its node at 11, and the error's message at 13.
abbrev tracking : Context
tracking = record (new_context plain_allocator) { errors = 11 }

abbrev registry : Memory
registry =
    write (write empty_memory 11 (some (block plain_allocator (node (entry 12 null))))) 10
      (some (block plain_allocator (context tracking)))

registry-IsContext : IsContext registry 10 tracking ((11, 12) ∷ [])
registry-IsContext = record {
  at = At-write_self _ 10 _ refl;
  magic = refl;
  unlocked = refl;
  can_alloc = refl;
  can_free = refl;
  nodes = cons (At-write_ne 10 _ (At-write_self empty_memory 11 _ refl) refl) refl (nil refl);
}

abbrev shared : Memory
shared =
    write
      (write registry 12
        (some (block plain_allocator (error (last_error 10 tracking 13 zeroed_error)))))
      13 (some (block plain_allocator (bytes (codes "hi" ++ (0 ∷ [])))))

shared-IsContext : IsContext shared 10 tracking ((11, 12) ∷ [])
shared-IsContext =
    IsContext-write_ne 13 _ refl refl (IsContext-write_ne 12 _ refl refl registry-IsContext)

-- The error at 12 with its message, and its cause at 14, which has another reference.
abbrev cause_of : ErrorObject
cause_of = record zeroed_error { refcount = 2; allocator = plain_allocator }

abbrev chained : Memory
chained =
    write
      (write
        (write registry 12 (
          some
            (block plain_allocator (error (owned_error 10 plain_allocator 13 0 14 zeroed_error)))))
        13 (some (block plain_allocator (bytes (codes "hi" ++ (0 ∷ []))))))
      14 (some (block plain_allocator (error cause_of)))

chained-IsContext : IsContext chained 10 tracking ((11, 12) ∷ [])
chained-IsContext =
    IsContext-write_ne 14 _ refl refl
      (IsContext-write_ne 13 _ refl refl (IsContext-write_ne 12 _ refl refl registry-IsContext))

message_at : At chained 13 (block plain_allocator (bytes (codes "hi" ++ (0 ∷ []))))
message_at = At-write_ne 14 _ (At-write_self _ 13 _ refl) refl

chained-Owned : Owned chained 10 plain_allocator 12 (parts 12 13 0 ∷ []) 14
chained-Owned =
    own zeroed_error (At-write_ne 14 _ (At-write_ne 13 _ (At-write_self _ 12 _ refl) refl) refl)
      (inr (_, message_at)) (inl refl) (λ h. refl) (λ h. refl) (λ h. refl) (λ h. refl) (stop refl)

shared-Owned : Owned shared 10 plain_allocator 12 (parts 12 13 0 ∷ []) 0
shared-Owned =
    own zeroed_error (At-write_ne 13 _ (At-write_self _ 12 _ refl) refl)
      (inr (_, At-write_self _ 13 _ refl)) (inl refl) (λ h. refl) (λ h. refl) (λ h. refl)
      (λ h. refl) (stop refl)

release-Owned_example :
    (m' : Memory) × Cleared shared 10 tracking ((11, 12) ∷ []) (parts 12 13 0 ∷ []) m'
    × (release world 12 shared ≡ ok tt m')
release-Owned_example =
    release-Owned world (parts 12 13 0 ∷ []) shared-IsContext (omega arith) (omega arith)
      shared-Owned refl
