-- ===== src/Session.antt =====
-- A context with all its errors, as a caller of include/gitledger/context.h and
-- include/gitledger/error.h sees it: which errors there are, and how many references to each.
pub mod Items
pub mod Taken
pub mod Adjust
pub mod Last
pub mod Drop
pub mod Make
pub mod Calls
pub mod Ends
pub mod Chains
pub mod Swap
pub mod Counters
pub mod Show
pub mod Client
use libgitledger.Prelude.{
  ℕ, ◌+◌, ◌-◌, ◌^◌, ◌≤◌, ◌<◌, ◌≡◌, Bool, true, false, ◌||◌, none, List, [], ◌∷◌, ◌==◌,
  if◌then◌else◌,
}
use libgitledger.Memory.{Ptr, null, Allocator, Context, ErrorObject, error, Memory}
use libgitledger.Memory.Blocks.{block, At}
use libgitledger.Context.Registry.{Entries, has, IsContext}
use libgitledger.Error.Release.{Part}
use libgitledger.Error.Release.Causes.{Parts, parts, among, IsAway}

-- An error: its blocks, its node in the registry, its cause, and its other fields.
pub record Item : Type 0 where
  pub object : Ptr
  pub message : Ptr
  pub cache : Ptr
  pub node : Ptr
  pub cause : Ptr
  pub rest : ErrorObject

-- The object of the error `x` of the context at `p`, with `n` references.
abbrev pub held : Ptr → Allocator → Item → (n : ℕ) → ErrorObject
held p a x n = record x.rest {
  ctx = p;
  refcount = n;
  allocator = a;
  message = x.message;
  json_cache = x.cache;
  cause = x.cause;
}

abbrev pub registry : List Item → Entries
registry [] = []
registry (x ∷ xs) = (x.node, x.object) ∷ registry xs

abbrev pub parts_of : List Item → List Parts
parts_of [] = []
parts_of (x ∷ xs) = parts x.object x.message x.cache ∷ parts_of xs

abbrev pub present : Ptr → List Item → Bool
present r [] = false
present r (x ∷ xs) = (x.object == r) || present r xs

-- How many errors have `r` for their cause.
abbrev pub effects : Ptr → List Item → ℕ
effects r [] = 0
effects r (x ∷ xs) = (if x.cause == r then 1 else 0) + effects r xs

-- The errors are in the memory, newest first, each with `count` references and blocks of its own. No
-- error is the cause of itself or of an older one.
pub data Stored (m : Memory) (p : Ptr) (a : Allocator) (count : Ptr → ℕ) : List Item → Type 0 where
  nothing : Stored m p a count []
  newest :
      {x : Item} {xs : List Item}
      → At m x.object (block a (error (held p a x (count x.object))))
      → Part m a x.message
      → Part m a x.cache
      → ((x.message == null) ≡ false → (x.message == x.cache) ≡ false)
      → IsAway x.object (parts_of xs)
      → IsAway x.message (parts_of xs)
      → IsAway x.cache (parts_of xs)
      → 0 < count x.object
      → count x.object < 2 ^ 32
      → effects x.object (x ∷ xs) ≡ 0
      → Stored m p a count xs
      → Stored m p a count (x ∷ xs)

-- The errors are of the context's generation `g`.
abbrev pub AreCurrent : ℕ → List Item → Type 0
AreCurrent g [] = Unit {0}
AreCurrent g (x ∷ xs) = (x.rest.ctx_generation ≡ g) × AreCurrent g xs

-- The memory `m` is `base` with a live context at `p` and the errors `xs`. The callers hold `hands r`
-- references to the error at `r`; the others are those of its effects.
pub record Session (base m : Memory) (p : Ptr) (c : Context) (hands : Ptr → ℕ) (xs : List Item)
    : Type 0 where
  pub count : Ptr → ℕ
  pub first : Ptr
  pub live : IsContext m p (record c { errors = first; locked = false }) (registry xs)
  pub stored : Stored m p c.allocator count xs
  pub current : AreCurrent c.generation xs
  pub counted : (r : Ptr) → (r == null) ≡ false → count r ≡ hands r + effects r xs
  pub absent : (r : Ptr) → present r xs ≡ false → count r ≡ 0
  pub frame :
      (r : Ptr)
      → (r == null) ≡ false
      → (r == p) ≡ false
      → among r (parts_of xs) ≡ false
      → has r (registry xs) ≡ false
      → m.blocks r ≡ base.blocks r
  pub fresh_context : base.blocks p ≡ none
  pub fresh_parts :
      (r : Ptr) → (r == null) ≡ false → among r (parts_of xs) ≡ true → base.blocks r ≡ none
  pub fresh_nodes : (r : Ptr) → has r (registry xs) ≡ true → base.blocks r ≡ none
