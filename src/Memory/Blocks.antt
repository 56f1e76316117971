-- ===== src/Memory/Blocks.antt =====
-- Reads, writes, allocation and release at a known block, and memories that differ at one address.
use libgitledger.Prelude.{ℕ, ◌≡◌, ◌≢◌, refl, true, false, Option, none, some, ◌==◌, arith, ==_refl}
use libgitledger.Text.{Bytes}
use libgitledger.Memory.{
  Ptr, null, Allocator, same_allocator, Context, ErrorNode, ErrorObject, Cell, context, node, error,
  bytes, Block, Memory, Env, ok, write, read, load_context, load_node, load_error, load_bytes,
  store, call_alloc, call_free,
}

-- `p` points to the block `b`.
pub record At (m : Memory) (p : Ptr) (b : Block) : Type 0 where
  pub not_null : (p == null) ≡ false
  pub holds : m.blocks p ≡ some b

abbrev pub block : Allocator → Cell → Block
block a c = record { owner = a; cell = c }

pub same_allocator_refl : (a : Allocator) → same_allocator a a ≡ true
same_allocator_refl a = rw (==_refl a.alloc, ==_refl a.free, ==_refl a.userdata)

module _ {m : Memory} {p : Ptr} where
  pub read-At : {b : Block} → At m p b → read p m ≡ ok b m
  unfolding read
  read-At h = rw h.not_null (rw h.holds)

  pub load_context-At :
      {a : Allocator} {c : Context} → At m p (block a (context c)) → load_context p m ≡ ok c m
  unfolding load_context
  load_context-At h = rw (read-At h)

  pub load_node-At :
      {a : Allocator} {n : ErrorNode} → At m p (block a (node n)) → load_node p m ≡ ok n m
  unfolding load_node
  load_node-At h = rw (read-At h)

  pub load_error-At :
      {a : Allocator} {e : ErrorObject} → At m p (block a (error e)) → load_error p m ≡ ok e m
  unfolding load_error
  load_error-At h = rw (read-At h)

  pub load_bytes-At :
      {a : Allocator} {s : Bytes} → At m p (block a (bytes s)) → load_bytes p m ≡ ok s m
  unfolding load_bytes
  load_bytes-At h = rw (read-At h)

  pub store-At :
      {b : Block} (c : Cell)
      → At m p b
      → store p c m ≡ ok tt (write m p (some (record b { cell = c })))
  unfolding store
  store-At c h = rw (read-At h)

  pub call_free-At :
      {a : Allocator} {c : Cell} → At m p (block a c) → call_free a p m ≡ ok tt (write m p none)
  unfolding call_free
  call_free-At {a} h = rw (read-At h) (rw (same_allocator_refl a))

pub At-write_self :
    (m : Memory) (p : Ptr) (b : Block) → (p == null) ≡ false → At (write m p (some b)) p b
unfolding write
At-write_self m p b h = record { not_null = h; holds = rw (==_refl p) }

pub At-write_ne :
    {m : Memory} {q : Ptr} {b : Block} (p : Ptr) (x : Option Block)
    → At m q b
    → (q == p) ≡ false
    → At (write m p x) q b
unfolding write
At-write_ne p x h e = record { not_null = h.not_null; holds = rw e h.holds }

pub blocks-write_ne :
    (m : Memory) (p s : Ptr) (x : Option Block)
    → (s == p) ≡ false
    → (write m p x).blocks s ≡ m.blocks s
unfolding write
blocks-write_ne m p s x h = rw h

pub blocks-write_same :
    (m : Memory) (p s : Ptr) (x : Option Block) → (s == p) ≡ true → (write m p x).blocks s ≡ x
unfolding write
blocks-write_same m p s x h = rw h

pub stderr-write : (m : Memory) (p : Ptr) (x : Option Block) → (write m p x).stderr ≡ m.stderr
unfolding write
stderr-write m p x = refl

-- Two memories that agree at every address, with the same diagnostics, are equal.
pub memory_path :
    {m n : Memory} → ((q : Ptr) → m.blocks q ≡ n.blocks q) → m.stderr ≡ n.stderr → m ≡ n
memory_path b s = λ i. record { blocks = λ q. b q i; stderr = s i }

pub write-write :
    (m : Memory) (p : Ptr) (x y : Option Block) → write (write m p x) p y ≡ write m p y
unfolding write
write-write m p x y = memory_path (λ q. ground arith) refl

pub write_same : (m : Memory) (p : Ptr) (x : Option Block) → m.blocks p ≡ x → write m p x ≡ m
unfolding write
write_same m p x h = memory_path (λ q. ground arith) refl

pub write_comm :
    (m : Memory) (p q : Ptr) (x y : Option Block)
    → (p == q) ≡ false
    → write (write m p x) q y ≡ write (write m q y) p x
unfolding write
write_comm m p q x y h = memory_path (λ r. ground arith) refl

-- Blocks of different kinds stand at different addresses.
pub ne_sym : (q r : Ptr) → (q == r) ≡ false → (r == q) ≡ false
ne_sym q r h = ground (arith, h)

pub ne_of_blocks :
    (m : Memory) (p q : Ptr) {x y : Option Block}
    → m.blocks p ≡ x
    → m.blocks q ≡ y
    → x ≢ y
    → (p == q) ≡ false
ne_of_blocks m p q h k ne = ground arith

-- An allocation that fails changes nothing.
pub call_alloc-null :
    (env : Env) (a : Allocator) (size : ℕ) (m : Memory)
    → env.allocate a size m ≡ null
    → call_alloc env a size m ≡ ok null m
unfolding call_alloc
call_alloc-null env a size m h = rw h

-- What an allocation adds to the memory when it succeeds.
unfoldable pub allocated : Env → Allocator → ℕ → Memory → Memory
allocated env a size m =
    let p = env.allocate a size m in write m p (some (block a (bytes (env.left_over p size))))

pub call_alloc-some :
    (env : Env) (a : Allocator) (size : ℕ) (m : Memory)
    → env.allocate a size m ≢ null
    → call_alloc env a size m ≡ ok (env.allocate a size m) (allocated env a size m)
unfolding call_alloc allocated
call_alloc-some env a size m h =
    let e : (env.allocate a size m == null) ≡ false = ground arith in rw e

module _ (env : Env) (a : Allocator) (size : ℕ) (m : Memory) where
  pub allocated-At :
      env.allocate a size m ≢ null
      → At
          (allocated env a size m)
          (env.allocate a size m)
          (block a (bytes (env.left_over (env.allocate a size m) size)))
  unfolding allocated
  allocated-At h = At-write_self m (env.allocate a size m) _ (ground arith)

  pub write-allocated :
      (x : Option Block)
      → write (allocated env a size m) (env.allocate a size m) x ≡ write m (env.allocate a size m) x
  unfolding allocated
  write-allocated x = write-write m (env.allocate a size m) _ x
