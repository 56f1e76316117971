-- ===== src/Memory.antt =====
-- The C heap that the sources share: typed blocks at addresses, the allocator call-backs of
-- include/gitledger/context.h, and runs that end well, fault, abort, wait for ever or lack fuel.
-- What the repository does not implement is the record `Env`.
pub mod Blocks
use libgitledger.Prelude.{
  ℕ, ◌≡◌, ◌≢◌, Bool, true, false, ◌&&◌, Option, none, some, List, [], ◌∷◌, ◌++◌, ◌==◌,
  if◌then◌else◌, length,
}
use libgitledger.Text.{Bytes, CInt}
use libgitledger.ErrorCode.{Domain, Code}

abbrev pub Ptr : Type 0
Ptr = ℕ

abbrev pub null : Ptr
null = 0

-- `gitledger_allocator_t`. A function pointer is a number, 0 for NULL.
pub record Allocator : Type 0 where
  pub alloc : Ptr
  pub free : Ptr
  pub userdata : Ptr

-- The addresses of `default_alloc` and `default_free`.
abbrev pub default_alloc : Ptr
default_alloc = 1

abbrev pub default_free : Ptr
default_free = 2

abbrev pub same_allocator : Allocator → Allocator → Bool
same_allocator a b = a.alloc == b.alloc && (a.free == b.free && a.userdata == b.userdata)

-- `struct gitledger_context`; `locked` is its `atomic_flag`.
pub record Context : Type 0 where
  pub magic : ℕ
  pub generation : ℕ
  pub refcount : ℕ
  pub allocator : Allocator
  pub errors : Ptr
  pub locked : Bool

-- `gitledger_error_node_t`.
pub record ErrorNode : Type 0 where
  pub error : Ptr
  pub next : Ptr

-- `struct gitledger_error`. File and function names are literals of the program, so they are held
-- as texts, `none` for NULL.
pub record ErrorObject : Type 0 where
  pub ctx : Ptr
  pub ctx_generation : ℕ
  pub refcount : ℕ
  pub allocator : Allocator
  pub domain : Domain
  pub code : Code
  pub flags : ℕ
  pub message : Ptr
  pub json_cache : Ptr
  pub cause : Ptr
  pub file : Option Bytes
  pub func : Option Bytes
  pub line : CInt

pub data Cell : Type 0 where
  context : Context → Cell
  node : ErrorNode → Cell
  error : ErrorObject → Cell
  bytes : Bytes → Cell

-- An allocated block, with the allocator that it came from.
pub record Block : Type 0 where
  pub owner : Allocator
  pub cell : Cell

pub data Diagnostic : Type 0 where
  live_errors : Bytes → Diagnostic
  register_failed : Ptr → Ptr → Diagnostic

-- The heap, and what has been written to stderr.
pub record Memory : Type 0 where
  pub blocks : Ptr → Option Block
  pub stderr : List Diagnostic

-- The build and the call-backs. An allocator may answer in any way, by its own state and by the
-- memory: with NULL, or with an address that is not in use, where it leaves any bytes.
-- `rounds` bounds the rounds of the loops over lists of nodes and over chains of causes.
pub record Env : Type 0 where
  pub debug : Bool
  pub rounds : ℕ
  pub sizeof_context : ℕ
  pub sizeof_node : ℕ
  pub sizeof_error : ℕ
  pub allocate : Allocator → ℕ → Memory → Ptr
  pub left_over : Ptr → ℕ → Bytes
  pub malloc_succeeds : ℕ → Memory → Bool
  pub fresh :
      (a : Allocator) (size : ℕ) (m : Memory)
      → allocate a size m ≢ null
      → m.blocks (allocate a size m) ≡ none
  pub length-left_over : (p : Ptr) (size : ℕ) → length (left_over p size) ≡ size

pub data Run (A : Type 0) : Type 0 where
  ok : A → Memory → Run A
  fault : Run A
  aborted : Run A
  blocked : Run A
  out_of_fuel : Run A

abbrev pub M : Type 0 → Type 0
M A = Memory → Run A

abbrev pub pure : {A : Type 0} → A → M A
pure = ok

module _ {A B : Type 0} where
  abbrev pub and_then : Run A → (A → M B) → Run B
  and_then (ok a m) k = k a m
  and_then fault k = fault
  and_then aborted k = aborted
  and_then blocked k = blocked
  and_then out_of_fuel k = out_of_fuel

  infixl 5 ◌>>=◌ ◌>>◌
  abbrev pub ◌>>=◌ : M A → (A → M B) → M B
  f >>= k = λ m. and_then (f m) k

  abbrev pub ◌>>◌ : M A → M B → M B
  f >> g = f >>= λ _. g

abbrev pub skip : M (Unit {0})
skip = pure tt

-- The heap with `b` at the address `p`; `none` gives the block back.
unfoldable pub write : Memory → Ptr → Option Block → Memory
write m p b = record m { blocks = λ q. if q == p then b else m.blocks q }

-- A read of what a pointer shows: a fault at NULL and where no block is.
unfoldable pub read : Ptr → M Block
read p m = if p == null then fault else elim (m.blocks p) [ none ↦ fault | some b ↦ ok b m ]

unfoldable pub load_context : Ptr → M Context
unfolding read
load_context p = read p >>= λ b. elim b.cell [ context c ↦ pure c | _ ↦ λ _. fault ]

unfoldable pub load_node : Ptr → M ErrorNode
unfolding read
load_node p = read p >>= λ b. elim b.cell [ node n ↦ pure n | _ ↦ λ _. fault ]

unfoldable pub load_error : Ptr → M ErrorObject
unfolding read
load_error p = read p >>= λ b. elim b.cell [ error e ↦ pure e | _ ↦ λ _. fault ]

unfoldable pub load_bytes : Ptr → M Bytes
unfolding read
load_bytes p = read p >>= λ b. elim b.cell [ bytes s ↦ pure s | _ ↦ λ _. fault ]

-- A write of a whole object into a block that is there.
unfoldable pub store : Ptr → Cell → M (Unit {0})
unfolding read write
store p c = read p >>= λ b m. ok tt (write m p (some (record b { cell = c })))

-- `a.alloc(a.userdata, size)`.
unfoldable pub call_alloc : Env → Allocator → ℕ → M Ptr
unfolding write
call_alloc env a size m =
    let p = env.allocate a size m in
    if p == null
    then ok null m
    else ok p (write m p (some (record { owner = a; cell = bytes (env.left_over p size) })))

-- `a.free(a.userdata, p)`: a fault at an address that holds no block (a double free), and at a
-- block of another allocator.
unfoldable pub call_free : Allocator → Ptr → M (Unit {0})
unfolding read write
call_free a p = read p >>= λ b m. if same_allocator a b.owner then ok tt (write m p none) else fault

unfoldable pub print_error : Diagnostic → M (Unit {0})
print_error d m = ok tt (record m { stderr = m.stderr ++ (d ∷ []) })
