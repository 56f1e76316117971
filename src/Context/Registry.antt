-- ===== src/Context/Registry.antt =====
-- What a live context looks like in the memory, and the registry of its errors as a list.
pub mod Release
pub mod Destruction
pub mod Tracking
pub mod Creation
pub mod Unlink
pub mod Unregister
use libgitledger.Prelude.{
  ℕ, zero, suc, ◌+◌, ◌≡◌, ◌≢◌, refl, sym, ◌∙◌, Bool, true, false, ◌||◌, Option, none, some, List,
  [], ◌∷◌, ◌==◌, arith, length, ◌<◌,
}
use libgitledger.Memory.{
  Diagnostic, Ptr, null, Allocator, Context, ErrorNode, Block, context, node, Memory, ok, write,
  ◌>>=◌,
}
use libgitledger.Memory.Blocks.{
  At, block, load_context-At, load_node-At, At-write_ne, At-write_self,
}
use libgitledger.Context.{context_magic, is_valid, count_loop}

-- The nodes of a registry, first to last: their addresses and the errors that they name.
abbrev pub Entries : Type 0
Entries = List (Ptr × Ptr)

abbrev pub has : Ptr → Entries → Bool
has q [] = false
has q ((p, e) ∷ xs) = (q == p) || has q xs

abbrev pub entry : Ptr → Ptr → ErrorNode
entry e q = record { error = e; next = q }

-- From `p` the field `next` leads through the distinct nodes `xs` to NULL.
pub data Nodes (m : Memory) (a : Allocator) : Ptr → Entries → Type 0 where
  nil : {p : Ptr} → p ≡ null → Nodes m a p []
  cons :
      {p e q : Ptr} {xs : Entries}
      → At m p (block a (node (entry e q)))
      → has p xs ≡ false
      → Nodes m a q xs
      → Nodes m a p ((p, e) ∷ xs)

-- A live context at `p`, with its lock free and its registry in order.
pub record IsContext (m : Memory) (p : Ptr) (c : Context) (xs : Entries) : Type 0 where
  pub at : At m p (block c.allocator (context c))
  pub magic : c.magic ≡ context_magic
  pub unlocked : c.locked ≡ false
  pub can_alloc : (c.allocator.alloc == null) ≡ false
  pub can_free : (c.allocator.free == null) ≡ false
  pub nodes : Nodes m c.allocator c.errors xs

-- A registry survives a write at an address that is none of its nodes.
pub Nodes-write :
    {m : Memory} {a : Allocator} {p : Ptr} {xs : Entries} (q : Ptr) (x : Option Block)
    → has q xs ≡ false
    → Nodes m a p xs
    → Nodes (write m q x) a p xs
Nodes-write q x out (nil z) = nil z
Nodes-write q x out (cons {p} h d ns) =
    cons (At-write_ne q x h (ground arith)) d (Nodes-write q x (ground arith) ns)

-- An address that holds something else than a node is none of the registry's nodes.
pub not_in_Nodes :
    {m : Memory} {a : Allocator} {p : Ptr} {xs : Entries} (q : Ptr)
    → ((n : ErrorNode) → m.blocks q ≢ some (block a (node n)))
    → Nodes m a p xs
    → has q xs ≡ false
not_in_Nodes q other (nil z) = refl
not_in_Nodes q other (cons {p} {e} {q = r} h d ns) =
    ground (arith, not_in_Nodes q other ns, other (entry e r), h.holds)

pub is_valid-At :
    {m : Memory} {p : Ptr} {a : Allocator} {c : Context}
    → At m p (block a (context c))
    → c.magic ≡ context_magic
    → is_valid p m ≡ ok true m
unfolding is_valid
is_valid-At h e = rw h.not_null (rw (load_context-At h) (rw e))

pub count_loop_lem :
    {m : Memory} {a : Allocator} (fuel count : ℕ) {p : Ptr} {xs : Entries}
    → Nodes m a p xs
    → length xs < fuel
    → count_loop fuel p count m ≡ ok (count + length xs) m
unfolding count_loop
count_loop_lem zero count ns h = absurd (omega arith)
count_loop_lem (suc fuel) count (nil z) h = rw z (ground arith)
count_loop_lem (suc fuel) count (cons at d ns) h =
    rw at.not_null
      (rw (load_node-At at) (count_loop_lem fuel (count + 1) ns (omega arith) ∙ ground arith))

-- A context is none of its nodes, so a write to it spares them.
pub IsContext-Nodes :
    {m : Memory} {p : Ptr} {c : Context} {xs : Entries} (x : Option Block)
    → IsContext m p c xs
    → Nodes (write m p x) c.allocator c.errors xs
IsContext-Nodes {p} x is =
    Nodes-write p x (not_in_Nodes p (λ n e. cc (sym is.at.holds ∙ e)) is.nodes) is.nodes

-- Its counters may change.
pub IsContext-counters :
    {m : Memory} {p : Ptr} {c : Context} {xs : Entries} (generation refcount : ℕ)
    → IsContext m p c xs
    → IsContext
        (write m p (
          some (
            block c.allocator
              (context (record c { generation = generation; refcount = refcount })))))
        p
        (record c { generation = generation; refcount = refcount })
        xs
IsContext-counters {m} {p} generation refcount is = record {
  at = At-write_self m p _ is.at.not_null;
  magic = is.magic;
  unlocked = is.unlocked;
  can_alloc = is.can_alloc;
  can_free = is.can_free;
  nodes = IsContext-Nodes _ is;
}

pub some_errors :
    {m : Memory} {p : Ptr} {c : Context} {x : Ptr × Ptr} {xs : Entries}
    → IsContext m p c (x ∷ xs)
    → (c.errors == null) ≡ false
some_errors is = head is.nodes (omega arith)
  where
    head :
        {m : Memory} {a : Allocator} {q : Ptr} {ys : Entries}
        → Nodes m a q ys
        → length ys ≢ 0
        → (q == null) ≡ false
    head (nil z) ne = absurd (ne refl)
    head (cons h d ns) ne = h.not_null

-- A context is untouched by a write outside it and its nodes.
pub IsContext-write_ne :
    {m : Memory} {p : Ptr} {c : Context} {xs : Entries} (q : Ptr) (x : Option Block)
    → (p == q) ≡ false
    → has q xs ≡ false
    → IsContext m p c xs
    → IsContext (write m q x) p c xs
IsContext-write_ne q x ne out is = record {
  at = At-write_ne q x is.at ne;
  magic = is.magic;
  unlocked = is.unlocked;
  can_alloc = is.can_alloc;
  can_free = is.can_free;
  nodes = Nodes-write q x out is.nodes;
}

Nodes-stderr :
    {m : Memory} {a : Allocator} {q : Ptr} {xs : Entries} (lines : List Diagnostic)
    → Nodes m a q xs
    → Nodes (record m { stderr = lines }) a q xs
Nodes-stderr lines (nil z) = nil z
Nodes-stderr lines (cons at d ns) =
    cons (record { not_null = at.not_null; holds = at.holds }) d (Nodes-stderr lines ns)

-- What is printed does not matter to a context.
pub IsContext-stderr :
    {m : Memory} {p : Ptr} {c : Context} {xs : Entries} (lines : List Diagnostic)
    → IsContext m p c xs
    → IsContext (record m { stderr = lines }) p c xs
IsContext-stderr lines is = record {
  at = record { not_null = is.at.not_null; holds = is.at.holds };
  magic = is.magic;
  unlocked = is.unlocked;
  can_alloc = is.can_alloc;
  can_free = is.can_free;
  nodes = Nodes-stderr lines is.nodes;
}
