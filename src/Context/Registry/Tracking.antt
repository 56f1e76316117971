-- ===== src/Context/Registry/Tracking.antt =====
-- `context_register_error` on the registry of a live context.
use libgitledger.Prelude.{
  ℕ, ◌≡◌, ◌≢◌, refl, sym, ap, subst, ◌∙◌, true, false, Option, none, some, [], ◌∷◌, ◌++◌, ◌==◌,
  arith,
}
use libgitledger.Memory.{
  Ptr, null, Context, ErrorNode, context, node, Block, Env, Memory, ok, write, print_error,
  register_failed,
}
use libgitledger.Memory.Blocks.{
  block, At, allocated, allocated-At, write-allocated, call_alloc-null, call_alloc-some,
  load_context-At, store-At, At-write_self, At-write_ne, write-write, memory_path,
}
use libgitledger.Context.{alloc, register_error, link_node}
use libgitledger.Context.Registry.{
  Entries, entry, has, cons, IsContext, is_valid-At, Nodes-write, not_in_Nodes,
}
use libgitledger.Context.Registry.Release.{lock_lem, unlock_lem, with_context}

module _ (env : Env) {m : Memory} {p : Ptr} {c : Context} {xs : Entries} (size : ℕ)
    (is : IsContext m p c xs) where
  pub alloc_null : env.allocate c.allocator size m ≡ null → alloc env p size m ≡ ok null m
  unfolding alloc
  alloc_null h =
      rw (is_valid-At is.at is.magic)
        (rw (load_context-At is.at) (rw (is.can_alloc) (call_alloc-null env _ _ m h)))

  pub alloc_some :
      env.allocate c.allocator size m ≢ null
      → alloc env p size m ≡ ok (env.allocate c.allocator size m) (allocated env c.allocator size m)
  unfolding alloc
  alloc_some h =
      rw (is_valid-At is.at is.magic)
        (rw (load_context-At is.at) (rw (is.can_alloc) (call_alloc-some env _ _ m h)))

-- A context is untouched by a write at an address that was not in use.
pub IsContext-fresh :
    {m : Memory} {p : Ptr} {c : Context} {xs : Entries} (q : Ptr) (x : Option Block)
    → m.blocks q ≡ none
    → IsContext m p c xs
    → IsContext (write m q x) p c xs
IsContext-fresh {p} q x h is = record {
  at = At-write_ne q x is.at (ground (arith, h, is.at.holds));
  magic = is.magic;
  unlocked = is.unlocked;
  can_alloc = is.can_alloc;
  can_free = is.can_free;
  nodes = Nodes-write q x (not_in_Nodes q (λ n e. cc) is.nodes) is.nodes;
}

-- The memory after a registration that got the address `q` for its node.
unfoldable pub registered : Memory → Ptr → Context → (err : Ptr) → (q : Ptr) → Memory
registered m p c err q =
    with_context (write m q (some (block c.allocator (node (entry err c.errors))))) p
      (record c { errors = q })

-- Of two addresses written in turn, the last write of each is what counts.
last_writes :
    (m : Memory) (p q : Ptr) (x y z w : Option Block)
    → write (write (write (write m p x) q y) p z) p w ≡ write (write m q y) p w
unfolding write
last_writes m p q x y z w = memory_path (λ r. ground arith) refl

module _ {m : Memory} {p q : Ptr} {c : Context} {xs : Entries} {n : ErrorNode} (err : Ptr)
    (is : IsContext m p c xs) (at_q : At m q (block c.allocator (node n)))
    (apart : (q == p) ≡ false) where
  pub link_node_lem : link_node p q err m ≡ ok tt (registered m p c err q)
  unfolding link_node registered
  link_node_lem =
      let locked : Context = record c { locked = true } in
      let at1 = At-write_self m p (block c.allocator (context locked)) is.at.not_null in
      let q1 = At-write_ne p (some (block c.allocator (context locked))) at_q apart in
      let m2 =
        write (with_context m p locked) q (some (block c.allocator (node (entry err c.errors)))) in
      let at2 =
        At-write_ne q (some (block c.allocator (node (entry err c.errors)))) at1
          (ground (arith, apart)) in
      let linked : Context = record locked { errors = q } in
      let at3 = At-write_self m2 p (block c.allocator (context linked)) is.at.not_null in
      rw (lock_lem is.at is.unlocked) (
        rw (load_context-At at1) (
          rw (store-At _ q1) (
            rw (store-At _ at2) (
              rw (unlock_lem at3) (
                ap (ok tt) (
                  last_writes m p q _ _ _ _
                  ∙ ap
                      (λ b.
                        write (write m q (some (block c.allocator (node (entry err c.errors))))) p
                          (some (block c.allocator (context (record linked { locked = b })))))
                      (sym is.unlocked)))))))

  pub link_node-IsContext :
      has q xs ≡ false
      → IsContext (registered m p c err q) p (record c { errors = q }) ((q, err) ∷ xs)
  unfolding registered
  link_node-IsContext out = record {
    at = At-write_self _ p _ is.at.not_null;
    magic = is.magic;
    unlocked = is.unlocked;
    can_alloc = is.can_alloc;
    can_free = is.can_free;
    nodes = cons (At-write_ne p _ (At-write_self m q _ at_q.not_null) apart) out (
        Nodes-write p _ (not_in_Nodes p (λ n e. cc (sym is.at.holds ∙ e)) is.nodes)
          (Nodes-write q _ out is.nodes));
  }

registered_over :
    (m : Memory) (p : Ptr) (c : Context) (err q : Ptr) (x : Option Block)
    → registered (write m q x) p c err q ≡ registered m p c err q
unfolding registered
registered_over m p c err q x =
    ap (λ r. with_context r p (record c { errors = q })) (write-write m q x _)

module _ (env : Env) {m : Memory} {p : Ptr} {c : Context} {xs : Entries} (err : Ptr)
    (is : IsContext m p c xs) where
  -- For a live context whose allocator has no room for a node, `register_error` fails, and changes
  -- nothing but for one diagnostic on stderr.
  pub register_error_out_of_memory :
      env.allocate c.allocator env.sizeof_node m ≡ null
      → register_error env p err m
        ≡ ok false (record m { stderr = m.stderr ++ (register_failed p err ∷ []) })
  unfolding register_error print_error
  register_error_out_of_memory h =
      rw (is_valid-At is.at is.magic) (rw (alloc_null env env.sizeof_node is h))

  -- For a live context whose allocator has room for a node, `register_error` succeeds: the node
  -- gets an address `q` that was not in use, the memory changes only there and in the context, and
  -- the context is live again with the error in front of its registry.
  pub register_error_lem :
      env.allocate c.allocator env.sizeof_node m ≢ null
      → let q = env.allocate c.allocator env.sizeof_node m in
        (register_error env p err m ≡ ok true (registered m p c err q))
        × IsContext (registered m p c err q) p (record c { errors = q }) ((q, err) ∷ xs)
        × (m.blocks q ≡ none)
  unfolding register_error
  register_error_lem h = (
    rw (is_valid-At is.at is.magic) (
        rw (alloc_some env env.sizeof_node is h) (
          rw there (
            rw (store-At _ (allocated-At env c.allocator env.sizeof_node m h)) (
              rw (write-allocated env c.allocator env.sizeof_node m) (
                rw (link_node_lem err fresh at_q apart)
                  (ap (ok true) (registered_over m p c err q _))))))),
    subst (λ r. IsContext r p (record c { errors = q }) ((q, err) ∷ xs))
        (registered_over m p c err q _)
        (link_node-IsContext err fresh at_q apart
          (not_in_Nodes q (λ n e. cc (sym unused ∙ e)) is.nodes)),
    unused,
  )
    where
      q : Ptr
      q = env.allocate c.allocator env.sizeof_node m

      there : (q == null) ≡ false
      there = ground arith

      unused : m.blocks q ≡ none
      unused = env.fresh c.allocator env.sizeof_node m h

      apart : (q == p) ≡ false
      apart = ground (arith, unused, is.at.holds)

      placed : Block
      placed = block c.allocator (node (entry err null))

      fresh : IsContext (write m q (some placed)) p c xs
      fresh = IsContext-fresh q (some placed) unused is

      at_q : At (write m q (some placed)) q placed
      at_q = At-write_self m q placed there
