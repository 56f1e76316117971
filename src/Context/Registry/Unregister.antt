-- ===== src/Context/Registry/Unregister.antt =====
-- `context_unregister_error` on the registry of a live context.
use libgitledger.Prelude.{
  ℕ, zero, suc, ◌≡◌, ◌<◌, refl, sym, ◌∙◌, true, false, none, ◌∷◌, ◌==◌, arith, length, inl, inr,
  Bool-cases,
}
use libgitledger.Memory.{Ptr, null, Context, context, node, Env, Memory, ok, write}
use libgitledger.Memory.Blocks.{
  block, At, load_context-At, load_node-At, store-At, At-write_self, At-write_ne, blocks-write_ne,
  blocks-write_same, stderr-write,
}
use libgitledger.Context.{
  at_head, get_cursor, set_cursor, unregister_loop, unregister_error, context_magic,
}
use libgitledger.Context.Registry.{
  Entries, entry, has, Nodes, nil, cons, IsContext, is_valid-At, Nodes-write, not_in_Nodes,
  IsContext-Nodes,
}
use libgitledger.Context.Registry.Release.{lock_lem, unlock_lem, with_context}
use libgitledger.Context.Registry.Unlink.{unlocked, without, next_loop, free_lem, apart_node}

-- What unregistering `err` leaves of a registry: the context is live, its first node for `err` is
-- gone and given back, and nothing else has changed.
pub record Unregistered (m : Memory) (p : Ptr) (c : Context) (err : Ptr) (xs : Entries)
    (m' : Memory) : Type 0 where
  pub first : Ptr
  pub live : IsContext m' p (record c { errors = first; locked = false }) (without err xs)
  pub untouched : (s : Ptr) → (s == p) ≡ false → has s xs ≡ false → m'.blocks s ≡ m.blocks s
  pub freed : (s : Ptr) → has s xs ≡ true → has s (without err xs) ≡ false → m'.blocks s ≡ none
  pub quiet : m'.stderr ≡ m.stderr

module _ {m : Memory} {p : Ptr} {c : Context} (err : Ptr)
    (at : At m p (block c.allocator (context c))) (magic : c.magic ≡ context_magic)
    (can_alloc : (c.allocator.alloc == null) ≡ false)
    (can_free : (c.allocator.free == null) ≡ false) where
  head_found :
      (fuel : ℕ) {q next e : Ptr} {xs : Entries}
      → c.errors ≡ q
      → At m q (block c.allocator (node (entry e next)))
      → has q xs ≡ false
      → Nodes m c.allocator next xs
      → (e == err) ≡ true
      → (m' : Memory) × Unregistered m p c err ((q, e) ∷ xs) m'
        × (unregister_loop (suc fuel) p err at_head m ≡ ok tt m')
  unfolding unregister_loop get_cursor set_cursor
  head_found fuel {q} {next} {e} {xs} first at_q off ns found = (
    write m_u q none,
    record {
      first = next;
      live = record {
        at = At-write_ne q none (At-write_self m_r p _ at.not_null) (ground (arith, q_p));
        magic = magic;
        unlocked = refl;
        can_alloc = can_alloc;
        can_free = can_free;
        nodes =
            rw found (Nodes-write q none off (Nodes-write p _ p_off (Nodes-write p _ p_off ns)));
      };
      untouched = λ s h o.
          blocks-write_ne m_u q s none (ground (arith, o))
          ∙ (blocks-write_ne m_r p s _ h ∙ blocks-write_ne m p s _ h);
      freed = λ s h k. blocks-write_same m_u q s none (ground (arith, h, k, found));
      quiet = stderr-write m_u q none ∙ (stderr-write m_r p _ ∙ stderr-write m p _);
    },
    rw (load_context-At at) (
        rw first (
          rw (at_q.not_null) (
            rw (load_node-At at_q) (
              rw found (
                rw (load_context-At at) (
                  rw (store-At _ at)
                    (rw (unlock_lem at_r) (free_lem at_u magic can_free at_q')))))))),
  )
    where
      m_r : Memory
      m_r = with_context m p (record c { errors = next })

      m_u : Memory
      m_u = with_context m_r p (record c { errors = next; locked = false })

      at_r : At m_r p (block c.allocator (context (record c { errors = next })))
      at_r = At-write_self m p _ at.not_null

      at_u : At m_u p (block c.allocator (context (record c { errors = next; locked = false })))
      at_u = At-write_self m_r p _ at.not_null

      q_p : (q == p) ≡ false
      q_p = apart_node at magic can_free at_q

      at_q' : At m_u q (block c.allocator (node (entry e next)))
      at_q' = At-write_ne p _ (At-write_ne p _ at_q q_p) q_p

      p_off : has p xs ≡ false
      p_off = not_in_Nodes p (λ n e. cc (sym at.holds ∙ e)) ns

  head_loop :
      (fuel : ℕ) {q : Ptr} {xs : Entries}
      → c.errors ≡ q
      → Nodes m c.allocator q xs
      → length xs < fuel
      → (m' : Memory) × Unregistered m p c err xs m'
        × (unregister_loop fuel p err at_head m ≡ ok tt m')
  unfolding unregister_loop get_cursor
  head_loop zero first ns h = absurd (omega arith)
  head_loop (suc fuel) first (nil z) h = (
    with_context m p (unlocked c),
    record {
      first = c.errors;
      live = record {
        at = At-write_self m p _ at.not_null;
        magic = magic;
        unlocked = refl;
        can_alloc = can_alloc;
        can_free = can_free;
        nodes = nil (first ∙ z);
      };
      untouched = λ s h o. blocks-write_ne m p s _ h;
      freed = λ s h k. absurd (ground (arith, h));
      quiet = stderr-write m p _;
    },
    (let none_left : (c.errors == null) ≡ true = ground (arith, first, z) in
        rw (load_context-At at) (rw none_left (unlock_lem at))),
  )
  head_loop (suc fuel) first (cons {p = q} {e} {q = next} {xs} at_q off ns) h =
      elim (Bool-cases (e == err)) [
        | inl found ↦ head_found fuel first at_q off ns found
        | inr other ↦
            let (m', u, run) = next_loop err magic can_free fuel at at_q off ns (omega arith) in
            (
              m',
              record {
                first = c.errors;
                live = record {
                  at = u.context_at;
                  magic = magic;
                  unlocked = refl;
                  can_alloc = can_alloc;
                  can_free = can_free;
                  nodes = rw (first, other) u.linked;
                };
                untouched = λ s h o. u.untouched s h (ground (arith, o)) (ground (arith, o));
                freed =
                    λ s h k. u.freed s (ground (arith, h, k, other)) (ground (arith, h, k, other));
                quiet = u.quiet;
              },
              rw (load_context-At at)
                  (rw first (rw (at_q.not_null) (rw (load_node-At at_q) (rw other run)))),
            )
      ]

-- For a live context whose registry is shorter than `rounds`, `unregister_error` ends with the
-- lock free and a live context, whose registry lacks the first node for the error and keeps the
-- others in their order; a node that has left the registry has been given back, no other address
-- outside the registry and the context has changed, and nothing is printed.
pub unregister_error_lem :
    (env : Env) {m : Memory} {p : Ptr} {c : Context} {xs : Entries} (err : Ptr)
    → IsContext m p c xs
    → length xs < env.rounds
    → (m' : Memory) × Unregistered m p c err xs m' × (unregister_error env p err m ≡ ok tt m')
unfolding unregister_error
unregister_error_lem env {m} {p} {c} err is few =
    let held : Context = record c { locked = true } in
    let (m', u, run) =
      head_loop err (At-write_self m p (block c.allocator (context held)) is.at.not_null) is.magic
        is.can_alloc is.can_free env.rounds refl (IsContext-Nodes _ is) few in
    (
      m',
      record {
        first = u.first;
        live = u.live;
        untouched = λ s h o. u.untouched s h o ∙ blocks-write_ne m p s _ h;
        freed = u.freed;
        quiet = u.quiet ∙ stderr-write m p _;
      },
      rw (is_valid-At is.at is.magic) (rw (lock_lem is.at is.unlocked) run),
    )
