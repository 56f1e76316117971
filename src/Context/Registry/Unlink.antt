-- ===== src/Context/Registry/Unlink.antt =====
-- The loop of `context_unregister_error` behind a node of the registry.
use libgitledger.Prelude.{
  ℕ, zero, suc, ◌≡◌, ◌<◌, refl, sym, ◌∙◌, true, false, none, some, [], ◌∷◌, ◌==◌, arith, length,
  if◌then◌else◌, inl, inr, Bool-cases,
}
use libgitledger.Memory.{Ptr, null, Context, context, node, Block, Memory, ok, write}
use libgitledger.Memory.Blocks.{
  block, At, load_context-At, load_node-At, store-At, call_free-At, At-write_self, At-write_ne,
  blocks-write_ne, blocks-write_same, stderr-write,
}
use libgitledger.Context.{free, at_next, get_cursor, set_cursor, unregister_loop, context_magic}
use libgitledger.Context.Registry.{
  Entries, entry, has, Nodes, nil, cons, is_valid-At, Nodes-write, not_in_Nodes,
}
use libgitledger.Context.Registry.Release.{unlock_lem, with_context}

-- The registry without the first node that names `err`.
abbrev pub without : Ptr → Entries → Entries
without err [] = []
without err ((p, e) ∷ xs) = if e == err then xs else (p, e) ∷ without err xs

pub has-without : (err s : Ptr) (xs : Entries) → has s xs ≡ false → has s (without err xs) ≡ false
has-without err s [] h = refl
has-without err s ((p, e) ∷ xs) h = ground (arith, has-without err s xs)

module _ {m : Memory} {p : Ptr} {c : Context} (at : At m p (block c.allocator (context c)))
    (magic : c.magic ≡ context_magic) (can_free : (c.allocator.free == null) ≡ false) where
  pub free_lem :
      {q : Ptr} {e : Ptr} {n : Ptr}
      → At m q (block c.allocator (node (entry e n)))
      → free p q m ≡ ok tt (write m q none)
  unfolding free
  free_lem at_q =
      rw (is_valid-At at magic)
        (rw (load_context-At at) (rw can_free (rw (at_q.not_null) (call_free-At at_q))))

  pub apart_node : {q e n : Ptr} → At m q (block c.allocator (node (entry e n))) → (q == p) ≡ false
  apart_node at_q = ground (arith, at.holds, at_q.holds)

pub At-untouched :
    {m m' : Memory} {p : Ptr} {b : Block} → At m p b → m'.blocks p ≡ m.blocks p → At m' p b
At-untouched h e = record { not_null = h.not_null; holds = e ∙ h.holds }

abbrev pub unlocked : Context → Context
unlocked c = record c { locked = false }

-- Behind the node `r`, which names `front`, the first node for `err` is gone from `xs`; the lock is
-- free, and addresses outside hold what they held.
pub record Unlinked (m : Memory) (p : Ptr) (c : Context) (err r front : Ptr) (xs : Entries)
    (m' : Memory) : Type 0 where
  pub context_at : At m' p (block c.allocator (context (unlocked c)))
  pub linked : Nodes m' c.allocator r ((r, front) ∷ without err xs)
  pub untouched :
      (s : Ptr) → (s == p) ≡ false → (s == r) ≡ false → has s xs ≡ false → m'.blocks s ≡ m.blocks s
  pub freed : (s : Ptr) → has s xs ≡ true → has s (without err xs) ≡ false → m'.blocks s ≡ none
  pub quiet : m'.stderr ≡ m.stderr

-- The memory where the node `q` behind `r` has been unlinked and given back.
abbrev cut : Memory → (p : Ptr) → Context → (r front next q : Ptr) → Memory
cut m p c r front next q =
    write
      (with_context (write m r (some (block c.allocator (node (entry front next))))) p (unlocked c))
      q none

module _ {p : Ptr} {c : Context} (err : Ptr) (magic : c.magic ≡ context_magic)
    (can_free : (c.allocator.free == null) ≡ false) where
  next_end :
      (fuel : ℕ) {m : Memory} {r front q : Ptr}
      → At m p (block c.allocator (context c))
      → At m r (block c.allocator (node (entry front q)))
      → q ≡ null
      → Unlinked m p c err r front [] (with_context m p (unlocked c))
        × (unregister_loop (suc fuel) p err (at_next r) m ≡ ok tt (with_context m p (unlocked c)))
  unfolding unregister_loop get_cursor
  next_end fuel {m} {r} at at_r z = (
    record {
      context_at = At-write_self m p _ at.not_null;
      linked = cons (At-write_ne p _ at_r (apart_node at magic can_free at_r)) refl (nil z);
      untouched = λ s h k o. blocks-write_ne m p s _ h;
      freed = λ s h k. absurd (ground (arith, h));
      quiet = stderr-write m p _;
    },
    rw (load_node-At at_r) (rw z (unlock_lem at)),
  )

  next_found :
      (fuel : ℕ) {m : Memory} {r front q next e : Ptr} {xs : Entries}
      → At m p (block c.allocator (context c))
      → At m r (block c.allocator (node (entry front q)))
      → At m q (block c.allocator (node (entry e next)))
      → has r ((q, e) ∷ xs) ≡ false
      → has q xs ≡ false
      → Nodes m c.allocator next xs
      → (e == err) ≡ true
      → Unlinked m p c err r front ((q, e) ∷ xs) (cut m p c r front next q)
        × (unregister_loop (suc fuel) p err (at_next r) m ≡ ok tt (cut m p c r front next q))
  unfolding unregister_loop get_cursor set_cursor
  next_found fuel {m} {r} {front} {q} {next} {e} {xs} at at_r at_q out off ns found = (
    record {
      context_at = At-write_ne q none at_u (ground (arith, apart_node at magic can_free at_q));
      linked = rw found (
          cons (At-write_ne q none (At-write_ne p _ at_r' r_p) (ground (arith, q_r)))
            (ground (arith, out)) rest);
      untouched = λ s h k o.
          blocks-write_ne _ q s none (ground arith)
          ∙ (blocks-write_ne _ p s _ h ∙ blocks-write_ne m r s _ k);
      freed = λ s h k. blocks-write_same _ q s none (ground (arith, h, k, found));
      quiet = stderr-write _ q none ∙ (stderr-write _ p _ ∙ stderr-write m r _);
    },
    rw (load_node-At at_r) (
        rw (at_q.not_null) (
          rw (load_node-At at_q) (
            rw found (
              rw (load_node-At at_r) (
                rw (store-At _ at_r)
                  (rw (unlock_lem at') (free_lem at_u magic can_free at_q'))))))),
  )
    where
      m_r : Memory
      m_r = write m r (some (block c.allocator (node (entry front next))))

      at_r' : At m_r r (block c.allocator (node (entry front next)))
      at_r' = At-write_self m r _ at_r.not_null

      r_p : (r == p) ≡ false
      r_p = apart_node at magic can_free at_r

      q_p : (q == p) ≡ false
      q_p = apart_node at magic can_free at_q

      q_r : (q == r) ≡ false
      q_r = ground (arith, out)

      at' : At m_r p (block c.allocator (context c))
      at' = At-write_ne r _ at (ground (arith, r_p))

      at_u : At (with_context m_r p (unlocked c)) p (block c.allocator (context (unlocked c)))
      at_u = At-write_self m_r p _ at.not_null

      at_q' : At (with_context m_r p (unlocked c)) q (block c.allocator (node (entry e next)))
      at_q' = At-write_ne p _ (At-write_ne r _ at_q q_r) q_p

      rest : Nodes (cut m p c r front next q) c.allocator next xs
      rest = Nodes-write q none off (
          Nodes-write p _ (not_in_Nodes p (λ n e. cc (sym at.holds ∙ e)) ns)
            (Nodes-write r _ (ground (arith, out)) ns))

  -- The loop behind a node `r` that does not name `err`.
  pub next_loop :
      (fuel : ℕ) {m : Memory} {r front q : Ptr} {xs : Entries}
      → At m p (block c.allocator (context c))
      → At m r (block c.allocator (node (entry front q)))
      → has r xs ≡ false
      → Nodes m c.allocator q xs
      → length xs < fuel
      → (m' : Memory) × Unlinked m p c err r front xs m'
        × (unregister_loop fuel p err (at_next r) m ≡ ok tt m')
  unfolding unregister_loop get_cursor
  next_loop zero at at_r out ns h = absurd (omega arith)
  next_loop (suc fuel) at at_r out (nil z) h = let (u, run) = next_end fuel at at_r z in (_, u, run)
  next_loop (suc fuel) {m} {r} {front} at at_r out (cons {p = q} {e} {q = next} {xs} at_q off ns)
        h =
      elim (Bool-cases (e == err)) [
        | inl found ↦ let (u, run) = next_found fuel at at_r at_q out off ns found in (_, u, run)
        | inr other ↦
            let (m', u, run) = next_loop fuel at at_q off ns (omega arith) in
            (
              m',
              record {
                context_at = u.context_at;
                linked = rw other (
                    cons
                      (At-untouched at_r (
                        u.untouched r (apart_node at magic can_free at_r) (ground (arith, out))
                          (ground (arith, out))))
                      (ground (arith, has-without err r xs, out)) u.linked);
                untouched = λ s h k o. u.untouched s h (ground (arith, o)) (ground (arith, o));
                freed =
                    λ s h k. u.freed s (ground (arith, h, k, other)) (ground (arith, h, k, other));
                quiet = u.quiet;
              },
              rw (load_node-At at_r) (rw (at_q.not_null) (rw (load_node-At at_q) (rw other run))),
            )
      ]
