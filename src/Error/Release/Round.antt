-- ===== src/Error/Release/Round.antt =====
-- One round of the loop of `gitledger_error_release` on the last reference to an error.
use libgitledger.Prelude.{
  ℕ, suc, ◌<◌, ◌≡◌, inl, inr, refl, sym, ◌∙◌, true, false, none, some, [], ◌∷◌, ◌==◌, arith, length,
}
use libgitledger.Memory.{
  Ptr, null, Allocator, Context, ErrorObject, error, Env, Memory, write, ◌>>◌,
}
use libgitledger.Memory.Blocks.{
  ne_sym, block, At, load_error-At, store-At, At-write_self, blocks-write_ne, ne_of_blocks,
}
use libgitledger.Context.Registry.{
  Entries, has, Nodes, nil, cons, IsContext, IsContext-write_ne, not_in_Nodes,
}
use libgitledger.Context.Registry.Unlink.{without, has-without, At-untouched}
use libgitledger.Context.Registry.Unregister.{Unregistered, unregister_error_lem}
use libgitledger.Error.{free_error, release_loop}
use libgitledger.Error.Release.{owned_error, Part, Part-untouched, Part-ne, Freed, free_error_lem}

has-null :
    {m : Memory} {a : Allocator} {p : Ptr} {xs : Entries} → Nodes m a p xs → has null xs ≡ false
has-null (nil z) = refl
has-null (cons at d ns) = ground (arith, at.not_null, has-null ns)

has-ne : (r q : Ptr) (xs : Entries) → has r xs ≡ true → has q xs ≡ false → (r == q) ≡ false
has-ne r q [] h k = cc
has-ne r q ((p, e) ∷ xs) h k = ground (arith, h, k, has-ne r q xs)

-- An error or its part is no context and no node.
pub error_apart :
    {m : Memory} {p q : Ptr} {c : Context} {xs : Entries} {e : ErrorObject}
    → IsContext m p c xs
    → At m q (block c.allocator (error e))
    → ((q == p) ≡ false) × (has q xs ≡ false)
error_apart {m} {p} {q} is at = (
  ne_of_blocks m q p at.holds is.at.holds (λ z. cc),
  not_in_Nodes q (λ n z. cc (sym at.holds ∙ z)) is.nodes,
)

pub Part-apart :
    {m : Memory} {p r : Ptr} {c : Context} {xs : Entries}
    → IsContext m p c xs
    → Part m c.allocator r
    → ((r == p) ≡ false) × (has r xs ≡ false)
Part-apart is (inl z) = rw z (ground (arith, is.at.not_null), has-null is.nodes)
Part-apart {m} {p} {r} is (inr (t, at)) = (
  ne_of_blocks m r p at.holds is.at.holds (λ z. cc),
  not_in_Nodes r (λ n z. cc (sym at.holds ∙ z)) is.nodes,
)

Nodes-Freed :
    {m m' : Memory} {a : Allocator} {p q s j : Ptr} {xs : Entries}
    → Freed m q s j m'
    → has q xs ≡ false
    → has s xs ≡ false
    → has j xs ≡ false
    → Nodes m a p xs
    → Nodes m' a p xs
Nodes-Freed f hq hs hj (nil z) = nil z
Nodes-Freed f hq hs hj (cons {p} at d ns) =
    cons (At-untouched at (f.same p (ground (arith, hq)) (ground (arith, hs)) (ground (arith, hj))))
      d (Nodes-Freed f (ground (arith, hq)) (ground (arith, hs)) (ground (arith, hj)) ns)

-- What one round has done: the error and its parts are gone, and the registry has let go of it.
pub record Round (m : Memory) (p : Ptr) (c : Context) (xs : Entries) (q s j : Ptr) (m' : Memory)
    : Type 0 where
  pub first : Ptr
  pub live : IsContext m' p (record c { errors = first; locked = false }) (without q xs)
  pub object : m'.blocks q ≡ none
  pub message : (s == null) ≡ false → m'.blocks s ≡ none
  pub cache : (j == null) ≡ false → m'.blocks j ≡ none
  pub node : (r : Ptr) → has r xs ≡ true → has r (without q xs) ≡ false → m'.blocks r ≡ none
  pub untouched :
      (r : Ptr)
      → (r == p) ≡ false
      → (r == q) ≡ false
      → (r == s) ≡ false
      → (r == j) ≡ false
      → has r xs ≡ false
      → m'.blocks r ≡ m.blocks r

module _ (env : Env) {m : Memory} {p q s j cause : Ptr} {c : Context} {xs : Entries}
    (e : ErrorObject) (is : IsContext m p c xs) (few : length xs < env.rounds)
    (at_q : At m q (block c.allocator (error (owned_error p c.allocator s j cause e))))
    (part_s : Part m c.allocator s) (part_j : Part m c.allocator j)
    (s_j : (s == null) ≡ false → (s == j) ≡ false) where
  -- The error before it is freed, with no reference and no cause.
  abbrev dropped : Ptr → ErrorObject
  dropped r = record (owned_error p c.allocator s j r e) { refcount = 0 }

  -- The memory when the error has lost its reference, its place in the registry and its cause.
  unregistered :
      (m2 : Memory) × Unregistered
        (write m q (some (block c.allocator (error (dropped cause)))))
        p
        c
        q
        xs
        m2
      × ((fuel : ℕ)
          → release_loop (suc fuel) env q m
            ≡ (free_error q >> release_loop fuel env cause)
                (write m2 q (some (block c.allocator (error (dropped null))))))
  unfolding release_loop
  unregistered =
      let (q_p, out) = error_apart is at_q in
      let m1 : Memory = write m q (some (block c.allocator (error (dropped cause)))) in
      let at1 : At m1 q (block c.allocator (error (dropped cause))) =
        At-write_self m q _ at_q.not_null in
      let (m2, u, run) =
        unregister_error_lem env q (IsContext-write_ne q _ (ne_sym q p q_p) out is) few in
      let at2 : At m2 q (block c.allocator (error (dropped cause))) =
        At-untouched at1 (u.untouched q q_p out) in
      (
        m2,
        u,
        λ fuel. rw (at_q.not_null) (
            rw (load_error-At at_q) (
              rw (store-At _ at_q)
                (rw (is.at.not_null) (rw run (rw (load_error-At at2) (rw (store-At _ at2))))))),
      )

  pub round_lem :
      (m' : Memory) × Round m p c xs q s j m'
      × ((fuel : ℕ) → release_loop (suc fuel) env q m ≡ release_loop fuel env cause m')
  round_lem =
      let (m2, u, run) = unregistered in
      let (q_p, out_q) = error_apart is at_q in
      let (s_p, out_s) = Part-apart is part_s in
      let (j_p, out_j) = Part-apart is part_j in
      let q_s : (q == s) ≡ false = Part-ne q at_q part_s in
      let q_j : (q == j) ≡ false = Part-ne q at_q part_j in
      let m3 : Memory = write m2 q (some (block c.allocator (error (dropped null)))) in
      let at3 : At m3 q (block c.allocator (error (dropped null))) =
        At-write_self m2 q _ at_q.not_null in
      let same : (r : Ptr)
          → (r == p) ≡ false
          → (r == q) ≡ false
          → has r xs ≡ false
          → m3.blocks r ≡ m.blocks r =
        λ r r_p r_q o.
          blocks-write_ne m2 q r _ r_q ∙ (u.untouched r r_p o ∙ blocks-write_ne m q r _ r_q) in
      let part_s3 : Part m3 c.allocator s =
        Part-untouched part_s (λ h. same s s_p (ne_sym q s q_s) out_s) in
      let part_j3 : Part m3 c.allocator j =
        Part-untouched part_j (λ h. same j j_p (ne_sym q j q_j) out_j) in
      let (m4, freed, f) =
        free_error_lem c.allocator (dropped null) at3 part_s3 part_j3 s_j is.can_free in
      let live3 : IsContext m3 p (record c { errors = u.first; locked = false }) (without q xs) =
        IsContext-write_ne q _ (ne_sym q p q_p) (has-without q q xs out_q) u.live in
      (
        m4,
        record {
          first = u.first;
          live = record {
            at =
                At-untouched live3.at (f.same p (ne_sym q p q_p) (ne_sym s p s_p) (ne_sym j p j_p));
            magic = is.magic;
            unlocked = refl;
            can_alloc = is.can_alloc;
            can_free = is.can_free;
            nodes =
                Nodes-Freed f (has-without q q xs out_q) (has-without q s xs out_s)
                  (has-without q j xs out_j) live3.nodes;
          };
          object = f.object;
          message = f.message;
          cache = f.cache;
          node = λ r there out.
              let r_q = has-ne r q xs there out_q in
              f.same r r_q (has-ne r s xs there out_s) (has-ne r j xs there out_j)
              ∙ (blocks-write_ne m2 q r _ r_q ∙ u.freed r there out);
          untouched = λ r r_p r_q r_s r_j o. f.same r r_q r_s r_j ∙ same r r_p r_q o;
        },
        λ fuel. run fuel ∙ rw freed,
      )
