-- ===== src/Cache/Stale.antt =====
-- `ensure_json_cache_current` on an error whose cache is of another generation than its context.
use libgitledger.Prelude.{
  ℕ, ◌≡◌, inl, inr, refl, sym, ◌∙◌, false, none, some, ◌==◌, arith, if◌then◌else◌,
}
use libgitledger.Memory.{
  Ptr, null, Allocator, Context, ErrorObject, error, Env, Memory, ok, write, skip,
}
use libgitledger.Memory.Blocks.{
  block, At, load_context-At, load_error-At, store-At, call_free-At, At-write_self, blocks-write_ne,
  blocks-write_same, ne_of_blocks, ne_sym,
}
use libgitledger.Context
use libgitledger.Context.Registry.{
  Entries, IsContext, is_valid-At, IsContext-write_ne, not_in_Nodes,
}
use libgitledger.Context.Registry.Unlink.{At-untouched}
use libgitledger.Error.Release.{Part, Part-untouched}
use libgitledger.Cache.{ensure_current, error_json}
use libgitledger.Cache.Fill.{holder, generation_snapshot-IsContext, ensure_current_fresh}

-- The text at `r` is given back, and the context does not notice.
record Dropped (m : Memory) (p : Ptr) (c : Context) (xs : Entries) (r : Ptr) (m' : Memory)
    : Type 0 where
  gone : (r == null) ≡ false → m'.blocks r ≡ none
  same : (q : Ptr) → (q == r) ≡ false → m'.blocks q ≡ m.blocks q
  live : IsContext m' p c xs

free_text :
    {m : Memory} {p : Ptr} {c : Context} {xs : Entries} (r : Ptr)
    → IsContext m p c xs
    → Part m c.allocator r
    → (m' : Memory) × ((if r == null then skip else Context.free p r) m ≡ ok tt m')
      × Dropped m p c xs r m'
unfolding Context.free
free_text {m} r is (inl z) =
    (m, rw z, record { gone = λ h. absurd (ground (arith, z, h)); same = λ q h. refl; live = is })
free_text {m} {p} r is (inr (t, at)) = (
  write m r none,
  rw (at.not_null) (
      rw (is_valid-At is.at is.magic)
        (rw (load_context-At is.at) (rw (is.can_free) (call_free-At at)))),
  record {
    gone = λ h. blocks-write_same m r r none (ground arith);
    same = λ q h. blocks-write_ne m r q none h;
    live =
        IsContext-write_ne r none (ne_of_blocks m p r is.at.holds at.holds (λ z. cc))
          (not_in_Nodes r (λ n z. cc (sym at.holds ∙ z)) is.nodes) is;
  },
)

-- An error is no text.
text_ne :
    {m : Memory} {a b : Allocator} {r : Ptr} (q : Ptr) {e : ErrorObject}
    → At m q (block b (error e))
    → Part m a r
    → (q == r) ≡ false
text_ne q at (inl z) = ground (arith, at.not_null, z)
text_ne {m} {r} q at (inr (t, at_r)) = ne_of_blocks m q r at.holds at_r.holds (λ z. cc)

-- `m'` is `m` with the error at `q` of the context's generation, and without its cache at `j`.
pub record Refreshed (m : Memory) (p q : Ptr) (c : Context) (xs : Entries) (a : Allocator) (j : Ptr)
    (e : ErrorObject) (m' : Memory) : Type 0 where
  pub object : At m' q (block a (error (holder p c.generation null e)))
  pub live : IsContext m' p c xs
  pub gone : (j == null) ≡ false → m'.blocks j ≡ none
  pub same : (r : Ptr) → (r == q) ≡ false → (r == j) ≡ false → m'.blocks r ≡ m.blocks r

module _ (env : Env) {m : Memory} {p q j : Ptr} {c : Context} {xs : Entries} {a : Allocator} (g : ℕ)
    (e : ErrorObject) (is : IsContext m p c xs) (at : At m q (block a (error (holder p g j e))))
    (stale : (g == c.generation) ≡ false) (part : Part m c.allocator j) where
  -- An error's block is none of the context's.
  IsContext-write_error :
      {n : Memory} (x y : ErrorObject)
      → At n q (block a (error x))
      → IsContext n p c xs
      → IsContext (write n q (some (block a (error y)))) p c xs
  IsContext-write_error {n} x y at_q live =
      IsContext-write_ne q _ (ne_of_blocks n p q live.at.holds at_q.holds (λ z. cc))
        (not_in_Nodes q (λ o z. cc (sym at_q.holds ∙ z)) live.nodes) live

  refresh : (m' : Memory) × (ensure_current q m ≡ ok tt m') × Refreshed m p q c xs a j e m'
  unfolding ensure_current
  refresh =
      let q_j : (q == j) ≡ false = text_ne q at part in
      let j_q : (j == q) ≡ false = ne_sym q j q_j in
      let emptied : ErrorObject = holder p g null e in
      let m1 : Memory = write m q (some (block a (error emptied))) in
      let at1 : At m1 q (block a (error emptied)) = At-write_self m q _ at.not_null in
      let live1 : IsContext m1 p c xs = IsContext-write_error (holder p g j e) emptied at is in
      let part1 : Part m1 c.allocator j = Part-untouched part (λ h. blocks-write_ne m q j _ j_q) in
      let (m2, run, d) = free_text j live1 part1 in
      let at2 : At m2 q (block a (error emptied)) = At-untouched at1 (d.same q q_j) in
      let current : ErrorObject = holder p c.generation null e in
      (
        write m2 q (some (block a (error current))),
        rw (load_error-At at) (
            rw (is.at.not_null) (
              rw (generation_snapshot-IsContext is) (
                rw stale (rw (store-At _ at) (rw run (rw (load_error-At at2) (store-At _ at2))))))),
        record {
          object = At-write_self m2 q _ at.not_null;
          live = IsContext-write_error emptied current at2 d.live;
          gone = λ h. blocks-write_ne m2 q j _ j_q ∙ d.gone h;
          same = λ r r_q r_j.
              blocks-write_ne m2 q r _ r_q ∙ (d.same r r_j ∙ blocks-write_ne m q r _ r_q);
        },
      )

  -- For an error of a live context whose generation is not the context's, without a cached text or
  -- with one in a block of the context's allocator, `error_json` runs as it does on a memory where
  -- the error has the context's generation and no cached text, the old text has been given back,
  -- the context is live, and no other address has changed.
  pub error_json-stale :
      (m' : Memory) × (error_json env q m ≡ error_json env q m') × Refreshed m p q c xs a j e m'
  unfolding error_json
  error_json-stale =
      let (m', run, r) = refresh in
      (m', rw (at.not_null) (rw run (rw (ensure_current_fresh null e r.live r.object))), r)
