-- ===== src/Cache/Fill.antt =====
-- `gitledger_error_json` on an error of a live context: the cache is empty, or holds a text.
use libgitledger.Prelude.{
  ℕ, suc, ◌+◌, ◌-◌, ◌<◌, ◌≡◌, ◌≢◌, sym, ap, ◌∙◌, false, Option, none, some, List, [], ◌∷◌, ◌++◌,
  ◌==◌, ==_refl, arith, length,
}
use libgitledger.Text.{Bytes}
use libgitledger.Text.Strings.{c_string-append_nul, snprintf_result_exact}
use libgitledger.Buffer.{size_max}
use libgitledger.Memory.{
  Ptr, null, Allocator, Context, ErrorObject, error, bytes, Env, Memory, ok, write,
}
use libgitledger.Memory.Blocks.{
  block, At, allocated, load_context-At, load_error-At, load_bytes-At, store-At, At-write_self,
  At-write_ne, write-write, ne_of_blocks, ne_sym,
}
use libgitledger.Context.{alloc, generation_snapshot}
use libgitledger.Context.Registry.{
  Entries, IsContext, is_valid-At, IsContext-write_ne, not_in_Nodes,
}
use libgitledger.Context.Registry.Tracking.{alloc_null, alloc_some, IsContext-fresh}
use libgitledger.Cache.{
  empty_object, cached, ensure_current, publish, render_cache, error_json, read_json,
}
use libgitledger.Json.{render_json}
use libgitledger.Json.NoNul.{json_text-IsText}
use libgitledger.Json.Render.Chain.{View, chain_text}
use libgitledger.Json.Render.Frame.{
  Stands, Causes, Stands-Shows, Causes-Chain, Stands-unused, Causes-unused,
}
use libgitledger.Json.Render.Depth.{json_text, capacity_for, render_json_measure, render_json_lem}

-- An error of the context at `p`, of the generation `g` and with the cache `j`.
abbrev pub holder : (p : Ptr) (g : ℕ) (j : Ptr) → ErrorObject → ErrorObject
holder p g j e = record e { ctx = p; ctx_generation = g; json_cache = j }

abbrev pub view : ErrorObject → Option Bytes → View
view e t = record { object = e; message = t }

pub alloc-write :
    (env : Env) {m : Memory} {p : Ptr} {c : Context} {xs : Entries} (size : ℕ) (b : Ptr)
    → IsContext m p c xs
    → b ≡ env.allocate c.allocator size m
    → b ≢ null
    → alloc env p size m
      ≡ ok b (write m b (some (block c.allocator (bytes (env.left_over b size)))))
unfolding allocated
alloc-write env size b is e h = rw e (alloc_some env size is (λ z. h (e ∙ z)))

pub generation_snapshot-IsContext :
    {m : Memory} {p : Ptr} {c : Context} {xs : Entries}
    → IsContext m p c xs
    → generation_snapshot p m ≡ ok c.generation m
unfolding generation_snapshot
generation_snapshot-IsContext is = rw (is_valid-At is.at is.magic) (rw (load_context-At is.at))

pub ensure_current_fresh :
    {m : Memory} {p q : Ptr} {c : Context} {xs : Entries} {a : Allocator} (j : Ptr)
    (e : ErrorObject)
    → IsContext m p c xs
    → At m q (block a (error (holder p c.generation j e)))
    → ensure_current q m ≡ ok tt m
unfolding ensure_current
ensure_current_fresh {c} j e is at =
    rw (load_error-At at)
      (rw (is.at.not_null) (rw (generation_snapshot-IsContext is) (rw (==_refl c.generation))))

-- For an error of a live context with a cached text of the current generation, `error_json`
-- returns the pointer to that text and changes nothing.
pub error_json_again :
    (env : Env) {m : Memory} {p q : Ptr} {c : Context} {xs : Entries} {a : Allocator} (j : Ptr)
    (e : ErrorObject)
    → IsContext m p c xs
    → At m q (block a (error (holder p c.generation j e)))
    → (j == null) ≡ false
    → error_json env q m ≡ ok (cached j) m
unfolding error_json
error_json_again env j e is at there =
    rw (at.not_null) (rw (ensure_current_fresh j e is at) (rw (load_error-At at) (rw there)))

-- `m` with the text in a block at `b`, which the error at `q` has for its cache.
abbrev pub with_cache :
    Memory → (p q : Ptr) → Context → Allocator → ErrorObject → Bytes → (b : Ptr) → Memory
with_cache m p q c a e text b =
    write (write m b (some (block c.allocator (bytes (text ++ (0 ∷ [])))))) q
      (some (block a (error (holder p c.generation b e))))

-- The block at `b` was not in use in `m`, and shows in `m'` the text that is the error's cache.
pub record Filled (m : Memory) (p q : Ptr) (c : Context) (xs : Entries) (a : Allocator)
    (e : ErrorObject) (text : Bytes) (b : Ptr) (m' : Memory) : Type 0 where
  pub new : m.blocks b ≡ none
  pub live : IsContext m' p c xs
  pub shown : read_json (cached b) m' ≡ ok text m'
  pub object : At m' q (block a (error (holder p c.generation b e)))

module _ (env : Env) {m : Memory} {p q : Ptr} {c : Context} {xs : Entries} (e : ErrorObject)
    (t : Option Bytes) {vs : List View} (is : IsContext m p c xs)
    (st : Stands m q (view (holder p c.generation null e) t)) (cs : Causes m e.cause vs)
    (fits : length (json_text env m (view (holder p c.generation null e) t) vs) < size_max) where
  abbrev first : View
  first = view (holder p c.generation null e) t

  abbrev size : ℕ
  size = length (json_text env m first vs) + 1

  measured : render_json env q none 0 m ≡ ok (size, none) m
  measured = render_json_measure env (Stands-Shows st) (Causes-Chain cs) fits 0 (omega arith)

  -- Without room for the text the memory stays as it is.
  pub error_json_out_of_memory :
      env.allocate c.allocator size m ≡ null → error_json env q m ≡ ok empty_object m
  unfolding error_json render_cache
  error_json_out_of_memory none_left = rw (st.at.not_null) (
      rw (ensure_current_fresh null e is st.at) (
        rw (load_error-At st.at)
          (rw (is.at.not_null) (rw measured (rw (alloc_null env size is none_left))))))

  module _ (b : Ptr) (e_b : b ≡ env.allocate c.allocator size m) (b_there : b ≢ null) where
    abbrev with_block : Bytes → Memory
    with_block array = write m b (some (block c.allocator (bytes array)))

    unused : m.blocks b ≡ none
    unused = rw e_b (env.fresh c.allocator size m (λ z. b_there (e_b ∙ z)))

    q_b : (q == b) ≡ false
    q_b = ne_of_blocks m q b st.at.holds unused (λ z. cc)

    b_some : (b == null) ≡ false
    b_some = ground (arith, b_there)

    at_b : (array : Bytes) → At (with_block array) b (block c.allocator (bytes array))
    at_b array = At-write_self m b _ b_some

    at_q : (array : Bytes) → At (with_block array) q (block st.owner (error first.object))
    at_q array = At-write_ne b _ st.at q_b

    abbrev text : Bytes
    text = json_text env m first vs

    abbrev filled : Memory
    filled = with_cache m p q c st.owner e text b

    publish_first : publish q b (with_block (text ++ (0 ∷ []))) ≡ ok (cached b) filled
    unfolding publish
    publish_first =
        let here : At (with_block (text ++ (0 ∷ []))) q (block st.owner (error first.object)) =
          at_q _ in
        rw (load_error-At here) (rw (store-At _ here))

    module _
        (same : capacity_for env (with_block (env.left_over b size)) (suc (length vs))
          ≡ capacity_for env m (suc (length vs))) where
      same_text : json_text env (with_block (env.left_over b size)) first vs ≡ text
      unfolding json_text
      same_text = ap (λ n. chain_text (n - 1) (first ∷ vs)) same

      rendered :
          render_json env q (some (env.left_over b size)) size (with_block (env.left_over b size))
          ≡ ok (size, some (text ++ (0 ∷ []))) (with_block (env.left_over b size))
      rendered =
          let run =
            render_json_lem env (Stands-Shows (Stands-unused m b _ unused st))
              (Causes-Chain (Causes-unused m b _ unused cs)) (rw same_text fits)
              (env.left_over b size) size (omega arith) (omega arith)
              (omega (arith, env.length-left_over b size)) in
          run
          ∙ rw same_text
              (rw (snprintf_result_exact text (env.left_over b size) (env.length-left_over b size)))

      filled-Filled : Filled m p q c xs st.owner e (json_text env m first vs) b filled
      unfolding read_json
      filled-Filled =
          let full : At filled b (block c.allocator (bytes (text ++ (0 ∷ [])))) =
            At-write_ne q _ (at_b _) (ne_sym q b q_b) in
          record {
            new = unused;
            live =
                IsContext-write_ne q _
                  (ne_sym q p (ne_of_blocks m q p st.at.holds is.at.holds (λ z. cc)))
                  (not_in_Nodes q (λ n z. cc (sym st.at.holds ∙ z)) is.nodes)
                  (IsContext-fresh b _ unused is);
            shown =
                rw (load_bytes-At full)
                  (rw (c_string-append_nul text [] (json_text-IsText env m first vs)));
            object = At-write_self _ q _ st.at.not_null;
          }

      -- For a live context, an error of its current generation without a cached text, whose
      -- message and causes stand in blocks and whose causes end in NULL, with fewer than SIZE_MAX
      -- bytes of JSON, and a context with room for the text at `b`, and provided that the stack of
      -- frames has the same capacity when the text is measured and when it is written,
      -- `error_json` returns `b`; `b` was not in use, now holds the chain's JSON text with its NUL
      -- and is the error's cache, nothing else has changed, and the context is live.
      pub error_json-fill :
          (error_json env q m
            ≡ ok (cached b) (with_cache m p q c st.owner e (json_text env m first vs) b))
          × Filled m p q c xs st.owner e
              (json_text env m first vs)
              b
              (with_cache m p q c st.owner e (json_text env m first vs) b)
      unfolding error_json render_cache
      error_json-fill =
          let old : At (with_block (env.left_over b size)) b
              (block c.allocator (bytes (env.left_over b size))) =
            at_b _ in
          (
            rw (st.at.not_null) (
                rw (ensure_current_fresh null e is st.at) (
                  rw (load_error-At st.at) (
                    rw (is.at.not_null) (
                      rw measured (
                        rw (alloc-write env size b is e_b b_there) (
                          rw b_some (
                            rw (load_bytes-At old) (
                              rw rendered
                                (rw (store-At _ old) (rw write-write publish_first)))))))))),
            filled-Filled,
          )
