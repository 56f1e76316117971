-- ===== src/Cache/Threads/Reading.antt =====
-- What a thread reads while others publish: the error with its causes, and so the text.
use libgitledger.Prelude.{
  ℕ, zero, suc, ◌+◌, ◌-◌, ◌<◌, ◌≤◌, ◌≡◌, ◌≢◌, refl, sym, ap, subst, ◌∙◌, false, Option, none, some,
  List, [], ◌∷◌, ◌++◌, ◌==◌, ==_iff, arith, inl, inr, Bool-cases, length, length-append,
}
use libgitledger.Text.{Bytes, snprintf_result}
use libgitledger.Text.Strings.{snprintf_result_exact}
use libgitledger.Buffer.{size_max}
use libgitledger.Memory.{
  Ptr, null, Context, ErrorObject, error, bytes, Block, Env, Memory, ok, write,
}
use libgitledger.Memory.Blocks.{
  block, At, load_error-At, load_bytes-At, store-At, At-write_self, ne_of_blocks, write-write,
}
use libgitledger.Context.Registry.{Entries}
use libgitledger.Context.Registry.Tracking.{alloc_null}
use libgitledger.Json.{render_json}
use libgitledger.Json.Fields.{fields_text}
use libgitledger.Json.Render.Chain.{View, chain_text}
use libgitledger.Json.Render.Frame.{
  Texts, Stands, Causes, no_cause, cause, Stands-Shows, Causes-Chain, Stands-unused, Causes-unused,
}
use libgitledger.Json.Render.Depth.{json_text, capacity_for, render_json_measure, render_json_lem}
use libgitledger.Cache.Fill.{holder, view, alloc-write}
use libgitledger.Cache.Threads.{Thread, owns, fill}
use libgitledger.Cache.Threads.Publishing.{Publishing}

-- The causes of an error are determined by the memory.
length-Causes :
    {m : Memory} {r : Ptr} {vs ws : List View}
    → Causes m r vs
    → Causes m r ws
    → length vs ≡ length ws
length-Causes (no_cause z) (no_cause y) = refl
length-Causes (no_cause z) (cause st c) = absurd (ground (arith, z, st.at.not_null))
length-Causes (cause st c) (no_cause z) = absurd (ground (arith, z, st.at.not_null))
length-Causes {m} (cause {v} {vs} st c) (cause {v = w} st' c') =
    let same : v.object ≡ w.object = cc (sym st.at.holds ∙ st'.at.holds) in
    ap suc (length-Causes (subst (λ o. Causes m o.cause vs) same c) c')

-- The cached text itself is not rendered.
chain_text-holder :
    (n : ℕ) (p : Ptr) (g : ℕ) (j : Ptr) (e : ErrorObject) (t : Option Bytes) (vs : List View)
    → chain_text n (view (holder p g j e) t ∷ vs) ≡ chain_text n (view (holder p g null e) t ∷ vs)
unfolding chain_text fields_text
chain_text-holder n p g j e t [] = refl
chain_text-holder zero p g j e t (v ∷ vs) = refl
chain_text-holder (suc n) p g j e t (v ∷ vs) = refl

-- A text that fits with its NUL is written whole.
result_exact :
    (json array : Bytes) {size : ℕ}
    → size ≡ length json + 1
    → length array ≡ size
    → snprintf_result json array size ≡ json ++ (0 ∷ [])
result_exact json array same len = rw same (snprintf_result_exact json array (len ∙ same))

-- The text of the error at the start, with its NUL.
abbrev pub full : Env → Memory → Ptr → Context → ErrorObject → Option Bytes → List View → Bytes
full env m p c e t vs = json_text env m (view (holder p c.generation null e) t) vs ++ (0 ∷ [])

module _ (env : Env) {m0 m : Memory} {p q : Ptr} {c : Context} {reg : Entries} (e : ErrorObject)
    (t : Option Bytes) {vs : List View} {ts : List Thread}
    (at : At m0 q (block c.allocator (error (holder p c.generation null e))))
    (message : Texts m0 e.message t) (causes : Causes m0 e.cause vs)
    (fits : length (json_text env m0 (view (holder p c.generation null e) t) vs) < size_max)
    (steady : (k : Memory)
      → capacity_for env k (suc (length vs)) ≡ capacity_for env m0 (suc (length vs)))
    (s : Publishing m0 m p q c reg (holder p c.generation null e) (full env m0 p c e t vs) ts) where
  kept : (r : Ptr) {y : Block} → At m0 r y → (r == q) ≡ false → At m r y
  kept r at_r r_q = record {
    not_null = at_r.not_null;
    holds = s.frame r at_r.not_null r_q r_cache out ∙ at_r.holds;
  }
    where
      r_cache : (r == s.cache) ≡ false
      r_cache = elim (Bool-cases (s.cache == null)) [
        | inl z ↦ ground (arith, z, at_r.not_null)
        | inr n ↦ ne_of_blocks m0 r s.cache at_r.holds (s.fresh_cache n) (λ z. cc)
      ]

      out : owns r ts ≡ false
      out = elim (Bool-cases (owns r ts)) [
        | inr no_more ↦ no_more
        | inl own ↦ absurd (cc (sym (s.fresh r own) ∙ at_r.holds))
      ]

  kept_texts : (r : Ptr) (x : Option Bytes) → Texts m0 r x → Texts m r x
  kept_texts r none z = z
  kept_texts r (some x) (a, at_r) =
      (a, kept r at_r (ne_of_blocks m0 r q at_r.holds at.holds (λ z. cc)))

  kept_causes : {r : Ptr} {ws : List View} → Causes m0 r ws → length ws ≤ length vs → Causes m r ws
  kept_causes (no_cause z) few = no_cause z
  kept_causes {r} (cause {v} {vs = ws} st cs) few = elim (Bool-cases (r == q)) [
    | inl e_q ↦
        let same : v.object ≡ holder p c.generation null e =
          cc (sym st.at.holds ∙ (ap m0.blocks ((==_iff r q).0 e_q) ∙ at.holds)) in
        absurd
          (omega (arith, few, length-Causes causes (subst (λ o. Causes m0 o.cause ws) same cs)))
    | inr other ↦
        cause
          (record {
            owner = st.owner;
            at = kept r st.at other;
            message = kept_texts v.object.message v.message st.message;
          })
          (kept_causes cs (omega (arith, few)))
  ]

  abbrev now : View
  now = view (holder p c.generation s.cache e) t

  stands : Stands m q now
  stands = record { owner = c.allocator; at = s.object; message = kept_texts e.message t message }

  same_text :
      (k : Memory)
      → json_text env k now vs ≡ json_text env m0 (view (holder p c.generation null e) t) vs
  unfolding json_text
  same_text k =
      ap (λ n. chain_text (n - 1) (now ∷ vs)) (steady k)
      ∙ chain_text-holder (capacity_for env m0 (suc (length vs)) - 1) p c.generation s.cache e t vs

  pub measure_lem : render_json env q none 0 m ≡ ok (length (full env m0 p c e t vs), none) m
  measure_lem =
      let still = kept_causes causes (omega arith) in
      render_json_measure env (Stands-Shows stands) (Causes-Chain still) (rw (same_text m) fits) 0
        (omega arith)
      ∙ rw (same_text m) (rw (length-append) refl)

  pub fill-null :
      env.allocate c.allocator (length (full env m0 p c e t vs)) m ≡ null
      → fill env q (length (full env m0 p c e t vs)) m ≡ ok null m
  unfolding fill
  fill-null z =
      rw (load_error-At s.object) (rw (alloc_null env (length (full env m0 p c e t vs)) s.live z))

  module _ (b : Ptr) (b_some : (b == null) ≡ false) (free : m.blocks b ≡ none) where
    abbrev json : Bytes
    json = json_text env m0 (view (holder p c.generation null e) t) vs

    abbrev size : ℕ
    size = length (full env m0 p c e t vs)

    abbrev with_block : Bytes → Memory
    with_block array = write m b (some (block c.allocator (bytes array)))

    size_lem : size ≡ length json + 1
    size_lem = length-append json (0 ∷ [])

    written :
        render_json env q (some (env.left_over b size)) size (with_block (env.left_over b size))
        ≡ ok (size, some (json ++ (0 ∷ []))) (with_block (env.left_over b size))
    written =
        let text_same = same_text (with_block (env.left_over b size)) in
        let run =
          render_json_lem env (Stands-Shows (Stands-unused m b _ free stands))
            (Causes-Chain (Causes-unused m b _ free (kept_causes causes (omega arith))))
            (rw text_same fits) (env.left_over b size) size (omega (arith, size_lem))
            (omega (arith, size_lem, fits)) (omega (arith, env.length-left_over b size)) in
        run
        ∙ rw text_same (
            rw (result_exact json (env.left_over b size) size_lem (env.length-left_over b size)) (
              ap (λ n. ok (n, some (json ++ (0 ∷ []))) (with_block (env.left_over b size)))
                (sym size_lem)))

    fill_there :
        env.allocate c.allocator size m ≡ b
        → fill env q size m
          ≡ ok b (write m b (some (block c.allocator (bytes (full env m0 p c e t vs)))))
    unfolding fill
    fill_there e_b =
        let old : At (with_block (env.left_over b size)) b
            (block c.allocator (bytes (env.left_over b size))) =
          At-write_self m b _ b_some in
        rw (load_error-At s.object) (
          rw (alloc-write env size b s.live (sym e_b) (ground (arith, b_some))) (
            rw b_some (
              rw (load_bytes-At old)
                (rw written (rw (store-At _ old) (rw (write-write m b _ _) refl))))))

  pub fill-some :
      let b = env.allocate c.allocator (length (full env m0 p c e t vs)) m in
      b ≢ null
      → fill env q (length (full env m0 p c e t vs)) m
        ≡ ok b (write m b (some (block c.allocator (bytes (full env m0 p c e t vs)))))
  fill-some b_there =
      fill_there (env.allocate c.allocator (length (full env m0 p c e t vs)) m)
        (ground (arith, b_there))
        (env.fresh c.allocator (length (full env m0 p c e t vs)) m b_there) refl
