-- ===== src/Json/Render/Whole.antt =====
-- When a chain of causes is rendered whole.
use libgitledger.Prelude.{
  ℕ, suc, ◌+◌, ◌-◌, ◌<◌, ◌≤◌, ◌≡◌, subst, some, ◌⊎◌, inl, inr, true, List, ◌∷◌, arith, length, min,
  ◌*◌,
}
use libgitledger.Text.{Bytes, snprintf_result}
use libgitledger.Buffer.{size_max}
use libgitledger.Memory.{Ptr, Env, Memory, ok}
use libgitledger.Json.{static_stack_depth, render_json}
use libgitledger.Error.{max_depth}
use libgitledger.Json.Render.Chain.{View, Shows, Chain, chain_text_full, full_text}
use libgitledger.Json.Render.Depth.{json_text, capacity_for, capacity_for_bounds, render_json_lem}

le-capacity_for :
    (env : Env) (m : Memory) (n : ℕ)
    → n ≤ max_depth
    → env.malloc_succeeds (n * 16) m ≡ true
    → n ≤ capacity_for env m n
unfolding capacity_for
le-capacity_for env m n few room =
    let same : min n max_depth ≡ n = omega arith in rw same (rw room (ground arith))

-- So few errors are rendered whole.
pub json_text-eq-full_text :
    (env : Env) (m : Memory) (v : View) (vs : List View)
    → (length (v ∷ vs) ≤ static_stack_depth)
      ⊎ ((length (v ∷ vs) ≤ max_depth) × (env.malloc_succeeds (length (v ∷ vs) * 16) m ≡ true))
    → json_text env m v vs ≡ full_text (v ∷ vs)
unfolding json_text
json_text-eq-full_text env m v vs h =
    chain_text_full (capacity_for env m (suc (length vs)) - 1) v vs (enough h)
  where
    enough :
        (length (v ∷ vs) ≤ static_stack_depth)
          ⊎ ((length (v ∷ vs) ≤ max_depth) × (env.malloc_succeeds (length (v ∷ vs) * 16) m ≡ true))
        → length vs ≤ capacity_for env m (suc (length vs)) - 1
    enough (inl few) = omega (arith, capacity_for_bounds env m (suc (length vs)))
    enough (inr (few, room)) = omega (arith, le-capacity_for env m (suc (length vs)) few room)

module _ (env : Env) {m : Memory} {p : Ptr} {v : View} {vs : List View} (s : Shows m p v)
    (c : Chain m v.object.cause vs) (fits : length (full_text (v ∷ vs)) < size_max)
    (few : (length (v ∷ vs) ≤ static_stack_depth)
      ⊎ ((length (v ∷ vs) ≤ max_depth)
          × (env.malloc_succeeds (length (v ∷ vs) * 16) m ≡ true))) where
  -- For an error that the memory shows with its causes, which end in NULL, at most 16 errors in
  -- all, or at most 64 if `malloc` gives the room for their frames, with fewer than SIZE_MAX bytes
  -- of JSON, and a buffer and a size from 1 to SIZE_MAX within it, `render_json` returns the
  -- length with the NUL of the chain's whole JSON text, in which nothing is cut and no mark of
  -- truncation stands, leaves in the buffer what `snprintf` would leave of it, and leaves the
  -- memory as it is.
  pub render_json-full_text :
      (buf : Bytes) (size : ℕ)
      → 0 < size
      → size ≤ size_max
      → size ≤ length buf
      → render_json env p (some buf) size m
        ≡ ok
            (length (full_text (v ∷ vs)) + 1, some (snprintf_result (full_text (v ∷ vs)) buf size))
            m
  render_json-full_text buf size pos limit enough =
      let whole = json_text-eq-full_text env m v vs few in
      subst
        (λ t.
          render_json env p (some buf) size m
          ≡ ok (length t + 1, some (snprintf_result t buf size)) m)
        whole (render_json_lem env s c (rw whole fits) buf size pos limit enough)
