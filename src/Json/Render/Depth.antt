-- ===== src/Json/Render/Depth.antt =====
-- `json_write_error` and `gitledger_error_render_json` on a chain of causes.
use libgitledger.Prelude.{
  ℕ, zero, suc, ◌+◌, ◌-◌, ◌*◌, ◌≤◌, ◌<◌, ◌≡◌, inl, inr, refl, ◌∙◌, Bool, true, false, ◌||◌, Option,
  none, some, List, [], ◌∷◌, ltb, ◌==◌, arith, length, if◌then◌else◌, min, Bool-cases,
}
use libgitledger.Text.{Bytes, snprintf_result}
use libgitledger.Buffer.{size_max, Buf, usable, init, finalize}
use libgitledger.Buffer.Contents.{room, Represents, init-Represents, finalize_lem, finalize_no_room}
use libgitledger.Memory.{Ptr, Memory, Env, ok}
use libgitledger.Error.{max_depth}
use libgitledger.Json.{
  static_stack_depth, measure_loop, measure_depth, acquire_stack, emit_loop, emit_fuel, write_error,
  render_json,
}
use libgitledger.Json.Render.Chain.{
  View, Shows, Chain, end, link, chain_text, chain_write, chain_write-Writes,
}
use libgitledger.Json.Render.Loop.{rounds, rounds_le, state, frame, emit_loop-Chain}

measure_loop_lem :
    {m : Memory} (left depth : ℕ) {p : Ptr} {vs : List View}
    → Chain m p vs
    → measure_loop left p depth m ≡ ok (depth + min (length vs) left, ltb left (length vs)) m
unfolding measure_loop
measure_loop_lem zero depth (end z) = rw z (ground arith)
measure_loop_lem (suc left) depth (end z) = rw z (ground arith)
measure_loop_lem zero depth (link s c) = rw (s.not_null) (ground arith)
measure_loop_lem (suc left) depth (link {vs} s c) =
    rw (s.not_null) (rw (s.object) (measure_loop_lem left (depth + 1) c ∙ ground arith))

-- The frames that the stack has room for, when the chain has `n` errors.
unfoldable pub capacity_for : Env → Memory → ℕ → ℕ
capacity_for env m n =
    let depth = min n max_depth in
    if ltb static_stack_depth depth
    then (if env.malloc_succeeds (depth * 16) m then depth else static_stack_depth)
    else static_stack_depth

acquire_stack_lem :
    (env : Env) (m : Memory) (n : ℕ)
    → (short : Bool) × (acquire_stack env (min n max_depth) m ≡ ok (capacity_for env m n, short) m)
unfolding acquire_stack capacity_for
acquire_stack_lem env m n = elim (Bool-cases (ltb static_stack_depth (min n max_depth))) [
  | inl deep ↦ elim (Bool-cases (env.malloc_succeeds (min n max_depth * 16) m)) [
    | inl heap ↦ (false, rw (deep, heap))
    | inr none_left ↦ (true, rw (deep, none_left))
  ]
  | inr shallow ↦ (false, rw shallow)
]

emit_loop_done :
    {m : Memory} (rest capacity : ℕ) (buf : Buf) (truncated : Bool)
    → 0 < rest
    → emit_loop rest capacity (state buf [] truncated) m ≡ ok (state buf [] truncated) m
unfolding emit_loop
emit_loop_done zero capacity buf truncated h = absurd (omega arith)
emit_loop_done (suc rest) capacity buf truncated h = refl

-- The array of frames has 16 entries at least, and 64 at most.
pub capacity_for_bounds :
    (env : Env) (m : Memory) (n : ℕ) → (16 ≤ capacity_for env m n) × (capacity_for env m n ≤ 64)
unfolding capacity_for
capacity_for_bounds env m n = ground arith

module _ (env : Env) {m : Memory} {p : Ptr} {v : View} {vs : List View} (s : Shows m p v)
    (c : Chain m v.object.cause vs) where
  emit_all :
      (capacity : ℕ) (buf : Buf) (truncated : Bool)
      → 16 ≤ capacity
      → capacity ≤ 64
      → emit_loop emit_fuel capacity (state buf (frame p 0 ∷ []) truncated) m
        ≡ ok
            (state
              (chain_write (capacity - 1) v vs buf)
              []
              (truncated || ltb (capacity - 1) (length vs)))
            m
  emit_all capacity buf truncated lo hi =
      let used = rounds (capacity - 1) vs in
      emit_loop-Chain capacity (capacity - 1) s c [] (omega arith) buf truncated emit_fuel
        (emit_fuel - used) (omega (arith, rounds_le (capacity - 1) vs))
      ∙ emit_loop_done (emit_fuel - used) capacity _ _ (omega (arith, rounds_le (capacity - 1) vs))

  -- The loop ends with the stack empty and the chain written.
  pub write_error_lem :
      (buf : Buf)
      → (truncated : Bool) × (write_error env buf p m
          ≡ ok (chain_write (capacity_for env m (suc (length vs)) - 1) v vs buf, truncated) m)
  unfolding write_error measure_depth
  write_error_lem buf =
      let n = suc (length vs) in
      let (short, acquired) = acquire_stack_lem env m n in
      let (lo, hi) = capacity_for_bounds env m n in
      let depth : 0 + min n max_depth ≡ min n max_depth = omega arith in
      (
        (ltb max_depth n || short) || ltb (capacity_for env m n - 1) (length vs),
        rw (measure_loop_lem max_depth 0 (link s c)) (
            rw depth
              (rw acquired (rw (s.not_null) (rw (emit_all (capacity_for env m n) buf _ lo hi))))),
      )

required-finalize : (buf : Buf) → (finalize buf).required ≡ buf.required
unfolding finalize
required-finalize buf = ground arith

-- The JSON that is rendered for a chain of errors, in this memory.
unfoldable pub json_text : Env → Memory → View → List View → Bytes
json_text env m v vs = chain_text (capacity_for env m (suc (length vs)) - 1) (v ∷ vs)

module _ (env : Env) {m : Memory} {p : Ptr} {v : View} {vs : List View} (s : Shows m p v)
    (c : Chain m v.object.cause vs) (fits : length (json_text env m v vs) < size_max) where
  written :
      (storage : Option Bytes) (size : ℕ)
      → size ≤ size_max
      → usable storage size ≤ room storage
      → Represents
          (init storage size).array
          (usable storage size)
          (json_text env m v vs)
          (chain_write (capacity_for env m (suc (length vs)) - 1) v vs (init storage size))
  unfolding json_text
  written storage size limit enough =
      (chain_write-Writes (capacity_for env m (suc (length vs)) - 1) v vs).run
        (init storage size).array (usable storage size) [] (init storage size)
        (init-Represents storage size limit enough) (omega arith)

  render_json_eq :
      (storage : Option Bytes) (size : ℕ)
      → size ≤ size_max
      → usable storage size ≤ room storage
      → render_json env p storage size m
        ≡ ok
            (
              length (json_text env m v vs) + 1,
              (finalize (
                  chain_write
                    (capacity_for env m (suc (length vs)) - 1)
                    v
                    vs
                    (init storage size))).array,
            )
            m
  unfolding render_json
  render_json_eq storage size limit enough =
      let (truncated, e) = write_error_lem env s c (init storage size) in
      let counted = (written storage size limit enough).required in
      let small : (length (json_text env m v vs) == size_max) ≡ false = ground arith in
      rw (s.not_null) (rw e (rw (required-finalize) (rw counted (rw small))))

  -- For an error whose chain of causes ends in NULL and whose JSON has fewer than SIZE_MAX bytes,
  -- `render_json` without a buffer, at any size up to SIZE_MAX, returns the length of the chain's
  -- JSON text and its NUL, and does not change the memory.
  pub render_json_measure :
      (size : ℕ)
      → size ≤ size_max
      → render_json env p none size m ≡ ok (length (json_text env m v vs) + 1, none) m
  unfolding init
  render_json_measure size limit =
      render_json_eq none size limit (omega arith)
      ∙ rw (finalize_no_room _ (written none size limit (omega arith)))

  -- For an error whose chain of causes ends in NULL and whose JSON has fewer than SIZE_MAX bytes,
  -- and for a buffer and a size from 1 to SIZE_MAX within it, `render_json` ends, returns the
  -- length of the chain's JSON text and its NUL, leaves in the buffer what `snprintf` would leave
  -- of that text, and does not change the memory.
  pub render_json_lem :
      (buf : Bytes) (size : ℕ)
      → 0 < size
      → size ≤ size_max
      → size ≤ length buf
      → render_json env p (some buf) size m
        ≡ ok
            (
              length (json_text env m v vs) + 1,
              some (snprintf_result (json_text env m v vs) buf size),
            )
            m
  render_json_lem buf size pos limit enough =
      render_json_eq (some buf) size limit enough
      ∙ rw (
          finalize_lem buf (json_text env m v vs) size _ pos enough
            (written (some buf) size limit enough))
