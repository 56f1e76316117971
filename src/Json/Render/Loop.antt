-- ===== src/Json/Render/Loop.antt =====
-- The loop of `json_write_error` over the stack of frames, and the plain recursion over the chain.
use libgitledger.Prelude.{
  ℕ, zero, suc, ◌+◌, ◌*◌, ◌≤◌, ◌<◌, ◌≡◌, refl, ◌∙◌, Bool, true, false, ◌||◌, List, [], ◌∷◌, ltb,
  leb, ◌==◌, arith, length,
}
use libgitledger.Text.{codes}
use libgitledger.Buffer.{Buf, putc, append_literal}
use libgitledger.Memory.{Ptr, null, Memory, ok}
use libgitledger.Json.{
  Frame, Emit, write_fields, push_cause_frame, close_frame, enter_cause, emit_frame, emit_loop,
}
use libgitledger.Json.Render.Chain.{View, Shows, Chain, end, link, chain_write}

-- The rounds that the loop spends on a chain.
unfoldable pub rounds : (left : ℕ) → List View → ℕ
rounds left [] = 1
rounds zero (w ∷ vs) = 1
rounds (suc left) (w ∷ vs) = suc (suc (rounds left vs))

pub rounds_le : (left : ℕ) (vs : List View) → rounds left vs ≤ 2 * left + 1
unfolding rounds
rounds_le zero [] = omega arith
rounds_le (suc left) [] = omega arith
rounds_le zero (w ∷ vs) = omega arith
rounds_le (suc left) (w ∷ vs) = omega (arith, rounds_le left vs)

abbrev pub state : Buf → List Frame → Bool → Emit
state buf stack truncated = record { buf = buf; stack = stack; truncated = truncated }

abbrev pub frame : Ptr → ℕ → Frame
frame p s = record { err = p; state = s }

module _ (capacity : ℕ) where
  enter_end :
      (p cause : Ptr) (below : List Frame) (buf : Buf) (truncated : Bool)
      → cause ≡ null
      → enter_cause capacity buf (frame p 0) below cause truncated
        ≡ state (putc buf b'}') below truncated
  unfolding enter_cause push_cause_frame close_frame
  enter_end p cause below buf truncated z = rw z

  enter_full :
      (p cause : Ptr) (below : List Frame) (buf : Buf) (truncated : Bool)
      → (cause == null) ≡ false
      → length below + 1 ≡ capacity
      → enter_cause capacity buf (frame p 0) below cause truncated
        ≡ state
            (putc (append_literal buf (codes ",\"cause\":{\"truncated\":true}")) b'}')
            below
            true
  unfolding enter_cause push_cause_frame close_frame
  enter_full p cause below buf truncated z full =
      let no_room : leb capacity (suc (length below)) ≡ true = ground arith in rw (z, no_room)

  enter_push :
      (p cause : Ptr) (below : List Frame) (buf : Buf) (truncated : Bool)
      → (cause == null) ≡ false
      → length below + 1 < capacity
      → enter_cause capacity buf (frame p 0) below cause truncated
        ≡ state
            (append_literal buf (codes ",\"cause\":"))
            (frame cause 0 ∷ frame p 1 ∷ below)
            truncated
  unfolding enter_cause push_cause_frame
  enter_push p cause below buf truncated z more =
      let some_room : leb capacity (suc (length below)) ≡ false = ground arith in rw (z, some_room)

module _ {m : Memory} (capacity : ℕ) where
  emit_frame_enter :
      {p : Ptr} {v : View} (below : List Frame) (buf : Buf) (truncated : Bool)
      → Shows m p v
      → emit_frame capacity buf (frame p 0) below truncated m
        ≡ ok
            (enter_cause capacity
              (write_fields v.object v.message (putc buf b'{'))
              (frame p 0)
              below
              v.object.cause
              truncated)
            m
  unfolding emit_frame
  emit_frame_enter below buf truncated s = rw (s.object) (rw (s.message))

  -- Started on the first error of a chain over a stack `below`, with as much fuel as the rounds
  -- for the chain and `rest` more, and `left` entries free above, `emit_loop` comes to the stack
  -- `below` with `rest` fuel left, with the builder as the plain recursion over the chain leaves
  -- it, and marked as truncated if more than `left` causes follow.
  pub emit_loop-Chain :
      (left : ℕ) {p : Ptr} {v : View} {vs : List View}
      → Shows m p v
      → Chain m v.object.cause vs
      → (below : List Frame) → length below + 1 + left ≡ capacity
      → (buf : Buf) (truncated : Bool) (fuel rest : ℕ) → fuel ≡ rounds left vs + rest
      → emit_loop fuel capacity (state buf (frame p 0 ∷ below) truncated) m
        ≡ emit_loop rest capacity
            (state (chain_write left v vs buf) below (truncated || ltb left (length vs)))
            m
  unfolding emit_loop emit_frame close_frame chain_write rounds
  emit_loop-Chain zero {p} s (end z) below room buf truncated fuel rest e =
      let e' : fuel ≡ suc rest = omega arith in
      let t : (truncated || false) ≡ truncated = ground arith in
      rw e' (
        rw (emit_frame_enter below buf truncated s, enter_end capacity p _ below _ truncated z)
          (rw t))
  emit_loop-Chain (suc left) {p} s (end z) below room buf truncated fuel rest e =
      let e' : fuel ≡ suc rest = omega arith in
      let t : (truncated || ltb (suc left) 0) ≡ truncated = ground arith in
      rw e' (
        rw (emit_frame_enter below buf truncated s, enter_end capacity p _ below _ truncated z)
          (rw t))
  emit_loop-Chain zero {p} s (link {vs} s' c) below room buf truncated fuel rest e =
      let e' : fuel ≡ suc rest = omega arith in
      let t : (truncated || ltb 0 (suc (length vs))) ≡ true = ground arith in
      rw e' (
        rw
          (
            emit_frame_enter below buf truncated s,
            enter_full capacity p _ below _ truncated s'.not_null (omega arith),
          )
          (rw t))
  emit_loop-Chain (suc left) {p} s (link {vs} s' c) below room buf truncated fuel rest e =
      let e' : fuel ≡ suc (rounds left vs + suc rest) = omega arith in
      let t : ltb (suc left) (suc (length vs)) ≡ ltb left (length vs) = ground arith in
      rw e' (
        rw
          (
            emit_frame_enter below buf truncated s,
            enter_push capacity p _ below _ truncated s'.not_null (omega arith),
          )
          (emit_loop-Chain left s' c (frame p 1 ∷ below) (omega arith) _ truncated _ (suc rest) refl
            ∙ rw t))
