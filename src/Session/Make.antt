-- ===== src/Session/Make.antt =====
-- A new error joins the others.
use libgitledger.Prelude.{
  ℕ, ◌+◌, ◌≡◌, ◌⊎◌, refl, sym, ap, subst, ◌∙◌, true, false, none, some, List, ◌∷◌, ◌==◌, ==_refl,
  ==_iff, arith, inl, inr, Bool-cases, if◌then◌else◌,
}
use libgitledger.Text.{Bytes}
use libgitledger.Memory.{Ptr, null, Allocator, Context, ErrorObject, error, Block, Memory}
use libgitledger.Memory.Blocks.{block, At, ne_of_blocks, ne_sym}
use libgitledger.Context.Registry.{has, not_in_Nodes, some_errors}
use libgitledger.Error.Release.{Part}
use libgitledger.Error.Release.Causes.{among}
use libgitledger.Error.Created.{Made}
use libgitledger.Session.{
  Item, held, registry, parts_of, present, effects, Stored, nothing, newest, Session,
}
use libgitledger.Session.Items.{present-among}
use libgitledger.Session.Adjust.{at_count, plus, present_ne}
use libgitledger.Session.Taken.{Stored-same}

-- The error `e` at `q` with its node at `n`.
abbrev pub item : Ptr → (n : Ptr) → ErrorObject → Item
item q n e = record {
  object = q;
  message = e.message;
  cache = null;
  node = n;
  cause = e.cause;
  rest = e;
}

ne_of_used :
    (m : Memory) (r q : Ptr) (b : Block)
    → m.blocks r ≡ none
    → m.blocks q ≡ some b
    → (r == q) ≡ false
ne_of_used m r q b h k = ne_of_blocks m r q h k (λ z. cc)

-- A new address is none of the errors' blocks.
pub new_apart :
    {m : Memory} {p : Ptr} {a : Allocator} {count : Ptr → ℕ} {xs : List Item} (r : Ptr)
    → (r == null) ≡ false
    → m.blocks r ≡ none
    → Stored m p a count xs
    → among r (parts_of xs) ≡ false
new_apart r h free nothing = refl
new_apart {m} {a} r h free (newest {x} at s j s_j ao ag aj pos fit old st) =
    let r_o : (r == x.object) ≡ false = ne_of_used m r x.object _ free at.holds in
    let r_s = ne_of_part x.message s in
    let r_j = ne_of_part x.cache j in ground (arith, r_o, r_s, r_j, new_apart r h free st)
  where
    ne_of_part : (q : Ptr) → Part m a q → (r == q) ≡ false
    ne_of_part q (inl z) = ground (arith, z, h)
    ne_of_part q (inr (t, at)) = ne_of_used m r q _ free at.holds

-- The memory `m'` after an error has been made at `q` in the session `s`; `count` and `stored` are the
-- others, one of which may have a reference more.
module _ {base m m' : Memory} {p : Ptr} {c : Context} {hands : Ptr → ℕ} {ys : List Item}
    {e : ErrorObject} {text : Bytes} {q n : Ptr} (s : Session base m p c hands ys)
    (made : Made m p (record c { errors = s.first; locked = false }) (registry ys) e text q n m')
    (count : Ptr → ℕ) (stored : Stored m' p c.allocator count ys)
    (whole : held p c.allocator (item q n e) 1 ≡ e) (current : e.ctx_generation ≡ c.generation)
    (counted : (r : Ptr)
      → (r == null) ≡ false
      → count r ≡ s.count r + (if e.cause == r then 1 else 0))
    (absent : (r : Ptr) → present r ys ≡ false → count r ≡ 0)
    (from : ((e.cause == null) ≡ true) ⊎ (present e.cause ys ≡ true)) where
  abbrev x : Item
  x = item q n e

  -- The new blocks, which were not in use, are none of the session's.
  abbrev IsNew : Ptr → Type 0
  IsNew r =
      ((r == p) ≡ false)
      × (among r (parts_of ys) ≡ false)
      × (has r (registry ys) ≡ false)
      × (base.blocks r ≡ none)

  is_new : (r : Ptr) → (r == null) ≡ false → m.blocks r ≡ none → IsNew r
  is_new r h free =
      let r_p = ne_of_used m r p _ free s.live.at.holds in
      let parts_out = new_apart r h free s.stored in
      let nodes_out = not_in_Nodes r (λ o z. cc (sym free ∙ z)) s.live.nodes in
      (r_p, parts_out, nodes_out, sym (s.frame r h r_p parts_out nodes_out) ∙ free)

  IsNew-q : IsNew q
  IsNew-q = is_new q made.object.not_null made.new

  IsNew-s : IsNew e.message
  IsNew-s = is_new e.message made.message.not_null made.new_message

  node_there : (n == null) ≡ false
  node_there = some_errors made.live

  IsNew-n : IsNew n
  IsNew-n = is_new n node_there made.new_node

  q_s : (q == e.message) ≡ false
  q_s = ne_of_blocks m' q e.message made.object.holds made.message.holds (λ z. cc)

  cause_q : (e.cause == q) ≡ false
  cause_q = elim from [
    | inl z ↦ ground (arith, z, made.object.not_null)
    | inr there ↦ ground (arith, there, IsNew-q.1, present-among q ys)
  ]

  effects-q : effects q (x ∷ ys) ≡ 0
  effects-q =
      ground (
        arith,
        cause_q,
        s.absent q (present-among q ys IsNew-q.1),
        s.counted q made.object.not_null,
      )

  Stored-x : Stored m' p c.allocator (at_count count q 1) (x ∷ ys)
  Stored-x =
      let one : at_count count q 1 q ≡ 1 = rw (==_refl q) refl in
      newest
        (subst (λ k. At m' q (block c.allocator (error (held p c.allocator x k)))) (sym one)
          (subst (λ o. At m' q (block c.allocator (error o))) (sym whole) made.object))
        (inr (_, made.message)) (inl refl) (λ h. made.message.not_null) (λ h. IsNew-q.1)
        (λ h. IsNew-s.1) (λ h. absurd (cc)) (rw one (omega arith)) (rw one (omega arith)) effects-q
        (Stored-same (λ r h k. refl) (λ r k. ground (arith, present_ne r q ys k IsNew-q.1)) stored)

  counted_x :
      (r : Ptr) → (r == null) ≡ false → at_count count q 1 r ≡ plus q hands r + effects r (x ∷ ys)
  counted_x r h = elim (Bool-cases (r == q)) [
    | inl same ↦
        let z : r ≡ q = (==_iff r q).0 same in
        subst (λ k. at_count count q 1 k ≡ plus q hands k + effects k (x ∷ ys)) (sym z)
          (ground (
            arith,
            effects-q,
            s.absent q (present-among q ys IsNew-q.1),
            s.counted q made.object.not_null,
          ))
    | inr other ↦ ground (arith, other, counted r h, s.counted r h)
  ]

  cause_apart :
      (r : Ptr) → (r == null) ≡ false → among r (parts_of ys) ≡ false → (r == e.cause) ≡ false
  cause_apart r h out = elim from [
    | inl z ↦ ground (arith, z, h)
    | inr there ↦ ne_sym e.cause r (present_ne e.cause r ys there out)
  ]

  frame_x :
      (r : Ptr)
      → (r == null) ≡ false
      → (r == p) ≡ false
      → among r (parts_of (x ∷ ys)) ≡ false
      → has r (registry (x ∷ ys)) ≡ false
      → m'.blocks r ≡ base.blocks r
  frame_x r h r_p parts_out nodes_out =
      let rest : among r (parts_of ys) ≡ false = ground (arith, parts_out) in
      made.untouched r r_p (ground (arith, parts_out)) (ground (arith, parts_out))
        (ground (arith, nodes_out)) (cause_apart r h rest)
      ∙ s.frame r h r_p rest (ground (arith, nodes_out))

  fresh_x :
      (r : Ptr) → (r == null) ≡ false → among r (parts_of (x ∷ ys)) ≡ true → base.blocks r ≡ none
  fresh_x r h k = elim (Bool-cases (r == q)) [
    | inl e_q ↦ ap base.blocks ((==_iff r q).0 e_q) ∙ IsNew-q.3
    | inr not_q ↦ elim (Bool-cases (r == e.message)) [
      | inl e_s ↦ ap base.blocks ((==_iff r e.message).0 e_s) ∙ IsNew-s.3
      | inr not_s ↦ s.fresh_parts r h (ground (arith, k, not_q, not_s, h))
    ]
  ]

  fresh_node_x : (r : Ptr) → has r (registry (x ∷ ys)) ≡ true → base.blocks r ≡ none
  fresh_node_x r k = elim (Bool-cases (r == n)) [
    | inl e_n ↦ ap base.blocks ((==_iff r n).0 e_n) ∙ IsNew-n.3
    | inr not_n ↦ s.fresh_nodes r (ground (arith, k, not_n))
  ]

  pub Made-Session : Session base m' p c (plus q hands) (x ∷ ys)
  Made-Session = record {
    count = at_count count q 1;
    first = n;
    live = made.live;
    stored = Stored-x;
    current = (current, s.current);
    counted = counted_x;
    absent = λ r h. ground (arith, h, absent r);
    frame = frame_x;
    fresh_context = s.fresh_context;
    fresh_parts = fresh_x;
    fresh_nodes = fresh_node_x;
  }
