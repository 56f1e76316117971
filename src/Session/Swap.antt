-- ===== src/Session/Swap.antt =====
-- An error of a session gets a block for its cached text.
use libgitledger.Prelude.{
  ℕ, ◌+◌, ◌≡◌, refl, sym, ap, subst, ◌∙◌, true, false, none, List, ◌∷◌, ◌==◌, ==_iff, arith, inl,
  inr, Bool-cases,
}
use libgitledger.Prelude.Insert.{Insert, front, behind}
use libgitledger.Memory.{Ptr, null, Allocator, Context, error, Memory}
use libgitledger.Memory.Blocks.{block, At, ne_of_blocks}
use libgitledger.Context.Registry.{has, IsContext, not_in_Nodes}
use libgitledger.Context.Registry.Unlink.{At-untouched}
use libgitledger.Error.Release.{Part, Part-untouched}
use libgitledger.Error.Release.Causes.{among, IsAway}
use libgitledger.Session.{
  Item, held, registry, parts_of, effects, AreCurrent, Stored, newest, Session,
}
use libgitledger.Session.Items.{among-Insert, effects-Insert, present-Insert}
use libgitledger.Session.Taken.{Stored-same, IsAway-item}
use libgitledger.Session.Adjust.{among_ne}
use libgitledger.Session.Make.{new_apart}

-- The list with `y` where `x` stood.
abbrev pub swap : {x : Item} {xs ys : List Item} → Insert x xs ys → Item → List Item
swap (front {xs}) y = y ∷ xs
swap (behind {y = z} i) y = z ∷ swap i y

pub Insert-swap :
    {x : Item} {xs ys : List Item} (i : Insert x xs ys) (y : Item) → Insert y xs (swap i y)
Insert-swap front y = front
Insert-swap (behind i) y = behind (Insert-swap i y)

-- `x` with its cached text at `b`.
abbrev pub renewed : Item → Ptr → Item
renewed x b = record x { cache = b }

registry-swap :
    {x : Item} {xs ys : List Item} (i : Insert x xs ys) (b : Ptr)
    → registry (swap i (renewed x b)) ≡ registry ys
registry-swap front b = refl
registry-swap (behind {y} i) b = ap (λ r. (y.node, y.object) ∷ r) (registry-swap i b)

AreCurrent-swap :
    (g : ℕ) {x : Item} {xs ys : List Item} (i : Insert x xs ys) (b : Ptr)
    → AreCurrent g ys
    → AreCurrent g (swap i (renewed x b))
AreCurrent-swap g front b h = h
AreCurrent-swap g (behind i) b h = (h.0, AreCurrent-swap g i b h.1)

effects-swap :
    (r : Ptr) {x : Item} {xs ys : List Item} (i : Insert x xs ys) (b : Ptr)
    → effects r (swap i (renewed x b)) ≡ effects r ys
effects-swap r {x} i b = effects-Insert r (Insert-swap i (renewed x b)) ∙ sym (effects-Insert r i)

-- The block at `b` is one more address among those of the errors.
among-swap :
    (r : Ptr) {x : Item} {xs ys : List Item} (i : Insert x xs ys) (b : Ptr)
    → (r == b) ≡ false
    → among r (parts_of ys) ≡ false
    → among r (parts_of (swap i (renewed x b))) ≡ false
among-swap r {x} i b other h =
    ground (arith, h, other, among-Insert r i, among-Insert r (Insert-swap i (renewed x b)))

module _ {m m' : Memory} {p : Ptr} {a : Allocator} {count : Ptr → ℕ} (b : Ptr) where
  Stored-swap :
      {x : Item} {xs ys : List Item} (i : Insert x xs ys)
      → At m' x.object (block a (error (held p a (renewed x b) (count x.object))))
      → Part m' a b
      → (b == null) ≡ false
      → among b (parts_of ys) ≡ false
      → ((r : Ptr) → (r == x.object) ≡ false → (r == b) ≡ false → m'.blocks r ≡ m.blocks r)
      → Stored m p a count ys
      → Stored m' p a count (swap i (renewed x b))
  Stored-swap {x} front at' part b_some out same
        (newest {xs} at g j s_j ao ag aj positive fit old st) =
      let b_out : among b (parts_of xs) ≡ false = ground (arith, out) in
      newest at' (Part-untouched g (λ n. same x.message (ground arith) (ground (arith, out)))) part
        (λ n. ground (arith, out)) ao ag (λ n. b_out) positive fit old
        (Stored-same
          (λ r n h. same r (among_ne r x.object xs h (ao at.not_null)) (among_ne r b xs h b_out))
          (λ r h. refl) st)
  Stored-swap {x} (behind {y} i) at' part b_some out same
        (newest {xs} at g j s_j ao ag aj positive fit old st) =
      let apart : (r : Ptr)
          → (r == null) ≡ false
          → IsAway r (parts_of xs)
          → (r == x.object) ≡ false =
        λ r n away. ground (arith, IsAway-item r i away n) in
      let y_b : (y.object == b) ≡ false = ground (arith, out) in
      let g_b : (y.message == b) ≡ false = ground (arith, out) in
      let j_b : (y.cache == b) ≡ false = ground (arith, out) in
      newest (At-untouched at (same y.object (apart y.object at.not_null ao) y_b))
        (Part-untouched g (λ n. same y.message (apart y.message n ag) g_b))
        (Part-untouched j (λ n. same y.cache (apart y.cache n aj) j_b)) s_j
        (λ n. among-swap y.object i b y_b (ao n)) (λ n. among-swap y.message i b g_b (ag n))
        (λ n. among-swap y.cache i b j_b (aj n)) positive fit
        (omega (arith, old, effects-swap y.object i b))
        (Stored-swap i at' part b_some (ground (arith, out)) same st)

module _ {base m m' : Memory} {p : Ptr} {c : Context} {hands : Ptr → ℕ} {x : Item}
    {xs ys : List Item} (b : Ptr) (i : Insert x xs ys) (s : Session base m p c hands ys) where
  -- The text of the error at `x` is now at `b`, which was not in use.
  pub Session-swap :
      x.cache ≡ null
      → IsContext m' p (record c { errors = s.first; locked = false }) (registry ys)
      → At m' x.object
          (block c.allocator (error (held p c.allocator (renewed x b) (s.count x.object))))
      → Part m' c.allocator b
      → (b == null) ≡ false
      → m.blocks b ≡ none
      → ((r : Ptr) → (r == x.object) ≡ false → (r == b) ≡ false → m'.blocks r ≡ m.blocks r)
      → Session base m' p c hands (swap i (renewed x b))
  Session-swap no_cache live' at' part b_some free same =
      let out = new_apart b b_some free s.stored in
      let j = Insert-swap i (renewed x b) in
      let reg = registry-swap i b in
      let b_p : (b == p) ≡ false = ne_of_blocks m b p free s.live.at.holds (λ z. cc) in
      let b_nodes = not_in_Nodes b (λ o z. cc (sym free ∙ z)) s.live.nodes in
      let b_base : base.blocks b ≡ none = sym (s.frame b b_some b_p out b_nodes) ∙ free in
      record {
        count = s.count;
        first = s.first;
        live =
            subst (IsContext m' p (record c { errors = s.first; locked = false })) (sym reg) live';
        stored = Stored-swap b i at' part b_some out same s.stored;
        current = AreCurrent-swap c.generation i b s.current;
        counted = λ r n. s.counted r n ∙ ap (λ k. hands r + k) (sym (effects-swap r i b));
        absent = λ r h. s.absent r (ground (arith, h, present-Insert r i, present-Insert r j));
        frame = λ r n r_p r_parts r_nodes.
            same r (ground (arith, r_parts, among-Insert r j))
              (ground (arith, r_parts, among-Insert r j, b_some))
            ∙ s.frame r n r_p
                (ground (arith, r_parts, among-Insert r i, among-Insert r j, no_cache, n))
                (subst (λ k. has r k ≡ false) reg r_nodes);
        fresh_context = s.fresh_context;
        fresh_parts = λ r n h. elim (Bool-cases (r == b)) [
          | inl e ↦ ap base.blocks ((==_iff r b).0 e) ∙ b_base
          | inr other ↦
              s.fresh_parts r n (ground (arith, h, other, among-Insert r i, among-Insert r j))
        ];
        fresh_nodes = λ r h. s.fresh_nodes r (subst (λ k. has r k ≡ true) reg h);
      }
