-- ===== src/Session/Adjust.antt =====
-- References are taken to an error, or given up, and it stays: its counter changes, and nothing else.
use libgitledger.Prelude.{
  ℕ, ◌+◌, ◌-◌, ◌^◌, ◌<◌, ◌≡◌, refl, sym, ap, subst, ◌∙◌, true, false, some, List, [], ◌∷◌, ◌==◌,
  ==_refl, ==_iff, arith, inl, inr, Bool-cases, if◌then◌else◌,
}
use libgitledger.Prelude.Insert.{Insert, front, behind}
use libgitledger.Memory.{Ptr, null, Allocator, Context, error, Memory, ok, write}
use libgitledger.Memory.Blocks.{
  block, At, At-write_self, At-write_ne, load_error-At, store-At, blocks-write_ne, ne_sym,
}
use libgitledger.Context.{add_one32}
use libgitledger.Context.Registry.{IsContext-write_ne}
use libgitledger.Error.{retain}
use libgitledger.Error.Release.{Part-untouched, Part-ne}
use libgitledger.Error.Release.Round.{error_apart}
use libgitledger.Error.Release.Causes.{among, IsAway}
use libgitledger.Session.{Item, held, parts_of, present, effects, Stored, newest, Session}
use libgitledger.Session.Items.{present-Insert, find}
use libgitledger.Session.Taken.{take_out, Stored-same}

-- The references to `q` are `n`.
abbrev pub at_count : (Ptr → ℕ) → Ptr → ℕ → Ptr → ℕ
at_count count q n r = if r == q then n else count r

abbrev pub plus : Ptr → (Ptr → ℕ) → Ptr → ℕ
plus q hands r = if r == q then hands r + 1 else hands r

abbrev pub minus : Ptr → (Ptr → ℕ) → Ptr → ℕ
minus q hands r = if r == q then hands r - 1 else hands r

-- The error `x` has `n` references in the memory.
abbrev pub adjusted : Memory → Ptr → Allocator → ℕ → Item → Memory
adjusted m p a n x = write m x.object (some (block a (error (held p a x n))))

pub among_ne :
    (r q : Ptr) (xs : List Item)
    → among r (parts_of xs) ≡ true
    → among q (parts_of xs) ≡ false
    → (r == q) ≡ false
among_ne r q [] h k = cc
among_ne r q (x ∷ xs) h k = ground (arith, h, k, among_ne r q xs)

pub present_ne :
    (r q : Ptr) (xs : List Item)
    → present r xs ≡ true
    → among q (parts_of xs) ≡ false
    → (r == q) ≡ false
present_ne r q [] h k = cc
present_ne r q (x ∷ xs) h k = ground (arith, h, k, present_ne r q xs)

among-object : {x : Item} {xs ys : List Item} → Insert x xs ys → among x.object (parts_of ys) ≡ true
among-object front = ground arith
among-object (behind i) = ground (arith, among-object i)

module _ {m : Memory} {p : Ptr} {a : Allocator} {count : Ptr → ℕ} (n : ℕ) (some_left : 0 < n)
    (fits : n < 2 ^ 32) where
  pub Stored-adjust :
      {x : Item} {xs ys : List Item}
      → Insert x xs ys
      → Stored m p a count ys
      → Stored (adjusted m p a n x) p a (at_count count x.object n) ys
  Stored-adjust {x} front (newest {xs} at s j s_j ao ag aj pos fit old st) =
      let e : at_count count x.object n x.object ≡ n = rw (==_refl x.object) refl in
      let away = ao at.not_null in
      newest
        (subst (λ k. At (adjusted m p a n x) x.object (block a (error (held p a x k)))) (sym e)
          (At-write_self m x.object _ at.not_null))
        (Part-untouched s (λ h.
          blocks-write_ne m x.object x.message _
            (ne_sym x.object x.message (Part-ne x.object at s))))
        (Part-untouched j (λ h.
          blocks-write_ne m x.object x.cache _ (ne_sym x.object x.cache (Part-ne x.object at j))))
        s_j ao ag aj (rw e some_left) (rw e fits) old
        (Stored-same (λ r h k. blocks-write_ne m x.object r _ (among_ne r x.object xs k away))
          (λ r h. ground (arith, present_ne r x.object xs h away)) st)
  Stored-adjust {x} (behind {y} i) (newest {xs} at s j s_j ao ag aj pos fit old st) =
      let there = among-object i in
      let apart : (r : Ptr)
          → (r == null) ≡ false
          → IsAway r (parts_of xs)
          → (r == x.object) ≡ false =
        λ r h away. ne_sym x.object r (among_ne x.object r xs there (away h)) in
      let y_x = apart y.object at.not_null ao in
      let e : at_count count x.object n y.object ≡ count y.object = rw y_x refl in
      newest
        (subst (λ k. At (adjusted m p a n x) y.object (block a (error (held p a y k)))) (sym e)
          (At-write_ne x.object _ at y_x))
        (Part-untouched s (λ h. blocks-write_ne m x.object y.message _ (apart y.message h ag)))
        (Part-untouched j (λ h. blocks-write_ne m x.object y.cache _ (apart y.cache h aj))) s_j ao
        ag aj (rw e pos) (rw e fit) old (Stored-adjust i st)

module _ {base m : Memory} {p : Ptr} {c : Context} {hands : Ptr → ℕ} {x : Item} {xs ys : List Item}
    (n : ℕ) (some_left : 0 < n) (fits : n < 2 ^ 32) (i : Insert x xs ys)
    (s : Session base m p c hands ys) where
  -- The error at `x` has `n` references, and the callers' part of them follows.
  pub Session-adjust :
      (hands' : Ptr → ℕ)
      → (n ≡ hands' x.object + effects x.object ys)
      → ((r : Ptr) → (r == x.object) ≡ false → hands' r ≡ hands r)
      → Session base (adjusted m p c.allocator n x) p c hands' ys
  Session-adjust hands' e others =
      let t = take_out i s.stored in
      let (x_p, out) = error_apart s.live t.at in
      record {
        count = at_count s.count x.object n;
        first = s.first;
        live = IsContext-write_ne x.object _ (ne_sym x.object p x_p) out s.live;
        stored = Stored-adjust n some_left fits i s.stored;
        current = s.current;
        counted = λ r h. elim (Bool-cases (r == x.object)) [
          | inl same ↦ let z : r ≡ x.object = (==_iff r x.object).0 same in rw same (rw z e)
          | inr other ↦ rw other (s.counted r h ∙ ap (λ k. k + effects r ys) (sym (others r other)))
        ];
        absent = λ r h. ground (arith, s.absent r h, present-Insert r i);
        frame = λ r h r_p r_parts r_nodes.
            blocks-write_ne m x.object r _
              (ne_sym x.object r (among_ne x.object r ys (among-object i) r_parts))
            ∙ s.frame r h r_p r_parts r_nodes;
        fresh_context = s.fresh_context;
        fresh_parts = s.fresh_parts;
        fresh_nodes = s.fresh_nodes;
      }

retain_item :
    {base m : Memory} {p : Ptr} {c : Context} {hands : Ptr → ℕ} {x : Item} {xs ys : List Item}
    → Insert x xs ys
    → Session base m p c hands ys
    → hands x.object + effects x.object ys + 1 < 2 ^ 32
    → (m' : Memory) × (retain x.object m ≡ ok tt m') × Session base m' p c (plus x.object hands) ys
unfolding retain
retain_item {m} {p} {c} {hands} {x} {ys} i s room =
    let t = take_out i s.stored in
    let q_some = t.at.not_null in
    let n = s.count x.object + 1 in
    let e = s.counted x.object q_some in
    let more : add_one32 (s.count x.object) ≡ n = omega arith in
    (
      adjusted m p c.allocator n x,
      rw q_some (rw (load_error-At t.at) (rw (store-At _ t.at) (rw more refl))),
      Session-adjust n (omega arith) (omega arith) i s (plus x.object hands) (ground (arith, e))
          (λ r h. ground (arith, h)),
    )

-- An error that a caller holds is one of the errors.
pub known :
    {base m : Memory} {p : Ptr} {c : Context} {hands : Ptr → ℕ} {ys : List Item} (q : Ptr)
    → Session base m p c hands ys
    → (q == null) ≡ false
    → 0 < hands q
    → (x : Item) × (xs : List Item) × Insert x xs ys × (x.object ≡ q)
known {ys} q s h k = elim (Bool-cases (present q ys)) [
  | inl there ↦ find q ys there
  | inr gone ↦ absurd (omega (arith, s.absent q gone, s.counted q h))
]

-- In a session, for an error that a caller holds and whose counter has room for one reference
-- more, `retain` leaves a session in which callers hold one reference more to that error, and all
-- other references that they held.
pub retain-Session :
    {base m : Memory} {p : Ptr} {c : Context} {hands : Ptr → ℕ} {ys : List Item} (q : Ptr)
    → Session base m p c hands ys
    → (q == null) ≡ false
    → 0 < hands q
    → hands q + effects q ys + 1 < 2 ^ 32
    → (m' : Memory) × (retain q m ≡ ok tt m') × Session base m' p c (plus q hands) ys
retain-Session {base} {m} {p} {c} {hands} {ys} q s q_some held_q room =
    let (x, xs, i, e) = known q s q_some held_q in
    subst (λ r. (m' : Memory) × (retain r m ≡ ok tt m') × Session base m' p c (plus r hands) ys) e
      (retain_item i s (subst (λ r. hands r + effects r ys + 1 < 2 ^ 32) (sym e) room))
