-- ===== src/Session/Last.antt =====
-- The last reference to an error goes: the errors are then the others, and its cause has one reference
-- that the callers hold.
use libgitledger.Prelude.{
  ℕ, suc, ◌+◌, ◌<◌, ◌≡◌, refl, sym, ap, subst, ◌∙◌, true, false, none, List, [], ◌∷◌, ◌==◌, ==_iff,
  arith, inl, inr, Bool-cases, length,
}
use libgitledger.Prelude.Insert.{Insert}
use libgitledger.Memory.{Ptr, null, Context, error, Env, Memory}
use libgitledger.Memory.Blocks.{block, At}
use libgitledger.Context.Registry.{Entries, has, IsContext}
use libgitledger.Context.Registry.Unlink.{without}
use libgitledger.Error.{release_loop}
use libgitledger.Error.Release.Round.{Round, round_lem, error_apart, Part-apart}
use libgitledger.Error.Release.Causes.{mine, among, parts, IsAway}
use libgitledger.Session.{Item, held, registry, parts_of, effects, Stored, nothing, newest, Session}
use libgitledger.Session.Items.{
  AreCurrent-Insert, effects-Insert, present-Insert, among-Insert, has-Insert,
}
use libgitledger.Session.Taken.{take_out, without-registry, Stored-same}
use libgitledger.Session.Adjust.{at_count, among_ne, present_ne, plus, minus}

pub length-registry : (xs : List Item) → length (registry xs) ≡ length xs
length-registry [] = refl
length-registry (x ∷ xs) = ap suc (length-registry xs)

-- What callers hold counts only away from NULL.
pub Session-hands :
    {base m : Memory} {p : Ptr} {c : Context} {hands hands' : Ptr → ℕ} {ys : List Item}
    → ((r : Ptr) → (r == null) ≡ false → hands' r ≡ hands r)
    → Session base m p c hands ys
    → Session base m p c hands' ys
Session-hands {ys} e s = record {
  count = s.count;
  first = s.first;
  live = s.live;
  stored = s.stored;
  current = s.current;
  counted = λ r h. s.counted r h ∙ ap (λ k. k + effects r ys) (sym (e r h));
  absent = s.absent;
  frame = s.frame;
  fresh_context = s.fresh_context;
  fresh_parts = s.fresh_parts;
  fresh_nodes = s.fresh_nodes;
}

same_block :
    (m base : Memory) (r q : Ptr)
    → (r == q) ≡ true
    → m.blocks q ≡ none
    → base.blocks r ≡ none
    → m.blocks r ≡ base.blocks r
same_block m base r q e gone fresh = ap m.blocks ((==_iff r q).0 e) ∙ (gone ∙ sym fresh)

-- The blocks of the others are none of the context, the registry and the error that goes.
module _ {m : Memory} {p : Ptr} {c : Context} {count : Ptr → ℕ} {reg : Entries}
    (is : IsContext m p c reg) where
  pub among-apart :
      {xs : List Item}
      → Stored m p c.allocator count xs
      → (r : Ptr) → among r (parts_of xs) ≡ true
      → ((r == p) ≡ false) × (has r reg ≡ false)
  among-apart nothing r h = cc
  among-apart (newest {x} at s j s_j ao ag aj pos fit old st) r h =
      elim (Bool-cases (r == x.object)) [
        | inl e ↦ rw ((==_iff r x.object).0 e) (error_apart is at)
        | inr not_o ↦ elim (Bool-cases (r == x.message)) [
          | inl e ↦ rw ((==_iff r x.message).0 e) (Part-apart is s)
          | inr not_s ↦ elim (Bool-cases (r == x.cache)) [
            | inl e ↦ rw ((==_iff r x.cache).0 e) (Part-apart is j)
            | inr not_j ↦ among-apart st r (ground (arith, h, not_o, not_s, not_j))
          ]
        ]
      ]

module _ (env : Env) {base m : Memory} {p : Ptr} {c : Context} {hands : Ptr → ℕ} {x : Item}
    {xs ys : List Item} (i : Insert x xs ys) (s : Session base m p c hands ys)
    (held_x : 0 < hands x.object) (last : s.count x.object ≡ 1) where
  abbrev live_context : Context
  live_context = record c { errors = s.first; locked = false }

  -- The callers then hold the reference that the error had on its cause.
  abbrev hands_after : Ptr → ℕ
  hands_after = plus x.cause (minus x.object hands)

  away_mine :
      (r q : Ptr)
      → IsAway q (parts_of xs)
      → (q == null) ≡ false
      → among r (parts_of xs) ≡ true
      → (r == q) ≡ false
  away_mine r q h n k = among_ne r q xs k (h n)

  -- An address of the others is none of the error's.
  apart_mine :
      (r q : Ptr)
      → IsAway q (parts_of xs)
      → (r == null) ≡ false
      → among r (parts_of xs) ≡ true
      → (r == q) ≡ false
  apart_mine r q h n k = elim (Bool-cases (q == null)) [
    | inl z ↦ ground (arith, z, n)
    | inr q_some ↦ away_mine r q h q_some k
  ]

  -- What is not the others' is as it was before the session.
  Round-frame :
      {m' : Memory}
      → Round m p live_context (registry ys) x.object x.message x.cache m'
      → (r : Ptr) → (r == null) ≡ false
      → (r == p) ≡ false
      → among r (parts_of xs) ≡ false
      → has r (registry xs) ≡ false
      → m'.blocks r ≡ base.blocks r
  Round-frame {m'} u r n r_p r_parts r_nodes =
      let t = take_out i s.stored in
      let split = among-Insert r i in
      let fresh : mine r (parts x.object x.message x.cache) ≡ true → base.blocks r ≡ none =
        λ k. s.fresh_parts r n (ground (arith, k, split)) in
      elim (Bool-cases (r == x.object)) [
        | inl e ↦ same_block m' base r x.object e u.object (fresh (ground (arith, e)))
        | inr not_o ↦ elim (Bool-cases (r == x.message)) [
          | inl e ↦
              same_block m' base r x.message e (u.message (ground (arith, e, n)))
                (fresh (ground (arith, e)))
          | inr not_s ↦ elim (Bool-cases (r == x.cache)) [
            | inl e ↦
                same_block m' base r x.cache e (u.cache (ground (arith, e, n)))
                  (fresh (ground (arith, e)))
            | inr not_j ↦ elim (Bool-cases (has r (registry ys))) [
              | inl there ↦
                  u.node r there (rw (without-registry i s.stored) r_nodes)
                  ∙ sym (s.fresh_nodes r there)
              | inr out ↦
                  u.untouched r r_p not_o not_s not_j out
                  ∙ s.frame r n r_p (ground (arith, split, r_parts, not_o, not_s, not_j)) out
            ]
          ]
        ]
      ]

  Round-Session :
      {m' : Memory}
      → Round m p live_context (registry ys) x.object x.message x.cache m'
      → Session base m' p c hands_after xs
  Round-Session {m'} u =
      let t = take_out i s.stored in
      let reg : without x.object (registry ys) ≡ registry xs = without-registry i s.stored in
      let c_x = s.counted x.object t.at.not_null in
      record {
        count = at_count s.count x.object 0;
        first = u.first;
        live = subst (IsContext m' p (record c { errors = u.first; locked = false })) reg u.live;
        stored =
            Stored-same
              (λ r n k.
                let (r_p, out) = among-apart s.live t.others r k in
                u.untouched r r_p (apart_mine r x.object t.object_away n k)
                  (apart_mine r x.message t.message_away n k)
                  (apart_mine r x.cache t.cache_away n k) out)
              (λ r k. ground (arith, present_ne r x.object xs k (t.object_away t.at.not_null)))
              t.others;
        current = AreCurrent-Insert c.generation i s.current;
        counted = λ r h. ground (
          arith,
          c_x,
          last,
          held_x,
          s.counted r h,
          effects-Insert r i,
          effects-Insert x.object i,
        );
        absent = λ r h. ground (arith, h, s.absent r, present-Insert r i);
        frame = Round-frame u;
        fresh_context = s.fresh_context;
        fresh_parts = λ r n k. s.fresh_parts r n (ground (arith, k, among-Insert r i));
        fresh_nodes = λ r k. s.fresh_nodes r (ground (arith, k, has-Insert r i));
      }

  pub round :
      length ys < env.rounds
      → (m' : Memory) × Session base m' p c hands_after xs
        × ((fuel : ℕ) → release_loop (suc fuel) env x.object m ≡ release_loop fuel env x.cause m')
  round few =
      let t = take_out i s.stored in
      let at1 : At m x.object (block c.allocator (error (held p c.allocator x 1))) =
        subst (λ n. At m x.object (block c.allocator (error (held p c.allocator x n)))) last t.at in
      let (m', u, run) =
        round_lem env x.rest s.live (rw length-registry few) at1 t.message t.cache t.apart in
      (m', Round-Session u, run)
