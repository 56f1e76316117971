-- ===== src/Session/Client/Holding.antt =====
-- What a caller holds in a session, and how its commands change it.
use libgitledger.Prelude.{
  ℕ, zero, suc, ◌+◌, ◌*◌, ◌^◌, ◌<◌, ◌≤◌, ◌≡◌, refl, ap, false, Option, none, some, List, [], ◌∷◌,
  ◌==◌, ==_refl, ==_iff, arith, inl, inr, Bool-cases, length, if◌then◌else◌,
}
use libgitledger.Prelude.Insert.{Remains, all_of, all_but}
use libgitledger.Memory.{Ptr, null, Context, Env, Memory, Run, ok, and_then}
use libgitledger.Memory.Blocks.{load_error-At}
use libgitledger.Session.{Item, effects, Session}
use libgitledger.Session.Items.{length-Insert}
use libgitledger.Session.Adjust.{plus, minus}
use libgitledger.Session.Last.{Session-hands}
use libgitledger.Session.Calls.{Outcome, refused, joined, outside}
use libgitledger.Session.Client.{Client, Handles, nth, but_nth, take_in}

-- How many of the references are to `r`.
abbrev pub times : Handles → Ptr → ℕ
times [] r = 0
times (q ∷ qs) r = (if r == q then 1 else 0) + times qs r

-- The caller's references are those of a session, and `n` more commands exceed no counter and no
-- bound on rounds.
pub record Holds (env : Env) (base m : Memory) (p : Ptr) (self : Client) (n : ℕ) : Type 0 where
  pub context : Context
  pub items : List Item
  pub session : Session base m p context (times self.errors) items
  pub not_null : times self.errors null ≡ 0
  pub of_context : context.refcount ≡ self.contexts
  pub positive : 0 < self.contexts
  pub room : self.contexts + (length self.errors + (length items + 2 * n)) < 2 ^ 32
  pub few : length items + n < env.rounds

pub data Left (env : Env) (base m : Memory) (p : Ptr) (n : ℕ) : Option Client → Type 0 where
  gave_up : Left env base m p n none
  goes_on : {self : Client} → Holds env base m p self n → Left env base m p n (some self)

pub times_le : (qs : Handles) (r : Ptr) → times qs r ≤ length qs
times_le [] r = omega arith
times_le (q ∷ qs) r = ground (arith, times_le qs r)

pub effects_le : (r : Ptr) (ys : List Item) → effects r ys ≤ length ys
effects_le r [] = omega arith
effects_le r (y ∷ ys) = ground (arith, effects_le r ys)

pub length-Remains : {xs ys : List Item} → Remains xs ys → length xs ≤ length ys
length-Remains all_of = omega arith
length-Remains (all_but rest i) = omega (arith, length-Remains rest, length-Insert i)

times-but_nth :
    (i : ℕ) (qs : Handles) {q : Ptr}
    → nth i qs ≡ some q
    → (r : Ptr) → times qs r ≡ (if r == q then 1 else 0) + times (but_nth i qs) r
times-but_nth i [] h r = cc
times-but_nth zero (q ∷ qs) h r = ground (arith, h)
times-but_nth (suc i) (k ∷ qs) h r = omega (arith, times-but_nth i qs h r)

length-but_nth : (i : ℕ) (qs : Handles) → length (but_nth i qs) ≤ length qs
length-but_nth i [] = omega arith
length-but_nth zero (q ∷ qs) = omega arith
length-but_nth (suc i) (q ∷ qs) = omega (arith, length-but_nth i qs)

module _ {env : Env} {base m : Memory} {p : Ptr} {self : Client} {n : ℕ}
    (h : Holds env base m p self (suc n)) where
  -- What the caller has at one of its places.
  pub at_nth :
      (i : ℕ) {q : Ptr}
      → nth i self.errors ≡ some q
      → ((q == null) ≡ false) × (0 < times self.errors q)
  at_nth i {q} e =
      let here : 0 < times self.errors q =
        ground (arith, ==_refl q, times-but_nth i self.errors e q) in
      elim (Bool-cases (q == null)) [
        | inl z ↦
            absurd (omega (arith, here, h.not_null, ap (times self.errors) ((==_iff q null).0 z)))
        | inr q_some ↦ (q_some, here)
      ]

  pub moved :
      {m' : Memory}
      → Session base m' p h.context (times self.errors) h.items
      → Holds env base m' p self n
  moved s = record {
    context = h.context;
    items = h.items;
    session = s;
    not_null = h.not_null;
    of_context = h.of_context;
    positive = h.positive;
    room = omega (arith, h.room);
    few = omega (arith, h.few);
  }

  pub one_more :
      {m' : Memory} {q : Ptr} {ys : List Item}
      → (q == null) ≡ false
      → length ys ≤ length h.items + 1
      → Session base m' p h.context (plus q (times self.errors)) ys
      → Holds env base m' p (record self { errors = q ∷ self.errors }) n
  one_more {ys} q_some few s = record {
    context = h.context;
    items = ys;
    session = Session-hands (λ r k. ground arith) s;
    not_null = ground (arith, q_some, h.not_null);
    of_context = h.of_context;
    positive = h.positive;
    room = omega (arith, few, h.room);
    few = omega (arith, few, h.few);
  }

  pub one_less :
      {m' : Memory} {q : Ptr} {ys : List Item} (i : ℕ)
      → nth i self.errors ≡ some q
      → Remains ys h.items
      → Session base m' p h.context (minus q (times self.errors)) ys
      → Holds env base m' p (record self { errors = but_nth i self.errors }) n
  one_less {ys} i e rest s = record {
    context = h.context;
    items = ys;
    session = Session-hands (λ r k. ground (arith, times-but_nth i self.errors e r)) s;
    not_null = omega (arith, h.not_null, times-but_nth i self.errors e null);
    of_context = h.of_context;
    positive = h.positive;
    room = omega (arith, length-Remains rest, length-but_nth i self.errors, h.room);
    few = omega (arith, length-Remains rest, h.few);
  }

  pub other_contexts :
      {m' : Memory} (k : ℕ)
      → 0 < k
      → k ≤ self.contexts + 1
      → Session base m' p (record h.context { refcount = k }) (times self.errors) h.items
      → Holds env base m' p (record self { contexts = k }) n
  other_contexts k some_left more s = record {
    context = record h.context { refcount = k };
    items = h.items;
    session = s;
    not_null = h.not_null;
    of_context = refl;
    positive = some_left;
    room = omega (arith, more, h.room);
    few = omega (arith, h.few);
  }

  pub taken_in :
      {k : Ptr} {x : Run Ptr}
      → Outcome base m p h.context (times self.errors) h.items k x
      → (end : Option Client) × (m' : Memory) × (and_then x (take_in self) ≡ ok end m')
        × Left env base m' p n end
  taken_in refused = (some self, m, refl, goes_on (moved h.session))
  taken_in (joined {q} {e} {m'} e_p e_k at s) =
      let attached : (e.ctx == null) ≡ false = rw e_p h.session.live.at.not_null in
      (
        some (record self { errors = q ∷ self.errors }),
        m',
        rw (at.not_null) (rw (load_error-At at) (rw attached refl)),
        goes_on (one_more at.not_null (omega arith) s),
      )
  taken_in (outside {m'} e_p at) =
      (none, m', rw (at.not_null) (rw (load_error-At at) (rw e_p refl)), gave_up)
