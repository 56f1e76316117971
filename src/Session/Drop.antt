-- ===== src/Session/Drop.antt =====
-- `gitledger_error_release` of an error that a caller holds, whatever the other errors are.
use libgitledger.Prelude.{
  ℕ, zero, suc, ◌-◌, ◌<◌, ◌≡◌, ◌⊎◌, sym, subst, ◌∙◌, true, false, List, ◌==◌, ==_iff, arith, inl,
  inr, Bool-cases, length,
}
use libgitledger.Prelude.Insert.{Insert, Remains, all_of, all_but}
use libgitledger.Memory.{Ptr, null, Context, Env, Memory, ok}
use libgitledger.Error.{release_loop, release}
use libgitledger.Error.Release.Whole.{null_run, shared_run}
use libgitledger.Session.{Item, Session}
use libgitledger.Session.Items.{length-Insert}
use libgitledger.Session.Taken.{take_out}
use libgitledger.Session.Adjust.{adjusted, plus, minus, known, Session-adjust}
use libgitledger.Session.Last.{Session-hands, round}

-- A reference in hand: none, or one to an error.
abbrev pub InHand : (Ptr → ℕ) → Ptr → Type 0
InHand hands q = ((q == null) ≡ true) ⊎ (((q == null) ≡ false) × (0 < hands q))

-- The others' references are left alone: what is taken is given.
minus-plus :
    (q k : Ptr) (hands : Ptr → ℕ) (r : Ptr)
    → (r == null) ≡ false
    → minus k (plus k (minus q hands)) r ≡ minus q hands r
minus-plus q k hands r h = ground arith

minus-null :
    (k : Ptr) (hands : Ptr → ℕ) (r : Ptr)
    → (k == null) ≡ true
    → (r == null) ≡ false
    → minus k hands r ≡ hands r
minus-null k hands r z h = ground (arith, z, h)

-- What releasing has come to: the callers have one reference less, and some errors are gone.
pub record Dropped (env : Env) (base : Memory) (p : Ptr) (c : Context) (hands : Ptr → ℕ)
    (ys : List Item) (q : Ptr) (m : Memory) (fuel : ℕ) : Type 0 where
  pub memory : Memory
  pub left : List Item
  pub run : release_loop fuel env q m ≡ ok tt memory
  pub session : Session base memory p c (minus q hands) left
  pub remains : Remains left ys

InHand-after : (q k : Ptr) (hands : Ptr → ℕ) → InHand (plus k (minus q hands)) k
InHand-after q k hands = elim (Bool-cases (k == null)) [
  | inl z ↦ inl z
  | inr n ↦ inr (n, ground arith)
]

release_null :
    (env : Env) (fuel : ℕ) {base m : Memory} {p : Ptr} {c : Context} {hands : Ptr → ℕ}
    {ys : List Item} (q : Ptr)
    → 0 < fuel
    → (q == null) ≡ true
    → Session base m p c hands ys
    → Dropped env base p c hands ys q m fuel
release_null env fuel {m} {hands} {ys} q pos z s = record {
  memory = m;
  left = ys;
  run = rw ((==_iff q null).0 z) (null_run fuel env m pos);
  session = Session-hands (λ r h. minus-null q hands r z h) s;
  remains = all_of;
}

release_shared :
    (env : Env) (fuel : ℕ) {base m : Memory} {p : Ptr} {c : Context} {hands : Ptr → ℕ} {x : Item}
    {xs ys : List Item}
    → 0 < fuel
    → Insert x xs ys
    → 0 < hands x.object
    → (s : Session base m p c hands ys) → 1 < s.count x.object
    → Dropped env base p c hands ys x.object m fuel
release_shared env fuel {m} {p} {c} {hands} {x} {ys} pos i held_x s several =
    let t = take_out i s.stored in
    let n = s.count x.object - 1 in
    record {
      memory = adjusted m p c.allocator n x;
      left = ys;
      run = shared_run fuel env pos t.at several t.fits;
      session =
          Session-adjust n (omega arith) (omega (arith, t.fits)) i s (minus x.object hands)
            (ground (arith, s.counted x.object t.at.not_null, held_x)) (λ r h. ground (arith, h));
      remains = all_of;
    }

release_last :
    (env : Env) (fuel : ℕ) {base m : Memory} {p : Ptr} {c : Context} {hands : Ptr → ℕ} {x : Item}
    {xs ys : List Item} (i : Insert x xs ys) {m' : Memory}
    → release_loop (suc fuel) env x.object m ≡ release_loop fuel env x.cause m'
    → Dropped env base p c (plus x.cause (minus x.object hands)) xs x.cause m' fuel
    → Dropped env base p c hands ys x.object m (suc fuel)
release_last env fuel {hands} {x} i run d = record {
  memory = d.memory;
  left = d.left;
  run = run ∙ d.run;
  session = Session-hands (λ r h. sym (minus-plus x.object x.cause hands r h)) d.session;
  remains = all_but d.remains i;
}

-- The loop ends, since each round that goes on has one error less.
pub release_loop-Session :
    (env : Env) (fuel : ℕ) {base m : Memory} {p : Ptr} {c : Context} {hands : Ptr → ℕ}
    {ys : List Item} (q : Ptr)
    → length ys < fuel
    → length ys < env.rounds
    → InHand hands q
    → Session base m p c hands ys
    → Dropped env base p c hands ys q m fuel
release_loop-Session env zero q enough few h s = absurd (omega arith)
release_loop-Session env (suc fuel) q enough few (inl z) s =
    release_null env (suc fuel) q (omega arith) z s
release_loop-Session env (suc fuel) {base} {m} {p} {c} {hands} {ys} q enough few (inr (n, held_q))
      s =
    let (x, xs, i, e) = known q s n held_q in
    let held_x : 0 < hands x.object = subst (λ r. 0 < hands r) (sym e) held_q in
    subst (λ r. Dropped env base p c hands ys r m (suc fuel)) e
      (elim (Bool-cases (s.count x.object == 1)) [
        | inl one ↦
            let last : s.count x.object ≡ 1 = (==_iff (s.count x.object) 1).0 one in
            let (m', s', run) = round env i s held_x last few in
            release_last env fuel i (run fuel) (
              release_loop-Session env fuel x.cause (omega (arith, length-Insert i))
                (omega (arith, length-Insert i)) (InHand-after x.object x.cause hands) s')
        | inr many ↦
            let t = take_out i s.stored in
            release_shared env (suc fuel) (omega arith) i held_x s
              (ground (arith, many, t.positive))
      ])

-- For a session, in which the memory is an earlier one with a context and its errors and each
-- error has as many references as callers hold and errors have it for their cause, with fewer
-- errors than rounds, and for NULL or an error that a caller holds, `release` ends and leaves a
-- session of the errors that remain, in which callers hold one reference less to that error and
-- all other references that they held.
pub release-Session :
    (env : Env) {base m : Memory} {p : Ptr} {c : Context} {hands : Ptr → ℕ} {ys : List Item}
    (q : Ptr)
    → length ys < env.rounds
    → InHand hands q
    → Session base m p c hands ys
    → (m' : Memory) × (xs : List Item) × (release env q m ≡ ok tt m')
      × Session base m' p c (minus q hands) xs
      × Remains xs ys
unfolding release
release-Session env q few h s =
    let d = release_loop-Session env env.rounds q few few h s in
    (d.memory, d.left, d.run, d.session, d.remains)
