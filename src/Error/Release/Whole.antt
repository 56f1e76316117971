-- ===== src/Error/Release/Whole.antt =====
-- `gitledger_error_release` from the first error of a chain to its end.
use libgitledger.Prelude.{
  ℕ, zero, suc, ◌+◌, ◌-◌, ◌^◌, ◌<◌, ◌≤◌, ◌≡◌, inl, inr, refl, sym, subst, ◌∙◌, true, false, none,
  some, List, [], ◌∷◌, ◌==◌, ==_iff, Bool-cases, arith, length,
}
use libgitledger.Memory.{
  Ptr, null, Allocator, Context, ErrorObject, context, error, Env, Memory, ok, write,
}
use libgitledger.Memory.Blocks.{block, At, load_error-At, store-At}
use libgitledger.Context.{sub_one32}
use libgitledger.Context.Registry.{Entries, has, IsContext}
use libgitledger.Context.Registry.Unlink.{without, has-without, At-untouched}
use libgitledger.Error.{release_loop, release}
use libgitledger.Error.Release.{Part}
use libgitledger.Error.Release.Round.{Round, round_lem, error_apart, Part-apart}
use libgitledger.Error.Release.Causes.{
  Parts, parts, mine, among, Owned, stop, own, Cleared, Owned-Round,
}

-- The registry gets no longer.
pub length-without : (err : Ptr) (xs : Entries) → length (without err xs) ≤ length xs
length-without err [] = omega arith
length-without err ((p, e) ∷ xs) = ground (arith, length-without err xs)

record Left (m : Memory) (p : Ptr) (reg : Entries) (m' : Memory) (r : Ptr) : Type 0 where
  gone : m'.blocks r ≡ none
  no_context : (r == p) ≡ false
  no_node : has r reg ≡ false

-- A round has given back each of the error's blocks.
Round-Left :
    {m m' : Memory} {p : Ptr} {c : Context} {reg : Entries} {q s j : Ptr}
    → IsContext m p c reg
    → Round m p c reg q s j m'
    → ((q == p) ≡ false) × (has q reg ≡ false)
    → Part m c.allocator s
    → Part m c.allocator j
    → (r : Ptr) → (r == null) ≡ false
    → mine r (parts q s j) ≡ true
    → Left m p reg m' r
Round-Left {m} {m'} {p} {reg} {q} {s} {j} is u (q_p, q_out) part_s part_j r h mn =
    elim (Bool-cases (r == q)) [
      | inl e ↦
          subst (Left m p reg m') (sym ((==_iff r q).0 e))
            record { gone = u.object; no_context = q_p; no_node = q_out }
      | inr not_q ↦ elim (Bool-cases (r == s)) [
        | inl e ↦
            let (s_p, s_out) = Part-apart is part_s in
            let same : r ≡ s = (==_iff r s).0 e in
            subst (Left m p reg m') (sym same) record {
              gone = u.message (subst (λ x. (x == null) ≡ false) same h);
              no_context = s_p;
              no_node = s_out;
            }
        | inr not_s ↦
            let (j_p, j_out) = Part-apart is part_j in
            let same : r ≡ j = (==_iff r j).0 (ground (arith, mn, not_q, not_s)) in
            subst (Left m p reg m') (sym same) record {
              gone = u.cache (subst (λ x. (x == null) ≡ false) same h);
              no_context = j_p;
              no_node = j_out;
            }
      ]
    ]

Cleared-nil :
    {m : Memory} {p : Ptr} {c : Context} {reg : Entries}
    → IsContext m p c reg
    → Cleared m p c reg [] m
Cleared-nil {c} is = record {
  first = c.errors;
  live = record {
    at = record {
      not_null = is.at.not_null;
      holds = is.at.holds ∙ λ i.
          some (block c.allocator (context (record c { locked = is.unlocked i })));
    };
    magic = is.magic;
    unlocked = refl;
    can_alloc = is.can_alloc;
    can_free = is.can_free;
    nodes = is.nodes;
  };
  freed = λ r h k. absurd (ground (arith, k));
  untouched = λ r h k o. refl;
}

-- The loop gives back each error of the chain, and goes on at its end.
pub release_loop-Owned :
    (env : Env) (xs : List Parts) {m : Memory} {p q last : Ptr} {c : Context} {reg : Entries}
    → IsContext m p c reg
    → length reg < env.rounds
    → Owned m p c.allocator q xs last
    → (m' : Memory) × Cleared m p c reg xs m'
      × ((fuel rest : ℕ)
          → fuel ≡ length xs + rest
          → release_loop fuel env q m ≡ release_loop rest env last m')
release_loop-Owned env [] {m} is few (stop z) =
    (m, Cleared-nil is, λ fuel rest e. let same : fuel ≡ rest = omega arith in rw (same, z))
release_loop-Owned env (_ ∷ xs) {m} {p} {c} {reg} is few
      (own {q} {s} {j} {cause} e at part_s part_j s_j hq hs hj o) =
    let (m1, u, run) = round_lem env e is few at part_s part_j s_j in
    let o1 = Owned-Round is u hq hs hj o in
    let (m', r, run_rest) =
      release_loop-Owned env xs u.live (omega (arith, length-without q reg)) o1 in
    (
      m',
      record {
        first = r.first;
        live = r.live;
        freed = λ x h k. elim (Bool-cases (among x xs)) [
          | inl behind ↦ r.freed x h behind
          | inr other ↦
              let l =
                Round-Left is u (error_apart is at) part_s part_j x h (ground (arith, k, other)) in
              r.untouched x l.no_context other (has-without q x reg l.no_node) ∙ l.gone
        ];
        untouched = λ x x_p k out.
            r.untouched x x_p (ground (arith, k)) (has-without q x reg out)
            ∙ u.untouched x x_p (ground (arith, k)) (ground (arith, k)) (ground (arith, k)) out;
      },
      λ fuel rest k.
          let one : fuel ≡ suc (length xs + rest) = omega arith in
          rw one (run (length xs + rest) ∙ run_rest (length xs + rest) rest refl),
    )

pub null_run : (n : ℕ) (env : Env) (m : Memory) → 0 < n → release_loop n env null m ≡ ok tt m
unfolding release_loop
null_run zero env m h = absurd (omega arith)
null_run (suc n) env m h = refl

pub shared_run :
    (n : ℕ) (env : Env) {m : Memory} {q : Ptr} {a : Allocator} {x : ErrorObject}
    → 0 < n
    → At m q (block a (error x))
    → 1 < x.refcount
    → x.refcount < 2 ^ 32
    → release_loop n env q m
      ≡ ok tt (write m q (some (block a (error (record x { refcount = x.refcount - 1 })))))
unfolding release_loop
shared_run zero env h at more fits = absurd (omega arith)
shared_run (suc n) env {x} h at more fits =
    let several : (x.refcount == 1) ≡ false = ground arith in
    let less : sub_one32 x.refcount ≡ x.refcount - 1 = omega arith in
    rw (at.not_null) (rw (load_error-At at) (rw (store-At _ at) (rw several (rw less))))

module _ (env : Env) (xs : List Parts) {m : Memory} {p q last : Ptr} {c : Context} {reg : Entries}
    (is : IsContext m p c reg) (few : length reg < env.rounds) (short : length xs < env.rounds)
    (o : Owned m p c.allocator q xs last) where
  run_to_last :
      (m' : Memory) × Cleared m p c reg xs m'
      × (release env q m ≡ release_loop (env.rounds - length xs) env last m')
  unfolding release
  run_to_last =
      let (m', r, run) = release_loop-Owned env xs is few o in
      (m', r, run env.rounds (env.rounds - length xs) (omega arith))

  -- For a live context whose registry is shorter than `rounds`, and a chain of fewer than `rounds`
  -- distinct errors of this context with one reference each, each with a message and a cached JSON
  -- or without, whose causes end in NULL, `release` of the first ends; the errors, their messages
  -- and caches have been given back, the context is live with its lock free, its registry lacks
  -- the first node for each of the errors, and no address outside the registry, the context and
  -- these blocks has changed.
  pub release-Owned :
      last ≡ null → (m' : Memory) × Cleared m p c reg xs m' × (release env q m ≡ ok tt m')
  release-Owned z =
      let (m', r, run) = run_to_last in
      (m', r, run ∙ rw z (null_run (env.rounds - length xs) env m' (omega arith)))

  -- Where the chain of errors with one reference ends instead at another error of the context with
  -- several references that fit 32 bits, `release` gives back the same blocks, and the error at
  -- the end stays and has one reference less.
  pub release-Owned_shared :
      {x : ErrorObject}
      → At m last (block c.allocator (error x))
      → among last xs ≡ false
      → 1 < x.refcount
      → x.refcount < 2 ^ 32
      → (m' : Memory) × Cleared m p c reg xs m'
        × (release env q m
            ≡ ok tt (
                write m' last
                  (some (block c.allocator (error (record x { refcount = x.refcount - 1 }))))))
  release-Owned_shared at other more fits =
      let (m', r, run) = run_to_last in
      let (apart, out) = error_apart is at in
      (
        m',
        r,
        run
            ∙ shared_run (env.rounds - length xs) env (omega arith)
                (At-untouched at (r.untouched last apart other out)) more fits,
      )
