-- ===== src/Context/Threads/Unlinking.antt =====
-- The critical section of `context_unregister_error`, access by access.
use libgitledger.Prelude.{
  ℕ, zero, suc, ◌≡◌, inl, inr, refl, sym, ap, ◌∙◌, fun_ext, true, false, ◌<◌, length, ◌==◌,
  Bool-cases, if◌then◌else◌,
}
use libgitledger.Memory.{
  Env, Context, Ptr, null, Allocator, ErrorNode, node, Run, Memory, M, ok, fault, aborted, blocked,
  out_of_fuel, pure, load_context, load_node, skip, and_then, ◌>>=◌, ◌>>◌,
}
use libgitledger.Memory.Blocks.{block, At, load_node-At}
use libgitledger.Context.{
  lock, unlock, free, Cursor, at_head, at_next, get_cursor, set_cursor, unregister_loop,
  unregister_error, is_valid,
}
use libgitledger.Context.Registry.{Entries, IsContext, is_valid-At}
use libgitledger.Context.Registry.Unregister.{Unregistered, unregister_error_lem}
use libgitledger.Context.Threads.{Body, finish, access, run_body, guarded}
use libgitledger.Context.Threads.Keeps.{KeepsLock, Keeps}
use libgitledger.Context.Threads.Sections.{
  get_errors, set_next, set_errors, load_node-cases, get_errors-KeepsLock, set_next-KeepsLock,
  set_errors-KeepsLock,
}

-- `(*cursor)->error`, `doomed->next` and `*cursor = q`.
unfoldable pub get_error : Ptr → M Ptr
get_error p = do n ← load_node p; pure n.error

unfoldable pub get_next : Ptr → M Ptr
get_next p = do n ← load_node p; pure n.next

unfoldable pub put_cursor : Ptr → Cursor → Ptr → M Ptr
put_cursor ctx cursor q = do set_cursor ctx cursor q; pure null

-- `*cursor = doomed->next`, with the doomed node for the result.
abbrev pub unlink_at : Ptr → Cursor → Ptr → Body
unlink_at ctx cursor p = access (get_next p) λ q. access (put_cursor ctx cursor q) λ _. finish p

-- A round of the loop, where `*cursor` is `p`; `rest` is what the other rounds do.
abbrev pub body_at : Ptr → (err : Ptr) → Cursor → Ptr → (rest : Body) → Body
body_at ctx err cursor p rest =
    if p == null
    then finish null
    else access (get_error p) (λ e. if e == err then unlink_at ctx cursor p else rest)

-- The loop under the lock; its result is the node that is unlinked, or NULL.
unfoldable pub unlink_body : (fuel : ℕ) → Ptr → (err : Ptr) → Cursor → Body
unlink_body zero ctx err cursor = access (λ _. out_of_fuel) λ _. finish null
unlink_body (suc fuel) ctx err cursor =
    access (get_cursor ctx cursor)
      λ p. body_at ctx err cursor p (unlink_body fuel ctx err (at_next p))

-- What follows behind the lock: the node is given back.
abbrev pub free_doomed : Ptr → Ptr → M (Unit {0})
free_doomed ctx p = if p == null then skip else free ctx p

and_then_assoc :
    {A B C : Type 0} (r : Run A) (f : A → M B) (g : B → M C)
    → and_then (and_then r f) g ≡ and_then r (λ a m. and_then (f a m) g)
and_then_assoc (ok a m) f g = refl
and_then_assoc fault f g = refl
and_then_assoc aborted f g = refl
and_then_assoc blocked f g = refl
and_then_assoc out_of_fuel f g = refl

and_then-skip : (r : Run (Unit {0})) → and_then r (λ _. skip) ≡ r
and_then-skip (ok a m) = refl
and_then-skip fault = refl
and_then-skip aborted = refl
and_then-skip blocked = refl
and_then-skip out_of_fuel = refl

-- The body with the lock's end, and the loop of the model.
abbrev then_free : Ptr → Ptr → M (Unit {0})
then_free ctx p = unlock ctx >> free_doomed ctx p

and_then-pure-pure :
    (r : Run (Unit {0})) (p : Ptr) (k : Ptr → M (Unit {0}))
    → and_then (and_then (and_then r (λ _. pure null)) (λ _. pure p)) k ≡ and_then r (λ _. k p)
and_then-pure-pure (ok a m) p k = refl
and_then-pure-pure fault p k = refl
and_then-pure-pure aborted p k = refl
and_then-pure-pure blocked p k = refl
and_then-pure-pure out_of_fuel p k = refl

free_some : (ctx p : Ptr) → (p == null) ≡ false → then_free ctx p ≡ (unlock ctx >> free ctx p)
free_some ctx p e = ap (λ b. unlock ctx >> (if b then skip else free ctx p)) e

run-unlink_at :
    (ctx : Ptr) (cursor : Cursor) {p : Ptr} {m : Memory} {a : Allocator} {n : ErrorNode}
    → At m p (block a (node n))
    → and_then (run_body (unlink_at ctx cursor p) m) (then_free ctx)
      ≡ (do set_cursor ctx cursor n.next; unlock ctx; free ctx p) m
unfolding run_body get_next put_cursor
run-unlink_at ctx cursor {p} {m} {n} at = rw (load_node-At at) (
    and_then-pure-pure (set_cursor ctx cursor n.next m) p (then_free ctx)
    ∙ ap (λ k. and_then (set_cursor ctx cursor n.next m) (λ _. k)) (free_some ctx p at.not_null))

run-body_at :
    (ctx err : Ptr) (cursor : Cursor) (p : Ptr) (rest : Body) (loop : M (Unit {0})) (m : Memory)
    → ((m' : Memory) → and_then (run_body rest m') (then_free ctx) ≡ loop m')
    → and_then (run_body (body_at ctx err cursor p rest) m) (then_free ctx)
      ≡ (if p == null then unlock ctx else do
        n ← load_node p
        if n.error == err then (do set_cursor ctx cursor n.next; unlock ctx; free ctx p) else loop)
          m
unfolding run_body get_error
run-body_at ctx err cursor p rest loop m ih = elim (Bool-cases (p == null)) [
  | inl z ↦ rw z (and_then-skip (unlock ctx m))
  | inr some_p ↦ elim (load_node-cases p m) [
    | inr f ↦ rw some_p (rw f)
    | inl (a, n, at) ↦ elim (Bool-cases (n.error == err)) [
      | inl found ↦ rw some_p (
          rw (load_node-At at) (
            ap
              (λ b.
                and_then (run_body (if b then unlink_at ctx cursor p else rest) m) (then_free ctx))
              found
            ∙ (run-unlink_at ctx cursor at ∙ rw found refl)))
      | inr other ↦ rw some_p (
          rw (load_node-At at) (
            ap
              (λ b.
                and_then (run_body (if b then unlink_at ctx cursor p else rest) m) (then_free ctx))
              other
            ∙ (ih m ∙ rw other refl)))
    ]
  ]
]

pub run-unlink_body :
    (fuel : ℕ) (ctx err : Ptr) (cursor : Cursor) (m : Memory)
    → and_then (run_body (unlink_body fuel ctx err cursor) m) (then_free ctx)
      ≡ unregister_loop fuel ctx err cursor m
unfolding unlink_body run_body unregister_loop
run-unlink_body zero ctx err cursor m = refl
run-unlink_body (suc fuel) ctx err cursor m =
    and_then_assoc (get_cursor ctx cursor m)
      (λ p. run_body (body_at ctx err cursor p (unlink_body fuel ctx err (at_next p))))
      (then_free ctx)
    ∙ ap (and_then (get_cursor ctx cursor m)) (
        fun_ext λ p. fun_ext λ m1.
          run-body_at ctx err cursor p (unlink_body fuel ctx err (at_next p))
            (unregister_loop fuel ctx err (at_next p)) m1
            (run-unlink_body fuel ctx err (at_next p)))

guarded-then :
    (ctx : Ptr) (b : Body) (m : Memory) (k : Ptr → M (Unit {0}))
    → and_then (guarded ctx b m) k
      ≡ and_then (lock ctx m) (λ _ m1. and_then (run_body b m1) (λ v. unlock ctx >> k v))
unfolding guarded
guarded-then ctx b m k =
    and_then_assoc (lock ctx m) _ k
    ∙ ap (and_then (lock ctx m)) (
        fun_ext λ u. fun_ext λ m1.
          and_then_assoc (run_body b m1) _ k
          ∙ ap (and_then (run_body b m1))
              (fun_ext λ v. fun_ext λ m2. and_then_assoc (unlock ctx m2) _ k))

-- Access by access or behind the lock: the same, on every outcome.
pub guarded-unlink_body :
    (fuel : ℕ) (ctx err : Ptr) (m : Memory)
    → (guarded ctx (unlink_body fuel ctx err at_head) >>= free_doomed ctx) m
      ≡ (lock ctx >> unregister_loop fuel ctx err at_head) m
guarded-unlink_body fuel ctx err m =
    guarded-then ctx (unlink_body fuel ctx err at_head) m (free_doomed ctx)
    ∙ ap (and_then (lock ctx m))
        (fun_ext λ u. fun_ext λ m1. run-unlink_body fuel ctx err at_head m1)

-- For a live context whose registry is shorter than `rounds`, the loop of `unregister_error` one
-- access at a time, between the lock and its release, and then the release of the unlinked node if
-- there is one, end well with what is said of `unregister_error`: the lock is free and the context
-- live, its registry lacks the first node for the error and keeps the others in their order, a
-- node that has left the registry has been given back, no other address outside the registry and
-- the context has changed, and nothing is printed.
pub unlink_body-Unregistered :
    (env : Env) {m : Memory} {p : Ptr} {c : Context} {xs : Entries} (err : Ptr)
    → IsContext m p c xs
    → length xs < env.rounds
    → (m' : Memory) × Unregistered m p c err xs m'
      × ((guarded p (unlink_body env.rounds p err at_head) >>= free_doomed p) m ≡ ok tt m')
unfolding unregister_error
unlink_body-Unregistered env {m} {p} err is few =
    let (m', u, run) = unregister_error_lem env err is few in
    let valid : is_valid p m ≡ ok true m = is_valid-At is.at is.magic in
    let behind : unregister_error env p err m
        ≡ (lock p >> unregister_loop env.rounds p err at_head) m =
      rw valid refl in
    (m', u, guarded-unlink_body env.rounds p err m ∙ (sym behind ∙ run))

module _ (p : Ptr) (get : ErrorNode → Ptr) where
  abbrev field : M Ptr
  field = do n ← load_node p; pure (get n)

  field-KeepsLock : (ctx : Ptr) → KeepsLock ctx field
  field-KeepsLock ctx m m' v e h = elim (load_node-cases p m) [
    | inr f ↦ let run : field m ≡ fault = rw f in absurd (cc)
    | inl (a, n, at) ↦
        let run : field m ≡ ok (get n) m = rw (load_node-At at) in
        let same : m ≡ m' = cc in rw (sym same) h
  ]

get_cursor-KeepsLock : (ctx : Ptr) (cursor : Cursor) → KeepsLock ctx (get_cursor ctx cursor)
unfolding get_cursor get_errors
get_cursor-KeepsLock ctx at_head = get_errors-KeepsLock ctx
get_cursor-KeepsLock ctx (at_next p) = field-KeepsLock p (λ n. n.next) ctx

put_cursor-KeepsLock :
    (ctx : Ptr) (cursor : Cursor) (q : Ptr) → KeepsLock ctx (put_cursor ctx cursor q)
unfolding put_cursor set_cursor set_next set_errors
put_cursor-KeepsLock ctx at_head q m m' v e h =
    set_errors-KeepsLock ctx q m m' v (sym (and_then_assoc (load_context ctx m) _ _) ∙ e) h
put_cursor-KeepsLock ctx (at_next p) q m m' v e h =
    set_next-KeepsLock ctx p q m m' v (sym (and_then_assoc (load_node p m) _ _) ∙ e) h

pub unlink_body-Keeps :
    (fuel : ℕ) (ctx err : Ptr) (cursor : Cursor) → Keeps ctx (unlink_body fuel ctx err cursor)
unfolding unlink_body get_error get_next
unlink_body-Keeps zero ctx err cursor = (λ m m' v e h. cc, λ v. tt)
unlink_body-Keeps (suc fuel) ctx err cursor = (
  get_cursor-KeepsLock ctx cursor,
  λ p. elim (Bool-cases (p == null)) [
    | inl z ↦ rw z tt
    | inr n ↦ rw n (
      field-KeepsLock p (λ n. n.error) ctx,
      λ e. elim (Bool-cases (e == err)) [
        | inl found ↦
            rw found (
              field-KeepsLock p (λ n. n.next) ctx,
              λ q. (put_cursor-KeepsLock ctx cursor q, λ v. tt),
            )
        | inr other ↦ rw other (unlink_body-Keeps fuel ctx err (at_next p))
      ],
    )
  ],
)
