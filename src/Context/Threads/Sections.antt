-- ===== src/Context/Threads/Sections.antt =====
-- The critical sections of `context_register_error` and `context_unregister_error`, access by access,
-- and the functions of the model that take the lock around them.
use libgitledger.Prelude.{
  ◌≡◌, ◌⊎◌, inl, inr, refl, sym, ◌∙◌, true, false, some, ◌==◌, Bool-cases, Option-cases,
}
use libgitledger.Memory.{
  Ptr, null, Allocator, Context, ErrorNode, context, node, error, bytes, Block, read, Memory, M, ok,
  fault, pure, write, load_context, load_node, store, ◌>>=◌, ◌>>◌,
}
use libgitledger.Memory.Blocks.{
  block, At, load_context-At, store-At, At-write_self, At-write_ne, ne_sym, load_node-At,
  ne_of_blocks,
}
use libgitledger.Context.Registry.{entry}
use libgitledger.Context.{link_node}
use libgitledger.Context.Threads.{Body, finish, access, run_body, guarded}
use libgitledger.Context.Threads.Keeps.{
  KeepsLock, Keeps, locked_context, lock_taken, lock_free, locked-write,
}

-- `ctx->errors`, and an assignment to it.
unfoldable pub get_errors : Ptr → M Ptr
get_errors ctx = do c ← load_context ctx; pure c.errors

unfoldable pub set_errors : Ptr → Ptr → M Ptr
set_errors ctx p = do c ← load_context ctx; store ctx (context (record c { errors = p })); pure null

-- `node->next = head`.
unfoldable pub set_next : Ptr → (head : Ptr) → M Ptr
set_next p head = do n ← load_node p; store p (node (record n { next = head })); pure null

-- `node->next = ctx->errors; ctx->errors = node;`
unfoldable pub link_body : Ptr → Ptr → Body
link_body ctx p =
    access (get_errors ctx)
      λ head. access (set_next p head) λ _. access (set_errors ctx p) λ _. finish null

pub get_errors-KeepsLock : (ctx : Ptr) → KeepsLock ctx (get_errors ctx)
unfolding get_errors
get_errors-KeepsLock ctx m m' v e h =
    let (a, c, at, t) = locked_context ctx m h in
    let run : get_errors ctx m ≡ ok c.errors m = rw (load_context-At at) in
    let same : m ≡ m' = cc (sym run ∙ e) in rw (sym same) h

-- A pointer shows a node, or a read of one fails.
pub load_node-cases :
    (p : Ptr) (m : Memory)
    → ((a : Allocator) × (n : ErrorNode) × At m p (block a (node n))) ⊎ (load_node p m ≡ fault)
unfolding load_node read
load_node-cases p m = elim (Bool-cases (p == null)) [
  | inl z ↦ inr (rw z)
  | inr n ↦ elim (Option-cases (m.blocks p)) [
    | inl e ↦ inr (rw n (rw e))
    | inr (b, e) ↦ shown b n e
  ]
]
  where
    shown :
        (b : Block)
        → (p == null) ≡ false
        → m.blocks p ≡ some b
        → ((a : Allocator) × (n : ErrorNode) × At m p (block a (node n))) ⊎ (load_node p m ≡ fault)
    shown b n e =
        elim b.cell
            as (λ x.
              b.cell ≡ x
              → ((a : Allocator) × (n : ErrorNode) × At m p (block a (node n)))
                ⊎ (load_node p m ≡ fault)) [
                  | node x ↦ λ k. inl (
                    b.owner,
                    x,
                    record {
                      not_null = n;
                      holds = e ∙ λ i. some (record { owner = b.owner; cell = k i });
                    },
                  )
                  | context c ↦ λ k. inr (rw n (rw e (rw k)))
                  | error x ↦ λ k. inr (rw n (rw e (rw k)))
                  | bytes x ↦ λ k. inr (rw n (rw e (rw k)))
                ]
          refl

pub set_next-KeepsLock : (ctx p head : Ptr) → KeepsLock ctx (set_next p head)
unfolding set_next
set_next-KeepsLock ctx p head m m' v e h = elim (load_node-cases p m) [
  | inr f ↦ let run : set_next p head m ≡ fault = rw f in absurd (cc)
  | inl (b, n, at) ↦
      let (a, c, at_c, t) = locked_context ctx m h in
      let x : ErrorNode = record n { next = head } in
      let m1 : Memory = write m p (some (block b (node x))) in
      let run : set_next p head m ≡ ok null m1 = rw (load_node-At at) (rw (store-At (node x) at)) in
      let same : m1 ≡ m' = cc in
      rw (sym same) (locked-write ctx p m _ (ne_of_blocks m ctx p at_c.holds at.holds (λ z. cc)) h)
]

pub set_errors-KeepsLock : (ctx p : Ptr) → KeepsLock ctx (set_errors ctx p)
unfolding set_errors
set_errors-KeepsLock ctx p m m' v e h =
    let (a, c, at, t) = locked_context ctx m h in
    let linked : Context = record c { errors = p } in
    let m1 : Memory = write m ctx (some (block a (context linked))) in
    let run : set_errors ctx p m ≡ ok null m1 =
      rw (load_context-At at) (rw (store-At (context linked) at)) in
    let same : m1 ≡ m' = cc in
    rw (sym same) (lock_taken (At-write_self m ctx (block a (context linked)) at.not_null) t)

pub link_body-Keeps : (ctx p : Ptr) → Keeps ctx (link_body ctx p)
unfolding link_body
link_body-Keeps ctx p = (
  get_errors-KeepsLock ctx,
  λ head. (set_next-KeepsLock ctx p head, λ v. (set_errors-KeepsLock ctx p, λ w. tt)),
)

module _ {m : Memory} {ctx p : Ptr} {c : Context} {a b : Allocator} (err next : Ptr)
    (at : At m ctx (block a (context c))) (at_p : At m p (block b (node (entry err next)))) where
  -- Alone, the section does what `link_node` does to a node that names the error.
  pub guarded-link_body : guarded ctx (link_body ctx p) m ≡ (link_node ctx p err >> pure null) m
  unfolding guarded run_body link_body link_node get_errors set_next set_errors
  guarded-link_body = elim (Bool-cases c.locked) [
    | inl t ↦ rw (lock_taken at t)
    | inr f ↦
        let ne : (ctx == p) ≡ false = ne_of_blocks m ctx p at.holds at_p.holds (λ z. cc) in
        let locked : Context = record c { locked = true } in
        let m1 : Memory = write m ctx (some (block a (context locked))) in
        let at1 : At m1 ctx (block a (context locked)) = At-write_self m ctx _ at.not_null in
        let p1 : At m1 p (block b (node (entry err next))) =
          At-write_ne ctx _ at_p (ne_sym ctx p ne) in
        let at2 : At (write m1 p (some (block b (node (entry err c.errors))))) ctx
            (block a (context locked)) =
          At-write_ne p _ at1 ne in
        rw (lock_free at f) (
          rw (load_context-At at1) (
            rw (load_node-At p1)
              (rw (store-At _ p1) (rw (load_context-At at2) (rw (store-At _ at2))))))
  ]
