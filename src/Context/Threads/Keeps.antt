-- ===== src/Context/Threads/Keeps.antt =====
-- Accesses that leave the lock of a context as it is.
use libgitledger.Prelude.{
  ◌≡◌, ◌⊎◌, inl, inr, refl, subst, ◌∙◌, true, false, Option, some, ◌==◌, Bool-cases, Option-cases,
}
use libgitledger.Memory.{
  Ptr, null, Allocator, Context, context, node, error, bytes, Block, Memory, M, ok, fault, blocked,
  write, read, load_context,
}
use libgitledger.Memory.Blocks.{block, At, load_context-At, store-At, At-write_self, At-write_ne}
use libgitledger.Context.{lock}
use libgitledger.Context.Threads.{Body, finish, access}

abbrev pub KeepsLock : Ptr → M Ptr → Type 0
KeepsLock ctx f =
    (m m' : Memory) (v : Ptr) → f m ≡ ok v m' → lock ctx m ≡ blocked → lock ctx m' ≡ blocked

abbrev pub Keeps : Ptr → Body → Type 0
Keeps ctx (finish v) = Unit {0}
Keeps ctx (access f k) = KeepsLock ctx f × ((v : Ptr) → Keeps ctx (k v))

-- A pointer shows a context, or a read of one fails.
pub load_context-cases :
    (p : Ptr) (m : Memory)
    → ((a : Allocator) × (c : Context) × At m p (block a (context c))) ⊎ (load_context p m ≡ fault)
unfolding load_context read
load_context-cases p m = elim (Bool-cases (p == null)) [
  | inl z ↦ inr (rw z)
  | inr n ↦ elim (Option-cases (m.blocks p)) [
    | inl e ↦ inr (rw n (rw e))
    | inr (b, e) ↦ shown b n e
  ]
]
  where
    shown :
        (b : Block)
        → (p == null) ≡ false
        → m.blocks p ≡ some b
        → ((a : Allocator) × (c : Context) × At m p (block a (context c)))
          ⊎ (load_context p m ≡ fault)
    shown b n e =
        elim b.cell
            as (λ x.
              b.cell ≡ x
              → ((a : Allocator) × (c : Context) × At m p (block a (context c)))
                ⊎ (load_context p m ≡ fault)) [
                  | context c ↦ λ k. inl (
                    b.owner,
                    c,
                    record {
                      not_null = n;
                      holds = e ∙ λ i. some (record { owner = b.owner; cell = k i });
                    },
                  )
                  | node x ↦ λ k. inr (rw n (rw e (rw k)))
                  | error x ↦ λ k. inr (rw n (rw e (rw k)))
                  | bytes x ↦ λ k. inr (rw n (rw e (rw k)))
                ]
          refl

lock_fault : (p : Ptr) (m : Memory) → load_context p m ≡ fault → lock p m ≡ fault
unfolding lock
lock_fault p m e = rw e

module _ {p : Ptr} {m : Memory} {a : Allocator} {c : Context}
    (at : At m p (block a (context c))) where
  pub lock_free :
      c.locked ≡ false
      → lock p m ≡ ok tt (write m p (some (block a (context (record c { locked = true })))))
  unfolding lock
  lock_free free = rw (load_context-At at) (rw free (store-At _ at))

  pub lock_taken : c.locked ≡ true → lock p m ≡ blocked
  unfolding lock
  lock_taken taken = rw (load_context-At at) (rw taken)

-- Who finds the lock held finds a context that is locked.
pub locked_context :
    (p : Ptr) (m : Memory)
    → lock p m ≡ blocked
    → (a : Allocator) × (c : Context) × At m p (block a (context c)) × (c.locked ≡ true)
locked_context p m h = elim (load_context-cases p m) [
  | inr e ↦ absurd (cc (lock_fault p m e))
  | inl (a, c, at) ↦ elim (Bool-cases c.locked) [
    | inl t ↦ (a, c, at, t)
    | inr f ↦ absurd (cc (lock_free at f))
  ]
]

-- Who takes the lock leaves it held.
pub lock-lock : (p : Ptr) (m m' : Memory) → lock p m ≡ ok tt m' → lock p m' ≡ blocked
lock-lock p m m' h = elim (load_context-cases p m) [
  | inr e ↦ absurd (cc (lock_fault p m e))
  | inl (a, c, at) ↦ elim (Bool-cases c.locked) [
    | inl t ↦ absurd (cc (lock_taken at t))
    | inr f ↦
        let taken : Memory = write m p (some (block a (context (record c { locked = true })))) in
        let same : taken ≡ m' = cc (lock_free at f) in
        subst (λ n. lock p n ≡ blocked) same (lock_taken (At-write_self m p _ at.not_null) refl)
  ]
]

-- A write elsewhere leaves the lock as it is.
pub locked-write :
    (p q : Ptr) (m : Memory) (x : Option Block)
    → (p == q) ≡ false
    → lock p m ≡ blocked
    → lock p (write m q x) ≡ blocked
locked-write p q m x ne h =
    let (a, c, at, t) = locked_context p m h in lock_taken (At-write_ne q x at ne) t
