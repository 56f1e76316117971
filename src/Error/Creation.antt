-- ===== src/Error/Creation.antt =====
-- What `create_error_internal` does on each of its branches.
use libgitledger.Prelude.{
  ℕ, ◌+◌, ◌≡◌, ◌≢◌, ◌⊎◌, refl, ap, ◌∙◌, false, Option, none, some, [], ◌==◌, arith, length,
  if◌then◌else◌, inl, inr, Bool-cases, Option-cases,
}
use libgitledger.Text.{Bytes}
use libgitledger.ErrorCode.{Domain, Code}
use libgitledger.Memory.{Ptr, null, Context, ErrorObject, error, Block, Env, Memory, ok, write}
use libgitledger.Memory.Blocks.{
  block, At, allocated, allocated-At, write-allocated, load_context-At, load_error-At, store-At,
  call_free-At, At-write_self, write-write, write_same,
}
use libgitledger.Context.{generation_snapshot}
use libgitledger.Context.Registry.{Entries, IsContext, is_valid-At}
use libgitledger.Context.Registry.Tracking.{alloc_null, alloc_some, IsContext-fresh}
use libgitledger.Error.{
  SourceLocation, Format, zeroed_error, store_text, duplicate_format, allocate_error, with_fields,
  create_error,
}

module _ {m : Memory} {p : Ptr} {c : Context} {xs : Entries} (is : IsContext m p c xs) where
  generation_snapshot_lem : generation_snapshot p m ≡ ok c.generation m
  unfolding generation_snapshot
  generation_snapshot_lem = rw (is_valid-At is.at is.magic) (rw (load_context-At is.at))

  allocator_lem : package.libgitledger.Context.allocator p m ≡ ok (some c.allocator) m
  unfolding package.libgitledger.Context.allocator
  allocator_lem = rw (is_valid-At is.at is.magic) (rw (load_context-At is.at))

-- The object that `allocate_error` makes for the context `c` at `p`.
abbrev pub allocated_error : Ptr → Context → ErrorObject
allocated_error p c = record zeroed_error {
  ctx = p;
  ctx_generation = c.generation;
  refcount = 1;
  allocator = c.allocator;
}

-- The bytes of a message, `none` where `vsnprintf` reports an error.
abbrev pub format_text : Option Format → Option Bytes
format_text none = some []
format_text (some f) = if f.is_empty then some [] else f.expand

module _ (env : Env) {m : Memory} {p : Ptr} {c : Context} {xs : Entries}
    (is : IsContext m p c xs) where
  allocate_error-null :
      env.allocate c.allocator env.sizeof_error m ≡ null → allocate_error env p m ≡ ok null m
  unfolding allocate_error
  allocate_error-null h = rw (alloc_null env env.sizeof_error is h)

  allocated-IsContext :
      (size : ℕ)
      → env.allocate c.allocator size m ≢ null
      → IsContext (allocated env c.allocator size m) p c xs
  unfolding allocated
  allocated-IsContext size h = IsContext-fresh _ _ (env.fresh c.allocator size m h) is

  pub allocate_error-some :
      env.allocate c.allocator env.sizeof_error m ≢ null
      → let q = env.allocate c.allocator env.sizeof_error m in
        allocate_error env p m
        ≡ ok q (write m q (some (block c.allocator (error (allocated_error p c)))))
  unfolding allocate_error
  allocate_error-some h =
      let q = env.allocate c.allocator env.sizeof_error m in
      let there : (q == null) ≡ false = ground arith in
      let is' = allocated-IsContext env.sizeof_error h in
      rw (alloc_some env env.sizeof_error is h) (
        rw there (
          rw (generation_snapshot_lem is') (
            rw (allocator_lem is') (
              rw (store-At _ (allocated-At env c.allocator env.sizeof_error m h))
                (ap (ok q) (write-allocated env c.allocator env.sizeof_error m _))))))

-- The memory with the object of the new error at `q`, before its message is made.
abbrev pub with_error : Memory → Ptr → Context → Domain → Code → SourceLocation → (q : Ptr) → Memory
with_error m p c domain code location q =
    write m q
      (some (block c.allocator (error (with_fields domain code location (allocated_error p c)))))

freed_again :
    (m : Memory) (q : Ptr) (x : Option Block) → m.blocks q ≡ none → write (write m q x) q none ≡ m
freed_again m q x h = write-write m q x none ∙ write_same m q none h

pub duplicate_format-text :
    (env : Env) (p : Ptr) (fmt : Option Format) (m : Memory)
    → duplicate_format env p fmt m
      ≡ elim (format_text fmt) [ none ↦ ok null m | some text ↦ store_text env p text m ]
unfolding duplicate_format
duplicate_format-text env p none m = refl
duplicate_format-text env p (some f) m = elim (Bool-cases f.is_empty) [
  | inl e ↦ rw e refl
  | inr e ↦ elim (Option-cases f.expand) [ inl n ↦ rw (e, n) refl | inr (text, t) ↦ rw (e, t) refl ]
]

module _ (env : Env) {m : Memory} {p : Ptr} {c : Context} {xs : Entries}
    (is : IsContext m p c xs) where
  store_text-null :
      (text : Bytes)
      → env.allocate c.allocator (length text + 1) m ≡ null
      → store_text env p text m ≡ ok null m
  unfolding store_text
  store_text-null text h = rw (alloc_null env (length text + 1) is h)

  duplicate_format-null :
      (fmt : Option Format)
      → (format_text fmt ≡ none)
        ⊎ ((text : Bytes) × (format_text fmt ≡ some text)
            × (env.allocate c.allocator (length text + 1) m ≡ null))
      → duplicate_format env p fmt m ≡ ok null m
  duplicate_format-null fmt (inl e) = rw (duplicate_format-text env p fmt m) (rw e)
  duplicate_format-null fmt (inr (text, e, h)) =
      rw (duplicate_format-text env p fmt m) (rw e (store_text-null text h))

  free_error_object :
      {q : Ptr} {e : ErrorObject}
      → At m q (block c.allocator (error e))
      → package.libgitledger.Context.free p q m ≡ ok tt (write m q none)
  unfolding package.libgitledger.Context.free
  free_error_object at_q =
      rw (is_valid-At is.at is.magic)
        (rw (load_context-At is.at) (rw (is.can_free) (rw (at_q.not_null) (call_free-At at_q))))

module _ (env : Env) {m : Memory} {p : Ptr} {c : Context} {xs : Entries} (domain : Domain)
    (code : Code) (cause : Ptr) (location : SourceLocation) (fmt : Option Format)
    (is : IsContext m p c xs) where
  -- For a live context whose allocator has no room for the object of an error, or where the object
  -- has room but the message cannot be formatted or has no room, `create_error` returns NULL, and
  -- the memory is what it was: the object has been given back.
  pub create_error_fails :
      let q = env.allocate c.allocator env.sizeof_error m in
      let m_q = with_error m p c domain code location q in
      (q ≡ null)
        ⊎ ((q ≢ null)
            × ((format_text fmt ≡ none)
                ⊎ ((text : Bytes) × (format_text fmt ≡ some text)
                    × (env.allocate c.allocator (length text + 1) m_q ≡ null))))
      → create_error env p domain code cause location fmt m ≡ ok null m
  unfolding create_error
  create_error_fails (inl h) = rw (is_valid-At is.at is.magic) (rw (allocate_error-null env is h))
  create_error_fails (inr (h, no_message)) = rw (is_valid-At is.at is.magic) (
      rw (allocate_error-some env is h) (
        rw there (
          rw (load_error-At (at_q (allocated_error p c))) (
            rw (store-At _ (at_q (allocated_error p c))) (
              rw write-write (
                rw (duplicate_format-null env is_q fmt no_message) (
                  rw
                    (free_error_object env is_q
                      (at_q (with_fields domain code location (allocated_error p c))))
                    (ap (ok null) (freed_again m q _ unused)))))))))
    where
      q : Ptr
      q = env.allocate c.allocator env.sizeof_error m

      there : (q == null) ≡ false
      there = ground arith

      unused : m.blocks q ≡ none
      unused = env.fresh c.allocator env.sizeof_error m h

      at_q :
          (e : ErrorObject)
          → At (write m q (some (block c.allocator (error e)))) q (block c.allocator (error e))
      at_q e = At-write_self m q _ there

      is_q : IsContext (with_error m p c domain code location q) p c xs
      is_q = IsContext-fresh q _ unused is
