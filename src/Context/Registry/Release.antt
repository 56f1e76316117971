-- ===== src/Context/Registry/Release.antt =====
-- Reference counts of contexts, their lock, and releases that do not destroy.
use libgitledger.Prelude.{
  ℕ, ◌+◌, ◌-◌, ◌^◌, ◌<◌, ◌≡◌, refl, ap, ◌∙◌, true, false, not, some, Option, ◌⊎◌, inl, inr, [], ◌∷◌,
  ◌++◌, ◌==◌, arith, length, take, if◌then◌else◌, ltb,
}
use libgitledger.Text.{pos}
use libgitledger.Memory.{
  Ptr, null, Context, Block, Env, context, live_errors, Memory, ok, aborted, write, pure,
  print_error,
}
use libgitledger.Memory.Blocks.{
  At, block, load_context-At, store-At, At-write_self, memory_path, write-write, write_same,
}
use libgitledger.Context.{
  add_one32, sub_one32, lock, unlock, live_error_count, count_errors_locked, live_errors_text,
  diag_buf, debug_log_live_errors, refuse, destroy, try_release, retain,
}
use libgitledger.Context.Registry.{
  Entries, IsContext, Nodes, nil, cons, IsContext-Nodes, IsContext-counters, some_errors,
  is_valid-At, count_loop_lem,
}

-- The memory with the context `c` at `p`.
abbrev pub with_context : Memory → Ptr → Context → Memory
with_context m p c = write m p (some (block c.allocator (context c)))

module _ {m : Memory} {p : Ptr} {c : Context} (at : At m p (block c.allocator (context c))) where
  pub lock_lem : c.locked ≡ false → lock p m ≡ ok tt (with_context m p (record c { locked = true }))
  unfolding lock
  lock_lem free = rw (load_context-At at) (rw free (store-At _ at))

  pub unlock_lem : unlock p m ≡ ok tt (with_context m p (record c { locked = false }))
  unfolding unlock
  unlock_lem = rw (load_context-At at) (store-At _ at)

-- Setting a lock and clearing it again restores the context.
pub unlocked_same :
    (m : Memory) (p : Ptr) (c d : Context)
    → m.blocks p ≡ some (block c.allocator (context c))
    → c.locked ≡ false
    → write
        (with_context m p d)
        p
        (some (block c.allocator (context (record c { locked = false }))))
      ≡ m
unlocked_same m p c d h e =
    write-write m p _ _
    ∙ write_same m p _ (h ∙ λ i. some (block c.allocator (context (record c { locked = e i }))))

count_under_lock :
    (env : Env) {m : Memory} {p : Ptr} {c : Context} {xs : Entries}
    → At m p (block c.allocator (context c))
    → Nodes m c.allocator c.errors xs
    → length xs < env.rounds
    → (if c.errors == null then pure 0 else count_errors_locked env p) m ≡ ok (length xs) m
unfolding count_errors_locked
count_under_lock env at (nil z) few = rw z
count_under_lock env at (cons {xs} h d ns) few =
    rw h.not_null
      (rw (load_context-At at) (count_loop_lem env.rounds 0 (cons h d ns) few ∙ ground arith))

module _ (env : Env) {m : Memory} {p : Ptr} {c : Context} {xs : Entries} (is : IsContext m p c xs)
    (few : length xs < env.rounds) where
  -- For a live context whose registry is shorter than `rounds`, `live_error_count` returns whether
  -- there are errors and the length of the registry, and restores the memory with the lock free.
  pub live_error_count_lem : live_error_count env p m ≡ ok (not (c.errors == null), length xs) m
  unfolding live_error_count
  live_error_count_lem =
      let locked : Context = record c { locked = true } in
      let at = At-write_self m p (block c.allocator (context locked)) is.at.not_null in
      rw (lock_lem is.at is.unlocked) (
        rw (load_context-At at) (
          rw (count_under_lock env at (IsContext-Nodes _ is) few) (
            rw (unlock_lem at) (
              ap (ok (not (c.errors == null), length xs))
                (unlocked_same m p c locked is.at.holds is.unlocked)))))

-- What a refused destruction has printed.
abbrev pub with_diagnostic : Memory → ℕ → Memory
with_diagnostic m n = record m {
  stderr =
      m.stderr
      ++ (live_errors (
            take
              (if ltb (length (live_errors_text n)) diag_buf
                then length (live_errors_text n)
                else diag_buf - 1)
              (live_errors_text n))
          ∷ []);
}

debug_log_lem :
    (n : ℕ) (m : Memory)
    → (n == 0) ≡ false
    → debug_log_live_errors n m ≡ ok tt (with_diagnostic m n)
unfolding debug_log_live_errors print_error
debug_log_lem n m h = rw h

restored :
    (m : Memory) (p : Ptr) (x y : Option Block) (n : ℕ)
    → m.blocks p ≡ y
    → write (with_diagnostic (write m p x) n) p y ≡ with_diagnostic m n
unfolding write
restored m p x y n h = memory_path (λ q. ground arith) refl

-- The count of a last reference falls to 0 before `context_destroy` runs.
abbrev pub unreferenced : Context → Context
unreferenced c = record c { refcount = 0 }

pub last_reference :
    (env : Env) {m : Memory} {p : Ptr} {c : Context} {xs : Entries}
    → IsContext m p c xs
    → c.refcount ≡ 1
    → try_release env p m ≡ destroy env p (with_context m p (unreferenced c))
unfolding try_release
last_reference env is last =
    rw (is_valid-At is.at is.magic) (rw (load_context-At is.at) (rw (store-At _ is.at) (rw last)))

module _ (env : Env) {m : Memory} {p : Ptr} {c : Context} {x : Ptr × Ptr} {xs : Entries}
    (is : IsContext m p c (x ∷ xs)) (few : length (x ∷ xs) < env.rounds) where
  refused : destroy env p m ≡ refuse env p (length (x ∷ xs)) m
  unfolding destroy
  refused = rw (live_error_count_lem env is few) (rw (some_errors is))

  logged :
      (env.debug ≡ true) ⊎ (env.debug ≡ false)
      → refuse env p (length (x ∷ xs)) m ≡ (
          if env.debug
          then aborted
          else ok (pos 0) (
              write (with_diagnostic m (length (x ∷ xs))) p (
                some (block c.allocator (context (record c { refcount = add_one32 c.refcount }))))))
  unfolding refuse
  logged d =
      let some_live : (length (x ∷ xs) == 0) ≡ false = ground arith in
      let at : At (with_diagnostic m (length (x ∷ xs))) p (block c.allocator (context c)) = record {
        not_null = is.at.not_null;
        holds = is.at.holds;
      } in
      rw (debug_log_lem (length (x ∷ xs)) m some_live)
        (elim d [ inl e ↦ rw e | inr e ↦ rw e (rw (load_context-At at) (rw (store-At _ at))) ])

module _ (env : Env) {m : Memory} {p : Ptr} {c : Context} {x : Ptr × Ptr} {xs : Entries}
    (is : IsContext m p c (x ∷ xs)) (few : length (x ∷ xs) < env.rounds)
    (last : c.refcount ≡ 1) where
  -- For a live context whose registry is not empty and shorter than `rounds`, and whose reference
  -- count is 1, `try_release` in a debug build aborts.
  pub try_release_abort : env.debug ≡ true → try_release env p m ≡ aborted
  try_release_abort debug =
      last_reference env is last
      ∙ refused env (IsContext-counters _ 0 is) few
      ∙ logged env (IsContext-counters _ 0 is) few (inl debug)
      ∙ rw debug

  -- For a live context whose registry is not empty and shorter than `rounds`, and whose reference
  -- count is 1, `try_release` in a release build returns 0 and restores the memory, its reference
  -- count included; all that it adds is one diagnostic on stderr with the number of live errors.
  pub try_release_refuse :
      env.debug ≡ false → try_release env p m ≡ ok (pos 0) (with_diagnostic m (length (x ∷ xs)))
  try_release_refuse release =
      last_reference env is last
      ∙ refused env (IsContext-counters _ 0 is) few
      ∙ logged env (IsContext-counters _ 0 is) few (inr release)
      ∙ rw release (
          ap (ok (pos 0)) (
            restored m p _ _ (length (x ∷ xs)) (
              is.at.holds ∙ λ i.
              some (block c.allocator (context (record c { refcount = last i }))))))

module _ (env : Env) {m : Memory} {p : Ptr} {c : Context} {xs : Entries}
    (is : IsContext m p c xs) where
  -- For a live context with a reference count above 1 that fits 32 bits, `try_release` returns 0
  -- and lowers the count by one, and changes nothing else.
  pub try_release_shared :
      1 < c.refcount
      → c.refcount < 2 ^ 32
      → try_release env p m ≡ ok (pos 0) (with_context m p (record c { refcount = c.refcount - 1 }))
  unfolding try_release
  try_release_shared more fits =
      let several : (c.refcount == 1) ≡ false = ground arith in
      let less : sub_one32 c.refcount ≡ c.refcount - 1 = omega arith in
      rw (is_valid-At is.at is.magic)
        (rw (load_context-At is.at) (rw (store-At _ is.at) (rw several (rw less))))

  -- Retaining adds one reference, short of the counter's range.
  pub retain_lem :
      c.refcount + 1 < 2 ^ 32
      → retain p m ≡ ok tt (with_context m p (record c { refcount = c.refcount + 1 }))
  unfolding retain
  retain_lem fits =
      let more : add_one32 c.refcount ≡ c.refcount + 1 = omega arith in
      rw (is_valid-At is.at is.magic) (rw (load_context-At is.at) (rw more (store-At _ is.at)))
