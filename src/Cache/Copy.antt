-- ===== src/Cache/Copy.antt =====
-- The copies of an error's JSON and of its message.
use libgitledger.Prelude.{
  ◌+◌, ◌≡◌, ◌≢◌, refl, ◌∙◌, false, none, some, [], ◌∷◌, ◌++◌, ◌==◌, arith, length,
}
use libgitledger.Text.{Bytes, c_string}
use libgitledger.Memory.{
  Ptr, null, Allocator, Context, ErrorObject, error, bytes, Env, Memory, ok, write,
}
use libgitledger.Memory.Blocks.{
  block, At, load_error-At, load_bytes-At, store-At, At-write_self, write-write,
}
use libgitledger.Context.Registry.{Entries, IsContext, is_valid-At}
use libgitledger.Context.Registry.Tracking.{alloc_null, IsContext-fresh}
use libgitledger.Error
use libgitledger.Cache.{JsonText, error_json, read_json, copy_text, json_copy, message_copy}
use libgitledger.Cache.Fill.{alloc-write}

-- `m'` is `m` with the text and its NUL in a new block at `k`.
pub record Copied (m : Memory) (p : Ptr) (c : Context) (xs : Entries) (text : Bytes) (k : Ptr)
    (m' : Memory) : Type 0 where
  pub new : m.blocks k ≡ none
  pub changed : m' ≡ write m k (some (block c.allocator (bytes (text ++ (0 ∷ [])))))
  pub live : IsContext m' p c xs

module _ (env : Env) {m : Memory} {p : Ptr} {c : Context} {xs : Entries} (text : Bytes)
    (is : IsContext m p c xs) where
  copy_text-null :
      env.allocate c.allocator (length text + 1) m ≡ null → copy_text env p text m ≡ ok null m
  unfolding copy_text
  copy_text-null h = rw (alloc_null env (length text + 1) is h)

  module _ (k : Ptr) (e_k : k ≡ env.allocate c.allocator (length text + 1) m)
      (there : k ≢ null) where
    abbrev with_copy : Memory
    with_copy = write m k (some (block c.allocator (bytes (text ++ (0 ∷ [])))))

    copy_text-some : copy_text env p text m ≡ ok k with_copy
    unfolding copy_text
    copy_text-some =
        let k_some : (k == null) ≡ false = ground (arith, there) in
        let old : Bytes = env.left_over k (length text + 1) in
        let at : At (write m k (some (block c.allocator (bytes old)))) k
            (block c.allocator (bytes old)) =
          At-write_self m k _ k_some in
        rw (alloc-write env (length text + 1) k is e_k there)
          (rw k_some (rw (store-At _ at) (rw write-write refl)))

    with_copy-Copied : Copied m p c xs text k with_copy
    with_copy-Copied =
        let unused : m.blocks k ≡ none =
          rw e_k (env.fresh c.allocator (length text + 1) m (λ z. there (e_k ∙ z))) in
        record { new = unused; changed = refl; live = IsContext-fresh k _ unused is }

-- A call that leaves the memory `m'` and shows a text is copied there.
module _ (env : Env) {m m' : Memory} {p : Ptr} {c c' : Context} {xs xs' : Entries} (q : Ptr)
    (j : JsonText) (text : Bytes) (is : IsContext m p c xs) (is' : IsContext m' p c' xs')
    (run : error_json env q m ≡ ok j m') (shown : read_json j m' ≡ ok text m') where
  pub json_copy-some :
      (k : Ptr)
      → k ≡ env.allocate c'.allocator (length text + 1) m'
      → k ≢ null
      → (m'' : Memory) × (json_copy env p q m ≡ ok k m'') × Copied m' p c' xs' text k m''
  unfolding json_copy
  json_copy-some k e_k there = (
    with_copy env text is' k e_k there,
    rw (is.at.not_null) (
        rw (is_valid-At is.at is.magic)
          (rw run (rw shown (copy_text-some env text is' k e_k there)))),
    with_copy-Copied env text is' k e_k there,
  )

  pub json_copy-null :
      env.allocate c'.allocator (length text + 1) m' ≡ null → json_copy env p q m ≡ ok null m'
  unfolding json_copy
  json_copy-null h =
      rw (is.at.not_null)
        (rw (is_valid-At is.at is.magic) (rw run (rw shown (copy_text-null env text is' h))))

module _ (env : Env) {m : Memory} {p q s : Ptr} {c : Context} {xs : Entries} {a b : Allocator}
    (e : ErrorObject) (t : Bytes) (is : IsContext m p c xs)
    (at : At m q (block a (error (record e { message = s })))) (at_s : At m s (block b (bytes t)))
    (k : Ptr) (e_k : k ≡ env.allocate c.allocator (length (c_string t) + 1) m)
    (there : k ≢ null) where
  -- For a live context with room for the copy at `k` and an error whose message is in a block,
  -- `message_copy` returns `k`, which was not in use and is the only address that changes; it
  -- holds the message as a C string with its NUL, and the context is live.
  pub message_copy-some :
      (m' : Memory) × (message_copy env p q m ≡ ok k m') × Copied m p c xs (c_string t) k m'
  unfolding message_copy Error.message
  message_copy-some = (
    with_copy env (c_string t) is k e_k there,
    rw (is.at.not_null) (
        rw (at.not_null) (
          rw (is_valid-At is.at is.magic) (
            rw (load_error-At at) (
              rw (at_s.not_null)
                (rw (load_bytes-At at_s) (copy_text-some env (c_string t) is k e_k there)))))),
    with_copy-Copied env (c_string t) is k e_k there,
  )
