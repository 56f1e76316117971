-- ===== src/Error/Placed.antt =====
-- `create_error_internal` up to its cause: the object and its message are in place.
use libgitledger.Prelude.{
  ◌+◌, ◌≡◌, ◌≢◌, sym, ap, ◌∙◌, false, Option, none, some, [], ◌∷◌, ◌++◌, ◌==◌, arith, length,
}
use libgitledger.Text.{Bytes}
use libgitledger.ErrorCode.{Domain, Code}
use libgitledger.Memory.{Ptr, null, Context, ErrorObject, error, bytes, Env, Memory, ok, write}
use libgitledger.Memory.Blocks.{
  block, At, allocated-At, write-allocated, load_error-At, store-At, At-write_self, At-write_ne,
  write-write, ne_of_blocks,
}
use libgitledger.Context.Registry.{
  IsContext-write_ne, Entries, IsContext, is_valid-At, not_in_Nodes,
}
use libgitledger.Context.Registry.Tracking.{alloc_some, IsContext-fresh}
use libgitledger.Error.{
  SourceLocation, Format, with_fields, store_text, link_and_track, create_error,
}
use libgitledger.Error.Creation.{
  allocated_error, format_text, with_error, allocate_error-some, duplicate_format-text,
}

-- The new error, with its message at `s`.
abbrev pub new_error : Ptr → Context → Domain → Code → SourceLocation → (s : Ptr) → ErrorObject
new_error p c domain code location s =
    record (with_fields domain code location (allocated_error p c)) { message = s }

-- The memory with the error at `q` and its message at `s`.
abbrev pub with_message :
    Memory → Ptr → Context → Domain → Code → SourceLocation → (q s : Ptr) → Bytes → Memory
with_message m p c domain code location q s text =
    write
      (write (with_error m p c domain code location q) s
        (some (block c.allocator (bytes (text ++ (0 ∷ []))))))
      q (some (block c.allocator (error (new_error p c domain code location s))))

store_text-some :
    (env : Env) {m : Memory} {p : Ptr} {c : Context} {xs : Entries} (text : Bytes)
    → IsContext m p c xs
    → env.allocate c.allocator (length text + 1) m ≢ null
    → let s = env.allocate c.allocator (length text + 1) m in
      store_text env p text m
      ≡ ok s (write m s (some (block c.allocator (bytes (text ++ (0 ∷ []))))))
unfolding store_text
store_text-some env {m} {c} text is h =
    let s = env.allocate c.allocator (length text + 1) m in
    let there : (s == null) ≡ false = ground arith in
    rw (alloc_some env (length text + 1) is h) (
      rw there (
        rw (store-At _ (allocated-At env c.allocator (length text + 1) m h))
          (ap (ok s) (write-allocated env c.allocator (length text + 1) m _))))

-- The error at `q` and its message at `s` are in place, at addresses that were not in use.
pub record Placed (m : Memory) (p : Ptr) (c : Context) (xs : Entries) (domain : Domain)
    (code : Code) (location : SourceLocation) (text : Bytes) (q s : Ptr) : Type 0 where
  pub unused : m.blocks q ≡ none
  pub q_there : (q == null) ≡ false
  pub s_there : (s == null) ≡ false
  pub q_s : (q == s) ≡ false
  pub q_p : (q == p) ≡ false
  pub s_p : (s == p) ≡ false
  pub s_unused : (with_error m p c domain code location q).blocks s ≡ none
  pub live : IsContext (with_message m p c domain code location q s text) p c xs

module _ (env : Env) {m : Memory} {p : Ptr} {c : Context} {xs : Entries} (domain : Domain)
    (code : Code) (location : SourceLocation) (text : Bytes) (is : IsContext m p c xs) (q : Ptr)
    (e_q : q ≡ env.allocate c.allocator env.sizeof_error m) (q_there : q ≢ null) where
  unused : m.blocks q ≡ none
  unused = rw e_q (env.fresh c.allocator env.sizeof_error m (λ z. q_there (e_q ∙ z)))

  at_q :
      (x : ErrorObject)
      → At (write m q (some (block c.allocator (error x)))) q (block c.allocator (error x))
  at_q x = At-write_self m q _ (ground (arith, q_there))

  with_error-IsContext : IsContext (with_error m p c domain code location q) p c xs
  with_error-IsContext = IsContext-fresh q _ unused is

  module _ (s : Ptr)
      (e_s : s
        ≡ env.allocate c.allocator (length text + 1) (with_error m p c domain code location q))
      (s_there : s ≢ null) where
    free_s : (with_error m p c domain code location q).blocks s ≡ none
    free_s = rw e_s (env.fresh c.allocator (length text + 1) _ (λ z. s_there (e_s ∙ z)))

    q_s : (q == s) ≡ false
    q_s =
        ne_of_blocks (with_error m p c domain code location q) q s
          (at_q (with_fields domain code location (allocated_error p c))).holds free_s (λ e. cc)

    with_message-IsContext : IsContext (with_message m p c domain code location q s text) p c xs
    with_message-IsContext =
        IsContext-write_ne q _ (ne_of_blocks m p q is.at.holds unused (λ e. cc))
          (not_in_Nodes q (λ n e. cc (sym unused ∙ e)) is.nodes)
          (IsContext-fresh s _ free_s with_error-IsContext)

    -- The error is made, and then linked to its cause and registered.
    pub create_error_start :
        (cause : Ptr) (fmt : Option Format)
        → format_text fmt ≡ some text
        → create_error env p domain code cause location fmt m
          ≡ link_and_track env p q cause (with_message m p c domain code location q s text)
    unfolding create_error
    create_error_start cause fmt e_t =
        let fields = with_fields domain code location (allocated_error p c) in
        let there : (q == null) ≡ false = ground (arith, q_there) in
        let s_some : (s == null) ≡ false = ground (arith, s_there) in
        let at' =
          At-write_ne s (some (block c.allocator (bytes (text ++ (0 ∷ []))))) (at_q fields) q_s in
        rw (is_valid-At is.at is.magic) (
          rw (allocate_error-some env is (λ z. q_there (e_q ∙ z))) (
            rw (sym e_q) (
              rw there (
                rw (load_error-At (at_q (allocated_error p c))) (
                  rw (store-At _ (at_q (allocated_error p c))) (
                    rw write-write (
                      rw (duplicate_format-text env p fmt _) (
                        rw e_t (
                          rw
                            (store_text-some env text with_error-IsContext (λ z. s_there (e_s ∙ z)))
                            (rw (sym e_s)
                              (rw s_some (rw (load_error-At at') (rw (store-At _ at'))))))))))))))

    pub placed : Placed m p c xs domain code location text q s
    placed = record {
      unused = unused;
      q_there = ground (arith, q_there);
      s_there = ground (arith, s_there);
      q_s = q_s;
      q_p = ne_of_blocks m q p unused is.at.holds (λ e. cc);
      s_p =
          ne_of_blocks (with_error m p c domain code location q) s p free_s
            with_error-IsContext.at.holds (λ e. cc);
      s_unused = free_s;
      live = with_message-IsContext;
    }
