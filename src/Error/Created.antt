-- ===== src/Error/Created.antt =====
-- What `gitledger_error_create_ctx_loc` makes of the object and its message.
use libgitledger.Prelude.{
  ◌+◌, ◌≡◌, ◌≢◌, sym, ap, ◌∙◌, false, Option, none, some, [], ◌∷◌, ◌++◌, ◌==◌, length,
}
use libgitledger.Text.{Bytes}
use libgitledger.ErrorCode.{Domain, Code}
use libgitledger.Memory.{
  Ptr, null, Context, ErrorObject, register_failed, error, bytes, Block, Env, Memory, ok, write,
}
use libgitledger.Memory.Blocks.{
  ne_sym, block, At, load_error-At, store-At, At-write_self, At-write_ne, ne_of_blocks,
  blocks-write_ne,
}
use libgitledger.Context.{detach_context}
use libgitledger.Context.Registry.{
  IsContext-write_ne, IsContext-stderr, Entries, IsContext, not_in_Nodes,
}
use libgitledger.Context.Registry.Tracking.{
  registered, register_error_lem, register_error_out_of_memory,
}
use libgitledger.Error.{SourceLocation, Format, link_and_track, create_ctx_loc}
use libgitledger.Error.Creation.{format_text, with_error}
use libgitledger.Error.Placed.{new_error, with_message, Placed, placed, create_error_start}

-- A new error at `q` in the memory `m'`, with its message at `s`, is whole and registered in the
-- node `n`; its address was not in use before.
pub record Made (m : Memory) (p : Ptr) (c : Context) (xs : Entries) (e : ErrorObject) (text : Bytes)
    (q n : Ptr) (m' : Memory) : Type 0 where
  pub live : IsContext m' p (record c { errors = n }) ((n, q) ∷ xs)
  pub object : At m' q (block c.allocator (error e))
  pub message : At m' e.message (block c.allocator (bytes (text ++ (0 ∷ []))))
  pub new : m.blocks q ≡ none
  pub new_message : m.blocks e.message ≡ none
  pub new_node : m.blocks n ≡ none
  pub untouched :
      (r : Ptr)
      → (r == p) ≡ false
      → (r == q) ≡ false
      → (r == e.message) ≡ false
      → (r == n) ≡ false
      → (r == e.cause) ≡ false
      → m'.blocks r ≡ m.blocks r

pub registered-At :
    {m : Memory} (p : Ptr) (c : Context) {r : Ptr} {b : Block} (err n : Ptr)
    → At m r b
    → m.blocks n ≡ none
    → (r == p) ≡ false
    → At (registered m p c err n) r b
unfolding registered
registered-At {m} p c {r} err n at free apart =
    At-write_ne p _ (At-write_ne n _ at (ne_of_blocks m r n at.holds free (λ e. cc))) apart

pub blocks-registered :
    (m : Memory) (p : Ptr) (c : Context) (err n r : Ptr)
    → (r == p) ≡ false
    → (r == n) ≡ false
    → (registered m p c err n).blocks r ≡ m.blocks r
unfolding registered
blocks-registered m p c err n r r_p r_n = blocks-write_ne _ p r _ r_p ∙ blocks-write_ne m n r _ r_n

-- The object and its message are all that is new in the memory.
pub blocks-with_message :
    (m : Memory) (p : Ptr) (c : Context) (domain : Domain) (code : Code) (location : SourceLocation)
    (q s : Ptr) (text : Bytes) (r : Ptr)
    → (r == q) ≡ false
    → (r == s) ≡ false
    → (with_message m p c domain code location q s text).blocks r ≡ m.blocks r
blocks-with_message m p c domain code location q s text r r_q r_s =
    blocks-write_ne _ q r _ r_q ∙ (blocks-write_ne _ s r _ r_s ∙ blocks-write_ne m q r _ r_q)

-- An error at `q` that could not be registered: it is whole, but belongs to no context.
pub record Untracked (m : Memory) (p : Ptr) (c : Context) (xs : Entries) (e : ErrorObject)
    (text : Bytes) (q : Ptr) (m' : Memory) : Type 0 where
  pub live : IsContext m' p c xs
  pub object : At m' q (block c.allocator (error (record e { ctx = null; ctx_generation = 0 })))
  pub message : At m' e.message (block c.allocator (bytes (text ++ (0 ∷ []))))
  pub new : m.blocks q ≡ none

-- The memory when the error `e` at `q` could not be registered.
abbrev pub detached : Memory → Ptr → Context → (q : Ptr) → ErrorObject → Memory
detached m p c q e =
    write (record m { stderr = m.stderr ++ (register_failed p q ∷ []) }) q
      (some (block c.allocator (error (record e { ctx = null; ctx_generation = 0 }))))

pub link_and_track_out_of_memory :
    (env : Env) {m : Memory} {p : Ptr} {c : Context} {xs : Entries} {q : Ptr} {e : ErrorObject}
    → IsContext m p c xs
    → At m q (block c.allocator (error e))
    → env.allocate c.allocator env.sizeof_node m ≡ null
    → link_and_track env p q null m ≡ ok q (detached m p c q e)
unfolding link_and_track detach_context
link_and_track_out_of_memory env {m} {p} {c} {q} {e} is at no_node =
    let m_d : Memory = record m { stderr = m.stderr ++ (register_failed p q ∷ []) } in
    let at_d : At m_d q (block c.allocator (error e)) = record {
      not_null = at.not_null;
      holds = at.holds;
    } in
    rw (register_error_out_of_memory env q is no_node)
      (rw (at.not_null) (rw (load_error-At at_d) (rw (store-At _ at_d))))

module _ (env : Env) {m : Memory} {p : Ptr} {c : Context} {xs : Entries} (domain : Domain)
    (code : Code) (location : SourceLocation) (text : Bytes) (is : IsContext m p c xs) (q : Ptr)
    (e_q : q ≡ env.allocate c.allocator env.sizeof_error m) (q_there : q ≢ null) (s : Ptr)
    (e_s : s ≡ env.allocate c.allocator (length text + 1) (with_error m p c domain code location q))
    (s_there : s ≢ null) where
  in_place : Placed m p c xs domain code location text q s
  in_place = placed env domain code location text is q e_q q_there s e_s s_there

  message_At :
      At
        (with_message m p c domain code location q s text)
        s
        (block c.allocator (bytes (text ++ (0 ∷ []))))
  message_At = At-write_ne q _ (At-write_self _ s _ in_place.s_there) (ne_sym q s in_place.q_s)

  in_message :
      (r : Ptr)
      → (r == q) ≡ false
      → (r == s) ≡ false
      → (with_message m p c domain code location q s text).blocks r ≡ m.blocks r
  in_message r r_q r_s = blocks-with_message m p c domain code location q s text r r_q r_s

  pub s_new : m.blocks s ≡ none
  s_new = sym (blocks-write_ne m q s _ (ne_sym q s in_place.q_s)) ∙ in_place.s_unused

  -- An address that is not in use when the message is there was not in use before.
  pub n_new :
      (n : Ptr)
      → (with_message m p c domain code location q s text).blocks n ≡ none
      → m.blocks n ≡ none
  n_new n free =
      let m_e = with_message m p c domain code location q s text in
      let at_q : At m_e q (block c.allocator (error (new_error p c domain code location s))) =
        At-write_self _ q _ in_place.q_there in
      sym (
        in_message n (ne_of_blocks m_e n q free at_q.holds (λ z. cc))
          (ne_of_blocks m_e n s free message_At.holds (λ z. cc)))
      ∙ free

  pub create_ctx_loc_lem :
      (fmt : Option Format) (n : Ptr)
      → format_text fmt ≡ some text
      → n
        ≡ env.allocate c.allocator env.sizeof_node
            (with_message m p c domain code location q s text)
      → n ≢ null
      → (m' : Memory) × (create_ctx_loc env p domain code location fmt m ≡ ok q m')
        × Made m p c xs (new_error p c domain code location s) text q n m'
  unfolding link_and_track create_ctx_loc
  create_ctx_loc_lem fmt n e_t e_n n_there =
      let m_e = with_message m p c domain code location q s text in
      let (run, live, n_free) = register_error_lem env q in_place.live (λ z. n_there (e_n ∙ z)) in
      let free_n : m_e.blocks n ≡ none = ap (λ r. m_e.blocks r) e_n ∙ n_free in
      (
        registered m_e p c q n,
        create_error_start env domain code location text is q e_q q_there s e_s s_there null fmt e_t
            ∙ rw run (ap (λ r. ok q (registered m_e p c q r)) (sym e_n)),
        record {
          live = rw e_n live;
          object = registered-At p c q n (At-write_self _ q _ in_place.q_there) free_n in_place.q_p;
          message = registered-At p c q n message_At free_n in_place.s_p;
          new = in_place.unused;
          new_message = s_new;
          new_node = n_new n free_n;
          untouched = λ r r_p r_q r_s r_n r_k.
              blocks-registered m_e p c q n r r_p r_n ∙ in_message r r_q r_s;
        },
      )

  -- For a live context whose allocator has room for the object at `q` and for the formatted
  -- message at `s`, but not for the node, `create_ctx_loc` still returns `q` with the error and
  -- its message, but the error is detached: its context is NULL and its generation 0, and the
  -- context is live with the registry that it had.
  pub create_ctx_loc-Untracked :
      (fmt : Option Format)
      → format_text fmt ≡ some text
      → env.allocate c.allocator env.sizeof_node (with_message m p c domain code location q s text)
        ≡ null
      → (m' : Memory) × (create_ctx_loc env p domain code location fmt m ≡ ok q m')
        × Untracked m p c xs (new_error p c domain code location s) text q m'
  unfolding create_ctx_loc
  create_ctx_loc-Untracked fmt e_t no_node =
      let m_e = with_message m p c domain code location q s text in
      let e = new_error p c domain code location s in
      let q_some = in_place.q_there in
      let at_e : At m_e q (block c.allocator (error e)) = At-write_self _ q _ q_some in
      (
        detached m_e p c q e,
        create_error_start env domain code location text is q e_q q_there s e_s s_there null fmt e_t
            ∙ link_and_track_out_of_memory env in_place.live at_e no_node,
        record {
          live =
              IsContext-write_ne q _ (ne_sym q p in_place.q_p)
                (not_in_Nodes q (λ n z. cc (sym in_place.unused ∙ z)) is.nodes)
                (IsContext-stderr (m_e.stderr ++ (register_failed p q ∷ [])) in_place.live);
          object = At-write_self _ q _ q_some;
          message =
              At-write_ne q _ (record { not_null = message_At.not_null; holds = message_At.holds })
                (ne_sym q s in_place.q_s);
          new = in_place.unused;
        },
      )
