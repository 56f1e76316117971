-- ===== src/Error/Caused.antt =====
-- `gitledger_error_with_cause_ctx_loc`: a new error that keeps a reference on its cause.
use libgitledger.Prelude.{◌+◌, ◌≡◌, ◌≢◌, sym, ap, ◌∙◌, false, Option, none, some, ◌==◌, length}
use libgitledger.Text.{Bytes}
use libgitledger.ErrorCode.{Domain, Code}
use libgitledger.Memory.{Ptr, null, Context, ErrorObject, error, Env, Memory, ok, write}
use libgitledger.Memory.Blocks.{
  ne_sym, block, At, load_error-At, store-At, At-write_self, At-write_ne, ne_of_blocks,
  blocks-write_ne,
}
use libgitledger.Context.{add_one32}
use libgitledger.Context.Registry.{Entries, IsContext, IsContext-write_ne, not_in_Nodes}
use libgitledger.Context.Registry.Tracking.{registered, register_error_lem}
use libgitledger.Error.{SourceLocation, Format, retain, link_and_track, with_cause_ctx_loc}
use libgitledger.Error.Creation.{format_text, with_error}
use libgitledger.Error.Placed.{new_error, with_message, Placed, placed, create_error_start}
use libgitledger.Error.Created.{
  detached, link_and_track_out_of_memory, Made, registered-At, blocks-registered,
  blocks-with_message, s_new, n_new,
}
use libgitledger.Error.Release.Round.{error_apart}

-- The memory when the cause at `k` has one reference more, and the new error at `q` names it.
abbrev pub with_cause : Memory → Context → (q k : Ptr) → ErrorObject → ErrorObject → Memory
with_cause m c q k e x =
    write
      (write m k (some (block c.allocator (error (record x { refcount = add_one32 x.refcount })))))
      q (some (block c.allocator (error (record e { cause = k }))))

module _ (env : Env) {m : Memory} {p : Ptr} {c : Context} {xs : Entries} (domain : Domain)
    (code : Code) (location : SourceLocation) (text : Bytes) (is : IsContext m p c xs) (q : Ptr)
    (e_q : q ≡ env.allocate c.allocator env.sizeof_error m) (q_there : q ≢ null) (s : Ptr)
    (e_s : s ≡ env.allocate c.allocator (length text + 1) (with_error m p c domain code location q))
    (s_there : s ≢ null) (k : Ptr) {x : ErrorObject}
    (at_k : At m k (block c.allocator (error x))) where
  in_place : Placed m p c xs domain code location text q s
  in_place = placed env domain code location text is q e_q q_there s e_s s_there

  k_q : (k == q) ≡ false
  k_q = ne_of_blocks m k q at_k.holds in_place.unused (λ z. cc)

  k_s : (k == s) ≡ false
  k_s =
      ne_of_blocks (with_error m p c domain code location q) k s (At-write_ne q _ at_k k_q).holds
        in_place.s_unused (λ z. cc)

  -- The memory before the new error is registered.
  abbrev pub linked : Memory
  linked =
      with_cause (with_message m p c domain code location q s text) c q k
        (new_error p c domain code location s) x

  linked-IsContext : IsContext linked p c xs
  linked-IsContext =
      let (k_p, out) = error_apart is at_k in
      IsContext-write_ne q _ (ne_sym q p in_place.q_p)
        (not_in_Nodes q (λ n z. cc (sym in_place.unused ∙ z)) is.nodes)
        (IsContext-write_ne k _ (ne_sym k p k_p) out in_place.live)

  link_cause :
      link_and_track env p q k (with_message m p c domain code location q s text)
      ≡ link_and_track env p q null linked
  unfolding link_and_track retain
  link_cause =
      let at_k' : At (with_message m p c domain code location q s text) k
          (block c.allocator (error x)) =
        At-write_ne q _ (At-write_ne s _ (At-write_ne q _ at_k k_q) k_s) k_q in
      let m_e : Memory = with_message m p c domain code location q s text in
      let e : ErrorObject = new_error p c domain code location s in
      let at_e : At m_e q (block c.allocator (error e)) = At-write_self _ q _ in_place.q_there in
      let kept : ErrorObject = record x { refcount = add_one32 x.refcount } in
      let at_q : At (write m_e k (some (block c.allocator (error kept)))) q
          (block c.allocator (error e)) =
        At-write_ne k _ at_e (ne_sym k q k_q) in
      rw (at_k.not_null) (
        rw (load_error-At at_k')
          (rw (store-At _ at_k') (rw (load_error-At at_q) (rw (store-At _ at_q)))))

  in_linked :
      (r : Ptr)
      → (r == q) ≡ false
      → (r == k) ≡ false
      → linked.blocks r ≡ (with_message m p c domain code location q s text).blocks r
  in_linked r r_q r_k = blocks-write_ne _ q r _ r_q ∙ blocks-write_ne _ k r _ r_k

  at_k_linked :
      At linked k (block c.allocator (error (record x { refcount = add_one32 x.refcount })))
  at_k_linked = At-write_ne q _ (At-write_self _ k _ at_k.not_null) k_q

  pub with_cause_ctx_loc_lem :
      (fmt : Option Format) (n : Ptr)
      → format_text fmt ≡ some text
      → n ≡ env.allocate c.allocator env.sizeof_node linked
      → n ≢ null
      → (m' : Memory) × (with_cause_ctx_loc env p domain code k location fmt m ≡ ok q m')
        × Made m p c xs (record (new_error p c domain code location s) { cause = k }) text q n m'
        × At m' k (block c.allocator (error (record x { refcount = add_one32 x.refcount })))
  unfolding link_and_track with_cause_ctx_loc
  with_cause_ctx_loc_lem fmt n e_t e_n n_there =
      let (run, live, n_free) =
        register_error_lem env q linked-IsContext (λ z. n_there (e_n ∙ z)) in
      let free_n : linked.blocks n ≡ none = ap (λ r. linked.blocks r) e_n ∙ n_free in
      let (k_p, out) = error_apart is at_k in
      let s_q = ne_sym q s in_place.q_s in
      (
        registered linked p c q n,
        create_error_start env domain code location text is q e_q q_there s e_s s_there k fmt e_t
            ∙ (link_cause ∙ rw run (ap (λ r. ok q (registered linked p c q r)) (sym e_n))),
        record {
          live = rw e_n live;
          object = registered-At p c q n (At-write_self _ q _ in_place.q_there) free_n in_place.q_p;
          message =
              registered-At p c q n
                (At-write_ne q _
                  (At-write_ne k _ (At-write_ne q _ (At-write_self _ s _ in_place.s_there) s_q)
                    (ne_sym k s k_s))
                  s_q)
                free_n in_place.s_p;
          new = in_place.unused;
          new_message = s_new env domain code location text is q e_q q_there s e_s s_there;
          new_node = n_new env domain code location text is q e_q q_there s e_s s_there n (
              sym (
                in_linked n
                  (ne_of_blocks linked n q free_n (At-write_self _ q _ in_place.q_there).holds
                    (λ z. cc))
                  (ne_of_blocks linked n k free_n at_k_linked.holds (λ z. cc)))
              ∙ free_n);
          untouched = λ r r_p r_q r_s r_n r_k.
              blocks-registered linked p c q n r r_p r_n
              ∙ (in_linked r r_q r_k
                  ∙ blocks-with_message m p c domain code location q s text r r_q r_s);
        },
        registered-At p c q n (At-write_ne q _ (At-write_self _ k _ at_k.not_null) k_q) free_n k_p,
      )

  -- Without room for the node the new error is detached, but keeps its cause.
  pub with_cause_ctx_loc-Untracked :
      (fmt : Option Format)
      → format_text fmt ≡ some text
      → env.allocate c.allocator env.sizeof_node linked ≡ null
      → let e = record (new_error p c domain code location s) { cause = k } in
        (with_cause_ctx_loc env p domain code k location fmt m ≡ ok q (detached linked p c q e))
        × At
            (detached linked p c q e)
            q
            (block c.allocator (error (record e { ctx = null; ctx_generation = 0 })))
  unfolding with_cause_ctx_loc
  with_cause_ctx_loc-Untracked fmt e_t no_node =
      let at_e : At linked q (
          block c.allocator (error (record (new_error p c domain code location s) { cause = k }))) =
        At-write_self _ q _ in_place.q_there in
      (
        create_error_start env domain code location text is q e_q q_there s e_s s_there k fmt e_t
            ∙ (link_cause ∙ link_and_track_out_of_memory env linked-IsContext at_e no_node),
        At-write_self _ q _ in_place.q_there,
      )
