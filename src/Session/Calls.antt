-- ===== src/Session/Calls.antt =====
-- Making errors in a session: `gitledger_error_create_ctx_loc`, and
-- `gitledger_error_with_cause_ctx_loc` on a cause that the callers hold.
use libgitledger.Prelude.{
  ℕ, ◌+◌, ◌^◌, ◌<◌, ◌≡◌, ◌≢◌, ◌⊎◌, refl, sym, ap, subst, ◌∙◌, true, false, Option, none, some, List,
  ◌∷◌, ◌==◌, ==_iff, arith, inl, inr, Bool-cases, Option-cases, length,
}
use libgitledger.Prelude.Insert.{Insert}
use libgitledger.Text.{Bytes}
use libgitledger.ErrorCode.{Domain, Code}
use libgitledger.Memory.{Ptr, null, Context, ErrorObject, error, Env, Memory, Run, ok}
use libgitledger.Memory.Blocks.{block, At, At-write_self, blocks-write_ne}
use libgitledger.Context.{add_one32}
use libgitledger.Context.Registry.{some_errors}
use libgitledger.Error.{SourceLocation, Format, create_error, create_ctx_loc, with_cause_ctx_loc}
use libgitledger.Error.Creation.{format_text, with_error, create_error_fails}
use libgitledger.Error.Placed.{new_error, with_message}
use libgitledger.Error.Created.{Made, create_ctx_loc_lem, create_ctx_loc-Untracked}
use libgitledger.Error.Caused.{linked, with_cause_ctx_loc_lem, with_cause_ctx_loc-Untracked}
use libgitledger.Error.Release.Causes.{among}
use libgitledger.Session.{Item, held, registry, parts_of, effects, Session, Stored}
use libgitledger.Session.Items.{present-Insert}
use libgitledger.Session.Adjust.{plus, known, at_count, adjusted, Stored-adjust, among_ne}
use libgitledger.Session.Taken.{take_out, Stored-same}
use libgitledger.Session.Last.{among-apart}
use libgitledger.Session.Make.{item, new_apart, Made-Session}

-- The ways a call that makes an error of the cause `k` can end: with NULL and the memory as it was;
-- with an error that joins the session and has one reference, the caller's; with an error that
-- belongs to no context, since it could not be registered.
pub data Outcome (base m : Memory) (p : Ptr) (c : Context) (hands : Ptr → ℕ) (ys : List Item)
    (k : Ptr) : Run Ptr → Type 0 where
  refused : Outcome base m p c hands ys k (ok null m)
  joined :
      {q n : Ptr} {e : ErrorObject} {m' : Memory}
      → e.ctx ≡ p
      → e.cause ≡ k
      → At m' q (block c.allocator (error e))
      → Session base m' p c (plus q hands) (item q n e ∷ ys)
      → Outcome base m p c hands ys k (ok q m')
  outside :
      {q : Ptr} {e : ErrorObject} {m' : Memory}
      → e.ctx ≡ null
      → At m' q (block c.allocator (error e))
      → Outcome base m p c hands ys k (ok q m')

-- The blocks of the other errors are as they were, but for the cause.
Made-same :
    {base m m' : Memory} {p : Ptr} {c : Context} {hands : Ptr → ℕ} {ys : List Item}
    {e : ErrorObject} {text : Bytes} {q n : Ptr} (s : Session base m p c hands ys)
    → Made m p (record c { errors = s.first; locked = false }) (registry ys) e text q n m'
    → (r : Ptr) → (r == null) ≡ false
    → among r (parts_of ys) ≡ true
    → (r == e.cause) ≡ false
    → m'.blocks r ≡ m.blocks r
Made-same {ys} {e} {q} {n} s made r h there apart =
    let (r_p, out) = among-apart s.live s.stored r there in
    made.untouched r r_p
      (among_ne r q ys there (new_apart q made.object.not_null made.new s.stored))
      (among_ne r e.message ys there
        (new_apart e.message made.message.not_null made.new_message s.stored))
      (among_ne r n ys there (new_apart n (some_errors made.live) made.new_node s.stored)) apart

module _ (env : Env) {base m : Memory} {p : Ptr} {c : Context} {hands : Ptr → ℕ} {ys : List Item}
    (s : Session base m p c hands ys) (domain : Domain) (code : Code) (location : SourceLocation)
    (fmt : Option Format) where
  abbrev live_context : Context
  live_context = record c { errors = s.first; locked = false }

  abbrev q : Ptr
  q = env.allocate c.allocator env.sizeof_error m

  abbrev message_at : Bytes → Ptr
  message_at text =
      env.allocate c.allocator (length text + 1)
        (with_error m p live_context domain code location q)

  -- Where there is room for the object and the message, `rest` says how the call ends.
  begin_Outcome :
      (k : Ptr)
      → ((text : Bytes)
          → format_text fmt ≡ some text
          → q ≢ null
          → message_at text ≢ null
          → Outcome base m p c hands ys k (create_error env p domain code k location fmt m))
      → Outcome base m p c hands ys k (create_error env p domain code k location fmt m)
  begin_Outcome k rest = elim (Bool-cases (q == null)) [
    | inl z ↦ none_made (inl (ground (arith, z)))
    | inr q_some ↦ elim (Option-cases (format_text fmt)) [
      | inl e ↦ none_made (inr (ground (arith, q_some), inl e))
      | inr (text, e) ↦ elim (Bool-cases (message_at text == null)) [
        | inl z ↦ none_made (inr (ground (arith, q_some), inr (text, e, ground (arith, z))))
        | inr s_some ↦ rest text e (ground (arith, q_some)) (ground (arith, s_some))
      ]
    ]
  ]
    where
      none_made :
          (q ≡ null)
            ⊎ ((q ≢ null)
                × ((format_text fmt ≡ none)
                    ⊎ ((text : Bytes) × (format_text fmt ≡ some text) × (message_at text ≡ null))))
          → Outcome base m p c hands ys k (create_error env p domain code k location fmt m)
      none_made h =
          subst (Outcome base m p c hands ys k)
            (sym (create_error_fails env domain code k location fmt s.live h)) refused

  create_joined :
      {text : Bytes} {q_new n s_new : Ptr} {m' : Memory}
      → Made m p live_context
          (registry ys)
          (new_error p live_context domain code location s_new)
          text
          q_new
          n
          m'
      → Session base m' p c
          (plus q_new hands)
          (item q_new n (new_error p live_context domain code location s_new) ∷ ys)
  create_joined made =
      Made-Session s made s.count
        (Stored-same (λ r h k. Made-same s made r h k h) (λ r k. refl) s.stored) refl refl
        (λ r h. ground (arith, h)) s.absent (inl refl)

  -- In any session, whatever the allocator answers, `create_ctx_loc` returns NULL and changes
  -- nothing, or returns a new error that joins the session with no cause and one reference, the
  -- caller's, or returns an error that has no context.
  pub create_ctx_loc-Outcome :
      Outcome base m p c hands ys null (create_ctx_loc env p domain code location fmt m)
  unfolding create_ctx_loc
  create_ctx_loc-Outcome = begin_Outcome null (λ text e_t q_there s_there.
      let s_at = message_at text in
      let m_e = with_message m p live_context domain code location q s_at text in
      let n = env.allocate c.allocator env.sizeof_node m_e in
      elim (Bool-cases (n == null)) [
        | inl z ↦
            let (m', run, made) =
              create_ctx_loc-Untracked env domain code location text s.live q refl q_there s_at refl
                s_there fmt e_t (ground (arith, z)) in
            subst (Outcome base m p c hands ys null) (sym run) (outside refl made.object)
        | inr n_some ↦
            let (m', run, made) =
              create_ctx_loc_lem env domain code location text s.live q refl q_there s_at refl
                s_there fmt n e_t refl (ground (arith, n_some)) in
            subst (Outcome base m p c hands ys null) (sym run)
              (joined refl refl made.object (create_joined made))
      ])

  -- The others when the cause has one reference more.
  module _ {x : Item} {xs : List Item} (i : Insert x xs ys)
      (room : s.count x.object + 1 < 2 ^ 32) where
    wrap-Stored :
        {text : Bytes} {q_new n s_new : Ptr} {m' : Memory}
        → Made m p live_context
            (registry ys)
            (record (new_error p live_context domain code location s_new) { cause = x.object })
            text
            q_new
            n
            m'
        → At m' x.object
            (block c.allocator (error (held p c.allocator x (add_one32 (s.count x.object)))))
        → Stored m' p c.allocator (at_count s.count x.object (s.count x.object + 1)) ys
    wrap-Stored {m'} made at_k =
        let t = take_out i s.stored in
        let more : add_one32 (s.count x.object) ≡ s.count x.object + 1 = omega arith in
        Stored-same
          (λ r h there. elim (Bool-cases (r == x.object)) [
            | inl e ↦
                let z : r ≡ x.object = (==_iff r x.object).0 e in
                let holds =
                  At-write_self m x.object
                    (block c.allocator (error (held p c.allocator x (s.count x.object + 1))))
                    t.at.not_null in
                ap m'.blocks z
                ∙ (at_k.holds
                    ∙ (rw more (sym holds.holds)
                        ∙ sym (ap (adjusted m p c.allocator (s.count x.object + 1) x).blocks z)))
            | inr other ↦
                Made-same s made r h there other ∙ sym (blocks-write_ne m x.object r _ other)
          ])
          (λ r k. refl) (Stored-adjust (s.count x.object + 1) (omega arith) room i s.stored)

    wrap_joined :
        {text : Bytes} {q_new n s_new : Ptr} {m' : Memory}
        → Made m p live_context
            (registry ys)
            (record (new_error p live_context domain code location s_new) { cause = x.object })
            text
            q_new
            n
            m'
        → At m' x.object
            (block c.allocator (error (held p c.allocator x (add_one32 (s.count x.object)))))
        → Session base m' p c (plus q_new hands) (
            item q_new n
              (record (new_error p live_context domain code location s_new) { cause = x.object })
            ∷ ys)
    wrap_joined made at_k =
        Made-Session s made (at_count s.count x.object (s.count x.object + 1))
          (wrap-Stored made at_k) refl refl (λ r h. ground arith)
          (λ r h. ground (arith, h, s.absent r, present-Insert r i))
          (inr (ground (arith, present-Insert x.object i)))

    wrap_item :
        Outcome base m p c hands ys x.object
          (with_cause_ctx_loc env p domain code x.object location fmt m)
    unfolding with_cause_ctx_loc
    wrap_item = begin_Outcome x.object (λ text e_t q_there s_there.
        let t = take_out i s.stored in
        let s_at = message_at text in
        let n = env.allocate c.allocator env.sizeof_node (
          linked env domain code location text s.live q refl q_there s_at refl s_there x.object
            t.at) in
        elim (Bool-cases (n == null)) [
          | inl z ↦
              let (run, at) =
                with_cause_ctx_loc-Untracked env domain code location text s.live q refl q_there
                  s_at refl s_there x.object t.at fmt e_t (ground (arith, z)) in
              subst (Outcome base m p c hands ys x.object) (sym run) (outside refl at)
          | inr n_some ↦
              let (m', run, made, at_k) =
                with_cause_ctx_loc_lem env domain code location text s.live q refl q_there s_at refl
                  s_there x.object t.at fmt n e_t refl (ground (arith, n_some)) in
              subst (Outcome base m p c hands ys x.object) (sym run)
                (joined refl refl made.object (wrap_joined made at_k))
        ])

  -- In a session, for a cause that a caller holds and whose counter has room for one reference
  -- more, `with_cause_ctx_loc` returns NULL and changes nothing, or returns a new error with that
  -- cause that joins the session with one reference, the caller's, or returns an error that has no
  -- context.
  pub with_cause_ctx_loc-Outcome :
      (k : Ptr)
      → (k == null) ≡ false
      → 0 < hands k
      → hands k + effects k ys + 1 < 2 ^ 32
      → Outcome base m p c hands ys k (with_cause_ctx_loc env p domain code k location fmt m)
  with_cause_ctx_loc-Outcome k k_some held_k room =
      let (x, xs, i, e) = known k s k_some held_k in
      subst
        (λ r. Outcome base m p c hands ys r (with_cause_ctx_loc env p domain code r location fmt m))
        e (wrap_item i (subst (λ r. s.count r + 1 < 2 ^ 32) (sym e) (rw (s.counted k k_some) room)))
