-- ===== src/Cache/Threads/Winner.antt =====
-- Each step of a thread keeps what is said of threads that publish a cache.
use libgitledger.Prelude.{
  ℕ, suc, ◌<◌, ◌≡◌, ◌≢◌, refl, sym, ap, subst, ◌∙◌, true, false, Option, none, some, List, ◌==◌,
  ==_refl, ==_iff, arith, inl, inr, Bool-cases, length,
}
use libgitledger.Text.{Bytes}
use libgitledger.Buffer.{size_max}
use libgitledger.Memory.{Ptr, null, Context, ErrorObject, error, bytes, Env, Memory, ok, write}
use libgitledger.Memory.Blocks.{
  block, At, At-write_self, At-write_ne, blocks-write_ne, blocks-write_same, ne_of_blocks, ne_sym,
}
use libgitledger.Context
use libgitledger.Context.Registry.{Entries, IsContext-write_ne}
use libgitledger.Context.Registry.Tracking.{IsContext-fresh}
use libgitledger.Error.Release.Round.{error_apart, Part-apart}
use libgitledger.Json.Render.Chain.{View}
use libgitledger.Json.Render.Frame.{Texts, Causes}
use libgitledger.Json.Render.Depth.{json_text, capacity_for}
use libgitledger.Cache.Fill.{holder, view, ensure_current_fresh}
use libgitledger.Cache.Threads.{
  Thread, making, holding, losing, done, without, fill, exchange, Move, checked, found, no_context,
  missed, measured, made, no_room, won, lost, freed, Change, mine, owns,
}
use libgitledger.Cache.Threads.Owners.{IsFine, Fine-at, owned_lem, owns-Change}
use libgitledger.Cache.Threads.Moves.{ok-eq, loaded, exchanged, free_lem}
use libgitledger.Cache.Threads.Publishing.{Publishing, advance}
use libgitledger.Cache.Threads.Reading.{full, measure_lem, fill-null, fill-some}

module _ {m0 m : Memory} {p q : Ptr} {c : Context} {reg : Entries} {e : ErrorObject} {text : Bytes}
    {ts ts' : List Thread} (s : Publishing m0 m p q c reg e text ts) where
  -- A step that leaves the memory alone, after which the thread owns what it owned.
  pub quiet :
      {m' : Memory} {t t' : Thread}
      → m' ≡ m
      → Change t t' ts ts'
      → IsFine text m c.allocator s.cache t'
      → ((r : Ptr) → mine r t' ≡ mine r t)
      → Publishing m0 m' p q c reg e text ts'
  quiet {t} {t'} same change fine same_mine =
      subst (λ k. Publishing m0 k p q c reg e text ts') (sym same)
        (advance s s.cache change s.live s.object s.shown (inl refl) fine (λ r r_q h k. refl)
          (λ r h k. absurd (cc (same_mine r))) (λ r h. inl (sym (same_mine r) ∙ h)))

  make_buffer :
      {required : ℕ} (b : Ptr)
      → (b == null) ≡ false
      → m.blocks b ≡ none
      → Change (making required) (holding b) ts ts'
      → Publishing m0 (write m b (some (block c.allocator (bytes text)))) p q c reg e text ts'
  make_buffer b b_some free change =
      let b_q : (b == q) ≡ false = ne_of_blocks m b q free s.object.holds (λ z. cc) in
      let b_out : owns b ts ≡ false = elim (Bool-cases (owns b ts)) [
        | inr out ↦ out
        | inl own ↦ absurd (cc (sym free ∙ (owned_lem b s.fine own).0.holds))
      ] in
      let b_cache : (b == s.cache) ≡ false = elim (Bool-cases (s.cache == null)) [
        | inl z ↦ ground (arith, z, b_some)
        | inr n ↦ ne_of_blocks m b s.cache free (s.shown n).holds (λ z. cc)
      ] in
      advance s s.cache change (IsContext-fresh b _ free s.live)
        (At-write_ne b _ s.object (ne_sym b q b_q))
        (λ n. At-write_ne b _ (s.shown n) (ne_sym b s.cache b_cache)) (inl refl)
        (At-write_self m b _ b_some, b_cache) (λ r r_q h k. blocks-write_ne m b r _ k)
        (λ r h. absurd (cc))
        (λ r h.
          let here : b ≡ r = sym ((==_iff r b).0 h) in
          inr (
            subst (λ k. owns k ts ≡ false) here b_out,
            subst (λ k. m0.blocks k ≡ none) here (sym (s.frame b b_some b_q b_cache b_out) ∙ free),
          ))

  win :
      (b : Ptr)
      → s.cache ≡ null
      → Change (holding b) (done b) ts ts'
      → Publishing m0
          (write m q (some (block c.allocator (error (record e { json_cache = b })))))
          p
          q
          c
          reg
          e
          text
          ts'
  win b z change =
      let (at, ne) = Fine-at change s.fine in
      let b_q : (b == q) ≡ false = ne_of_blocks m b q at.holds s.object.holds (λ y. cc) in
      let (q_p, out) = error_apart s.live s.object in
      advance s b change (IsContext-write_ne q _ (ne_sym q p q_p) out s.live)
        (At-write_self m q _ s.object.not_null) (λ n. At-write_ne q _ at b_q) (inr (z, ==_refl b))
        (refl, at.not_null) (λ r r_q h k. blocks-write_ne m q r _ r_q)
        (λ r h k other. absurd (cc (sym h ∙ other))) (λ r h. absurd (cc))

  give_back :
      (b j : Ptr)
      → Change (losing b j) (done j) ts ts'
      → Publishing m0 (write m b none) p q c reg e text ts'
  give_back b j change =
      let ((at, ne), f) = Fine-at change s.fine in
      let b_q : (b == q) ≡ false = ne_of_blocks m b q at.holds s.object.holds (λ y. cc) in
      let (b_p, out) = Part-apart s.live (inr (text, at)) in
      advance s s.cache change (IsContext-write_ne b none (ne_sym b p b_p) out s.live)
        (At-write_ne b none s.object (ne_sym b q b_q))
        (λ n. At-write_ne b none (s.shown n) (ne_sym b s.cache ne)) (inl refl) f
        (λ r r_q h k. blocks-write_ne m b r none h)
        (λ r h k other. blocks-write_same m b r none h ∙ sym (s.fresh r (owns-Change r change h)))
        (λ r h. absurd (cc))

  Won-Publishing :
      {m' : Memory} (b j : Ptr)
      → exchange q b m ≡ ok j m'
      → (j == null) ≡ true
      → Change (holding b) (done b) ts ts'
      → Publishing m0 m' p q c reg e text ts'
  Won-Publishing b j x z change = elim (exchanged c.allocator e b s.cache s.object x) [
    | inl (e_j, y, e_m) ↦
        subst (λ k. Publishing m0 k p q c reg e text ts') (sym e_m)
          (win b ((==_iff s.cache null).0 y) change)
    | inr (e_j, n, e_m) ↦ absurd (cc (sym n ∙ (ap (λ k. k == null) (sym e_j) ∙ z)))
  ]

  Lost-Publishing :
      {m' : Memory} (b j : Ptr)
      → exchange q b m ≡ ok j m'
      → (j == null) ≡ false
      → Change (holding b) (losing b j) ts ts'
      → Publishing m0 m' p q c reg e text ts'
  Lost-Publishing b j x n change = elim (exchanged c.allocator e b s.cache s.object x) [
    | inl (e_j, y, e_m) ↦ absurd (cc (sym y ∙ (ap (λ k. k == null) (sym e_j) ∙ n)))
    | inr (e_j, y, e_m) ↦ quiet e_m change (Fine-at change s.fine, (e_j, y)) (λ r. refl)
  ]

module _ (env : Env) {m0 m : Memory} {p q : Ptr} {c : Context} {reg : Entries} (e : ErrorObject)
    (t : Option Bytes) {vs : List View} {ts : List Thread}
    (at : At m0 q (block c.allocator (error (holder p c.generation null e))))
    (message : Texts m0 e.message t) (causes : Causes m0 e.cause vs)
    (fits : length (json_text env m0 (view (holder p c.generation null e) t) vs) < size_max)
    (steady : (k : Memory)
      → capacity_for env k (suc (length vs)) ≡ capacity_for env m0 (suc (length vs)))
    (s : Publishing m0 m p q c reg (holder p c.generation null e) (full env m0 p c e t vs) ts) where
  abbrev Next : List Thread → Memory → Type 0
  Next ts' m' =
      Publishing m0 m' p q c reg (holder p c.generation null e) (full env m0 p c e t vs) ts'

  abbrev size : ℕ
  size = length (full env m0 p c e t vs)

  Made-Publishing :
      {m' : Memory} {ts' : List Thread} (b : Ptr)
      → fill env q size m ≡ ok b m'
      → (b == null) ≡ false
      → Change (making size) (holding b) ts ts'
      → Next ts' m'
  Made-Publishing {m'} {ts'} b x b_some change =
      elim (Bool-cases (env.allocate c.allocator size m == null)) [
        | inl z ↦
            let run = fill-null env e t at message causes fits steady s (ground (arith, z)) in
            absurd (ground (arith, (ok-eq (sym x ∙ run)).0, b_some))
        | inr n ↦
            let there : env.allocate c.allocator size m ≢ null = ground (arith, n) in
            let (e_b, e_m) =
              ok-eq (sym x ∙ fill-some env e t at message causes fits steady s there) in
            subst (Next ts')
              (ap (λ r. write m r (some (block c.allocator (bytes (full env m0 p c e t vs))))) e_b
                ∙ sym e_m)
              (make_buffer s b b_some (rw e_b (env.fresh c.allocator size m there)) change)
      ]

  Roomless-Publishing :
      {m' : Memory} {ts' : List Thread} (b : Ptr)
      → fill env q size m ≡ ok b m'
      → (b == null) ≡ true
      → Change (making size) without ts ts'
      → Next ts' m'
  Roomless-Publishing {m'} {ts'} b x b_none change =
      elim (Bool-cases (env.allocate c.allocator size m == null)) [
        | inl z ↦
            let run = fill-null env e t at message causes fits steady s (ground (arith, z)) in
            quiet s (ok-eq (sym x ∙ run)).1 change tt (λ r. refl)
        | inr n ↦
            let there : env.allocate c.allocator size m ≢ null = ground (arith, n) in
            let (e_b, e_m) =
              ok-eq (sym x ∙ fill-some env e t at message causes fits steady s there) in
            absurd (ground (arith, e_b, b_none, n))
      ]

  pub Move-Publishing :
      {m' : Memory} {ts' : List Thread} {u u' : Thread}
      → Move env q m u m' u'
      → Change u u' ts ts'
      → Next ts' m'
  Move-Publishing (checked x) change =
      quiet s (ok-eq (sym x ∙ ensure_current_fresh s.cache e s.live s.object)).1 change tt
        (λ r. refl)
  Move-Publishing (found l n) change =
      let j = ap (λ x. x.json_cache) (loaded s.object l) in
      quiet s refl change (j, rw (sym j) n) (λ r. refl)
  Move-Publishing (no_context l z y) change = quiet s refl change tt (λ r. refl)
  Move-Publishing (missed l z y) change = quiet s refl change tt (λ r. refl)
  Move-Publishing (measured x) change =
      let (same, e_m) = ok-eq (sym x ∙ measure_lem env e t at message causes fits steady s) in
      quiet s e_m change (ap (λ k. k.0) same) (λ r. refl)
  Move-Publishing {m'} {ts'} (made {required} {b} x b_some) change =
      let same : required ≡ size = Fine-at change s.fine in
      Made-Publishing b (subst (λ k. fill env q k m ≡ ok b m') same x) b_some
        (subst (λ k. Change (making k) (holding b) ts ts') same change)
  Move-Publishing {m'} {ts'} (no_room {required} {b} x b_none) change =
      let same : required ≡ size = Fine-at change s.fine in
      Roomless-Publishing b (subst (λ k. fill env q k m ≡ ok b m') same x) b_none
        (subst (λ k. Change (making k) without ts ts') same change)
  Move-Publishing (won {b} {j} x z) change = Won-Publishing s b j x z change
  Move-Publishing (lost {b} {j} x n) change = Lost-Publishing s b j x n change
  Move-Publishing {m'} {ts'} (freed {b} {j} {e = o} l x) change =
      let ((at_b, ne), f) = Fine-at change s.fine in
      let same : o.ctx ≡ p = ap (λ o. o.ctx) (loaded s.object l) in
      subst (Next ts')
        (ok-eq
          (sym (free_lem env s.live at_b) ∙ subst (λ k. Context.free k b m ≡ ok tt m') same x)).1
        (give_back s b j change)
