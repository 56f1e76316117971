-- ===== src/Cache/Threads/Agreement.antt =====
-- However the steps of the threads interleave, they agree on one cache, and give all other buffers back.
use libgitledger.Prelude.{
  ℕ, zero, suc, ◌<◌, ◌≡◌, refl, sym, subst, ◌∙◌, Bool, true, false, ◌&&◌, Option, none, some, List,
  [], ◌∷◌, ◌==◌, arith, inl, inr, Bool-cases, length,
}
use libgitledger.Text.{Bytes}
use libgitledger.Buffer.{size_max}
use libgitledger.Memory.{
  Ptr, null, Allocator, Context, ErrorObject, error, bytes, Env, Memory, write,
}
use libgitledger.Memory.Blocks.{block, At, load_error-At}
use libgitledger.Context.Registry.{Entries, IsContext}
use libgitledger.Json.Render.Chain.{View}
use libgitledger.Json.Render.Frame.{Texts, Causes}
use libgitledger.Json.Render.Depth.{json_text, capacity_for}
use libgitledger.Cache.Fill.{holder, view, ensure_current_fresh}
use libgitledger.Cache.Threads.{
  Thread, starting, asking, measuring, making, holding, losing, done, without, Move, checked, found,
  missed, measured, made, no_room, won, lost, freed, Change, Reach, start, later, owns,
}
use libgitledger.Cache.Threads.Owners.{IsFine, Fine, nobody, somebody, Fine-at}
use libgitledger.Cache.Threads.Moves.{exchange_lem, free_lem}
use libgitledger.Cache.Threads.Publishing.{Publishing}
use libgitledger.Cache.Threads.Reading.{full, measure_lem, fill-null, fill-some}
use libgitledger.Cache.Threads.Winner.{Move-Publishing}

abbrev pub is_done : Thread → Bool
is_done (done j) = true
is_done without = true
is_done t = false

module _ (env : Env) {m0 m : Memory} {p q : Ptr} {c : Context} {reg : Entries} (e : ErrorObject)
    (t : Option Bytes) {vs : List View} {ts : List Thread}
    (at : At m0 q (block c.allocator (error (holder p c.generation null e))))
    (message : Texts m0 e.message t) (causes : Causes m0 e.cause vs)
    (fits : length (json_text env m0 (view (holder p c.generation null e) t) vs) < size_max)
    (steady : (k : Memory)
      → capacity_for env k (suc (length vs)) ≡ capacity_for env m0 (suc (length vs)))
    (s : Publishing m0 m p q c reg (holder p c.generation null e) (full env m0 p c e t vs) ts) where
  abbrev Goes : Thread → Type 0
  Goes u = (m' : Memory) × (u' : Thread) × Move env q m u m' u'

  make : Goes (making (length (full env m0 p c e t vs)))
  make =
      let size : ℕ = length (full env m0 p c e t vs) in
      let b : Ptr = env.allocate c.allocator size m in
      elim (Bool-cases (b == null)) [
        | inl z ↦ (
          m,
          without,
          no_room (fill-null env e t at message causes fits steady s (ground (arith, z))) refl,
        )
        | inr n ↦ (
          write m b (some (block c.allocator (bytes (full env m0 p c e t vs)))),
          holding b,
          made (fill-some env e t at message causes fits steady s (ground (arith, n))) n,
        )
      ]

  go_on :
      (u : Thread)
      → IsFine (full env m0 p c e t vs) m c.allocator s.cache u
      → is_done u ≡ false
      → Goes u
  go_on starting f h = (m, asking, checked (ensure_current_fresh s.cache e s.live s.object))
  go_on asking f h = elim (Bool-cases (s.cache == null)) [
    | inl z ↦ (m, measuring, missed (load_error-At s.object) z s.live.at.not_null)
    | inr n ↦ (m, done s.cache, found (load_error-At s.object) n)
  ]
  go_on measuring f h = (
    m,
    making (length (full env m0 p c e t vs)),
    measured (measure_lem env e t at message causes fits steady s),
  )
  go_on (making required) f h = subst (λ k. Goes (making k)) (sym f) make
  go_on (holding b) f h = elim (Bool-cases (s.cache == null)) [
    | inl z ↦ (
      write m q (some (block c.allocator (error (holder p c.generation b e)))),
      done b,
      won (exchange_lem c.allocator (holder p c.generation null e) b s.cache s.object ∙ rw z refl)
          z,
    )
    | inr n ↦ (
      m,
      losing b s.cache,
      lost (exchange_lem c.allocator (holder p c.generation null e) b s.cache s.object ∙ rw n refl)
          n,
    )
  ]
  go_on (losing b j) ((at_b, ne), f) h =
      (write m b none, done j, freed (load_error-At s.object) (free_lem env s.live at_b))
  go_on (done j) f h = cc
  go_on without f h = cc

-- `n` threads at the start of `gitledger_error_json`.
abbrev pub askers : ℕ → List Thread
askers zero = []
askers (suc n) = starting ∷ askers n

abbrev pub are_done : List Thread → Bool
are_done [] = true
are_done (t ∷ ts) = is_done t && are_done ts

-- A thread that is done with a pointer has the cache, which holds the text.
abbrev pub Agrees : Memory → Allocator → Bytes → (cache : Ptr) → Thread → Type 0
Agrees m a text cache (done j) = (j ≡ cache) × At m j (block a (bytes text))
Agrees m a text cache t = Unit {0}

abbrev pub Agree : Memory → Allocator → Bytes → (cache : Ptr) → List Thread → Type 0
Agree m a text cache [] = Unit {0}
Agree m a text cache (t ∷ ts) = Agrees m a text cache t × Agree m a text cache ts

agree :
    {m : Memory} {a : Allocator} {text : Bytes} {cache : Ptr} {ts : List Thread}
    → Fine text m a cache ts
    → ((cache == null) ≡ false → At m cache (block a (bytes text)))
    → Agree m a text cache ts
agree nobody shown = tt
agree {m} {a} {text} {cache} (somebody {t} f own fs) shown = (agrees t f, agree fs shown)
  where
    agrees : (t : Thread) → IsFine text m a cache t → Agrees m a text cache t
    agrees starting f = tt
    agrees asking f = tt
    agrees measuring f = tt
    agrees (making required) f = tt
    agrees (holding b) f = tt
    agrees (losing b j) f = tt
    agrees (done j) (e, n) = (e, subst (λ k. At m k (block a (bytes text))) (sym e) (shown n))
    agrees without f = tt

nothing_owned : (ts : List Thread) (r : Ptr) → are_done ts ≡ true → owns r ts ≡ false
nothing_owned [] r h = refl
nothing_owned (done j ∷ ts) r h = nothing_owned ts r h
nothing_owned (without ∷ ts) r h = nothing_owned ts r h
nothing_owned (starting ∷ ts) r h = cc
nothing_owned (asking ∷ ts) r h = cc
nothing_owned (measuring ∷ ts) r h = cc
nothing_owned (making required ∷ ts) r h = cc
nothing_owned (holding b ∷ ts) r h = cc
nothing_owned (losing b j ∷ ts) r h = cc

all_ask : (text : Bytes) (m : Memory) (a : Allocator) (n : ℕ) → Fine text m a null (askers n)
all_ask text m a zero = nobody
all_ask text m a (suc n) =
    somebody {t = starting} {ts = askers n} tt (λ r h. absurd (cc)) (all_ask text m a n)

no_owner : (n : ℕ) (r : Ptr) → owns r (askers n) ≡ false
no_owner zero r = refl
no_owner (suc n) r = no_owner n r

module _ (env : Env) {m0 : Memory} {p q : Ptr} {c : Context} {reg : Entries} (e : ErrorObject)
    (t : Option Bytes) {vs : List View} (live : IsContext m0 p c reg)
    (at : At m0 q (block c.allocator (error (holder p c.generation null e))))
    (message : Texts m0 e.message t) (causes : Causes m0 e.cause vs)
    (fits : length (json_text env m0 (view (holder p c.generation null e) t) vs) < size_max)
    (steady : (k : Memory)
      → capacity_for env k (suc (length vs)) ≡ capacity_for env m0 (suc (length vs))) where
  pub Reach-Publishing :
      (n : ℕ) {m : Memory} {ts : List Thread}
      → Reach env q m0 (askers n) m ts
      → Publishing m0 m p q c reg (holder p c.generation null e) (full env m0 p c e t vs) ts
  Reach-Publishing n start = record {
    cache = null;
    live = live;
    object = at;
    shown = λ h. absurd (cc);
    fresh_cache = λ h. absurd (cc);
    fine = all_ask (full env m0 p c e t vs) m0 c.allocator n;
    fresh = λ r h. absurd (cc (sym h ∙ no_owner n r));
    frame = λ r k r_q r_cache out. refl;
  }
  Reach-Publishing n (later r move change) =
      Move-Publishing env e t at message causes fits steady (Reach-Publishing n r) move change

  -- For a live context, an error of its current generation without a cached text, whose message
  -- and causes stand in blocks and whose causes end in NULL, with fewer than SIZE_MAX bytes of
  -- JSON, where the stack of frames for its chain has the same capacity in every memory, and any
  -- number of threads in `gitledger_error_json` on it, each of which checks the generation, loads
  -- the cache, measures the text, renders it into a buffer of its own, exchanges this with NULL,
  -- and gives it back if another was faster, in any order of these steps and with any answers of
  -- the allocator: when all are done, those that have a pointer have the same one, it is the
  -- error's cache and holds the JSON text of the error and its causes with its NUL, and every
  -- address but NULL, the error and that one holds what it held at the start.
  pub one_cache :
      (n : ℕ) {m : Memory} {ts : List Thread}
      → Reach env q m0 (askers n) m ts
      → are_done ts ≡ true
      → (cache : Ptr) × At m q (block c.allocator (error (holder p c.generation cache e)))
        × Agree m c.allocator (full env m0 p c e t vs) cache ts
        × ((r : Ptr)
            → (r == null) ≡ false
            → (r == q) ≡ false
            → (r == cache) ≡ false
            → m.blocks r ≡ m0.blocks r)
  one_cache n {ts} r finished =
      let s = Reach-Publishing n r in
      (
        s.cache,
        s.object,
        agree s.fine s.shown,
        λ k n' r_q r_cache. s.frame k n' r_q r_cache (nothing_owned ts k finished),
      )

  -- For a live context, an error of its current generation without a cached text, whose message
  -- and causes stand in blocks and whose causes end in NULL, with fewer than SIZE_MAX bytes of
  -- JSON, where the stack of frames for its chain has the same capacity in every memory, and any
  -- number of threads in `gitledger_error_json` on it, after any of their steps each thread that
  -- is not done has a next step: no access faults, no rendering fails, and no buffer is given back
  -- twice.
  pub no_thread_sticks :
      (n : ℕ) {m : Memory} (u : Thread) {ts : List Thread}
      → Reach env q m0 (askers n) m ts
      → Change u u ts ts
      → is_done u ≡ false
      → (m' : Memory) × (u' : Thread) × Move env q m u m' u'
  no_thread_sticks n u r among unfinished =
      let s = Reach-Publishing n r in
      go_on env e t at message causes fits steady s u (Fine-at among s.fine) unfinished
