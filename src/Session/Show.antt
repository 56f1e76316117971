-- ===== src/Session/Show.antt =====
-- `gitledger_error_json` of an error in a session.
use libgitledger.Prelude.{
  ℕ, suc, ◌+◌, ◌<◌, ◌≡◌, ◌≢◌, refl, sym, subst, true, ◌∙◌, false, Option, some, List, [], ◌∷◌, ◌++◌,
  ◌==◌, ==_iff, arith, inl, inr, Bool-cases, length,
}
use libgitledger.Prelude.Insert.{Insert}
use libgitledger.Text.{Bytes}
use libgitledger.Buffer.{size_max}
use libgitledger.Memory.{Ptr, null, Context, ErrorObject, error, bytes, Env, Memory, Run, ok, write}
use libgitledger.Memory.Blocks.{
  block, At, At-write_self, At-write_ne, blocks-write_ne, ne_of_blocks, ne_sym,
}
use libgitledger.Cache.{JsonText, empty_object, cached, error_json, read_json}
use libgitledger.Cache.Fill.{
  holder, view, with_cache, Filled, error_json_again, error_json_out_of_memory, error_json-fill,
}
use libgitledger.Json.Render.Chain.{View}
use libgitledger.Json.Render.Frame.{Texts, Stands, Causes}
use libgitledger.Json.Render.Depth.{json_text, capacity_for}
use libgitledger.Session.{Item, held, registry, Session}
use libgitledger.Session.Items.{AreCurrent-item}
use libgitledger.Session.Taken.{take_out}
use libgitledger.Session.Chains.{causes_lem}
use libgitledger.Session.Swap.{swap, renewed, Session-swap}

-- The JSON of the error at `q` is short enough for a buffer.
abbrev pub FitsBuffer : Env → Memory → (q : Ptr) → Type 0
FitsBuffer env m q =
    (v : View) (vs : List View)
    → Stands m q v
    → Causes m v.object.cause vs
    → length (json_text env m v vs) < size_max

-- A block of bytes more or less does not change how many frames there is room for.
abbrev pub IsSteady : Env → Memory → Type 0
IsSteady env m =
    (b : Ptr) (array : Bytes) (n : ℕ) (c : Context)
    → capacity_for env (write m b (some (block c.allocator (bytes array)))) n ≡ capacity_for env m n

-- The ways `gitledger_error_json` can end for the error `x`: with its cached text; with "{}", where the
-- allocator gives no block for the text; with the text of its chain in a new block, which it then has for its cache.
pub data Shown (env : Env) (base m : Memory) (p : Ptr) (c : Context) (hands : Ptr → ℕ) {x : Item}
    {xs ys : List Item} (i : Insert x xs ys) : Run JsonText → Type 0 where
  again : (x.cache == null) ≡ false → Shown env base m p c hands i (ok (cached x.cache) m)
  no_room :
      (v : View) {vs : List View}
      → (x.cache == null) ≡ true
      → Stands m x.object v
      → Causes m v.object.cause vs
      → env.allocate c.allocator (length (json_text env m v vs) + 1) m ≡ null
      → Shown env base m p c hands i (ok empty_object m)
  rendered :
      {b : Ptr} {m' : Memory} (v : View) {vs : List View}
      → (x.cache == null) ≡ true
      → Stands m x.object v
      → Causes m v.object.cause vs
      → read_json (cached b) m' ≡ ok (json_text env m v vs) m'
      → Session base m' p c hands (swap i (renewed x b))
      → Shown env base m p c hands i (ok (cached b) m')

module _ (env : Env) {base m : Memory} {p : Ptr} {c : Context} {hands : Ptr → ℕ} {x : Item}
    {xs ys : List Item} (i : Insert x xs ys) (s : Session base m p c hands ys) where
  abbrev live_context : Context
  live_context = record c { errors = s.first; locked = false }

  abbrev object : ErrorObject
  object = held p c.allocator x (s.count x.object)

  is_current : x.rest.ctx_generation ≡ c.generation
  is_current = AreCurrent-item c.generation i s.current

  at_holder : At m x.object (block c.allocator (error (holder p c.generation x.cache object)))
  at_holder =
      subst (λ g. At m x.object (block c.allocator (error (holder p g x.cache object)))) is_current
        (take_out i s.stored).at

  show_again : (x.cache == null) ≡ false → Shown env base m p c hands i (error_json env x.object m)
  show_again there =
      subst (Shown env base m p c hands i)
        (sym (error_json_again env x.cache object s.live at_holder there)) (again there)

  -- Without a cached text.
  module _ (no_cache : x.cache ≡ null) (fits : FitsBuffer env m x.object)
      (steady : IsSteady env m) where
    at_empty : At m x.object (block c.allocator (error (holder p c.generation null object)))
    at_empty =
        subst (λ j. At m x.object (block c.allocator (error (holder p c.generation j object))))
          no_cache at_holder

    module _ (t : Option Bytes) (texts : Texts m x.message t) {vs : List View}
        (causes : Causes m x.cause vs) where
      abbrev v : View
      v = view (holder p c.generation null object) t

      abbrev text : Bytes
      text = json_text env m v vs

      abbrev b : Ptr
      b = env.allocate c.allocator (length text + 1) m

      abbrev filled : Memory
      filled = with_cache m p x.object c c.allocator object text b

      abbrev st : Stands m x.object v
      st = record { owner = c.allocator; at = at_empty; message = texts }

      filled-Session :
          b ≢ null
          → Filled m p x.object live_context (registry ys) c.allocator object text b filled
          → Session base filled p c hands (swap i (renewed x b))
      filled-Session b_there f =
          let b_some : (b == null) ≡ false = ground (arith, b_there) in
          let q_b : (x.object == b) ≡ false =
            ne_of_blocks m x.object b at_empty.holds f.new (λ z. cc) in
          Session-swap b i s no_cache f.live
            (subst (λ g. At filled x.object (block c.allocator (error (holder p g b object))))
              (sym is_current) f.object)
            (inr (
              text ++ (0 ∷ []),
              At-write_ne x.object _ (At-write_self m b _ b_some) (ne_sym x.object b q_b),
            ))
            b_some f.new
            (λ r r_q r_b. blocks-write_ne _ x.object r _ r_q ∙ blocks-write_ne m b r _ r_b)

      show_text : Shown env base m p c hands i (error_json env x.object m)
      show_text = elim (Bool-cases (b == null)) [
        | inl z ↦
            subst (Shown env base m p c hands i)
              (sym (
                error_json_out_of_memory env object t s.live st causes (fits v vs st causes)
                  (ground (arith, z))))
              (no_room v (ground (arith, no_cache)) st causes (ground (arith, z)))
        | inr some_room ↦
            let b_there : b ≢ null = ground (arith, some_room) in
            let (run, f) =
              error_json-fill env object t s.live st causes (fits v vs st causes) b refl b_there
                (steady b (env.left_over b (length text + 1)) (suc (length vs)) c) in
            subst (Shown env base m p c hands i) (sym run)
              (rendered v (ground (arith, no_cache)) st causes f.shown (filled-Session b_there f))
      ]

    show_first : Shown env base m p c hands i (error_json env x.object m)
    show_first = let (t, texts, (vs, causes, few)) = causes_lem s i in show_text t texts causes

  -- For an error of a session, with fewer than SIZE_MAX bytes of JSON, and where a block of bytes
  -- does not change the capacity of the stack of frames, `error_json` returns the cached text and
  -- changes nothing if there is one; if there is none, it either returns the empty object and
  -- changes nothing, where the allocator gives no block for the JSON text with its NUL, or returns
  -- a block with the JSON text of the error and its chain of causes, which lead to NULL, and
  -- leaves a session in which the error has that block for its cache.
  pub error_json-Session :
      FitsBuffer env m x.object
      → IsSteady env m
      → Shown env base m p c hands i (error_json env x.object m)
  error_json-Session fits steady = elim (Bool-cases (x.cache == null)) [
    | inl z ↦ show_first ((==_iff x.cache null).0 z) fits steady
    | inr there ↦ show_again there
  ]
