-- ===== src/Cache/Snapshot.antt =====
-- `gitledger_error_json_copy` of an error that has no cache yet.
use libgitledger.Prelude.{suc, ◌+◌, ◌<◌, ◌≡◌, ◌≢◌, Option, some, List, length}
use libgitledger.Text.{Bytes}
use libgitledger.Buffer.{size_max}
use libgitledger.Memory.{Ptr, null, Context, ErrorObject, bytes, Env, Memory, ok, write}
use libgitledger.Memory.Blocks.{block}
use libgitledger.Context.Registry.{Entries, IsContext}
use libgitledger.Cache.{cached, json_copy}
use libgitledger.Cache.Fill.{holder, view, with_cache, error_json-fill}
use libgitledger.Cache.Copy.{Copied, json_copy-some}
use libgitledger.Json.Render.Chain.{View}
use libgitledger.Json.Render.Frame.{Stands, Causes}
use libgitledger.Json.Render.Depth.{json_text, capacity_for}

-- The JSON of the error `e` of the context at `p` with the message `t` and the causes `vs`.
abbrev pub own_text : Env → Memory → Ptr → Context → ErrorObject → Option Bytes → List View → Bytes
own_text env m p c e t vs = json_text env m (view (holder p c.generation null e) t) vs

-- Under the conditions under which `error_json` fills the cache, and with room in the memory that
-- it leaves for a copy at `k`, `json_copy` returns `k`, which was not in use and is the only
-- address that changes after that; it holds the chain's JSON text with its NUL, and the context is
-- live.
pub json_copy-fill :
    (env : Env) {m : Memory} {p q : Ptr} {c : Context} {xs : Entries} (e : ErrorObject)
    (t : Option Bytes) {vs : List View} (is : IsContext m p c xs)
    (st : Stands m q (view (holder p c.generation null e) t))
    → Causes m e.cause vs
    → (b k : Ptr) → length (own_text env m p c e t vs) < size_max
    → b ≡ env.allocate c.allocator (length (own_text env m p c e t vs) + 1) m
    → b ≢ null
    → capacity_for env
        (write m b (
          some
            (block c.allocator (bytes (env.left_over b (length (own_text env m p c e t vs) + 1))))))
        (suc (length vs))
      ≡ capacity_for env m (suc (length vs))
    → k
      ≡ env.allocate c.allocator
          (length (own_text env m p c e t vs) + 1)
          (with_cache m p q c st.owner e (own_text env m p c e t vs) b)
    → k ≢ null
    → (m' : Memory) × (json_copy env p q m ≡ ok k m')
      × Copied
          (with_cache m p q c st.owner e (own_text env m p c e t vs) b)
          p
          c
          xs
          (own_text env m p c e t vs)
          k
          m'
json_copy-fill env {m} {p} {q} {c} e t {vs} is st cs b k fits e_b b_there same e_k k_there =
    let (run, f) = error_json-fill env e t is st cs fits b e_b b_there same in
    json_copy-some env q (cached b) (own_text env m p c e t vs) is f.live run f.shown k e_k k_there
