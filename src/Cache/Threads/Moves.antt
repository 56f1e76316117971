-- ===== src/Cache/Threads/Moves.antt =====
-- What the steps of a thread in `gitledger_error_json` do to the memory.
use libgitledger.Prelude.{
  ◌≡◌, ◌⊎◌, refl, sym, ◌∙◌, true, false, none, some, ◌==◌, inl, inr, Bool-cases, if◌then◌else◌,
}
use libgitledger.Memory.{
  Ptr, null, Allocator, Context, ErrorObject, error, Cell, Env, Memory, ok, pure, ◌>>=◌, ◌>>◌,
  write, load_error,
}
use libgitledger.Memory.Blocks.{block, At, load_context-At, load_error-At, store-At, call_free-At}
use libgitledger.Context
use libgitledger.Context.Registry.{Entries, IsContext, is_valid-At}
use libgitledger.Cache.{cached, publish}
use libgitledger.Cache.Threads.{exchange}

pub ok-eq : {A : Type 0} {v w : A} {m n : Memory} → ok v m ≡ ok w n → (v ≡ w) × (m ≡ n)
ok-eq e = (cc e, cc e)

pub loaded :
    {m m' : Memory} {q : Ptr} {a : Allocator} {e o : ErrorObject}
    → At m q (block a (error o))
    → load_error q m ≡ ok e m'
    → e ≡ o
loaded at h = (ok-eq (sym h ∙ load_error-At at)).0

-- `exchange` leaves a cache that is there, and sets one that is not.
pub exchange_lem :
    {m : Memory} {q : Ptr} (a : Allocator) (e : ErrorObject) (b cache : Ptr)
    → At m q (block a (error (record e { json_cache = cache })))
    → exchange q b m ≡ (
        if cache == null
        then ok cache (write m q (some (block a (error (record e { json_cache = b })))))
        else ok cache m)
unfolding exchange
exchange_lem a e b cache at = elim (Bool-cases (cache == null)) [
  | inl z ↦ rw (load_error-At at) (rw z (rw (store-At _ at) refl))
  | inr there ↦ rw (load_error-At at) (rw there refl)
]

-- The two answers of the exchange.
pub exchanged :
    {m m' : Memory} {q j : Ptr} (a : Allocator) (e : ErrorObject) (b cache : Ptr)
    → At m q (block a (error (record e { json_cache = cache })))
    → exchange q b m ≡ ok j m'
    → ((j ≡ cache)
        × ((cache == null) ≡ true)
        × (m' ≡ write m q (some (block a (error (record e { json_cache = b }))))))
      ⊎ ((j ≡ cache) × ((cache == null) ≡ false) × (m' ≡ m))
exchanged {m} {q} a e b cache at x = elim (Bool-cases (cache == null)) [
  | inl z ↦
      let run : exchange q b m
          ≡ ok cache (write m q (some (block a (error (record e { json_cache = b }))))) =
        exchange_lem a e b cache at ∙ rw z refl in
      let (e_j, e_m) = ok-eq (sym x ∙ run) in inl (e_j, z, e_m)
  | inr n ↦
      let run : exchange q b m ≡ ok cache m = exchange_lem a e b cache at ∙ rw n refl in
      let (e_j, e_m) = ok-eq (sym x ∙ run) in inr (e_j, n, e_m)
]

module _ (env : Env) {m : Memory} {p : Ptr} {c : Context} {reg : Entries}
    (live : IsContext m p c reg) where
  pub free_lem :
      {b : Ptr} {cell : Cell}
      → At m b (block c.allocator cell)
      → Context.free p b m ≡ ok tt (write m b none)
  unfolding Context.free
  free_lem at =
      rw (is_valid-At live.at live.magic)
        (rw (load_context-At live.at) (rw (live.can_free) (rw (at.not_null) (call_free-At at))))

-- `publish` is the exchange, and what a thread does with its answer.
pub publish-exchange :
    {m : Memory} {q : Ptr} (a : Allocator) (e : ErrorObject) (b cache : Ptr)
    → At m q (block a (error (record e { json_cache = cache })))
    → publish q b m
      ≡ (exchange q b >>= λ j.
            if j == null then pure (cached b) else (Context.free e.ctx b >> pure (cached j)))
          m
unfolding publish exchange
publish-exchange a e b cache at = elim (Bool-cases (cache == null)) [
  | inl z ↦ rw (load_error-At at) (rw z (rw (store-At _ at) (rw z refl)))
  | inr there ↦ rw (load_error-At at) (rw there (rw there refl))
]
