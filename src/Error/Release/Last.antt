-- ===== src/Error/Release/Last.antt =====
-- `gitledger_error_release` on the last reference to an error with a message, no cause and no cache.
use libgitledger.Prelude.{◌<◌, ◌≡◌, inl, inr, refl, false, none, [], ◌∷◌, ◌==◌, arith, length}
use libgitledger.Text.{Bytes}
use libgitledger.Memory.{Ptr, null, Context, ErrorObject, error, bytes, Env, Memory, ok}
use libgitledger.Memory.Blocks.{block, At}
use libgitledger.Context.Registry.{Entries, has, IsContext}
use libgitledger.Context.Registry.Unlink.{without}
use libgitledger.Error.{release}
use libgitledger.Error.Release.Causes.{parts, stop, own}
use libgitledger.Error.Release.Whole.{release-Owned}

-- An error of the context at `p`, with one reference, its message at `s`, no cause and no cache.
abbrev pub last_error : Ptr → Context → (s : Ptr) → ErrorObject → ErrorObject
last_error p c s e = record e {
  ctx = p;
  refcount = 1;
  allocator = c.allocator;
  message = s;
  json_cache = null;
  cause = null;
}

-- The error at `q` is gone with its message at `s`, and the registry has let go of it.
pub record Released (m : Memory) (p : Ptr) (c : Context) (xs : Entries) (q s : Ptr) (m' : Memory)
    : Type 0 where
  pub first : Ptr
  pub live : IsContext m' p (record c { errors = first; locked = false }) (without q xs)
  pub object : m'.blocks q ≡ none
  pub message : m'.blocks s ≡ none
  pub untouched :
      (r : Ptr)
      → (r == null) ≡ false
      → (r == p) ≡ false
      → (r == q) ≡ false
      → (r == s) ≡ false
      → has r xs ≡ false
      → m'.blocks r ≡ m.blocks r

module _ (env : Env) {m : Memory} {p q s : Ptr} {c : Context} {xs : Entries} (e : ErrorObject)
    {t : Bytes} (is : IsContext m p c xs) (few : length xs < env.rounds)
    (at_q : At m q (block c.allocator (error (last_error p c s e))))
    (at_s : At m s (block c.allocator (bytes t))) where
  -- For a live context whose registry is shorter than `rounds`, with at least two rounds, and an
  -- error of this context with one reference, a message, no cause and no cached JSON, `release`
  -- ends; the error and its message have been given back, the context is live with its lock free,
  -- its registry lacks the first node for the error, and no address outside the registry, the
  -- context, the error and its message has changed.
  pub release_lem :
      1 < env.rounds → (m' : Memory) × (release env q m ≡ ok tt m') × Released m p c xs q s m'
  release_lem two =
      let one =
        own e at_q (inr (t, at_s)) (inl refl) (λ h. h) (λ h. refl) (λ h. refl) (λ h. refl)
          (stop refl) in
      let (m', r, run) = release-Owned env (parts q s null ∷ []) is few two one refl in
      (
        m',
        run,
        record {
          first = r.first;
          live = r.live;
          object = r.freed q at_q.not_null (ground arith);
          message = r.freed s at_s.not_null (ground arith);
          untouched = λ x h x_p x_q x_s out. r.untouched x x_p (ground (arith, h, x_q, x_s)) out;
        },
      )
