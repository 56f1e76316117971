-- ===== src/Error/Release/Causes.antt =====
-- `gitledger_error_release` along a chain of causes.
use libgitledger.Prelude.{
  ◌≡◌, inl, inr, Bool, true, false, ◌||◌, none, List, [], ◌∷◌, ◌==◌, Bool-cases, arith,
}
use libgitledger.Memory.{Ptr, null, Allocator, Context, ErrorObject, error, Memory}
use libgitledger.Memory.Blocks.{ne_sym, block, At}
use libgitledger.Context.Registry.{Entries, has, IsContext}
use libgitledger.Context.Registry.Unlink.{without, At-untouched}
use libgitledger.Error.Release.{owned_error, Part, Part-untouched}
use libgitledger.Error.Release.Round.{Round, error_apart, Part-apart}

-- The blocks of one error: the object, its message and its cached JSON.
pub record Parts : Type 0 where
  pub object : Ptr
  pub message : Ptr
  pub cache : Ptr

abbrev pub parts : Ptr → Ptr → Ptr → Parts
parts q s j = record { object = q; message = s; cache = j }

abbrev pub mine : Ptr → Parts → Bool
mine r x = (r == x.object) || ((r == x.message) || (r == x.cache))

abbrev pub among : Ptr → List Parts → Bool
among r [] = false
among r (x ∷ xs) = mine r x || among r xs

abbrev pub IsAway : Ptr → List Parts → Type 0
IsAway r xs = (r == null) ≡ false → among r xs ≡ false

-- From `q` the causes lead through errors of the context at `p` with one reference each, which have
-- the blocks `xs`, all apart, to the pointer `last`.
pub data Owned (m : Memory) (p : Ptr) (a : Allocator)
    : Ptr → List Parts → (last : Ptr) → Type 0 where
  stop : {q last : Ptr} → q ≡ last → Owned m p a q [] last
  own :
      {q s j cause last : Ptr} {xs : List Parts} (e : ErrorObject)
      → At m q (block a (error (owned_error p a s j cause e)))
      → Part m a s
      → Part m a j
      → ((s == null) ≡ false → (s == j) ≡ false)
      → IsAway q xs
      → IsAway s xs
      → IsAway j xs
      → Owned m p a cause xs last
      → Owned m p a q (parts q s j ∷ xs) last

abbrev pub without_all : List Parts → Entries → Entries
without_all [] reg = reg
without_all (x ∷ xs) reg = without_all xs (without x.object reg)

-- `m'` is `m` without the blocks `xs`, and the registry has let go of their errors.
pub record Cleared (m : Memory) (p : Ptr) (c : Context) (reg : Entries) (xs : List Parts)
    (m' : Memory) : Type 0 where
  pub first : Ptr
  pub live : IsContext m' p (record c { errors = first; locked = false }) (without_all xs reg)
  pub freed : (r : Ptr) → (r == null) ≡ false → among r xs ≡ true → m'.blocks r ≡ none
  pub untouched :
      (r : Ptr)
      → (r == p) ≡ false
      → among r xs ≡ false
      → has r reg ≡ false
      → m'.blocks r ≡ m.blocks r

pub away_ne :
    (r s : Ptr) → (r == null) ≡ false → ((s == null) ≡ false → (s == r) ≡ false) → (r == s) ≡ false
away_ne r s h k = elim (Bool-cases (s == null)) [
  | inl z ↦ ground (arith, z, h)
  | inr n ↦ ne_sym s r (k n)
]

module _ {m m' : Memory} {p : Ptr} {c : Context} {reg : Entries} {q s j : Ptr}
    (is : IsContext m p c reg) (u : Round m p c reg q s j m') where
  -- What is apart from the error of a round is as it was.
  kept :
      (r : Ptr)
      → (r == null) ≡ false
      → ((r == p) ≡ false) × (has r reg ≡ false)
      → ((q == null) ≡ false → (q == r) ≡ false)
      → ((s == null) ≡ false → (s == r) ≡ false)
      → ((j == null) ≡ false → (j == r) ≡ false)
      → m'.blocks r ≡ m.blocks r
  kept r h (r_p, out) hq hs hj =
      u.untouched r r_p (away_ne r q h hq) (away_ne r s h hs) (away_ne r j h hj) out

  pub Owned-Round :
      {r last : Ptr} {xs : List Parts}
      → IsAway q xs
      → IsAway s xs
      → IsAway j xs
      → Owned m p c.allocator r xs last
      → Owned m' p c.allocator r xs last
  Owned-Round hq hs hj (stop z) = stop z
  Owned-Round hq hs hj (own {q = r} {s = t} {j = k} e at part_t part_k t_k rq rs rj o) =
      own e
        (At-untouched at (
          kept r at.not_null (error_apart is at) (λ n. ground (arith, hq n))
            (λ n. ground (arith, hs n)) (λ n. ground (arith, hj n))))
        (Part-untouched part_t (λ h.
          kept t h (Part-apart is part_t) (λ n. ground (arith, hq n)) (λ n. ground (arith, hs n))
            (λ n. ground (arith, hj n))))
        (Part-untouched part_k (λ h.
          kept k h (Part-apart is part_k) (λ n. ground (arith, hq n)) (λ n. ground (arith, hs n))
            (λ n. ground (arith, hj n))))
        t_k rq rs rj
        (Owned-Round (λ n. ground (arith, hq n)) (λ n. ground (arith, hs n))
          (λ n. ground (arith, hj n)) o)
