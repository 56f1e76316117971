-- ===== src/Cache/Threads/Owners.antt =====
-- The buffers that the threads own.
use libgitledger.Prelude.{
  ◌≡◌, ◌⊎◌, sym, subst, ◌∙◌, true, false, List, [], ◌∷◌, ◌==◌, length, ==_refl, ==_iff, arith, inl,
  inr, Bool-cases,
}
use libgitledger.Text.{Bytes}
use libgitledger.Memory.{Ptr, null, Allocator, bytes, Memory}
use libgitledger.Memory.Blocks.{block, At}
use libgitledger.Context.Registry.Unlink.{At-untouched}
use libgitledger.Cache.Threads.{
  Thread, starting, asking, measuring, making, holding, losing, done, without, Change, here, there,
  mine, owns,
}

-- What was required is the length of the text; a buffer is a block of its own with the text; what is
-- returned is the cache.
abbrev pub IsFine : Bytes → Memory → Allocator → (cache : Ptr) → Thread → Type 0
IsFine text m a cache starting = Unit {0}
IsFine text m a cache asking = Unit {0}
IsFine text m a cache measuring = Unit {0}
IsFine text m a cache (making required) = required ≡ length text
IsFine text m a cache (holding b) = At m b (block a (bytes text)) × ((b == cache) ≡ false)
IsFine text m a cache (losing b j) =
    (At m b (block a (bytes text)) × ((b == cache) ≡ false))
    × ((j ≡ cache) × ((cache == null) ≡ false))
IsFine text m a cache (done j) = (j ≡ cache) × ((cache == null) ≡ false)
IsFine text m a cache without = Unit {0}

pub data Fine (text : Bytes) (m : Memory) (a : Allocator) (cache : Ptr) : List Thread → Type 0 where
  nobody : Fine text m a cache []
  somebody :
      {t : Thread} {ts : List Thread}
      → IsFine text m a cache t
      → ((r : Ptr) → mine r t ≡ true → owns r ts ≡ false)
      → Fine text m a cache ts
      → Fine text m a cache (t ∷ ts)

mine_self : (b : Ptr) → (b == b) ≡ true
mine_self b = ==_refl b

same_cache :
    {cache cache' : Ptr}
    → (cache' ≡ cache) ⊎ (cache ≡ null)
    → (j : Ptr) → (j ≡ cache) × ((cache == null) ≡ false)
    → (j ≡ cache') × ((cache' == null) ≡ false)
same_cache (inl z) j (e, n) = (e ∙ sym z, rw z n)
same_cache (inr z) j (e, n) = absurd (ground (arith, z, n))

module _ (text : Bytes) (m m' : Memory) (a : Allocator) {cache cache' : Ptr}
    (cached : (cache' ≡ cache) ⊎ (cache ≡ null)) where
  -- A thread is fine as long as its buffer is left alone and does not become the cache.
  pub IsFine-same :
      (t : Thread)
      → ((r : Ptr) → mine r t ≡ true → m'.blocks r ≡ m.blocks r)
      → ((r : Ptr) → mine r t ≡ true → (r == cache') ≡ false)
      → IsFine text m a cache t
      → IsFine text m' a cache' t
  IsFine-same starting same apart f = tt
  IsFine-same asking same apart f = tt
  IsFine-same measuring same apart f = tt
  IsFine-same (making required) same apart f = f
  IsFine-same (holding b) same apart (at, ne) =
      (At-untouched at (same b (mine_self b)), apart b (mine_self b))
  IsFine-same (losing b j) same apart ((at, ne), f) =
      ((At-untouched at (same b (mine_self b)), apart b (mine_self b)), same_cache cached j f)
  IsFine-same (done j) same apart f = same_cache cached j f
  IsFine-same without same apart f = tt

  Fine-same :
      (ts : List Thread)
      → ((r : Ptr) → owns r ts ≡ true → m'.blocks r ≡ m.blocks r)
      → ((r : Ptr) → owns r ts ≡ true → (r == cache') ≡ false)
      → Fine text m a cache ts
      → Fine text m' a cache' ts
  Fine-same [] same apart nobody = nobody
  Fine-same (t ∷ ts) same apart (somebody f own fs) =
      somebody
        (IsFine-same t (λ r h. same r (ground (arith, h))) (λ r h. apart r (ground (arith, h))) f)
        own
        (Fine-same ts (λ r h. same r (ground (arith, h))) (λ r h. apart r (ground (arith, h))) fs)

pub owns-Change :
    {t t' : Thread} {ts ts' : List Thread} (r : Ptr)
    → Change t t' ts ts'
    → mine r t ≡ true
    → owns r ts ≡ true
owns-Change r here h = ground (arith, h)
owns-Change r (there c) h = ground (arith, owns-Change r c h)

-- What is owned afterwards was owned before, or is the thread's own.
pub owned_before :
    {t t' : Thread} {ts ts' : List Thread} (r : Ptr)
    → Change t t' ts ts'
    → mine r t' ≡ false
    → owns r ts ≡ false
    → owns r ts' ≡ false
owned_before r here h k = ground (arith, h, k)
owned_before r (there c) h k = ground (arith, k, owned_before r c h)

module _ {text : Bytes} {m m' : Memory} {a : Allocator} {cache cache' : Ptr}
    (cached : (cache' ≡ cache) ⊎ (cache ≡ null)) {t t' : Thread} where
  -- One thread moves; the others' buffers are left alone, and are not its own.
  pub Fine-Change :
      {ts ts' : List Thread}
      → Change t t' ts ts'
      → ((r : Ptr) → owns r ts ≡ true → mine r t ≡ false → m'.blocks r ≡ m.blocks r)
      → ((r : Ptr) → owns r ts ≡ true → mine r t ≡ false → (r == cache') ≡ false)
      → ((r : Ptr) → mine r t' ≡ true → (mine r t ≡ true) ⊎ (owns r ts ≡ false))
      → IsFine text m' a cache' t'
      → Fine text m a cache ts
      → Fine text m' a cache' ts'
  Fine-Change (here {ts}) same apart new f (somebody old own fs) =
      somebody {t = t'} {ts = ts} f
        (λ r h. elim (new r h) [ inl k ↦ own r k | inr k ↦ ground (arith, k) ])
        (Fine-same text m m' a cached ts
          (λ r h. same r (ground (arith, h)) (ground (arith, h, own r)))
          (λ r h. apart r (ground (arith, h)) (ground (arith, h, own r))) fs)
  Fine-Change (there {u} {ts} {ts'} c) same apart new f (somebody old own fs) =
      let other : (r : Ptr) → mine r u ≡ true → mine r t ≡ false =
        λ r h. ground (arith, own r h, owns-Change r c) in
      somebody {t = u} {ts = ts'}
        (IsFine-same text m m' a cached u (λ r h. same r (ground (arith, h)) (other r h))
          (λ r h. apart r (ground (arith, h)) (other r h)) old)
        (λ r h. owned_before r c (not_new r h (other r h)) (own r h))
        (Fine-Change c (λ r h k. same r (ground (arith, h)) k)
          (λ r h k. apart r (ground (arith, h)) k)
          (λ r h. elim (new r h) [ inl k ↦ inl k | inr k ↦ inr (ground (arith, k)) ]) f fs)
    where
      not_new : (r : Ptr) → mine r u ≡ true → mine r t ≡ false → mine r t' ≡ false
      not_new r h k = elim (Bool-cases (mine r t')) [
        | inr no_more ↦ no_more
        | inl n ↦ elim (new r n) [ inl z ↦ absurd (cc) | inr z ↦ absurd (ground (arith, z, h)) ]
      ]

pub Fine-at :
    {text : Bytes} {m : Memory} {a : Allocator} {cache : Ptr} {t t' : Thread} {ts ts' : List Thread}
    → Change t t' ts ts'
    → Fine text m a cache ts
    → IsFine text m a cache t
Fine-at here (somebody f own fs) = f
Fine-at (there c) (somebody f own fs) = Fine-at c fs

-- What is owned is a buffer with the text, and not the cache.
pub owned_lem :
    {text : Bytes} {m : Memory} {a : Allocator} {cache : Ptr} {ts : List Thread} (r : Ptr)
    → Fine text m a cache ts
    → owns r ts ≡ true
    → At m r (block a (bytes text)) × ((r == cache) ≡ false)
owned_lem r nobody h = cc
owned_lem {text} {m} {a} {cache} r (somebody {t} f own fs) h = elim (Bool-cases (mine r t)) [
  | inl k ↦ own_buffer t k f
  | inr k ↦ owned_lem r fs (ground (arith, h, k))
]
  where
    own_buffer :
        (t : Thread)
        → mine r t ≡ true
        → IsFine text m a cache t
        → At m r (block a (bytes text)) × ((r == cache) ≡ false)
    own_buffer (holding b) k (at, ne) =
        subst (λ x. At m x (block a (bytes text)) × ((x == cache) ≡ false)) (sym ((==_iff r b).0 k))
          (at, ne)
    own_buffer (losing b j) k ((at, ne), f) =
        subst (λ x. At m x (block a (bytes text)) × ((x == cache) ≡ false)) (sym ((==_iff r b).0 k))
          (at, ne)
    own_buffer starting k f = cc
    own_buffer asking k f = cc
    own_buffer measuring k f = cc
    own_buffer (making required) k f = cc
    own_buffer (done j) k f = cc
    own_buffer without k f = cc
