-- ===== src/Cache/Threads/Publishing.antt =====
-- Threads that publish a cache: one buffer wins, and all get it.
use libgitledger.Prelude.{
  ◌≡◌, ◌⊎◌, sym, ap, subst, ◌∙◌, true, false, none, List, ◌==◌, ==_iff, arith, inl, inr, Bool-cases,
}
use libgitledger.Text.{Bytes}
use libgitledger.Memory.{Ptr, null, Context, ErrorObject, error, bytes, Memory}
use libgitledger.Memory.Blocks.{block, At, ne_of_blocks}
use libgitledger.Context.Registry.{Entries, IsContext}
use libgitledger.Cache.Threads.{Thread, Change, here, there, mine, owns}
use libgitledger.Cache.Threads.Owners.{
  IsFine, Fine, Fine-Change, owned_lem, owns-Change, owned_before,
}

Change-sym : {t t' : Thread} {ts ts' : List Thread} → Change t t' ts ts' → Change t' t ts' ts
Change-sym here = here
Change-sym (there c) = there (Change-sym c)

-- The memory `m` while the threads are at `ts`, when it was `m0` at the start: the error's cache is
-- NULL or a block with the text, and all other new blocks are the threads' own buffers.
pub record Publishing (m0 m : Memory) (p q : Ptr) (c : Context) (reg : Entries) (e : ErrorObject)
    (text : Bytes) (ts : List Thread) : Type 0 where
  pub cache : Ptr
  pub live : IsContext m p c reg
  pub object : At m q (block c.allocator (error (record e { json_cache = cache })))
  pub shown : (cache == null) ≡ false → At m cache (block c.allocator (bytes text))
  pub fresh_cache : (cache == null) ≡ false → m0.blocks cache ≡ none
  pub fine : Fine text m c.allocator cache ts
  pub fresh : (r : Ptr) → owns r ts ≡ true → m0.blocks r ≡ none
  pub frame :
      (r : Ptr)
      → (r == null) ≡ false
      → (r == q) ≡ false
      → (r == cache) ≡ false
      → owns r ts ≡ false
      → m.blocks r ≡ m0.blocks r

module _ {m0 m : Memory} {p q : Ptr} {c : Context} {reg : Entries} {e : ErrorObject} {text : Bytes}
    {ts : List Thread} (s : Publishing m0 m p q c reg e text ts) where
  -- One thread moves from `t` to `t'`, and the cache with it.
  pub advance :
      {m' : Memory} {t t' : Thread} {ts' : List Thread} (cache' : Ptr)
      → Change t t' ts ts'
      → IsContext m' p c reg
      → At m' q (block c.allocator (error (record e { json_cache = cache' })))
      → ((cache' == null) ≡ false → At m' cache' (block c.allocator (bytes text)))
      → (cache' ≡ s.cache) ⊎ ((s.cache ≡ null) × (mine cache' t ≡ true))
      → IsFine text m' c.allocator cache' t'
      → ((r : Ptr)
          → (r == q) ≡ false
          → mine r t ≡ false
          → mine r t' ≡ false
          → m'.blocks r ≡ m.blocks r)
      → ((r : Ptr)
          → mine r t ≡ true
          → mine r t' ≡ false
          → (r == cache') ≡ false
          → m'.blocks r ≡ m0.blocks r)
      → ((r : Ptr)
          → mine r t' ≡ true
          → (mine r t ≡ true) ⊎ ((owns r ts ≡ false) × (m0.blocks r ≡ none)))
      → Publishing m0 m' p q c reg e text ts'
  advance {m'} {t} {t'} {ts'} cache' change live' object' shown' kept fine' same left new = record {
    cache = cache';
    live = live';
    object = object';
    shown = shown';
    fresh_cache = λ n. elim kept [
      | inl z ↦ rw z (s.fresh_cache (subst (λ k. (k == null) ≡ false) z n))
      | inr (z, own) ↦ s.fresh cache' (owns-Change cache' change own)
    ];
    fine =
        Fine-Change was change
          (λ r own not_mine. same r (not_q r own) not_mine (still r own not_mine))
          (λ r own not_mine. other_cache r own not_mine)
          (λ r h. elim (new r h) [ inl k ↦ inl k | inr (k, z) ↦ inr k ]) fine' s.fine;
    fresh = λ r own. elim (Bool-cases (mine r t')) [
      | inl h ↦ elim (new r h) [ inl k ↦ s.fresh r (owns-Change r change k) | inr (k, z) ↦ z ]
      | inr h ↦ elim (Bool-cases (owns r ts)) [
        | inl k ↦ s.fresh r k
        | inr k ↦ absurd (ground (arith, own, owned_before r change h k))
      ]
    ];
    frame = λ r n r_q r_cache out.
        let h : mine r t' ≡ false = elim (Bool-cases (mine r t')) [
          | inr no_more ↦ no_more
          | inl z ↦ absurd (ground (arith, out, owns-Change r (Change-sym change) z))
        ] in
        elim (Bool-cases (mine r t)) [
          | inl k ↦ left r k h r_cache
          | inr k ↦
              same r r_q k h
              ∙ s.frame r n r_q (old_cache r n r_cache) (owned_before r (Change-sym change) k out)
        ];
  }
    where
      was : (cache' ≡ s.cache) ⊎ (s.cache ≡ null)
      was = elim kept [ inl z ↦ inl z | inr (z, own) ↦ inr z ]

      old_cache : (r : Ptr) → (r == null) ≡ false → (r == cache') ≡ false → (r == s.cache) ≡ false
      old_cache r n h = elim kept [
        | inl z ↦ ground (arith, z, h)
        | inr (z, own) ↦ ground (arith, z, n)
      ]

      not_q : (r : Ptr) → owns r ts ≡ true → (r == q) ≡ false
      not_q r own = ne_of_blocks m r q (owned_lem r s.fine own).0.holds s.object.holds (λ z. cc)

      still : (r : Ptr) → owns r ts ≡ true → mine r t ≡ false → mine r t' ≡ false
      still r own k = elim (Bool-cases (mine r t')) [
        | inr no_more ↦ no_more
        | inl h ↦ elim (new r h) [ inl z ↦ absurd (cc) | inr (z, y) ↦ absurd (cc) ]
      ]

      other_cache : (r : Ptr) → owns r ts ≡ true → mine r t ≡ false → (r == cache') ≡ false
      other_cache r own k = elim kept [
        | inl z ↦ rw z (owned_lem r s.fine own).1
        | inr (z, own') ↦ elim (Bool-cases (r == cache')) [
          | inr ne ↦ ne
          | inl h ↦ absurd (cc (sym k ∙ (ap (λ x. mine x t) ((==_iff r cache').0 h) ∙ own')))
        ]
      ]
