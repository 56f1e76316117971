-- ===== src/Error/Release.antt =====
-- One round of the loop of `gitledger_error_release`: the last reference to an error goes.
pub mod Round
pub mod Causes
pub mod Whole
pub mod Last
use libgitledger.Prelude.{
  ℕ, zero, suc, ◌<◌, ◌≡◌, ◌≢◌, ◌⊎◌, inl, inr, refl, sym, ap, ◌∙◌, Bool, true, false, not, ◌||◌,
  none, some, Option, [], ◌∷◌, ◌==◌, ==_refl, Bool-cases, arith, length, if◌then◌else◌,
}
use libgitledger.Text.{Bytes}
use libgitledger.Memory.{
  Ptr, null, Allocator, Context, ErrorObject, node, error, bytes, Env, Memory, ok, write, ◌>>=◌,
  ◌>>◌,
}
use libgitledger.Memory.Blocks.{
  block, At, load_error-At, store-At, call_free-At, At-write_self, At-write_ne, blocks-write_ne,
  blocks-write_same, ne_of_blocks, ne_sym,
}
use libgitledger.Context.{sub_one32}
use libgitledger.Context.Registry.{
  Entries, entry, has, Nodes, nil, cons, IsContext, IsContext-write_ne, not_in_Nodes,
}
use libgitledger.Context.Registry.Unlink.{without, has-without, At-untouched}
use libgitledger.Context.Registry.Unregister.{Unregistered, unregister_error_lem}
use libgitledger.Error.{free_error, free_part, release_loop}

-- An error of the context at `p`, with one reference.
abbrev pub owned_error : Ptr → Allocator → (s j cause : Ptr) → ErrorObject → ErrorObject
owned_error p a s j cause e = record e {
  ctx = p;
  refcount = 1;
  allocator = a;
  message = s;
  json_cache = j;
  cause = cause;
}

-- NULL, or a text of its own.
abbrev pub Part : Memory → Allocator → Ptr → Type 0
Part m a r = (r ≡ null) ⊎ ((t : Bytes) × At m r (block a (bytes t)))

-- `m'` is `m` without the block at `r`.
pub record Gone (m : Memory) (r : Ptr) (m' : Memory) : Type 0 where
  pub gone : (r == null) ≡ false → m'.blocks r ≡ none
  pub same : (q : Ptr) → (q == r) ≡ false → m'.blocks q ≡ m.blocks q

free_part_lem :
    {m : Memory} {a : Allocator} (r : Ptr)
    → Part m a r
    → (m' : Memory) × (free_part a r m ≡ ok tt m') × Gone m r m'
unfolding free_part
free_part_lem {m} r (inl z) =
    (m, rw z, record { gone = λ h. absurd (ground (arith, z, h)); same = λ q h. refl })
free_part_lem {m} r (inr (t, at)) = (
  write m r none,
  rw (at.not_null) (call_free-At at),
  record {
    gone = λ h. blocks-write_same m r r none (ground arith);
    same = λ q h. blocks-write_ne m r q none h;
  },
)

pub Part-untouched :
    {m m' : Memory} {a : Allocator} {r : Ptr}
    → Part m a r
    → ((r == null) ≡ false → m'.blocks r ≡ m.blocks r)
    → Part m' a r
Part-untouched (inl z) same = inl z
Part-untouched (inr (t, at)) same = inr (t, At-untouched at (same at.not_null))

-- A part is no object that is not a text.
pub Part-ne :
    {m : Memory} {a : Allocator} {r : Ptr} (q : Ptr) {e : ErrorObject}
    → At m q (block a (error e))
    → Part m a r
    → (q == r) ≡ false
Part-ne q at (inl z) = ground (arith, at.not_null, z)
Part-ne {m} {r} q at (inr (t, at_r)) = ne_of_blocks m q r at.holds at_r.holds (λ z. cc)

other_part :
    (s j : Ptr) → ((s == null) ≡ false → (s == j) ≡ false) → (j == null) ≡ false → (j == s) ≡ false
other_part s j s_j h = elim (Bool-cases (s == null)) [
  | inl z ↦ ground (arith, z, h)
  | inr n ↦ ne_sym s j (s_j n)
]

-- The blocks of an error, as the rounds of `free_error` leave them.
pub record Freed (m : Memory) (q s j : Ptr) (m' : Memory) : Type 0 where
  pub object : m'.blocks q ≡ none
  pub message : (s == null) ≡ false → m'.blocks s ≡ none
  pub cache : (j == null) ≡ false → m'.blocks j ≡ none
  pub same :
      (r : Ptr) → (r == q) ≡ false → (r == s) ≡ false → (r == j) ≡ false → m'.blocks r ≡ m.blocks r

pub free_error_lem :
    {m : Memory} {q s j : Ptr} (a : Allocator) (e : ErrorObject)
    → At m q (block a (error (record e { allocator = a; message = s; json_cache = j })))
    → Part m a s
    → Part m a j
    → ((s == null) ≡ false → (s == j) ≡ false)
    → (a.free == null) ≡ false
    → (m' : Memory) × (free_error q m ≡ ok tt m') × Freed m q s j m'
unfolding free_error
free_error_lem {m} {q} {s} {j} a e at_q part_s part_j s_j can_free =
    let q_s : (q == s) ≡ false = Part-ne q at_q part_s in
    let q_j : (q == j) ≡ false = Part-ne q at_q part_j in
    let s_q : (s == q) ≡ false = ne_sym q s q_s in
    let j_q : (j == q) ≡ false = ne_sym q j q_j in
    let x : ErrorObject = record e { allocator = a; message = s; json_cache = null } in
    let y : ErrorObject = record x { ctx = null; ctx_generation = 0 } in
    let m1 : Memory = write m q (some (block a (error x))) in
    let at1 : At m1 q (block a (error x)) = At-write_self m q _ at_q.not_null in
    let away : (r : Ptr) → (r == q) ≡ false → m1.blocks r ≡ m.blocks r =
      λ r h. blocks-write_ne m q r _ h in
    let part_j1 : Part m1 a j = Part-untouched part_j (λ h. away j j_q) in
    let (m2, run2, g2) = free_part_lem j part_j1 in
    let part_s2 : Part m2 a s = Part-untouched part_s (λ h. g2.same s (s_j h) ∙ away s s_q) in
    let (m3, run3, g3) = free_part_lem s part_s2 in
    let at3 : At m3 q (block a (error x)) = At-untouched at1 (g3.same q q_s ∙ g2.same q q_j) in
    let m4 : Memory = write m3 q (some (block a (error y))) in
    let at4 : At m4 q (block a (error y)) = At-write_self m3 q _ at_q.not_null in
    let last : (r : Ptr) → (r == q) ≡ false → (write m4 q none).blocks r ≡ m3.blocks r =
      λ r h. blocks-write_ne m4 q r none h ∙ blocks-write_ne m3 q r _ h in
    (
      write m4 q none,
      rw (load_error-At at_q) (
          rw can_free (
            rw (store-At _ at_q) (
              rw run2
                (rw run3 (rw (load_error-At at3) (rw (store-At _ at3) (call_free-At at4))))))),
      record {
        object = blocks-write_same m4 q q none (==_refl q);
        message = λ h. last s s_q ∙ g3.gone h;
        cache = λ h. last j j_q ∙ (g3.same j (other_part s j s_j h) ∙ g2.gone h);
        same = λ r h k l. last r h ∙ (g3.same r k ∙ (g2.same r l ∙ away r h));
      },
    )
