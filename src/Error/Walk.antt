-- ===== src/Error/Walk.antt =====
-- `gitledger_error_walk` with a visitor that only reads.
use libgitledger.Prelude.{
  ℕ, zero, suc, ◌≤◌, ◌≡◌, ◌⊎◌, inl, inr, refl, Bool, false, List, [], ◌∷◌, ◌==◌, arith, length,
  take, if◌then◌else◌,
}
use libgitledger.Memory.{Ptr, null, ErrorObject, Memory, M, ok, load_error}
use libgitledger.Error.{max_depth, walk_loop, walk}

-- From `p` the causes lead through the errors `qs` to `last`; they may come round.
pub data Leads (m : Memory) : Ptr → List Ptr → (last : Ptr) → Type 0 where
  arrived : {p last : Ptr} → p ≡ last → Leads m p [] last
  onward :
      {p last : Ptr} {qs : List Ptr} (e : ErrorObject)
      → (p == null) ≡ false
      → load_error p m ≡ ok e m
      → Leads m e.cause qs last
      → Leads m p (p ∷ qs) last

-- The visits in order, up to the one after which the visitor does not want to go on.
abbrev pub visit_all {ℓ} : {S : Type ℓ} → (S → Ptr → S × Bool) → List Ptr → S → S
visit_all f [] s = s
visit_all f (q ∷ qs) s =
    let rest = visit_all f qs (f s q).0 in if (f s q).1 then rest else (f s q).0

module _ {S : Type 0} {m : Memory} (visitor : S → Ptr → M (S × Bool)) (f : S → Ptr → S × Bool)
    (reads : (s : S) (q : Ptr) → visitor s q m ≡ ok (f s q) m) where
  walk_loop-Leads :
      (left : ℕ) {p last : Ptr} (qs : List Ptr) (s : S)
      → Leads m p qs last
      → (last ≡ null) ⊎ (left ≤ length qs)
      → walk_loop visitor left p s m ≡ ok (visit_all f (take left qs) s) m
  unfolding walk_loop
  walk_loop-Leads zero qs s c h = refl
  walk_loop-Leads (suc left) [] s (arrived e) (inl z) = rw e (rw z)
  walk_loop-Leads (suc left) [] s (arrived e) (inr h) = absurd (omega arith)
  walk_loop-Leads (suc left) (q ∷ qs) s (onward e there load c) h =
      rw there (rw (reads s q) (ground (arith, load, walk_loop-Leads left qs (f s q).0 c)))

  -- For a visitor that always returns and leaves the memory as it is, and errors from which the
  -- causes lead to NULL or that are at least 64, `walk` calls the visitor on the errors in the
  -- order of the causes, on the first 64 at most, stops behind the first on which the visitor does
  -- not want to go on, and does not change the memory.
  pub walk-Leads :
      {p last : Ptr} (qs : List Ptr) (s : S)
      → Leads m p qs last
      → (last ≡ null) ⊎ (max_depth ≤ length qs)
      → walk visitor p s m ≡ ok (visit_all f (take max_depth qs) s) m
  unfolding walk
  walk-Leads qs s c h = walk_loop-Leads max_depth qs s c h
