-- ===== src/Session/Taken.antt =====
-- One error among all the errors in the memory, and the others without it.
use libgitledger.Prelude.{
  ℕ, ◌^◌, ◌<◌, ◌≡◌, sym, ap, subst, true, false, List, ◌∷◌, ◌==◌, ==_refl, arith,
}
use libgitledger.Prelude.Insert.{Insert, front, behind}
use libgitledger.Memory.{Ptr, null, Allocator, error, Memory}
use libgitledger.Memory.Blocks.{block, At}
use libgitledger.Context.Registry.Unlink.{without, At-untouched}
use libgitledger.Error.Release.{Part, Part-untouched}
use libgitledger.Error.Release.Causes.{mine, among, parts, IsAway, away_ne}
use libgitledger.Session.{Item, held, registry, parts_of, present, Stored, nothing, newest}
use libgitledger.Session.Items.{among-Insert, effects-Insert}

-- The error `x`, and the others `xs`.
pub record Taken (m : Memory) (p : Ptr) (a : Allocator) (count : Ptr → ℕ) (x : Item)
    (xs : List Item) : Type 0 where
  pub at : At m x.object (block a (error (held p a x (count x.object))))
  pub message : Part m a x.message
  pub cache : Part m a x.cache
  pub apart : (x.message == null) ≡ false → (x.message == x.cache) ≡ false
  pub object_away : IsAway x.object (parts_of xs)
  pub message_away : IsAway x.message (parts_of xs)
  pub cache_away : IsAway x.cache (parts_of xs)
  pub positive : 0 < count x.object
  pub fits : count x.object < 2 ^ 32
  pub others : Stored m p a count xs

-- `r` is apart from a younger error `y` where the parts of `y` are apart from it.
IsAway-younger :
    (r : Ptr) (y : Item) (xs : List Item)
    → ((y.object == null) ≡ false → (y.object == r) ≡ false)
    → ((y.message == null) ≡ false → (y.message == r) ≡ false)
    → ((y.cache == null) ≡ false → (y.cache == r) ≡ false)
    → IsAway r (parts_of xs)
    → IsAway r (parts_of (y ∷ xs))
IsAway-younger r y xs ho hs hj h n =
    ground (arith, h n, away_ne r y.object n ho, away_ne r y.message n hs, away_ne r y.cache n hj)

IsAway-Insert :
    (r : Ptr) {x : Item} {xs ys : List Item}
    → Insert x xs ys
    → IsAway r (parts_of ys)
    → IsAway r (parts_of xs)
IsAway-Insert r i h n = ground (arith, h n, among-Insert r i)

pub IsAway-item :
    (r : Ptr) {x : Item} {xs ys : List Item}
    → Insert x xs ys
    → IsAway r (parts_of ys)
    → (r == null) ≡ false
    → mine r (parts x.object x.message x.cache) ≡ false
IsAway-item r i h n = ground (arith, h n, among-Insert r i)

module _ {m : Memory} {p : Ptr} {a : Allocator} {count : Ptr → ℕ} where
  pub take_out :
      {x : Item} {xs ys : List Item}
      → Insert x xs ys
      → Stored m p a count ys
      → Taken m p a count x xs
  take_out front (newest at s j s_j ao ag aj pos fit old st) = record {
    at = at;
    message = s;
    cache = j;
    apart = s_j;
    object_away = ao;
    message_away = ag;
    cache_away = aj;
    positive = pos;
    fits = fit;
    others = st;
  }
  take_out {x} (behind {y} i) (newest at s j s_j ao ag aj pos fit old st) =
      let t = take_out i st in
      let o = IsAway-item y.object i ao in
      let g = IsAway-item y.message i ag in
      let k = IsAway-item y.cache i aj in
      record {
        at = t.at;
        message = t.message;
        cache = t.cache;
        apart = t.apart;
        object_away =
            IsAway-younger x.object y _ (λ n. ground (arith, o n)) (λ n. ground (arith, g n))
              (λ n. ground (arith, k n)) t.object_away;
        message_away =
            IsAway-younger x.message y _ (λ n. ground (arith, o n)) (λ n. ground (arith, g n))
              (λ n. ground (arith, k n)) t.message_away;
        cache_away =
            IsAway-younger x.cache y _ (λ n. ground (arith, o n)) (λ n. ground (arith, g n))
              (λ n. ground (arith, k n)) t.cache_away;
        positive = t.positive;
        fits = t.fits;
        others =
            newest at s j s_j (IsAway-Insert y.object i ao) (IsAway-Insert y.message i ag)
              (IsAway-Insert y.cache i aj) pos fit (omega (arith, old, effects-Insert y.object i))
              t.others;
      }

  -- The registry without the node of `x` is that of the others.
  pub without-registry :
      {x : Item} {xs ys : List Item}
      → Insert x xs ys
      → Stored m p a count ys
      → without x.object (registry ys) ≡ registry xs
  without-registry {x} front st = rw (==_refl x.object)
  without-registry {x} (behind {y} i) (newest at s j s_j ao ag aj pos fit old st) =
      let other : (y.object == x.object) ≡ false =
        ground (arith, IsAway-item y.object i ao at.not_null) in
      rw other (ap (λ r. (y.node, y.object) ∷ r) (without-registry i st))

  -- The errors survive where their blocks and their counts do.
  pub Stored-same :
      {m' : Memory} {count' : Ptr → ℕ} {xs : List Item}
      → ((r : Ptr) → (r == null) ≡ false → among r (parts_of xs) ≡ true → m'.blocks r ≡ m.blocks r)
      → ((r : Ptr) → present r xs ≡ true → count' r ≡ count r)
      → Stored m p a count xs
      → Stored m' p a count' xs
  Stored-same same counts nothing = nothing
  Stored-same {m'} {count'} same counts (newest {x} at s j s_j ao ag aj pos fit old st) =
      let e : count' x.object ≡ count x.object = counts x.object (ground arith) in
      newest
        (subst (λ n. At m' x.object (block a (error (held p a x n)))) (sym e)
          (At-untouched at (same x.object at.not_null (ground arith))))
        (Part-untouched s (λ n. same x.message n (ground arith)))
        (Part-untouched j (λ n. same x.cache n (ground arith))) s_j ao ag aj (rw e pos) (rw e fit)
        old
        (Stored-same (λ r n h. same r n (ground (arith, h))) (λ r h. counts r (ground (arith, h)))
          st)
