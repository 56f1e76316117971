-- ===== src/Session/Items.antt =====
-- Taking an error out of the list of all errors.
use libgitledger.Prelude.{
  ℕ, ◌+◌, ◌≡◌, refl, true, false, ◌||◌, List, [], ◌∷◌, ◌==◌, ==_iff, arith, inl, inr, Bool-cases,
  length, if◌then◌else◌,
}
use libgitledger.Prelude.Insert.{Insert, front, behind}
use libgitledger.Memory.{Ptr}
use libgitledger.Context.Registry.{has}
use libgitledger.Error.Release.Causes.{mine, among, parts}
use libgitledger.Session.{Item, registry, parts_of, present, effects, AreCurrent}

pub length-Insert : {x : Item} {xs ys : List Item} → Insert x xs ys → length ys ≡ length xs + 1
length-Insert front = omega arith
length-Insert (behind i) = omega (arith, length-Insert i)

pub AreCurrent-Insert :
    (g : ℕ) {x : Item} {xs ys : List Item} → Insert x xs ys → AreCurrent g ys → AreCurrent g xs
AreCurrent-Insert g front h = h.1
AreCurrent-Insert g (behind i) h = (h.0, AreCurrent-Insert g i h.1)

pub effects-Insert :
    (r : Ptr) {x : Item} {xs ys : List Item}
    → Insert x xs ys
    → effects r ys ≡ (if x.cause == r then 1 else 0) + effects r xs
effects-Insert r front = refl
effects-Insert r (behind i) = omega (arith, effects-Insert r i)

pub present-Insert :
    (r : Ptr) {x : Item} {xs ys : List Item}
    → Insert x xs ys
    → present r ys ≡ ((x.object == r) || present r xs)
present-Insert r front = refl
present-Insert r (behind i) = ground (arith, present-Insert r i)

pub among-Insert :
    (r : Ptr) {x : Item} {xs ys : List Item}
    → Insert x xs ys
    → among r (parts_of ys) ≡ (mine r (parts x.object x.message x.cache) || among r (parts_of xs))
among-Insert r front = refl
among-Insert r (behind i) = ground (arith, among-Insert r i)

pub has-Insert :
    (r : Ptr) {x : Item} {xs ys : List Item}
    → Insert x xs ys
    → has r (registry ys) ≡ ((r == x.node) || has r (registry xs))
has-Insert r front = refl
has-Insert r (behind i) = ground (arith, has-Insert r i)

pub present-among :
    (r : Ptr) (xs : List Item) → among r (parts_of xs) ≡ false → present r xs ≡ false
present-among r [] h = refl
present-among r (x ∷ xs) h = ground (arith, h, present-among r xs)

-- An error that is there stands somewhere in the list.
pub find :
    (r : Ptr) (ys : List Item)
    → present r ys ≡ true
    → (x : Item) × (xs : List Item) × Insert x xs ys × (x.object ≡ r)
find r [] h = cc
find r (y ∷ ys) h = elim (Bool-cases (y.object == r)) [
  | inl e ↦ (y, ys, front, (==_iff y.object r).0 e)
  | inr n ↦ let (x, xs, i, e) = find r ys (ground (arith, h, n)) in (x, y ∷ xs, behind i, e)
]

pub AreCurrent-item :
    (g : ℕ) {x : Item} {xs ys : List Item}
    → Insert x xs ys
    → AreCurrent g ys
    → x.rest.ctx_generation ≡ g
AreCurrent-item g front h = h.0
AreCurrent-item g (behind i) h = AreCurrent-item g i h.1
