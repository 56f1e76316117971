-- ===== src/Prelude/Insert.antt =====
-- Lists that hold the same items in another order.
use mathlib.Core.List.{List, [], ◌∷◌}
use mathlib.Core.List.{Perm}
use mathlib.Core.List.Perm

-- The second list is the first with `x` put in somewhere.
pub data Insert {ℓ} {A : Type ℓ} (x : A) : List A → List A → Type ℓ where
  front : {xs : List A} → Insert x xs (x ∷ xs)
  behind : {y : A} {xs ys : List A} → Insert x xs ys → Insert x (y ∷ xs) (y ∷ ys)

pub data Shuffle {ℓ} {A : Type ℓ} : List A → List A → Type ℓ where
  none_left : Shuffle [] []
  put : {x : A} {xs ys zs : List A} → Shuffle xs ys → Insert x ys zs → Shuffle (x ∷ xs) zs

Insert-perm {ℓ} : {A : Type ℓ} {x : A} {xs ys : List A} → Insert x xs ys → Perm (x ∷ xs) ys
Insert-perm (front) = Perm.refl _
Insert-perm {x} (behind {y} {xs} i) = Perm.trans (Perm.swap y x xs) (Perm.cons y (Insert-perm i))

pub Shuffle-perm {ℓ} : {A : Type ℓ} {xs ys : List A} → Shuffle xs ys → Perm xs ys
Shuffle-perm none_left = Perm.nil
Shuffle-perm (put {x} s i) = Perm.trans (Perm.cons x (Shuffle-perm s)) (Insert-perm i)

-- The first list is the second without some of its items.
pub data Remains {ℓ} {A : Type ℓ} : List A → List A → Type ℓ where
  all_of : {xs : List A} → Remains xs xs
  all_but : {x : A} {xs ys zs : List A} → Remains xs ys → Insert x ys zs → Remains xs zs
