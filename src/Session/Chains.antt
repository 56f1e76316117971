-- ===== src/Session/Chains.antt =====
-- In a session every chain of causes ends in NULL.
use libgitledger.Prelude.{
  ℕ, ◌<◌, ◌≤◌, ◌≡◌, ◌⊎◌, subst, true, false, Option, none, some, List, [], ◌∷◌, ◌==◌, ==_refl,
  ==_iff, arith, inl, inr, Bool-cases, length,
}
use libgitledger.Text.{Bytes}
use libgitledger.Memory.{Ptr, null, Allocator, Context, Memory}
use libgitledger.Json.Render.Chain.{View}
use libgitledger.Json.Render.Frame.{Texts, Causes, no_cause, cause}
use libgitledger.Error.Release.{Part}
use libgitledger.Prelude.Insert.{Insert, front, behind}
use libgitledger.Session.Taken.{take_out}
use libgitledger.Session.{Item, held, present, effects, Stored, nothing, newest, Session}

-- A cause is one of the older errors.
pub data Older : List Item → Type 0 where
  oldest : Older []
  younger :
      {x : Item} {xs : List Item}
      → ((x.cause == null) ≡ true) ⊎ (present x.cause xs ≡ true)
      → Older xs
      → Older (x ∷ xs)

effects-cause :
    (r : Ptr) (ys : List Item) (y : Item) → (y.cause == r) ≡ true → 0 < effects r (y ∷ ys)
effects-cause r ys y h = rw h (omega arith)

-- The text of a part.
text_of : {m : Memory} {a : Allocator} {r : Ptr} → Part m a r → (t : Option Bytes) × Texts m r t
text_of (inl z) = (none, z)
text_of {a} (inr (t, at)) = (some t, (a, at))

module _ {m : Memory} {p : Ptr} {a : Allocator} {count : Ptr → ℕ} where
  -- An error whose cause has references is there, and no younger one is its cause.
  older_lem :
      {ys : List Item}
      → Stored m p a count ys
      → ((r : Ptr) → (r == null) ≡ false → 0 < effects r ys → present r ys ≡ true)
      → Older ys
  older_lem nothing there = oldest
  older_lem (newest {x} {xs} at g j s_j ao ag aj positive fit old st) there =
      younger {x = x}
        (elim (Bool-cases (x.cause == null)) [
          | inl z ↦ inl z
          | inr n ↦
              inr (
                ground (arith, old, there x.cause n (effects-cause x.cause xs x (==_refl x.cause))))
        ])
        (older_lem st (λ r n more. ground (arith, there r n, more, old)))

  chain_lem :
      {ys : List Item} (r : Ptr)
      → Stored m p a count ys
      → Older ys
      → ((r == null) ≡ true) ⊎ (present r ys ≡ true)
      → (vs : List View) × Causes m r vs × (length vs ≤ length ys)
  chain_lem r st older (inl z) = ([], no_cause ((==_iff r null).0 z), omega arith)
  chain_lem r nothing oldest (inr there) = absurd (cc)
  chain_lem r (newest {x} {xs} at g j s_j ao ag aj positive fit old st) (younger from older)
        (inr there) =
      elim (Bool-cases (x.object == r)) [
        | inl e ↦
            let (vs, causes, few) = chain_lem x.cause st older from in
            let (t, texts) = text_of g in
            let z : x.object ≡ r = (==_iff x.object r).0 e in
            (
              record { object = held p a x (count x.object); message = t } ∷ vs,
              subst
                  (λ k.
                    Causes m k (record { object = held p a x (count x.object); message = t } ∷ vs))
                  z (cause (record { owner = a; at = at; message = texts }) causes),
              omega arith,
            )
        | inr other ↦
            let (vs, causes, few) = chain_lem r st older (inr (ground (arith, other, there))) in
            (vs, causes, omega arith)
      ]

  item_causes :
      {x : Item} {xs ys : List Item}
      → Insert x xs ys
      → Stored m p a count ys
      → Older ys
      → (vs : List View) × Causes m x.cause vs × (length vs < length ys)
  item_causes {x} front (newest at g j s_j ao ag aj positive fit old st) (younger from older) =
      let (vs, causes, few) = chain_lem x.cause st older from in (vs, causes, omega (arith, few))
  item_causes (behind i) (newest at g j s_j ao ag aj positive fit old st) (younger from older) =
      let (vs, causes, few) = item_causes i st older in (vs, causes, omega (arith, few))

module _ {base m : Memory} {p : Ptr} {c : Context} {hands : Ptr → ℕ} {ys : List Item}
    (s : Session base m p c hands ys) where
  Session-Older : Older ys
  Session-Older = older_lem s.stored (λ r n some_left. elim (Bool-cases (present r ys)) [
    | inl there ↦ there
    | inr gone ↦ absurd (omega (arith, some_left, s.counted r n, s.absent r gone))
  ])

  -- In a session the message of an error stands in a block or is NULL, and its causes stand in
  -- blocks, lead to NULL, and are fewer than the errors.
  pub causes_lem :
      {x : Item} {xs : List Item}
      → Insert x xs ys
      → (t : Option Bytes) × Texts m x.message t
        × ((vs : List View) × Causes m x.cause vs × (length vs < length ys))
  causes_lem i =
      let (t, texts) = text_of (take_out i s.stored).message in
      (t, texts, item_causes i s.stored Session-Older)
