-- ===== src/Json/Decode/Causes.antt =====
-- The reader of JSON values on a chain of causes.
use libgitledger.Prelude.{
  ℕ, zero, suc, ◌+◌, ◌-◌, ◌*◌, ◌≤◌, ◌≡◌, refl, subst, some, List, [], ◌∷◌, ◌++◌, append_assoc,
  append-nil, arith, length,
}
use libgitledger.Text.{Bytes, codes}
use libgitledger.Memory.{Env, Memory}
use libgitledger.Json.Reader.{read_body}
use libgitledger.Json.Values.{Value, truth, no_members, member, value, more, read}
use libgitledger.Json.Render.Chain.{View, chain_text}
use libgitledger.Json.Render.Depth.{json_text, capacity_for}
use libgitledger.Json.Decode.{Reads, weaken, more-Reads, object-Reads, end-Reads}
use libgitledger.Json.Decode.Fields.{fields_value, fields-Reads}

-- The values of a chain of errors, where `left` more objects may stand inside the first.
unfoldable pub chain_value : (left : ℕ) → List View → Value
chain_value left [] = no_members
chain_value left (v ∷ []) = fields_value v.object v.message no_members
chain_value zero (v ∷ w ∷ vs) =
    fields_value v.object v.message
      (member (codes "cause") (member (codes "truncated") truth no_members) no_members)
chain_value (suc left) (v ∷ w ∷ vs) =
    fields_value v.object v.message (member (codes "cause") (chain_value left (w ∷ vs)) no_members)

truth_run :
    (rest : Bytes) (fuel : ℕ)
    → 1 ≤ fuel
    → read value fuel (codes "true" ++ rest) ≡ some (truth, rest)
unfolding read
truth_run rest zero h = absurd (omega arith)
truth_run rest (suc fuel) h = refl

truncated-Reads :
    (rest : Bytes)
    → Reads value
        (codes "{\"truncated\":true}" ++ rest)
        (member (codes "truncated") truth no_members)
        rest
        5
unfolding read_body
truncated-Reads rest =
    object-Reads {k = codes "truncated"} (λ s. refl) (record { run = truth_run (b'}' ∷ rest) })
      (end-Reads rest)

-- The member `cause` at the end of an object.
cause-Reads :
    {s : Bytes} {v : Value} {a : ℕ} (rest : Bytes)
    → Reads value s v (b'}' ∷ rest) a
    → Reads more
        (codes ",\"cause\":" ++ s)
        (member (codes "cause") v no_members)
        rest
        (suc (suc (a + 1)))
unfolding read_body
cause-Reads rest r = more-Reads {k = codes "cause"} (λ s. refl) r (end-Reads rest)

chain_text-Reads :
    (left : ℕ) (v : View) (vs : List View) (rest : Bytes)
    → Reads value
        (chain_text left (v ∷ vs) ++ rest)
        (chain_value left (v ∷ vs))
        rest
        (length (v ∷ vs) * 36)
unfolding chain_text chain_value
chain_text-Reads zero v [] rest =
    simp append_assoc (weaken (omega arith) (fields-Reads v.object v.message (end-Reads rest)))
chain_text-Reads (suc left) v [] rest =
    simp append_assoc (weaken (omega arith) (fields-Reads v.object v.message (end-Reads rest)))
chain_text-Reads zero v (w ∷ vs) rest = simp append_assoc (
    weaken (omega arith)
      (fields-Reads v.object v.message (cause-Reads rest (truncated-Reads (b'}' ∷ rest)))))
chain_text-Reads (suc left) v (w ∷ vs) rest =
    let inner = chain_text-Reads left w vs (b'}' ∷ rest) in
    simp append_assoc
      (weaken (omega arith) (fields-Reads v.object v.message (cause-Reads rest inner)))

pub json_text-read :
    (env : Env) (m : Memory) (v : View) (vs : List View)
    → read value (length (v ∷ vs) * 36) (json_text env m v vs)
      ≡ some (chain_value (capacity_for env m (suc (length vs)) - 1) (v ∷ vs), [])
unfolding json_text
json_text-read env m v vs =
    let left = capacity_for env m (suc (length vs)) - 1 in
    subst (λ s. read value (length (v ∷ vs) * 36) s ≡ some (chain_value left (v ∷ vs), []))
      (append-nil (chain_text left (v ∷ vs)))
      ((chain_text-Reads left v vs []).run (length (v ∷ vs) * 36) (omega arith))
