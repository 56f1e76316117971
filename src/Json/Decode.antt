-- ===== src/Json/Decode.antt =====
-- How the reader of JSON values takes the parts of an object, one after the other.
pub mod Numbers
pub mod Fields
pub mod Causes
use libgitledger.Prelude.{
  ℕ, zero, suc, ◌+◌, ◌-◌, ◌*◌, ◌/◌, ◌%◌, ◌≤◌, ◌<◌, ◌≡◌, ◌≢◌, refl, sym, ap, subst, ◌∙◌, Bool, true,
  false, ◌&&◌, Option, none, some, List, [], ◌∷◌, ◌++◌, append_assoc, arith, leb, ◌==◌,
  if◌then◌else◌, Bool-cases, inl, inr,
}
use libgitledger.Text.{
  Bytes, codes, All, CInt, pos, negsuc, decimal_digits, decimal, signed_decimal,
}
use libgitledger.Text.Decimal
use libgitledger.Text.Decimal.{IsDigit, value-decimal}
use libgitledger.Json.Reader.{plain, read_body}
use libgitledger.Json.Values.{
  Value, text, number, truth, texts, no_members, member, is_digit, read_digits, read_natural,
  read_number, negated, read_texts, Place, value, first, more, key, read, continue, behind,
}

-- With `bound` rounds and any more, the reader takes the value `v` from the front of `s`, and `rest`
-- is left.
pub record Reads (place : Place) (s : Bytes) (v : Value) (rest : Bytes) (bound : ℕ) : Type 0 where
  pub run : (fuel : ℕ) → bound ≤ fuel → read place fuel s ≡ some (v, rest)

-- `body` is what stands between the quotes of the string `t`.
abbrev pub Quotes : Bytes → Bytes → Type 0
Quotes body t = (rest : Bytes) → read_body plain (body ++ (b'"' ∷ rest)) ≡ some (t, rest)

pub weaken :
    {place : Place} {s rest : Bytes} {v : Value} {a b : ℕ}
    → a ≤ b
    → Reads place s v rest a
    → Reads place s v rest b
weaken h r = record { run = λ fuel k. r.run fuel (omega arith) }

text_run :
    (body : Bytes) {t : Bytes} (rest : Bytes)
    → Quotes body t
    → (fuel : ℕ) → 1 ≤ fuel
    → read value fuel (b'"' ∷ (body ++ (b'"' ∷ rest))) ≡ some (text t, rest)
unfolding read
text_run body rest q zero h = absurd (omega arith)
text_run body rest q (suc fuel) h = rw (q rest)

pub text-Reads :
    (body : Bytes) {t : Bytes} (rest : Bytes)
    → Quotes body t
    → Reads value (b'"' ∷ (body ++ (b'"' ∷ rest))) (text t) rest 1
text-Reads body rest q = record { run = text_run body rest q }

module _ {k s rest out : Bytes} {v ms : Value} {a b : ℕ} (q : Quotes k k)
    (rv : Reads value s v rest a) (rm : Reads more rest ms out b) where
  key_run :
      (fuel : ℕ)
      → suc (a + b) ≤ fuel
      → read key fuel (b'"' ∷ (k ++ (b'"' ∷ b':' ∷ s))) ≡ some (member k v ms, out)
  unfolding read
  key_run zero h = absurd (omega arith)
  key_run (suc fuel) h =
      rw (q (b':' ∷ s)) (rw (rv.run fuel (omega arith)) (rw (rm.run fuel (omega arith))))

  more_run :
      (fuel : ℕ)
      → suc (suc (a + b)) ≤ fuel
      → read more fuel (b',' ∷ b'"' ∷ (k ++ (b'"' ∷ b':' ∷ s))) ≡ some (member k v ms, out)
  unfolding read
  more_run zero h = absurd (omega arith)
  more_run (suc fuel) h = key_run fuel (omega arith)

  object_run :
      (fuel : ℕ)
      → suc (suc (suc (a + b))) ≤ fuel
      → read value fuel (b'{' ∷ b'"' ∷ (k ++ (b'"' ∷ b':' ∷ s))) ≡ some (member k v ms, out)
  unfolding read
  object_run zero h = absurd (omega arith)
  object_run (suc zero) h = absurd (omega arith)
  object_run (suc (suc fuel)) h = key_run fuel (omega arith)

  -- A member behind another one.
  pub more-Reads :
      Reads more (b',' ∷ b'"' ∷ (k ++ (b'"' ∷ b':' ∷ s))) (member k v ms) out (suc (suc (a + b)))
  more-Reads = record { run = more_run }

  -- An object from its first member on.
  pub object-Reads :
      Reads value
        (b'{' ∷ b'"' ∷ (k ++ (b'"' ∷ b':' ∷ s)))
        (member k v ms)
        out
        (suc (suc (suc (a + b))))
  object-Reads = record { run = object_run }

end_run :
    (rest : Bytes) (fuel : ℕ) → 1 ≤ fuel → read more fuel (b'}' ∷ rest) ≡ some (no_members, rest)
unfolding read
end_run rest zero h = absurd (omega arith)
end_run rest (suc fuel) h = refl

pub end-Reads : (rest : Bytes) → Reads more (b'}' ∷ rest) no_members rest 1
end-Reads rest = record { run = end_run rest }

-- A text that does not go on with a digit.
abbrev pub Stops : Bytes → Type 0
Stops [] = Unit
Stops (c ∷ s) = is_digit c ≡ false

pub more-Stops : (s : Bytes) {rest : Bytes} {v : Value} {b : ℕ} → Reads more s v rest b → Stops s
unfolding read
more-Stops [] r = tt
more-Stops (c ∷ s) {b} r = ground (arith, r.run (suc b) (omega arith))
