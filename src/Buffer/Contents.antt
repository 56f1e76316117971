-- ===== src/Buffer/Contents.antt =====
-- The text that a builder stands for, and the builder at its start and its end.
use mathlib.Core.Option
use libgitledger.Prelude.{
  ℕ, suc, ◌-◌, ◌≤◌, ◌<◌, ◌≡◌, refl, sym, ap, ◌∙◌, true, false, ◌&&◌, Option, none, some, [], ◌∷◌,
  ◌++◌, arith, ltb, ◌==◌, if◌then◌else◌, min, length, length-set, set, take, drop, set_behind_take,
}
use libgitledger.Text.{Bytes, snprintf_result}
use libgitledger.Buffer.{size_max, Buf, usable, init, finalize}

abbrev pub room : Option Bytes → ℕ
room none = 0
room (some xs) = length xs

-- The array with the first `k` bytes of `text` over its front.
abbrev pub overlaid : ℕ → Bytes → Option Bytes → Option Bytes
overlaid k text storage = Option.map (λ xs. take k text ++ drop k xs) storage

-- `buf` was made over `storage` with the capacity `cap`, and holds as much of `text` as fits
-- before a final NUL.
pub record Holds (storage : Option Bytes) (cap : ℕ) (text : Bytes) (buf : Buf) : Type 0 where
  pub within : cap ≤ room storage
  pub limit : cap ≤ size_max
  pub capacity : buf.capacity ≡ cap
  pub stored : buf.length ≡ min (length text) (cap - 1)
  pub array : buf.array ≡ overlaid buf.length text storage
  pub overflow : buf.overflow ≡ (ltb 0 cap && ltb (cap - 1) (length text))

-- It has counted all of `text` as well.
pub record Represents (storage : Option Bytes) (cap : ℕ) (text : Bytes) (buf : Buf) : Type 0 where
  pub holds : Holds storage cap text buf
  pub required : buf.required ≡ length text

overlaid_zero : (text : Bytes) (storage : Option Bytes) → overlaid 0 text storage ≡ storage
overlaid_zero text none = refl
overlaid_zero text (some xs) = refl

-- A new builder has no text.
pub init-Represents :
    (storage : Option Bytes) (cap : ℕ)
    → cap ≤ size_max
    → usable storage cap ≤ room storage
    → Represents (init storage cap).array (usable storage cap) [] (init storage cap)
unfolding init
init-Represents none cap limit within = record {
  holds = record {
    within = within;
    limit = omega arith;
    capacity = refl;
    stored = refl;
    array = refl;
    overflow = refl;
  };
  required = refl;
}
init-Represents (some xs) cap limit within = record {
  holds = record {
    within = ground (arith, length-set xs 0 0);
    limit = limit;
    capacity = refl;
    stored = omega arith;
    array = sym (overlaid_zero [] _);
    overflow = ground arith;
  };
  required = refl;
}

drop-set : (xs : Bytes) (k v : ℕ) → drop (suc k) (set xs 0 v) ≡ drop (suc k) xs
drop-set [] k v = refl
drop-set (x ∷ xs) k v = refl

-- Where a builder over an array and a capacity of at least 1 within it represents a text, the
-- array after `finalize` is what `snprintf` would leave of that text.
pub finalize_lem :
    (storage text : Bytes) (cap : ℕ) (buf : Buf)
    → 0 < cap
    → cap ≤ length storage
    → Represents (init (some storage) cap).array cap text buf
    → (finalize buf).array ≡ some (snprintf_result text storage cap)
unfolding finalize init snprintf_result
finalize_lem storage text cap buf pos fits rep =
    let h = rep.holds in
    let some_room : (buf.capacity == 0) ≡ false = ground (arith, h.capacity) in
    let zeroed : ltb 0 cap ≡ true = ground arith in
    let index : (if ltb buf.length buf.capacity then buf.length else buf.capacity - 1)
        ≡ min (length text) (cap - 1) =
      ground (arith, h.capacity, h.stored) in
    rw some_room (
      rw index (
        rw (h.array, zeroed, h.stored)
          (ap some (
            set_behind_take (min (length text) (cap - 1)) text (set storage 0 0) 0 (omega arith)
              (omega (arith, length-set storage 0 0))
            ∙ rw drop-set))))

-- With no array, or no room, finishing changes nothing.
pub finalize_no_room :
    {storage : Option Bytes} {text : Bytes} (buf : Buf)
    → Represents storage 0 text buf
    → (finalize buf).array ≡ storage
unfolding finalize
finalize_no_room {storage} {text} buf rep =
    let full : (buf.capacity == 0) ≡ true = ground (arith, rep.holds.capacity) in
    let empty : buf.length ≡ 0 = omega (arith, rep.holds.stored) in
    rw full (rep.holds.array ∙ rw empty (overlaid_zero text storage))
