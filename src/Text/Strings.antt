-- ===== src/Text/Strings.antt =====
-- Reading NUL-terminated strings.
use libgitledger.Prelude.{
  ℕ, zero, suc, ◌+◌, ◌-◌, ◌<◌, ◌≤◌, min, drop, length, take_all, ◌≡◌, refl, ◌==◌, inl, inr,
  Bool-cases, [], ◌∷◌, ◌++◌, arith,
}
use libgitledger.Text.{Bytes, c_string, IsText, snprintf_result}

-- A NUL ends a text, whatever stands behind it.
pub c_string-append_nul : (text rest : Bytes) → IsText text → c_string (text ++ (0 ∷ rest)) ≡ text
unfolding c_string
c_string-append_nul [] rest h = refl
c_string-append_nul (c ∷ text) rest (h, t) = ground (arith, c_string-append_nul text rest t)

pub c_string-eq : (text : Bytes) → IsText text → c_string text ≡ text
unfolding c_string
c_string-eq [] h = refl
c_string-eq (c ∷ text) (h, t) = ground (arith, c_string-eq text t)

pub c_string-IsText : (text : Bytes) → IsText (c_string text)
unfolding c_string
c_string-IsText [] = tt
c_string-IsText (c ∷ text) = elim (Bool-cases (c == 0)) [
  | inl e ↦ rw e tt
  | inr e ↦ rw e (ground arith, c_string-IsText text)
]

pub IsText-append : (s t : Bytes) → IsText s → IsText t → IsText (s ++ t)
IsText-append [] t h k = k
IsText-append (c ∷ s) t (e, h) k = (e, IsText-append s t h k)

-- A text that fits is the C string of the array that `snprintf` leaves.
pub c_string-snprintf_result :
    (text buf : Bytes) (n : ℕ)
    → IsText text
    → length text < n
    → c_string (snprintf_result text buf n) ≡ text
unfolding snprintf_result
c_string-snprintf_result text buf n t h =
    let whole : min (length text) (n - 1) ≡ length text = omega arith in
    rw whole (rw (take_all (length text) text (omega arith)) (c_string-append_nul text _ t))

drop_all : (n : ℕ) (buf : Bytes) → length buf ≤ n → drop n buf ≡ []
drop_all zero [] h = refl
drop_all zero (c ∷ buf) h = absurd (omega arith)
drop_all (suc n) [] h = refl
drop_all (suc n) (c ∷ buf) h = drop_all n buf (omega arith)

-- A text fills an array that has room for it and its NUL.
pub snprintf_result_exact :
    (text buf : Bytes)
    → length buf ≡ length text + 1
    → snprintf_result text buf (length text + 1) ≡ text ++ (0 ∷ [])
unfolding snprintf_result
snprintf_result_exact text buf h =
    let whole : min (length text) (length text + 1 - 1) ≡ length text = omega arith in
    rw whole (
      rw (take_all (length text) text (omega arith))
        (rw (drop_all (suc (length text)) buf (omega arith))))
