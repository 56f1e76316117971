-- ===== src/Json/Writer.antt =====
-- Functions on a builder that add a known text to it, and how they compose.
use libgitledger.Prelude.{
  ℕ, ◌+◌, ◌≤◌, Option, [], ◌∷◌, ◌++◌, append-nil, append_assoc, arith, length, length-append,
}
use libgitledger.Text.{Bytes, IsText}
use libgitledger.Text.Strings.{c_string-eq}
use libgitledger.Buffer.{size_max, Buf, append, putc, append_literal}
use libgitledger.Buffer.Contents.{Represents}
use libgitledger.Buffer.Append.{append-Represents}

-- `f` adds `text`, as long as the length of it all can be counted.
pub record Writes (f : Buf → Buf) (text : Bytes) : Type 0 where
  pub run :
      (storage : Option Bytes) (cap : ℕ) (front : Bytes) (buf : Buf)
      → Represents storage cap front buf
      → length front + length text ≤ size_max
      → Represents storage cap (front ++ text) (f buf)

pub append-Writes : (chunk : Bytes) → Writes (λ buf. append buf chunk) chunk
append-Writes chunk = record {
  run = λ storage cap front buf rep fits. append-Represents front chunk buf rep fits;
}

pub putc-Writes : (c : ℕ) → Writes (λ buf. putc buf c) (c ∷ [])
unfolding putc
putc-Writes c = append-Writes (c ∷ [])

pub literal-Writes : (text : Bytes) → IsText text → Writes (λ buf. append_literal buf text) text
unfolding append_literal
literal-Writes text t = rw (c_string-eq text t) (append-Writes text)

pub nothing-Writes : Writes (λ buf. buf) []
nothing-Writes = record { run = λ storage cap front buf rep fits. rw append-nil rep }

pub then-Writes :
    {f g : Buf → Buf} (x y : Bytes) → Writes f x → Writes g y → Writes (λ buf. g (f buf)) (x ++ y)
then-Writes {f} x y wf wg = record {
  run = λ storage cap front buf rep fits. rw (← append_assoc front x y) (
      wg.run storage cap (front ++ x) (f buf)
        (wf.run storage cap front buf rep (omega (arith, length-append x y)))
        (omega (arith, length-append x y, length-append front x)));
}
