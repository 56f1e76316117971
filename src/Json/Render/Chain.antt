-- ===== src/Json/Render/Chain.antt =====
-- Chains of causes in the memory, the text of a chain, and the plain recursion that writes it.
use libgitledger.Prelude.{
  ℕ, zero, suc, ◌≤◌, ◌≡◌, refl, false, Option, List, [], ◌∷◌, ◌++◌, ◌==◌, arith, length, ap,
}
use libgitledger.Text.{Bytes, codes}
use libgitledger.Buffer.{Buf, putc, append_literal}
use libgitledger.Memory.{Ptr, null, ErrorObject, Memory, ok, load_error}
use libgitledger.Json.{load_message, write_fields}
use libgitledger.Json.Writer.{Writes, putc-Writes, literal-Writes, then-Writes}
use libgitledger.Json.Fields.{fields_text, write_fields-Writes}

-- What the memory holds of one error: the object, and the bytes of its message.
pub record View : Type 0 where
  pub object : ErrorObject
  pub message : Option Bytes

pub record Shows (m : Memory) (p : Ptr) (v : View) : Type 0 where
  pub not_null : (p == null) ≡ false
  pub object : load_error p m ≡ ok v.object m
  pub message : load_message v.object m ≡ ok v.message m

-- From `p` the causes lead through the errors `vs` to NULL.
pub data Chain (m : Memory) : Ptr → List View → Type 0 where
  end : {p : Ptr} → p ≡ null → Chain m p []
  link :
      {p : Ptr} {v : View} {vs : List View}
      → Shows m p v
      → Chain m v.object.cause vs
      → Chain m p (v ∷ vs)

-- The JSON object of a chain, where `left` more objects may stand inside the first.
unfoldable pub chain_text : (left : ℕ) → List View → Bytes
chain_text left [] = []
chain_text left (v ∷ []) = (b'{' ∷ []) ++ (fields_text v.object v.message ++ (b'}' ∷ []))
chain_text zero (v ∷ w ∷ vs) =
    (b'{' ∷ [])
    ++ (fields_text v.object v.message ++ (codes ",\"cause\":{\"truncated\":true}" ++ (b'}' ∷ [])))
chain_text (suc left) (v ∷ w ∷ vs) =
    (b'{' ∷ [])
    ++ (fields_text v.object v.message
        ++ (codes ",\"cause\":" ++ (chain_text left (w ∷ vs) ++ (b'}' ∷ []))))

-- The JSON object of a chain with no limit on its depth.
unfoldable pub full_text : List View → Bytes
full_text [] = []
full_text (v ∷ []) = (b'{' ∷ []) ++ (fields_text v.object v.message ++ (b'}' ∷ []))
full_text (v ∷ w ∷ vs) =
    (b'{' ∷ [])
    ++ (fields_text v.object v.message
        ++ (codes ",\"cause\":" ++ (full_text (w ∷ vs) ++ (b'}' ∷ []))))

-- A chain that is not too deep is rendered whole.
pub chain_text_full :
    (left : ℕ) (v : View) (vs : List View)
    → length vs ≤ left
    → chain_text left (v ∷ vs) ≡ full_text (v ∷ vs)
unfolding chain_text full_text
chain_text_full zero v [] h = refl
chain_text_full (suc left) v [] h = refl
chain_text_full zero v (w ∷ vs) h = absurd (omega arith)
chain_text_full (suc left) v (w ∷ vs) h =
    ap (λ t. b'{' ∷ (fields_text v.object v.message ++ (codes ",\"cause\":" ++ (t ++ (b'}' ∷ [])))))
      (chain_text_full left w vs (omega arith))

-- The same text, written by recursion.
unfoldable pub chain_write : (left : ℕ) → View → List View → Buf → Buf
chain_write left v [] buf = putc (write_fields v.object v.message (putc buf b'{')) b'}'
chain_write zero v (w ∷ vs) buf =
    putc
      (append_literal (write_fields v.object v.message (putc buf b'{'))
        (codes ",\"cause\":{\"truncated\":true}"))
      b'}'
chain_write (suc left) v (w ∷ vs) buf =
    putc
      (chain_write left w vs
        (append_literal (write_fields v.object v.message (putc buf b'{')) (codes ",\"cause\":")))
      b'}'

pub chain_write-Writes :
    (left : ℕ) (v : View) (vs : List View)
    → Writes (chain_write left v vs) (chain_text left (v ∷ vs))
unfolding chain_write chain_text
chain_write-Writes zero v [] =
    then-Writes _ _ (putc-Writes b'{')
      (then-Writes _ _ (write_fields-Writes v.object v.message) (putc-Writes b'}'))
chain_write-Writes (suc left) v [] =
    then-Writes _ _ (putc-Writes b'{')
      (then-Writes _ _ (write_fields-Writes v.object v.message) (putc-Writes b'}'))
chain_write-Writes zero v (w ∷ vs) = then-Writes _ _ (putc-Writes b'{') (
    then-Writes _ _ (write_fields-Writes v.object v.message) (
      then-Writes _ _ (literal-Writes (codes ",\"cause\":{\"truncated\":true}") (omega arith))
        (putc-Writes b'}')))
chain_write-Writes (suc left) v (w ∷ vs) = then-Writes _ _ (putc-Writes b'{') (
    then-Writes _ _ (write_fields-Writes v.object v.message) (
      then-Writes _ _ (literal-Writes (codes ",\"cause\":") (omega arith))
        (then-Writes _ _ (chain_write-Writes left w vs) (putc-Writes b'}'))))
