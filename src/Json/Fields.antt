-- ===== src/Json/Fields.antt =====
-- The text of one error's fields, and that `json_write_error_fields` writes it.
use libgitledger.Prelude.{
  ℕ, ◌≡◌, refl, Bool, true, false, Option, none, some, [], ◌∷◌, ◌++◌, if◌then◌else◌, arith,
}
use libgitledger.Text.{Bytes, codes, c_string, CInt, IsText, signed_decimal}
use libgitledger.Buffer.{Buf, putc}
use libgitledger.ErrorCode.{
  Domain, Code, has_flag, flag_retryable, flag_permanent, flag_auth, domain_to_string,
  code_to_string,
}
use libgitledger.Memory.{ErrorObject}
use libgitledger.Json.{
  json_escape, write_flag, write_flags_array, write_string, write_file, write_func, write_fields,
}
use libgitledger.Json.Writer.{
  Writes, append-Writes, putc-Writes, literal-Writes, nothing-Writes, then-Writes,
}
use libgitledger.Json.Escape.{escape_text, escape_loop-Writes}

-- The text between the quotes of a string field.
unfoldable pub string_text : Option Bytes → Bytes
string_text none = []
string_text (some text) = escape_text (c_string text)

-- A comma stands before each flag but the first.
unfoldable pub flag_item : Bool → Bytes → Bytes × Bool → Bytes × Bool
flag_item present name (text, first) =
    if present
    then (if first then text ++ name else (text ++ (b',' ∷ [])) ++ name, false)
    else (text, first)

unfoldable pub flags_array_text : ℕ → Bytes
flags_array_text flags =
    let a = flag_item (has_flag flags flag_retryable) (codes "\"RETRYABLE\"") (b'[' ∷ [], true) in
    let b = flag_item (has_flag flags flag_permanent) (codes "\"PERMANENT\"") a in
    let c = flag_item (has_flag flags flag_auth) (codes "\"AUTH\"") b in c.0 ++ (b']' ∷ [])

unfoldable pub file_text : Option Bytes → CInt → Bytes
file_text none line = []
file_text (some name) line =
    ((codes ",\"file\":\"" ++ (string_text (some name) ++ (b'"' ∷ []))) ++ codes ",\"line\":")
    ++ signed_decimal line

unfoldable pub func_text : Option Bytes → Bytes
func_text none = []
func_text (some name) = codes ",\"func\":\"" ++ (string_text (some name) ++ (b'"' ∷ []))

-- The members of an error's object, without its cause.
unfoldable pub fields_text : ErrorObject → Option Bytes → Bytes
fields_text e message =
    codes "\"domain\":\""
    ++ (domain_to_string e.domain
        ++ ((b'"' ∷ [])
            ++ (codes ",\"code\":\""
                ++ (code_to_string e.code
                    ++ ((b'"' ∷ [])
                        ++ (codes ",\"flags\":"
                            ++ (flags_array_text e.flags
                                ++ ((codes ",\"message\":\""
                                      ++ (string_text message ++ (b'"' ∷ [])))
                                    ++ (file_text e.file e.line ++ func_text e.func)))))))))

json_escape-Writes : (text : Option Bytes) → Writes (λ buf. json_escape buf text) (string_text text)
unfolding json_escape string_text
json_escape-Writes none = nothing-Writes
json_escape-Writes (some text) = escape_loop-Writes (c_string text)

write_string-Writes :
    (prefix : Bytes) (text : Option Bytes)
    → IsText prefix
    → Writes (write_string prefix text) (prefix ++ (string_text text ++ (b'"' ∷ [])))
unfolding write_string
write_string-Writes prefix text t =
    then-Writes prefix _ (literal-Writes prefix t)
      (then-Writes (string_text text) _ (json_escape-Writes text) (putc-Writes b'"'))

-- `f` has written `front` and `item` tells whether the next flag is the first.
FlagWrites : (Buf → Buf × Bool) → Bytes × Bool → Type 0
FlagWrites f (text, first) = Writes (λ buf. (f buf).0) text × ((buf : Buf) → (f buf).1 ≡ first)

write_flag-Writes :
    (present : Bool) (name : Bytes) (f : Buf → Buf × Bool) (item : Bytes × Bool)
    → IsText name
    → FlagWrites f item
    → FlagWrites (λ buf. write_flag present name (f buf)) (flag_item present name item)
unfolding FlagWrites write_flag flag_item
write_flag-Writes false name f (text, first) t (w, e) = (w, e)
write_flag-Writes true name f (text, true) t (w, e) = (
  record {
    run = λ storage cap front buf rep fits.
        rw (e buf)
          ((then-Writes text name w (literal-Writes name t)).run storage cap front buf rep fits);
  },
  λ buf. refl,
)
write_flag-Writes true name f (text, false) t (w, e) = (
  record {
    run = λ storage cap front buf rep fits. rw (e buf) (
        (then-Writes (text ++ (b',' ∷ [])) name (then-Writes text (b',' ∷ []) w (putc-Writes b','))
            (literal-Writes name t)).run
          storage cap front buf rep fits);
  },
  λ buf. refl,
)

write_flags_array-Writes :
    (flags : ℕ) → Writes (λ buf. write_flags_array buf flags) (flags_array_text flags)
unfolding write_flags_array flags_array_text FlagWrites
write_flags_array-Writes flags =
    then-Writes _ (b']' ∷ [])
      (write_flag-Writes (has_flag flags flag_auth) (codes "\"AUTH\"") _ _ (omega arith) (
        write_flag-Writes (has_flag flags flag_permanent) (codes "\"PERMANENT\"") _ _ (omega arith)
          (write_flag-Writes (has_flag flags flag_retryable) (codes "\"RETRYABLE\"")
            (λ buf. (putc buf b'[', true)) (b'[' ∷ [], true) (omega arith)
            (putc-Writes b'[', λ buf. refl)))).0
      (putc-Writes b']')

write_file-Writes :
    (name : Option Bytes) (line : CInt) → Writes (write_file name line) (file_text name line)
unfolding write_file file_text
write_file-Writes none line = nothing-Writes
write_file-Writes (some name) line =
    then-Writes _ (signed_decimal line)
      (then-Writes _ (codes ",\"line\":")
        (write_string-Writes (codes ",\"file\":\"") (some name) (omega arith))
        (literal-Writes _ (omega arith)))
      (append-Writes (signed_decimal line))

write_func-Writes : (name : Option Bytes) → Writes (write_func name) (func_text name)
unfolding write_func func_text
write_func-Writes none = nothing-Writes
write_func-Writes (some name) = write_string-Writes (codes ",\"func\":\"") (some name) (omega arith)

pub domain_to_string-IsText : (d : Domain) → IsText (domain_to_string d)
unfolding domain_to_string
domain_to_string-IsText Domain.ok = omega arith
domain_to_string-IsText Domain.generic = omega arith
domain_to_string-IsText Domain.allocator = omega arith
domain_to_string-IsText Domain.git = omega arith
domain_to_string-IsText Domain.policy = omega arith
domain_to_string-IsText Domain.trust = omega arith
domain_to_string-IsText Domain.io = omega arith
domain_to_string-IsText Domain.config = omega arith
domain_to_string-IsText (Domain.other n) = omega arith

pub code_to_string-IsText : (c : Code) → IsText (code_to_string c)
unfolding code_to_string
code_to_string-IsText Code.ok = omega arith
code_to_string-IsText Code.unknown = omega arith
code_to_string-IsText Code.oom = omega arith
code_to_string-IsText Code.invalid_argument = omega arith
code_to_string-IsText Code.not_found = omega arith
code_to_string-IsText Code.conflict = omega arith
code_to_string-IsText Code.permission_denied = omega arith
code_to_string-IsText Code.policy_violation = omega arith
code_to_string-IsText Code.trust_violation = omega arith
code_to_string-IsText Code.io_error = omega arith
code_to_string-IsText Code.dependency_missing = omega arith
code_to_string-IsText (Code.other n) = omega arith

-- For every error and message, `write_fields` appends the members of the error's JSON object to a
-- builder: domain, code, flags, message, file with line, and function.
pub write_fields-Writes :
    (e : ErrorObject) (message : Option Bytes)
    → Writes (write_fields e message) (fields_text e message)
unfolding write_fields fields_text
write_fields-Writes e message =
    then-Writes _ _ (literal-Writes (codes "\"domain\":\"") (omega arith)) (
      then-Writes _ _ (literal-Writes _ (domain_to_string-IsText e.domain)) (
        then-Writes _ _ (putc-Writes b'"') (
          then-Writes _ _ (literal-Writes (codes ",\"code\":\"") (omega arith)) (
            then-Writes _ _ (literal-Writes _ (code_to_string-IsText e.code)) (
              then-Writes _ _ (putc-Writes b'"') (
                then-Writes _ _ (literal-Writes (codes ",\"flags\":") (omega arith)) (
                  then-Writes _ _ (write_flags_array-Writes e.flags) (
                    then-Writes _ _
                      (write_string-Writes (codes ",\"message\":\"") message (omega arith))
                      (then-Writes _ _ (write_file-Writes e.file e.line)
                        (write_func-Writes e.func))))))))))
