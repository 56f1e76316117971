-- ===== src/Json/Decode/Fields.antt =====
-- The reader of JSON values on the members of an error's object.
use libgitledger.Prelude.{
  ℕ, suc, ◌+◌, ◌≤◌, ◌≡◌, refl, Bool, true, false, Option, none, some, [], ◌∷◌, ◌++◌, append_assoc,
  arith,
}
use libgitledger.Text.{Bytes, codes, c_string, CInt}
use libgitledger.ErrorCode.{
  Domain, Code, domain_to_string, code_to_string, has_flag, flag_retryable, flag_permanent,
  flag_auth, flag_names, add_name,
}
use libgitledger.Memory.{ErrorObject}
use libgitledger.Json.Reader.{read_body}
use libgitledger.Json.Escape.{escape_text, read_body-escape_text}
use libgitledger.Json.Fields.{
  fields_text, flags_array_text, flag_item, string_text, file_text, func_text,
}
use libgitledger.Json.Values.{Value, text, number, texts, member, value, more, read, read_texts}
use libgitledger.Json.Decode.{
  Reads, Quotes, weaken, text-Reads, more-Reads, object-Reads, more-Stops,
}
use libgitledger.Json.Decode.Numbers.{signed-Reads}

-- The values of an error's fields.
abbrev pub string_value : Option Bytes → Bytes
string_value none = []
string_value (some t) = c_string t

unfoldable pub file_value : Option Bytes → CInt → Value → Value
file_value none line others = others
file_value (some name) line others =
    member (codes "file") (text (c_string name)) (member (codes "line") (number line) others)

unfoldable pub func_value : Option Bytes → Value → Value
func_value none others = others
func_value (some name) others = member (codes "func") (text (c_string name)) others

unfoldable pub fields_value : ErrorObject → Option Bytes → (others : Value) → Value
fields_value e message others = member (codes "domain") (text (domain_to_string e.domain)) (
    member (codes "code") (text (code_to_string e.code)) (
      member (codes "flags") (texts (flag_names e.flags)) (
        member (codes "message") (text (string_value message))
          (file_value e.file e.line (func_value e.func others)))))

domain_to_string-Quotes : (d : Domain) → Quotes (domain_to_string d) (domain_to_string d)
unfolding domain_to_string read_body
domain_to_string-Quotes Domain.ok rest = refl
domain_to_string-Quotes Domain.generic rest = refl
domain_to_string-Quotes Domain.allocator rest = refl
domain_to_string-Quotes Domain.git rest = refl
domain_to_string-Quotes Domain.policy rest = refl
domain_to_string-Quotes Domain.trust rest = refl
domain_to_string-Quotes Domain.io rest = refl
domain_to_string-Quotes Domain.config rest = refl
domain_to_string-Quotes (Domain.other n) rest = refl

code_to_string-Quotes : (c : Code) → Quotes (code_to_string c) (code_to_string c)
unfolding code_to_string read_body
code_to_string-Quotes Code.ok rest = refl
code_to_string-Quotes Code.unknown rest = refl
code_to_string-Quotes Code.oom rest = refl
code_to_string-Quotes Code.invalid_argument rest = refl
code_to_string-Quotes Code.not_found rest = refl
code_to_string-Quotes Code.conflict rest = refl
code_to_string-Quotes Code.permission_denied rest = refl
code_to_string-Quotes Code.policy_violation rest = refl
code_to_string-Quotes Code.trust_violation rest = refl
code_to_string-Quotes Code.io_error rest = refl
code_to_string-Quotes Code.dependency_missing rest = refl
code_to_string-Quotes (Code.other n) rest = refl

string_text-Quotes : (t : Option Bytes) → Quotes (string_text t) (string_value t)
unfolding string_text escape_text
string_text-Quotes none rest = read_body-escape_text [] rest
string_text-Quotes (some t) rest = read_body-escape_text (c_string t) rest

-- The array of flag names, for each of the three flags there or not.
flags_run :
    (r p a : Bool) (rest : Bytes) (fuel : ℕ)
    → 5 ≤ fuel
    → read value fuel (
        (flag_item a (codes "\"AUTH\"") (
          flag_item p
            (codes "\"PERMANENT\"")
            (flag_item r (codes "\"RETRYABLE\"") (b'[' ∷ [], true)))).0
        ++ (b']' ∷ rest))
      ≡ some (
        texts (
            add_name a
              (codes "AUTH")
              (add_name p (codes "PERMANENT") (add_name r (codes "RETRYABLE") []))),
        rest,
      )
unfolding read read_texts read_body flag_item add_name
flags_run true true true rest (suc (suc (suc (suc (suc fuel))))) h = refl
flags_run true true false rest (suc (suc (suc (suc (suc fuel))))) h = refl
flags_run true false true rest (suc (suc (suc (suc (suc fuel))))) h = refl
flags_run true false false rest (suc (suc (suc (suc (suc fuel))))) h = refl
flags_run false true true rest (suc (suc (suc (suc (suc fuel))))) h = refl
flags_run false true false rest (suc (suc (suc (suc (suc fuel))))) h = refl
flags_run false false true rest (suc (suc (suc (suc (suc fuel))))) h = refl
flags_run false false false rest (suc (suc (suc (suc (suc fuel))))) h = refl
flags_run r p a rest _ h = absurd (omega arith)

flags-Reads :
    (flags : ℕ) (rest : Bytes)
    → Reads value (flags_array_text flags ++ rest) (texts (flag_names flags)) rest 5
unfolding flags_array_text flag_names
flags-Reads flags rest = rw append_assoc record {
  run =
      flags_run (has_flag flags flag_retryable) (has_flag flags flag_permanent)
        (has_flag flags flag_auth) rest;
}

-- The key of a member is a literal without escapes.
module _ {behind out : Bytes} {others : Value} {b : ℕ} (m : Reads more behind others out b) where
  -- A member with a string.
  string-Reads :
      (k body : Bytes) {t : Bytes}
      → Quotes k k
      → Quotes body t
      → Reads more
          (b',' ∷ b'"' ∷ (k ++ (b'"' ∷ b':' ∷ b'"' ∷ (body ++ (b'"' ∷ behind)))))
          (member k (text t) others)
          out
          (suc (suc (1 + b)))
  string-Reads k body q r = more-Reads q (text-Reads body behind r) m

  func-Reads :
      (name : Option Bytes)
      → Reads more (func_text name ++ behind) (func_value name others) out (b + 3)
  unfolding func_text func_value read_body
  func-Reads none = weaken (omega arith) m
  func-Reads (some name) = simp append_assoc (
      weaken (omega arith) (
        string-Reads (codes "func") (string_text (some name)) (λ s. refl)
          (string_text-Quotes (some name))))

module _ {behind out : Bytes} {others : Value} {b : ℕ} (m : Reads more behind others out b) where
  file-Reads :
      (name : Option Bytes) (line : CInt)
      → Reads more (file_text name line ++ behind) (file_value name line others) out (b + 6)
  unfolding file_text file_value read_body
  file-Reads none line = weaken (omega arith) m
  file-Reads (some name) line =
      let at_line =
        more-Reads {k = codes "line"} (λ s. refl) (signed-Reads line behind (more-Stops behind m))
          m in
      simp append_assoc (
        weaken (omega arith) (
          string-Reads at_line (codes "file") (string_text (some name)) (λ s. refl)
            (string_text-Quotes (some name))))

module _ (e : ErrorObject) (message : Option Bytes) {behind out : Bytes} {others : Value}
    {b : ℕ} where
  -- An error's object, as far as its cause.
  pub fields-Reads :
      Reads more behind others out b
      → Reads value
          (b'{' ∷ (fields_text e message ++ behind))
          (fields_value e message others)
          out
          (b + 26)
  unfolding fields_text fields_value read_body
  fields-Reads m =
      let at_func = func-Reads m e.func in
      let at_file = file-Reads at_func e.file e.line in
      let at_message =
        string-Reads at_file (codes "message") (string_text message) (λ s. refl)
          (string_text-Quotes message) in
      let at_flags =
        more-Reads {k = codes "flags"} (λ s. refl) (flags-Reads e.flags _) at_message in
      let at_code =
        string-Reads at_flags (codes "code") (code_to_string e.code) (λ s. refl)
          (code_to_string-Quotes e.code) in
      let at_domain =
        object-Reads {k = codes "domain"} (λ s. refl)
          (text-Reads (domain_to_string e.domain) _ (domain_to_string-Quotes e.domain)) at_code in
      simp append_assoc (weaken (omega arith) at_domain)
