-- ===== src/ErrorCode/Names.antt =====
-- The names of domains and codes in libgitledger/core/domain/error.c, read back.
use libgitledger.Prelude.{
  ◌≡◌, refl, Bool, true, false, ◌&&◌, Option, none, some, List, [], ◌∷◌, ◌==◌, if◌then◌else◌,
}
use libgitledger.Text.{Bytes, codes}
use libgitledger.ErrorCode.{Domain, Code, domain_to_string, code_to_string, domain_name, code_name}

abbrev same_text : Bytes → Bytes → Bool
same_text [] [] = true
same_text (a ∷ x) (b ∷ y) = a == b && same_text x y
same_text _ _ = false

-- The entry of a dictionary under a text.
abbrev look_up {ℓ} : {A : Type ℓ} → Bytes → List (Bytes × A) → Option A
look_up text [] = none
look_up text ((name, value) ∷ rest) =
    let found = look_up text rest in if same_text text name then some value else found

-- The enumerators of include/gitledger/error.h by the names in their identifiers.
abbrev pub domains : List (Bytes × Domain)
domains =
    (codes "OK", Domain.ok)
    ∷ (codes "GENERIC", Domain.generic)
    ∷ (codes "ALLOCATOR", Domain.allocator)
    ∷ (codes "GIT", Domain.git)
    ∷ (codes "POLICY", Domain.policy)
    ∷ (codes "TRUST", Domain.trust)
    ∷ (codes "IO", Domain.io)
    ∷ (codes "CONFIG", Domain.config)
    ∷ []

abbrev pub error_codes : List (Bytes × Code)
error_codes =
    (codes "OK", Code.ok)
    ∷ (codes "UNKNOWN", Code.unknown)
    ∷ (codes "OUT_OF_MEMORY", Code.oom)
    ∷ (codes "INVALID_ARGUMENT", Code.invalid_argument)
    ∷ (codes "NOT_FOUND", Code.not_found)
    ∷ (codes "CONFLICT", Code.conflict)
    ∷ (codes "PERMISSION_DENIED", Code.permission_denied)
    ∷ (codes "POLICY_VIOLATION", Code.policy_violation)
    ∷ (codes "TRUST_VIOLATION", Code.trust_violation)
    ∷ (codes "IO_ERROR", Code.io_error)
    ∷ (codes "DEPENDENCY_MISSING", Code.dependency_missing)
    ∷ []

abbrev pub read_domain : Bytes → Option Domain
read_domain text = look_up text domains

abbrev pub read_code : Bytes → Option Code
read_code text = look_up text error_codes

-- What a reader can know of a value that no enumerator has.
abbrev pub known_domain : Domain → Option Domain
known_domain (Domain.other n) = none
known_domain domain = some domain

abbrev pub known_code : Code → Code
known_code (Code.other n) = Code.unknown
known_code code = code

read-domain_name : (domain : Domain) → read_domain (domain_name domain) ≡ known_domain domain
unfolding domain_name domain_to_string
read-domain_name Domain.ok = refl
read-domain_name Domain.generic = refl
read-domain_name Domain.allocator = refl
read-domain_name Domain.git = refl
read-domain_name Domain.policy = refl
read-domain_name Domain.trust = refl
read-domain_name Domain.io = refl
read-domain_name Domain.config = refl
read-domain_name (Domain.other n) = refl

read-code_name : (code : Code) → read_code (code_name code) ≡ some (known_code code)
unfolding code_name code_to_string
read-code_name Code.ok = refl
read-code_name Code.unknown = refl
read-code_name Code.oom = refl
read-code_name Code.invalid_argument = refl
read-code_name Code.not_found = refl
read-code_name Code.conflict = refl
read-code_name Code.permission_denied = refl
read-code_name Code.policy_violation = refl
read-code_name Code.trust_violation = refl
read-code_name Code.io_error = refl
read-code_name Code.dependency_missing = refl
read-code_name (Code.other n) = refl

-- A dictionary from names to enumerators reads the name of every domain back as that domain and
-- the name of every code back as that code, while the name of a domain that is no enumerator is in
-- no entry, and the name of a code that is none is read as the enumerator UNKNOWN.
pub names_lem :
    (domain : Domain) (code : Code)
    → (read_domain (domain_name domain) ≡ known_domain domain)
      × (read_code (code_name code) ≡ some (known_code code))
names_lem domain code = (read-domain_name domain, read-code_name code)
