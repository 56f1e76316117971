-- ===== src/ErrorCode.antt =====
-- The enumerations and flags of include/gitledger/error.h, with their names and defaults, and
-- `gitledger_error_flags_format`, from libgitledger/core/domain/error.c.
pub mod Names
pub mod FlagsFormat
use mathlib.Core.Option
use libgitledger.Prelude.{
  ℕ, zero, suc, ◌+◌, ◌-◌, Bool, true, false, not, ◌&&◌, Option, none, some, List, [], ◌∷◌, ◌++◌,
  ltb, ◌==◌, if◌then◌else◌, length, set, bit_and,
}
use libgitledger.Text.{Bytes, codes}

-- A C enumeration can hold a number that none of its enumerators has: `other`.
pub data Domain : Type 0 where
  ok generic allocator git policy trust io config : Domain
  other : ℕ → Domain

pub data Code : Type 0 where
  ok unknown oom invalid_argument not_found conflict permission_denied : Code
  policy_violation trust_violation io_error dependency_missing : Code
  other : ℕ → Code

-- `gitledger_error_flags_t` is a `uint32_t` of bits.
abbrev pub flag_none : ℕ
flag_none = 0

abbrev pub flag_retryable : ℕ
flag_retryable = 1

abbrev pub flag_permanent : ℕ
flag_permanent = 2

abbrev pub flag_auth : ℕ
flag_auth = 4

-- `(flags & flag) != 0U`
abbrev pub has_flag : ℕ → ℕ → Bool
has_flag flags flag = not (bit_and flags flag == 0)

-- The second `switch` of `default_flags`.
unfoldable pub code_flags : Code → ℕ
code_flags Code.oom = flag_retryable
code_flags Code.io_error = flag_retryable
code_flags Code.policy_violation = flag_permanent
code_flags Code.trust_violation = flag_permanent
code_flags Code.invalid_argument = flag_permanent
code_flags _ = flag_none

unfoldable pub default_flags : Domain → Code → ℕ
unfolding code_flags
default_flags Domain.io code = flag_retryable
default_flags Domain.policy code = flag_permanent
default_flags Domain.trust code = flag_permanent
default_flags _ code = code_flags code

unfoldable pub domain_to_string : Domain → Bytes
domain_to_string Domain.ok = codes "OK"
domain_to_string Domain.generic = codes "GENERIC"
domain_to_string Domain.allocator = codes "ALLOCATOR"
domain_to_string Domain.git = codes "GIT"
domain_to_string Domain.policy = codes "POLICY"
domain_to_string Domain.trust = codes "TRUST"
domain_to_string Domain.io = codes "IO"
domain_to_string Domain.config = codes "CONFIG"
domain_to_string (Domain.other n) = codes "UNKNOWN"

unfoldable pub code_to_string : Code → Bytes
code_to_string Code.ok = codes "OK"
code_to_string Code.unknown = codes "UNKNOWN"
code_to_string Code.oom = codes "OUT_OF_MEMORY"
code_to_string Code.invalid_argument = codes "INVALID_ARGUMENT"
code_to_string Code.not_found = codes "NOT_FOUND"
code_to_string Code.conflict = codes "CONFLICT"
code_to_string Code.permission_denied = codes "PERMISSION_DENIED"
code_to_string Code.policy_violation = codes "POLICY_VIOLATION"
code_to_string Code.trust_violation = codes "TRUST_VIOLATION"
code_to_string Code.io_error = codes "IO_ERROR"
code_to_string Code.dependency_missing = codes "DEPENDENCY_MISSING"
code_to_string (Code.other n) = codes "UNKNOWN"

-- `gitledger_domain_name` and `gitledger_code_name`.
unfoldable pub domain_name : Domain → Bytes
domain_name domain = domain_to_string domain

unfoldable pub code_name : Code → Bytes
code_name code = code_to_string code

-- `names[count++] = name;` under a flag's test.
unfoldable pub add_name : Bool → Bytes → List Bytes → List Bytes
add_name present name names = if present then names ++ (name ∷ []) else names

-- `names[0]` to `names[count - 1]`.
unfoldable pub flag_names : ℕ → List Bytes
unfolding add_name
flag_names flags = add_name (has_flag flags flag_auth) (codes "AUTH") (
    add_name (has_flag flags flag_permanent) (codes "PERMANENT")
      (add_name (has_flag flags flag_retryable) (codes "RETRYABLE") []))

required_loop : List Bytes → ℕ → ℕ
required_loop [] required = required
required_loop (name ∷ names) required =
    required_loop names ((if ltb 0 required then required + 1 else required) + length name)

-- The array `buf` and the count `written` in the second loop.
pub record Output : Type 0 where
  pub array : Bytes
  pub written : ℕ

-- `buf[written++] = c;`
abbrev pub put : Output → ℕ → Output
put out c = record { array = set out.array out.written c; written = out.written + 1 }

-- `while (*name && written < size - 1U) buf[written++] = *name++;`
name_loop : (size : ℕ) → Bytes → Output → Output
name_loop size [] out = out
name_loop size (c ∷ name) out =
    let rest = name_loop size name (put out c) in if ltb out.written (size - 1) then rest else out

write_loop : (size : ℕ) → List Bytes → Output → Output
unfolding name_loop
write_loop size [] out = out
write_loop size (name ∷ names) out = write_loop size names (
    name_loop size name
      (if ltb 0 out.written && ltb out.written (size - 1) then put out b'|' else out))

pub flags_format : ℕ → Option Bytes → ℕ → ℕ × Option Bytes
unfolding required_loop write_loop
flags_format flags none size = (required_loop (flag_names flags) 0, none)
flags_format flags (some buf) size =
    let out = write_loop size (flag_names flags) (record { array = buf; written = 0 }) in
    let index = if ltb out.written size then out.written else size - 1 in
    (required_loop (flag_names flags) 0, some (if ltb 0 size then set out.array index 0 else buf))
