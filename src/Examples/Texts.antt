-- ===== src/Examples/Texts.antt =====
-- The texts of versions, flags and builders.
use libgitledger.Prelude.{
  ◌≡◌, ◌⊎◌, ◌+◌, ◌<◌, ◌≤◌, refl, true, none, some, [], ◌∷◌, ◌++◌, arith, inl, inr, length,
}
use libgitledger.Text.{Bytes, codes, c_string, snprintf_result}
use libgitledger.Version.{SemanticVersion, Cursor, snprintf_value}
use libgitledger.Version.Render.{snprintf_value_lem, snprintf_value_no_room, version_text}
use libgitledger.ErrorCode.{
  Domain, Code, domain_name, code_name, code_flags, default_flags, flags_format,
}
use libgitledger.ErrorCode.FlagsFormat.{flags_text, flags_format_lem, flags_format_no_room}
use libgitledger.Buffer.{size_max}
use libgitledger.ErrorCode.Names.{read_domain, read_code, known_domain, known_code, names_lem}
use libgitledger.Buffer.{Buf, init, append, finalize}
use libgitledger.Buffer.Contents.{Represents, init-Represents, finalize_lem}
use libgitledger.Buffer.Append.{append-Represents, append_lem}
use libgitledger.Json.{escape_byte, json_escape}
use libgitledger.Json.Reader.{plain, read_body}
use libgitledger.Json.Escape.{escape_text, json_escape-read_body}
use libgitledger.Examples.World.{zeros}

abbrev big : SemanticVersion
big = record { major = 4294967295; minor = 10; patch = 7 }

snprintf_value_lem_example :
    snprintf_value big (some (zeros 8)) 8
    ≡ (length (version_text big), some (snprintf_result (version_text big) (zeros 8) 8))
snprintf_value_lem_example =
    snprintf_value_lem big (zeros 8) 8
      (record { major = omega arith; minor = omega arith; patch = omega arith }) (omega arith)
      (omega arith)

snprintf_value_no_room_example : snprintf_value big none 8 ≡ (length (version_text big), none)
snprintf_value_no_room_example = snprintf_value_no_room big none 8 (inl refl)

abbrev cursor : Cursor
cursor = record { written = codes "v"; remaining = 10 }

flags_format_lem_example :
    flags_format 7 (some (zeros 12)) 12
    ≡ (length (flags_text 7), some (snprintf_result (flags_text 7) (zeros 12) 12))
flags_format_lem_example = flags_format_lem 7 (zeros 12) 12 (omega arith) (omega arith)

flags_format_no_room_example : flags_format 7 (some []) 0 ≡ (length (flags_text 7), some [])
flags_format_no_room_example = flags_format_no_room 7 (some []) 0 (inr refl)

abbrev started : Buf
started = init (some (zeros 4)) 4

started-Represents : Represents started.array 4 [] started
unfolding init
started-Represents = init-Represents (some (zeros 4)) 4 (omega arith) (omega arith)

finalize_lem_example :
    (finalize (append started (codes "abcde"))).array
    ≡ some (snprintf_result (codes "abcde") (zeros 4) 4)
finalize_lem_example =
    finalize_lem (zeros 4) (codes "abcde") 4 (append started (codes "abcde")) (omega arith)
      (omega arith) (append-Represents [] (codes "abcde") started started-Represents (omega arith))

-- `hi"`, with a NUL and more behind it.
json_escape-read_body_example :
    (body : Bytes) × Represents started.array 4
      ([] ++ body)
      (json_escape started (some (codes "hi\"" ++ (0 ∷ 65 ∷ []))))
    × ((rest : Bytes)
        → read_body plain (body ++ (b'"' ∷ rest))
          ≡ some (c_string (codes "hi\"" ++ (0 ∷ 65 ∷ [])), rest))
unfolding escape_text escape_byte c_string
json_escape-read_body_example =
    json_escape-read_body started.array 4 [] (codes "hi\"" ++ (0 ∷ 65 ∷ [])) started
      started-Represents (omega arith)

names_lem_example :
    (read_domain (domain_name Domain.git) ≡ known_domain Domain.git)
    × (read_code (code_name Code.oom) ≡ some (known_code Code.oom))
names_lem_example = names_lem Domain.git Code.oom

-- Five bytes in an array of four.
append_lem_example :
    ((0 + 5 ≤ size_max)
      × Represents started.array 4 (codes "abcde") (append started (codes "abcde")))
    ⊎ ((size_max < 0 + 5)
        × (append started (codes "abcde")
            ≡ record started { required = size_max; overflow = true }))
append_lem_example =
    append_lem [] (codes "abcde") started started-Represents (omega arith) (omega arith)

-- The flags of the table in docs/SPEC.md, but for AUTH with TRUST, and of the codes alone.
flags_of_table :
    (default_flags Domain.git Code.not_found ≡ 0)
    × (default_flags Domain.git Code.conflict ≡ 0)
    × (default_flags Domain.policy Code.policy_violation ≡ 2)
    × (default_flags Domain.trust Code.trust_violation ≡ 2)
    × (default_flags Domain.io Code.io_error ≡ 1)
    × (default_flags Domain.generic Code.oom ≡ 1)
    × (default_flags Domain.generic Code.io_error ≡ 1)
    × (default_flags Domain.generic Code.invalid_argument ≡ 2)
unfolding default_flags code_flags
flags_of_table = (refl, refl, refl, refl, refl, refl, refl, refl)
