-- ===== src/Examples/Caching.antt =====
-- The JSON of an error in its cache, and copies.
use libgitledger.Prelude.{◌<◌, ◌≡◌, refl, none, some, [], ◌∷◌, ◌++◌, arith, inr, length}
use libgitledger.Text.{codes, c_string, pos, signed_decimal}
use libgitledger.ErrorCode.{Domain, Code, domain_to_string, code_to_string}
use libgitledger.Buffer.{size_max}
use libgitledger.Memory.{null, ErrorObject, context, error, bytes, Memory, ok, write}
use libgitledger.Memory.Blocks.{block, At, At-write_self, At-write_ne}
use libgitledger.Context.{new_context}
use libgitledger.Context.Registry.{IsContext, IsContext-write_ne, nil}
use libgitledger.Error.{zeroed_error}
use libgitledger.Cache.{cached, error_json, json_copy, message_copy}
use libgitledger.Cache.Fill.{holder, view, with_cache, Filled, error_json-fill}
use libgitledger.Cache.Stale.{Refreshed, error_json-stale}
use libgitledger.Cache.Copy.{Copied, message_copy-some}
use libgitledger.Cache.Snapshot.{own_text, json_copy-fill}
use libgitledger.Json.{escape_byte}
use libgitledger.Json.Escape.{escape_text}
use libgitledger.Json.Fields.{
  fields_text, flags_array_text, flag_item, string_text, file_text, func_text,
}
use libgitledger.Json.Render.Chain.{View, chain_text}
use libgitledger.Json.Render.Frame.{Stands, Causes, no_cause, cause}
use libgitledger.Json.Render.Depth.{json_text, capacity_for}
use libgitledger.Examples.World.{world, plain_allocator, empty_memory}

-- A context at 10; the error at 12 has the message at 13, and the error at 14 for its cause.
abbrev low : ErrorObject
low = record zeroed_error {
  domain = Domain.io;
  code = Code.io_error;
  flags = 1;
  refcount = 1;
  allocator = plain_allocator;
}

abbrev top : ErrorObject
top = record low {
  domain = Domain.generic;
  code = Code.oom;
  message = 13;
  cause = 14;
  file = some (codes "a.c");
  line = pos 7;
}

abbrev base : Memory
base =
    write
      (write
        (write empty_memory 10
          (some (block plain_allocator (context (new_context plain_allocator)))))
        14 (some (block plain_allocator (error low))))
      13 (some (block plain_allocator (bytes (codes "hi" ++ (0 ∷ [])))))

-- The error's cache, and its generation.
abbrev with_error : ErrorObject → Memory
with_error e = write base 12 (some (block plain_allocator (error e)))

base-IsContext : IsContext base 10 (new_context plain_allocator) []
base-IsContext = IsContext-write_ne 13 _ refl refl (
    IsContext-write_ne 14 _ refl refl record {
      at = At-write_self empty_memory 10 _ refl;
      magic = refl;
      unlocked = refl;
      can_alloc = refl;
      can_free = refl;
      nodes = nil refl;
    })

live : (e : ErrorObject) → IsContext (with_error e) 10 (new_context plain_allocator) []
live e = IsContext-write_ne 12 _ refl refl base-IsContext

abbrev idle : ErrorObject
idle = holder 10 1 null top

message_at : At (with_error idle) 13 (block plain_allocator (bytes (codes "hi" ++ (0 ∷ []))))
message_at = At-write_ne 12 _ (At-write_self _ 13 _ refl) refl

abbrev idle_view : View
idle_view = view idle (some (codes "hi" ++ (0 ∷ [])))

abbrev low_view : View
low_view = view low none

abbrev idle_stands : Stands (with_error idle) 12 idle_view
idle_stands = record {
  owner = plain_allocator;
  at = At-write_self base 12 _ refl;
  message = (plain_allocator, message_at);
}

low-Stands : Stands (with_error idle) 14 low_view
low-Stands = record {
  owner = plain_allocator;
  at = At-write_ne 12 _ (At-write_ne 13 _ (At-write_self _ 14 _ refl) refl) refl;
  message = refl;
}

low-Causes : Causes (with_error idle) 14 (low_view ∷ [])
low-Causes = cause low-Stands (no_cause refl)

text_fits : length (json_text world (with_error idle) idle_view (low_view ∷ [])) < size_max
unfolding json_text chain_text capacity_for fields_text domain_to_string code_to_string
    flags_array_text flag_item string_text escape_text c_string escape_byte file_text signed_decimal
    func_text
text_fits = omega arith

error_json-fill_example :
    (error_json world 12 (with_error idle)
      ≡ ok (cached 11) (
          with_cache
            (with_error idle)
            10
            12
            (new_context plain_allocator)
            plain_allocator
            top
            (json_text world (with_error idle) idle_view (low_view ∷ []))
            11))
    × Filled
        (with_error idle)
        10
        12
        (new_context plain_allocator)
        []
        plain_allocator
        top
        (json_text world (with_error idle) idle_view (low_view ∷ []))
        11
        (with_cache
          (with_error idle)
          10
          12
          (new_context plain_allocator)
          plain_allocator
          top
          (json_text world (with_error idle) idle_view (low_view ∷ []))
          11)
unfolding write capacity_for
error_json-fill_example =
    error_json-fill world top (some (codes "hi" ++ (0 ∷ []))) (live idle) idle_stands low-Causes
      text_fits 11 refl (omega arith) refl

-- The cache at 13 is of generation 0.
error_json-stale_example :
    (m' : Memory) × (error_json world 12 (with_error (holder 10 0 13 top)) ≡ error_json world 12 m')
    × Refreshed
        (with_error (holder 10 0 13 top))
        10
        12
        (new_context plain_allocator)
        []
        plain_allocator
        13
        top
        m'
error_json-stale_example =
    error_json-stale world 0 top (live (holder 10 0 13 top)) (At-write_self base 12 _ refl) refl
      (inr (codes "hi" ++ (0 ∷ []), At-write_ne 12 _ (At-write_self _ 13 _ refl) refl))

json_copy-fill_example :
    (m' : Memory) × (json_copy world 10 12 (with_error idle) ≡ ok 15 m')
    × Copied
        (with_cache
          (with_error idle)
          10
          12
          (new_context plain_allocator)
          plain_allocator
          top
          (own_text world
            (with_error idle)
            10
            (new_context plain_allocator)
            top
            (some (codes "hi" ++ (0 ∷ [])))
            (low_view ∷ []))
          11)
        10
        (new_context plain_allocator)
        []
        (own_text world
          (with_error idle)
          10
          (new_context plain_allocator)
          top
          (some (codes "hi" ++ (0 ∷ [])))
          (low_view ∷ []))
        15
        m'
unfolding write capacity_for
json_copy-fill_example =
    json_copy-fill world top (some (codes "hi" ++ (0 ∷ []))) (live idle) idle_stands low-Causes 11
      15 text_fits refl (omega arith) refl refl (omega arith)

message_copy-some_example :
    (m' : Memory) × (message_copy world 10 12 (with_error idle) ≡ ok 11 m')
    × Copied
        (with_error idle)
        10
        (new_context plain_allocator)
        []
        (c_string (codes "hi" ++ (0 ∷ [])))
        11
        m'
unfolding write
message_copy-some_example =
    message_copy-some world idle (codes "hi" ++ (0 ∷ [])) (live idle) (At-write_self base 12 _ refl)
      message_at 11 refl (omega arith)
