-- ===== src/Examples/Rendering.antt =====
-- Errors as JSON: an error in a memory, and its cause.
use libgitledger.Prelude.{
  ◌+◌, ◌-◌, ◌*◌, ◌<◌, ◌≡◌, ◌||◌, refl, false, none, some, [], ◌∷◌, ◌++◌, arith, inl, length, ltb,
}
use libgitledger.Text.{Bytes, codes, c_string, pos, signed_decimal, snprintf_result}
use libgitledger.ErrorCode.{Domain, Code, domain_to_string, code_to_string}
use libgitledger.Memory.{null, ErrorObject, error, bytes, Memory, ok, write}
use libgitledger.Memory.Blocks.{block, At, At-write_self, At-write_ne, load_error-At, load_bytes-At}
use libgitledger.Error.{zeroed_error}
use libgitledger.Buffer.{size_max, init}
use libgitledger.Json.{render_json, emit_loop, load_message, escape_byte}
use libgitledger.Json.Escape.{escape_text}
use libgitledger.Json.Fields.{
  fields_text, flags_array_text, flag_item, string_text, file_text, func_text,
}
use libgitledger.Json.Render.Chain.{
  View, Shows, Chain, end, link, chain_text, chain_write, full_text,
}
use libgitledger.Json.Render.Loop.{rounds, state, frame, emit_loop-Chain}
use libgitledger.Json.Render.Depth.{json_text, capacity_for, render_json_lem}
use libgitledger.Json.Render.Whole.{render_json-full_text}
use libgitledger.Json.Values.{value, read}
use libgitledger.Json.Decode.Causes.{chain_value}
use libgitledger.Json.RoundTrip.{render_json-read}
use libgitledger.Examples.World.{world, plain_allocator, empty_memory, zeros}

-- The error at 12 has the message at 13, and the error at 14 for its cause.
abbrev low : ErrorObject
low = record zeroed_error {
  domain = Domain.io;
  code = Code.io_error;
  flags = 1;
  refcount = 1;
  message = null;
}

abbrev top : ErrorObject
top = record zeroed_error {
  domain = Domain.generic;
  code = Code.oom;
  flags = 1;
  refcount = 1;
  message = 13;
  cause = 14;
  file = some (codes "a.c");
  line = pos 7;
}

abbrev m2 : Memory
m2 =
    write
      (write (write empty_memory 14 (some (block plain_allocator (error low)))) 13
        (some (block plain_allocator (bytes (codes "hi" ++ (0 ∷ []))))))
      12 (some (block plain_allocator (error top)))

abbrev low_view : View
low_view = record { object = low; message = none }

abbrev top_view : View
top_view = record { object = top; message = some (codes "hi" ++ (0 ∷ [])) }

low-Shows : Shows m2 14 low_view
unfolding load_message
low-Shows = record {
  not_null = refl;
  object = load_error-At {a = plain_allocator} (
      At-write_ne 12 _
        (At-write_ne 13 _ (At-write_self empty_memory 14 (block plain_allocator (error low)) refl)
          refl)
        refl);
  message = refl;
}

message-At : At m2 13 (block plain_allocator (bytes (codes "hi" ++ (0 ∷ []))))
message-At = At-write_ne 12 _ (At-write_self _ 13 _ refl) refl

top-Shows : Shows m2 12 top_view
unfolding load_message
top-Shows = record {
  not_null = refl;
  object =
      load_error-At {a = plain_allocator}
        (At-write_self _ 12 (block plain_allocator (error top)) refl);
  message = rw (load_bytes-At message-At) refl;
}

causes-Chain : Chain m2 14 (low_view ∷ [])
causes-Chain = link low-Shows (end refl)

-- With room for one frame more than the first, in three rounds.
emit_loop-Chain_example :
    emit_loop 5 2 (state (init none 0) (frame 12 0 ∷ []) false) m2
    ≡ emit_loop 2 2
        (state (chain_write 1 top_view (low_view ∷ []) (init none 0)) [] (false || ltb 1 1))
        m2
unfolding rounds
emit_loop-Chain_example =
    emit_loop-Chain 2 1 top-Shows causes-Chain [] refl (init none 0) false 5 2 refl

text_fits : length (json_text world m2 top_view (low_view ∷ [])) < size_max
unfolding json_text chain_text capacity_for fields_text domain_to_string code_to_string
    flags_array_text flag_item string_text escape_text c_string escape_byte file_text signed_decimal
    func_text
text_fits = omega arith

render_json_lem_example :
    render_json world 12 (some (zeros 40)) 40 m2
    ≡ ok
        (
          length (json_text world m2 top_view (low_view ∷ [])) + 1,
          some (snprintf_result (json_text world m2 top_view (low_view ∷ [])) (zeros 40) 40),
        )
        m2
render_json_lem_example =
    render_json_lem world top-Shows causes-Chain text_fits (zeros 40) 40 (omega arith) (omega arith)
      (omega arith)

text_has_room : length (json_text world m2 top_view (low_view ∷ [])) < 1000
unfolding json_text chain_text capacity_for fields_text domain_to_string code_to_string
    flags_array_text flag_item string_text escape_text c_string escape_byte file_text signed_decimal
    func_text
text_has_room = omega arith

render_json-read_example :
    (out : Bytes) × (render_json world 12 (some (zeros 1000)) 1000 m2
      ≡ ok (length (json_text world m2 top_view (low_view ∷ [])) + 1, some out) m2)
    × (read value (length (top_view ∷ low_view ∷ []) * 36) (c_string out)
        ≡ some (chain_value (capacity_for world m2 2 - 1) (top_view ∷ low_view ∷ []), []))
render_json-read_example =
    render_json-read world top-Shows causes-Chain (zeros 1000) 1000 text_has_room (omega arith)
      (omega arith)

full_fits : length (full_text (top_view ∷ low_view ∷ [])) < size_max
unfolding full_text fields_text domain_to_string code_to_string flags_array_text flag_item
    string_text escape_text c_string escape_byte file_text signed_decimal func_text
full_fits = omega arith

render_json-full_text_example :
    render_json world 12 (some (zeros 40)) 40 m2
    ≡ ok
        (
          length (full_text (top_view ∷ low_view ∷ [])) + 1,
          some (snprintf_result (full_text (top_view ∷ low_view ∷ [])) (zeros 40) 40),
        )
        m2
render_json-full_text_example =
    render_json-full_text world top-Shows causes-Chain full_fits (inl (omega arith)) (zeros 40) 40
      (omega arith) (omega arith) (omega arith)
