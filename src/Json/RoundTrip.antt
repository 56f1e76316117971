-- ===== src/Json/RoundTrip.antt =====
-- `gitledger_error_render_json` into a buffer with room, and the reader of JSON values on it.
use libgitledger.Prelude.{ℕ, suc, ◌+◌, ◌-◌, ◌*◌, ◌≤◌, ◌<◌, ◌≡◌, some, List, [], ◌∷◌, arith, length}
use libgitledger.Text.{Bytes, c_string, snprintf_result}
use libgitledger.Text.Strings.{c_string-snprintf_result}
use libgitledger.Buffer.{size_max}
use libgitledger.Memory.{Ptr, Memory, Env, ok}
use libgitledger.Json.{render_json}
use libgitledger.Json.Values.{value, read}
use libgitledger.Json.NoNul.{json_text-IsText}
use libgitledger.Json.Render.Chain.{View, Shows, Chain}
use libgitledger.Json.Render.Depth.{json_text, capacity_for, render_json_lem}
use libgitledger.Json.Decode.Causes.{chain_value, json_text-read}

-- For an error whose chain of causes ends in NULL and a buffer and a size up to SIZE_MAX within it
-- that is greater than the length of the chain's JSON text, `render_json` ends, returns that
-- length and 1, does not change the memory, and leaves a C string that an independent reader of
-- JSON takes whole and reads as the object of the error: its domain, code, flags, message, file
-- and line, function, and in its member `cause` the objects of its causes, as many as the stack of
-- frames has room for, and behind these the mark of truncation.
pub render_json-read :
    (env : Env) {m : Memory} {p : Ptr} {v : View} {vs : List View} (s : Shows m p v)
    (c : Chain m v.object.cause vs) (buf : Bytes) (size : ℕ)
    → length (json_text env m v vs) < size
    → size ≤ size_max
    → size ≤ length buf
    → (out : Bytes) × (render_json env p (some buf) size m
        ≡ ok (length (json_text env m v vs) + 1, some out) m)
      × (read value (length (v ∷ vs) * 36) (c_string out)
          ≡ some (chain_value (capacity_for env m (suc (length vs)) - 1) (v ∷ vs), []))
render_json-read env {m} {v} {vs} s c buf size room limit enough = (
  snprintf_result (json_text env m v vs) buf size,
  render_json_lem env s c (omega arith) buf size (omega arith) limit enough,
  rw (c_string-snprintf_result (json_text env m v vs) buf size (json_text-IsText env m v vs) room)
      (json_text-read env m v vs),
)
