-- ===== src/Examples/Sessions.antt =====
-- Callers of a context with an error.
use libgitledger.Prelude.{
  ℕ, ◌<◌, ◌≡◌, refl, sym, subst, ◌∙◌, false, Option, none, some, List, [], ◌∷◌, ◌++◌, ◌==◌, length,
  arith, inl, inr, if◌then◌else◌,
}
use libgitledger.Prelude.Insert.{front, Remains}
use libgitledger.Text.{Bytes, codes, pos, c_string, signed_decimal, decimal, decimal_digits}
use libgitledger.ErrorCode.{
  Domain, Code, domain_to_string, code_to_string, code_flags, default_flags,
}
use libgitledger.Memory.{
  Ptr, null, Allocator, Context, ErrorObject, context, node, error, bytes, Memory, Run, ok, write,
  read, store, call_alloc, call_free, load_context, load_error, load_node, print_error,
}
use libgitledger.Memory.Blocks.{block, At, At-write_self, At-write_ne, blocks-write_ne}
use libgitledger.Context
use libgitledger.Context.{
  new_context, try_release, is_valid, complete_allocator, generation_snapshot, register_error,
  detach_context, link_node, lock, unlock, unregister_error, unregister_loop, get_cursor,
  set_cursor, destroy, live_error_count, teardown, bump_generation, detach_and_free_error_nodes,
  detach_loop, count_errors_locked, count_loop, debug_log_live_errors, live_errors_text, refuse,
}
use libgitledger.Context.Registry.{entry, IsContext, IsContext-write_ne, nil, cons}
use libgitledger.Context.Registry.Creation.{Created}
use libgitledger.Error.{
  SourceLocation, Format, zeroed_error, retain, release, create_ctx_loc, with_cause_ctx_loc,
  create_error, allocate_error, duplicate_format, store_text, link_and_track, release_loop,
  free_error, free_part,
}
use libgitledger.Session.{Item, held, nothing, newest, Session}
use libgitledger.Session.Adjust.{plus, minus, retain-Session}
use libgitledger.Session.Drop.{release-Session}
use libgitledger.Session.Calls.{Outcome, create_ctx_loc-Outcome, with_cause_ctx_loc-Outcome}
use libgitledger.Session.Ends.{create-Session, try_release-Session}
use libgitledger.Session.Client.{Command, make, wrap, keep, drop, hold, let_go, life}
use libgitledger.Session.Client.Life.{Ends, life_lem}
use libgitledger.Session.Show.{FitsBuffer, IsSteady, Shown, error_json-Session}
use libgitledger.Json.Render.Chain.{View, chain_text}
use libgitledger.Json.Render.Frame.{Texts, Causes, cause}
use libgitledger.Buffer.{size_max}
use libgitledger.Json.Render.Depth.{json_text, capacity_for}
use libgitledger.Cache.{error_json}
use libgitledger.Json.{escape_byte}
use libgitledger.Json.Escape.{escape_text}
use libgitledger.Json.Fields.{
  fields_text, flags_array_text, flag_item, string_text, file_text, func_text,
}
use libgitledger.Examples.World.{world, plain_allocator, empty_memory}

abbrev place : SourceLocation
place = record { file = some (codes "a.c"); line = pos 7; func = none }

abbrev greeting : Format
greeting = record { is_empty = false; expand = some (codes "hi") }

-- The commands of a caller that leaves nothing out.
abbrev script : List Command
script =
    make Domain.io Code.io_error place (some greeting)
    ∷ hold
    ∷ wrap 0 Domain.git Code.conflict place none
    ∷ drop 1
    ∷ let_go
    ∷ let_go
    ∷ keep 0
    ∷ drop 1
    ∷ []

life_lem_example : (m' : Memory) × Ends world none script empty_memory m'
life_lem_example = life_lem world none script empty_memory refl (omega arith) (omega arith)

-- What a run returns.
abbrev result : {A : Type 0} → Run A → Option A
result (ok v m) = some v
result other = none

script-result : result (life world none script empty_memory) ≡ some (some (pos 1))
unfolding write life Context.create call_alloc store create_ctx_loc create_error is_valid
    load_context allocate_error Context.alloc complete_allocator generation_snapshot
    package.libgitledger.Context.allocator load_error duplicate_format store_text link_and_track
    register_error detach_context Context.free link_node lock unlock retain code_flags default_flags
    call_free print_error read with_cause_ctx_loc release release_loop unregister_error
    unregister_loop get_cursor load_node set_cursor free_error free_part try_release destroy
    live_error_count teardown bump_generation detach_and_free_error_nodes detach_loop
    count_errors_locked count_loop debug_log_live_errors live_errors_text refuse decimal
    decimal_digits Context.retain
script-result = refl

-- A context at 10 without errors.
abbrev heap : Memory
heap = write empty_memory 10 (some (block plain_allocator (context (new_context plain_allocator))))

heap-Created : Created empty_memory plain_allocator 10 heap
heap-Created = record {
  unused = refl;
  only = refl;
  live = record {
    at = At-write_self empty_memory 10 _ refl;
    magic = refl;
    unlocked = refl;
    can_alloc = refl;
    can_free = refl;
    nodes = nil refl;
  };
}

try_release-Session_example :
    (m' : Memory) × (try_release world 10 heap ≡ ok (pos 1) m')
    × ((r : Ptr) → (r == null) ≡ false → m'.blocks r ≡ empty_memory.blocks r)
try_release-Session_example =
    try_release-Session world (create-Session heap-Created) (λ r h. refl) refl (omega arith)

-- A context at 10 with the error at 12 in its node at 11, and the error's message at 13.
abbrev x : Item
x = record {
  object = 12;
  message = 13;
  cache = null;
  node = 11;
  cause = null;
  rest = record zeroed_error { ctx_generation = 1 };
}

abbrev one : Ptr → ℕ
one r = if r == 12 then 1 else 0

abbrev pub shared : Memory
shared =
    write
      (write
        (write (write empty_memory 11 (some (block plain_allocator (node (entry 12 null))))) 10 (
          some (
            block plain_allocator
              (context (record (new_context plain_allocator) { errors = 11 })))))
        12 (some (block plain_allocator (error (held 10 plain_allocator x 1)))))
      13 (some (block plain_allocator (bytes (codes "hi" ++ (0 ∷ [])))))

abbrev pub owner : Context
owner = record (new_context plain_allocator) { errors = 11 }

pub shared-IsContext : IsContext shared 10 owner ((11, 12) ∷ [])
shared-IsContext = IsContext-write_ne 13 _ refl refl (
    IsContext-write_ne 12 _ refl refl (record {
      at = At-write_self _ 10 _ refl;
      magic = refl;
      unlocked = refl;
      can_alloc = refl;
      can_free = refl;
      nodes = cons (At-write_ne 10 _ (At-write_self empty_memory 11 _ refl) refl) refl (nil refl);
    }))

pub shared-Session : Session empty_memory shared 10 (new_context plain_allocator) one (x ∷ [])
shared-Session = record {
  count = one;
  first = 11;
  live = shared-IsContext;
  stored =
      newest (At-write_ne 13 _ (At-write_self _ 12 _ refl) refl)
        (inr (_, At-write_self _ 13 _ refl)) (inl refl) (λ h. refl) (λ h. refl) (λ h. refl)
        (λ h. refl) (omega arith) (omega arith) refl nothing;
  current = (refl, tt);
  counted = λ r h. ground (arith, h);
  absent = λ r h. ground (arith, h);
  frame = λ r h r_p r_parts r_nodes.
      blocks-write_ne _ 13 r _ (ground (arith, r_parts))
      ∙ (blocks-write_ne _ 12 r _ (ground (arith, r_parts))
          ∙ (blocks-write_ne _ 10 r _ r_p ∙ blocks-write_ne _ 11 r _ (ground (arith, r_nodes))));
  fresh_context = refl;
  fresh_parts = λ r n h. refl;
  fresh_nodes = λ r h. refl;
}

retain-Session_example :
    (m' : Memory) × (retain 12 shared ≡ ok tt m')
    × Session empty_memory m' 10 (new_context plain_allocator) (plus 12 one) (x ∷ [])
retain-Session_example = retain-Session 12 shared-Session refl (omega arith) (omega arith)

release-Session_example :
    (m' : Memory) × (xs : List Item) × (release world 12 shared ≡ ok tt m')
    × Session empty_memory m' 10 (new_context plain_allocator) (minus 12 one) xs
    × Remains xs (x ∷ [])
release-Session_example =
    release-Session world 12 (omega arith) (inr (refl, omega arith)) shared-Session

create_ctx_loc-Outcome_example :
    Outcome empty_memory shared 10
      (new_context plain_allocator)
      one
      (x ∷ [])
      null
      (create_ctx_loc world 10 Domain.io Code.io_error place (some greeting) shared)
create_ctx_loc-Outcome_example =
    create_ctx_loc-Outcome world shared-Session Domain.io Code.io_error place (some greeting)

with_cause_ctx_loc-Outcome_example :
    Outcome empty_memory shared 10
      (new_context plain_allocator)
      one
      (x ∷ [])
      12
      (with_cause_ctx_loc world 10 Domain.git Code.conflict 12 place (some greeting) shared)
with_cause_ctx_loc-Outcome_example =
    with_cause_ctx_loc-Outcome world shared-Session Domain.git Code.conflict place (some greeting)
      12 refl (omega arith) (omega arith)

abbrev pub object : ErrorObject
object = held 10 plain_allocator x 1

abbrev pub text : Bytes
text = codes "hi" ++ (0 ∷ [])

object_lem : (o : ErrorObject) (a : Allocator) → At shared 12 (block a (error o)) → o ≡ object
unfolding write
object_lem o a at = cc at.holds

message_lem : (t : Option Bytes) → Texts shared 13 t → t ≡ some text
unfolding write
message_lem none z = absurd (omega (arith, z))
message_lem (some t) (a, at) = cc at.holds

causes_lem : (vs : List View) → Causes shared null vs → vs ≡ []
causes_lem [] causes = refl
causes_lem (v ∷ vs) (cause st causes) = absurd (cc st.at.not_null)

abbrev first : View
first = record { object = object; message = some text }

pub first_fits : length (json_text world shared first []) < size_max
unfolding json_text chain_text capacity_for fields_text domain_to_string code_to_string
    flags_array_text flag_item string_text escape_text c_string escape_byte file_text signed_decimal
    func_text
first_fits = omega arith

shared-FitsBuffer : FitsBuffer world shared 12
shared-FitsBuffer v vs st causes =
    let o : v.object ≡ object = object_lem v.object st.owner st.at in
    let t : v.message ≡ some text =
      message_lem v.message (subst (λ k. Texts shared k.message v.message) o st.message) in
    let none_left : vs ≡ [] = causes_lem vs (subst (λ k. Causes shared k.cause vs) o causes) in
    subst (λ us. length (json_text world shared v us) < size_max) (sym none_left)
      (subst (λ k. length (json_text world shared k []) < size_max)
        (λ i. record { object = sym o i; message = sym t i }) first_fits)

shared-IsSteady : IsSteady world shared
unfolding capacity_for
shared-IsSteady b array n c = refl

error_json-Session_example :
    Shown world empty_memory shared 10
      (new_context plain_allocator)
      one
      {x = x}
      {xs = []}
      front
      (error_json world 12 shared)
error_json-Session_example =
    error_json-Session world front shared-Session shared-FitsBuffer shared-IsSteady
