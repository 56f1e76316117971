-- ===== src/Examples/Publishing.antt =====
-- Two threads that ask for the JSON of one error.
use libgitledger.Prelude.{◌≡◌, refl, false, none, some, List, [], ◌∷◌, ◌==◌, length, arith}
use libgitledger.Text.{Bytes}
use libgitledger.Memory.{
  Ptr, null, error, bytes, Memory, write, read, store, call_free, load_context, load_error,
}
use libgitledger.Memory.Blocks.{block, At, At-write_self, At-write_ne}
use libgitledger.Context
use libgitledger.Context.{new_context, is_valid}
use libgitledger.Json.Render.Frame.{Texts, Causes, no_cause}
use libgitledger.Json.Render.Depth.{capacity_for}
use libgitledger.Cache.Fill.{holder, ensure_current_fresh}
use libgitledger.Cache.Threads.{
  exchange, Thread, starting, asking, measuring, making, holding, done, Move, checked, missed,
  measured, made, won, lost, freed, Change, here, there, Reach, start, later,
}
use libgitledger.Cache.Threads.Reading.{full, measure_lem, fill-some}
use libgitledger.Cache.Threads.Publishing.{Publishing}
use libgitledger.Cache.Threads.Agreement.{
  askers, Agree, Reach-Publishing, one_cache, no_thread_sticks,
}
use libgitledger.Examples.World.{world, plain_allocator}
use libgitledger.Examples.Sessions.{shared, owner, shared-IsContext, object, text, first_fits}

abbrev json : Bytes
json = full world shared 10 owner object (some text) []

abbrev with_text : Memory → Ptr → Memory
with_text m b = write m b (some (block plain_allocator (bytes json)))

-- Both have made a text.
abbrev both : Memory
both = with_text (with_text shared 14) 15

-- The first has published its own.
abbrev published : Memory
published = write both 12 (some (block plain_allocator (error (holder 10 1 14 object))))

-- The second has given its own back.
abbrev finished : Memory
finished = write published 15 none

abbrev Reaches : Memory → List Thread → Type 0
Reaches m ts = Reach world 12 shared (askers 2) m ts

shared-At : At shared 12 (block plain_allocator (error object))
shared-At = At-write_ne 13 _ (At-write_self _ 12 _ refl) refl

shared-Texts : Texts shared 13 (some text)
shared-Texts = (plain_allocator, At-write_self _ 13 _ refl)

shared-Causes : Causes shared object.cause []
shared-Causes = no_cause refl

steady : (k : Memory) → capacity_for world k 1 ≡ capacity_for world shared 1
unfolding capacity_for
steady k = refl

abbrev Published : Memory → List Thread → Type 0
Published m ts = Publishing shared m 10 12 owner ((11, 12) ∷ []) object json ts

while_reached : {m : Memory} {ts : List Thread} → Reaches m ts → Published m ts
while_reached r =
    Reach-Publishing world object (some text) shared-IsContext shared-At shared-Texts shared-Causes
      first_fits steady 2 r

measure :
    {m : Memory} {ts us : List Thread}
    → Reaches m ts
    → Change measuring (making (length json)) ts us
    → Reaches m us
measure r change =
    later r
      (measured (
        measure_lem world object (some text) shared-At shared-Texts shared-Causes first_fits steady
          (while_reached r)))
      change

check :
    {m : Memory} {ts us : List Thread} → Reaches m ts → Change starting asking ts us → Reaches m us
check r change =
    let s = while_reached r in
    later r (checked (ensure_current_fresh s.cache object s.live s.object)) change

both_measured : Reaches shared (making (length json) ∷ making (length json) ∷ [])
unfolding write read load_error
both_measured =
    let asked = check (check start here) (there here) in
    let looked =
      later (later asked (missed refl refl refl) here) (missed refl refl refl) (there here) in
    measure (measure looked here) (there here)

one_holds : Reaches (with_text shared 14) (holding 14 ∷ making (length json) ∷ [])
unfolding write
one_holds =
    later both_measured
      (made {b = 14}
        (fill-some world object (some text) shared-At shared-Texts shared-Causes first_fits steady
          (while_reached both_measured) (omega arith))
        refl)
      here

both_hold : Reaches both (holding 14 ∷ holding 15 ∷ [])
unfolding write
both_hold =
    later one_holds
      (made {b = 15}
        (fill-some world object (some text) shared-At shared-Texts shared-Causes first_fits steady
          (while_reached one_holds) (omega arith))
        refl)
      (there here)

both_done : Reaches finished (done 14 ∷ done 14 ∷ [])
unfolding write read store call_free load_context load_error Context.free is_valid exchange
both_done =
    later
      (later (later both_hold (won {b = 14} {j = null} refl refl) here)
        (lost {b = 15} {j = 14} refl refl) (there here))
      (freed refl refl) (there here)

one_cache_example :
    (cache : Ptr) × At finished 12 (block plain_allocator (error (holder 10 1 cache object)))
    × Agree finished plain_allocator json cache (done 14 ∷ done 14 ∷ [])
    × ((r : Ptr)
        → (r == null) ≡ false
        → (r == 12) ≡ false
        → (r == cache) ≡ false
        → finished.blocks r ≡ shared.blocks r)
one_cache_example =
    one_cache world object (some text) shared-IsContext shared-At shared-Texts shared-Causes
      first_fits steady 2 both_done refl

no_thread_sticks_example : (m' : Memory) × (t' : Thread) × Move world 12 both (holding 15) m' t'
no_thread_sticks_example =
    no_thread_sticks world object (some text) shared-IsContext shared-At shared-Texts shared-Causes
      first_fits steady 2 (holding 15) both_hold (there here) refl
