-- ===== src/Examples/Racing.antt =====
-- Two threads that register errors in one context, and a walk along a chain.
use libgitledger.Prelude.{
  ℕ, ◌+◌, ◌≤◌, ◌≡◌, refl, Bool, true, false, some, inl, List, [], ◌∷◌, ◌++◌, take,
}
use libgitledger.Memory.{
  Ptr, null, Context, context, node, error, Memory, ok, pure, write, load_context, load_node, store,
  read,
}
use libgitledger.Memory.Blocks.{block, At-write_self, At-write_ne, load_error-At}
use libgitledger.Context.{new_context, lock, unlock}
use libgitledger.Context.Registry.{Entries, entry, IsContext, IsContext-write_ne, nil}
use libgitledger.Context.Threads.{
  Thread, waiting, inside, done, enter, spin, act, leave, this, other, Reach, start, later,
  all_waiting, results, number_inside, Serial,
}
use libgitledger.Context.Threads.Sections.{link_body}
use libgitledger.Context.{at_head, get_cursor}
use libgitledger.Context.Threads.Jobs.{Job, linking, unlinking, section, section-Keeps}
use libgitledger.Context.Threads.Unlinking.{unlink_body}
use libgitledger.Context.Threads.Order.{mutual_exclusion, Reach-Serial}
use libgitledger.Context.Threads.Registering.{link_job, Ready}
use libgitledger.Context.Threads.Completion.{AllDone}
use libgitledger.Context.Threads.Ending.{registering_threads_end}
use libgitledger.Error.{zeroed_error, max_depth, walk}
use libgitledger.Error.Walk.{Leads, arrived, onward, visit_all, walk-Leads}
use libgitledger.Examples.World.{plain_allocator, empty_memory}
use mathlib.Core.List.{Perm}

-- A context at 10, and at 11 and 12 the new nodes for the errors at 21 and 22.
abbrev c0 : Context
c0 = new_context plain_allocator

abbrev before : Memory
before =
    write
      (write (write empty_memory 10 (some (block plain_allocator (context c0)))) 11
        (some (block plain_allocator (node (entry 21 null)))))
      12 (some (block plain_allocator (node (entry 22 null))))

before-IsContext : IsContext before 10 c0 []
before-IsContext = IsContext-write_ne 12 _ refl refl (
    IsContext-write_ne 11 _ refl refl record {
      at = At-write_self empty_memory 10 _ refl;
      magic = refl;
      unlocked = refl;
      can_alloc = refl;
      can_free = refl;
      nodes = nil refl;
    })

abbrev both : Entries
both = (11, 21) ∷ (12, 22) ∷ []

both-Ready : Ready before plain_allocator [] both
both-Ready = (
  At-write_ne 12 _ (At-write_self _ 11 _ refl) refl,
  refl,
  refl,
  (At-write_self _ 12 _ refl, refl, refl, tt),
)

abbrev with_context_10 : Memory → Context → Memory
with_context_10 m c = write m 10 (some (block plain_allocator (context c)))

-- The second thread has the lock.
abbrev taken : Memory
taken = with_context_10 before (record c0 { locked = true })

abbrev Threads : Type 0
Threads = List (Thread 10 (link_job 10))

abbrev second_inside : Threads
second_inside = waiting (11, 21) ∷ inside (12, 22) (link_body 10 12) ∷ []

-- The first finds the lock held.
to_taken : Reach 10 (link_job 10) before (all_waiting 10 (link_job 10) both) taken second_inside
unfolding lock load_context store read write
to_taken = later (later start (other (this (enter refl)))) (this (spin refl))

-- One thread links the node at 11, and one unlinks the node of the error at 22.
abbrev mixed : List Job
mixed = linking 11 ∷ unlinking 22 ∷ []

abbrev Mixed : Type 0
Mixed = List (Thread 10 (section 5 10))

abbrev unlinking_inside : Mixed
unlinking_inside = waiting (linking 11) ∷ inside (unlinking 22) (unlink_body 5 10 22 at_head) ∷ []

abbrev unlinking_done : Mixed
unlinking_done = waiting (linking 11) ∷ done (unlinking 22) null ∷ []

abbrev not_found : Memory
not_found = with_context_10 taken (record c0 { locked = false })

to_inside :
    Reach 10 (section 5 10) before (all_waiting 10 (section 5 10) mixed) taken unlinking_inside
unfolding lock load_context store read write
to_inside = later (later start (other (this (enter refl)))) (this (spin refl))

to_not_found :
    Reach 10 (section 5 10) before (all_waiting 10 (section 5 10) mixed) not_found unlinking_done
unfolding lock unlock load_context load_node store read write unlink_body get_cursor
to_not_found =
    later
      (later (later (later start (other (this (enter refl)))) (this (spin refl)))
        (other (this (act refl))))
      (other (this (leave refl)))

mutual_exclusion_example : number_inside 10 (section 5 10) unlinking_inside ≤ 1
mutual_exclusion_example = mutual_exclusion 10 (section 5 10) (section-Keeps 5 10) mixed to_inside

Reach-Serial_example :
    (log : List (Job × Ptr)) × Serial 10 (section 5 10) before log not_found
    × Perm log (results 10 (section 5 10) unlinking_done)
Reach-Serial_example = Reach-Serial 10 (section 5 10) (section-Keeps 5 10) mixed to_not_found refl

registering_threads_end_example :
    (m2 : Memory) × (ts2 : Threads) × (ys : Entries) × (first : Ptr) × Reach 10
      (link_job 10)
      taken
      second_inside
      m2
      ts2
    × AllDone 10 (link_job 10) ts2
    × Perm ys both
    × IsContext m2 10 (record c0 { errors = first }) (ys ++ [])
registering_threads_end_example =
    registering_threads_end 10 both before-IsContext both-Ready to_taken

-- The error at 13 has the error at 14 for its cause; the visitor counts to one.
abbrev chain : Memory
chain =
    write (write empty_memory 14 (some (block plain_allocator (error zeroed_error)))) 13
      (some (block plain_allocator (error (record zeroed_error { cause = 14 }))))

abbrev count : ℕ → Ptr → ℕ × Bool
count n p = (n + 1, true)

chain-Leads : Leads chain 13 (13 ∷ 14 ∷ []) null
chain-Leads =
    onward (record zeroed_error { cause = 14 }) refl
      (load_error-At {a = plain_allocator} (At-write_self _ 13 _ refl))
      (onward zeroed_error refl
        (load_error-At {a = plain_allocator}
          (At-write_ne 13 _ (At-write_self empty_memory 14 _ refl) refl))
        (arrived refl))

walk-Leads_example :
    walk (λ n p. pure (count n p)) 13 0 chain
    ≡ ok (visit_all count (take max_depth (13 ∷ 14 ∷ [])) 0) chain
walk-Leads_example =
    walk-Leads (λ n p. pure (count n p)) count (λ n p. refl) (13 ∷ 14 ∷ []) 0 chain-Leads (inl refl)
