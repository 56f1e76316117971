-- ===== src/Context/Threads/Ending.antt =====
-- Threads that register errors can all come to their end, and then every error is registered.
use libgitledger.Prelude.{◌≡◌, refl, sym, ap, subst, ◌∙◌, false, List, [], ◌∷◌, ◌++◌, ◌==◌, arith}
use libgitledger.Memory.{Ptr, null, Allocator, Context, node, Memory, ok}
use libgitledger.Memory.Blocks.{block, At, ne_sym, ne_of_blocks}
use libgitledger.Context.Registry.{Entries, entry, has, IsContext}
use libgitledger.Context.Registry.Tracking.{registered, link_node_lem}
use libgitledger.Context.Registry.Unlink.{At-untouched}
use libgitledger.Context.Threads.{
  guarded, Thread, waiting, inside, done, Reach, start, later, all_waiting, job, jobs, results,
  Serial,
}
use libgitledger.Prelude.Insert.{Shuffle}
use libgitledger.Context.Threads.Sections.{guarded-link_body}
use libgitledger.Context.Threads.Registering.{
  Ready, link_job, link_job-Keeps, Serial-Linked, has-Shuffle, has-nodes_done, Ready-Shuffle,
  Ready-nodes_done, Reach-jobs, nodes_done, registering_threads,
}
use libgitledger.Context.Threads.Progress.{Pending, pending_waiting, pending_inside, pending_behind}
use libgitledger.Context.Threads.Completion.{AllDone, all_finish}
use mathlib.Core.List.{Perm}

module _ (p : Ptr) where
  abbrev Jobs : List (Thread p (link_job p)) → Entries
  Jobs ts = jobs p (link_job p) ts

  Pending-ne :
      (r q e : Ptr) {ts : List (Thread p (link_job p))}
      → Pending p (link_job p) (q, e) ts
      → has r (Jobs ts) ≡ false
      → (r == q) ≡ false
  Pending-ne r q e pending_waiting h = ground (arith, h)
  Pending-ne r q e pending_inside h = ground (arith, h)
  Pending-ne r q e (pending_behind {t} {ts} w) h = Pending-ne r q e w (ground (arith, h))

  -- The node of a thread that is not done is in its block, and is none of the nodes that are done.
  Pending-node :
      (m : Memory) (a : Allocator) (xs : Entries) (q e : Ptr) {ts : List (Thread p (link_job p))}
      → Pending p (link_job p) (q, e) ts
      → Ready m a xs (Jobs ts)
      → At m q (block a (node (entry e null))) × (has q (nodes_done p ts) ≡ false)
  Pending-node m a xs q e (pending_waiting {ts}) h = (h.0, has-nodes_done q p ts h.2)
  Pending-node m a xs q e (pending_inside {ts}) h = (h.0, has-nodes_done q p ts h.2)
  Pending-node m a xs q e (pending_behind {t} {ts} w) h =
      let (at, out) = Pending-node m a xs q e w h.3 in (at, behind_one t out h.2)
    where
      behind_one :
          (t : Thread p (link_job p))
          → has q (nodes_done p ts) ≡ false
          → has (job p (link_job p) t).0 (Jobs ts) ≡ false
          → has q (nodes_done p (t ∷ ts)) ≡ false
      behind_one (waiting j) out d = out
      behind_one (inside j b) out d = out
      behind_one (done j v) out d = ground (arith, out, Pending-ne j.0 q e w d)

  Reach-trans :
      {m : Memory} {ts : List (Thread p (link_job p))} {m1 : Memory}
      {ts1 : List (Thread p (link_job p))} {m2 : Memory} {ts2 : List (Thread p (link_job p))}
      → Reach p (link_job p) m ts m1 ts1
      → Reach p (link_job p) m1 ts1 m2 ts2
      → Reach p (link_job p) m ts m2 ts2
  Reach-trans r start = r
  Reach-trans r (later s st) = later (Reach-trans r s) st

  module _ {m : Memory} {c : Context} {xs : Entries} (js : Entries) (is : IsContext m p c xs)
      (ready : Ready m c.allocator xs js) where
    -- After whole sections, the section of a thread that is not done runs to its end.
    section_runs :
        (log : List ((Ptr × Ptr) × Ptr)) (m1 m' : Memory) (ts : List (Thread p (link_job p)))
        (j : Ptr × Ptr)
        → Reach p (link_job p) m (all_waiting p (link_job p) js) m' ts
        → Serial p (link_job p) m log m1
        → Shuffle log (results p (link_job p) ts)
        → Pending p (link_job p) j ts
        → (v : Ptr) × (m2 : Memory) × (guarded p (link_job p j) m1 ≡ ok v m2)
    section_runs log m1 m' ts (q, e) at s sh w =
        let ready_ts : Ready m c.allocator xs (Jobs ts) =
          subst (Ready m c.allocator xs) (sym (Reach-jobs js at)) ready in
        let (at_q, out) = Pending-node m c.allocator xs q e w ready_ts in
        let l =
          Serial-Linked is
            (Ready-Shuffle m c.allocator xs sh (Ready-nodes_done m c.allocator xs p ts ready_ts))
            s in
        let q_p : (q == p) ≡ false =
          ne_sym p q (ne_of_blocks m p q is.at.holds at_q.holds (λ z. cc)) in
        let here : At m1 q (block c.allocator (node (entry e null))) =
          At-untouched at_q (l.same q q_p (has-Shuffle q sh out)) in
        let c1 : Context = record c { errors = l.first } in
        (
          null,
          registered m1 p c1 e q,
          guarded-link_body e null l.live.at here ∙ rw (link_node_lem e l.live here q_p),
        )

    nodes_done-AllDone :
        (ts : List (Thread p (link_job p))) → AllDone p (link_job p) ts → nodes_done p ts ≡ Jobs ts
    nodes_done-AllDone [] d = refl
    nodes_done-AllDone (waiting j ∷ ts) d = absurd (omega (arith, d.1))
    nodes_done-AllDone (inside j b ∷ ts) d = absurd (omega (arith, d.0))
    nodes_done-AllDone (done j v ∷ ts) d =
        ap (λ ys. j ∷ ys) (nodes_done-AllDone ts (omega (arith, d.0), d.1))

    -- Threads register errors in one live context, each with a node of its own that is in its
    -- block, apart from the others and from the registry, and their accesses interleave in any
    -- way. From each state that they reach, they can go on to a state in which all threads are
    -- done and the context is live, and its registry has the nodes of all threads, in some order,
    -- in front of those that it had.
    pub registering_threads_end :
        {m' : Memory} {ts : List (Thread p (link_job p))}
        → Reach p (link_job p) m (all_waiting p (link_job p) js) m' ts
        → (m2 : Memory) × (ts2 : List (Thread p (link_job p))) × (ys : Entries) × (first : Ptr)
          × Reach p (link_job p) m' ts m2 ts2
          × AllDone p (link_job p) ts2
          × Perm ys js
          × IsContext m2 p (record c { errors = first }) (ys ++ xs)
    registering_threads_end {ts} at =
        let (m2, ts2, on, d) =
          all_finish p (link_job p) m js (link_job-Keeps p)
            (λ log m1 m' ts j r s sh w. section_runs log m1 m' ts j r s sh w) at in
        let whole = Reach-trans at on in
        let (ys, first, perm, live) = registering_threads js is ready whole d.0 in
        let all : nodes_done p ts2 ≡ js = nodes_done-AllDone ts2 d ∙ Reach-jobs js whole in
        (m2, ts2, ys, first, on, d, subst (Perm ys) all perm, live)
