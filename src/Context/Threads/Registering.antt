-- ===== src/Context/Threads/Registering.antt =====
-- `context_register_error` in several threads at once: no error is lost.
use libgitledger.Prelude.{◌≡◌, refl, sym, ap, subst, ◌∙◌, false, List, [], ◌∷◌, ◌++◌, ◌==◌, arith}
use libgitledger.Memory.{Ptr, null, Allocator, Context, node, Memory, ok}
use libgitledger.Memory.Blocks.{block, At, blocks-write_ne, ne_sym, ne_of_blocks}
use libgitledger.Context.Registry.{Entries, entry, has, IsContext}
use libgitledger.Context.Registry.Tracking.{registered, link_node_lem, link_node-IsContext}
use libgitledger.Context.Registry.Unlink.{At-untouched}
use libgitledger.Context.Threads.{
  Body, guarded, Thread, waiting, inside, done, enter, spin, act, leave, Step, this, other, Reach,
  start, later, all_waiting, job, jobs, results, number_inside, Serial, idle, then_run,
}
use libgitledger.Prelude.Insert.{Insert, front, behind, Shuffle, none_left, put}
use libgitledger.Context.Threads.Sections.{link_body, link_body-Keeps, guarded-link_body}
use libgitledger.Context.Threads.Keeps.{Keeps}
use libgitledger.Context.Threads.Order.{Reach-Shuffle}
use mathlib.Core.List.{Perm}
use mathlib.Core.List.Perm

-- A job is a node at its address, with the error that it names; `log` forgets what sections return.
abbrev pub linked : List ((Ptr × Ptr) × Ptr) → Entries
linked [] = []
linked ((x, v) ∷ log) = x ∷ linked log

-- The nodes are in blocks, apart from each other and from the nodes `xs`.
abbrev pub Ready : Memory → Allocator → (xs : Entries) → Entries → Type 0
Ready m a xs [] = Unit {0}
Ready m a xs ((q, e) ∷ js) =
    At m q (block a (node (entry e null)))
    × (has q xs ≡ false)
    × (has q js ≡ false)
    × Ready m a xs js

module _ (m : Memory) (p : Ptr) (xs : Entries) where
  -- The nodes of `log` have gone to the front of the registry, the first of the list last of all.
  pub record Linked (c : Context) (log : List ((Ptr × Ptr) × Ptr)) (m' : Memory) : Type 0 where
    pub first : Ptr
    pub live : IsContext m' p (record c { errors = first }) (linked log ++ xs)
    pub same : (r : Ptr) → (r == p) ≡ false → has r (linked log) ≡ false → m'.blocks r ≡ m.blocks r

has-append :
    (r : Ptr) (xs ys : Entries) → has r xs ≡ false → has r ys ≡ false → has r (xs ++ ys) ≡ false
has-append r [] ys h k = k
has-append r ((q, e) ∷ xs) ys h k = ground (arith, has-append r xs ys)

abbrev pub link_job : Ptr → Ptr × Ptr → Body
link_job p (q, e) = link_body p q

link_step :
    {m m1 m' : Memory} {p : Ptr} {c : Context} {xs : Entries} (q e v : Ptr)
    (log : List ((Ptr × Ptr) × Ptr))
    → IsContext m p c xs
    → At m q (block c.allocator (node (entry e null)))
    → has q xs ≡ false
    → has q (linked log) ≡ false
    → Linked m p xs c log m1
    → guarded p (link_body p q) m1 ≡ ok v m'
    → Linked m p xs c (((q, e), v) ∷ log) m'
unfolding registered
link_step {m} {m1} {m'} {p} {c} {xs} q e v log is at_q out fresh l run =
    let p_q : (p == q) ≡ false = ne_of_blocks m p q is.at.holds at_q.holds (λ z. cc) in
    let q_p : (q == p) ≡ false = ne_sym p q p_q in
    let c1 : Context = record c { errors = l.first } in
    let here : At m1 q (block c.allocator (node (entry e null))) =
      At-untouched at_q (l.same q q_p fresh) in
    let ran : guarded p (link_body p q) m1 ≡ ok null (registered m1 p c1 e q) =
      guarded-link_body e null l.live.at here ∙ rw (link_node_lem e l.live here q_p) in
    let same : registered m1 p c1 e q ≡ m' = cc in
    subst (Linked m p xs c (((q, e), v) ∷ log)) same record {
      first = q;
      live = link_node-IsContext e l.live here q_p (has-append q (linked log) xs fresh out);
      same = λ r r_p h.
          blocks-write_ne _ p r _ r_p
          ∙ (blocks-write_ne m1 q r _ (ground (arith, h)) ∙ l.same r r_p (ground (arith, h)));
    }

pub Serial-Linked :
    {m : Memory} {p : Ptr} {c : Context} {xs : Entries} {m' : Memory}
    {log : List ((Ptr × Ptr) × Ptr)}
    → IsContext m p c xs
    → Ready m c.allocator xs (linked log)
    → Serial p (link_job p) m log m'
    → Linked m p xs c log m'
Serial-Linked {c} is ready idle = record { first = c.errors; live = is; same = λ r h k. refl }
Serial-Linked is ready (then_run {log} (q, e) v s run) =
    link_step q e v log is ready.0 ready.1 ready.2 (Serial-Linked is ready.3 s) run

pub link_job-Keeps : (p : Ptr) (x : Ptr × Ptr) → Keeps p (link_job p x)
link_job-Keeps p (q, e) = link_body-Keeps p q

has-Insert :
    (r : Ptr) {x : (Ptr × Ptr) × Ptr} {xs ys : List ((Ptr × Ptr) × Ptr)}
    → Insert x xs ys
    → has r (linked ys) ≡ false
    → has r (linked (x ∷ xs)) ≡ false
has-Insert r front h = h
has-Insert r (behind i) h = ground (arith, h, has-Insert r i)

pub has-Shuffle :
    (r : Ptr) {xs ys : List ((Ptr × Ptr) × Ptr)}
    → Shuffle xs ys
    → has r (linked ys) ≡ false
    → has r (linked xs) ≡ false
has-Shuffle r none_left h = h
has-Shuffle r (put s i) h = let k = has-Insert r i h in ground (arith, k, has-Shuffle r s)

Ready-Insert :
    (m : Memory) (a : Allocator) (xs : Entries) {x : (Ptr × Ptr) × Ptr}
    {ys zs : List ((Ptr × Ptr) × Ptr)}
    → Insert x ys zs
    → Ready m a xs (linked zs)
    → Ready m a xs (linked (x ∷ ys))
Ready-Insert m a xs front h = h
Ready-Insert m a xs (behind {y} i) (at, out, fresh, rest) =
    let (at_q, out_q, fresh_q, rest_q) = Ready-Insert m a xs i rest in
    let away = has-Insert y.0.0 i fresh in
    (at_q, out_q, ground (arith, away, fresh_q), (at, out, ground (arith, away), rest_q))

pub Ready-Shuffle :
    (m : Memory) (a : Allocator) (xs : Entries) {ys zs : List ((Ptr × Ptr) × Ptr)}
    → Shuffle ys zs
    → Ready m a xs (linked zs)
    → Ready m a xs (linked ys)
Ready-Shuffle m a xs none_left h = h
Ready-Shuffle m a xs (put {x} s i) h =
    let (at, out, fresh, rest) = Ready-Insert m a xs i h in
    (at, out, has-Shuffle x.0.0 s fresh, Ready-Shuffle m a xs s rest)

-- The threads keep their jobs.
Step-jobs :
    {p : Ptr} {m m' : Memory} {ts ts' : List (Thread p (link_job p))}
    → Step p (link_job p) m ts m' ts'
    → jobs p (link_job p) ts' ≡ jobs p (link_job p) ts
Step-jobs (this (enter l)) = refl
Step-jobs (this (spin l)) = refl
Step-jobs (this (act l)) = refl
Step-jobs (this (leave l)) = refl
Step-jobs {p} (other {t} st) = ap (λ js. job p (link_job p) t ∷ js) (Step-jobs st)

jobs-all_waiting :
    (p : Ptr) (js : Entries) → jobs p (link_job p) (all_waiting p (link_job p) js) ≡ js
jobs-all_waiting p [] = refl
jobs-all_waiting p (x ∷ js) = ap (λ ys. x ∷ ys) (jobs-all_waiting p js)

pub Reach-jobs :
    {p : Ptr} {m : Memory} (js : Entries) {m' : Memory} {ts : List (Thread p (link_job p))}
    → Reach p (link_job p) m (all_waiting p (link_job p) js) m' ts
    → jobs p (link_job p) ts ≡ js
Reach-jobs {p} js start = jobs-all_waiting p js
Reach-jobs js (later r st) = Step-jobs st ∙ Reach-jobs js r

-- The nodes of the threads that are done.
abbrev pub nodes_done : (p : Ptr) → List (Thread p (link_job p)) → Entries
nodes_done p ts = linked (results p (link_job p) ts)

pub has-nodes_done :
    (r p : Ptr) (ts : List (Thread p (link_job p)))
    → has r (jobs p (link_job p) ts) ≡ false
    → has r (nodes_done p ts) ≡ false
has-nodes_done r p [] h = refl
has-nodes_done r p (waiting (q, e) ∷ ts) h = has-nodes_done r p ts (ground (arith, h))
has-nodes_done r p (inside (q, e) b ∷ ts) h = has-nodes_done r p ts (ground (arith, h))
has-nodes_done r p (done (q, e) v ∷ ts) h = ground (arith, h, has-nodes_done r p ts)

pub Ready-nodes_done :
    (m : Memory) (a : Allocator) (xs : Entries) (p : Ptr) (ts : List (Thread p (link_job p)))
    → Ready m a xs (jobs p (link_job p) ts)
    → Ready m a xs (nodes_done p ts)
Ready-nodes_done m a xs p [] h = tt
Ready-nodes_done m a xs p (waiting (q, e) ∷ ts) h = Ready-nodes_done m a xs p ts h.3
Ready-nodes_done m a xs p (inside (q, e) b ∷ ts) h = Ready-nodes_done m a xs p ts h.3
Ready-nodes_done m a xs p (done (q, e) v ∷ ts) h =
    (h.0, h.1, has-nodes_done q p ts h.2, Ready-nodes_done m a xs p ts h.3)

Shuffle-linked : {xs ys : List ((Ptr × Ptr) × Ptr)} → Shuffle xs ys → Perm (linked xs) (linked ys)
Shuffle-linked none_left = Perm.nil
Shuffle-linked (put {x} s i) = Perm.trans (Perm.cons x.0 (Shuffle-linked s)) (Insert-linked i)
  where
    Insert-linked :
        {x : (Ptr × Ptr) × Ptr} {xs ys : List ((Ptr × Ptr) × Ptr)}
        → Insert x xs ys
        → Perm (linked (x ∷ xs)) (linked ys)
    Insert-linked front = Perm.refl _
    Insert-linked {x} (behind {y} {xs} i) =
        Perm.trans (Perm.swap y.0 x.0 (linked xs)) (Perm.cons y.0 (Insert-linked i))

-- While no thread is inside, the registry has what it had, and each thread's error that is done.
pub registering_threads :
    {m : Memory} {p : Ptr} {c : Context} {xs : Entries} (js : Entries) {m' : Memory}
    {ts : List (Thread p (link_job p))}
    → IsContext m p c xs
    → Ready m c.allocator xs js
    → Reach p (link_job p) m (all_waiting p (link_job p) js) m' ts
    → number_inside p (link_job p) ts ≡ 0
    → (ys : Entries) × (first : Ptr) × Perm ys (nodes_done p ts)
      × IsContext m' p (record c { errors = first }) (ys ++ xs)
registering_threads {m} {p} {c} {xs} js {ts} is ready r q =
    let (log, s, sh) = Reach-Shuffle p (link_job p) (link_job-Keeps p) js r q in
    let ready_done =
      Ready-nodes_done m c.allocator xs p ts
        (subst (Ready m c.allocator xs) (sym (Reach-jobs js r)) ready) in
    let l = Serial-Linked is (Ready-Shuffle m c.allocator xs sh ready_done) s in
    (linked log, l.first, Shuffle-linked sh, l.live)
