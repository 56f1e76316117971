-- ===== src/Context/Threads/Jobs.antt =====
-- The sections that threads run at a context's lock: a new node goes in, or an error's node goes out.
use libgitledger.Prelude.{ℕ}
use libgitledger.Memory.{Ptr}
use libgitledger.Context.{at_head}
use libgitledger.Context.Threads.{Body}
use libgitledger.Context.Threads.Keeps.{Keeps}
use libgitledger.Context.Threads.Sections.{link_body, link_body-Keeps}
use libgitledger.Context.Threads.Unlinking.{unlink_body, unlink_body-Keeps}

pub data Job : Type 0 where
  linking : (node : Ptr) → Job
  unlinking : (err : Ptr) → Job

-- `rounds` bounds the loop over the registry.
abbrev pub section : (rounds : ℕ) → Ptr → Job → Body
section rounds ctx (linking p) = link_body ctx p
section rounds ctx (unlinking err) = unlink_body rounds ctx err at_head

pub section-Keeps : (rounds : ℕ) (ctx : Ptr) (j : Job) → Keeps ctx (section rounds ctx j)
section-Keeps rounds ctx (linking p) = link_body-Keeps ctx p
section-Keeps rounds ctx (unlinking err) = unlink_body-Keeps rounds ctx err at_head
