-- ===== src/Json/Render/Frame.antt =====
-- Chains of causes by their blocks, which a write at an unused address leaves alone.
use libgitledger.Prelude.{◌≡◌, Option, none, some, List, [], ◌∷◌}
use libgitledger.Text.{Bytes}
use libgitledger.Memory.{Ptr, null, Allocator, ErrorObject, error, bytes, Block, Memory, ok, write}
use libgitledger.Memory.Blocks.{block, At, load_error-At, load_bytes-At, At-write_ne, ne_of_blocks}
use libgitledger.Json.{load_message}
use libgitledger.Json.Render.Chain.{View, Shows, Chain, end, link}

-- NULL, or a text in a block.
abbrev pub Texts : Memory → Ptr → Option Bytes → Type 0
Texts m r none = r ≡ null
Texts m r (some t) = (a : Allocator) × At m r (block a (bytes t))

-- The error and its message stand in blocks.
pub record Stands (m : Memory) (p : Ptr) (v : View) : Type 0 where
  pub owner : Allocator
  pub at : At m p (block owner (error v.object))
  pub message : Texts m v.object.message v.message

-- From `p` the causes that stand in blocks lead to NULL.
pub data Causes (m : Memory) : Ptr → List View → Type 0 where
  no_cause : {p : Ptr} → p ≡ null → Causes m p []
  cause :
      {p : Ptr} {v : View} {vs : List View}
      → Stands m p v
      → Causes m v.object.cause vs
      → Causes m p (v ∷ vs)

Texts-load :
    {m : Memory} (e : ErrorObject) (t : Option Bytes)
    → Texts m e.message t
    → load_message e m ≡ ok t m
unfolding load_message
Texts-load e none z = rw z
Texts-load e (some t) (a, at) = rw (at.not_null) (rw (load_bytes-At at))

pub Stands-Shows : {m : Memory} {p : Ptr} {v : View} → Stands m p v → Shows m p v
Stands-Shows {v} st = record {
  not_null = st.at.not_null;
  object = load_error-At st.at;
  message = Texts-load v.object v.message st.message;
}

pub Causes-Chain : {m : Memory} {p : Ptr} {vs : List View} → Causes m p vs → Chain m p vs
Causes-Chain (no_cause z) = end z
Causes-Chain (cause st c) = link (Stands-Shows st) (Causes-Chain c)

module _ (m : Memory) (b : Ptr) (x : Option Block) (unused : m.blocks b ≡ none) where
  At-unused : {r : Ptr} {y : Block} → At m r y → At (write m b x) r y
  At-unused {r} at = At-write_ne b x at (ne_of_blocks m r b at.holds unused (λ z. cc))

  Texts-unused : (r : Ptr) (t : Option Bytes) → Texts m r t → Texts (write m b x) r t
  Texts-unused r none z = z
  Texts-unused r (some t) (a, at) = (a, At-unused at)

  pub Stands-unused : {p : Ptr} {v : View} → Stands m p v → Stands (write m b x) p v
  Stands-unused {v} st = record {
    owner = st.owner;
    at = At-unused st.at;
    message = Texts-unused v.object.message v.message st.message;
  }

  pub Causes-unused : {p : Ptr} {vs : List View} → Causes m p vs → Causes (write m b x) p vs
  Causes-unused (no_cause z) = no_cause z
  Causes-unused (cause st c) = cause (Stands-unused st) (Causes-unused c)
