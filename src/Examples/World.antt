-- ===== src/Examples/World.antt =====
-- A small memory and an allocator with eight addresses, for the examples.
use libgitledger.Prelude.{
  ℕ, zero, suc, ◌≡◌, ◌≢◌, refl, ap, true, false, Option, none, some, inl, inr, Option-cases, List,
  [], ◌∷◌, arith, length,
}
use libgitledger.Text.{Bytes}
use libgitledger.Memory.{Ptr, null, Memory, Env, Allocator, default_alloc, default_free, Block}

-- The first of the addresses that is not in use.
abbrev pub first_free : List Ptr → (Ptr → Option Block) → Ptr
first_free [] blocks = null
first_free (p ∷ ps) blocks = elim (blocks p) [ none ↦ p | some _ ↦ first_free ps blocks ]

pub first_free_unused :
    (ps : List Ptr) (blocks : Ptr → Option Block)
    → first_free ps blocks ≢ null
    → blocks (first_free ps blocks) ≡ none
first_free_unused [] blocks h = absurd (h refl)
first_free_unused (p ∷ ps) blocks h = elim (Option-cases (blocks p)) [
  | inl e ↦ ground (arith, e)
  | inr (b, e) ↦ ground (arith, e, first_free_unused ps blocks)
]

abbrev pub zeros : ℕ → Bytes
zeros zero = []
zeros (suc n) = 0 ∷ zeros n

pub length-zeros : (n : ℕ) → length (zeros n) ≡ n
length-zeros zero = refl
length-zeros (suc n) = ap suc (length-zeros n)

abbrev pub addresses : List Ptr
addresses = 10 ∷ 11 ∷ 12 ∷ 13 ∷ 14 ∷ 15 ∷ 16 ∷ 17 ∷ []

-- A release build, with room for eight blocks.
abbrev pub world : Env
world = record {
  debug = false;
  rounds = 100;
  sizeof_context = 56;
  sizeof_node = 16;
  sizeof_error = 112;
  allocate = λ a size m. first_free addresses m.blocks;
  left_over = λ p size. zeros size;
  malloc_succeeds = λ size m. true;
  fresh = λ a size m h. first_free_unused addresses m.blocks h;
  length-left_over = λ p size. length-zeros size;
}

abbrev pub empty_memory : Memory
empty_memory = record { blocks = λ p. none; stderr = [] }

abbrev pub plain_allocator : Allocator
plain_allocator = record { alloc = default_alloc; free = default_free; userdata = null }

-- A debug build.
abbrev pub debug_world : Env
debug_world = record world { debug = true }

-- A process whose memory is used up.
abbrev pub full_world : Env
full_world = record world {
  allocate = λ a size m. null;
  malloc_succeeds = λ size m. false;
  fresh = λ a size m h. absurd (h refl);
}

-- A process with room for three blocks.
abbrev pub small_world : Env
small_world = record world {
  allocate = λ a size m. first_free (10 ∷ 11 ∷ 12 ∷ []) m.blocks;
  fresh = λ a size m h. first_free_unused (10 ∷ 11 ∷ 12 ∷ []) m.blocks h;
}
