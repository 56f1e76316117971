-- ===== src/Session/Client.antt =====
-- A caller of the interfaces in include/gitledger/context.h and include/gitledger/error.h that
-- follows their rules of ownership, as a program: it holds references to a context and to errors,
-- makes and wraps errors, and retains and releases what it holds; it names an error by the place of
-- a reference to it.
pub mod Holding
pub mod Obeys
pub mod Life
use libgitledger.Prelude.{
  ℕ, zero, suc, ◌+◌, ◌-◌, Option, none, some, List, [], ◌∷◌, ◌==◌, if◌then◌else◌,
}
use libgitledger.Text.{CInt, pos}
use libgitledger.ErrorCode.{Domain, Code}
use libgitledger.Memory.{Ptr, null, Allocator, Env, M, pure, ◌>>=◌, ◌>>◌, load_error}
use libgitledger.Context
use libgitledger.Context.{create, try_release}
use libgitledger.Error.{SourceLocation, Format, create_ctx_loc, with_cause_ctx_loc, retain, release}

pub data Command : Type 0 where
  make : Domain → Code → SourceLocation → Option Format → Command
  wrap : ℕ → Domain → Code → SourceLocation → Option Format → Command
  keep : ℕ → Command
  drop : ℕ → Command
  hold : Command
  let_go : Command

-- The references that the caller holds.
abbrev pub Handles : Type 0
Handles = List Ptr

abbrev pub nth : ℕ → Handles → Option Ptr
nth i [] = none
nth zero (q ∷ qs) = some q
nth (suc i) (q ∷ qs) = nth i qs

abbrev pub but_nth : ℕ → Handles → Handles
but_nth i [] = []
but_nth zero (q ∷ qs) = qs
but_nth (suc i) (q ∷ qs) = q ∷ but_nth i qs

-- What the caller holds: references to errors, and a number of references to the context.
pub record Client : Type 0 where
  pub errors : Handles
  pub contexts : ℕ

-- The caller takes what a call has made, NULL aside. It stops, with `none`, at an error that
-- belongs to no context.
abbrev pub take_in : Client → Ptr → M (Option Client)
take_in self q =
    if q == null
    then pure (some self)
    else load_error q >>= λ e.
        if e.ctx == null then pure none else pure (some (record self { errors = q ∷ self.errors }))

-- The release of the last reference to the context waits for the end of the caller's life, but is
-- tried while it holds errors.
abbrev pub let_context_go : Env → Ptr → Handles → ℕ → M (Option Client)
let_context_go env p [] n =
    if n == 1
    then pure (some (record { errors = []; contexts = n }))
    else try_release env p >> pure (some (record { errors = []; contexts = n - 1 }))
let_context_go env p (q ∷ qs) n =
    try_release env p
    >> pure (some (record { errors = q ∷ qs; contexts = if n == 1 then n else n - 1 }))

abbrev pub obey : Env → Ptr → Command → Client → M (Option Client)
obey env p (make domain code location fmt) self =
    create_ctx_loc env p domain code location fmt >>= take_in self
obey env p (wrap i domain code location fmt) self = elim (nth i self.errors) [
  | none ↦ pure (some self)
  | some k ↦ with_cause_ctx_loc env p domain code k location fmt >>= take_in self
]
obey env p (keep i) self = elim (nth i self.errors) [
  | none ↦ pure (some self)
  | some q ↦ retain q >> pure (some (record self { errors = q ∷ self.errors }))
]
obey env p (drop i) self = elim (nth i self.errors) [
  | none ↦ pure (some self)
  | some q ↦ release env q >> pure (some (record self { errors = but_nth i self.errors }))
]
obey env p hold self =
    Context.retain p >> pure (some (record self { contexts = self.contexts + 1 }))
obey env p let_go self = let_context_go env p self.errors self.contexts

abbrev pub perform : Env → Ptr → List Command → Client → M (Option Client)
perform env p [] self = pure (some self)
perform env p (c ∷ cs) self =
    obey env p c self >>= λ r. elim r [ none ↦ pure none | some after ↦ perform env p cs after ]

abbrev pub release_all : Env → Handles → M (Unit {0})
release_all env [] = pure tt
release_all env (q ∷ qs) = release env q >> release_all env qs

-- The references to the context are released one after the other; the answer is the last one's.
abbrev pub close : Env → Ptr → ℕ → M CInt
close env p zero = pure (pos 0)
close env p (suc n) = if n == 0 then try_release env p else try_release env p >> close env p n

-- A whole life: a context, the commands, the release of all that is held, and of the context.
abbrev pub life : Env → Option Allocator → List Command → M (Option CInt)
life env given cs = create env given >>= λ p.
    if p == null
    then pure none
    else perform env p cs (record { errors = []; contexts = 1 }) >>= λ r. elim r [
      | none ↦ pure none
      | some self ↦
          release_all env self.errors >> (close env p self.contexts >>= λ v. pure (some v))
    ]
