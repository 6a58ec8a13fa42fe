-- ===== src/Engine/Monad.antt =====
-- A method of `KernelEngine`: the engine comes back beside the result whatever the result is, since
-- what was written before an error stays written. A panic, of the `json!` macro on a `u128` that it
-- cannot hold, is a result too.
use v_kernelx.Base.{Option, none, some}
use v_kernelx.Consensus.{ConsensusPolicy}
use v_kernelx.Error.{KernelXError, Result, ok, err}
use v_kernelx.Storage.{MemoryStore}

pub record KernelEngine : Type 0 where
  pub store : MemoryStore
  pub consensus : ConsensusPolicy

pub data Outcome (A : Type 0) : Type 0 where
  done : A → Outcome A
  failed : KernelXError → Outcome A
  panicked : Outcome A

abbrev pub Action : Type 0 → Type 0
Action A = KernelEngine → Outcome A × KernelEngine

module _ {A : Type 0} where
  abbrev pub pure : A → Action A
  pure a k = (done a, k)

  abbrev pub fail : KernelXError → Action A
  fail e k = (failed e, k)

  -- `expression?`
  abbrev pub lift : Result KernelXError A → Action A
  lift (ok a) k = (done a, k)
  lift (err e) k = (failed e, k)

  -- `option.ok_or(e)?`
  abbrev pub or_fail : KernelXError → Option A → Action A
  or_fail e none k = (failed e, k)
  or_fail e (some a) k = (done a, k)

  abbrev pub or_panic : Option A → Action A
  or_panic none k = (panicked, k)
  or_panic (some a) k = (done a, k)

  -- A read of the store.
  abbrev pub reads : (MemoryStore → A) → Action A
  reads f k = (done (f k.store), k)

-- A write to the store that cannot fail.
abbrev pub writes : (MemoryStore → MemoryStore) → Action (Unit {0})
writes f k = (done tt, record k { store = f k.store })

-- A write to the store that can.
abbrev pub stored : Result KernelXError MemoryStore → Action (Unit {0})
stored (ok store) k = (done tt, record k { store = store })
stored (err e) k = (failed e, k)

abbrev pub try_write : (MemoryStore → Result KernelXError MemoryStore) → Action (Unit {0})
try_write f k = stored (f k.store) k

abbrev pub continue : {A B : Type 0} → Outcome A → (A → Action B) → Action B
continue (done a) f k = f a k
continue (failed e) f k = (failed e, k)
continue panicked f k = (panicked, k)

infixl 5 ◌>>=◌ ◌>>◌
unfoldable pub ◌>>=◌ : {A B : Type 0} → Action A → (A → Action B) → Action B
◌>>=◌ m f k = let (r, k') = m k in continue r f k'

abbrev pub ◌>>◌ : {A B : Type 0} → Action A → Action B → Action B
m >> n = m >>= λ _. n
