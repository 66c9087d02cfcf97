-- ===== src/Executor/Exec.antt =====
-- Code that calls the executor: it may fail, and what it did before a failure stays done.
use lab_env.Common.{String}
use lab_env.Common.Errors.{Result, ok, err, wrap}
use lab_env.Common.Bytes.{Bytes}
use lab_env.Executor.{Op, Executor}

abbrev pub Exec : Type 0 → Type 0 → Type 0
Exec S A = S → Result A × S

-- `if err := m; err != nil { return fmt.Errorf(context, err) }`
abbrev pub wrapped_result : {A : Type 0} → String → Result A → Result A
wrapped_result context (ok a) = ok a
wrapped_result context (err e) = err (wrap context e)

module _ {S A : Type 0} where
  abbrev pub pure : A → Exec S A
  pure a s = (ok a, s)

  abbrev pub wrapped : String → Exec S A → Exec S A
  wrapped context m s = let (r, s') = m s in (wrapped_result context r, s')

module _ {S A B : Type 0} where
  abbrev pub continue : Result A → (A → Exec S B) → Exec S B
  continue (ok a) f s = f a s
  continue (err e) f s = (err e, s)

  infixl 5 ◌>>=◌ ◌>>◌
  abbrev pub ◌>>=◌ : Exec S A → (A → Exec S B) → Exec S B
  ◌>>=◌ m f s = let (r, s') = m s in continue r f s'

  abbrev pub ◌>>◌ : Exec S A → Exec S B → Exec S B
  m >> n = m >>= λ _. n

module _ {S : Type 0} (x : Executor S) where
  abbrev pub call : Op → Exec S (Unit {0})
  call op = x.perform op

  -- A call whose error is dropped.
  abbrev pub attempt : Op → Exec S (Unit {0})
  attempt op s = let (r, s') = x.perform op s in (ok tt, s')

  abbrev pub read_file : String → Exec S Bytes
  read_file path s = (x.observer.read_file path s, s)
