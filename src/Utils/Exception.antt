-- ===== src/Utils/Exception.antt =====
-- src/utils/exception.ts: errors with a code.
use lisk_migrator.Common.{ℕ, Option, none, some, Error, Result, ok, err}

-- What is thrown: a `MigratorException` with its code, or any other error, whose `code` is undefined
-- or is no number.
pub record Exception : Type 0 where
  pub reason : Error
  pub code : Option ℕ

abbrev pub migrator_exception : Error → ℕ → Exception
migrator_exception reason code = record { reason = reason; code = some code }

abbrev pub plain : Error → Exception
plain reason = record { reason = reason; code = none }

-- `err instanceof MigratorException ? err.code : code`
abbrev pub code_or : ℕ → Exception → ℕ
code_or default thrown = elim (thrown.code) [ none ↦ default | some code ↦ code ]

-- What a call with such exceptions comes to.
pub data Attempt (A : Type 0) : Type 0 where
  success : A → Attempt A
  failure : Exception → Attempt A

-- A `try` whose `catch` throws a `MigratorException` with a code.
abbrev pub with_code : {A : Type 0} → ℕ → Result A → Attempt A
with_code code (ok value) = success value
with_code code (err reason) = failure (migrator_exception reason code)
