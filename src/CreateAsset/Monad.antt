-- ===== src/CreateAsset/Monad.antt =====
-- The module variables that the genesis assets are computed with, and exceptions. What was written
-- to a variable stays written after a throw.
use lisk_migrator.Common.{ℕ, Result, ok, err}

-- `totalLSKSupply` of src/createAsset.ts and `legacyReserveAmount` of src/assets/legacy.ts.
pub record Globals : Type 0 where
  pub total_lsk_supply : ℕ
  pub legacy_reserve_amount : ℕ

abbrev pub Action : Type 0 → Type 0
Action A = Globals → Result A × Globals

module _ {A B : Type 0} where
  infixl 5 ◌>>=◌ ◌>>◌
  -- After a throw the variables are what they were at the throw.
  abbrev next_of : Result A → Globals → (A → Action B) → Result B × Globals
  next_of (err thrown) written next = (err thrown, written)
  next_of (ok value) written next = next value written

  abbrev pub ◌>>=◌ : Action A → (A → Action B) → Action B
  (action >>= next) globals =
      let (outcome, written) = action globals in next_of outcome written next

  abbrev pub ◌>>◌ : Action A → Action B → Action B
  action >> after = action >>= λ _. after

module _ {A : Type 0} where
  abbrev pub lift : Result A → Action A
  lift outcome globals = (outcome, globals)

  abbrev pub pure : A → Action A
  pure value = lift (ok value)

-- Reading and writing `totalLSKSupply`.
abbrev pub get_total : Action ℕ
get_total g = (ok g.total_lsk_supply, g)

abbrev pub set_total : ℕ → Action (Unit {0})
set_total total g = (ok tt, record g { total_lsk_supply = total })

-- `getLegacyReserveAmount`, and a call that sets the variable that it reads.
abbrev pub get_legacy_reserve_amount : Action ℕ
get_legacy_reserve_amount g = (ok g.legacy_reserve_amount, g)

abbrev pub with_reserve_amount : {A : Type 0} → Result A × ℕ → Action A
with_reserve_amount (r, amount) g = (r, record g { legacy_reserve_amount = amount })
