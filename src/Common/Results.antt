-- ===== src/Common/Results.antt =====
-- Exceptions as values, and the errors that the modelled code throws.
use Prim.Native.Nat.{ℕ}

-- One constructor for each place that throws. `external` is a rejection by code that is not the
-- migrator's own (database, codec), `no_fuel` is no error of the program: a loop of the model
-- had too few rounds.
pub data Error : Type 0 where
  divide_by_zero negative_number out_of_range maximum_input not_a_number no_fuel : Error
  unknown_network undefined_property invalid_start_command_flags : Error
  network_without_snapshot invalid_snapshot_url backup_height_mismatch : Error
  invalid_snapshot_height invalid_version unsupported_version : Error
  shutdown_not_confirmed shutdown_refused still_running : Error
  output_path_not_allowed checksum_mismatch invalid_filepath file_exists : Error
  invalid_migrated_config start_failed : Error
  vote_weights_unavailable : ℕ → Error
  external : ℕ → Error
  -- an error of an event's handler, which nothing can catch: it ends the process
  unhandled : Error → Error

-- What a call returns, or the exception that it throws.
pub data Result {ℓ} (A : Type ℓ) : Type ℓ where
  err : Error → Result A
  ok : A → Result A

module _ {ℓ κ} {A : Type ℓ} {B : Type κ} where
  infixl 5 ◌>>=◌ ◌>>◌
  -- `await` of a call, with what follows it.
  abbrev pub ◌>>=◌ : Result A → (A → Result B) → Result B
  outcome >>= next = elim outcome [ err thrown ↦ err thrown | ok value ↦ next value ]

  abbrev pub ◌>>◌ : Result A → Result B → Result B
  outcome >> after = outcome >>= λ _. after

-- What a call inside the handler of an event comes to.
abbrev pub in_handler {ℓ} : {A : Type ℓ} → Result A → Result A
in_handler (ok value) = ok value
in_handler (err e) = err (unhandled e)
