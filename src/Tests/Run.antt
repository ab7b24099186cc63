-- ===== src/Tests/Run.antt =====
-- Runs of the whole command: one that starts v4, and one whose copy of the legacy database fails.
use lisk_migrator.Common.{
  same, ◌≡◌, ◌⊎◌, refl, List, [], ◌∷◌, ◌++◌, true, none, Option, Text, codes, ok, Error,
}
use lisk_migrator.Command.Run.{Ending, failed, crashed, still_waiting, prepare, run}
use lisk_migrator.Command.Run.Interface.{Calls, network_of}
use lisk_migrator.Common.Dict.{lookup}
use lisk_migrator.Utils.Block.{
  get_data_from_db_stream, get_block_public_key_set, get_transaction_public_key_set,
}
use lisk_migrator.Utils.Number.{format_int}
use lisk_migrator.Assets.Pos.{get_validator_keys, create_genesis_data_obj}
use lisk_migrator.Assets.Token.{get_locked_balances}
use lisk_migrator.Encoding.Decimal.{big_int, decimal}
use lisk_migrator.Command.Run.Monad.{
  ◌>>=◌, lift, did, perform, execute, pure, throw, set_chain, get_chain, with_globals,
  get_config_core_v4, set_config_core_v4, set_genesis_block_create_command,
  set_lisk_core_start_command, Effect, forging_subscribed, height_finalized, assets_written,
  core_installed, block_created, block_written, block_copied, v3_stopped, data_dir_moved,
  legacy_db_copied, v4_started,
}
use lisk_migrator.Command.Run.Stages.{Stage, LeadTo, starts_v4}
use lisk_migrator.Command.Run.Refines.{run-Refines, EndsAt}
use lisk_migrator.Command.Run.Recovers.{Recovers}
use lisk_migrator.Command.Run.Unknown.{run_unknown}
use lisk_migrator.Command.Run.Safety.{run-moves_stopped}
use lisk_migrator.Tests.Migration.{flags, calls_with, fresh}

-- The whole migration.
all_effects : (run (calls_with (ok tt)) flags fresh).1.effects ≡ (
    forging_subscribed ∷ height_finalized ∷ assets_written ∷ core_installed ∷ block_created
    ∷ block_written ∷ block_copied ∷ v3_stopped ∷ data_dir_moved ∷ legacy_db_copied ∷ v4_started
    ∷ [])
unfolding run ◌>>=◌ lift did perform execute pure throw lookup set_chain get_chain with_globals
    get_config_core_v4 set_config_core_v4 set_genesis_block_create_command
    set_lisk_core_start_command get_data_from_db_stream get_validator_keys get_block_public_key_set
    get_transaction_public_key_set get_locked_balances big_int decimal create_genesis_data_obj
    format_int
all_effects = refl

run-Refines_example :
    (t : Stage) × LeadTo flags (run (calls_with (ok tt)) flags fresh).1.effects t
    × EndsAt (calls_with (ok tt)) flags (run (calls_with (ok tt)) flags fresh).0 t
run-Refines_example = run-Refines (calls_with (ok tt)) flags fresh refl

run-moves_stopped_example :
    (earlier : List Effect) × (forging_subscribed ∷ height_finalized ∷ assets_written
        ∷ core_installed ∷ block_created ∷ block_written ∷ block_copied ∷ v3_stopped ∷ []
      ≡ earlier ++ (block_written ∷ block_copied ∷ v3_stopped ∷ []))
    × (starts_v4 flags ≡ true)
run-moves_stopped_example =
    run-moves_stopped (calls_with (ok tt)) flags fresh refl
      (forging_subscribed ∷ height_finalized ∷ assets_written ∷ core_installed ∷ block_created
        ∷ block_written ∷ block_copied ∷ v3_stopped ∷ [])
      (legacy_db_copied ∷ v4_started ∷ []) all_effects

-- The run without a legacy database.
abbrev shown : Ending → Option Text
shown (failed cause document) = document
shown other = none

-- A node of a network of its own.
abbrev other_network : Calls
other_network = record (calls_with (ok tt)) { node_identifier = ok (codes "00") }

prepared : prepare other_network flags ≡ ok (codes "00")
unfolding prepare
prepared = refl

unknown : network_of (codes "00") ≡ none
unfolding lookup same
unknown = refl

run_unknown_example :
    ((cause : Error) × ((run other_network flags fresh).0 ≡ crashed cause))
    ⊎ ((run other_network flags fresh).0 ≡ still_waiting)
run_unknown_example = run_unknown other_network flags (codes "00") unknown prepared fresh
