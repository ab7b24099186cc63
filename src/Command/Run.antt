-- ===== src/Command/Run.antt =====
-- `run` of src/index.ts, from the checks of the flags to the file of commands. What it calls of the
-- system, of the node and of the user's terminal are parameters.
pub mod Monad
pub mod Interface
pub mod Phases
pub mod Stages
pub mod Rules
pub mod Follows
pub mod Starts
pub mod Refines
pub mod Safety
pub mod Recovers
pub mod Unknown
pub mod Makes
pub mod Favourable
pub mod Exports
pub mod Completes
use lisk_migrator.Common.{
  ℕ, List, ◌++◌, Bool, true, false, not, ◌&&◌, Option, none, some, Text, codes, same, if◌then◌else◌,
  Error, Result, ok, err, [], undefined_property, invalid_migrated_config, start_failed,
}
use lisk_migrator.Common.Dict.{lookup}
use lisk_migrator.Codec.{Codec}
use lisk_migrator.Command.{
  Flags, NodeStatus, Semver, Operator, Commands, use_snapshot, check_flags, check_heights,
  check_core, confirm_shutdown, commands_to_execute,
}
use lisk_migrator.Constants.{
  network_constant, genesis_block_create, invalid_config, lisk_core_start, legacy_db_path,
  default_lisk_core_path, lisk_v3_backup_data_dir,
}
use lisk_migrator.CreateAsset.{init}
use lisk_migrator.Crypto.{Crypto}
use lisk_migrator.Database.{Db}
use lisk_migrator.Types.{GenesisAssetEntry, NetworkConfigLocal}
use lisk_migrator.Utils.Block.{get_block_header_by_height}
use lisk_migrator.Utils.Chain.{
  ChainState, NodeInfo, Outcome, observe_chain_height, set_token_id_lsk_by_net_id,
  set_prev_snapshot_block_height_by_net_id,
}
use lisk_migrator.Utils.Commands.{ForgingStatus, write_commands_to_exec}
use lisk_migrator.Utils.Config.{ConfigV4, migrate_user_config, truthy_text}
use lisk_migrator.Utils.Config.Files.{
  ConfigFiles, get_config, resolve_config_path_by_network_id, validate_config,
}
use lisk_migrator.Utils.Exception.{Exception, migrator_exception, plain, code_or}
use lisk_migrator.Utils.GenesisBlock.{command_for}
use lisk_migrator.Utils.Network.{get_network_identifier}
use lisk_migrator.Utils.Node.{starts_with, ends_in, resolve_lisk_core_start_command}
use lisk_migrator.Utils.Node.Start.{StartSteps, Progress, start_lisk_core}
use lisk_migrator.Utils.Path.{
  System, resolve_absolute_path, verify_output_path, resolve_snapshot_path,
}
use Interface.{
  Calls, is_url, is_tar_ball, given, token_id_of, network_of, is_known, name_of, port_of, data_path,
  snapshot_path,
}
use Monad.{
  Effect, snapshot_downloaded, snapshot_extracted, forging_subscribed, height_finalized,
  assets_written, config_saved, config_written, core_installed, block_created, block_written,
  block_copied, v3_stopped, data_dir_moved, legacy_db_copied, v4_started, World, Ended, returned,
  thrown, waits, died, execute, Run, ◌>>=◌, ◌>>◌, pure, throw, lift, did, perform, get_chain,
  set_chain, with_globals, get_config_core_v4, set_config_core_v4, set_genesis_block_create_command,
  set_lisk_core_start_command,
}
use Phases.{migrate}

-- `command ?? default`; an array's `join` makes undefined an empty text.
abbrev pub text_of : Option Text → Text → Text
text_of none default = default
text_of (some command) default = command

-- How a run ends: with the file of commands that was written, if one was, after an error with the
-- error that is shown; by an error that nothing catches; or never.
pub data Ending : Type 0 where
  completed : Option Text → Ending
  failed : Exception → Option Text → Ending
  crashed : Error → Ending
  still_waiting : Ending

-- What comes before the outer `try`.
abbrev pub before : Result (Unit {0}) → Result Text → Result Text
before (err e) next = err e
before (ok done) next = next

module _ (calls : Calls) (flags : Flags) where
  -- The commands of the outer `catch`, for what is thrown.
  abbrev pub commands_for : Text → World → Commands
  commands_for network w = record {
    genesis_block_create_command = text_of w.genesis_block_create_command [];
    backup_legacy_data_dir_command =
        codes "mv "
        ++ data_path calls flags
        ++ codes " "
        ++ lisk_v3_backup_data_dir calls.system.homedir;
    copy_legacy_db_command = codes "cp -r " ++ legacy_db_path;
    lisk_core_start_command =
        text_of w.lisk_core_start_command (codes "lisk-core start --network " ++ network);
  }

  -- The file of the commands, with those from before the completion.
  abbrev pub kept : Text → Result (Unit {0}) → Result (Option Text)
  kept document (ok done) = ok (some document)
  kept document (err e) = err e

  abbrev pub written_document : Option Text → Result (Option Text)
  written_document none = ok none
  written_document (some document) = kept document (calls.write_commands document)

  abbrev pub document_from :
      NetworkConfigLocal
      → Option (List Text)
      → Result (Option (List ForgingStatus))
      → Result (Option Text)
  document_from network pre_completion_commands (err e) = err e
  document_from network pre_completion_commands (ok statuses) = written_document (
      write_commands_to_exec network flags.snapshot_height calls.keys_filepath statuses
        pre_completion_commands)

  abbrev pub document_of : NetworkConfigLocal → Option (List Text) → Result (Option Text)
  document_of network pre_completion_commands =
      document_from network pre_completion_commands calls.forging_statuses

  abbrev pub ending_of : Option Exception → Result (Option Text) → Ending
  ending_of cause (err e) = crashed e
  ending_of none (ok document) = completed document
  ending_of (some e) (ok document) = failed e document

  -- After the outer `try`.
  abbrev pub conclude : Option NetworkConfigLocal → Ending
  -- Without a network constant, its `tokenID` is read if there are forging statuses.
  conclude none = ending_of none (elim (calls.forging_statuses) [
    | err e ↦ err e
    | ok none ↦ ok none
    | ok (some statuses) ↦ err undefined_property
  ])
  conclude (some network) = ending_of none (document_of network none)

  -- The outer `catch`, where `networkConstant.name` throws if there is none.
  abbrev pub recover : Exception → World → Option NetworkConfigLocal → Ending
  recover e w none = crashed undefined_property
  recover e w (some network) =
      ending_of (some e)
        (document_of network (some (commands_to_execute e.code (commands_for network.name w))))

  unfoldable pub finish : Text → Ended (Unit {0}) × World → Ending × World
  unfolding commands_to_execute write_commands_to_exec
  finish network_identifier (waits, w) = (still_waiting, w)
  finish network_identifier (died e, w) = (crashed e, w)
  finish network_identifier (returned value, w) = (conclude (network_of network_identifier), w)
  finish network_identifier (thrown e, w) = (recover e w (network_of network_identifier), w)

  abbrev pub output_path : Text
  output_path = elim (flags.output) [ none ↦ calls.default_output | some path ↦ path ]

  abbrev pub output_dir_of : Text → Text
  output_dir_of network_identifier = elim (flags.output) [
    | none ↦ calls.default_output ++ codes "/" ++ network_identifier
    | some path ↦ path
  ]

  -- What comes before the outer `try`; what it throws ends the process.
  unfoldable pub prepare : Result Text
  unfolding check_flags verify_output_path get_network_identifier
  prepare = before (check_flags flags) (
      before (verify_output_path calls.system output_path)
        (elim (get_network_identifier flags.network calls.node_identifier) [
          | err e ↦ err e
          | ok network_identifier ↦ before calls.make_output_dir (ok network_identifier)
        ]))

  abbrev pub run_from : World → Result Text → Ending × World
  run_from w (err e) = (crashed e, w)
  run_from w (ok network_identifier) =
      finish network_identifier
        (migrate calls flags network_identifier (output_dir_of network_identifier) w)

  unfoldable pub run : World → Ending × World
  unfolding prepare migrate finish
  run w = run_from w prepare
