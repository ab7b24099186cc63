-- ===== src/Tests/Completes.antt =====
-- A run of the whole command with every step of the migration.
use lisk_migrator.Common.{◌≡◌, refl, [], ◌∷◌, true, none, codes, ok}
use lisk_migrator.Command.{Flags}
use lisk_migrator.Command.Run.{completed, prepare, run}
use lisk_migrator.Common.Dict.{lookup}
use lisk_migrator.Utils.Number.{format_int}
use lisk_migrator.Command.Run.Monad.{
  forging_subscribed, height_finalized, assets_written, config_saved, config_written,
  core_installed, block_created, block_written, block_copied, v3_stopped, data_dir_moved,
  legacy_db_copied, v4_started,
}
use lisk_migrator.Tests.Supply.{run_db}
use lisk_migrator.Tests.Migration.{flags, calls_with, fresh}
use lisk_migrator.Tests.Supply.{readable}
use lisk_migrator.Command.{check_heights, check_core, confirm_shutdown}
use lisk_migrator.Utils.Chain.{observe_chain_height}
use lisk_migrator.Utils.Path.{resolve_snapshot_path}
use lisk_migrator.Utils.Config.Files.{
  resolve_config_path_by_network_id, get_config, validate_config,
}
use lisk_migrator.Utils.Block.{get_block_header_by_height}
use lisk_migrator.Utils.Node.{resolve_lisk_core_start_command}
use lisk_migrator.Utils.Node.Start.{start_lisk_core}
use lisk_migrator.Utils.Commands.{write_commands_to_exec}
use lisk_migrator.Command.Run.Favourable.{IsFavourable}
use lisk_migrator.Command.Run.Completes.{run-Completes}

-- The flags with the migration of the user's configuration.
abbrev migrating : Flags
migrating = record flags { auto_migrate_config = true }

unfoldable favourable : IsFavourable (calls_with (ok tt)) migrating
unfolding prepare lookup check_heights check_core observe_chain_height resolve_snapshot_path
    resolve_config_path_by_network_id get_config validate_config get_block_header_by_height
    format_int confirm_shutdown start_lisk_core resolve_lisk_core_start_command
    write_commands_to_exec
favourable = record {
  network_identifier = codes "4c09e6a781fc4c7bdb936ee815de8f94190f8a7519becd9de2081832be309a99";
  network = _;
  prepared = refl;
  known = refl;
  downloaded = λ url. refl;
  unpacked = λ path. refl;
  node = _;
  node_answers = refl;
  heights_fit = refl;
  core_fits = refl;
  final_height = 206;
  finalized = refl;
  path = _;
  path_found = refl;
  db = run_db;
  opened = refl;
  readable = readable;
  config_path = _;
  config_found = refl;
  default_config = _;
  config_read = refl;
  assets_kept = λ assets. refl;
  config_v3 = _;
  v3_read = refl;
  backed_up = refl;
  valid = λ config. refl;
  config_kept = λ config. refl;
  install_output = [];
  installed = refl;
  header = _;
  header_found = refl;
  created = λ command. refl;
  block_kept = refl;
  exec_path = _;
  core_found = refl;
  copied = refl;
  stopped = refl;
  agreed = refl;
  started = λ port. refl;
  document = none;
  document_kept = refl;
}

run-Completes_example :
    ((run (calls_with (ok tt)) migrating fresh).0 ≡ completed none)
    × ((run (calls_with (ok tt)) migrating fresh).1.effects ≡ (
        forging_subscribed ∷ height_finalized ∷ assets_written ∷ config_saved ∷ config_written
        ∷ core_installed ∷ block_created ∷ block_written ∷ block_copied ∷ v3_stopped
        ∷ data_dir_moved ∷ legacy_db_copied ∷ v4_started ∷ []))
unfolding favourable
run-Completes_example = run-Completes (calls_with (ok tt)) migrating favourable fresh
