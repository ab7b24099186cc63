-- ===== src/Command/Run/Phases.antt =====
-- The phases of `run` of src/index.ts inside its outer `try`.
use lisk_migrator.Common.{
  ℕ, true, not, ◌&&◌, Option, none, some, Text, if◌then◌else◌, Result, ok, err,
  invalid_migrated_config, start_failed,
}
use lisk_migrator.Command.{Flags, use_snapshot, check_heights, check_core, confirm_shutdown}
use lisk_migrator.Constants.{genesis_block_create, invalid_config, lisk_core_start}
use lisk_migrator.CreateAsset.{init}
use lisk_migrator.Database.{Db}
use lisk_migrator.Utils.Block.{get_block_header_by_height}
use lisk_migrator.Utils.Chain.{
  Outcome, observe_chain_height, set_token_id_lsk_by_net_id,
  set_prev_snapshot_block_height_by_net_id,
}
use lisk_migrator.Utils.Config.{ConfigV4, migrate_user_config}
use lisk_migrator.Utils.Config.Files.{
  get_config, resolve_config_path_by_network_id, validate_config,
}
use lisk_migrator.Utils.Exception.{migrator_exception, code_or}
use lisk_migrator.Utils.GenesisBlock.{command_for}
use lisk_migrator.Utils.Node.{starts_with, ends_in, resolve_lisk_core_start_command}
use lisk_migrator.Utils.Node.Start.{Progress, start_lisk_core}
use lisk_migrator.Utils.Path.{resolve_snapshot_path}
use lisk_migrator.Command.Run.Interface.{
  Calls, is_url, is_tar_ball, given, token_id_of, network_of, is_known, name_of, port_of, data_path,
  snapshot_path,
}
use lisk_migrator.Command.Run.Monad.{
  snapshot_downloaded, snapshot_extracted, forging_subscribed, height_finalized, assets_written,
  config_saved, config_written, core_installed, block_created, block_written, block_copied,
  v3_stopped, data_dir_moved, legacy_db_copied, v4_started, World, Ended, returned, thrown, raised,
  waits, died, Run, ◌>>=◌, ◌>>◌, pure, throw, lift, did, perform, execute, get_chain, set_chain,
  with_globals, get_config_core_v4, set_config_core_v4, set_genesis_block_create_command,
  set_lisk_core_start_command,
}

abbrev pub observed : Outcome → Run (Unit {0})
observed Outcome.waiting w = (waits, w)
observed (Outcome.resolved height) w = did height_finalized w
observed (Outcome.rejected e) w = (raised e, w)

-- The `catch` of `createGenesisBlock`.
abbrev pub executed : Result Text → Run (Unit {0})
executed (ok output) = did block_created
executed (err e) = throw (migrator_exception e genesis_block_create)

-- The effects of `startLiskCore`, as far as it came.
abbrev pub record_progress : Progress → Run (Unit {0})
record_progress progress = do
  if progress.is_backed_up then did data_dir_moved else pure tt
  if progress.is_copied then did legacy_db_copied else pure tt
  if progress.is_started then did v4_started else pure tt

-- `liskCoreStartCommand`, which stays undefined unless the command was resolved.
abbrev pub resolved_command : Progress → Result Text → Option Text
resolved_command progress (err e) = none
resolved_command progress (ok command) = if progress.is_copied then some command else none

abbrev pub throw_code : Option ℕ → Run (Unit {0})
throw_code none = pure tt
throw_code (some code) = throw (migrator_exception start_failed code)

-- What `startLiskCore` did, the command that it resolved and what it throws.
abbrev pub report : Option ℕ × Progress → Option Text → Run (Unit {0})
report (code, progress) command = do
  record_progress progress
  set_lisk_core_start_command command
  throw_code code

-- The inner `catch`. What is thrown to it and has a code is a MigratorException: of the two commands of
-- the system, `which` gives its code to nobody, and those of `startLiskCore` are caught there.
abbrev pub rethrown : Ended (Unit {0}) × World → Ended (Unit {0}) × World
rethrown (returned value, w) = (returned value, w)
rethrown (waits, w) = (waits, w)
rethrown (died e, w) = (died e, w)
rethrown (thrown e, w) = (thrown (migrator_exception e.reason (code_or lisk_core_start e)), w)

module _ (calls : Calls) (flags : Flags) where
  unfoldable pub fetch_snapshot : Run (Unit {0})
  unfolding starts_with ends_in
  fetch_snapshot =
      if is_url flags.snapshot_url
      then perform snapshot_downloaded (calls.download_and_extract (given flags.snapshot_url))
      else if is_tar_ball (snapshot_path calls flags)
      then perform snapshot_extracted (calls.extract_tar_ball (given (snapshot_path calls flags)))
      else pure tt

  unfoldable pub await_node : Text → Run (Unit {0})
  unfolding check_heights check_core observe_chain_height
  await_node network_identifier = do
    node ← lift calls.node
    lift (check_heights flags node)
    did forging_subscribed
    lift (check_core calls.semver flags (is_known network_identifier) node)
    observed (
        observe_chain_height (record { observed_height = flags.snapshot_height; is_final = true })
          calls.answers)

  -- From the snapshot to the file of the genesis assets.
  unfoldable pub export_assets : Text → Run (Db × Text × ConfigV4)
  unfolding set_token_id_lsk_by_net_id set_prev_snapshot_block_height_by_net_id
      resolve_snapshot_path init resolve_config_path_by_network_id
  export_assets network_identifier = do
    set_chain (set_token_id_lsk_by_net_id network_identifier)
    set_chain (set_prev_snapshot_block_height_by_net_id network_identifier)
    path ← lift (
        resolve_snapshot_path (use_snapshot flags) (snapshot_path calls flags) calls.data_dir
          (data_path calls flags) calls.data_dir_files)
    db ← lift (calls.open_database path)
    chain ← get_chain
    token_id ← lift (token_id_of chain)
    genesis_assets ←
        with_globals (
          init calls.fuel calls.crypto calls.codec db flags.snapshot_height token_id
            flags.page_size)
    config_path ← lift (resolve_config_path_by_network_id calls.utils_dir network_identifier)
    default_config ← lift (calls.config_files.read_default config_path)
    perform assets_written (calls.write_genesis_assets genesis_assets)
    pure (db, config_path, default_config)

  unfoldable pub migrate_config : Text → ConfigV4 → Run (Unit {0})
  unfolding get_config migrate_user_config validate_config
  migrate_config network_identifier default_config = do
    config_v3 ← lift (
        get_config calls.system calls.config_files (data_path calls flags) network_identifier
          flags.config)
    perform config_saved calls.create_backup
    let migrated = migrate_user_config config_v3 default_config flags.snapshot_height
    if validate_config calls.config_files migrated
        then pure tt
        else throw (migrator_exception invalid_migrated_config invalid_config)
    perform config_written (calls.write_config migrated)
    set_config_core_v4 migrated

  -- `createGenesisBlock`, whose `catch` gives the error its code.
  unfoldable pub create_genesis_block : Text → Text → Text → Db → Run (Unit {0})
  unfolding get_block_header_by_height command_for
  create_genesis_block network config_path output_dir db = do
    header ← lift (get_block_header_by_height db calls.codec.block_header flags.snapshot_height)
    set_genesis_block_create_command (command_for network config_path output_dir header)
    executed (calls.exec_create (command_for network config_path output_dir header))

  -- `startLiskCore`, with the port of the configuration.
  unfoldable pub start_v4 : Text → Run (Unit {0})
  unfolding start_lisk_core resolve_lisk_core_start_command
  start_v4 network = do
    config ← get_config_core_v4
    let outcome = start_lisk_core calls.start (port_of config) network calls.final_config_path
    report outcome (
        resolved_command outcome.1
          (resolve_lisk_core_start_command calls.start.wizard network calls.final_config_path))

  -- The inner `try`.
  unfoldable pub auto_start : Text → ConfigV4 → Run (Unit {0})
  unfolding start_v4 confirm_shutdown
  auto_start network default_config = do
    if flags.auto_migrate_config then pure tt else set_config_core_v4 default_config
    exec_path ← lift calls.which_lisk_core
    perform block_copied (calls.copy_genesis_block exec_path network)
    perform v3_stopped (confirm_shutdown calls.operator)
    if calls.is_config_confirmed then start_v4 network else pure tt

  -- The outer `try`.
  unfoldable pub migrate : Text → Text → Run (Unit {0})
  unfolding fetch_snapshot await_node export_assets migrate_config create_genesis_block auto_start
  migrate network_identifier output_dir = do
    if use_snapshot flags then fetch_snapshot else await_node network_identifier
    (db, config_path, default_config) ← export_assets network_identifier
    if flags.auto_migrate_config && not (use_snapshot flags)
        then migrate_config network_identifier default_config
        else pure tt
    execute core_installed calls.install_lisk_core
    network ← lift (name_of (network_of network_identifier))
    create_genesis_block network config_path output_dir db
    perform block_written calls.write_genesis_block
    if not (use_snapshot flags) && flags.auto_start_lisk_core_v4
        then (λ w. rethrown (auto_start network default_config w))
        else pure tt
