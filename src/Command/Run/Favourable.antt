-- ===== src/Command/Run/Favourable.antt =====
-- Where no call of `run` of src/index.ts fails, and the effects that it makes then.
use lisk_migrator.Common.{
  ℕ, ◌≡◌, List, [], ◌∷◌, ◌++◌, true, Option, none, some, Text, ok, if◌then◌else◌,
}
use lisk_migrator.Command.{
  Flags, NodeStatus, use_snapshot, check_heights, check_core, confirm_shutdown,
}
use lisk_migrator.Command.Run.{prepare, document_of}
use lisk_migrator.Command.Run.Interface.{
  Calls, is_url, is_tar_ball, network_of, is_known, data_path, snapshot_path,
}
use lisk_migrator.Command.Run.Monad.{
  Effect, snapshot_downloaded, snapshot_extracted, forging_subscribed, height_finalized,
  assets_written, config_saved, config_written, core_installed, block_created, block_written,
  block_copied, v3_stopped, data_dir_moved, legacy_db_copied, v4_started,
}
use lisk_migrator.Command.Run.Stages.{migrates_config, starts_v4}
use lisk_migrator.CreateAsset.Supply.Init.{IsReadable}
use lisk_migrator.Database.{Db}
use lisk_migrator.Types.{NetworkConfigLocal, GenesisAssetEntry}
use lisk_migrator.Utils.Block.{BlockHeader, get_block_header_by_height}
use lisk_migrator.Utils.Chain.{Outcome, observe_chain_height}
use lisk_migrator.Utils.Config.{ConfigV3, ConfigV4}
use lisk_migrator.Utils.Config.Files.{
  get_config, resolve_config_path_by_network_id, validate_config,
}
use lisk_migrator.Utils.Node.Start.{start_lisk_core, all_done}
use lisk_migrator.Utils.Exception.{success}
use lisk_migrator.Utils.Path.{resolve_snapshot_path}

-- All effects of a run, in their order.
abbrev pub fetch_effects : Flags → Option Text → List Effect
fetch_effects flags path =
    if is_url flags.snapshot_url
    then snapshot_downloaded ∷ []
    else if is_tar_ball path
    then snapshot_extracted ∷ []
    else []

abbrev pub all_effects : Calls → Flags → List Effect
all_effects calls flags =
    (if use_snapshot flags
      then fetch_effects flags (snapshot_path calls flags)
      else forging_subscribed ∷ height_finalized ∷ [])
    ++ (assets_written
        ∷ ((if migrates_config flags then config_saved ∷ config_written ∷ [] else [])
            ++ (core_installed
                ∷ block_created
                ∷ block_written
                ∷ (if starts_v4 flags
                    then block_copied ∷ v3_stopped ∷ data_dir_moved ∷ legacy_db_copied ∷ v4_started
                      ∷ []
                    else []))))

-- No call fails: the flags pass, the network is known, the snapshot can be read, the node answers with
-- the heights and the version that are wanted, and the user agrees to everything.
pub record IsFavourable (calls : Calls) (flags : Flags) : Type 0 where
  pub network_identifier : Text
  pub network : NetworkConfigLocal
  pub prepared : prepare calls flags ≡ ok network_identifier
  pub known : network_of network_identifier ≡ some network
  pub downloaded : (url : Text) → calls.download_and_extract url ≡ ok tt
  pub unpacked : (path : Text) → calls.extract_tar_ball path ≡ ok tt
  pub node : NodeStatus
  pub node_answers : calls.node ≡ ok node
  pub heights_fit : check_heights flags node ≡ ok tt
  pub core_fits : check_core calls.semver flags (is_known network_identifier) node ≡ ok tt
  pub final_height : ℕ
  pub finalized :
      observe_chain_height
        (record { observed_height = flags.snapshot_height; is_final = true })
        calls.answers
      ≡ Outcome.resolved final_height
  pub path : Text
  pub path_found :
      resolve_snapshot_path
        (use_snapshot flags)
        (snapshot_path calls flags)
        calls.data_dir
        (data_path calls flags)
        calls.data_dir_files
      ≡ ok path
  pub db : Db
  pub opened : calls.open_database path ≡ ok db
  pub readable : IsReadable (record {
    fuel = calls.fuel;
    c = calls.crypto;
    codec = calls.codec;
    db = db;
    height = flags.snapshot_height;
    token_id = network.token_id;
    page_size = flags.page_size;
  })
  pub config_path : Text
  pub config_found :
      resolve_config_path_by_network_id calls.utils_dir network_identifier ≡ ok config_path
  pub default_config : ConfigV4
  pub config_read : calls.config_files.read_default config_path ≡ ok default_config
  pub assets_kept : (assets : List GenesisAssetEntry) → calls.write_genesis_assets assets ≡ ok tt
  pub config_v3 : ConfigV3
  pub v3_read :
      get_config calls.system calls.config_files
        (data_path calls flags)
        network_identifier
        flags.config
      ≡ ok config_v3
  pub backed_up : calls.create_backup ≡ ok tt
  pub valid : (config : ConfigV4) → validate_config calls.config_files config ≡ true
  pub config_kept : (config : ConfigV4) → calls.write_config config ≡ ok tt
  pub install_output : Text
  pub installed : calls.install_lisk_core ≡ success install_output
  pub header : BlockHeader
  pub header_found :
      get_block_header_by_height db calls.codec.block_header flags.snapshot_height ≡ ok header
  pub created : (command : Text) → calls.exec_create command ≡ ok []
  pub block_kept : calls.write_genesis_block ≡ ok tt
  pub exec_path : Text
  pub core_found : calls.which_lisk_core ≡ ok exec_path
  pub copied : calls.copy_genesis_block exec_path network.name ≡ ok tt
  pub stopped : confirm_shutdown calls.operator ≡ ok tt
  pub agreed : calls.is_config_confirmed ≡ true
  pub started :
      (port : Option ℕ)
      → start_lisk_core calls.start port network.name calls.final_config_path ≡ (none, all_done)
  pub document : Option Text
  pub document_kept : document_of calls flags network none ≡ ok document
