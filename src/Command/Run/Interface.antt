-- ===== src/Command/Run/Interface.antt =====
-- The system, the node and the user's terminal as `run` of src/index.ts calls them, and the values that it
-- reads from its flags and constants.
use lisk_migrator.Common.{
  ℕ, List, Bool, true, false, Option, none, some, Text, codes, same, Result, ok, err,
  undefined_property,
}
use lisk_migrator.Common.Dict.{lookup}
use lisk_migrator.Codec.{Codec}
use lisk_migrator.Command.{Flags, NodeStatus, Semver, Operator}
use lisk_migrator.Constants.{network_constant, default_lisk_core_path}
use lisk_migrator.Crypto.{Crypto}
use lisk_migrator.Database.{Db}
use lisk_migrator.Types.{GenesisAssetEntry, NetworkConfigLocal}
use lisk_migrator.Utils.Chain.{ChainState, NodeInfo}
use lisk_migrator.Utils.Commands.{ForgingStatus}
use lisk_migrator.Utils.Exception.{Attempt, success, failure}
use lisk_migrator.Utils.Config.{ConfigV4, truthy_text}
use lisk_migrator.Utils.Config.Files.{ConfigFiles}
use lisk_migrator.Utils.Node.{starts_with, ends_in}
use lisk_migrator.Utils.Node.Start.{StartSteps}
use lisk_migrator.Utils.Path.{System, resolve_absolute_path}

-- What the calls of `run` come to.
pub record Calls : Type 0 where
  pub system : System
  -- `join(__dirname, '..', 'output')` and `join(__dirname, '..', DEFAULT_DATA_DIR)`
  pub default_output : Text
  pub data_dir : Text
  -- `__dirname` of src/utils/config.ts
  pub utils_dir : Text
  pub node_identifier : Result Text
  pub make_output_dir : Result (Unit {0})
  pub download_and_extract : Text → Result (Unit {0})
  pub extract_tar_ball : Text → Result (Unit {0})
  -- the snapshot that was extracted
  pub data_dir_files : Result (List Text)
  -- `getAPIClient` and `getNodeInfo`
  pub node : Result NodeStatus
  pub semver : Semver
  -- what the node says of its chain, in order
  pub answers : List (Result NodeInfo)
  pub open_database : Text → Result Db
  pub crypto : Crypto
  pub codec : Codec
  pub fuel : ℕ
  pub write_genesis_assets : List GenesisAssetEntry → Result (Unit {0})
  pub config_files : ConfigFiles
  pub create_backup : Result (Unit {0})
  pub write_config : ConfigV4 → Result (Unit {0})
  -- with the exit code of npm, which is its error's `code`
  pub install_lisk_core : Attempt Text
  pub exec_create : Text → Result Text
  pub write_genesis_block : Result (Unit {0})
  -- its exit code is not read
  pub which_lisk_core : Result Text
  -- to the configurations of the network with a name
  pub copy_genesis_block : Text → Text → Result (Unit {0})
  pub operator : Operator
  pub is_config_confirmed : Bool
  pub start : StartSteps
  pub final_config_path : Text
  -- the file of the forging statuses, if it exists
  pub keys_filepath : Text
  pub forging_statuses : Result (Option (List ForgingStatus))
  pub write_commands : Text → Result (Unit {0})

-- `text?.startsWith(prefix)` and `text?.endsWith(suffix)`
abbrev pub is_url : Option Text → Bool
is_url none = false
is_url (some url) = starts_with (codes "http") url

abbrev pub is_tar_ball : Option Text → Bool
is_tar_ball none = false
is_tar_ball (some path) = ends_in (codes ".tar.gz") path

abbrev pub given : Option Text → Text
given none = codes "undefined"
given (some text) = text

-- `getTokenIDLsk()`, which is undefined until it is set.
abbrev pub token_id_of : ChainState → Result Text
token_id_of chain = elim (chain.token_id_lsk) [
  | none ↦ err undefined_property
  | some token_id ↦ ok token_id
]

-- `NETWORK_CONSTANT[networkIdentifier]`
abbrev pub network_of : Text → Option NetworkConfigLocal
network_of network_identifier = lookup same network_identifier network_constant

abbrev pub is_known : Text → Bool
is_known network_identifier = elim (network_of network_identifier) [
  | none ↦ false
  | some network ↦ true
]

-- `networkConstant.name`
abbrev pub name_of : Option NetworkConfigLocal → Result Text
name_of none = err undefined_property
name_of (some network) = ok network.name

abbrev pub port_of : Option ConfigV4 → Option ℕ
port_of none = none
port_of (some config) = some config.network.port

-- The code of the error of a command that fails.
abbrev pub exit_code : {A : Type 0} → Attempt A → Option ℕ
exit_code (success value) = none
exit_code (failure e) = e.code

module _ (calls : Calls) (flags : Flags) where
  abbrev pub data_path : Text
  data_path =
      resolve_absolute_path calls.system
        (elim (flags.lisk_core_v3_data_path) [ none ↦ default_lisk_core_path | some path ↦ path ])

  -- `snapshotPath`, made absolute if it is given.
  abbrev pub snapshot_path : Option Text
  snapshot_path = elim (truthy_text flags.snapshot_path) [
    | none ↦ none
    | some path ↦ some (resolve_absolute_path calls.system path)
  ]
