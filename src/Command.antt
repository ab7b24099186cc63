-- ===== src/Command.antt =====
-- src/index.ts: the checks of the flags and of the node, the wait for the shutdown of Lisk Core v3, and
-- the commands that are left to the user after a failure. The files, the console, the node's API
-- and semver are not modelled or are parameters.
pub mod Checks
pub mod Shutdown
pub mod Recovery
pub mod Run
use lisk_migrator.Common.{
  ℕ, zero, suc, ◌+◌, ◌%◌, List, [], ◌∷◌, ◌++◌, Bool, true, false, not, ◌&&◌, ◌||◌, Option, none,
  some, Text, codes, ◌==◌, leb, if◌then◌else◌, Result, ok, err, ◌>>◌, network_without_snapshot,
  invalid_snapshot_url, backup_height_mismatch, invalid_snapshot_height, unknown_network,
  invalid_version, unsupported_version, shutdown_not_confirmed, shutdown_refused, still_running,
}
use lisk_migrator.Constants.{
  round_length, default_code, invalid_config, genesis_block_create, lisk_core_start,
  backup_legacy_data_dir, copy_legacy_db,
}
use lisk_migrator.Utils.Config.{truthy_text}
use lisk_migrator.Utils.Node.{starts_with, ends_in}

-- The flags of the command, which `parse` has read.
pub record Flags : Type 0 where
  pub snapshot_height : ℕ
  pub snapshot_path : Option Text
  pub snapshot_url : Option Text
  pub network : Option Text
  pub auto_start_lisk_core_v4 : Bool
  pub auto_migrate_config : Bool
  pub config : Option Text
  pub lisk_core_v3_data_path : Option Text
  pub output : Option Text
  pub page_size : ℕ

-- `!!value`
abbrev pub is_given : Option Text → Bool
is_given value = elim (truthy_text value) [ none ↦ false | some text ↦ true ]

abbrev pub use_snapshot : Flags → Bool
use_snapshot flags = is_given flags.snapshot_path || is_given flags.snapshot_url

-- `!snapshotURL.startsWith('http') || !snapshotURL.endsWith('tar.gz')`
unfoldable pub is_wrong_url : Option Text → Bool
unfolding starts_with ends_in
is_wrong_url none = false
is_wrong_url (some url) = not (starts_with (codes "http") url) || not (ends_in (codes "tar.gz") url)

unfoldable pub check_flags : Flags → Result (Unit {0})
unfolding is_wrong_url
check_flags flags =
    if is_given flags.network && not (use_snapshot flags)
    then err network_without_snapshot
    else if is_given flags.snapshot_url && is_wrong_url flags.snapshot_url
    then err invalid_snapshot_url
    else ok tt

-- What the node says of itself.
pub record NodeStatus : Type 0 where
  pub version : Text
  pub backup_height : ℕ

-- `semver.valid(version) !== null` and `semver.lt(version, MIN_SUPPORTED_LISK_CORE_VERSION)`
pub record Semver : Type 0 where
  pub is_valid : Text → Bool
  pub is_unsupported : Text → Bool

-- The checks on the node of v3 before its forging status is subscribed to.
unfoldable pub check_heights : Flags → NodeStatus → Result (Unit {0})
check_heights flags node =
    if not (flags.snapshot_height == node.backup_height)
    then err backup_height_mismatch
    else if not ((flags.snapshot_height % round_length) == 0)
    then err invalid_snapshot_height
    else ok tt

-- Those after it, with whether `NETWORK_CONSTANT` has the node's network.
unfoldable pub check_core : Semver → Flags → Bool → NodeStatus → Result (Unit {0})
check_core semver flags is_known_network node =
    if flags.auto_start_lisk_core_v4 && not is_known_network
    then err unknown_network
    else if not (semver.is_valid node.version)
    then err invalid_version
    else if semver.is_unsupported node.version
    then err unsupported_version
    else ok tt

-- All of them.
unfoldable pub verify_node : Semver → Flags → Bool → NodeStatus → Result (Unit {0})
unfolding check_heights check_core
verify_node semver flags is_known_network node =
    check_heights flags node >> check_core semver flags is_known_network node

-- The answers, in order, to whether v3 still runs, and to whether the user has stopped it.
pub record Operator : Type 0 where
  pub is_stop_confirmed : Bool
  pub is_running : ℕ → Bool
  pub is_stop_reconfirmed : ℕ → Bool

-- What follows a reconfirmed stop, with the tries that are left: after the last, v3 is looked at
-- once more.
abbrev pub after_reconfirmed : ℕ → Bool → Result (Unit {0}) → Result (Unit {0})
after_reconfirmed zero is_still_running rest = if is_still_running then err still_running else rest
after_reconfirmed (suc n) is_still_running rest = rest

-- The `while` loop, with the tries left and the number of looks at v3 so far.
unfoldable pub wait_for_shutdown : Operator → ℕ → ℕ → Result (Unit {0})
wait_for_shutdown operator zero looks = ok tt
wait_for_shutdown operator (suc num_tries_left) looks =
    let rest = wait_for_shutdown operator num_tries_left (suc looks) in
    if not (operator.is_running looks)
    then ok tt
    else if leb 0 num_tries_left
    then (if not (operator.is_stop_reconfirmed looks)
        then err shutdown_refused
        else after_reconfirmed num_tries_left (operator.is_running (suc looks)) rest)
    else rest

unfoldable pub confirm_shutdown : Operator → Result (Unit {0})
unfolding wait_for_shutdown
confirm_shutdown operator =
    if operator.is_stop_confirmed
    then wait_for_shutdown operator 3 0
    else err shutdown_not_confirmed

-- `codes.includes(code)`, where the code of an error that has none is NaN, which no list includes.
unfoldable pub includes_code : Option ℕ → List ℕ → Bool
includes_code none error_codes = false
includes_code (some code) [] = false
includes_code (some code) (c ∷ error_codes) =
    let later = includes_code (some code) error_codes in (code == c) || later

-- The commands that a section can give. One that was never made is undefined, which `join` makes an
-- empty text.
pub record Commands : Type 0 where
  pub genesis_block_create_command : Text
  pub backup_legacy_data_dir_command : Text
  pub copy_legacy_db_command : Text
  pub lisk_core_start_command : Text

abbrev newline : Text
newline = 10 ∷ []

abbrev rule_line : Text
rule_line = codes "-----------------------------------------------------"

abbrev pub closed_by_rule : List Text
closed_by_rule = newline ∷ rule_line ∷ newline ∷ []

abbrev pub genesis_block_section : Commands → List Text
genesis_block_section commands =
    newline
    ∷ codes "## Create the genesis block"
    ∷ codes
        "## NOTE: This requires installing Lisk Core v4 locally. Please visit https://lisk.com/documentation/lisk-core/v4/setup/npm.html for further instructions"
    ∷ newline
    ∷ commands.genesis_block_create_command
    ∷ closed_by_rule

abbrev pub backup_section : Commands → List Text
backup_section commands =
    newline
    ∷ codes "## Backup Lisk Core v3 data directory"
    ∷ newline
    ∷ commands.backup_legacy_data_dir_command
    ∷ closed_by_rule

abbrev pub copy_section : Commands → List Text
copy_section commands =
    newline
    ∷ codes "## Copy legacy (v3) blockchain information to Lisk Core v4 legacy.db"
    ∷ newline
    ∷ commands.copy_legacy_db_command
    ∷ closed_by_rule

abbrev pub start_section : Commands → List Text
start_section commands =
    newline
    ∷ codes "## Lisk Core v4 start command - Please modify if necessary"
    ∷ newline
    ∷ commands.lisk_core_start_command
    ∷ closed_by_rule

-- The `catch` block, for the code of the error that was caught.
unfoldable pub commands_to_execute : Option ℕ → Commands → List Text
unfolding includes_code
commands_to_execute code commands =
    (if includes_code code (default_code ∷ invalid_config ∷ genesis_block_create ∷ [])
      then genesis_block_section commands
      else [])
    ++ (if includes_code code
          (default_code ∷ invalid_config ∷ genesis_block_create ∷ backup_legacy_data_dir ∷ [])
        then backup_section commands
        else [])
    ++ (if includes_code code (
          default_code ∷ invalid_config ∷ genesis_block_create ∷ backup_legacy_data_dir
          ∷ copy_legacy_db ∷ [])
        then copy_section commands
        else [])
    ++ (if includes_code code (
          default_code ∷ invalid_config ∷ genesis_block_create ∷ backup_legacy_data_dir
          ∷ copy_legacy_db ∷ lisk_core_start ∷ [])
        then start_section commands
        else [])
