-- ===== src/Utils/Commands.antt =====
-- src/utils/commands.ts: the document with the commands that are left to the user. Whether the file of
-- the forging statuses exists, and what it holds, is a parameter; so are the resolved paths.
pub mod Document
use lisk_migrator.Common.{
  ℕ, List, [], ◌∷◌, ◌++◌, take, Bool, true, false, ◌||◌, not, Option, none, some, Bytes, Text,
  codes, if◌then◌else◌,
}
use lisk_migrator.Encoding.Decimal.{decimal}
use lisk_migrator.Encoding.Hex.{from_hex}
use lisk_migrator.Types.{NetworkConfigLocal}
use lisk_migrator.Utils.Node.{is_empty}

-- The properties of a forging status that are read.
pub record ForgingStatus : Type 0 where
  pub lsk_address : Text
  pub height : Option ℕ
  pub max_height_previously_forged : Option ℕ
  pub max_height_prevoted : Option ℕ

-- `value ?? snapshotHeight`, printed.
abbrev pub or_height : ℕ → Option ℕ → Text
or_height snapshot_height none = decimal snapshot_height
or_height snapshot_height (some height) = decimal height

-- `parseInt(tokenID.substring(0, 2), 16)`, printed, where both characters are hex digits.
abbrev pub chain_id : Text → Text
chain_id token_id = elim (from_hex (take 2 token_id)) [
  | [] ↦ codes "NaN"
  | byte ∷ rest ↦ decimal byte
]

abbrev newline : Text
newline = 10 ∷ []

-- `"`
abbrev quote : Text
quote = 34 ∷ []

abbrev quoted : Text → Text
quoted text = quote ++ text ++ quote

abbrev pub set_status_command : ℕ → ForgingStatus → Text
set_status_command snapshot_height status =
    codes "lisk-core endpoint:invoke generator_setStatus '{ "
    ++ quoted (codes "address")
    ++ codes ":"
    ++ quoted status.lsk_address
    ++ codes ", "
    ++ quoted (codes "height")
    ++ codes ": "
    ++ or_height snapshot_height status.height
    ++ codes ", "
    ++ quoted (codes "maxHeightGenerated")
    ++ codes ":  "
    ++ or_height snapshot_height status.max_height_previously_forged
    ++ codes ", "
    ++ quoted (codes "maxHeightPrevoted")
    ++ codes ":  "
    ++ or_height snapshot_height status.max_height_prevoted
    ++ codes " }' --pretty"

-- What the body of the loop pushes for a validator.
abbrev pub validator_section : NetworkConfigLocal → ℕ → Text → ForgingStatus → List Text
validator_section network snapshot_height keys_filepath status =
    newline
    ∷ (codes "## Generate/Register the BLS keys for validator "
        ++ status.lsk_address
        ++ codes " - Please modify the command if necessary")
    ∷ newline
    ∷ (codes "lisk-core keys:create --chainid "
        ++ chain_id network.token_id
        ++ codes " --output "
        ++ keys_filepath
        ++ codes " --add-legacy")
    ∷ (codes "lisk-core keys:import --file-path " ++ keys_filepath)
    ∷ (codes "lisk-core endpoint:invoke random_setHashOnion '{ "
        ++ quoted (codes "address")
        ++ codes ":"
        ++ quoted status.lsk_address
        ++ codes "}'")
    ∷ set_status_command snapshot_height status
    ∷ (codes "lisk-core generator:enable " ++ status.lsk_address ++ codes " --use-status-value")
    ∷ codes
        "lisk-core transaction:create legacy registerKeys 400000 --key-derivation-path=legacy --send"
    ∷ newline
    ∷ codes "-----------------------------------------------------"
    ∷ newline
    ∷ []

-- The loop over the forging statuses.
validator_sections : NetworkConfigLocal → ℕ → Text → List ForgingStatus → List Text
validator_sections network snapshot_height keys_filepath [] = []
validator_sections network snapshot_height keys_filepath (status ∷ statuses) =
    validator_section network snapshot_height keys_filepath status
    ++ validator_sections network snapshot_height keys_filepath statuses

unfoldable pub get_commands_to_exec_post_migration :
    NetworkConfigLocal → ℕ → Text → Option (List ForgingStatus) → List Text
unfolding validator_sections
get_commands_to_exec_post_migration network snapshot_height keys_filepath none = []
get_commands_to_exec_post_migration network snapshot_height keys_filepath (some statuses) =
    validator_sections network snapshot_height keys_filepath statuses

-- `commands.join('\n')`
join_lines : List Text → Text
join_lines [] = []
join_lines (s ∷ []) = s
join_lines (s ∷ t ∷ rest) = s ++ newline ++ join_lines (t ∷ rest)

-- `preCompletionCommands ?? []`
abbrev pub given_commands : Option (List Text) → List Text
given_commands none = []
given_commands (some commands) = commands

-- The document that is written, if one is.
unfoldable pub write_commands_to_exec :
    NetworkConfigLocal → ℕ → Text → Option (List ForgingStatus) → Option (List Text) → Option Text
unfolding get_commands_to_exec_post_migration join_lines
write_commands_to_exec network snapshot_height keys_filepath statuses pre_completion_commands =
    let pre_completion = given_commands pre_completion_commands in
    let post_migration =
      get_commands_to_exec_post_migration network snapshot_height keys_filepath statuses in
    let all_commands =
      codes "## Please execute the following commands to finish the migration successfully:"
        ∷ codes "------------------------------------------------------------------------------"
        ∷ newline
        ∷ pre_completion
      ++ post_migration in
    if not (is_empty post_migration) || not (is_empty pre_completion)
    then some (join_lines all_commands)
    else none
