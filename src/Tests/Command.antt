-- ===== src/Tests/Command.antt =====
-- The checks, the wait and the recovery of the command on small inputs.
use lisk_migrator.Common.{
  err, undefined_property, ℕ, ◌≡◌, ◌↔◌, ◌<◌, ◌%◌, [], ◌∷◌, true, false, not, ◌&&◌, none, some, ok,
  codes, drop, leb,
}
use lisk_migrator.Command.{
  Flags, NodeStatus, Semver, verify_node, Operator, confirm_shutdown, Commands, commands_to_execute,
}
use lisk_migrator.Types.{NetworkConfigLocal}
use lisk_migrator.Utils.Commands.{ForgingStatus, write_commands_to_exec, given_commands}
use lisk_migrator.Utils.Commands.Document.{write_commands_to_exec-none, validators_of}
use lisk_migrator.Utils.Node.Start.{StartSteps, start_lisk_core}
use lisk_migrator.Utils.Node.Started.{start_lisk_core_lem, expected_code, expected_progress}
use lisk_migrator.Command.Checks.{verify_node_iff}
use lisk_migrator.Command.Shutdown.{confirm_shutdown_iff}
use lisk_migrator.Command.Recovery.{commands_to_execute_lem, all_sections, flattened}

abbrev flags : Flags
flags = record {
  snapshot_height = 206;
  snapshot_path = none;
  snapshot_url = none;
  network = none;
  auto_start_lisk_core_v4 = true;
  auto_migrate_config = false;
  config = none;
  lisk_core_v3_data_path = none;
  output = none;
  page_size = 100000;
}

abbrev node : NodeStatus
node = record { version = codes "3.1.0"; backup_height = 206 }

abbrev semver : Semver
semver = record { is_valid = λ version. true; is_unsupported = λ version. false }

verify_node_iff_example : (verify_node semver flags true node ≡ ok tt) ↔ (
    (flags.snapshot_height ≡ 206)
    × (206 % 103 ≡ 0)
    × ((true && not true) ≡ false)
    × (true ≡ true)
    × (false ≡ false))
verify_node_iff_example = verify_node_iff semver flags true node

-- v3 runs at the first two looks.
abbrev operator : Operator
operator = record {
  is_stop_confirmed = true;
  is_running = λ look. leb look 1;
  is_stop_reconfirmed = λ look. true;
}

confirm_shutdown_iff_example : (confirm_shutdown operator ≡ ok tt) ↔ (
    (true ≡ true)
    × ((k : ℕ) × (k < 4)
        × (leb k 1 ≡ false)
        × ((j : ℕ) → j < k → operator.is_stop_reconfirmed j ≡ true)))
confirm_shutdown_iff_example = confirm_shutdown_iff operator

abbrev commands : Commands
commands = record {
  genesis_block_create_command = codes "a";
  backup_legacy_data_dir_command = codes "b";
  copy_legacy_db_command = codes "c";
  lisk_core_start_command = codes "d";
}

commands_to_execute_lem_example :
    (commands_to_execute (some 5) commands ≡ flattened (drop 2 (all_sections commands)))
    × (commands_to_execute none commands ≡ [])
commands_to_execute_lem_example = commands_to_execute_lem commands 5

abbrev mainnet : NetworkConfigLocal
mainnet = record {
  name = codes "mainnet";
  token_id = codes "0000000000000000";
  prev_snapshot_block_height = 16270293;
}

abbrev validator : ForgingStatus
validator = record {
  lsk_address = codes "lsk1";
  height = none;
  max_height_previously_forged = some 200;
  max_height_prevoted = some 190;
}

write_commands_to_exec-none_example :
    (write_commands_to_exec mainnet 206 (codes "keys.json") (some (validator ∷ [])) none ≡ none)
    ↔ ((given_commands none ≡ []) × (validators_of (some (validator ∷ [])) ≡ []))
write_commands_to_exec-none_example =
    write_commands_to_exec-none mainnet 206 (codes "keys.json") (some (validator ∷ [])) none

-- The copy fails.
abbrev steps : StartSteps
steps = record {
  is_port_available = λ port. ok true;
  backup = ok tt;
  copy = err undefined_property;
  wizard = record { is_user_confirmed = false; answer = λ prompt. []; help = ok [] };
  is_start_confirmed = true;
  install_pm2 = ok tt;
  write_pm2_config = ok tt;
  pm2_start = ok tt;
}

start_lisk_core_lem_example : start_lisk_core steps none (codes "mainnet") (codes "c") ≡ (
  expected_code steps none (codes "mainnet") (codes "c"),
  expected_progress steps none (codes "mainnet") (codes "c"),
)
start_lisk_core_lem_example = start_lisk_core_lem steps none (codes "mainnet") (codes "c")
