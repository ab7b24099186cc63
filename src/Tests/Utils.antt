-- ===== src/Tests/Utils.antt =====
-- The utilities on small inputs.
use lisk_migrator.Common.{
  ℕ, ◌≡◌, refl, ◌↔◌, inl, List, [], ◌∷◌, true, false, some, none, ok, err, Text, codes, arith,
  compare, max, invalid_start_command_flags,
}
use lisk_migrator.Common.Int.{pos, negsuc}
use lisk_migrator.Common.Sort.{compare_bytes}
use lisk_migrator.Common.Words.{be_bytes}
use lisk_migrator.Encoding.Decimal.{decimal}
use lisk_migrator.Utils.Number.{
  number, Formats, format_int, format_int-Formats, compare_bytes-format_int,
}
use lisk_migrator.Utils.Transaction.{increment_one}
use lisk_migrator.Utils.Transaction.Increment.{increment_one-Increments, Increments}
use lisk_migrator.Utils.Config.{ConfigV4, LoggerConfig, get_log_level, priority_of}
use lisk_migrator.Utils.Config.LogLevel.{get_log_level_lem, IsLevelName}
use lisk_migrator.Utils.Node.{
  Wizard, validate_inputs, validate_start_command_flags, resolve_lisk_core_start_command,
  flag_lines,
}
use lisk_migrator.Utils.Node.Flags.{Parses, validate_inputs-Parses}
use lisk_migrator.Common.{output_path_not_allowed}
use lisk_migrator.Utils.Node.{starts_with}
use lisk_migrator.Utils.Path.{verify_output_path, normalize}
use lisk_migrator.Utils.Path.Spellings.{system_of, verify_output_path_respelled}
use lisk_migrator.Utils.Node.StartCommand.{resolve_lisk_core_start_command_lem}
use lisk_migrator.Utils.Chain.{
  ObserveParams, NodeInfo, observe_chain_height, waiting, rejected, resolved,
  seconds_to_human_string, or_zero,
}
use lisk_migrator.Utils.Chain.Duration.{seconds_to_human_string_lem}
use lisk_migrator.Utils.Chain.Observe.{observe_chain_height_lem}

format_int-Formats_example : Formats (number (pos 258)) (format_int (number (pos 258)))
format_int-Formats_example = format_int-Formats (number (pos 258))

compare_bytes-format_int_example :
    compare_bytes (0 ∷ 0 ∷ 1 ∷ 2 ∷ []) (0 ∷ 0 ∷ 0 ∷ 255 ∷ []) ≡ compare 258 255
unfolding format_int be_bytes
compare_bytes-format_int_example =
    compare_bytes-format_int number (inl refl) 258 255 (0 ∷ 0 ∷ 1 ∷ 2 ∷ []) (0 ∷ 0 ∷ 0 ∷ 255 ∷ [])
      refl refl

increment_one-Increments_example : Increments (1 ∷ 255 ∷ []) (increment_one (1 ∷ 255 ∷ []))
increment_one-Increments_example =
    increment_one-Increments (1 ∷ 255 ∷ []) (omega arith, (omega arith, tt))

abbrev logger : LoggerConfig
logger = record { file_log_level = some (codes "debug"); console_log_level = none }

get_log_level_lem_example :
    IsLevelName (get_log_level logger)
    × (priority_of (some (get_log_level logger))
        ≡ max (priority_of (some (codes "debug"))) (priority_of none))
get_log_level_lem_example = get_log_level_lem logger

abbrev v4 : ConfigV4
v4 = record {
  system = record { version = none; data_path = codes "x"; log_level = codes "info" };
  transaction_pool = record {
    max_transactions = 4096;
    max_transactions_per_account = 64;
    transaction_expiry_time = 10800000;
    min_entrance_fee_priority = codes "0";
    min_replacement_fee_difference = codes "10";
  };
  rpc_modes = codes "ipc" ∷ [];
  network = record {
    port = 7667;
    host = codes "0.0.0.0";
    max_outbound_connections = 20;
    max_inbound_connections = 100;
    ws_max_payload = 3145728;
    advertise_address = true;
  };
  minimum_certify_height = 1;
  pos_module = some (record { max_bft_weight_cap = none });
}

abbrev old : ConfigV4
old = record v4 {
  system = record { version = none; data_path = codes "~/.lisk"; log_level = codes "debug" };
  network = record v4.network {
    port = 5001;
    max_outbound_connections = 7;
    max_inbound_connections = 8;
    advertise_address = false;
  };
}

abbrev allowed_flags : List Text
allowed_flags = codes "-c, --config=<value>" ∷ codes "--api-host=<value> " ∷ codes "--api-ws " ∷ []

validate_inputs-Parses_example :
    (validate_inputs allowed_flags false (codes "-c" ∷ codes "x" ∷ []) ≡ true)
    ↔ Parses allowed_flags (codes "-c" ∷ codes "x" ∷ [])
validate_inputs-Parses_example = validate_inputs-Parses allowed_flags (codes "-c" ∷ codes "x" ∷ [])

-- The prompt's own example.
refused_flag : validate_start_command_flags allowed_flags (codes "--api-ws") ≡ false
unfolding validate_start_command_flags
refused_flag = refl

verify_output_path_respelled_example :
    (verify_output_path
        (system_of (codes "home/u") (codes "/w"))
        (codes "/home/u/.lisk/lisk-core/out")
      ≡ err output_path_not_allowed)
    × (verify_output_path
          (system_of (codes "home/u") (codes "/w"))
          (codes "/./home/u/.lisk/lisk-core/out")
        ≡ ok tt)
    × (normalize (codes "/./home/u/.lisk/lisk-core/out")
        ≡ normalize (codes "/home/u/.lisk/lisk-core/out"))
unfolding starts_with
verify_output_path_respelled_example =
    verify_output_path_respelled (codes "home/u") (codes "/w") (codes "/out") refl

accepted_config : validate_start_command_flags allowed_flags (codes "--config=./c.json") ≡ true
unfolding validate_start_command_flags
accepted_config = refl

abbrev wizard : Wizard
wizard = record {
  is_user_confirmed = true;
  answer = λ prompt. codes "--api-ws";
  help = ok (codes "--api-ws ");
}

resolve_lisk_core_start_command_lem_example :
    resolve_lisk_core_start_command wizard (codes "mainnet") (codes "config.json")
    ≡ ok (codes "lisk-core start --network mainnet")
unfolding validate_start_command_flags flag_lines
resolve_lisk_core_start_command_lem_example =
    resolve_lisk_core_start_command_lem wizard (codes "mainnet") (codes "config.json")
      (codes "--api-ws ") refl refl

abbrev options : ObserveParams
options = record { observed_height = 10; is_final = false }

abbrev at_height : ℕ → NodeInfo
at_height height = record { height = height; finalized_height = 3 }

observe_chain_height_lem_example :
    (observe_chain_height options (ok (at_height 7) ∷ ok (at_height 8) ∷ []) ≡ waiting)
    × (observe_chain_height options
          (ok (at_height 7) ∷ ok (at_height 8) ∷ err invalid_start_command_flags ∷ [])
        ≡ rejected invalid_start_command_flags)
    × (observe_chain_height options (ok (at_height 7) ∷ ok (at_height 8) ∷ ok (at_height 12) ∷ [])
        ≡ resolved 10)
    × (observe_chain_height options (ok (at_height 12) ∷ []) ≡ resolved 12)
observe_chain_height_lem_example =
    observe_chain_height_lem options (at_height 7) (at_height 12) (at_height 8 ∷ [])
      invalid_start_command_flags [] (omega arith, (omega arith, tt)) (omega arith)

seconds_to_human_string_lem_example :
    (seconds_to_human_string (pos 90061) ≡ codes "1d 1h 1m 1s")
    × (seconds_to_human_string (negsuc 9) ≡ codes "0")
unfolding decimal or_zero
seconds_to_human_string_lem_example =
    seconds_to_human_string_lem
      (record { years = 0; days = 1; hours = 1; minutes = 1; seconds = 1 }) 9
      (omega arith, omega arith, omega arith, omega arith)
