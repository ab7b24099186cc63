-- ===== src/Utils/Config.antt =====
-- src/utils/config.ts: the log level and the migration of the user's configuration. Reading, backing
-- up and writing the files are not modelled, and neither is the validation by lisk-validator.
pub mod Files
pub mod LogLevel
pub mod Migration
use lisk_migrator.Common.{
  ℕ, ◌+◌, ◌-◌, ◌*◌, max, List, [], ◌∷◌, map, find, Bool, true, false, ◌&&◌, Option, none, some,
  Text, codes, same, leb, ◌==◌, if◌then◌else◌, Result, ok, err, unknown_network,
}
use lisk_migrator.Common.Dict.{lookup}
use lisk_migrator.Constants.{
  network_constant, pos_init_rounds, number_active_validators, number_standby_validators,
  max_bft_weight_cap, default_version,
}
use lisk_migrator.Types.{NetworkConfigLocal}

-- `LOG_LEVEL_PRIORITY`
abbrev pub log_level_priority : List (Text × ℕ)
log_level_priority =
    (codes "FATAL", 0)
    ∷ (codes "ERROR", 1)
    ∷ (codes "WARN", 2)
    ∷ (codes "INFO", 3)
    ∷ (codes "DEBUG", 4)
    ∷ (codes "TRACE", 5)
    ∷ []

unfoldable pub get_network_by_network_id : Text → Result Text
get_network_by_network_id network_id = elim (lookup same network_id network_constant) [
  | none ↦ err unknown_network
  | some network_info ↦ ok network_info.name
]

pub record LoggerConfig : Type 0 where
  pub file_log_level : Option Text
  pub console_log_level : Option Text

-- `toUpperCase` and `toLowerCase` on ASCII.
unfoldable pub to_upper : ℕ → ℕ
to_upper c = if leb 97 c && leb c 122 then c - 32 else c

unfoldable pub to_lower : ℕ → ℕ
to_lower c = if leb 65 c && leb c 90 then c + 32 else c

-- `String(level || '')`
abbrev pub level_text : Option Text → Text
level_text none = []
level_text (some level) = level

abbrev pub or_info : Option ℕ → ℕ
or_info (some priority) = priority
or_info none = 3

-- `LOG_LEVEL_PRIORITY[String(level || '').toUpperCase()] ?? LOG_LEVEL_PRIORITY.INFO`
unfoldable pub priority_of : Option Text → ℕ
unfolding to_upper
priority_of level = or_info (lookup same (map to_upper (level_text level)) log_level_priority)

-- The `try` block: the destructuring of an entry that is not found throws, which the `catch` answers
-- with 'info'.
unfoldable pub named_level : ℕ → Text
unfolding to_lower
named_level highest_log_priority =
    elim (find (λ e. e.1 == highest_log_priority) log_level_priority) [
      | some (log_level, _) ↦ map to_lower log_level
      | none ↦ codes "info"
    ]

unfoldable pub get_log_level : LoggerConfig → Text
unfolding priority_of named_level
get_log_level logger_config =
    let highest_log_priority =
      max (priority_of logger_config.file_log_level)
        (priority_of logger_config.console_log_level) in
    named_level highest_log_priority

pub record TransactionPoolV3 : Type 0 where
  pub max_transactions : Option ℕ
  pub max_transactions_per_account : Option ℕ
  pub transaction_expiry_time : Option ℕ
  pub min_entrance_fee_priority : Option Text
  pub min_replacement_fee_difference : Option Text

pub record NetworkV3 : Type 0 where
  pub port : Option ℕ
  pub host_ip : Option Text
  pub max_outbound_connections : Option ℕ
  pub max_inbound_connections : Option ℕ
  pub ws_max_payload : Option ℕ
  pub advertise_address : Option Bool

-- The properties of the v3 configuration that are migrated, each of which may be missing.
pub record ConfigV3 : Type 0 where
  pub root_path : Option Text
  pub logger : Option LoggerConfig
  pub transaction_pool : Option TransactionPoolV3
  pub rpc_mode : Option Text
  pub network : Option NetworkV3

pub record System : Type 0 where
  pub version : Option Text
  pub data_path : Text
  pub log_level : Text

pub record TransactionPoolV4 : Type 0 where
  pub max_transactions : ℕ
  pub max_transactions_per_account : ℕ
  pub transaction_expiry_time : ℕ
  pub min_entrance_fee_priority : Text
  pub min_replacement_fee_difference : Text

pub record NetworkV4 : Type 0 where
  pub port : ℕ
  pub host : Text
  pub max_outbound_connections : ℕ
  pub max_inbound_connections : ℕ
  pub ws_max_payload : ℕ
  pub advertise_address : Bool

-- `modules.pos`, if both are there, with its `maxBFTWeightCap`.
pub record PosModule : Type 0 where
  pub max_bft_weight_cap : Option ℕ

-- The properties of the v4 configuration that the migration reads or writes. The sections that it
-- writes to are there, as in the default configurations; all other properties stay as they are.
pub record ConfigV4 : Type 0 where
  pub system : System
  pub transaction_pool : TransactionPoolV4
  pub rpc_modes : List Text
  pub network : NetworkV4
  pub minimum_certify_height : ℕ
  pub pos_module : Option PosModule

-- What a value that is missing, 0, '' or false does not pass.
abbrev pub truthy_number : Option ℕ → Option ℕ
truthy_number none = none
truthy_number (some n) = if n == 0 then none else some n

abbrev pub truthy_text : Option Text → Option Text
truthy_text (some (c ∷ s)) = some (c ∷ s)
truthy_text _ = none

abbrev pub truthy_flag : Option Bool → Option Bool
truthy_flag (some true) = some true
truthy_flag _ = none

-- `if (value) target = value`
abbrev pub or_keep {ℓ} : {A : Type ℓ} → A → Option A → A
or_keep old none = old
or_keep old (some new) = new

migrate_log_level : Option LoggerConfig → Text → Text
migrate_log_level none log_level = log_level
migrate_log_level (some logger) log_level = get_log_level logger

migrate_system : ConfigV3 → System → System
unfolding migrate_log_level
migrate_system v3 system = record {
  version = some (or_keep default_version (truthy_text system.version));
  data_path = or_keep system.data_path (truthy_text v3.root_path);
  log_level = migrate_log_level v3.logger system.log_level;
}

migrate_transaction_pool : Option TransactionPoolV3 → TransactionPoolV4 → TransactionPoolV4
migrate_transaction_pool none pool = pool
migrate_transaction_pool (some v3) pool = record {
  max_transactions = or_keep pool.max_transactions (truthy_number v3.max_transactions);
  max_transactions_per_account =
      or_keep pool.max_transactions_per_account (truthy_number v3.max_transactions_per_account);
  transaction_expiry_time =
      or_keep pool.transaction_expiry_time (truthy_number v3.transaction_expiry_time);
  min_entrance_fee_priority =
      or_keep pool.min_entrance_fee_priority (truthy_text v3.min_entrance_fee_priority);
  min_replacement_fee_difference =
      or_keep pool.min_replacement_fee_difference (truthy_text v3.min_replacement_fee_difference);
}

migrate_rpc_modes : Option Text → List Text → List Text
migrate_rpc_modes mode modes = elim (truthy_text mode) [ none ↦ modes | some mode ↦ mode ∷ [] ]

migrate_network : Option NetworkV3 → NetworkV4 → NetworkV4
migrate_network none network = network
migrate_network (some v3) network = record {
  port = or_keep network.port (truthy_number v3.port);
  host = or_keep network.host (truthy_text v3.host_ip);
  max_outbound_connections =
      or_keep network.max_outbound_connections (truthy_number v3.max_outbound_connections);
  max_inbound_connections =
      or_keep network.max_inbound_connections (truthy_number v3.max_inbound_connections);
  ws_max_payload = or_keep network.ws_max_payload (truthy_number v3.ws_max_payload);
  advertise_address = or_keep network.advertise_address (truthy_flag v3.advertise_address);
}

migrate_pos_module : Option PosModule → Option PosModule
migrate_pos_module none = none
migrate_pos_module (some pos) = some (record {
  max_bft_weight_cap = some (or_keep max_bft_weight_cap (truthy_number pos.max_bft_weight_cap));
})

unfoldable pub migrate_user_config : ConfigV3 → ConfigV4 → ℕ → ConfigV4
unfolding migrate_system migrate_rpc_modes migrate_transaction_pool migrate_network
    migrate_pos_module
migrate_user_config v3 v4 snapshot_height = record {
  system = migrate_system v3 v4.system;
  transaction_pool = migrate_transaction_pool v3.transaction_pool v4.transaction_pool;
  rpc_modes = migrate_rpc_modes v3.rpc_mode v4.rpc_modes;
  network = migrate_network v3.network v4.network;
  minimum_certify_height =
      snapshot_height
      + 1
      + (pos_init_rounds + number_active_validators - 1)
        * (number_active_validators + number_standby_validators);
  pos_module = migrate_pos_module v4.pos_module;
}
