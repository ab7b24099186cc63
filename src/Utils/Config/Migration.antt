-- ===== src/Utils/Config/Migration.antt =====
-- `migrateUserConfig` of src/utils/config.ts: which settings of which version are in its result.
use lisk_migrator.Common.{
  ℕ, ◌≡◌, ◌≤◌, [], ◌∷◌, Option, none, some, Text, codes, ◌==◌, if◌then◌else◌,
}
use lisk_migrator.Utils.Config.{ConfigV3, ConfigV4, PosModule}
use lisk_migrator.Utils.Config.LogLevel.{IsLevelName}

-- A v3 configuration with the settings of a v4 configuration.
abbrev pub v3_of : ConfigV4 → Text → ConfigV3
v3_of x mode = record {
  root_path = some x.system.data_path;
  logger = some (record {
    file_log_level = some x.system.log_level;
    console_log_level = some x.system.log_level;
  });
  transaction_pool = some (record {
    max_transactions = some x.transaction_pool.max_transactions;
    max_transactions_per_account = some x.transaction_pool.max_transactions_per_account;
    transaction_expiry_time = some x.transaction_pool.transaction_expiry_time;
    min_entrance_fee_priority = some x.transaction_pool.min_entrance_fee_priority;
    min_replacement_fee_difference = some x.transaction_pool.min_replacement_fee_difference;
  });
  rpc_mode = some mode;
  network = some (record {
    port = some x.network.port;
    host_ip = some x.network.host;
    max_outbound_connections = some x.network.max_outbound_connections;
    max_inbound_connections = some x.network.max_inbound_connections;
    ws_max_payload = some x.network.ws_max_payload;
    advertise_address = some x.network.advertise_address;
  });
}

-- The sections are there, and hold nothing.
abbrev pub empty_v3 : ConfigV3
empty_v3 = record {
  root_path = none;
  logger = none;
  transaction_pool = some (record {
    max_transactions = none;
    max_transactions_per_account = none;
    transaction_expiry_time = none;
    min_entrance_fee_priority = none;
    min_replacement_fee_difference = none;
  });
  rpc_mode = none;
  network = some (record {
    port = none;
    host_ip = none;
    max_outbound_connections = none;
    max_inbound_connections = none;
    ws_max_payload = none;
    advertise_address = none;
  });
}

abbrev pub IsText : Text → Type 0
IsText t = ¬ (t ≡ [])

abbrev pub IsPositive : ℕ → Type 0
IsPositive n = 1 ≤ n

-- No setting is 0 or empty, and the log level is a name in lower case.
abbrev pub HasSettings : ConfigV4 → Type 0
HasSettings x =
    (IsText x.system.data_path × IsLevelName x.system.log_level)
    × (IsPositive x.transaction_pool.max_transactions
        × IsPositive x.transaction_pool.max_transactions_per_account
        × IsPositive x.transaction_pool.transaction_expiry_time
        × IsText x.transaction_pool.min_entrance_fee_priority
        × IsText x.transaction_pool.min_replacement_fee_difference)
    × (IsPositive x.network.port
        × IsText x.network.host
        × IsPositive x.network.max_outbound_connections
        × IsPositive x.network.max_inbound_connections
        × IsPositive x.network.ws_max_payload)

-- `maxBFTWeightCap`, which a module that has none, or 0, gets as 1000.
abbrev pub capped : Option PosModule → Option PosModule
capped none = none
capped (some pos) = some (record {
  max_bft_weight_cap = elim pos.max_bft_weight_cap [
    | none ↦ some 1000
    | some cap ↦ if cap == 0 then some 1000 else some cap
  ];
})

-- `system.version`, which a configuration that has none, or an empty one, gets as 0.1.0.
abbrev pub versioned : Option Text → Option Text
versioned none = some (codes "0.1.0")
versioned (some []) = some (codes "0.1.0")
versioned (some (c ∷ s)) = some (c ∷ s)
