-- ===== src/Tests/Migration.antt =====
-- A whole migration: its flags, and calls of which only the copy of the legacy database may fail.
use lisk_migrator.Common.{[], ◌∷◌, true, false, none, codes, Result, ok}
use lisk_migrator.Command.{Flags}
use lisk_migrator.Command.Run.Interface.{Calls}
use lisk_migrator.Command.Run.Monad.{World}
use lisk_migrator.Tests.Data.{crypto}
use lisk_migrator.Tests.Supply.{run_codec, run_db}
use lisk_migrator.Utils.Config.{ConfigV4}
use lisk_migrator.Utils.Exception.{success}
use lisk_migrator.Utils.Config.Files.{empty_config}

abbrev pub flags : Flags
flags = record {
  snapshot_height = 206;
  snapshot_path = none;
  snapshot_url = none;
  network = none;
  auto_start_lisk_core_v4 = true;
  auto_migrate_config = false;
  config = none;
  lisk_core_v3_data_path = none;
  output = none;
  page_size = 1000;
}

abbrev pub default_config : ConfigV4
default_config = record {
  system = record { version = none; data_path = []; log_level = [] };
  transaction_pool = record {
    max_transactions = 0;
    max_transactions_per_account = 0;
    transaction_expiry_time = 0;
    min_entrance_fee_priority = [];
    min_replacement_fee_difference = [];
  };
  rpc_modes = [];
  network = record {
    port = 7667;
    host = [];
    max_outbound_connections = 0;
    max_inbound_connections = 0;
    ws_max_payload = 0;
    advertise_address = false;
  };
  minimum_certify_height = 0;
  pos_module = none;
}

-- With what the copy of the legacy database comes to.
abbrev pub calls_with : Result (Unit {0}) → Calls
calls_with copied = record {
  system = record { homedir = codes "/h"; cwd = codes "/w" };
  default_output = codes "/o";
  data_dir = codes "/d";
  utils_dir = codes "/m/dist/utils";
  node_identifier = ok (codes "4c09e6a781fc4c7bdb936ee815de8f94190f8a7519becd9de2081832be309a99");
  make_output_dir = ok tt;
  download_and_extract = λ url. ok tt;
  extract_tar_ball = λ path. ok tt;
  data_dir_files = ok [];
  node = ok (record { version = codes "3.1.0"; backup_height = 206 });
  semver = record { is_valid = λ version. true; is_unsupported = λ version. false };
  answers = ok (record { height = 300; finalized_height = 206 }) ∷ [];
  open_database = λ path. ok run_db;
  crypto = crypto;
  codec = run_codec;
  fuel = 1;
  write_genesis_assets = λ assets. ok tt;
  config_files = record {
    read_json = λ path. ok empty_config;
    read_default = λ path. ok default_config;
    merge_deep = λ first second. first;
    with_defaults = λ config. config;
    validate = λ config. ok tt;
  };
  create_backup = ok tt;
  write_config = λ config. ok tt;
  install_lisk_core = success [];
  exec_create = λ command. ok [];
  write_genesis_block = ok tt;
  which_lisk_core = ok [];
  copy_genesis_block = λ exec_path network. ok tt;
  operator = record {
    is_stop_confirmed = true;
    is_running = λ look. false;
    is_stop_reconfirmed = λ look. true;
  };
  is_config_confirmed = true;
  start = record {
    is_port_available = λ port. ok true;
    backup = ok tt;
    copy = copied;
    wizard = record { is_user_confirmed = false; answer = λ prompt. []; help = ok [] };
    is_start_confirmed = true;
    install_pm2 = ok tt;
    write_pm2_config = ok tt;
    pm2_start = ok tt;
  };
  final_config_path = codes "c";
  keys_filepath = codes "k";
  forging_statuses = ok none;
  write_commands = λ document. ok tt;
}

abbrev pub fresh : World
fresh = record {
  effects = [];
  chain = record { token_id_lsk = none; prev_snapshot_block_height = none };
  globals = record { total_lsk_supply = 0; legacy_reserve_amount = 0 };
  config_core_v4 = none;
  genesis_block_create_command = none;
  lisk_core_start_command = none;
}
