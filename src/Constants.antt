-- ===== src/Constants.antt =====
-- src/constants.ts.
use lisk_migrator.Common.{ℕ, ◌+◌, List, [], ◌∷◌, ◌++◌, Bytes, Text, codes, replicate, take}
use lisk_migrator.Encoding.Hex.{hex}
use lisk_migrator.Crypto.{Crypto}
use lisk_migrator.Types.{NetworkConfigLocal}

abbrev pub module_name_legacy : Text
module_name_legacy = codes "legacy"

abbrev pub module_name_auth : Text
module_name_auth = codes "auth"

abbrev pub module_name_token : Text
module_name_token = codes "token"

abbrev pub module_name_pos : Text
module_name_pos = codes "pos"

abbrev pub module_name_interoperability : Text
module_name_interoperability = codes "interoperability"

abbrev pub db_key_chain_state : Text
db_key_chain_state = codes "chain"

abbrev pub db_key_accounts_address : Text
db_key_accounts_address = codes "accounts:address"

abbrev pub db_key_blocks_height : Text
db_key_blocks_height = codes "blocks:height"

abbrev pub db_key_blocks_id : Text
db_key_blocks_id = codes "blocks:id"

abbrev pub db_key_transactions_id : Text
db_key_transactions_id = codes "transactions:id"

abbrev pub chain_state_delegate_vote_weights : Text
chain_state_delegate_vote_weights = codes "dpos:delegateVoteWeights"

abbrev pub chain_state_unregistered_addresses : Text
chain_state_unregistered_addresses = codes "unregisteredAddresses"

abbrev pub pos_init_rounds : ℕ
pos_init_rounds = 587

abbrev pub max_commission : ℕ
max_commission = 10000

abbrev pub number_active_validators : ℕ
number_active_validators = 101

abbrev pub number_standby_validators : ℕ
number_standby_validators = 2

abbrev pub round_length : ℕ
round_length = number_active_validators + number_standby_validators

abbrev pub max_bft_weight_cap : ℕ
max_bft_weight_cap = 1000

-- The hash is the cryptography library's.
unfoldable pub address_legacy_reserve : Crypto → Bytes
address_legacy_reserve c = take 20 (c.hash (codes "legacyReserve"))

-- These three are long texts of one repeated byte, and stay shut in proofs.
unfoldable pub invalid_bls_key : Text
invalid_bls_key = hex (replicate 48 0)

unfoldable pub invalid_ed25519_key : Text
invalid_ed25519_key = hex (replicate 32 255)

unfoldable pub dummy_proof_of_possession : Text
dummy_proof_of_possession = hex (replicate 96 0)

abbrev pub chain_name_mainchain : Text
chain_name_mainchain = codes "lisk_mainchain"

abbrev pub q96_zero : Bytes
q96_zero = []

abbrev pub binary_address_length : ℕ
binary_address_length = 20

abbrev pub default_version : Text
default_version = codes "0.1.0"

abbrev pub empty_string : Text
empty_string = []

-- `NETWORK_CONSTANT`, with the entries of `TOKEN_ID_LSK` and `HEIGHT_PREVIOUS_SNAPSHOT_BLOCK`.
abbrev pub network_constant : List (Text × NetworkConfigLocal)
network_constant =
    (
      codes "4c09e6a781fc4c7bdb936ee815de8f94190f8a7519becd9de2081832be309a99",
      record {
        name = codes "mainnet";
        token_id = codes "0000000000000000";
        prev_snapshot_block_height = 16270293;
      },
    )
    ∷ (
      codes "15f0dacc1060e91818224a94286b13aa04279c640bd5d6f193182031d133df7c",
      record {
        name = codes "testnet";
        token_id = codes "0100000000000000";
        prev_snapshot_block_height = 14075260;
      },
    )
    ∷ []

abbrev pub default_port_p2p : ℕ
default_port_p2p = 7667

abbrev pub default_port_rpc : ℕ
default_port_rpc = 7887

-- The values of `ERROR_CODE`.
abbrev pub default_code : ℕ
default_code = 0

abbrev pub invalid_config : ℕ
invalid_config = 1

abbrev pub genesis_block_create : ℕ
genesis_block_create = 2

abbrev pub lisk_core_start : ℕ
lisk_core_start = 3

abbrev pub backup_legacy_data_dir : ℕ
backup_legacy_data_dir = 4

abbrev pub copy_legacy_db : ℕ
copy_legacy_db = 5

abbrev pub snapshot_time_gap : ℕ
snapshot_time_gap = 3600

abbrev pub snapshot_dir : Text
snapshot_dir = codes "data/backup"

abbrev pub default_lisk_core_path : Text
default_lisk_core_path = codes "~/.lisk/lisk-core"

abbrev pub legacy_db_path : Text
legacy_db_path = codes "~/.lisk/lisk-core/data/legacy.db"

abbrev pub file_forging_status : Text
file_forging_status = codes "forgingStatus.json"

abbrev pub file_keys : Text
file_keys = codes "keys.json"

abbrev pub file_genesis_assets : Text
file_genesis_assets = codes "genesis_assets.json"

abbrev pub file_genesis_block_json : Text
file_genesis_block_json = codes "genesis_block.json"

abbrev pub file_genesis_block_blob : Text
file_genesis_block_blob = codes "genesis_block.blob"

-- `LISK_V3_BACKUP_DATA_DIR`, with the home directory.
abbrev pub lisk_v3_backup_data_dir : Text → Text
lisk_v3_backup_data_dir homedir = homedir ++ codes "/.lisk/lisk-core-v3"
