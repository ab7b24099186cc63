-- ===== src/Assets/Interoperability.antt =====
-- src/assets/interoperability.ts
use lisk_migrator.Common.{[]}
use lisk_migrator.Constants.{module_name_interoperability, chain_name_mainchain}
use lisk_migrator.Types.{GenesisAssetEntry, interoperability_data, genesis_interoperability_schema}

unfoldable pub get_interop_module_entry : GenesisAssetEntry
get_interop_module_entry = record {
  module_name = module_name_interoperability;
  asset_data = interoperability_data (record {
    own_chain_name = chain_name_mainchain;
    own_chain_nonce = 0;
    chain_infos = [];
    terminated_state_accounts = [];
    terminated_outbox_accounts = [];
  });
  schema = genesis_interoperability_schema;
}
