-- ===== src/Assets/Auth.antt =====
-- src/assets/auth.ts
pub mod Laws
use lisk_migrator.Common.{List, map, Ordering, Bytes, Text}
use lisk_migrator.Common.Sort.{sort, compare_bytes}
use lisk_migrator.Constants.{module_name_auth}
use lisk_migrator.Encoding.Decimal.{decimal}
use lisk_migrator.Encoding.Hex.{hex}
use lisk_migrator.Types.{
  Account, AuthStoreEntry, AuthStoreEntryBuffer, GenesisAssetEntry, auth_data,
  genesis_auth_store_schema,
}

abbrev key_mapper : Bytes → Text
key_mapper key = hex key

abbrev key_comparator : Bytes → Bytes → Ordering
key_comparator a b = compare_bytes a b

unfoldable pub get_auth_module_entry_buffer : Account → AuthStoreEntryBuffer
get_auth_module_entry_buffer account = record {
  address = account.address.bytes;
  auth_account = record {
    number_of_signatures = account.keys.number_of_signatures;
    mandatory_keys = map key_mapper (sort key_comparator account.keys.mandatory_keys);
    optional_keys = map key_mapper (sort key_comparator account.keys.optional_keys);
    nonce = decimal account.sequence.nonce;
  };
}

unfoldable pub get_auth_module_entry : List AuthStoreEntry → GenesisAssetEntry
get_auth_module_entry auth_store_entries = record {
  module_name = module_name_auth;
  asset_data = auth_data auth_store_entries;
  schema = genesis_auth_store_schema;
}
