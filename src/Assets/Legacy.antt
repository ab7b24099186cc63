-- ===== src/Assets/Legacy.antt =====
-- src/assets/legacy.ts. The module's variable `legacyReserveAmount` is state that is passed on.
pub mod Laws
use lisk_migrator.Common.{ℕ, ◌+◌, List, [], ◌∷◌, map, Option, none, some, Bytes, Result, ok, err}
use lisk_migrator.Common.Sort.{sort, compare_on}
use lisk_migrator.Constants.{module_name_legacy}
use lisk_migrator.Encoding.Decimal.{decimal}
use lisk_migrator.Encoding.Hex.{hex}
use lisk_migrator.Types.{
  Account, UnregisteredAccount, LegacyStoreEntry, LegacyStoreEntryBuffer, GenesisAssetEntry,
  legacy_data, genesis_legacy_store_schema,
}

-- `legacyReserveAccount ? legacyReserveAccount.token.balance : AMOUNT_ZERO`
abbrev pub reserve_balance : Option Account → ℕ
reserve_balance (some account) = account.token.balance
reserve_balance none = 0

-- The callback of the `map`: it adds the balance to the module's variable, and returns the entry.
legacy_accounts : List UnregisteredAccount → ℕ → ℕ × List LegacyStoreEntryBuffer
legacy_accounts [] amount = (amount, [])
legacy_accounts (account ∷ rest) amount =
    let (amount', entries) = legacy_accounts rest (amount + account.balance) in
    (amount', record { address = account.address; balance = decimal account.balance } ∷ entries)

abbrev with_hex_address : LegacyStoreEntryBuffer → LegacyStoreEntry
with_hex_address entry = record { address = hex entry.address; balance = entry.balance }

abbrev legacy_asset : List LegacyStoreEntryBuffer → GenesisAssetEntry
legacy_asset accounts = record {
  module_name = module_name_legacy;
  asset_data = legacy_data (map with_hex_address (sort (compare_on (λ e. e.address)) accounts));
  schema = genesis_legacy_store_schema;
}

-- With `decode`, the codec at `unregisteredAddressesSchema`. The result comes with the new value of
-- `legacyReserveAmount`, which is set before the data is decoded.
unfoldable pub get_legacy_module_entry :
    (Bytes → Result (List UnregisteredAccount))
    → Bytes
    → Option Account
    → Result GenesisAssetEntry × ℕ
unfolding legacy_accounts
get_legacy_module_entry decode encoded_unregistered_addresses legacy_reserve_account =
    elim (decode encoded_unregistered_addresses) [
      | err e ↦ (err e, reserve_balance legacy_reserve_account)
      | ok unregistered_addresses ↦
          let (amount, entries) =
            legacy_accounts unregistered_addresses (reserve_balance legacy_reserve_account) in
          (ok (legacy_asset entries), amount)
    ]
