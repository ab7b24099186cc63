-- ===== src/Assets/Token.antt =====
-- src/assets/token.ts
pub mod Laws
use lisk_migrator.Common.{
  ℕ, ◌+◌, List, [], ◌∷◌, ◌++◌, Option, none, some, Bytes, Text, same, ltb, not, if◌then◌else◌,
}
use lisk_migrator.Common.Sort.{sort, compare_on}
use lisk_migrator.Constants.{
  module_name_pos, module_name_legacy, module_name_token, address_legacy_reserve,
}
use lisk_migrator.Crypto.{Crypto}
use lisk_migrator.Encoding.Decimal.{decimal}
use lisk_migrator.Encoding.Hex.{from_hex}
use lisk_migrator.Types.{
  Account, Vote, Unlocking, LockedBalance, UserSubstoreEntry, UserSubstoreEntryBuffer,
  SupplySubstoreEntry, EscrowSubstoreEntry, SupportedTokensSubstoreEntry, GenesisAssetEntry,
  token_data, token_genesis_store_schema,
}

add_votes : ℕ → List Vote → ℕ
add_votes amount [] = amount
add_votes amount (vote ∷ votes) = add_votes (amount + vote.amount) votes

add_unlocking : ℕ → List Unlocking → ℕ
add_unlocking amount [] = amount
add_unlocking amount (unlocking ∷ rest) = add_unlocking (amount + unlocking.amount) rest

-- The account is always given where this is called, so the test of the parameter is left out.
unfoldable pub get_locked_balances : Account → List LockedBalance
unfolding add_votes add_unlocking
get_locked_balances account =
    let amount = add_unlocking (add_votes 0 account.dpos.sent_votes) account.dpos.unlocking in
    if ltb 0 amount
    then record { module_name = module_name_pos; amount = decimal amount } ∷ []
    else []

abbrev pub reserve_locked_balances : Option Account → List LockedBalance
reserve_locked_balances (some account) = get_locked_balances account
reserve_locked_balances none = []

abbrev reserve_available_balance : Option Account → ℕ
reserve_available_balance (some account) = account.token.balance
reserve_available_balance none = 0

-- `localeCompare` with 'en' orders the module names, which are lower-case letters, by code units.
unfoldable pub create_legacy_reserve_account :
    Crypto → Option Account → ℕ → Text → UserSubstoreEntryBuffer
unfolding get_locked_balances
create_legacy_reserve_account c legacy_reserve_account legacy_reserve_amount token_id = record {
  address = address_legacy_reserve c;
  token_id = from_hex token_id;
  available_balance = decimal (reserve_available_balance legacy_reserve_account);
  locked_balances = sort (compare_on (λ b. b.module_name)) (
      reserve_locked_balances legacy_reserve_account
      ++ (record { module_name = module_name_legacy; amount = decimal legacy_reserve_amount }
          ∷ []));
}

unfoldable pub create_user_substore_array_entry :
    Crypto → Account → Text → Option UserSubstoreEntryBuffer
unfolding get_locked_balances
create_user_substore_array_entry c account token_id =
    if not (same (address_legacy_reserve c) account.address.bytes)
    then some (record {
      address = account.address.bytes;
      token_id = from_hex token_id;
      available_balance = decimal account.token.balance;
      locked_balances = get_locked_balances account;
    })
    else none

unfoldable pub get_token_module_entry :
    List UserSubstoreEntry
    → List SupplySubstoreEntry
    → List EscrowSubstoreEntry
    → List SupportedTokensSubstoreEntry
    → GenesisAssetEntry
get_token_module_entry user supply escrow supported_tokens = record {
  module_name = module_name_token;
  asset_data = token_data (record {
    user_substore = user;
    supply_substore = supply;
    escrow_substore = escrow;
    supported_tokens_substore = supported_tokens;
  });
  schema = token_genesis_store_schema;
}
