-- ===== src/CreateAsset.antt =====
-- src/createAsset.ts: the genesis assets of all modules, from the database of the snapshot.
pub mod Monad
pub mod Collect
pub mod Supply
pub mod Order
pub mod Stakes
pub mod Unique
pub mod Arranged
use lisk_migrator.Common.{
  ℕ, ◌+◌, List, [], ◌∷◌, ◌++◌, map, keep, find, length, replicate, Ordering, Bool, Option, none,
  some, Bytes, Text, codes, same, ◌==◌, if◌then◌else◌, Result, ok, err,
}
use lisk_migrator.Common.Sort.{sort, compare_on, compare_bytes}
use lisk_migrator.Assets.Auth.{get_auth_module_entry, get_auth_module_entry_buffer}
use lisk_migrator.Assets.Interoperability.{get_interop_module_entry}
use lisk_migrator.Assets.Legacy.{get_legacy_module_entry}
use lisk_migrator.Assets.Pos.{
  get_validator_keys, create_validators_array_entry, create_stakers_array_entry,
  create_genesis_data_obj, get_pos_module_entry,
}
use lisk_migrator.Assets.Token.{
  get_locked_balances, create_legacy_reserve_account, create_user_substore_array_entry,
  get_token_module_entry,
}
use lisk_migrator.Codec.{Codec}
use lisk_migrator.Constants.{
  db_key_chain_state, db_key_accounts_address, chain_state_unregistered_addresses,
  chain_state_delegate_vote_weights, binary_address_length, address_legacy_reserve,
}
use lisk_migrator.Crypto.{Crypto}
use lisk_migrator.Database.{Db, ReadOptions}
use lisk_migrator.Encoding.Decimal.{decimal, big_int}
use lisk_migrator.Encoding.Hex.{hex}
use lisk_migrator.Encoding.Utf8.{utf8}
use lisk_migrator.Types.{
  Account, AuthStoreEntry, AuthStoreEntryBuffer, LockedBalance, UserSubstoreEntry,
  UserSubstoreEntryBuffer, SupplySubstoreEntry, ValidatorEntry, ValidatorEntryBuffer, Staker,
  StakerBuffer, GenesisDataEntry, GenesisAssetEntry,
}
use lisk_migrator.Utils.Block.{get_data_from_db_stream}
use Monad.{
  Globals, Action, ◌>>=◌, ◌>>◌, lift, pure, get_total, set_total, get_legacy_reserve_amount,
  with_reserve_amount,
}

-- The arrays that the loop over the accounts fills.
pub record Collected : Type 0 where
  pub auth : List AuthStoreEntryBuffer
  pub users : List UserSubstoreEntryBuffer
  pub validators : List ValidatorEntryBuffer
  pub stakers : List StakerBuffer

-- `if (entry) entries.push(entry)`
abbrev pub push {ℓ} : {A : Type ℓ} → Option A → List A → List A
push none entries = entries
push (some entry) entries = entries ++ (entry ∷ [])

-- The `reduce` over the locked balances.
unfoldable pub add_locked : List LockedBalance → ℕ → Action ℕ
add_locked [] accumulator = pure accumulator
add_locked (locked_balance ∷ rest) accumulator = do
  amount ← lift (big_int locked_balance.amount)
  add_locked rest (accumulator + amount)

module _ (c : Crypto) (validator_keys : List (Text × Text)) (snapshot_height : ℕ)
    (token_id : Text) where
  -- What the body of the loop pushes for an account.
  abbrev pub collect : Account → Collected → Collected
  collect account out = record {
    auth = out.auth ++ (get_auth_module_entry_buffer account ∷ []);
    users = push (create_user_substore_array_entry c account token_id) out.users;
    validators =
        push (create_validators_array_entry account validator_keys snapshot_height token_id)
          out.validators;
    stakers = push (create_stakers_array_entry c account token_id) out.stakers;
  }

  -- The loop over the accounts.
  unfoldable pub collect_all : List Account → Collected → Action Collected
  unfolding add_locked
  collect_all [] out = pure out
  collect_all (account ∷ accounts) out = do
    total ← get_total
    set_total (total + account.token.balance)
    total_with_locked ← add_locked (get_locked_balances account) (total + account.token.balance)
    set_total total_with_locked
    collect_all accounts (collect account out)

-- The comparators of the substores, by `address`.
abbrev pub user_comparator : UserSubstoreEntryBuffer → UserSubstoreEntryBuffer → Ordering
user_comparator a b =
    if same a.address b.address
    then compare_bytes a.token_id b.token_id
    else compare_bytes a.address b.address

module _ (c : Crypto) where
  abbrev pub user_entry : UserSubstoreEntryBuffer → UserSubstoreEntry
  user_entry e = record {
    address = c.lisk32_address e.address;
    token_id = hex e.token_id;
    available_balance = e.available_balance;
    locked_balances = e.locked_balances;
  }

  abbrev pub auth_entry : AuthStoreEntryBuffer → AuthStoreEntry
  auth_entry e = record { address = c.lisk32_address e.address; auth_account = e.auth_account }

  abbrev pub staker_entry : StakerBuffer → Staker
  staker_entry e = record {
    address = c.lisk32_address e.address;
    stakes = e.stakes;
    pending_unlocks = e.pending_unlocks;
  }

  abbrev pub validator_entry : ValidatorEntryBuffer → ValidatorEntry
  validator_entry e = record {
    address = c.lisk32_address e.address;
    name = e.name;
    bls_key = e.bls_key;
    proof_of_possession = e.proof_of_possession;
    generator_key = e.generator_key;
    last_generated_height = e.last_generated_height;
    is_banned = e.is_banned;
    report_misbehavior_heights = e.report_misbehavior_heights;
    consecutive_missed_blocks = e.consecutive_missed_blocks;
    commission = e.commission;
    last_commission_increase_height = e.last_commission_increase_height;
    sharing_coefficients = e.sharing_coefficients;
  }

  abbrev pub sorted_user_substore : List UserSubstoreEntryBuffer → List UserSubstoreEntry
  sorted_user_substore entries = map user_entry (sort user_comparator entries)

  abbrev pub sorted_validators : List ValidatorEntryBuffer → List ValidatorEntry
  sorted_validators entries = map validator_entry (sort (compare_on (λ e. e.address)) entries)

  abbrev pub sorted_stakers : List StakerBuffer → List Staker
  sorted_stakers entries = map staker_entry (sort (compare_on (λ e. e.address)) entries)

  abbrev pub sorted_auth : List AuthStoreEntryBuffer → List AuthStoreEntry
  sorted_auth entries = map auth_entry (sort (compare_on (λ e. e.address)) entries)

  -- The assets from what was collected, at the end of `init`. `localeCompare` with 'en' orders the
  -- module names, which are lower-case letters, by code units.
  unfoldable pub assets_of :
      GenesisAssetEntry
      → Collected
      → SupplySubstoreEntry
      → GenesisDataEntry
      → List GenesisAssetEntry
  assets_of legacy_module_assets out supply genesis_data = sort (compare_on (λ a. a.module_name)) (
      legacy_module_assets
      ∷ get_auth_module_entry (sorted_auth out.auth)
      ∷ get_token_module_entry (sorted_user_substore out.users) (supply ∷ []) [] []
      ∷ get_pos_module_entry (sorted_validators out.validators) (sorted_stakers out.stakers)
          genesis_data
      ∷ get_interop_module_entry
      ∷ [])

-- `Buffer.from(`${DB_KEY_CHAIN_STATE}:${name}`)`
abbrev pub chain_state_key : Text → Bytes
chain_state_key name = utf8 (db_key_chain_state ++ codes ":" ++ name)

abbrev pub account_key : Bytes → Bytes
account_key address = utf8 (db_key_accounts_address ++ codes ":" ++ address)

abbrev pub all_accounts_options : ReadOptions
all_accounts_options = record {
  gte = account_key (replicate 20 0);
  lte = account_key (replicate 20 255);
  limit = none;
}

abbrev pub is_reserve : Crypto → Account → Bool
is_reserve c account = same (address_legacy_reserve c) account.address.bytes

-- `CreateAsset.init`, with fuel for the paging loops of `getValidatorKeys`.
unfoldable pub init : ℕ → Crypto → Codec → Db → ℕ → Text → ℕ → Action (List GenesisAssetEntry)
unfolding collect_all assets_of get_legacy_module_entry
init fuel c codec db snapshot_height token_id page_size = do
  encoded_unregistered_addresses ←
      lift (db.get (chain_state_key chain_state_unregistered_addresses))
  all_accounts ←
      lift (get_data_from_db_stream codec.account (db.create_read_stream all_accounts_options))
  let accounts = keep (λ a. length a.address.bytes == binary_address_length) all_accounts
  let legacy_reserve_account = find (is_reserve c) accounts
  legacy_module_assets ← with_reserve_amount (
      get_legacy_module_entry codec.unregistered_addresses encoded_unregistered_addresses
        legacy_reserve_account)
  legacy_reserve_amount ← get_legacy_reserve_amount
  let legacy_reserve =
      create_legacy_reserve_account c legacy_reserve_account legacy_reserve_amount token_id
  validator_keys ←
      lift (get_validator_keys c fuel codec.block_header codec.transaction accounts db page_size)
  out ←
      collect_all c validator_keys snapshot_height token_id accounts
        (record { auth = []; users = []; validators = []; stakers = [] })
  let collected = record out { users = out.users ++ (legacy_reserve ∷ []) }
  total ← get_total
  let supply : SupplySubstoreEntry = record {
    token_id = token_id;
    total_supply = decimal (total + legacy_reserve_amount);
  }
  encoded_delegates_vote_weights ← lift (db.get (chain_state_key chain_state_delegate_vote_weights))
  decoded_delegates_vote_weights ← lift (codec.vote_weights encoded_delegates_vote_weights)
  genesis_data ←
      lift (create_genesis_data_obj c accounts decoded_delegates_vote_weights snapshot_height)
  pure (assets_of c legacy_module_assets collected supply genesis_data)
