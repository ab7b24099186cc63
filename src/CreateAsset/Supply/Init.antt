-- ===== src/CreateAsset/Supply/Init.antt =====
-- What a run of `init` that returns has read and built.
use lisk_migrator.Common.{
  ℕ, ◌+◌, ◌≡◌, refl, List, [], ◌∷◌, ◌++◌, keep, find, length, Option, total, ◌==◌, Bytes, Text,
  Result, ok,
}
use lisk_migrator.Assets.Legacy.{get_legacy_module_entry}
use lisk_migrator.Assets.Pos.{get_validator_keys, create_genesis_data_obj}
use lisk_migrator.Assets.Token.{create_legacy_reserve_account}
use lisk_migrator.Assets.Token.Laws.{worth}
use lisk_migrator.Codec.{Codec}
use lisk_migrator.Constants.{
  binary_address_length, chain_state_unregistered_addresses, chain_state_delegate_vote_weights,
}
use lisk_migrator.CreateAsset.{
  Collected, init, assets_of, is_reserve, all_accounts_options, chain_state_key,
}
use lisk_migrator.CreateAsset.Collect.{collected, collect_all_lem}
use lisk_migrator.CreateAsset.Monad.{Globals, ◌>>=◌}
use lisk_migrator.Crypto.{Crypto}
use lisk_migrator.Database.{Db}
use lisk_migrator.Encoding.Decimal.{decimal}
use lisk_migrator.Types.{
  Account, UnregisteredAccount, VoteWeight, GenesisAssetEntry, GenesisDataEntry,
  SupplySubstoreEntry,
}
use lisk_migrator.Utils.Block.{get_data_from_db_stream}

-- The accounts that the assets are made of.
abbrev pub with_valid_address : List Account → List Account
with_valid_address = keep (λ a. length a.address.bytes == binary_address_length)

-- What a call of `init` is given, with the libraries' functions that it uses.
pub record Run : Type 0 where
  pub fuel : ℕ
  pub c : Crypto
  pub codec : Codec
  pub db : Db
  pub height : ℕ
  pub token_id : Text
  pub page_size : ℕ

abbrev pub init_run : Run → Globals → Result (List GenesisAssetEntry) × Globals
init_run r = init r.fuel r.c r.codec r.db r.height r.token_id r.page_size

-- A snapshot in which all that `init` reads is there and is decoded, and in which the vote weights
-- of round r - 2 are available.
pub record IsReadable (r : Run) : Type 0 where
  pub encoded : Bytes
  pub all : List Account
  pub unregistered : List UnregisteredAccount
  pub keys : List (Text × Text)
  pub encoded_weights : Bytes
  pub weights : List VoteWeight
  pub genesis_data : GenesisDataEntry
  pub encoded_read : r.db.get (chain_state_key chain_state_unregistered_addresses) ≡ ok encoded
  pub accounts_read :
      get_data_from_db_stream r.codec.account (r.db.create_read_stream all_accounts_options)
      ≡ ok all
  pub unregistered_decoded : r.codec.unregistered_addresses encoded ≡ ok unregistered
  pub keys_made :
      get_validator_keys r.c r.fuel r.codec.block_header r.codec.transaction
        (with_valid_address all)
        r.db
        r.page_size
      ≡ ok keys
  pub weights_read :
      r.db.get (chain_state_key chain_state_delegate_vote_weights) ≡ ok encoded_weights
  pub weights_decoded : r.codec.vote_weights encoded_weights ≡ ok weights
  pub genesis_made :
      create_genesis_data_obj r.c (with_valid_address all) weights r.height ≡ ok genesis_data

module _ (r : Run) (s : IsReadable r) where
  abbrev pub accounts : List Account
  accounts = with_valid_address s.all

  abbrev pub reserve : Option Account
  reserve = find (is_reserve r.c) accounts

  -- What the loop over the accounts pushes.
  abbrev pub pushed : Collected
  pushed =
      collected r.c s.keys r.height r.token_id accounts
        (record { auth = []; users = []; validators = []; stakers = [] })

  -- That, and the entry of the legacy reserve.
  abbrev pub with_reserve : ℕ → Collected
  with_reserve amount = record pushed {
    users = pushed.users ++ (create_legacy_reserve_account r.c reserve amount r.token_id ∷ []);
  }

  abbrev pub supply : Globals → ℕ → SupplySubstoreEntry
  supply g amount = record {
    token_id = r.token_id;
    total_supply = decimal (g.total_lsk_supply + total worth accounts + amount);
  }

  pub init_lem :
      (g : Globals) (legacy_asset : GenesisAssetEntry) (amount : ℕ)
      → get_legacy_module_entry r.codec.unregistered_addresses s.encoded reserve
        ≡ (ok legacy_asset, amount)
      → init_run r g ≡ (
        ok (assets_of r.c legacy_asset (with_reserve amount) (supply g amount) s.genesis_data),
        record {
          total_lsk_supply = g.total_lsk_supply + total worth accounts;
          legacy_reserve_amount = amount;
        },
      )
  unfolding init
  init_lem g legacy_asset amount h =
      rw (s.encoded_read, s.accounts_read, h, s.keys_made)
        (rw (collect_all_lem r.c s.keys r.height r.token_id accounts _ _, ◌>>=◌)
          (rw (s.weights_read, s.weights_decoded, s.genesis_made) refl))
