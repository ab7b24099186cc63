-- ===== src/Tests/Supply.antt =====
-- A run of `init` on a snapshot with two accounts.
use lisk_migrator.Common.{
  map, ◌≡◌, refl, ◌+◌, List, [], ◌∷◌, some, none, ok, err, Bytes, ℕ, codes, Result, Option,
  external,
}
use lisk_migrator.CreateAsset.{collect_all}
use lisk_migrator.CreateAsset.Monad.{Globals}
use lisk_migrator.CreateAsset.Collect.{collected, collect_all_lem}
use lisk_migrator.CreateAsset.Supply.{init-conserves_supply, token_store, issued, held}
use lisk_migrator.CreateAsset.Stakes.{init-locks_stakes, pos_store, locked_for, staked_for}
use lisk_migrator.Types.{PosStoreEntry}
use lisk_migrator.CreateAsset.Supply.Init.{Run, IsReadable, init_run}
use lisk_migrator.Codec.{Codec}
use lisk_migrator.Database.{Db, Entry}
use lisk_migrator.Tests.Data.{crypto, alice, reserve_account, round_0}
use lisk_migrator.Assets.Pos.{get_validator_keys, create_genesis_data_obj, validator_keys_of}
use lisk_migrator.Common.Sort.{sort, compare_on}
use lisk_migrator.Utils.Block.{
  get_data_from_db_stream, get_block_public_key_set, get_transaction_public_key_set,
}
use lisk_migrator.Assets.Auth.{get_auth_module_entry}
use lisk_migrator.Assets.Interoperability.{get_interop_module_entry}
use lisk_migrator.Assets.Pos.{get_pos_module_entry}
use lisk_migrator.Assets.Token.{get_token_module_entry}
use lisk_migrator.CreateAsset.Order.{IsArranged, user_order}
use lisk_migrator.CreateAsset.Arranged.{init-IsArranged, IsUnique, final}
use lisk_migrator.Assets.Legacy.Laws.{legacy_entries}
use lisk_migrator.CreateAsset.Supply.{legacy_amount}
use lisk_migrator.CreateAsset.Supply.Init.{supply}
use lisk_migrator.CreateAsset.{user_entry, auth_entry, validator_entry, staker_entry}
use lisk_migrator.CreateAsset.Supply.{legacy_module_asset}
use lisk_migrator.Types.{
  AuthStoreEntryBuffer, UserSubstoreEntryBuffer, ValidatorEntryBuffer, StakerBuffer, Account,
  GenesisAssetEntry, TokenStoreEntry, UnregisteredAccount,
}

abbrev fresh : Globals
fresh = record { total_lsk_supply = 0; legacy_reserve_amount = 0 }

collect_all_lem_example :
    collect_all crypto [] 206
      (codes "00")
      (alice ∷ reserve_account ∷ [])
      (record { auth = []; users = []; validators = []; stakers = [] })
      fresh
    ≡ (
      ok (
          collected crypto [] 206
            (codes "00")
            (alice ∷ reserve_account ∷ [])
            (record { auth = []; users = []; validators = []; stakers = [] })),
      record { total_lsk_supply = 42; legacy_reserve_amount = 0 },
    )
collect_all_lem_example =
    collect_all_lem crypto [] 206 (codes "00") (alice ∷ reserve_account ∷ [])
      (record { auth = []; users = []; validators = []; stakers = [] }) fresh

-- The first account's value is not empty, the second's is.
abbrev pub decode_account : Bytes → Result Account
decode_account [] = ok reserve_account
decode_account (b ∷ bs) = ok alice

-- The accounts; there are no blocks and no transactions.
abbrev pub stream : Option ℕ → List Entry
stream none = ([], 0 ∷ []) ∷ (1 ∷ [], []) ∷ []
stream (some n) = []

abbrev pub unregistered : List UnregisteredAccount
unregistered = record { address = 8 ∷ []; balance = 4 } ∷ []

abbrev pub run_codec : Codec
run_codec = record {
  account = decode_account;
  unregistered_addresses = λ value. ok unregistered;
  vote_weights = λ value. ok (round_0 ∷ []);
  block_header = λ value.
      ok (record { id = value; height = 206; timestamp = 1000; generator_public_key = [] });
  transaction = λ value. err (external 0);
}

abbrev pub run_db : Db
run_db = record { get = λ key. ok key; create_read_stream = λ options. ok (stream options.limit) }

abbrev pub run : Run
run = record {
  fuel = 1;
  c = crypto;
  codec = run_codec;
  db = run_db;
  height = 206;
  token_id = codes "0000000000000000";
  page_size = 1000;
}

unfoldable pub readable : IsReadable run
unfolding get_data_from_db_stream get_validator_keys create_genesis_data_obj sort
    get_block_public_key_set get_transaction_public_key_set validator_keys_of
readable = record {
  encoded = _;
  all = alice ∷ reserve_account ∷ [];
  unregistered = unregistered;
  keys = _;
  encoded_weights = _;
  weights = round_0 ∷ [];
  genesis_data = _;
  encoded_read = refl;
  accounts_read = refl;
  unregistered_decoded = refl;
  keys_made = refl;
  weights_read = refl;
  weights_decoded = refl;
  genesis_made = refl;
}

init-conserves_supply_example :
    (assets : List GenesisAssetEntry) × (g' : Globals) × (store : TokenStoreEntry) × (init_run run
        fresh
      ≡ (ok assets, g'))
    × (token_store assets ≡ some store)
    × (issued store.supply_substore ≡ 0 + held store.user_substore)
unfolding readable
init-conserves_supply_example =
    init-conserves_supply run readable fresh ((λ e. absurd (cc), tt), (tt, tt))

init-locks_stakes_example :
    (assets : List GenesisAssetEntry) × (g' : Globals) × (store : TokenStoreEntry)
    × (pos : PosStoreEntry) × (init_run run fresh ≡ (ok assets, g'))
    × (token_store assets ≡ some store)
    × (pos_store assets ≡ some pos)
    × (locked_for (crypto.lisk32_address alice.address.bytes) store.user_substore
        ≡ staked_for (crypto.lisk32_address alice.address.bytes) pos.stakers)
unfolding readable
init-locks_stakes_example =
    init-locks_stakes run readable fresh ((λ e. absurd (cc), tt), (tt, tt))
      (crypto.lisk32_address alice.address.bytes)

init-IsArranged_example :
    (auth : List AuthStoreEntryBuffer) × (users : List UserSubstoreEntryBuffer) × (validators : List
      ValidatorEntryBuffer)
    × (stakers : List StakerBuffer) × (g' : Globals) × (IsArranged
          (compare_on (λ e. e.address))
          auth
          (final run readable fresh).auth
        × IsUnique (λ e. e.address) auth)
    × (IsArranged user_order users (final run readable fresh).users
        × IsUnique (λ e. e.address) users)
    × (IsArranged (compare_on (λ e. e.address)) validators (final run readable fresh).validators
        × IsUnique (λ e. e.address) validators)
    × (IsArranged (compare_on (λ e. e.address)) stakers (final run readable fresh).stakers
        × IsUnique (λ e. e.address) stakers)
    × (init_run run fresh ≡ (
      ok (
          get_auth_module_entry (map (auth_entry crypto) auth)
          ∷ get_interop_module_entry
          ∷ legacy_module_asset (legacy_entries readable.unregistered)
          ∷ get_pos_module_entry
              (map (validator_entry crypto) validators)
              (map (staker_entry crypto) stakers)
              readable.genesis_data
          ∷ get_token_module_entry
              (map (user_entry crypto) users)
              (supply run readable fresh (legacy_amount run readable fresh) ∷ [])
              []
              []
          ∷ []),
      g',
    ))
unfolding readable
init-IsArranged_example = init-IsArranged run readable fresh ((λ e. absurd (cc), tt), (tt, tt))
