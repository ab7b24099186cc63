-- ===== src/Tests/Assets.antt =====
-- The entries of the assets of a few accounts.
use mathlib.Core.List.{Perm}
use lisk_migrator.Common.{◌≡◌, refl, List, [], ◌∷◌, map, total, ◌+◌, arith, some, ok, Bytes, Result}
use lisk_migrator.Common.Sort.{compare_on, sort}
use lisk_migrator.Common.Sort.Laws.{IsSorted}
use lisk_migrator.Assets.Auth.{get_auth_module_entry_buffer}
use lisk_migrator.Assets.Auth.Laws.{get_auth_module_entry_buffer_lem, SortedHexOf}
use lisk_migrator.Assets.Legacy.{get_legacy_module_entry}
use lisk_migrator.Assets.Legacy.Laws.{get_legacy_module_entry_lem, printed}
use lisk_migrator.Assets.Pos.{create_genesis_data_obj}
use lisk_migrator.Assets.Pos.Bans.{
  create_genesis_data_obj-Elects, create_genesis_data_obj_fresh, Elects,
}
use lisk_migrator.Assets.Token.Laws.{amount_of}
use lisk_migrator.Constants.{module_name_legacy}
use lisk_migrator.Types.{
  UnregisteredAccount, LegacyStoreEntry, legacy_data, genesis_legacy_store_schema,
}
use lisk_migrator.Encoding.Decimal.{big_int}
use lisk_migrator.Tests.Data.{crypto, alice, reserve_account, alice_address, round_0}

abbrev unregistered : List UnregisteredAccount
unregistered =
    record { address = 200 ∷ []; balance = 4 } ∷ record { address = 16 ∷ []; balance = 3 } ∷ []

abbrev decode_unregistered : Bytes → Result (List UnregisteredAccount)
decode_unregistered bytes = ok unregistered

get_legacy_module_entry_lem_example :
    (entries : List LegacyStoreEntry) × (get_legacy_module_entry decode_unregistered []
        (some reserve_account)
      ≡ (
        ok (record {
          module_name = module_name_legacy;
          asset_data = legacy_data entries;
          schema = genesis_legacy_store_schema;
        }),
        total (λ e. amount_of e.balance) entries + 5,
      ))
    × Perm entries (map printed unregistered)
    × IsSorted (compare_on (λ e. e.address)) entries
get_legacy_module_entry_lem_example =
    get_legacy_module_entry_lem decode_unregistered [] (some reserve_account) unregistered refl
      ((omega arith, tt), ((omega arith, tt), tt))

get_auth_module_entry_buffer_lem_example :
    let entry = get_auth_module_entry_buffer alice in
    (entry.address ≡ alice.address.bytes)
    × (entry.auth_account.number_of_signatures ≡ alice.keys.number_of_signatures)
    × SortedHexOf alice.keys.mandatory_keys entry.auth_account.mandatory_keys
    × SortedHexOf alice.keys.optional_keys entry.auth_account.optional_keys
    × (big_int entry.auth_account.nonce ≡ ok 12)
get_auth_module_entry_buffer_lem_example =
    get_auth_module_entry_buffer_lem alice ((omega arith, tt), ((omega arith, tt), tt))
      ((omega arith, tt), tt)

create_genesis_data_obj-Elects_example :
    Elects crypto
      (alice ∷ [])
      (round_0 ∷ [])
      2
      (create_genesis_data_obj crypto (alice ∷ []) (round_0 ∷ []) 206)
create_genesis_data_obj-Elects_example =
    create_genesis_data_obj-Elects crypto (alice ∷ []) (round_0 ∷ []) 206

-- The banned delegate is among the initial validators.
create_genesis_data_obj_fresh_example :
    create_genesis_data_obj crypto (alice ∷ []) (round_0 ∷ []) 206
    ≡ ok (record { init_rounds = 587; init_validators = (108 ∷ 115 ∷ 107 ∷ alice_address) ∷ [] })
unfolding sort
create_genesis_data_obj_fresh_example =
    create_genesis_data_obj_fresh crypto (alice ∷ []) (round_0 ∷ []) 206 round_0 refl (λ e. cc)
      ((λ e. omega arith, tt), tt)
