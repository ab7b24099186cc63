-- ===== src/CreateAsset/Supply.antt =====
-- The supply that the token asset states is what its user substore holds.
pub mod Init
use lisk_migrator.Common.{
  ℕ, ◌+◌, ◌≡◌, refl, ◌∙◌, List, [], ◌∷◌, ◌++◌, keep, total, total-append, total-map, Option, none,
  some, arith, Result, ok, Text, if◌then◌else◌, Bool, true, Bool-cases, inl, inr,
}
use lisk_migrator.Common.Predicates.{All}
use lisk_migrator.Common.Sort.{sort, compare_on, compare_bytes}
use lisk_migrator.Common.Sort.Laws.{total-sort}
use lisk_migrator.Assets.Auth.{get_auth_module_entry}
use lisk_migrator.Assets.Interoperability.{get_interop_module_entry}
use lisk_migrator.Assets.Legacy.{reserve_balance}
use lisk_migrator.Assets.Legacy.Laws.{legacy_entries, get_legacy_module_entry-ok}
use lisk_migrator.Assets.Pos.{get_pos_module_entry}
use lisk_migrator.Assets.Token.{create_legacy_reserve_account, get_token_module_entry}
use lisk_migrator.Assets.Token.Laws.{
  amount_of, amount_of-decimal, locked, holding, worth, holding-create_legacy_reserve_account,
}
use lisk_migrator.Codec.{Codec}
use lisk_migrator.Constants.{module_name_legacy}
use lisk_migrator.CreateAsset.{
  Collected, init, assets_of, is_reserve, sorted_auth, sorted_user_substore, sorted_validators,
  sorted_stakers, user_comparator, user_entry,
}
use lisk_migrator.CreateAsset.Collect.{
  HasDistinctAddresses, holding-collected, total-other, keep-HasDistinctAddresses,
}
use lisk_migrator.CreateAsset.Monad.{Globals}
use lisk_migrator.Crypto.{Crypto}
use lisk_migrator.Database.{Db}
use lisk_migrator.Types.{
  Account, LegacyStoreEntry, GenesisAssetEntry, GenesisDataEntry, SupplySubstoreEntry,
  TokenStoreEntry, UserSubstoreEntry, UserSubstoreEntryBuffer, AssetData, auth_data, legacy_data,
  token_data, pos_data, interoperability_data, genesis_legacy_store_schema,
}
use Init.{Run, init_run, IsReadable, accounts, reserve, supply, pushed, with_reserve, init_lem}

-- The store of the token asset among the assets.
abbrev pub token_store_of : AssetData → Option TokenStoreEntry
token_store_of (token_data store) = some store
token_store_of _ = none

abbrev pub token_store : List GenesisAssetEntry → Option TokenStoreEntry
token_store [] = none
token_store (a ∷ assets) = elim (token_store_of a.asset_data) [
  | some store ↦ some store
  | none ↦ token_store assets
]

-- What the user entries hold, free and locked.
abbrev pub held : List UserSubstoreEntry → ℕ
held = total (λ e. amount_of e.available_balance + locked e.locked_balances)

-- What the supply entries state.
abbrev pub issued : List SupplySubstoreEntry → ℕ
issued = total (λ e. amount_of e.total_supply)

abbrev pub legacy_module_asset : List LegacyStoreEntry → GenesisAssetEntry
legacy_module_asset entries = record {
  module_name = module_name_legacy;
  asset_data = legacy_data entries;
  schema = genesis_legacy_store_schema;
}

-- The assets come in the order of their modules' names.
pub assets_of_lem :
    (c : Crypto) (entries : List LegacyStoreEntry) (out : Collected) (s : SupplySubstoreEntry)
    (d : GenesisDataEntry)
    → assets_of c (legacy_module_asset entries) out s d
      ≡ get_auth_module_entry (sorted_auth c out.auth)
        ∷ get_interop_module_entry
        ∷ legacy_module_asset entries
        ∷ get_pos_module_entry (sorted_validators c out.validators) (sorted_stakers c out.stakers) d
        ∷ get_token_module_entry (sorted_user_substore c out.users) (s ∷ []) [] []
        ∷ []
unfolding assets_of get_auth_module_entry get_interop_module_entry get_pos_module_entry
    get_token_module_entry sort compare_bytes
assets_of_lem c entries out s d = refl

pub token_store-assets_of :
    (c : Crypto) (entries : List LegacyStoreEntry) (out : Collected) (s : SupplySubstoreEntry)
    (d : GenesisDataEntry)
    → token_store (assets_of c (legacy_module_asset entries) out s d)
      ≡ some (record {
        user_substore = sorted_user_substore c out.users;
        supply_substore = s ∷ [];
        escrow_substore = [];
        supported_tokens_substore = [];
      })
unfolding get_auth_module_entry get_interop_module_entry get_pos_module_entry get_token_module_entry
token_store-assets_of c entries out s d = rw (assets_of_lem c entries out s d)

held-sorted_user_substore :
    (c : Crypto) (es : List UserSubstoreEntryBuffer)
    → held (sorted_user_substore c es) ≡ total holding es
held-sorted_user_substore c es =
    total-map (λ e. amount_of e.available_balance + locked e.locked_balances) (user_entry c)
      (sort user_comparator es)
    ∙ total-sort user_comparator holding es

module _ (r : Run) (s : IsReadable r) (g : Globals) where
  -- `legacyReserveAmount` after the legacy asset is made.
  abbrev pub legacy_amount : ℕ
  legacy_amount =
      total (λ e. amount_of e.balance) (legacy_entries s.unregistered)
      + reserve_balance (reserve r s)

  abbrev pub final_store : TokenStoreEntry
  final_store = record {
    user_substore = sorted_user_substore r.c (with_reserve r s legacy_amount).users;
    supply_substore = supply r s g legacy_amount ∷ [];
    escrow_substore = [];
    supported_tokens_substore = [];
  }

  held-users :
      HasDistinctAddresses s.all
      → total holding (with_reserve r s legacy_amount).users
        ≡ total worth (accounts r s) + legacy_amount
  held-users distinct = omega (
    arith,
    total-append holding (pushed r s).users
        (create_legacy_reserve_account r.c (reserve r s) legacy_amount r.token_id ∷ []),
    holding-collected r.c s.keys r.height r.token_id (accounts r s)
        (record { auth = []; users = []; validators = []; stakers = [] }),
    holding-create_legacy_reserve_account r.c (reserve r s) legacy_amount r.token_id,
    total-other r.c worth (accounts r s) (keep-HasDistinctAddresses _ s.all distinct),
  )

  issued-final_store :
      issued (supply r s g legacy_amount ∷ [])
      ≡ g.total_lsk_supply + total worth (accounts r s) + legacy_amount
  issued-final_store =
      omega
        (arith, amount_of-decimal (g.total_lsk_supply + total worth (accounts r s) + legacy_amount))

  -- On a snapshot that can be read, and in which no two accounts have one address, `init` returns
  -- assets with a token store whose supply substore states what its user substore holds, free and
  -- locked, on top of the value that the module's total had before the call.
  pub init-conserves_supply :
      HasDistinctAddresses s.all
      → (assets : List GenesisAssetEntry) × (g' : Globals) × (store : TokenStoreEntry) × (init_run r
            g
          ≡ (ok assets, g'))
        × (token_store assets ≡ some store)
        × (issued store.supply_substore ≡ g.total_lsk_supply + held store.user_substore)
  init-conserves_supply distinct = (
    _,
    _,
    final_store,
    init_lem r s g _ legacy_amount (
        get_legacy_module_entry-ok r.codec.unregistered_addresses s.encoded (reserve r s)
          s.unregistered s.unregistered_decoded),
    token_store-assets_of r.c (legacy_entries s.unregistered) (with_reserve r s legacy_amount)
        (supply r s g legacy_amount) s.genesis_data,
    omega (
      arith,
      issued-final_store,
      held-users distinct,
      held-sorted_user_substore r.c (with_reserve r s legacy_amount).users,
    ),
  )
