-- ===== src/CreateAsset/Stakes.antt =====
-- What src/assets/token.ts locks for an account and what src/assets/pos.ts has it stake, and unstake, are
-- the same.
pub mod Entries
use lisk_migrator.Common.{
  find, Bool-cases, inl, inr, same→eq, ap, sym, ℕ, ◌+◌, ◌≡◌, refl, ◌∙◌, List, [], ◌∷◌, total,
  measured, total-append, total-map, Option, none, some, arith, ok, Text, Bytes, same,
  if◌then◌else◌, Bool, true, false,
}
use lisk_migrator.Common.Sort.{sort, compare_on}
use lisk_migrator.Common.Sort.Laws.{total-sort}
use lisk_migrator.Assets.Legacy.Laws.{legacy_entries, get_legacy_module_entry-ok}
use lisk_migrator.Assets.Pos.{create_stakers_array_entry}
use lisk_migrator.Assets.Token.{create_legacy_reserve_account, create_user_substore_array_entry}
use lisk_migrator.CreateAsset.{
  Collected, collect, is_reserve, user_entry, staker_entry, user_comparator, sorted_user_substore,
  sorted_stakers,
}
use lisk_migrator.CreateAsset.Collect.{
  HasDistinctAddresses, collected, other, push-total, total-other, keep-HasDistinctAddresses,
}
use Entries.{
  if_selected, locked_by_pos, staked_by, locks, stakes, staked_if,
  locks-create_user_substore_array_entry, locks-create_legacy_reserve_account,
  stakes-create_stakers_array_entry,
}
use lisk_migrator.Crypto.{Crypto}
use lisk_migrator.Types.{
  Account, LegacyStoreEntry, GenesisAssetEntry, GenesisDataEntry, SupplySubstoreEntry,
  PosStoreEntry, TokenStoreEntry, UserSubstoreEntry, UserSubstoreEntryBuffer, Staker, StakerBuffer,
  AssetData, pos_data, auth_data, legacy_data, token_data, interoperability_data,
}
use lisk_migrator.Assets.Token.Laws.{staked}
use lisk_migrator.Constants.{address_legacy_reserve}
use lisk_migrator.Assets.Auth.{get_auth_module_entry}
use lisk_migrator.Assets.Interoperability.{get_interop_module_entry}
use lisk_migrator.Assets.Pos.{get_pos_module_entry}
use lisk_migrator.Assets.Token.{get_token_module_entry}
use lisk_migrator.CreateAsset.{assets_of, sorted_validators}
use lisk_migrator.CreateAsset.Monad.{Globals}
use lisk_migrator.CreateAsset.Supply.{
  legacy_module_asset, assets_of_lem, legacy_amount, token_store, final_store,
  token_store-assets_of,
}
use lisk_migrator.CreateAsset.Supply.Init.{
  Run, IsReadable, init_run, init_lem, accounts, reserve, supply, pushed, with_reserve,
}

module _ (c : Crypto) (keys : List (Text × Text)) (height : ℕ) (token_id : Text)
    (p : Bytes → Bool) where
  locks-collected :
      (accounts : List Account) (out : Collected)
      → total (locks p) (collected c keys height token_id accounts out).users
        ≡ total (locks p) out.users + total (other c (staked_if p)) accounts
  locks-collected [] out = omega arith
  locks-collected (a ∷ accounts) out = omega (
    arith,
    locks-collected accounts (collect c keys height token_id a out),
    push-total (locks p) (create_user_substore_array_entry c a token_id) out.users,
    locks-create_user_substore_array_entry p c a token_id,
  )

  stakes-collected :
      (accounts : List Account) (out : Collected)
      → total (stakes p) (collected c keys height token_id accounts out).stakers
        ≡ total (stakes p) out.stakers + total (staked_if p) accounts
  stakes-collected [] out = omega arith
  stakes-collected (a ∷ accounts) out = omega (
    arith,
    stakes-collected accounts (collect c keys height token_id a out),
    push-total (stakes p) (create_stakers_array_entry c a token_id) out.stakers,
    stakes-create_stakers_array_entry p c a token_id,
  )

-- The store of the PoS asset among the assets.
abbrev pub pos_store_of : AssetData → Option PosStoreEntry
pos_store_of (pos_data store) = some store
pos_store_of _ = none

abbrev pub pos_store : List GenesisAssetEntry → Option PosStoreEntry
pos_store [] = none
pos_store (a ∷ assets) = elim (pos_store_of a.asset_data) [
  | some store ↦ some store
  | none ↦ pos_store assets
]

-- What the PoS module locks for an address.
abbrev pub locked_for : Text → List UserSubstoreEntry → ℕ
locked_for address =
    total (λ e. if_selected (same e.address address) (locked_by_pos e.locked_balances))

-- What an address has staked, and what it has still to unlock.
abbrev pub staked_for : Text → List Staker → ℕ
staked_for address =
    total (λ e. if_selected (same e.address address) (staked_by e.stakes e.pending_unlocks))

pos_store-assets_of :
    (c : Crypto) (entries : List LegacyStoreEntry) (out : Collected) (s : SupplySubstoreEntry)
    (d : GenesisDataEntry)
    → pos_store (assets_of c (legacy_module_asset entries) out s d)
      ≡ some (record {
        validators = sorted_validators c out.validators;
        stakers = sorted_stakers c out.stakers;
        genesis_data = d;
      })
unfolding get_auth_module_entry get_interop_module_entry get_pos_module_entry get_token_module_entry
pos_store-assets_of c entries out s d = rw (assets_of_lem c entries out s d)

module _ (c : Crypto) (address : Text) where
  is_for : Bytes → Bool
  is_for bytes = same (c.lisk32_address bytes) address

  locked_for-sorted_user_substore :
      (es : List UserSubstoreEntryBuffer)
      → locked_for address (sorted_user_substore c es) ≡ total (locks is_for) es
  unfolding is_for
  locked_for-sorted_user_substore es =
      total-map (λ e. if_selected (same e.address address) (locked_by_pos e.locked_balances))
        (user_entry c) (sort user_comparator es)
      ∙ total-sort user_comparator (locks is_for) es

  staked_for-sorted_stakers :
      (es : List StakerBuffer) → staked_for address (sorted_stakers c es) ≡ total (stakes is_for) es
  unfolding is_for
  staked_for-sorted_stakers es =
      total-map (λ e. if_selected (same e.address address) (staked_by e.stakes e.pending_unlocks))
        (staker_entry c) (sort (compare_on (λ e. e.address)) es)
      ∙ total-sort (compare_on (λ e. e.address)) (stakes is_for) es

-- What is found as the reserve account has its address.
reserve_selected :
    (c : Crypto) (p : Bytes → Bool) (accounts : List Account)
    → measured
        (λ a. if_selected (p (address_legacy_reserve c)) (staked a))
        (find (is_reserve c) accounts)
      ≡ measured (staked_if p) (find (is_reserve c) accounts)
reserve_selected c p [] = refl
reserve_selected c p (a ∷ accounts) = elim (Bool-cases (is_reserve c a)) [
  | inl reserve ↦ rw reserve (ap (λ bytes. if_selected (p bytes) (staked a)) (same→eq _ _ reserve))
  | inr other ↦ rw other (reserve_selected c p accounts)
]

module _ (r : Run) (s : IsReadable r) (g : Globals) where
  final : Collected
  final = with_reserve r s (legacy_amount r s g)

  locks-final :
      (p : Bytes → Bool)
      → HasDistinctAddresses s.all
      → total (locks p) final.users ≡ total (stakes p) final.stakers
  unfolding final
  locks-final p distinct = omega (
    arith,
    total-append (locks p) (pushed r s).users
        (create_legacy_reserve_account r.c (reserve r s) (legacy_amount r s g) r.token_id ∷ []),
    locks-collected r.c s.keys r.height r.token_id p (accounts r s)
        (record { auth = []; users = []; validators = []; stakers = [] }),
    stakes-collected r.c s.keys r.height r.token_id p (accounts r s)
        (record { auth = []; users = []; validators = []; stakers = [] }),
    locks-create_legacy_reserve_account p r.c (reserve r s) (legacy_amount r s g) r.token_id,
    total-other r.c (staked_if p) (accounts r s) (keep-HasDistinctAddresses _ s.all distinct),
    reserve_selected r.c p (accounts r s),
  )

  -- On a snapshot that can be read, and in which no two accounts have one address, `init` returns assets
  -- with a token store and a PoS store that agree: for each address, what the PoS module locks in the
  -- user substore is what the stakers have staked there, and have still to unlock.
  pub init-locks_stakes :
      HasDistinctAddresses s.all
      → (address : Text)
      → (assets : List GenesisAssetEntry) × (g' : Globals) × (store : TokenStoreEntry)
        × (pos : PosStoreEntry) × (init_run r g ≡ (ok assets, g'))
        × (token_store assets ≡ some store)
        × (pos_store assets ≡ some pos)
        × (locked_for address store.user_substore ≡ staked_for address pos.stakers)
  unfolding final
  init-locks_stakes distinct address = (
    _,
    _,
    final_store r s g,
    _,
    init_lem r s g _ (legacy_amount r s g) (
        get_legacy_module_entry-ok r.codec.unregistered_addresses s.encoded (reserve r s)
          s.unregistered s.unregistered_decoded),
    token_store-assets_of r.c (legacy_entries s.unregistered) final
        (supply r s g (legacy_amount r s g)) s.genesis_data,
    pos_store-assets_of r.c (legacy_entries s.unregistered) final
        (supply r s g (legacy_amount r s g)) s.genesis_data,
    locked_for-sorted_user_substore r.c address final.users
        ∙ locks-final (is_for r.c address) distinct
        ∙ sym (staked_for-sorted_stakers r.c address final.stakers),
  )
