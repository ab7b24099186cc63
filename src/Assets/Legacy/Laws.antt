-- ===== src/Assets/Legacy/Laws.antt =====
-- The legacy entries, their order and the reserve amount.
use mathlib.Core.List.{Perm, map-map}
use mathlib.Core.List.Perm
use mathlib.Core.Path.{subst}
use lisk_migrator.Common.{
  ℕ, ◌+◌, ◌≡◌, refl, ◌∙◌, List, [], ◌∷◌, map, Option, total, total-map, arith, Bytes, Result, ok,
}
use lisk_migrator.Common.Predicates.{All, IsByte}
use lisk_migrator.Common.Sort.{sort, compare_on}
use lisk_migrator.Common.Sort.Laws.{
  IsSorted, IsSorted-map, sort-IsSorted, sort-perm, sort-All, compare_on-IsComparator, total-sort,
}
use lisk_migrator.Assets.Legacy.{
  reserve_balance, legacy_accounts, with_hex_address, get_legacy_module_entry,
}
use lisk_migrator.Assets.Token.Laws.{amount_of, amount_of-decimal}
use lisk_migrator.Constants.{module_name_legacy}
use lisk_migrator.Encoding.Decimal.{decimal}
use lisk_migrator.Encoding.Hex.{hex, compare_bytes-hex}
use lisk_migrator.Types.{
  Account, UnregisteredAccount, LegacyStoreEntry, LegacyStoreEntryBuffer, legacy_data,
  genesis_legacy_store_schema,
}

abbrev buffer_entry : UnregisteredAccount → LegacyStoreEntryBuffer
buffer_entry u = record { address = u.address; balance = decimal u.balance }

-- The entry that an unregistered address should have.
abbrev pub printed : UnregisteredAccount → LegacyStoreEntry
printed u = record { address = hex u.address; balance = decimal u.balance }

legacy_accounts_lem :
    (us : List UnregisteredAccount) (n : ℕ)
    → legacy_accounts us n ≡ (n + total (λ u. u.balance) us, map buffer_entry us)
unfolding legacy_accounts
legacy_accounts_lem [] n = ground arith
legacy_accounts_lem (u ∷ us) n = ground (arith, legacy_accounts_lem us (n + u.balance))

abbrev by_address : List LegacyStoreEntryBuffer → List LegacyStoreEntryBuffer
by_address = sort (compare_on (λ e. e.address))

balances-total :
    (us : List UnregisteredAccount)
    → total (λ e. amount_of e.balance) (map buffer_entry us) ≡ total (λ u. u.balance) us
balances-total [] = refl
balances-total (u ∷ us) = omega (arith, amount_of-decimal u.balance, balances-total us)

entries-IsByte :
    (us : List UnregisteredAccount)
    → All (λ u. All IsByte u.address) us
    → All (λ e. All IsByte e.address) (map buffer_entry us)
entries-IsByte [] h = tt
entries-IsByte (u ∷ us) h = (h.0, entries-IsByte us h.1)

entries-perm :
    (us : List UnregisteredAccount)
    → Perm (map with_hex_address (by_address (map buffer_entry us))) (map printed us)
entries-perm us =
    subst (λ es. Perm (map with_hex_address (by_address (map buffer_entry us))) es)
      (map-map with_hex_address buffer_entry us)
      (Perm.map with_hex_address (sort-perm (compare_on (λ e. e.address)) (map buffer_entry us)))

entries-IsSorted :
    (us : List UnregisteredAccount)
    → All (λ u. All IsByte u.address) us
    → IsSorted
        (compare_on (λ e. e.address))
        (map with_hex_address (by_address (map buffer_entry us)))
entries-IsSorted us h =
    IsSorted-map (compare_on (λ e. e.address)) (compare_on (λ e. e.address)) with_hex_address
      (λ e. All IsByte e.address) (λ a b pa pb. compare_bytes-hex a.address b.address pa pb)
      (by_address (map buffer_entry us))
      (sort-All (compare_on (λ e. e.address)) (λ e. All IsByte e.address) (map buffer_entry us)
        (entries-IsByte us h))
      (sort-IsSorted (compare_on (λ e. e.address)) (compare_on-IsComparator (λ e. e.address))
        (map buffer_entry us))

entries-total :
    (us : List UnregisteredAccount)
    → total (λ e. amount_of e.balance) (map with_hex_address (by_address (map buffer_entry us)))
      ≡ total (λ u. u.balance) us
entries-total us =
    total-map (λ e. amount_of e.balance) with_hex_address (by_address (map buffer_entry us))
    ∙ total-sort (compare_on (λ e. e.address)) (λ e. amount_of e.balance) (map buffer_entry us)
    ∙ balances-total us

-- The entries of the legacy asset.
abbrev pub legacy_entries : List UnregisteredAccount → List LegacyStoreEntry
legacy_entries us = map with_hex_address (by_address (map buffer_entry us))

pub get_legacy_module_entry-ok :
    (decode : Bytes → Result (List UnregisteredAccount)) (encoded : Bytes)
    (reserve : Option Account) (us : List UnregisteredAccount)
    → decode encoded ≡ ok us
    → get_legacy_module_entry decode encoded reserve ≡ (
      ok (record {
        module_name = module_name_legacy;
        asset_data = legacy_data (legacy_entries us);
        schema = genesis_legacy_store_schema;
      }),
      total (λ e. amount_of e.balance) (legacy_entries us) + reserve_balance reserve,
    )
unfolding get_legacy_module_entry
get_legacy_module_entry-ok decode encoded reserve us h =
    ground (arith, legacy_accounts_lem us (reserve_balance reserve), entries-total us)

-- Where the codec decodes the unregistered addresses, which are bytes, the legacy asset lists them, with
-- its address in hex and its balance in decimal, in the order of the hex addresses. The reserve
-- amount is left at the sum of the listed balances and the balance of the reserve account, which
-- is 0 if there is no such account.
pub get_legacy_module_entry_lem :
    (decode : Bytes → Result (List UnregisteredAccount)) (encoded : Bytes)
    (reserve : Option Account) (us : List UnregisteredAccount)
    → decode encoded ≡ ok us
    → All (λ u. All IsByte u.address) us
    → (entries : List LegacyStoreEntry) × (get_legacy_module_entry decode encoded reserve ≡ (
      ok (record {
        module_name = module_name_legacy;
        asset_data = legacy_data entries;
        schema = genesis_legacy_store_schema;
      }),
      total (λ e. amount_of e.balance) entries + reserve_balance reserve,
    ))
      × Perm entries (map printed us)
      × IsSorted (compare_on (λ e. e.address)) entries
get_legacy_module_entry_lem decode encoded reserve us h bytes = (
  legacy_entries us,
  get_legacy_module_entry-ok decode encoded reserve us h,
  entries-perm us,
  entries-IsSorted us bytes,
)
