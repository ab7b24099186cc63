-- ===== src/CreateAsset/Arranged.antt =====
-- The order and the addresses of the entries that `init` of src/createAsset.ts returns.
use lisk_migrator.Common.{
  Ordering, ◌+◌, ◌≤◌, ◌≡◌, refl, ap, ◌∙◌, List, [], ◌∷◌, map, total, total-append, arith, Bytes, ok,
}
use lisk_migrator.Common.Sort.{sort, compare_on}
use lisk_migrator.Common.Sort.Laws.{total-sort, sort-perm, compare_on-IsComparator}
use lisk_migrator.Assets.Auth.{get_auth_module_entry}
use lisk_migrator.Assets.Interoperability.{get_interop_module_entry}
use lisk_migrator.Assets.Legacy.Laws.{legacy_entries, get_legacy_module_entry-ok}
use lisk_migrator.Assets.Pos.{get_pos_module_entry}
use lisk_migrator.Assets.Token.{create_legacy_reserve_account, get_token_module_entry}
use lisk_migrator.Assets.Token.Laws.{worth}
use lisk_migrator.Constants.{address_legacy_reserve}
use lisk_migrator.CreateAsset.{
  Collected, user_comparator, auth_entry, validator_entry, staker_entry, user_entry,
}
use lisk_migrator.CreateAsset.Collect.{HasDistinctAddresses, keep-HasDistinctAddresses}
use lisk_migrator.CreateAsset.Monad.{Globals}
use lisk_migrator.CreateAsset.Order.{IsArranged, user_order, sort-IsArranged, sort-IsSorted_users}
use lisk_migrator.CreateAsset.Supply.{legacy_module_asset, assets_of_lem, legacy_amount}
use lisk_migrator.CreateAsset.Supply.Init.{
  Run, IsReadable, init_run, init_lem, accounts, reserve, supply, pushed, with_reserve,
}
use lisk_migrator.CreateAsset.Unique.{
  one_at, account_at, accounts_once, auth-collected, users-collected, validators-collected,
  stakers-collected, reserve_once,
}
use lisk_migrator.Types.{
  AuthStoreEntryBuffer, UserSubstoreEntryBuffer, ValidatorEntryBuffer, StakerBuffer,
}

-- No address has two of the entries.
abbrev pub IsUnique : {A : Type 0} → (A → Bytes) → List A → Type 0
IsUnique address es = (b : Bytes) → total (λ e. one_at b (address e)) es ≤ 1

-- Sorted, they still have not.
sort-IsUnique :
    {A : Type 0} (cmp : A → A → Ordering) (address : A → Bytes) (es : List A)
    → IsUnique address es
    → IsUnique address (sort cmp es)
sort-IsUnique cmp address es h b = omega (arith, total-sort cmp (λ e. one_at b (address e)) es, h b)

module _ (r : Run) (s : IsReadable r) (g : Globals) where
  abbrev pub final : Collected
  final = with_reserve r s (legacy_amount r s g)

  abbrev globals_after : Globals
  globals_after = record {
    total_lsk_supply = g.total_lsk_supply + total worth (accounts r s);
    legacy_reserve_amount = legacy_amount r s g;
  }

  module _ (distinct : HasDistinctAddresses s.all) where
    once : (b : Bytes) → total (account_at b) (accounts r s) ≤ 1
    once b = accounts_once b (accounts r s) (keep-HasDistinctAddresses _ s.all distinct)

    auth-IsUnique : IsUnique (λ e. e.address) final.auth
    auth-IsUnique b = omega (
      arith,
      auth-collected b r.c s.keys r.height r.token_id (accounts r s)
          (record { auth = []; users = []; validators = []; stakers = [] }),
      once b,
    )

    reserve-address :
        (b : Bytes)
        → one_at b
            (create_legacy_reserve_account r.c
              (reserve r s)
              (legacy_amount r s g)
              r.token_id).address
          ≡ one_at b (address_legacy_reserve r.c)
    unfolding create_legacy_reserve_account
    reserve-address b = refl

    users-IsUnique : IsUnique (λ e. e.address) final.users
    users-IsUnique b = omega (
      arith,
      total-append (λ e. one_at b e.address) (pushed r s).users
          (create_legacy_reserve_account r.c (reserve r s) (legacy_amount r s g) r.token_id ∷ []),
      users-collected b r.c s.keys r.height r.token_id (accounts r s)
          (record { auth = []; users = []; validators = []; stakers = [] }),
      reserve-address b,
      reserve_once b r.c (accounts r s) (keep-HasDistinctAddresses _ s.all distinct),
    )

    validators-IsUnique : IsUnique (λ e. e.address) final.validators
    validators-IsUnique b = omega (
      arith,
      validators-collected b r.c s.keys r.height r.token_id (accounts r s)
          (record { auth = []; users = []; validators = []; stakers = [] }),
      once b,
    )

    stakers-IsUnique : IsUnique (λ e. e.address) final.stakers
    stakers-IsUnique b = omega (
      arith,
      stakers-collected b r.c s.keys r.height r.token_id (accounts r s)
          (record { auth = []; users = []; validators = []; stakers = [] }),
      once b,
    )

    -- On a snapshot that can be read, and in which no two accounts have one address, `init` returns one
    -- asset for each module, in the order of the modules' names. The entries of the auth, token and PoS
    -- assets are those that were collected, in the ascending order of their addresses as bytes, and no
    -- two entries of a list have one address.
    pub init-IsArranged :
        (auth : List AuthStoreEntryBuffer) × (users : List UserSubstoreEntryBuffer)
        × (validators : List ValidatorEntryBuffer) × (stakers : List StakerBuffer) × (g' : Globals)
        × (IsArranged (compare_on (λ e. e.address)) auth final.auth
            × IsUnique (λ e. e.address) auth)
        × (IsArranged user_order users final.users × IsUnique (λ e. e.address) users)
        × (IsArranged (compare_on (λ e. e.address)) validators final.validators
            × IsUnique (λ e. e.address) validators)
        × (IsArranged (compare_on (λ e. e.address)) stakers final.stakers
            × IsUnique (λ e. e.address) stakers)
        × (init_run r g ≡ (
          ok (
              get_auth_module_entry (map (auth_entry r.c) auth)
              ∷ get_interop_module_entry
              ∷ legacy_module_asset (legacy_entries s.unregistered)
              ∷ get_pos_module_entry
                  (map (validator_entry r.c) validators)
                  (map (staker_entry r.c) stakers)
                  s.genesis_data
              ∷ get_token_module_entry
                  (map (user_entry r.c) users)
                  (supply r s g (legacy_amount r s g) ∷ [])
                  []
                  []
              ∷ []),
          g',
        ))
    init-IsArranged = (
      _,
      _,
      _,
      _,
      _,
      (
        sort-IsArranged _ (compare_on-IsComparator (λ e. e.address)) final.auth,
        sort-IsUnique _ _ final.auth auth-IsUnique,
      ),
      (
        (sort-perm user_comparator final.users, sort-IsSorted_users final.users),
        sort-IsUnique _ _ final.users users-IsUnique,
      ),
      (
        sort-IsArranged _ (compare_on-IsComparator (λ e. e.address)) final.validators,
        sort-IsUnique _ _ final.validators validators-IsUnique,
      ),
      (
        sort-IsArranged _ (compare_on-IsComparator (λ e. e.address)) final.stakers,
        sort-IsUnique _ _ final.stakers stakers-IsUnique,
      ),
      init_lem r s g _ (legacy_amount r s g) (
            get_legacy_module_entry-ok r.codec.unregistered_addresses s.encoded (reserve r s)
              s.unregistered s.unregistered_decoded)
          ∙ ap (λ assets. (ok assets, globals_after))
              (assets_of_lem r.c (legacy_entries s.unregistered) final
                (supply r s g (legacy_amount r s g)) s.genesis_data),
    )
