-- ===== src/CreateAsset/Order.antt =====
-- The order of the assets that src/createAsset.ts returns, and of the entries in their stores.
use mathlib.Core.List.{Perm}
use lisk_migrator.Common.{
  ◌≡◌, ◌≢◌, subst, refl, Ordering, ℕ, List, [], ◌∷◌, map, same, same_iff, arith, false,
}
use lisk_migrator.Common.Sort.{sort, compare_bytes, compare_on}
use lisk_migrator.Common.Sort.Laws.{
  IsComparator, IsSorted, sort-perm, sort-IsSorted, compare_on-IsComparator, compare_bytes_trans,
  compare_bytes_turn, compare_bytes-eq, compare_bytes_refl,
}
use lisk_migrator.CreateAsset.{
  Collected, assets_of, user_comparator, user_entry, auth_entry, staker_entry, validator_entry,
}
use lisk_migrator.CreateAsset.Supply.{legacy_module_asset, assets_of_lem}
use lisk_migrator.Assets.Auth.{get_auth_module_entry}
use lisk_migrator.Assets.Interoperability.{get_interop_module_entry}
use lisk_migrator.Assets.Pos.{get_pos_module_entry}
use lisk_migrator.Assets.Token.{get_token_module_entry}
use lisk_migrator.Crypto.{Crypto}
use lisk_migrator.Types.{
  UserSubstoreEntryBuffer, AuthStoreEntryBuffer, ValidatorEntryBuffer, StakerBuffer,
  LegacyStoreEntry, SupplySubstoreEntry, GenesisDataEntry,
}

equal_addresses :
    (a b : UserSubstoreEntryBuffer)
    → a.address ≡ b.address
    → user_comparator a b ≡ compare_bytes a.token_id b.token_id
equal_addresses a b h = rw ((same_iff a.address b.address).1 h) refl

other_addresses :
    (a b : UserSubstoreEntryBuffer)
    → same a.address b.address ≡ false
    → user_comparator a b ≡ compare_bytes a.address b.address
other_addresses a b h = rw h refl

compare_bytes_flip :
    (s t : List ℕ) → compare_bytes s t ≡ Ordering.lt → compare_bytes t s ≡ Ordering.gt
unfolding compare_bytes
compare_bytes_flip [] [] h = ground arith
compare_bytes_flip [] (b ∷ t) h = refl
compare_bytes_flip (a ∷ s) [] h = ground arith
compare_bytes_flip (a ∷ s) (b ∷ t) h = ground (arith, compare_bytes_flip s t)

user_comparator_turn :
    (a b : UserSubstoreEntryBuffer)
    → user_comparator a b ≡ Ordering.gt
    → user_comparator b a ≢ Ordering.gt
user_comparator_turn a b h = grind (
  arith,
  same_iff a.address b.address,
  same_iff b.address a.address,
  compare_bytes_turn a.address b.address,
  compare_bytes_turn a.token_id b.token_id,
)

user_comparator_trans :
    (a b c : UserSubstoreEntryBuffer)
    → user_comparator a b ≢ Ordering.gt
    → user_comparator b c ≢ Ordering.gt
    → user_comparator a c ≢ Ordering.gt
user_comparator_trans a b c h k = grind (
  arith,
  same_iff a.address b.address,
  same_iff b.address c.address,
  same_iff a.address c.address,
  compare_bytes_trans a.address b.address c.address,
  compare_bytes_trans a.token_id b.token_id c.token_id,
  compare_bytes_flip a.address b.address,
  compare_bytes_flip b.address c.address,
  compare_bytes-eq a.address b.address,
  compare_bytes-eq b.address c.address,
  compare_bytes-eq a.address c.address,
)

user_comparator-IsComparator : IsComparator user_comparator
user_comparator-IsComparator = record { turn = user_comparator_turn; trans = user_comparator_trans }

-- By address, and then by token.
abbrev pub user_order : UserSubstoreEntryBuffer → UserSubstoreEntryBuffer → Ordering
user_order a b = elim (compare_bytes a.address b.address) [
  | Ordering.eq ↦ compare_bytes a.token_id b.token_id
  | Ordering.lt ↦ Ordering.lt
  | Ordering.gt ↦ Ordering.gt
]

user_comparator-user_order : (a b : UserSubstoreEntryBuffer) → user_comparator a b ≡ user_order a b
user_comparator-user_order a b = grind (
  arith,
  same_iff a.address b.address,
  compare_bytes-eq a.address b.address,
  compare_bytes_refl a.address,
)

pub sort-IsSorted_users :
    (es : List UserSubstoreEntryBuffer) → IsSorted user_order (sort user_comparator es)
sort-IsSorted_users es =
    subst (λ cmp. IsSorted cmp (sort user_comparator es))
      (λ i a b. user_comparator-user_order a b i)
      (sort-IsSorted user_comparator user_comparator-IsComparator es)

-- A list is the other one, in ascending order.
abbrev pub IsArranged : {A : Type 0} → (A → A → Ordering) → List A → List A → Type 0
IsArranged cmp ys xs = Perm ys xs × IsSorted cmp ys

pub sort-IsArranged :
    {A : Type 0} (cmp : A → A → Ordering)
    → IsComparator cmp
    → (xs : List A) → IsArranged cmp (sort cmp xs) xs
sort-IsArranged cmp c xs = (sort-perm cmp xs, sort-IsSorted cmp c xs)

-- The assets come in the order of their modules' names, and each store has what was collected for it:
-- the users in the order of their addresses and then of their tokens, the others in the order of
-- their addresses, as bytes.
assets_of-IsArranged :
    (c : Crypto) (entries : List LegacyStoreEntry) (out : Collected) (s : SupplySubstoreEntry)
    (d : GenesisDataEntry)
    → (auth : List AuthStoreEntryBuffer) × (users : List UserSubstoreEntryBuffer)
      × (validators : List ValidatorEntryBuffer) × (stakers : List StakerBuffer) × IsArranged
          (compare_on (λ e. e.address))
          auth
          out.auth
      × IsArranged user_order users out.users
      × IsArranged (compare_on (λ e. e.address)) validators out.validators
      × IsArranged (compare_on (λ e. e.address)) stakers out.stakers
      × (assets_of c (legacy_module_asset entries) out s d
          ≡ get_auth_module_entry (map (auth_entry c) auth)
            ∷ get_interop_module_entry
            ∷ legacy_module_asset entries
            ∷ get_pos_module_entry
                (map (validator_entry c) validators)
                (map (staker_entry c) stakers)
                d
            ∷ get_token_module_entry (map (user_entry c) users) (s ∷ []) [] []
            ∷ [])
assets_of-IsArranged c entries out s d = (
  _,
  _,
  _,
  _,
  sort-IsArranged _ (compare_on-IsComparator (λ e. e.address)) out.auth,
  (sort-perm user_comparator out.users, sort-IsSorted_users out.users),
  sort-IsArranged _ (compare_on-IsComparator (λ e. e.address)) out.validators,
  sort-IsArranged _ (compare_on-IsComparator (λ e. e.address)) out.stakers,
  assets_of_lem c entries out s d,
)
