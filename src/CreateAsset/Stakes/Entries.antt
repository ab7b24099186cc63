-- ===== src/CreateAsset/Stakes/Entries.antt =====
-- What the PoS module locks in a user entry of src/assets/token.ts, and what a staker entry of
-- src/assets/pos.ts stakes and unstakes.
use lisk_migrator.Common.{
  ℕ, ◌+◌, ◌≡◌, refl, sym, ap, ◌∙◌, List, [], ◌∷◌, ◌++◌, total, measured, total-append, total-map,
  Option, none, some, arith, Text, Bytes, same, map, ltb, if◌then◌else◌, Bool, true, false, not,
  ◌||◌, Bool-cases, inl, inr,
}
use lisk_migrator.Common.Sort.{sort, compare_on}
use lisk_migrator.Common.Sort.Laws.{total-sort}
use lisk_migrator.Assets.Pos.{create_stakers_array_entry, get_stakes, stake_of, unlock_of, is_empty}
use lisk_migrator.Assets.Token.{
  get_locked_balances, create_legacy_reserve_account, create_user_substore_array_entry,
  reserve_locked_balances,
}
use lisk_migrator.Assets.Token.Laws.{amount_of, amount_of-decimal, staked, get_locked_balances_lem}
use lisk_migrator.Constants.{module_name_pos, module_name_legacy, address_legacy_reserve}
use lisk_migrator.CreateAsset.Collect.{other}
use lisk_migrator.Crypto.{Crypto}
use lisk_migrator.Encoding.Decimal.{decimal}
use lisk_migrator.Types.{
  Unlocking, Account, Vote, LockedBalance, UserSubstoreEntryBuffer, StakerBuffer, Stake,
  PendingUnlock,
}

-- What the PoS module locks.
abbrev pub pos_amount : LockedBalance → ℕ
pos_amount b = if same b.module_name module_name_pos then amount_of b.amount else 0

abbrev pub locked_by_pos : List LockedBalance → ℕ
locked_by_pos = total (λ b. if same b.module_name module_name_pos then amount_of b.amount else 0)

-- What is staked, and what is to be unlocked.
abbrev pub staked_by : List Stake → List PendingUnlock → ℕ
staked_by ss us = total (λ s. s.amount) ss + total (λ u. u.amount) us

-- Of a selection of the addresses.
abbrev pub if_selected : Bool → ℕ → ℕ
if_selected b n = if b then n else 0

module _ (p : Bytes → Bool) where
  abbrev pub locks : UserSubstoreEntryBuffer → ℕ
  locks e = if_selected (p e.address) (locked_by_pos e.locked_balances)

  abbrev pub stakes : StakerBuffer → ℕ
  stakes e = if_selected (p e.address) (staked_by e.stakes e.pending_unlocks)

  abbrev pub staked_if : Account → ℕ
  staked_if a = if_selected (p a.address.bytes) (staked a)

  pos_name :
      (n : Text)
      → locked_by_pos (record { module_name = module_name_pos; amount = n } ∷ []) ≡ amount_of n
  unfolding same
  pos_name n = omega arith

  legacy_name :
      (n : Text) → locked_by_pos (record { module_name = module_name_legacy; amount = n } ∷ []) ≡ 0
  unfolding same
  legacy_name n = omega arith

  locked_by_pos-get_locked_balances :
      (a : Account) → locked_by_pos (get_locked_balances a) ≡ staked a
  locked_by_pos-get_locked_balances a =
      rw (get_locked_balances_lem a) (elim (Bool-cases (ltb 0 (staked a))) [
        | inl some_locked ↦
            rw some_locked (pos_name (decimal (staked a)) ∙ amount_of-decimal (staked a))
        | inr nothing ↦ rw nothing (ground arith)
      ])

  pub locks-create_user_substore_array_entry :
      (c : Crypto) (a : Account) (token_id : Text)
      → measured locks (create_user_substore_array_entry c a token_id) ≡ other c staked_if a
  unfolding create_user_substore_array_entry
  locks-create_user_substore_array_entry c a token_id =
      elim (Bool-cases (same (address_legacy_reserve c) a.address.bytes)) [
        | inl reserve ↦ rw reserve refl
        | inr left ↦
            rw left (ap (if_selected (p a.address.bytes)) (locked_by_pos-get_locked_balances a))
      ]

  locked_of_reserve :
      (o : Option Account) → locked_by_pos (reserve_locked_balances o) ≡ measured staked o
  locked_of_reserve none = refl
  locked_of_reserve (some a) = locked_by_pos-get_locked_balances a

  selected_reserve :
      (b : Bool) (o : Option Account)
      → if_selected b (measured staked o) ≡ measured (λ a. if_selected b (staked a)) o
  selected_reserve b (some a) = refl
  selected_reserve true none = refl
  selected_reserve false none = refl

  staked_by-stakes :
      (c : Crypto) (a : Account) (token_id : Text)
      → staked_by (get_stakes c a token_id) (map (unlock_of c) a.dpos.unlocking) ≡ staked a
  unfolding get_stakes
  staked_by-stakes c a token_id = omega (
    arith,
    total-map (λ s. s.amount) (stake_of c token_id)
        (sort (compare_on (λ v. v.delegate_address)) a.dpos.sent_votes),
    total-sort (compare_on (λ v. v.delegate_address)) (λ v. v.amount) a.dpos.sent_votes,
    total-map (λ u. u.amount) (unlock_of c) a.dpos.unlocking,
  )

  nothing_staked :
      (vs : List Vote) (us : List Unlocking)
      → (not (is_empty vs) || not (is_empty us)) ≡ false
      → total (λ v. v.amount) vs + total (λ u. u.amount) us ≡ 0
  nothing_staked [] [] h = refl
  nothing_staked [] (u ∷ us) h = absurd (cc)
  nothing_staked (v ∷ vs) us h = absurd (cc)

  if_selected_zero : (b : Bool) → if_selected b 0 ≡ 0
  if_selected_zero true = refl
  if_selected_zero false = refl

  pub stakes-create_stakers_array_entry :
      (c : Crypto) (a : Account) (token_id : Text)
      → measured stakes (create_stakers_array_entry c a token_id) ≡ staked_if a
  unfolding create_stakers_array_entry get_stakes
  stakes-create_stakers_array_entry c a token_id =
      elim (Bool-cases (not (is_empty a.dpos.sent_votes) || not (is_empty a.dpos.unlocking))) [
        | inl has ↦ rw has (ap (if_selected (p a.address.bytes)) (staked_by-stakes c a token_id))
        | inr has_none ↦ rw has_none (
            sym (
              ap (if_selected (p a.address.bytes))
                (nothing_staked a.dpos.sent_votes a.dpos.unlocking has_none)
              ∙ if_selected_zero (p a.address.bytes)))
      ]

  locked_by_pos-reserve :
      (o : Option Account) (n : ℕ)
      → locked_by_pos (
          sort (compare_on (λ b. b.module_name)) (
            reserve_locked_balances o
            ++ (record { module_name = module_name_legacy; amount = decimal n } ∷ [])))
        ≡ measured staked o
  locked_by_pos-reserve o n = omega (
    arith,
    total-sort (compare_on (λ b. b.module_name)) pos_amount (
        reserve_locked_balances o
        ++ (record { module_name = module_name_legacy; amount = decimal n } ∷ [])),
    total-append pos_amount (reserve_locked_balances o)
        (record { module_name = module_name_legacy; amount = decimal n } ∷ []),
    legacy_name (decimal n),
    locked_of_reserve o,
  )

  pub locks-create_legacy_reserve_account :
      (c : Crypto) (o : Option Account) (n : ℕ) (token_id : Text)
      → locks (create_legacy_reserve_account c o n token_id)
        ≡ measured (λ a. if_selected (p (address_legacy_reserve c)) (staked a)) o
  unfolding create_legacy_reserve_account
  locks-create_legacy_reserve_account c o n token_id =
      ap (if_selected (p (address_legacy_reserve c))) (locked_by_pos-reserve o n)
      ∙ selected_reserve (p (address_legacy_reserve c)) o
