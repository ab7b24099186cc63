-- ===== src/CreateAsset/Unique.antt =====
-- The entries that the loop of src/createAsset.ts pushes have different addresses.
use lisk_migrator.Common.{
  ℕ, ◌+◌, ◌≤◌, ◌≡◌, ◌≢◌, refl, sym, ◌∙◌, List, [], ◌∷◌, total, measured, total-append, arith, Text,
  Bytes, same, same→eq, same_iff, if◌then◌else◌, true, not, ◌||◌, Bool-cases, inl, inr,
}
use lisk_migrator.Common.Predicates.{All}
use lisk_migrator.Assets.Auth.{get_auth_module_entry_buffer}
use lisk_migrator.Assets.Pos.{create_stakers_array_entry, create_validators_array_entry, is_empty}
use lisk_migrator.Assets.Token.{create_user_substore_array_entry}
use lisk_migrator.Constants.{address_legacy_reserve, empty_string}
use lisk_migrator.CreateAsset.{Collected, collect, is_reserve}
use lisk_migrator.CreateAsset.Collect.{HasDistinctAddresses, collected, other, push-total}
use lisk_migrator.Crypto.{Crypto}
use lisk_migrator.Types.{Account}

module _ (b : Bytes) where
  -- One at an address.
  abbrev pub one_at : Bytes → ℕ
  one_at address = if same address b then 1 else 0

  abbrev pub account_at : Account → ℕ
  account_at a = one_at a.address.bytes

  one_at_ne : (address : Bytes) → address ≢ b → one_at address ≡ 0
  one_at_ne address h = elim (Bool-cases (same address b)) [
    | inl e ↦ absurd (h (same→eq _ _ e))
    | inr ne ↦ rw ne refl
  ]

  one_at_le : (address : Bytes) → one_at address ≤ 1
  one_at_le address = ground arith

  none_at :
      (a : Account) (rest : List Account)
      → same a.address.bytes b ≡ true
      → All (λ x. x.address.bytes ≢ a.address.bytes) rest
      → total account_at rest ≡ 0
  none_at a [] e h = refl
  none_at a (x ∷ rest) e h =
      omega
        (arith, one_at_ne x.address.bytes (λ k. h.0 (cc (k, same→eq _ _ e))), none_at a rest e h.1)

  pub accounts_once :
      (accounts : List Account) → HasDistinctAddresses accounts → total account_at accounts ≤ 1
  accounts_once [] h = omega arith
  accounts_once (a ∷ rest) h = elim (Bool-cases (same a.address.bytes b)) [
    | inl e ↦ rw e (omega (arith, none_at a rest e h.0))
    | inr ne ↦ rw ne (omega (arith, accounts_once rest h.1))
  ]

  -- The entries of one account.
  user_once :
      (c : Crypto) (a : Account) (token_id : Text)
      → measured (λ e. one_at e.address) (create_user_substore_array_entry c a token_id)
        ≡ other c account_at a
  unfolding create_user_substore_array_entry
  user_once c a token_id = elim (Bool-cases (same (address_legacy_reserve c) a.address.bytes)) [
    | inl reserve ↦ rw reserve refl
    | inr left ↦ rw left refl
  ]

  validator_once :
      (a : Account) (keys : List (Text × Text)) (height : ℕ) (token_id : Text)
      → measured (λ e. one_at e.address) (create_validators_array_entry a keys height token_id)
        ≤ account_at a
  unfolding create_validators_array_entry
  validator_once a keys height token_id =
      elim (Bool-cases (not (same a.dpos.delegate.username empty_string))) [
        | inl named ↦ rw named (omega arith)
        | inr unnamed ↦ rw unnamed (omega arith)
      ]

  staker_once :
      (c : Crypto) (a : Account) (token_id : Text)
      → measured (λ e. one_at e.address) (create_stakers_array_entry c a token_id) ≤ account_at a
  unfolding create_stakers_array_entry
  staker_once c a token_id =
      elim (Bool-cases (not (is_empty a.dpos.sent_votes) || not (is_empty a.dpos.unlocking))) [
        | inl has ↦ rw has (omega arith)
        | inr has_none ↦ rw has_none (omega arith)
      ]

  module _ (c : Crypto) (keys : List (Text × Text)) (height : ℕ) (token_id : Text) where
    pub auth-collected :
        (accounts : List Account) (out : Collected)
        → total (λ e. one_at e.address) (collected c keys height token_id accounts out).auth
          ≡ total (λ e. one_at e.address) out.auth + total account_at accounts
    unfolding get_auth_module_entry_buffer
    auth-collected [] out = omega arith
    auth-collected (a ∷ accounts) out = omega (
      arith,
      auth-collected accounts (collect c keys height token_id a out),
      total-append (λ e. one_at e.address) out.auth (get_auth_module_entry_buffer a ∷ []),
    )

    pub users-collected :
        (accounts : List Account) (out : Collected)
        → total (λ e. one_at e.address) (collected c keys height token_id accounts out).users
          ≡ total (λ e. one_at e.address) out.users + total (other c account_at) accounts
    users-collected [] out = omega arith
    users-collected (a ∷ accounts) out = omega (
      arith,
      users-collected accounts (collect c keys height token_id a out),
      push-total (λ e. one_at e.address) (create_user_substore_array_entry c a token_id) out.users,
      user_once c a token_id,
    )

    pub validators-collected :
        (accounts : List Account) (out : Collected)
        → total (λ e. one_at e.address) (collected c keys height token_id accounts out).validators
          ≤ total (λ e. one_at e.address) out.validators + total account_at accounts
    validators-collected [] out = omega arith
    validators-collected (a ∷ accounts) out = omega (
      arith,
      validators-collected accounts (collect c keys height token_id a out),
      push-total (λ e. one_at e.address) (create_validators_array_entry a keys height token_id)
          out.validators,
      validator_once a keys height token_id,
    )

    pub stakers-collected :
        (accounts : List Account) (out : Collected)
        → total (λ e. one_at e.address) (collected c keys height token_id accounts out).stakers
          ≤ total (λ e. one_at e.address) out.stakers + total account_at accounts
    stakers-collected [] out = omega arith
    stakers-collected (a ∷ accounts) out = omega (
      arith,
      stakers-collected accounts (collect c keys height token_id a out),
      push-total (λ e. one_at e.address) (create_stakers_array_entry c a token_id) out.stakers,
      staker_once c a token_id,
    )

  other_le : (c : Crypto) (a : Account) → other c account_at a ≤ account_at a
  other_le c a = elim (Bool-cases (is_reserve c a)) [
    | inl reserve ↦ rw reserve (omega arith)
    | inr left ↦ rw left (omega arith)
  ]

  total-other_le :
      (c : Crypto) (accounts : List Account)
      → total (other c account_at) accounts ≤ total account_at accounts
  total-other_le c [] = omega arith
  total-other_le c (a ∷ accounts) = omega (arith, other_le c a, total-other_le c accounts)

  off_reserve :
      (c : Crypto) (a : Account)
      → same (address_legacy_reserve c) b ≡ true
      → other c account_at a ≡ 0
  off_reserve c a e = elim (Bool-cases (is_reserve c a)) [
    | inl reserve ↦ rw reserve refl
    | inr left ↦ rw left (
        one_at_ne a.address.bytes (λ k. absurd (
          cc (
            left,
            (same_iff (address_legacy_reserve c) a.address.bytes).1 (same→eq _ _ e ∙ sym k),
          ))))
  ]

  all_off_reserve :
      (c : Crypto) (accounts : List Account)
      → same (address_legacy_reserve c) b ≡ true
      → total (other c account_at) accounts ≡ 0
  all_off_reserve c [] e = refl
  all_off_reserve c (a ∷ accounts) e =
      omega (arith, off_reserve c a e, all_off_reserve c accounts e)

  -- The reserve account's own entry is the only one at its address.
  pub reserve_once :
      (c : Crypto) (accounts : List Account)
      → HasDistinctAddresses accounts
      → total (other c account_at) accounts + one_at (address_legacy_reserve c) ≤ 1
  reserve_once c accounts h = elim (Bool-cases (same (address_legacy_reserve c) b)) [
    | inl e ↦ rw e (omega (arith, all_off_reserve c accounts e))
    | inr ne ↦ rw ne (omega (arith, total-other_le c accounts, accounts_once accounts h))
  ]
