-- ===== src/Assets/Token/Laws.antt =====
-- What the token entries hold, read back from their decimal texts.
use lisk_migrator.Common.{
  ℕ, ◌+◌, ◌≡◌, refl, ap, List, [], ◌∷◌, Option, none, some, total, measured, total-append, arith,
  ltb, Bool-cases, inl, inr, same, if◌then◌else◌, Text, Result, ok, err,
}
use lisk_migrator.Common.Sort.Laws.{total-sort}
use lisk_migrator.Assets.Token.{
  add_votes, add_unlocking, get_locked_balances, create_legacy_reserve_account,
  create_user_substore_array_entry, reserve_locked_balances, reserve_available_balance,
}
use lisk_migrator.Constants.{address_legacy_reserve, module_name_pos}
use lisk_migrator.Crypto.{Crypto}
use lisk_migrator.Encoding.Decimal.{decimal, big_int, big_int-decimal}
use lisk_migrator.Types.{Account, Vote, Unlocking, LockedBalance, UserSubstoreEntryBuffer}

-- The number that a decimal text stands for.
abbrev or_zero : Result ℕ → ℕ
or_zero (ok n) = n
or_zero (err e) = 0

abbrev pub amount_of : Text → ℕ
amount_of s = or_zero (big_int s)

pub amount_of-decimal : (n : ℕ) → amount_of (decimal n) ≡ n
amount_of-decimal n = ap or_zero (big_int-decimal n)

abbrev pub locked : List LockedBalance → ℕ
locked = total (λ b. amount_of b.amount)

-- What an entry of the user substore holds, free and locked.
abbrev pub holding : UserSubstoreEntryBuffer → ℕ
holding e = amount_of e.available_balance + locked e.locked_balances

-- The votes and the pending unlocks of an account.
abbrev pub staked : Account → ℕ
staked a = total (λ v. v.amount) a.dpos.sent_votes + total (λ u. u.amount) a.dpos.unlocking

abbrev pub worth : Account → ℕ
worth a = a.token.balance + staked a

add_votes-total : (n : ℕ) (vs : List Vote) → add_votes n vs ≡ n + total (λ v. v.amount) vs
unfolding add_votes
add_votes-total n [] = omega arith
add_votes-total n (v ∷ vs) = omega (arith, add_votes-total (n + v.amount) vs)

add_unlocking-total :
    (n : ℕ) (us : List Unlocking) → add_unlocking n us ≡ n + total (λ u. u.amount) us
unfolding add_unlocking
add_unlocking-total n [] = omega arith
add_unlocking-total n (u ∷ us) = omega (arith, add_unlocking-total (n + u.amount) us)

amount-staked :
    (a : Account) → add_unlocking (add_votes 0 a.dpos.sent_votes) a.dpos.unlocking ≡ staked a
amount-staked a = omega (
  arith,
  add_unlocking-total (add_votes 0 a.dpos.sent_votes) a.dpos.unlocking,
  add_votes-total 0 a.dpos.sent_votes,
)

-- An account with votes or unlocks locks their sum, in one entry of the PoS module; any other
-- locks nothing.
pub get_locked_balances_lem :
    (a : Account)
    → get_locked_balances a ≡ (
        if ltb 0 (staked a)
        then record { module_name = module_name_pos; amount = decimal (staked a) } ∷ []
        else [])
unfolding get_locked_balances
get_locked_balances_lem a = rw (amount-staked a)

pub locked-get_locked_balances : (a : Account) → locked (get_locked_balances a) ≡ staked a
locked-get_locked_balances a =
    rw (get_locked_balances_lem a) (elim (Bool-cases (ltb 0 (staked a))) [
      | inl some_locked ↦ rw some_locked (rw amount_of-decimal (omega arith))
      | inr nothing ↦ rw nothing (ground arith)
    ])

-- What the reserve account owns in the snapshot; nothing if there is none.
abbrev pub reserve_worth : Option Account → ℕ
reserve_worth = measured worth

reserve_parts :
    (o : Option Account)
    → reserve_available_balance o + locked (reserve_locked_balances o) ≡ reserve_worth o
reserve_parts none = omega arith
reserve_parts (some a) = omega (arith, locked-get_locked_balances a)

-- The entry of the legacy reserve holds, free and locked, what the reserve account owned in the
-- snapshot, if there is one, and the legacy amount.
pub holding-create_legacy_reserve_account :
    (c : Crypto) (o : Option Account) (n : ℕ) (token_id : Text)
    → holding (create_legacy_reserve_account c o n token_id) ≡ reserve_worth o + n
unfolding create_legacy_reserve_account
holding-create_legacy_reserve_account c o n token_id =
    rw (total-sort {A = LockedBalance}, total-append)
      (rw (amount_of-decimal n, amount_of-decimal (reserve_available_balance o))
        (omega (arith, reserve_parts o)))

-- What a user entry holds, if there is one.
abbrev pub holding_of : Option UserSubstoreEntryBuffer → ℕ
holding_of = measured holding

-- The user entry of an account holds, free and locked, exactly what the account owned, its balance, its
-- votes and its pending unlocks; the reserve account gets no such entry.
pub holding_of-create_user_substore_array_entry :
    (c : Crypto) (a : Account) (token_id : Text)
    → holding_of (create_user_substore_array_entry c a token_id)
      ≡ (if same (address_legacy_reserve c) a.address.bytes then 0 else worth a)
unfolding create_user_substore_array_entry
holding_of-create_user_substore_array_entry c a token_id =
    elim (Bool-cases (same (address_legacy_reserve c) a.address.bytes)) [
      | inl reserve ↦ rw reserve refl
      | inr other ↦
          rw other (omega (arith, amount_of-decimal a.token.balance, locked-get_locked_balances a))
    ]
