-- ===== src/Assets/Pos/Bans.antt =====
-- The initial validators of the PoS genesis data, and what the ban flags do to them.
use mathlib.Core.List.{Perm}
use lisk_migrator.Common.{
  ℕ, ◌+◌, ◌*◌, ◌-◌, ◌/◌, ◌≤◌, ◌<◌, ◌≡◌, ◌≢◌, refl, ◌∙◌, ap, sym, inl, inr, List, [], ◌∷◌, map, take,
  find, keep, arith, Bool, true, false, Bool-cases, Option, none, some, some-injective, ◌==◌,
  if◌then◌else◌, Bytes, Result, ok, err, vote_weights_unavailable, ==_iff,
}
use lisk_migrator.Common.Dict.{lookup, insert, lookup-insert}
use lisk_migrator.Common.Predicates.{All}
use lisk_migrator.Common.Sort.{sort, compare_bytes}
use lisk_migrator.Common.Sort.Laws.{IsSorted, sort-IsSorted, sort-perm, compare_on-IsComparator}
use lisk_migrator.Assets.Pos.{
  ceiling, account_banned_map, is_not_banned, unbanned, genesis_data_at, create_genesis_data_obj,
  is_empty,
}
use lisk_migrator.Constants.{round_length, pos_init_rounds}
use lisk_migrator.Crypto.{Crypto}
use lisk_migrator.Types.{Account, DelegateWeight, VoteWeight, GenesisDataEntry}

-- Where `ceiling` returns a quotient, the divisor is positive, the quotient's product with the divisor
-- reaches the dividend, and no smaller quotient's does.
pub ceiling_lem : (a b q : ℕ) → ceiling a b ≡ ok q → (0 < b) × (a ≤ q * b) × (q * b < a + b)
unfolding ceiling
ceiling_lem a b q h = elim (Bool-cases (b == 0)) [
  | inl zero_length ↦ absurd (cc (rw zero_length at h))
  | inr positive ↦ grind arith
]

-- The flag of the last account whose address is the Buffer object `ref`, else `old`.
abbrev pub flag_of : ℕ → List Account → Option Bool → Option Bool
flag_of ref [] old = old
flag_of ref (a ∷ accounts) old =
    flag_of ref accounts (if ref == a.address.ref then some a.dpos.delegate.is_banned else old)

lookup-account_banned_map :
    (ref : ℕ) (accounts : List Account) (banned : List (ℕ × Bool))
    → lookup ◌==◌ ref (account_banned_map accounts banned)
      ≡ flag_of ref accounts (lookup ◌==◌ ref banned)
unfolding account_banned_map
lookup-account_banned_map ref [] banned = refl
lookup-account_banned_map ref (a ∷ accounts) banned =
    lookup-account_banned_map ref accounts
      (insert ◌==◌ a.address.ref a.dpos.delegate.is_banned banned)
    ∙ ap (flag_of ref accounts)
        (lookup-insert ◌==◌ ==_iff ref a.address.ref a.dpos.delegate.is_banned banned)

flag-account_banned_map :
    (ref : ℕ) (accounts : List Account)
    → lookup ◌==◌ ref (account_banned_map accounts []) ≡ flag_of ref accounts none
unfolding lookup
flag-account_banned_map ref accounts = lookup-account_banned_map ref accounts []

-- The delegates whose own Buffer object is not that of an account with a ban, in their order.
abbrev pub eligible : List Account → List DelegateWeight → List DelegateWeight
eligible accounts = keep (λ d. is_not_banned (flag_of d.address.ref accounts none))

abbrev pub addresses : List DelegateWeight → List Bytes
addresses = map (λ d. d.address.bytes)

unbanned-eligible :
    (accounts : List Account) (ds : List DelegateWeight)
    → unbanned (account_banned_map accounts []) ds ≡ addresses (eligible accounts ds)
unfolding unbanned
unbanned-eligible accounts [] = refl
unbanned-eligible accounts (d ∷ ds) =
    rw (flag-account_banned_map d.address.ref accounts)
      (elim (Bool-cases (is_not_banned (flag_of d.address.ref accounts none))) [
        | inl stays ↦ rw stays (ap (◌∷◌ d.address.bytes) (unbanned-eligible accounts ds))
        | inr goes ↦ rw goes (unbanned-eligible accounts ds)
      ])

-- The round that the snapshot height ends.
abbrev pub round_of : ℕ → ℕ
round_of height = (height + round_length - 1) / round_length

-- What `createGenesisDataObj` promises: the validators are drawn from the delegates of round r - 2
-- that are not banned, the first 101 of them, in the order of their addresses; it throws when that
-- round has no delegates.
abbrev pub Elects : Crypto → List Account → List VoteWeight → ℕ → Result GenesisDataEntry → Type 0
Elects c accounts weights r (err e) =
    (e ≡ vote_weights_unavailable r)
    × ((w : VoteWeight) → find (λ v. (v.round + 2) == r) weights ≡ some w → w.delegates ≡ [])
Elects c accounts weights r (ok genesis_data) =
    (w : VoteWeight) × (chosen : List Bytes) × (find (λ v. (v.round + 2) == r) weights ≡ some w)
    × (w.round + 2 ≡ r)
    × (w.delegates ≢ [])
    × Perm chosen (take 101 (addresses (eligible accounts w.delegates)))
    × IsSorted compare_bytes chosen
    × (genesis_data.init_validators ≡ map c.lisk32_address chosen)
    × (genesis_data.init_rounds ≡ pos_init_rounds)

find-holds {ℓ} : {A : Type ℓ} (p : A → Bool) (xs : List A) {x : A} → find p xs ≡ some x → p x ≡ true
find-holds p [] h = absurd (cc)
find-holds p (y ∷ xs) h = elim (Bool-cases (p y)) [
  | inl found ↦ ap p (sym (some-injective _ _ (rw found at h))) ∙ found
  | inr other ↦ find-holds p xs (rw other at h)
]

none_left : (ds : List DelegateWeight) → is_empty ds ≡ true → ds ≡ []
none_left [] h = refl
none_left (d ∷ ds) h = absurd (cc)

not_empty : (ds : List DelegateWeight) → is_empty ds ≡ false → ds ≢ []
not_empty [] h e = absurd (cc)
not_empty (d ∷ ds) h e = cc

genesis_data_at-Elects :
    (c : Crypto) (accounts : List Account) (weights : List VoteWeight) (r : ℕ)
    (o : Option VoteWeight)
    → find (λ v. (v.round + 2) == r) weights ≡ o
    → Elects c accounts weights r (genesis_data_at c accounts r o)
unfolding genesis_data_at
genesis_data_at-Elects c accounts weights r none h = (refl, λ w e. absurd (cc))
genesis_data_at-Elects c accounts weights r (some w) h = elim (Bool-cases (is_empty w.delegates)) [
  | inl empty ↦ rw empty (refl, λ v e. same_delegates v e empty)
  | inr full ↦ rw full (
    w,
    sort compare_bytes (take 101 (unbanned (account_banned_map accounts []) w.delegates)),
    h,
    (==_iff (w.round + 2) r).0 (find-holds _ weights h),
    not_empty w.delegates full,
    rw (unbanned-eligible accounts w.delegates) (sort-perm compare_bytes _),
    sort-IsSorted compare_bytes (compare_on-IsComparator (λ b. b)) _,
    refl,
    refl,
  )
]
  where
    same_delegates :
        (v : VoteWeight)
        → find (λ u. (u.round + 2) == r) weights ≡ some v
        → is_empty w.delegates ≡ true
        → v.delegates ≡ []
    same_delegates v e empty =
        ap (λ (u : VoteWeight). u.delegates) (some-injective _ _ (sym e ∙ h))
        ∙ none_left w.delegates empty

-- For every height, `createGenesisDataObj` either throws its own error, and then the first vote
-- weights of round r - 2, if there are any, have no delegates; or it returns as initial validators the
-- Lisk32 addresses of the first 101 delegates of the first vote weights of that round whose Buffer
-- object is not a banned account's, sorted by their bytes, with 587 initial rounds.
pub create_genesis_data_obj-Elects :
    (c : Crypto) (accounts : List Account) (weights : List VoteWeight) (height : ℕ)
    → Elects c accounts weights
        (round_of height)
        (create_genesis_data_obj c accounts weights height)
unfolding create_genesis_data_obj
create_genesis_data_obj-Elects c accounts weights height =
    genesis_data_at-Elects c accounts weights (round_of height) _ refl

flag_of_fresh :
    (ref : ℕ) (accounts : List Account) (old : Option Bool)
    → All (λ a. a.address.ref ≢ ref) accounts
    → flag_of ref accounts old ≡ old
flag_of_fresh ref [] old h = refl
flag_of_fresh ref (a ∷ accounts) old h = ground (arith, flag_of_fresh ref accounts old h.1)

-- No delegate's address is the same Buffer object as an account's.
abbrev pub AreFresh : List Account → List DelegateWeight → Type 0
AreFresh accounts = All (λ d. All (λ a. a.address.ref ≢ d.address.ref) accounts)

eligible_fresh :
    (accounts : List Account) (ds : List DelegateWeight)
    → AreFresh accounts ds
    → eligible accounts ds ≡ ds
eligible_fresh accounts [] h = refl
eligible_fresh accounts (d ∷ ds) h =
    rw (flag_of_fresh d.address.ref accounts none h.0) (ap (◌∷◌ d) (eligible_fresh accounts ds h.1))

is_empty-eq-false : (ds : List DelegateWeight) → ds ≢ [] → is_empty ds ≡ false
is_empty-eq-false [] h = absurd (h refl)
is_empty-eq-false (d ∷ ds) h = refl

genesis_data_at-some :
    (c : Crypto) (accounts : List Account) (r : ℕ) (w : VoteWeight)
    → w.delegates ≢ []
    → genesis_data_at c accounts r (some w)
      ≡ ok (record {
        init_rounds = pos_init_rounds;
        init_validators =
            map c.lisk32_address
              (sort compare_bytes (take 101 (addresses (eligible accounts w.delegates))));
      })
unfolding genesis_data_at
genesis_data_at-some c accounts r w h =
    rw (is_empty-eq-false w.delegates h, unbanned-eligible accounts w.delegates) refl

-- Where the first vote weights of round r - 2 have delegates, none of whose addresses is the Buffer
-- object of an account's address, the ban flags have no effect, whatever the bytes of the addresses:
-- the initial validators are the first 101 of these delegates, banned or not, sorted by their bytes.
pub create_genesis_data_obj_fresh :
    (c : Crypto) (accounts : List Account) (weights : List VoteWeight) (height : ℕ) (w : VoteWeight)
    → find (λ v. (v.round + 2) == round_of height) weights ≡ some w
    → w.delegates ≢ []
    → AreFresh accounts w.delegates
    → create_genesis_data_obj c accounts weights height
      ≡ ok (record {
        init_rounds = pos_init_rounds;
        init_validators =
            map c.lisk32_address (sort compare_bytes (take 101 (addresses w.delegates)));
      })
unfolding create_genesis_data_obj
create_genesis_data_obj_fresh c accounts weights height w found some_left fresh = rw found (
    genesis_data_at-some c accounts (round_of height) w some_left
    ∙ rw (eligible_fresh accounts w.delegates fresh) refl)
