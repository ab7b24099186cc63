-- ===== src/CreateAsset/Collect.antt =====
-- The loop over the accounts never throws: it fills the arrays and adds what each account owns.
use lisk_migrator.Common.{
  ℕ, ◌+◌, ◌≡◌, ◌≢◌, true, refl, ◌∙◌, ap, List, [], ◌∷◌, total, measured, total-append, arith,
  if◌then◌else◌, Bool-cases, inl, inr, Text, Option, none, some, find, ok, ltb, same→eq, Bool, keep,
}
use lisk_migrator.Assets.Token.{get_locked_balances, create_user_substore_array_entry}
use lisk_migrator.Assets.Token.Laws.{
  worth, staked, holding, holding_of-create_user_substore_array_entry, get_locked_balances_lem,
}
use lisk_migrator.Common.Predicates.{All, keep-All}
use lisk_migrator.CreateAsset.{Collected, push, add_locked, collect, collect_all, is_reserve}
use lisk_migrator.CreateAsset.Monad.{Globals}
use lisk_migrator.Crypto.{Crypto}
use lisk_migrator.Encoding.Decimal.{big_int, big_int-decimal}
use lisk_migrator.Types.{Account, LockedBalance}

add_locked_one :
    (b : LockedBalance) (n k : ℕ) (g : Globals)
    → big_int b.amount ≡ ok k
    → add_locked (b ∷ []) n g ≡ (ok (n + k), g)
unfolding add_locked
add_locked_one b n k g h = ground arith

add_locked_none : (n : ℕ) (g : Globals) → add_locked [] n g ≡ (ok n, g)
unfolding add_locked
add_locked_none n g = refl

-- Reading back the locked balances of an account adds what it has staked.
add_locked-get_locked_balances :
    (a : Account) (n : ℕ) (g : Globals)
    → add_locked (get_locked_balances a) n g ≡ (ok (n + staked a), g)
add_locked-get_locked_balances a n g =
    rw (get_locked_balances_lem a) (elim (Bool-cases (ltb 0 (staked a))) [
      | inl some_locked ↦
          rw some_locked (add_locked_one _ n (staked a) g (big_int-decimal (staked a)))
      | inr nothing ↦ rw nothing (add_locked_none n g ∙ ap (λ m. (ok m, g)) (ground arith))
    ])

-- The measure of an account that is not the reserve account.
abbrev pub other : Crypto → (Account → ℕ) → Account → ℕ
other c f a = if is_reserve c a then 0 else f a

pub push-total :
    {A : Type 0} (f : A → ℕ) (o : Option A) (es : List A)
    → total f (push o es) ≡ total f es + measured f o
push-total f none es = omega arith
push-total f (some e) es = omega (arith, total-append f es (e ∷ []))

module _ (c : Crypto) (keys : List (Text × Text)) (height : ℕ) (token_id : Text) where
  -- What the loop has pushed when it ends.
  abbrev pub collected : List Account → Collected → Collected
  collected [] out = out
  collected (a ∷ accounts) out = collected accounts (collect c keys height token_id a out)

  -- The loop over the accounts never throws: it returns the arrays with what its body pushes for each
  -- account in turn, and raises the total supply by what each account owns, its balance, its votes
  -- and its pending unlocks.
  pub collect_all_lem :
      (accounts : List Account) (out : Collected) (g : Globals)
      → collect_all c keys height token_id accounts out g ≡ (
        ok (collected accounts out),
        record g { total_lsk_supply = g.total_lsk_supply + total worth accounts },
      )
  unfolding collect_all
  collect_all_lem [] out g = ground arith
  collect_all_lem (a ∷ accounts) out g = ground (
    arith,
    add_locked-get_locked_balances a (g.total_lsk_supply + a.token.balance)
        (record g { total_lsk_supply = g.total_lsk_supply + a.token.balance }),
    collect_all_lem accounts (collect c keys height token_id a out)
        (record g { total_lsk_supply = g.total_lsk_supply + a.token.balance + staked a }),
  )

  pub holding-collected :
      (accounts : List Account) (out : Collected)
      → total holding (collected accounts out).users
        ≡ total holding out.users + total (other c worth) accounts
  holding-collected [] out = omega arith
  holding-collected (a ∷ accounts) out = omega (
    arith,
    holding-collected accounts (collect c keys height token_id a out),
    push-total holding (create_user_substore_array_entry c a token_id) out.users,
    holding_of-create_user_substore_array_entry c a token_id,
  )

-- No two accounts have one address.
abbrev pub HasDistinctAddresses : List Account → Type 0
HasDistinctAddresses [] = Unit
HasDistinctAddresses (a ∷ rest) =
    All (λ b. b.address.bytes ≢ a.address.bytes) rest × HasDistinctAddresses rest

module _ (c : Crypto) (f : Account → ℕ) where
  other_ne :
      (a b : Account)
      → is_reserve c a ≡ true
      → b.address.bytes ≢ a.address.bytes
      → other c f b ≡ f b
  other_ne a b r h = elim (Bool-cases (is_reserve c b)) [
    | inl both ↦ absurd (h (cc (same→eq _ _ both, same→eq _ _ r)))
    | inr left ↦ rw left refl
  ]

  other-All :
      (a : Account) (rest : List Account)
      → is_reserve c a ≡ true
      → All (λ b. b.address.bytes ≢ a.address.bytes) rest
      → total (other c f) rest ≡ total f rest
  other-All a [] r h = refl
  other-All a (b ∷ rest) r h = omega (arith, other_ne a b r h.0, other-All a rest r h.1)

  -- All is measured at the reserve account, if there is one, or at the others.
  pub total-other :
      (rest : List Account)
      → HasDistinctAddresses rest
      → total f rest ≡ total (other c f) rest + measured f (find (is_reserve c) rest)
  total-other [] h = omega arith
  total-other (a ∷ rest) h = elim (Bool-cases (is_reserve c a)) [
    | inl reserve ↦ rw reserve (omega (arith, other-All a rest reserve h.0))
    | inr left ↦ rw left (omega (arith, total-other rest h.1))
  ]

pub keep-HasDistinctAddresses :
    (p : Account → Bool) (rest : List Account)
    → HasDistinctAddresses rest
    → HasDistinctAddresses (keep p rest)
keep-HasDistinctAddresses p [] h = tt
keep-HasDistinctAddresses p (a ∷ rest) h = elim (Bool-cases (p a)) [
  | inl kept ↦ rw kept (keep-All _ p rest h.0, keep-HasDistinctAddresses p rest h.1)
  | inr left ↦ rw left (keep-HasDistinctAddresses p rest h.1)
]
