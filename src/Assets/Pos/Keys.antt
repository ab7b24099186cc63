-- ===== src/Assets/Pos/Keys.antt =====
-- The generator keys that `getValidatorKeys` finds for the addresses.
use lisk_migrator.Common.{
  ◌≡◌, ◌≢◌, refl, sym, ◌∙◌, ap, subst, subst₂, ◌⊎◌, inl, inr, List, [], ◌∷◌, arith, Bool, true,
  false, not, ◌&&◌, ◌||◌, Bool-cases, none, some, some-injective, same, same_iff, same→eq,
  same_refl, Text,
}
use lisk_migrator.Common.Dict.{lookup, insert, lookup-insert, contains, add, contains-add}
use lisk_migrator.Assets.Pos.{delegate_set, address_of_key, block_keys, tx_keys, validator_keys_of}
use lisk_migrator.Crypto.{Crypto}
use lisk_migrator.Encoding.Hex.{hex}
use lisk_migrator.Types.{Account}

abbrev Keys : Type 0
Keys = List (Text × Text)

-- Each entry of the dictionary satisfies `P`.
abbrev IsSound : (Text → Text → Type 0) → Keys → Type 0
IsSound P d = (address key : Text) → lookup same address d ≡ some key → P address key

insert-IsSound :
    (P : Text → Text → Type 0) (k v : Text) (d : Keys)
    → P k v
    → IsSound P d
    → IsSound P (insert same k v d)
insert-IsSound P k v d p s address key h = elim (Bool-cases (same address k)) [
  | inl found ↦
      subst₂ P (sym (same→eq address k found)) (some-injective v key (sym (at_key found) ∙ h)) p
  | inr other ↦ s address key (sym (elsewhere other) ∙ h)
]
  where
    at_key : same address k ≡ true → lookup same address (insert same k v d) ≡ some v
    at_key found = lookup-insert same same_iff address k v d ∙ rw found refl

    elsewhere :
        same address k ≡ false → lookup same address (insert same k v d) ≡ lookup same address d
    elsewhere other = lookup-insert same same_iff address k v d ∙ rw other refl

insert-ne-none :
    (k v address : Text) (d : Keys)
    → ((address ≡ k) ⊎ (lookup same address d ≢ none))
    → lookup same address (insert same k v d) ≢ none
insert-ne-none k v address d h =
    ground (arith, lookup-insert same same_iff address k v d, same_iff address k)

contains_first : (key : Text) (set : List Text) → contains same key (key ∷ set) ≡ true
unfolding contains
contains_first key set = rw (same_refl key)

contains_later :
    (k key : Text) (set : List Text)
    → contains same k set ≡ true
    → contains same k (key ∷ set) ≡ true
unfolding contains
contains_later k key set h = ground arith

-- An account with a user name has the address.
abbrev pub has_delegate : Text → List Account → Bool
has_delegate address [] = false
has_delegate address (a ∷ accounts) =
    not (same a.dpos.delegate.username []) && same address (hex a.address.bytes)
    || has_delegate address accounts

contains-delegate_set_onto :
    (address : Text) (accounts : List Account) (set : List Text)
    → contains same address (delegate_set accounts set)
      ≡ (contains same address set || has_delegate address accounts)
unfolding delegate_set
contains-delegate_set_onto address [] set = ground arith
contains-delegate_set_onto address (a ∷ accounts) set = ground (
  arith,
  contains-delegate_set_onto address accounts set,
  contains-delegate_set_onto address accounts (add same (hex a.address.bytes) set),
  contains-add same same_iff address (hex a.address.bytes) set,
)

contains-delegate_set :
    (address : Text) (accounts : List Account)
    → contains same address (delegate_set accounts []) ≡ has_delegate address accounts
unfolding contains
contains-delegate_set address accounts = contains-delegate_set_onto address accounts []

lookup-nil : (address : Text) → lookup {V = Text} same address [] ≡ none
unfolding lookup
lookup-nil address = refl

module _ (c : Crypto) where
  block_keys-IsSound :
      (P : Text → Text → Type 0) (set : List Text) (d : Keys)
      → ((key : Text) → contains same key set ≡ true → P (address_of_key c key) key)
      → IsSound P d
      → IsSound P (block_keys c set d)
  unfolding block_keys
  block_keys-IsSound P [] d p s = s
  block_keys-IsSound P (key ∷ set) d p s =
      block_keys-IsSound P set _ (λ k m. p k (contains_later k key set m))
        (insert-IsSound P (address_of_key c key) key d (p key (contains_first key set)) s)

  block_keys_keep :
      (set : List Text) (address : Text) (d : Keys)
      → lookup same address d ≢ none
      → lookup same address (block_keys c set d) ≢ none
  unfolding block_keys
  block_keys_keep [] address d h = h
  block_keys_keep (key ∷ set) address d h =
      block_keys_keep set address _ (insert-ne-none (address_of_key c key) key address d (inr h))

  block_keys_find :
      (set : List Text) (key : Text) (d : Keys)
      → contains same key set ≡ true
      → lookup same (address_of_key c key) (block_keys c set d) ≢ none
  unfolding block_keys contains
  block_keys_find [] key d h = absurd (cc)
  block_keys_find (k ∷ set) key d h = elim (Bool-cases (same key k)) [
    | inl found ↦ block_keys_keep set (address_of_key c key) _ (
        insert-ne-none (address_of_key c k) k (address_of_key c key) d
          (inl (ap (address_of_key c) (same→eq key k found))))
    | inr other ↦ block_keys_find set key _ (rw other at h)
  ]

  module _ (delegates blocks : List Text) where
    tx_keys-IsSound :
        (P : Text → Text → Type 0) (set : List Text) (d : Keys)
        → ((key : Text)
            → contains same key set ≡ true
            → contains same (address_of_key c key) delegates ≡ true
            → P (address_of_key c key) key)
        → IsSound P d
        → IsSound P (tx_keys c delegates blocks set d)
    unfolding tx_keys
    tx_keys-IsSound P [] d p s = s
    tx_keys-IsSound P (key ∷ set) d p s =
        tx_keys-IsSound P set _ (λ k m. p k (contains_later k key set m))
          (elim (Bool-cases (contains same key blocks)) [
            | inl seen ↦ rw seen s
            | inr unseen ↦
                rw unseen (elim (Bool-cases (contains same (address_of_key c key) delegates)) [
                  | inl delegate ↦ rw delegate (
                      insert-IsSound P (address_of_key c key) key d
                        (p key (contains_first key set) delegate) s)
                  | inr other ↦ rw other s
                ])
          ])

    tx_keys_keep :
        (set : List Text) (address : Text) (d : Keys)
        → lookup same address d ≢ none
        → lookup same address (tx_keys c delegates blocks set d) ≢ none
    unfolding tx_keys
    tx_keys_keep [] address d h = h
    tx_keys_keep (key ∷ set) address d h =
        tx_keys_keep set address _
          (ground (arith, insert-ne-none (address_of_key c key) key address d (inr h)))

    tx_keys_find :
        (set : List Text) (key : Text) (d : Keys)
        → contains same key set ≡ true
        → contains same key blocks ≡ false
        → contains same (address_of_key c key) delegates ≡ true
        → lookup same (address_of_key c key) (tx_keys c delegates blocks set d) ≢ none
    unfolding tx_keys contains
    tx_keys_find [] key d h unseen delegate = absurd (cc)
    tx_keys_find (k ∷ set) key d h unseen delegate = elim (Bool-cases (same key k)) [
      | inl found ↦
          subst
            (λ j.
              lookup same (address_of_key c key) (tx_keys c delegates blocks (j ∷ set) d) ≢ none)
            (same→eq key k found)
            (rw (unseen, delegate)
              (tx_keys_keep set (address_of_key c key) _
                (insert-ne-none (address_of_key c key) key (address_of_key c key) d (inl refl))))
      | inr other ↦ tx_keys_find set key _ (rw other at h) unseen delegate
    ]

  module _ (accounts : List Account) (blocks txs : List Text) where
    -- Where a generator key may come from.
    abbrev pub IsKeyOf : Text → Text → Type 0
    IsKeyOf address key =
        (address_of_key c key ≡ address)
        × ((contains same key blocks ≡ true)
            ⊎ (contains same key txs ≡ true) × (has_delegate address accounts ≡ true))

    -- Every key that is found under an address is one from which the address is derived, and it is the
    -- key of a block's generator, or that of a transaction's sender whose address is a delegate's.
    pub validator_keys_of_sound :
        (address key : Text)
        → lookup same address (validator_keys_of c accounts blocks txs) ≡ some key
        → IsKeyOf address key
    unfolding validator_keys_of
    validator_keys_of_sound =
        tx_keys-IsSound (delegate_set accounts []) blocks IsKeyOf txs _
          (λ key m delegate. (refl, inr (m, sym (contains-delegate_set _ accounts) ∙ delegate)))
          (block_keys-IsSound IsKeyOf blocks [] (λ key m. (refl, inl m))
            (λ address key h. absurd (cc (lookup-nil address))))

    -- The address of every block generator has a key, and so has the address of every sender of a
    -- transaction that is a delegate's.
    pub validator_keys_of_complete :
        (key : Text)
        → ((contains same key blocks ≡ true)
            ⊎ (contains same key txs ≡ true)
              × (has_delegate (address_of_key c key) accounts ≡ true))
        → lookup same (address_of_key c key) (validator_keys_of c accounts blocks txs) ≢ none
    unfolding validator_keys_of
    validator_keys_of_complete key h = elim (Bool-cases (contains same key blocks)) [
      | inl seen ↦
          tx_keys_keep (delegate_set accounts []) blocks txs (address_of_key c key) _
            (block_keys_find blocks key [] seen)
      | inr unseen ↦ from_tx unseen h
    ]
      where
        from_tx :
            contains same key blocks ≡ false
            → ((contains same key blocks ≡ true)
                ⊎ (contains same key txs ≡ true)
                  × (has_delegate (address_of_key c key) accounts ≡ true))
            → lookup same (address_of_key c key) (validator_keys_of c accounts blocks txs) ≢ none
        from_tx unseen (inl seen) = absurd (cc)
        from_tx unseen (inr (sent, delegate)) =
            tx_keys_find (delegate_set accounts []) blocks txs key _ sent unseen
              (contains-delegate_set _ accounts ∙ delegate)
