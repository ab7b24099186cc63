-- ===== src/Utils/Network.antt =====
-- `getNetworkIdentifier` of src/utils/network.ts. The node's answer is a parameter; the check of a port
-- is the system's.
use lisk_migrator.Common.{
  ℕ, ◌≡◌, ap, subst, ◌∷◌, Bool-cases, inl, inr, Option, none, some, Text, codes, same, same→eq,
  find, Result, ok, err, undefined_property,
}
use lisk_migrator.Common.Dict.{lookup}
use lisk_migrator.Constants.{network_constant}
use lisk_migrator.Types.{NetworkConfigLocal}
use lisk_migrator.Utils.Config.{truthy_text, get_network_by_network_id}

-- The entry of `NETWORK_CONSTANT` with a name; destructuring none throws.
abbrev pub identifier_of : Option (Text × NetworkConfigLocal) → Result Text
identifier_of none = err undefined_property
identifier_of (some (network_identifier, info)) = ok network_identifier

-- With what the node says where no network is given.
abbrev pub identifier_or : Option Text → Result Text → Result Text
identifier_or none node_identifier = node_identifier
identifier_or (some network) node_identifier =
    identifier_of (find (λ e. same e.1.name network) network_constant)

unfoldable pub get_network_identifier : Option Text → Result Text → Result Text
get_network_identifier network node_identifier = identifier_or (truthy_text network) node_identifier

ok-injective : {a b : Text} → ok a ≡ ok b → a ≡ b
ok-injective h = cc

named :
    (name : Text) (id : Text)
    → identifier_of (find (λ e. same e.1.name name) network_constant) ≡ ok id
    → get_network_by_network_id id ≡ ok name
unfolding get_network_by_network_id lookup same
named name id h = elim (Bool-cases (same (codes "mainnet") name)) [
  | inl mainnet ↦
      subst (λ i. get_network_by_network_id i ≡ ok name) (ok-injective (rw mainnet at h))
        (ap ok (same→eq (codes "mainnet") name mainnet))
  | inr other ↦ elim (Bool-cases (same (codes "testnet") name)) [
    | inl testnet ↦
        subst (λ i. get_network_by_network_id i ≡ ok name)
          (ok-injective (rw testnet at (rw other at h)))
          (ap ok (same→eq (codes "testnet") name testnet))
    | inr unknown ↦ absurd (cc (rw unknown at (rw other at h)))
  ]
]

-- Where the identifier of a network that is given by its name is found, the network of that identifier
-- has that name.
pub get_network_identifier_lem :
    (c : ℕ) (name : Text) (node_identifier : Result Text) (id : Text)
    → get_network_identifier (some (c ∷ name)) node_identifier ≡ ok id
    → get_network_by_network_id id ≡ ok (c ∷ name)
unfolding get_network_identifier
get_network_identifier_lem c name node_identifier id h = named (c ∷ name) id h
