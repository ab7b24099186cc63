-- ===== src/Schemas.antt =====
-- src/schemas.ts: the schemas that the codec reads and writes by. `transactionSchema` is only declared
-- there, and has no value.
use lisk_migrator.Common.{ℕ, List, [], ◌∷◌, Option, none, some, Text, codes}

pub data DataType : Type 0 where
  bytes uint32 uint64 string boolean : DataType

mutual
  -- `sized` has `minLength` and `maxLength`, and `formatted` has `format`. An object may have no
  -- `required`.
  pub data Schema : Type 0 where
    leaf : DataType → Schema
    sized : DataType → ℕ → ℕ → Schema
    formatted : DataType → Text → Schema
    array : Schema → Schema
    object : Option (List Text) → Properties → Schema

  -- The properties, in their order, with their names and field numbers.
  pub data Properties : Type 0 where
    no_more : Properties
    property : Text → ℕ → Schema → Properties → Properties

-- A schema with its `$id`.
pub record Named : Type 0 where
  pub id : Text
  pub schema : Schema

abbrev pub unregistered_addresses_schema : Named
unregistered_addresses_schema = record {
  id = codes "/legacyAccount/unregisteredAddresses";
  schema = object (some (codes "unregisteredAddresses" ∷ [])) (
      property (codes "unregisteredAddresses") 1
        (array (
          object (some (codes "address" ∷ codes "balance" ∷ [])) (
            property (codes "address") 1 (leaf bytes)
              (property (codes "balance") 2 (leaf uint64) no_more))))
        no_more);
}

abbrev pub token_schema : Schema
token_schema = object none (property (codes "balance") 1 (leaf uint64) no_more)

abbrev pub sequence_schema : Schema
sequence_schema = object none (property (codes "nonce") 1 (leaf uint64) no_more)

abbrev pub keys_schema : Schema
keys_schema = object none (
    property (codes "numberOfSignatures") 1 (leaf uint32) (
      property (codes "mandatoryKeys") 2 (array (leaf bytes))
        (property (codes "optionalKeys") 3 (array (leaf bytes)) no_more)))

abbrev pub delegate_schema : Schema
delegate_schema =
    object
      (some (
        codes "username"
        ∷ codes "pomHeights"
        ∷ codes "consecutiveMissedBlocks"
        ∷ codes "lastForgedHeight"
        ∷ codes "isBanned"
        ∷ codes "totalVotesReceived"
        ∷ []))
      (property (codes "username") 1 (leaf string) (
        property (codes "pomHeights") 2 (array (leaf uint32)) (
          property (codes "consecutiveMissedBlocks") 3 (leaf uint32) (
            property (codes "lastForgedHeight") 4 (leaf uint32) (
              property (codes "isBanned") 5 (leaf boolean)
                (property (codes "totalVotesReceived") 6 (leaf uint64) no_more))))))

abbrev pub sent_vote_schema : Schema
sent_vote_schema = object (some (codes "delegateAddress" ∷ codes "amount" ∷ [])) (
    property (codes "delegateAddress") 1 (leaf bytes)
      (property (codes "amount") 2 (leaf uint64) no_more))

abbrev pub unlocking_schema : Schema
unlocking_schema =
    object (some (codes "delegateAddress" ∷ codes "amount" ∷ codes "unvoteHeight" ∷ [])) (
      property (codes "delegateAddress") 1 (leaf bytes) (
        property (codes "amount") 2 (leaf uint64)
          (property (codes "unvoteHeight") 3 (leaf uint32) no_more)))

abbrev pub dpos_schema : Schema
dpos_schema = object none (
    property (codes "delegate") 1 delegate_schema (
      property (codes "sentVotes") 2 (array sent_vote_schema)
        (property (codes "unlocking") 3 (array unlocking_schema) no_more)))

abbrev pub account_schema : Named
account_schema = record {
  id = codes "/account/base";
  schema =
      object
        (some
          (codes "address" ∷ codes "token" ∷ codes "sequence" ∷ codes "keys" ∷ codes "dpos" ∷ []))
        (property (codes "address") 1 (leaf bytes) (
          property (codes "token") 2 token_schema (
            property (codes "sequence") 3 sequence_schema (
              property (codes "keys") 4 keys_schema
                (property (codes "dpos") 5 dpos_schema no_more)))));
}

-- The properties of `signingBlockHeaderSchema`, before further ones.
abbrev pub signing_properties : Properties → Properties
signing_properties further = property (codes "version") 1 (leaf uint32) (
    property (codes "timestamp") 2 (leaf uint32) (
      property (codes "height") 3 (leaf uint32) (
        property (codes "previousBlockID") 4 (leaf bytes) (
          property (codes "transactionRoot") 5 (leaf bytes) (
            property (codes "generatorPublicKey") 6 (leaf bytes) (
              property (codes "reward") 7 (leaf uint64)
                (property (codes "asset") 8 (leaf bytes) further)))))))

abbrev pub signing_required : List Text
signing_required =
    codes "version"
    ∷ codes "timestamp"
    ∷ codes "height"
    ∷ codes "previousBlockID"
    ∷ codes "transactionRoot"
    ∷ codes "generatorPublicKey"
    ∷ codes "reward"
    ∷ codes "asset"
    ∷ []

abbrev pub signing_block_header_schema : Named
signing_block_header_schema = record {
  id = codes "/block/header/signing";
  schema = object (some signing_required) (signing_properties no_more);
}

-- The signature is no required property, as `required` is the signing schema's.
abbrev pub block_header_schema : Named
block_header_schema = record {
  id = codes "/block/header";
  schema =
      object (some signing_required)
        (signing_properties (property (codes "signature") 9 (leaf bytes) no_more));
}

abbrev pub delegate_weight_schema : Schema
delegate_weight_schema = object none (
    property (codes "address") 1 (leaf bytes)
      (property (codes "voteWeight") 2 (leaf uint64) no_more))

abbrev pub vote_weights_schema : Named
vote_weights_schema = record {
  id = codes "/dpos/voteWeights";
  schema = object (some (codes "voteWeights" ∷ [])) (
      property (codes "voteWeights") 1
        (array (
          object none (
            property (codes "round") 1 (leaf uint32)
              (property (codes "delegates") 2 (array delegate_weight_schema) no_more))))
        no_more);
}

abbrev pub genesis_legacy_store_schema : Named
genesis_legacy_store_schema = record {
  id = codes "/legacy/module/genesis";
  schema = object (some (codes "accounts" ∷ [])) (
      property (codes "accounts") 1
        (array (
          object (some (codes "address" ∷ codes "balance" ∷ [])) (
            property (codes "address") 1 (sized bytes 8 8)
              (property (codes "balance") 2 (leaf uint64) no_more))))
        no_more);
}

abbrev pub auth_account_schema : Schema
auth_account_schema =
    object
      (some (
        codes "nonce"
        ∷ codes "numberOfSignatures"
        ∷ codes "mandatoryKeys"
        ∷ codes "optionalKeys"
        ∷ []))
      (property (codes "nonce") 1 (leaf uint64) (
        property (codes "numberOfSignatures") 2 (leaf uint32) (
          property (codes "mandatoryKeys") 3 (array (leaf bytes))
            (property (codes "optionalKeys") 4 (array (leaf bytes)) no_more))))

abbrev pub genesis_auth_store_schema : Named
genesis_auth_store_schema = record {
  id = codes "/auth/module/genesis";
  schema = object (some (codes "authDataSubstore" ∷ [])) (
      property (codes "authDataSubstore") 1
        (array (
          object (some (codes "address" ∷ codes "authAccount" ∷ [])) (
            property (codes "address") 1 (formatted bytes (codes "lisk32"))
              (property (codes "authAccount") 2 auth_account_schema no_more))))
        no_more);
}
