-- ===== src/Types.antt =====
-- src/types.ts: the decoded snapshot data, the entries of the genesis assets and the network
-- constants. A `bigint` or `number` of these types is unsigned in the schemas, so it is a natural.
use lisk_migrator.Common.{ℕ, Bool, List, Bytes, Text}

-- A Buffer object. Its identity matters where it is the key of a Map; elsewhere only the bytes do,
-- and the other Buffers of the data are given by their bytes.
pub record Buffer : Type 0 where
  pub ref : ℕ
  pub bytes : Bytes

pub record UnregisteredAccount : Type 0 where
  pub address : Bytes
  pub balance : ℕ

pub record AuthAccountEntry : Type 0 where
  pub number_of_signatures : ℕ
  pub mandatory_keys : List Text
  pub optional_keys : List Text
  pub nonce : Text

pub record AuthStoreEntry : Type 0 where
  pub address : Text
  pub auth_account : AuthAccountEntry

pub record AuthStoreEntryBuffer : Type 0 where
  pub address : Bytes
  pub auth_account : AuthAccountEntry

pub record Token : Type 0 where
  pub balance : ℕ

pub record Sequence : Type 0 where
  pub nonce : ℕ

pub record Keys : Type 0 where
  pub mandatory_keys : List Bytes
  pub optional_keys : List Bytes
  pub number_of_signatures : ℕ

pub record Delegate : Type 0 where
  pub username : Text
  pub pom_heights : List ℕ
  pub consecutive_missed_blocks : ℕ
  pub last_forged_height : ℕ
  pub is_banned : Bool
  pub total_votes_received : ℕ

pub record Vote : Type 0 where
  pub delegate_address : Bytes
  pub amount : ℕ

pub record Unlocking : Type 0 where
  pub delegate_address : Bytes
  pub amount : ℕ
  pub unvote_height : ℕ

pub record Dpos : Type 0 where
  pub delegate : Delegate
  pub sent_votes : List Vote
  pub unlocking : List Unlocking

pub record Account : Type 0 where
  pub address : Buffer
  pub token : Token
  pub sequence : Sequence
  pub keys : Keys
  pub dpos : Dpos

pub record LegacyStoreEntry : Type 0 where
  pub address : Text
  pub balance : Text

pub record LegacyStoreEntryBuffer : Type 0 where
  pub address : Bytes
  pub balance : Text

pub record LockedBalance : Type 0 where
  pub module_name : Text
  pub amount : Text

pub record UserSubstoreEntry : Type 0 where
  pub address : Text
  pub token_id : Text
  pub available_balance : Text
  pub locked_balances : List LockedBalance

pub record UserSubstoreEntryBuffer : Type 0 where
  pub address : Bytes
  pub token_id : Bytes
  pub available_balance : Text
  pub locked_balances : List LockedBalance

pub record SupplySubstoreEntry : Type 0 where
  pub token_id : Text
  pub total_supply : Text

pub record EscrowSubstoreEntry : Type 0 where
  pub escrow_chain_id : Bytes
  pub token_id : Bytes
  pub amount : ℕ

pub record SupportedTokensSubstoreEntry : Type 0 where
  pub chain_id : Bytes
  pub supported_token_ids : List Bytes

pub record TokenStoreEntry : Type 0 where
  pub user_substore : List UserSubstoreEntry
  pub supply_substore : List SupplySubstoreEntry
  pub escrow_substore : List EscrowSubstoreEntry
  pub supported_tokens_substore : List SupportedTokensSubstoreEntry

pub record SharingCoefficient : Type 0 where
  pub token_id : Text
  pub coefficient : Bytes

pub record ValidatorEntry : Type 0 where
  pub address : Text
  pub name : Text
  pub bls_key : Text
  pub proof_of_possession : Text
  pub generator_key : Text
  pub last_generated_height : ℕ
  pub is_banned : Bool
  pub report_misbehavior_heights : List ℕ
  pub consecutive_missed_blocks : ℕ
  pub commission : ℕ
  pub last_commission_increase_height : ℕ
  pub sharing_coefficients : List SharingCoefficient

pub record ValidatorEntryBuffer : Type 0 where
  pub address : Bytes
  pub name : Text
  pub bls_key : Text
  pub proof_of_possession : Text
  pub generator_key : Text
  pub last_generated_height : ℕ
  pub is_banned : Bool
  pub report_misbehavior_heights : List ℕ
  pub consecutive_missed_blocks : ℕ
  pub commission : ℕ
  pub last_commission_increase_height : ℕ
  pub sharing_coefficients : List SharingCoefficient

pub record Stake : Type 0 where
  pub validator_address : Text
  pub amount : ℕ
  pub sharing_coefficients : List SharingCoefficient

pub record PendingUnlock : Type 0 where
  pub validator_address : Text
  pub amount : ℕ
  pub unstake_height : ℕ

pub record Staker : Type 0 where
  pub address : Text
  pub stakes : List Stake
  pub pending_unlocks : List PendingUnlock

pub record StakerBuffer : Type 0 where
  pub address : Bytes
  pub stakes : List Stake
  pub pending_unlocks : List PendingUnlock

pub record GenesisDataEntry : Type 0 where
  pub init_rounds : ℕ
  pub init_validators : List Text

pub record PosStoreEntry : Type 0 where
  pub validators : List ValidatorEntry
  pub stakers : List Staker
  pub genesis_data : GenesisDataEntry

pub record DelegateWeight : Type 0 where
  pub address : Buffer
  pub vote_weight : ℕ

pub record VoteWeight : Type 0 where
  pub round : ℕ
  pub delegates : List DelegateWeight

-- The chain infos and terminated accounts are always empty lists, so their entries are left out.
pub record GenesisInteroperability : Type 0 where
  pub own_chain_name : Text
  pub own_chain_nonce : ℕ
  pub chain_infos : List (Unit {0})
  pub terminated_state_accounts : List (Unit {0})
  pub terminated_outbox_accounts : List (Unit {0})

-- The schema objects are constants of lisk-framework and of src/schemas.ts; an asset names its one.
pub data AssetSchema : Type 0 where
  genesis_auth_store_schema genesis_legacy_store_schema token_genesis_store_schema : AssetSchema
  pos_genesis_store_schema genesis_interoperability_schema : AssetSchema

-- What `data`, an untyped record in the source, holds for each module.
pub data AssetData : Type 0 where
  auth_data : List AuthStoreEntry → AssetData
  legacy_data : List LegacyStoreEntry → AssetData
  token_data : TokenStoreEntry → AssetData
  pos_data : PosStoreEntry → AssetData
  interoperability_data : GenesisInteroperability → AssetData

pub record GenesisAssetEntry : Type 0 where
  pub module_name : Text
  pub asset_data : AssetData
  pub schema : AssetSchema

pub record NetworkConfigLocal : Type 0 where
  pub name : Text
  pub token_id : Text
  pub prev_snapshot_block_height : ℕ
