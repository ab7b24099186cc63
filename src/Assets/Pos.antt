-- ===== src/Assets/Pos.antt =====
-- src/assets/pos.ts
pub mod Bans
pub mod Keys
use lisk_migrator.Common.{
  ℕ, ◌+◌, ◌-◌, ◌/◌, List, [], ◌∷◌, ◌++◌, map, take, find, Bool, true, false, not, ◌||◌, Option,
  none, some, Bytes, Text, same, ◌==◌, if◌then◌else◌, Result, ok, err, ◌>>=◌, divide_by_zero,
  vote_weights_unavailable,
}
use lisk_migrator.Common.Dict.{lookup, insert, add, contains}
use lisk_migrator.Common.Sort.{sort, compare_on, compare_bytes}
use lisk_migrator.Constants.{
  module_name_pos, empty_string, invalid_bls_key, dummy_proof_of_possession, invalid_ed25519_key,
  max_commission, q96_zero, pos_init_rounds, round_length,
}
use lisk_migrator.Crypto.{Crypto}
use lisk_migrator.Database.{Db}
use lisk_migrator.Encoding.Hex.{hex, from_hex}
use lisk_migrator.Types.{
  Account, Vote, Unlocking, PendingUnlock, ValidatorEntryBuffer, ValidatorEntry, Stake, Staker,
  StakerBuffer, VoteWeight, DelegateWeight, GenesisDataEntry, GenesisAssetEntry, pos_data,
  pos_genesis_store_schema,
}
use lisk_migrator.Utils.Block.{
  BlockHeader, Transaction, get_block_public_key_set, get_transaction_public_key_set,
}

-- Of natural numbers, where `a + b - 1` is not negative.
unfoldable pub ceiling : ℕ → ℕ → Result ℕ
ceiling a b = if b == 0 then err divide_by_zero else ok ((a + b - 1) / b)

-- The addresses of the delegates: `delegateSet`.
delegate_set : List Account → List Text → List Text
delegate_set [] addresses = addresses
delegate_set (account ∷ accounts) addresses = delegate_set accounts (
    if not (same account.dpos.delegate.username [])
    then add same (hex account.address.bytes) addresses
    else addresses)

module _ (c : Crypto) where
  abbrev pub address_of_key : Text → Text
  address_of_key key = hex (c.address_of_public_key (from_hex key))

  block_keys : List Text → List (Text × Text) → List (Text × Text)
  block_keys [] keys = keys
  block_keys (key ∷ set) keys = block_keys set (insert same (address_of_key key) key keys)

  tx_keys :
      (delegates block_public_key_set : List Text)
      → List Text
      → List (Text × Text)
      → List (Text × Text)
  tx_keys delegates block_public_key_set [] keys = keys
  tx_keys delegates block_public_key_set (key ∷ set) keys =
      tx_keys delegates block_public_key_set set (
        if contains same key block_public_key_set
        then keys
        else if contains same (address_of_key key) delegates
        then insert same (address_of_key key) key keys
        else keys)

  -- The two loops over the sets of public keys.
  unfoldable pub validator_keys_of :
      List Account → (block_public_key_set tx_public_key_set : List Text) → List (Text × Text)
  unfolding delegate_set block_keys tx_keys
  validator_keys_of accounts block_public_key_set tx_public_key_set =
      tx_keys (delegate_set accounts []) block_public_key_set tx_public_key_set
        (block_keys block_public_key_set [])

  unfoldable pub get_validator_keys :
      ℕ
      → (Bytes → Result BlockHeader)
      → (Bytes → Result Transaction)
      → List Account
      → Db
      → ℕ
      → Result (List (Text × Text))
  unfolding validator_keys_of
  get_validator_keys fuel decode_header decode_tx accounts db page_size = do
    block_public_key_set ← get_block_public_key_set fuel db decode_header page_size
    tx_public_key_set ← get_transaction_public_key_set fuel db decode_tx page_size
    ok (validator_keys_of accounts block_public_key_set tx_public_key_set)

-- `key || INVALID_ED25519_KEY`: a missing key and an empty one are both falsy.
abbrev pub or_invalid_key : Option Text → Text
or_invalid_key none = invalid_ed25519_key
or_invalid_key (some []) = invalid_ed25519_key
or_invalid_key (some (c ∷ s)) = c ∷ s

unfoldable pub create_validators_array_entry :
    Account → List (Text × Text) → ℕ → Text → Option ValidatorEntryBuffer
create_validators_array_entry account validator_keys snapshot_height token_id =
    if not (same account.dpos.delegate.username empty_string)
    then some (record {
      address = account.address.bytes;
      name = account.dpos.delegate.username;
      bls_key = invalid_bls_key;
      proof_of_possession = dummy_proof_of_possession;
      generator_key = or_invalid_key (lookup same (hex account.address.bytes) validator_keys);
      last_generated_height = account.dpos.delegate.last_forged_height;
      is_banned = true;
      report_misbehavior_heights = account.dpos.delegate.pom_heights;
      consecutive_missed_blocks = account.dpos.delegate.consecutive_missed_blocks;
      commission = max_commission;
      last_commission_increase_height = snapshot_height;
      sharing_coefficients = record { token_id = token_id; coefficient = q96_zero } ∷ [];
    })
    else none

abbrev pub stake_of : Crypto → Text → Vote → Stake
stake_of c token_id vote = record {
  validator_address = c.lisk32_address vote.delegate_address;
  amount = vote.amount;
  sharing_coefficients = record { token_id = token_id; coefficient = q96_zero } ∷ [];
}

-- The stakes are made before the sort, which looks at the vote's address alone.
unfoldable pub get_stakes : Crypto → Account → Text → List Stake
get_stakes c account token_id =
    map (stake_of c token_id) (sort (compare_on (λ v. v.delegate_address)) account.dpos.sent_votes)

abbrev pub unlock_of : Crypto → Unlocking → PendingUnlock
unlock_of c unlock = record {
  validator_address = c.lisk32_address unlock.delegate_address;
  amount = unlock.amount;
  unstake_height = unlock.unvote_height;
}

abbrev pub is_empty {ℓ} : {A : Type ℓ} → List A → Bool
is_empty [] = true
is_empty (x ∷ xs) = false

unfoldable pub create_stakers_array_entry : Crypto → Account → Text → Option StakerBuffer
unfolding get_stakes
create_stakers_array_entry c account token_id =
    if not (is_empty account.dpos.sent_votes) || not (is_empty account.dpos.unlocking)
    then some (record {
      address = account.address.bytes;
      stakes = get_stakes c account token_id;
      pending_unlocks = map (unlock_of c) account.dpos.unlocking;
    })
    else none

-- `new Map(accounts.map(…))`. Its keys are Buffer objects, which a Map tells apart by identity.
account_banned_map : List Account → List (ℕ × Bool) → List (ℕ × Bool)
account_banned_map [] banned = banned
account_banned_map (account ∷ accounts) banned =
    account_banned_map accounts
      (insert ◌==◌ account.address.ref account.dpos.delegate.is_banned banned)

-- `!isAccountBanned`, true for `undefined` also.
abbrev pub is_not_banned : Option Bool → Bool
is_not_banned (some true) = false
is_not_banned (some false) = true
is_not_banned none = true

-- The `forEach` over the delegates.
unbanned : List (ℕ × Bool) → List DelegateWeight → List Bytes
unbanned banned [] = []
unbanned banned (delegate ∷ delegates) =
    let rest = unbanned banned delegates in
    if is_not_banned (lookup ◌==◌ delegate.address.ref banned)
    then delegate.address.bytes ∷ rest
    else rest

genesis_data_of : Crypto → List Bytes → GenesisDataEntry
genesis_data_of c init_validators = record {
  init_rounds = pos_init_rounds;
  init_validators = map c.lisk32_address (sort compare_bytes (take 101 init_validators));
}

-- From `voteWeightR2` on; the message of the error names r - 2.
genesis_data_at : Crypto → List Account → ℕ → Option VoteWeight → Result GenesisDataEntry
unfolding account_banned_map unbanned genesis_data_of
genesis_data_at c accounts r none = err (vote_weights_unavailable r)
genesis_data_at c accounts r (some vote_weight_r2) =
    if is_empty vote_weight_r2.delegates
    then err (vote_weights_unavailable r)
    else ok (genesis_data_of c (unbanned (account_banned_map accounts []) vote_weight_r2.delegates))

-- `voteWeight.round === r - 2`, where `r - 2` may be negative.
unfoldable pub create_genesis_data_obj :
    Crypto → List Account → List VoteWeight → ℕ → Result GenesisDataEntry
unfolding ceiling genesis_data_at
create_genesis_data_obj c accounts vote_weights snapshot_height = do
  r ← ceiling snapshot_height round_length
  genesis_data_at c accounts r (find (λ vote_weight. (vote_weight.round + 2) == r) vote_weights)

unfoldable pub get_pos_module_entry :
    List ValidatorEntry → List Staker → GenesisDataEntry → GenesisAssetEntry
get_pos_module_entry validators stakers genesis_data = record {
  module_name = module_name_pos;
  asset_data =
      pos_data (record { validators = validators; stakers = stakers; genesis_data = genesis_data });
  schema = pos_genesis_store_schema;
}
