-- ===== src/Tests/Keys.antt =====
-- Generator keys and the paging over a database of two blocks.
use lisk_migrator.Common.{
  ◌≡◌, ◌≢◌, refl, List, [], ◌∷◌, inl, none, some, Option, ok, same, Text, Bytes, replicate, take, ℕ,
  arith, codes, Result,
}
use lisk_migrator.Common.Dict.{lookup, contains, add, insert}
use lisk_migrator.Common.Sort.{compare_bytes}
use lisk_migrator.Assets.Pos.{validator_keys_of, address_of_key}
use lisk_migrator.Assets.Pos.Keys.{validator_keys_of_sound, validator_keys_of_complete, IsKeyOf}
use lisk_migrator.Constants.{db_key_blocks_id, db_key_transactions_id}
use lisk_migrator.Database.{Db, Entry, Holds, in_range}
use lisk_migrator.Encoding.Hex.{hex, from_hex}
use lisk_migrator.Encoding.Utf8.{utf8}
use lisk_migrator.Tests.Data.{crypto, alice}
use lisk_migrator.Utils.Block.{
  BlockHeader, Transaction, id_key, get_block_public_key_set, get_transaction_public_key_set,
}
use lisk_migrator.Utils.Block.Paging.Ids.{HaveIdKeys, are_bytes-IsByte}
use lisk_migrator.Utils.Block.Paging.Loop.{
  get_block_public_key_set_lem, get_transaction_public_key_set_lem, all_ids,
}

-- A key from which alice's address is derived.
abbrev alice_key : Text
alice_key = hex (replicate 32 9)

abbrev other_key : Text
other_key = hex (replicate 32 4)

validator_keys_of_sound_example :
    IsKeyOf crypto (alice ∷ []) (other_key ∷ []) (alice_key ∷ []) (hex (replicate 20 9)) alice_key
unfolding lookup validator_keys_of contains same hex add from_hex insert
validator_keys_of_sound_example =
    validator_keys_of_sound crypto (alice ∷ []) (other_key ∷ []) (alice_key ∷ [])
      (hex (replicate 20 9)) alice_key refl

validator_keys_of_complete_example :
    lookup same
      (address_of_key crypto other_key)
      (validator_keys_of crypto (alice ∷ []) (other_key ∷ []) (alice_key ∷ []))
    ≢ none
unfolding contains same hex
validator_keys_of_complete_example =
    validator_keys_of_complete crypto (alice ∷ []) (other_key ∷ []) (alice_key ∷ []) other_key
      (inl refl)

abbrev key_at : Text → ℕ → Bytes
key_at prefix b = id_key prefix (replicate 32 b)

-- A database as an ordered list of its entries.
abbrev stream_of : List Entry → Option ℕ → Bytes → Bytes → List Entry
stream_of entries (some n) low high = take n (in_range low high entries)
stream_of entries none low high = in_range low high entries

abbrev db_of : List Entry → Db
db_of entries = record {
  get = λ key. ok key;
  create_read_stream = λ options. ok (stream_of entries options.limit options.gte options.lte);
}

abbrev two_entries : Text → List Entry
two_entries prefix = (key_at prefix 1, 50 ∷ []) ∷ (key_at prefix 2, 60 ∷ []) ∷ []

blocks_hold : Holds (db_of (two_entries db_key_blocks_id)) (two_entries db_key_blocks_id)
unfolding utf8 compare_bytes
blocks_hold = record { ascending = ((refl, tt), (tt, tt)); read = λ low high n. refl }

blocks-HaveIdKeys :
    HaveIdKeys db_key_blocks_id (all_ids db_key_blocks_id (two_entries db_key_blocks_id))
unfolding utf8 compare_bytes
blocks-HaveIdKeys = (
  (replicate 32 1, refl, refl, are_bytes-IsByte (replicate 32 1) refl),
  ((replicate 32 2, refl, refl, are_bytes-IsByte (replicate 32 2) refl), tt),
)

transactions_hold :
    Holds (db_of (two_entries db_key_transactions_id)) (two_entries db_key_transactions_id)
unfolding utf8 compare_bytes
transactions_hold = record { ascending = ((refl, tt), (tt, tt)); read = λ low high n. refl }

transactions-HaveIdKeys :
    HaveIdKeys db_key_transactions_id
      (all_ids db_key_transactions_id (two_entries db_key_transactions_id))
unfolding utf8 compare_bytes
transactions-HaveIdKeys = (
  (replicate 32 1, refl, refl, are_bytes-IsByte (replicate 32 1) refl),
  ((replicate 32 2, refl, refl, are_bytes-IsByte (replicate 32 2) refl), tt),
)

abbrev decode_header : Bytes → Result BlockHeader
decode_header value =
    ok (record { id = []; height = 0; timestamp = 0; generator_public_key = value })

abbrev decode_transaction : Bytes → Result Transaction
decode_transaction value = ok (record { sender_public_key = value })

-- One entry for each page: the loop reads three pages.
get_block_public_key_set_lem_example :
    get_block_public_key_set 3 (db_of (two_entries db_key_blocks_id)) decode_header 1
    ≡ ok (codes "32" ∷ codes "3c" ∷ [])
unfolding utf8 compare_bytes add contains hex same
get_block_public_key_set_lem_example =
    get_block_public_key_set_lem 3 (db_of (two_entries db_key_blocks_id)) decode_header 0
      (two_entries db_key_blocks_id) (λ value. value) blocks_hold blocks-HaveIdKeys
      (refl, (refl, tt)) (omega arith)

get_transaction_public_key_set_lem_example :
    get_transaction_public_key_set 3
      (db_of (two_entries db_key_transactions_id))
      decode_transaction
      2
    ≡ ok (codes "32" ∷ codes "3c" ∷ [])
unfolding utf8 compare_bytes add contains hex same
get_transaction_public_key_set_lem_example =
    get_transaction_public_key_set_lem 3 (db_of (two_entries db_key_transactions_id))
      decode_transaction 1 (two_entries db_key_transactions_id) (λ value. value) transactions_hold
      transactions-HaveIdKeys (refl, (refl, tt)) (omega arith)
