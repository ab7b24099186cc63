-- ===== src/Utils/Block.antt =====
-- src/utils/block.ts, with the paging loop that `getTransactionPublicKeySet` of
-- src/utils/transaction.ts repeats.
pub mod Paging
pub mod Heights
use lisk_migrator.Common.{
  ℕ, zero, suc, List, [], ◌∷◌, ◌++◌, Bool, true, false, some, Bytes, Text, codes, replicate, same,
  Result, ok, err, in_handler, no_fuel, ◌>>=◌,
}
use lisk_migrator.Common.Dict.{add}
use lisk_migrator.Common.Int.{pos}
use lisk_migrator.Constants.{db_key_blocks_height, db_key_blocks_id, db_key_transactions_id}
use lisk_migrator.Database.{Db, Entry, ReadOptions}
use lisk_migrator.Encoding.Hex.{hex}
use lisk_migrator.Encoding.Utf8.{utf8}
use lisk_migrator.Utils.Number.{number, format_int}
use lisk_migrator.Utils.Transaction.{key_string, increment_one}

-- The fields of a block header that the migrator reads.
pub record BlockHeader : Type 0 where
  pub id : Bytes
  pub height : ℕ
  pub timestamp : ℕ
  pub generator_public_key : Bytes

-- The 'data' events are decoded one after the other. A value that the codec refuses rejects the
-- asynchronous handler, which nothing awaits.
unfoldable pub get_data_from_db_stream :
    {A : Type 0} → (Bytes → Result A) → Result (List Entry) → Result (List A)
get_data_from_db_stream decode (err e) = err e
get_data_from_db_stream decode (ok []) = ok []
get_data_from_db_stream decode (ok ((_, value) ∷ events)) = do
  decoded ← in_handler (decode value)
  rest ← get_data_from_db_stream decode (ok events)
  ok (decoded ∷ rest)

-- The variables of one round of the loop.
pub record Page : Type 0 where
  pub exist : Bool
  pub result : List Text
  pub last_key : Bytes

-- The handler of the 'data' events, with `public_key` for the codec and the field that is read.
on_data : (Bytes → Result Bytes) → List Entry → Page → Result Page
on_data public_key [] page = ok page
on_data public_key ((key, value) ∷ events) page = do
  found ← in_handler (public_key value)
  on_data public_key events
      (record { exist = true; result = add same (hex found) page.result; last_key = key })

-- `while (true)`, with fuel for the rounds.
page_loop : ℕ → Db → (Bytes → Result Bytes) → Bytes → ℕ → Bytes → List Text → Result (List Text)
page_loop zero db public_key last page_size starting_key result = err no_fuel
page_loop (suc fuel) db public_key last page_size starting_key result = do
  events ← db.create_read_stream (record { gte = starting_key; lte = last; limit = some page_size })
  page ←
      on_data public_key events (record { exist = false; result = result; last_key = starting_key })
  elim page.exist [
    | false ↦ ok page.result
    | true ↦
        (increment_one page.last_key >>= λ next.
        page_loop fuel db public_key last page_size next page.result)
  ]

-- `Buffer.from(`${prefix}:${keyString(id)}`)`
abbrev pub id_key : Text → Bytes → Bytes
id_key prefix id = utf8 (prefix ++ codes ":" ++ key_string id)

unfoldable pub get_block_public_key_set :
    ℕ → Db → (Bytes → Result BlockHeader) → ℕ → Result (List Text)
unfolding page_loop on_data
get_block_public_key_set fuel db decode page_size =
    page_loop fuel db (λ value. decode value >>= λ header. ok header.generator_public_key)
      (id_key db_key_blocks_id (replicate 32 255)) page_size
      (id_key db_key_blocks_id (replicate 32 0)) []

-- The fields of a transaction that the migrator reads.
pub record Transaction : Type 0 where
  pub sender_public_key : Bytes

unfoldable pub get_transaction_public_key_set :
    ℕ → Db → (Bytes → Result Transaction) → ℕ → Result (List Text)
unfolding page_loop on_data
get_transaction_public_key_set fuel db decode page_size =
    page_loop fuel db (λ value. decode value >>= λ tx. ok tx.sender_public_key)
      (id_key db_key_transactions_id (replicate 32 255)) page_size
      (id_key db_key_transactions_id (replicate 32 0)) []

-- `Buffer.from(`${DB_KEY_BLOCKS_HEIGHT}:${stringHeight}`)`
abbrev pub height_key : Text → Bytes
height_key string_height = utf8 (db_key_blocks_height ++ codes ":" ++ string_height)

unfoldable pub get_block_header_by_height :
    Db → (Bytes → Result BlockHeader) → ℕ → Result BlockHeader
get_block_header_by_height db decode height = do
  string_height ← format_int (number (pos height))
  id ← db.get (height_key string_height)
  block_header_buffer ← db.get (id_key db_key_blocks_id id)
  block_header ← decode block_header_buffer
  ok (record block_header { id = id })
