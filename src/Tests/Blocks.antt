-- ===== src/Tests/Blocks.antt =====
-- The look-up of a block's header by its height in a database of two blocks.
use lisk_migrator.Common.{
  ◌≡◌, refl, [], ◌∷◌, some, none, ok, err, external, same, Bytes, Option, Result, replicate, arith,
}
use lisk_migrator.Common.Dict.{lookup}
use lisk_migrator.Database.{Db}
use lisk_migrator.Utils.Block.{BlockHeader, get_block_header_by_height}
use lisk_migrator.Utils.Block.Heights.{StoredBlock, entries_of, get_block_header_by_height_lem}
use lisk_migrator.Utils.Block.Paging.Ids.{are_bytes-IsByte}

abbrev first : StoredBlock
first = record { height = 256; id = replicate 32 1; header = 1 ∷ [] }

abbrev second : StoredBlock
second = record { height = 257; id = replicate 32 2; header = 2 ∷ [] }

abbrev or_not_found : Option Bytes → Result Bytes
or_not_found none = err (external 0)
or_not_found (some value) = ok value

abbrev db : Db
db = record {
  get = λ key. or_not_found (lookup same key (entries_of (first ∷ second ∷ [])));
  create_read_stream = λ options. ok [];
}

abbrev decode : Bytes → Result BlockHeader
decode value = ok (record { id = []; height = 257; timestamp = 7; generator_public_key = value })

get_block_header_by_height_lem_example :
    get_block_header_by_height db decode 257
    ≡ ok
        (record { id = replicate 32 2; height = 257; timestamp = 7; generator_public_key = 2 ∷ [] })
get_block_header_by_height_lem_example =
    get_block_header_by_height_lem db decode (first ∷ []) second [] _ (λ key value e. rw e refl)
      (omega arith, refl, are_bytes-IsByte (replicate 32 2) refl)
      (
        ((omega arith, refl, are_bytes-IsByte (replicate 32 1) refl), (λ e. omega arith, λ e. cc)),
        tt,
      )
      refl
