-- ===== src/Utils/GenesisBlock.antt =====
-- src/utils/genesis_block.ts. The files are those of the output directory, by their names. SHA-256 and
-- the packing into a tarball are parameters, and so is the run of a command.
pub mod Files
use lisk_migrator.Common.{
  ℕ, ◌+◌, List, ◌++◌, Option, none, some, Bytes, Text, codes, same, Result, ok, err, ◌>>=◌,
  undefined_property,
}
use lisk_migrator.Common.Dict.{lookup, insert}
use lisk_migrator.Constants.{
  snapshot_time_gap, genesis_block_create, file_genesis_block_blob, file_genesis_block_json,
  file_genesis_assets,
}
use lisk_migrator.Encoding.Decimal.{decimal}
use lisk_migrator.Encoding.Hex.{hex}
use lisk_migrator.Utils.Block.{BlockHeader}

-- What `createGenesisBlock` runs, which its module variable keeps.
unfoldable pub command_for : Text → Text → Text → BlockHeader → Text
command_for network config_filepath output_dir header =
    codes "lisk-core genesis-block:create --network "
    ++ network
    ++ codes " --config="
    ++ config_filepath
    ++ codes " --output="
    ++ output_dir
    ++ codes " --assets-file="
    ++ output_dir
    ++ codes "/genesis_assets.json --height="
    ++ decimal (header.height + 1)
    ++ codes " --previous-block-id="
    ++ hex header.id
    ++ codes " --timestamp="
    ++ decimal (header.timestamp + snapshot_time_gap)
    ++ codes " --export-json"

abbrev pub Files : Type 0
Files = List (Text × Bytes)

-- A file that is not there rejects the read.
unfoldable pub read_file : Text → Files → Result Bytes
unfolding lookup
read_file name files = elim (lookup same name files) [
  | none ↦ err undefined_property
  | some content ↦ ok content
]

pub record Tools : Type 0 where
  pub sha256 : Bytes → Bytes
  -- the tarball of the file with a name and a content
  pub tar_gz : Text → Bytes → Bytes

module _ (tools : Tools) where
  unfoldable pub create_checksum : Text → Files → Result Text
  unfolding read_file
  create_checksum name files = do content ← read_file name files; ok (hex (tools.sha256 content))

  unfoldable pub create_tarball : Text → Files → Result Files
  unfolding read_file insert
  create_tarball name files = do
    content ← read_file name files
    ok (insert same (name ++ codes ".tar.gz") (tools.tar_gz name content) files)

  -- The checksum of a file, its tarball and the checksum of that.
  unfoldable pub write_with_checksums : Text → Files → Result Files
  unfolding create_checksum create_tarball insert
  write_with_checksums name files = do
    hash ← create_checksum name files
    packed ← create_tarball name (insert same (name ++ codes ".SHA256") hash files)
    tarball_hash ← create_checksum (name ++ codes ".tar.gz") packed
    ok (insert same (name ++ codes ".tar.gz.SHA256") tarball_hash packed)

  unfoldable pub write_genesis_block : Files → Result Files
  unfolding write_with_checksums
  write_genesis_block files = do
    with_blob ← write_with_checksums file_genesis_block_blob files
    write_with_checksums file_genesis_block_json with_blob

-- With the text that `JSON.stringify` makes of the assets.
unfoldable pub write_genesis_assets : Bytes → Files → Files
unfolding insert
write_genesis_assets json files = insert same file_genesis_assets json files

-- `copyFile`, over whatever is there.
unfoldable pub copy_genesis_block : Text → Text → Files → Result Files
unfolding read_file insert
copy_genesis_block curr_genesis_block_filepath lisk_core_v4_config_path files = do
  content ← read_file curr_genesis_block_filepath files
  ok (insert same lisk_core_v4_config_path content files)
