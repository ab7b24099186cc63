-- ===== src/Tests/Files.antt =====
-- The files, the downloads and the clients on small inputs.
use lisk_migrator.Common.{
  ℕ, ◌≡◌, refl, [], ◌∷◌, ◌++◌, true, false, none, some, Text, codes, same, if◌then◌else◌, Result,
  ok,
}
use lisk_migrator.Common.Dict.{lookup, insert}
use lisk_migrator.Client.{Clients, get_api_client, get_api_client_again}
use lisk_migrator.Utils.Download.{Host, Disk, download_and_extract}
use lisk_migrator.Utils.Download.Verified.{seen, expected, download_and_extract_lem}
use lisk_migrator.Utils.Fs.{
  Directory, nil, entry, file, directory, copy_dir, copy_entries, read_at, is_tree, find_entry,
  put_entry,
}
use lisk_migrator.Utils.Fs.Copy.{copy_dir-none}
use lisk_migrator.Utils.Fs.Overlay.{copy_dir-Overlays, or_else}
use lisk_migrator.Utils.GenesisBlock.{Files, Tools, write_genesis_block}
use lisk_migrator.Utils.GenesisBlock.Files.{IsChecked, write_genesis_block_lem}

-- d/b and a.
abbrev source : Directory
source =
    entry (codes "d") (directory (entry (codes "b") (file (1 ∷ [])) nil))
      (entry (codes "a") (file (2 ∷ [])) nil)

-- d/c and another d/b.
abbrev target : Directory
target =
    entry (codes "d")
      (directory (entry (codes "c") (file (3 ∷ [])) (entry (codes "b") (file (4 ∷ [])) nil))) nil

abbrev merged : Directory
merged =
    entry (codes "d")
      (directory (entry (codes "c") (file (3 ∷ [])) (entry (codes "b") (file (1 ∷ [])) nil)))
      (entry (codes "a") (file (2 ∷ [])) nil)

copied : copy_dir source (some (directory target)) ≡ ok merged
unfolding copy_dir copy_entries find_entry put_entry same
copied = refl

source_tree : is_tree source ≡ true
unfolding is_tree same
source_tree = refl

copy_dir-Overlays_example :
    read_at (codes "d" ∷ codes "b" ∷ []) merged
    ≡ or_else
        (read_at (codes "d" ∷ codes "b" ∷ []) source)
        (read_at (codes "d" ∷ codes "b" ∷ []) target)
copy_dir-Overlays_example =
    copy_dir-Overlays source (some (directory target)) source_tree copied
      (codes "d" ∷ codes "b" ∷ [])

copy_dir-none_example : copy_dir source none ≡ ok source
copy_dir-none_example = copy_dir-none source source_tree

-- The server has one snapshot and the file of its checksum.
abbrev host : Host
host = record {
  server = λ url.
      if same url (codes "https://h/a.tar.gz") then ok (5 ∷ []) else ok (codes "0505 a.tar.gz");
  sha256 = λ bytes. bytes ++ bytes;
  text_of = λ bytes. bytes;
  unpack = λ bytes. ((codes "db", bytes) ∷ [], none);
}

abbrev disk : Disk
disk = record { files = (codes "a.tar.gz", 9 ∷ []) ∷ []; extracted = [] }

download_and_extract_lem_example :
    seen host (download_and_extract host (codes "https://h/a.tar.gz") disk)
    ≡ expected host
        (host.server (codes "https://h/a.tar.gz"))
        (host.server (codes "https://h/a.tar.gz.SHA256"))
        []
download_and_extract_lem_example = download_and_extract_lem host (codes "https://h/a.tar.gz") disk

abbrev connect : Text → ℕ → Result (Unit {0})
connect path created = ok tt

abbrev clients : Clients
clients = record { client_cache = (codes "p", 0) ∷ []; created = 1 }

abbrev renewed : Clients
renewed = record { client_cache = (codes "p", 1) ∷ []; created = 2 }

forced : get_api_client connect (codes "p") true clients ≡ (ok 1, renewed)
unfolding get_api_client lookup insert same
forced = refl

get_api_client_again_example :
    (get_api_client connect (codes "p") false renewed ≡ (ok 1, renewed))
    × ((other : Text)
        → lookup same other renewed.client_cache
          ≡ (if same other (codes "p") then some 1 else lookup same other clients.client_cache))
get_api_client_again_example = get_api_client_again connect (codes "p") true clients forced

abbrev tools : Tools
tools = record { sha256 = λ bytes. bytes ++ bytes; tar_gz = λ name bytes. 0 ∷ bytes }

abbrev block_files : Files
block_files = (codes "genesis_block.blob", 1 ∷ []) ∷ (codes "genesis_block.json", 2 ∷ []) ∷ []

blob_there : lookup same (codes "genesis_block.blob") block_files ≡ some (1 ∷ [])
unfolding lookup same
blob_there = refl

json_there : lookup same (codes "genesis_block.json") block_files ≡ some (2 ∷ [])
unfolding lookup same
json_there = refl

write_genesis_block_lem_example :
    (files' : Files) × (write_genesis_block tools block_files ≡ ok files')
    × IsChecked tools files' (codes "genesis_block.blob")
    × IsChecked tools files' (codes "genesis_block.blob.tar.gz")
    × IsChecked tools files' (codes "genesis_block.json")
    × IsChecked tools files' (codes "genesis_block.json.tar.gz")
write_genesis_block_lem_example =
    write_genesis_block_lem tools block_files (1 ∷ []) (2 ∷ []) blob_there json_there
