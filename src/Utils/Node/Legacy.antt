-- ===== src/Utils/Node/Legacy.antt =====
-- The rest of src/utils/node.ts: whether v3 runs, the move of its data directory, the copy of its
-- database and the path of the configuration. The node, the system's calls and the files are parameters.
use lisk_migrator.Common.{
  ℕ, ◌++◌, Bool, true, false, not, Option, Text, codes, if◌then◌else◌, Result, ok, err, ◌>>=◌, ◌>>◌,
}
use lisk_migrator.Client.{Clients, get_api_client}
use lisk_migrator.Constants.{backup_legacy_data_dir, copy_legacy_db}
use lisk_migrator.Utils.Exception.{Attempt, with_code}
use lisk_migrator.Utils.Fs.{FileNode, Directory, copy_dir}
use lisk_migrator.Utils.Node.{includes}
use lisk_migrator.Utils.Path.{normalize}

-- `!!nodeInfo`, where an error of the node counts as one that has no information.
abbrev pub has_info : Result Bool → Bool
has_info (ok has) = has
has_info (err e) = false

abbrev pub answers : (ℕ → Result Bool) → Result ℕ × Clients → Bool × Clients
answers node_info (ok client, clients) = (has_info (node_info client), clients)
answers node_info (err e, clients) = (false, clients)

-- With whether a client gets the node's information.
unfoldable pub is_lisk_core_v3_running :
    (Text → ℕ → Result (Unit {0})) → (ℕ → Result Bool) → Text → Clients → Bool × Clients
unfolding get_api_client
is_lisk_core_v3_running connect node_info lisk_core_path clients =
    answers node_info (get_api_client connect lisk_core_path true clients)

-- With what `mkdirSync` and `renameSync` come to.
unfoldable pub backup_data_dir : Text → Result (Unit {0}) → Result (Unit {0}) → Attempt (Unit {0})
unfolding includes
backup_data_dir lisk_core_v3_data_path made renamed = with_code backup_legacy_data_dir (
    if not (includes (codes ".lisk/lisk-core") lisk_core_v3_data_path)
    then made >> renamed
    else renamed)

-- With the directory of the snapshot, if it can be read, and what stands at the place of the copy.
unfoldable pub copy_legacy_database : Result Directory → Option FileNode → Attempt Directory
unfolding copy_dir
copy_legacy_database snapshot dest =
    with_code copy_legacy_db (snapshot >>= λ src. copy_dir src dest)

-- With whether the output directory, which is absolute, has a configuration.
unfoldable pub get_final_config_path : Bool → Text → Text → Text → Text
unfolding normalize
get_final_config_path exists dirname output_dir network =
    if exists
    then normalize (output_dir ++ codes "/config.json")
    else normalize (dirname ++ codes "/../../config/" ++ network ++ codes "/config.json")
