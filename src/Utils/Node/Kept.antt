-- ===== src/Utils/Node/Kept.antt =====
-- What `startLiskCore` of src/utils/node.ts leaves of the data of v3.
use lisk_migrator.Common.{ℕ, ◌≡◌, ◌⊎◌, List, Option, none, some, Text, ok}
use lisk_migrator.Constants.{lisk_core_start, backup_legacy_data_dir, copy_legacy_db}
use lisk_migrator.Utils.Fs.{FileNode, Directory, entries_of, read_at}
use lisk_migrator.Utils.Fs.Overlay.{or_else}
use lisk_migrator.Utils.Node.Data.{
  Places, Left, snapshot_of, target, in_place, backed_up, copied_to, holding, path_inside,
}
use lisk_migrator.Utils.Path.{System}

module _ (system : System) (path : Text) (places : Places) where
  abbrev pub CopyOf : Directory → FileNode → Type 0
  CopyOf db data_dir =
      (snapshot : Directory) × (snapshot_of data_dir ≡ ok snapshot)
      × ((at : List Text)
          → read_at at db
            ≡ or_else (read_at at snapshot) (read_at at (entries_of (target system path places))))

  -- The data directory is as it was, and what stands at its path is nothing, or has nothing but the legacy
  -- database.
  abbrev pub Placed : Option ℕ → FileNode → Left → Type 0
  Placed code data_dir left =
      ((left ≡ backed_up data_dir) × (code ≡ some copy_legacy_db))
      ⊎ ((db : Directory) × (v3 : Option FileNode) × (left ≡ copied_to data_dir v3 db)
          × CopyOf db data_dir
          × ((v3 ≡ none) ⊎ (v3 ≡ some (holding (path_inside system path) db)))
          × ((code ≡ none) ⊎ (code ≡ some lisk_core_start)))

  abbrev pub Keeps : Option ℕ × Left → Type 0
  Keeps (code, left) =
      ((left ≡ in_place) × ((code ≡ some lisk_core_start) ⊎ (code ≡ some backup_legacy_data_dir)))
      ⊎ ((data_dir : FileNode) × (places.v3 ≡ some data_dir) × Placed code data_dir left)
