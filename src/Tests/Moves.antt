-- ===== src/Tests/Moves.antt =====
-- A start of v4 that moves the data directory of v3 and copies its snapshot.
use lisk_migrator.Common.{◌≡◌, refl, [], ◌∷◌, none, some, Text, codes, same, ok}
use lisk_migrator.Tests.Migration.{calls_with}
use lisk_migrator.Utils.Fs.{
  FileNode, Directory, nil, entry, file, directory, find_entry, copy_entries, copy_dir, put_entry,
}
use lisk_migrator.Utils.Node.{includes, starts_with, resolve_lisk_core_start_command}
use lisk_migrator.Utils.Node.Data.{
  copied_to, Places, snapshot_of, is_inside, copied, steps_on, start_on,
}
use lisk_migrator.Utils.Node.Legacy.{backup_data_dir, copy_legacy_database}
use lisk_migrator.Utils.Node.Start.{start_lisk_core}
use lisk_migrator.Utils.Path.{System, resolve_absolute_path}

abbrev snapshot : Directory
snapshot = entry (codes "MANIFEST") (file (1 ∷ [])) (entry (codes "CURRENT") (file (2 ∷ [])) nil)

-- data/backup in it.
abbrev data_dir : FileNode
data_dir = directory (
    entry (codes "data") (directory (entry (codes "backup") (directory snapshot) nil))
      (entry (codes "config.json") (file (3 ∷ [])) nil))

-- An empty directory at the place of the backup.
abbrev places : Places
places = record { v3 = some data_dir; backup = some (directory nil); legacy = none }

abbrev system : System
system = record { homedir = codes "/h"; cwd = codes "/w" }

abbrev path : Text
path = codes "/h/.lisk/lisk-core"

started :
    start_on system path places
      (calls_with (ok tt)).start
      (ok tt)
      none
      (codes "mainnet")
      (codes "c")
    ≡ (
      none,
      copied_to data_dir
          (some (
            directory (
              entry
                (codes "data")
                (directory (entry (codes "legacy.db") (directory snapshot) nil))
                nil)))
          snapshot,
    )
unfolding start_on start_lisk_core steps_on copied backup_data_dir copy_legacy_database snapshot_of
    is_inside resolve_absolute_path starts_with includes resolve_lisk_core_start_command copy_dir
    copy_entries find_entry put_entry same
started = refl
