-- ===== src/Utils/Node/Data.antt =====
-- `startLiskCore` of src/utils/node.ts with the files that its backup and its copy are about: the data
-- directory of v3, its backup and the legacy database of v4. That the two directories are different,
-- and that neither is in the other, is assumed.
use lisk_migrator.Common.{
  List, [], ◌∷◌, drop, length, ℕ, ◌++◌, Bool, Option, none, some, Text, codes, if◌then◌else◌,
  Result, ok, err, ◌>>=◌, external, file_exists,
}
use lisk_migrator.Constants.{legacy_db_path}
use lisk_migrator.Utils.Exception.{Attempt, success, failure}
use lisk_migrator.Utils.Fs.{FileNode, file, directory, Directory, nil, entry, find_entry}
use lisk_migrator.Utils.Node.{starts_with}
use lisk_migrator.Utils.Node.Legacy.{backup_data_dir, copy_legacy_database}
use lisk_migrator.Utils.Node.Start.{StartSteps, Progress, start_lisk_core}
use lisk_migrator.Utils.Path.{segments, System, resolve_absolute_path}

-- What stands at the data path of v3, at `LISK_V3_BACKUP_DATA_DIR` and at `LEGACY_DB_PATH`.
pub record Places : Type 0 where
  pub v3 : Option FileNode
  pub backup : Option FileNode
  pub legacy : Option FileNode

-- What is left: the places as they were; the data directory as the backup, where the copy failed, and what
-- it has made by then is not told; or the backup, with what stands at the data path of v3 and the legacy
-- database after the copy.
pub data Left : Type 0 where
  in_place : Left
  backed_up : FileNode → Left
  copied_to : FileNode → Option FileNode → Directory → Left

-- What stands at the target of `renameSync`, which fs-extra passes on from node's fs, afterwards. A
-- directory goes to where there is nothing or an empty directory, and a file to where there is no
-- directory; else the system's error, such as ENOENT, is thrown.
abbrev pub renamed : Option FileNode → Option FileNode → Result FileNode
renamed none target = err (external 2)
renamed (some source) none = ok source
renamed (some (directory entries)) (some (directory nil)) = ok (directory entries)
renamed (some (directory entries)) (some (directory (entry name node rest))) = err file_exists
renamed (some (directory entries)) (some (file content)) = err (external 20)
renamed (some (file content)) (some (file old)) = ok (file content)
renamed (some (file content)) (some (directory entries)) = err file_exists

-- What `readdir` reads.
abbrev pub directory_of : Option FileNode → Result Directory
directory_of none = err (external 2)
directory_of (some (file content)) = err (external 20)
directory_of (some (directory entries)) = ok entries

-- The directory `SNAPSHOT_DIR` of a data directory.
unfoldable pub snapshot_of : FileNode → Result Directory
unfolding find_entry
snapshot_of data_dir = do
  entries ← directory_of (some data_dir)
  data_entries ← directory_of (find_entry (codes "data") entries)
  directory_of (find_entry (codes "backup") data_entries)

abbrev pub outcome_of : {A : Type 0} → Attempt A → Result (Unit {0})
outcome_of (success value) = ok tt
outcome_of (failure thrown) = err thrown.reason

abbrev pub done : {A : Type 0} → Result A → Result (Unit {0})
done (ok value) = ok tt
done (err e) = err e

-- The legacy database is in the data directory of v3 if that is at its default path, and is moved with it.
unfoldable pub is_inside : System → Text → Bool
unfolding resolve_absolute_path starts_with
is_inside system lisk_core_v3_data_path =
    starts_with (lisk_core_v3_data_path ++ codes "/") (resolve_absolute_path system legacy_db_path)

-- A directory with nothing but another one at a path in it.
unfoldable pub holding : List Text → Directory → FileNode
holding [] db = directory db
holding (name ∷ path) db = directory (entry name (holding path db) nil)

-- Where the legacy database lies in the data directory of v3.
unfoldable pub path_inside : System → Text → List Text
unfolding resolve_absolute_path segments
path_inside system lisk_core_v3_data_path = segments (
    drop (length (lisk_core_v3_data_path ++ codes "/"))
      (resolve_absolute_path system legacy_db_path))

module _ (system : System) (lisk_core_v3_data_path : Text) (places : Places) where
  -- What the copy finds at its target, after the move.
  abbrev pub target : Option FileNode
  target = if is_inside system lisk_core_v3_data_path then none else places.legacy

  abbrev pub moved : Result FileNode
  moved = renamed places.v3 places.backup

  -- The legacy database that is made, if it is.
  unfoldable pub copied : Attempt Directory
  unfolding copy_legacy_database snapshot_of is_inside
  copied = copy_legacy_database (moved >>= snapshot_of) target

  -- The steps, with what `mkdirSync` comes to.
  unfoldable pub steps_on : StartSteps → Result (Unit {0}) → StartSteps
  unfolding backup_data_dir copied
  steps_on steps made = record steps {
    backup = outcome_of (backup_data_dir lisk_core_v3_data_path made (done moved));
    copy = outcome_of copied;
  }

  -- The copy comes after the move, and makes the directories above its target.
  abbrev pub v3_after : Directory → Option FileNode
  v3_after db =
      if is_inside system lisk_core_v3_data_path
      then some (holding (path_inside system lisk_core_v3_data_path) db)
      else none

  abbrev pub left_by : Attempt Directory → FileNode → Left
  left_by (success db) data_dir = copied_to data_dir (v3_after db) db
  left_by (failure thrown) data_dir = backed_up data_dir

  abbrev pub left_after : Progress → Result FileNode → Left
  left_after progress (err e) = in_place
  left_after progress (ok data_dir) =
      if progress.is_backed_up then left_by copied data_dir else in_place

  -- With the code of the exception, if one is thrown.
  unfoldable pub start_on :
      StartSteps → Result (Unit {0}) → Option ℕ → Text → Text → Option ℕ × Left
  unfolding start_lisk_core steps_on copied holding path_inside is_inside
  start_on steps made port network config_path =
      let (code, progress) = start_lisk_core (steps_on steps made) port network config_path in
      (code, left_after progress moved)
