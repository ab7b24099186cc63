-- ===== src/Utils/Node/Returns.antt =====
-- How far `startLiskCore` of src/utils/node.ts came, and what its backup and its copy have done where
-- they return.
use lisk_migrator.Common.{
  ◌≡◌, refl, sym, Bool, true, false, Option, none, some, Text, Error, Result, ok, err,
  if◌then◌else◌, ◌>>◌,
}
use lisk_migrator.Constants.{backup_legacy_data_dir, copy_legacy_db}
use lisk_migrator.Utils.Exception.{success, with_code}
use lisk_migrator.Utils.Fs.{FileNode, file, directory, Directory, nil, entry, copy_dir}
use lisk_migrator.Utils.Node.Data.{renamed, outcome_of, done, target}
use lisk_migrator.Utils.Node.Legacy.{backup_data_dir, copy_legacy_database}
use lisk_migrator.Utils.Node.Start.{throws}

pub renamed-source :
    (source target : Option FileNode) {node : FileNode}
    → renamed source target ≡ ok node
    → source ≡ some node
renamed-source none t h = absurd (cc)
renamed-source (some source) none h = cc
renamed-source (some (directory entries)) (some (directory nil)) h = cc
renamed-source (some (directory entries)) (some (directory (entry name node rest))) h = absurd (cc)
renamed-source (some (directory entries)) (some (file content)) h = absurd (cc)
renamed-source (some (file content)) (some (file old)) h = cc
renamed-source (some (file content)) (some (directory entries)) h = absurd (cc)

throws-with_code :
    (made : Result (Unit {0})) (b : Bool) (e : Error)
    → throws (
        outcome_of {A = Unit {0}}
          (with_code backup_legacy_data_dir (if b then made >> err e else err e)))
      ≡ true
throws-with_code (ok made) true e = refl
throws-with_code (err failed) true e = refl
throws-with_code made false e = refl

-- A backup that does not throw has moved the directory.
pub backup_returns :
    (path : Text) (made : Result (Unit {0})) (r : Result FileNode)
    → throws (outcome_of (backup_data_dir path made (done r))) ≡ false
    → (node : FileNode) × (r ≡ ok node)
unfolding backup_data_dir
backup_returns path made (ok node) h = (node, refl)
backup_returns path made (err e) h = absurd (cc (throws-with_code made _ e, h))

-- A copy that does not throw has read the snapshot.
pub copy_returns :
    (snapshot : Result Directory) (target : Option FileNode)
    → throws (outcome_of (copy_legacy_database snapshot target)) ≡ false
    → (db src : Directory) × (copy_legacy_database snapshot target ≡ success db)
      × (snapshot ≡ ok src)
      × (copy_dir src target ≡ ok db)
unfolding copy_legacy_database
copy_returns (err e) target h = absurd (cc)
copy_returns (ok src) target h = of_copy (copy_dir src target) refl h
  where
    of_copy :
        (r : Result Directory)
        → r ≡ copy_dir src target
        → throws (outcome_of (with_code copy_legacy_db r)) ≡ false
        → (db src' : Directory) × (with_code copy_legacy_db r ≡ success db)
          × (ok src ≡ ok src')
          × (copy_dir src' target ≡ ok db)
    of_copy (ok db) e h = (db, src, refl, refl, sym e)
    of_copy (err failed) e h = absurd (cc)
