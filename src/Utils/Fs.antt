-- ===== src/Utils/Fs.antt =====
-- `copyDir` of src/utils/fs.ts on a tree of files, where neither directory lies in the other. The other
-- functions of that file are single calls of the system.
pub mod Trees
pub mod Copy
pub mod Overlay
use lisk_migrator.Common.{
  ◌||◌, not, ◌&&◌, Bool, true, false, Option, none, some, Bytes, Text, same, if◌then◌else◌, List,
  [], ◌∷◌, Error, Result, ok, err, ◌>>=◌, file_exists,
}

mutual
  pub data FileNode : Type 0 where
    file : Bytes → FileNode
    directory : Directory → FileNode

  -- The entries of a directory, by their names.
  pub data Directory : Type 0 where
    nil : Directory
    entry : Text → FileNode → Directory → Directory

unfoldable pub find_entry : Text → Directory → Option FileNode
find_entry name nil = none
find_entry name (entry other node rest) =
    let later = find_entry name rest in if same name other then some node else later

unfoldable pub put_entry : Text → FileNode → Directory → Directory
put_entry name node nil = entry name node nil
put_entry name node (entry other old rest) =
    let later = put_entry name node rest in
    if same name other then entry other node rest else entry other old later

-- `mkdir(dest, { recursive: true })` accepts a directory, not a file.
abbrev pub make_dir : Option FileNode → Result Directory
make_dir none = ok nil
make_dir (some (file content)) = err file_exists
make_dir (some (directory entries)) = ok entries

-- `copyFile` writes over a file, not over a directory.
abbrev pub copy_file : Text → Bytes → Option FileNode → Directory → Result Directory
copy_file name content (some (directory entries)) dest = err file_exists
copy_file name content (some (file old)) dest = ok (put_entry name (file content) dest)
copy_file name content none dest = ok (put_entry name (file content) dest)

-- The loop over the files of `src`.
unfoldable pub copy_entries : Directory → Directory → Result Directory
unfolding find_entry put_entry
copy_entries nil dest = ok dest
copy_entries (entry name (file content) rest) dest = do
  copied ← copy_file name content (find_entry name dest) dest
  copy_entries rest copied
copy_entries (entry name (directory entries) rest) dest = do
  made ← make_dir (find_entry name dest)
  copied ← copy_entries entries made
  copy_entries rest (put_entry name (directory copied) dest)

-- `copyDir`, with what is at `dest`.
unfoldable pub copy_dir : Directory → Option FileNode → Result Directory
unfolding copy_entries
copy_dir src dest = do made ← make_dir dest; copy_entries src made

-- The content of the file at a path below a directory.
abbrev pub content_of : Option FileNode → Option Bytes
content_of (some (file content)) = some content
content_of _ = none

abbrev pub entries_of : Option FileNode → Directory
entries_of (some (directory entries)) = entries
entries_of _ = nil

unfoldable pub read_at : List Text → Directory → Option Bytes
unfolding find_entry
read_at [] dir = none
read_at (name ∷ []) dir = content_of (find_entry name dir)
read_at (name ∷ next ∷ path) dir = read_at (next ∷ path) (entries_of (find_entry name dir))

-- No two entries of a directory have the same name, here and below.
abbrev pub has_entry : Text → Directory → Bool
has_entry name nil = false
has_entry name (entry other node rest) = same name other || has_entry name rest

-- Nested matches, so that it is one function on directories.
unfoldable pub is_tree : Directory → Bool
is_tree nil = true
is_tree (entry name (file content) rest) = not (has_entry name rest) && is_tree rest
is_tree (entry name (directory entries) rest) =
    not (has_entry name rest) && (is_tree entries && is_tree rest)
