-- ===== src/Utils/Path.antt =====
-- src/utils/path.ts, with the functions of node's `path` module that it and other files call, on
-- POSIX. The home directory and the working directory are the system's.
pub mod Spellings
use lisk_migrator.Common.{
  ℕ, ◌==◌, List, [], ◌∷◌, ◌++◌, Bool, true, false, not, ◌||◌, Option, none, some, Text, codes, same,
  if◌then◌else◌, Result, ok, err, output_path_not_allowed, undefined_property,
}
use lisk_migrator.Constants.{default_lisk_core_path, snapshot_dir}
use lisk_migrator.Utils.Config.{truthy_text}
use lisk_migrator.Utils.Node.{starts_with, ends_in}

-- `text.split('/')`
abbrev pub extend : ℕ → List Text → List Text
extend c [] = (c ∷ []) ∷ []
extend c (t ∷ ts) = (c ∷ t) ∷ ts

unfoldable pub segments : Text → List Text
segments [] = [] ∷ []
segments (c ∷ s) = elim (c == 47) [ true ↦ [] ∷ segments s | false ↦ extend c (segments s) ]

-- `isAbsolute`
unfoldable pub is_absolute : Text → Bool
unfolding starts_with
is_absolute path = starts_with (codes "/") path

-- One segment, onto those before it, the last one first: `.` stays and `..` goes back, above the root
-- no further, and above a relative path's start it is kept.
abbrev pub go_back : Bool → List Text → List Text
go_back absolute [] = if absolute then [] else codes ".." ∷ []
go_back absolute (t ∷ ts) = if same t (codes "..") then codes ".." ∷ t ∷ ts else ts

unfoldable pub go : Bool → List Text → Text → List Text
unfolding same
go absolute before segment =
    if same segment [] || same segment (codes ".")
    then before
    else if same segment (codes "..")
    then go_back absolute before
    else segment ∷ before

unfoldable pub go_all : Bool → List Text → List Text → List Text
unfolding go
go_all absolute before [] = before
go_all absolute before (segment ∷ rest) = go_all absolute (go absolute before segment) rest

-- The segments, the last one first, with a `/` between two of them.
unfoldable pub render : List Text → Text
render [] = []
render (t ∷ []) = t
render (t ∷ u ∷ ts) = render (u ∷ ts) ++ codes "/" ++ t

-- The end of `normalize`: the root, `.` for nothing, and the `/` at the end.
abbrev pub finished : Bool → Bool → Text → Text
finished true trailing [] = codes "/"
finished true trailing (c ∷ s) =
    if trailing then codes "/" ++ (c ∷ s) ++ codes "/" else codes "/" ++ (c ∷ s)
finished false trailing [] = if trailing then codes "./" else codes "."
finished false trailing (c ∷ s) = if trailing then (c ∷ s) ++ codes "/" else c ∷ s

-- `normalize` of a path that is not empty.
unfoldable pub normalize : Text → Text
unfolding is_absolute ends_in segments go_all render
normalize path =
    let absolute = is_absolute path in
    finished absolute (ends_in (codes "/") path) (render (go_all absolute [] (segments path)))

-- `join` of two texts: empty ones are left out.
unfoldable pub join : Text → Text → Text
unfolding normalize
join [] [] = codes "."
join [] (c ∷ t) = normalize (c ∷ t)
join (c ∷ s) [] = normalize (c ∷ s)
join (c ∷ s) (d ∷ t) = normalize ((c ∷ s) ++ codes "/" ++ (d ∷ t))

-- What the system says of the process.
pub record System : Type 0 where
  pub homedir : Text
  pub cwd : Text

-- `path.replace('~', homedir())` of a path that starts with `~`. In the home directory there is none
-- of the patterns that `replace` reads in its second argument.
abbrev pub from_home : Text → Text → Text
from_home homedir [] = []
from_home homedir (c ∷ path) = homedir ++ path

module _ (system : System) where
  unfoldable pub resolve_absolute_path : Text → Text
  unfolding is_absolute join starts_with
  resolve_absolute_path path =
      if is_absolute path
      then path
      else if starts_with (codes "~") path
      then from_home system.homedir path
      else join system.cwd path

  unfoldable pub verify_output_path : Text → Result (Unit {0})
  unfolding resolve_absolute_path starts_with
  verify_output_path output_path =
      if starts_with (resolve_absolute_path default_lisk_core_path)
        (resolve_absolute_path output_path)
      then err output_path_not_allowed
      else ok tt

-- `[snapshotDirNameExtracted]` of the files that were read, which `join` refuses if there is none.
abbrev pub first_in : Text → List Text → Result Text
first_in data_dir [] = err undefined_property
first_in data_dir (name ∷ names) = ok (join data_dir name)

-- With what `getFiles(dataDir)` comes to.
abbrev pub extracted : Text → Result (List Text) → Result Text
extracted data_dir (err e) = err e
extracted data_dir (ok names) = first_in data_dir names

unfoldable pub resolve_snapshot_path :
    Bool → Option Text → Text → Text → Result (List Text) → Result Text
unfolding ends_in join
resolve_snapshot_path use_snapshot snapshot_path data_dir lisk_core_v3_data_path files =
    if not use_snapshot
    then ok (join lisk_core_v3_data_path snapshot_dir)
    else elim (truthy_text snapshot_path) [
      | none ↦ extracted data_dir files
      | some path ↦ if ends_in (codes ".tar.gz") path then extracted data_dir files else ok path
    ]
