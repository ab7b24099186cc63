-- ===== src/Utils/Download.antt =====
-- src/utils/download.ts. The files of the download directory are held by their names; the server, SHA-256,
-- the decoding of a file's text and the unpacking of a tarball are parameters.
pub mod Names
pub mod Verified
use lisk_migrator.Common.{
  ℕ, ◌==◌, leb, ◌&&◌, ◌||◌, not, Bool, true, false, List, [], ◌∷◌, ◌++◌, Option, none, some, Bytes,
  Text, codes, same, if◌then◌else◌, Error, unhandled, Result, ok, err, checksum_mismatch,
  invalid_filepath, undefined_property,
}
use lisk_migrator.Common.Dict.{lookup, insert}
use lisk_migrator.Encoding.Hex.{hex}
use lisk_migrator.Utils.Path.{segments, join}

-- `\w`
unfoldable pub is_word : ℕ → Bool
is_word c =
    (leb 48 c && leb c 57) || ((leb 65 c && leb c 90) || ((leb 97 c && leb c 122) || c == 95))

-- What follows `//` and `://`.
unfoldable pub after_slashes : Text → Option Text
after_slashes [] = none
after_slashes (a ∷ []) = none
after_slashes (a ∷ b ∷ s) = if (a == 47) && (b == 47) then some s else none

abbrev pub after_colon : ℕ → Text → Option Text
after_colon c s = if c == 58 then after_slashes s else none

-- What follows `^\w+:\/\/`, with whether a character was read.
unfoldable pub after_protocol : Bool → Text → Option Text
unfolding is_word after_slashes
after_protocol any [] = none
after_protocol any (c ∷ s) =
    let rest = after_protocol true s in
    if is_word c then rest else if any then after_colon c s else none

abbrev pub or_text : Text → Option Text → Text
or_text default none = default
or_text default (some text) = text

-- `url.replace(/(^\w+:|^)\/\//, '')`
unfoldable pub without_protocol : Text → Text
unfolding after_protocol after_slashes
without_protocol url = or_text (or_text url (after_slashes url)) (after_protocol false url)

-- `pop()`
unfoldable pub last_of : List Text → Text
last_of [] = []
last_of (t ∷ []) = t
last_of (t ∷ u ∷ ts) = last_of (u ∷ ts)

pub record FileInfo : Type 0 where
  pub file_name : Text
  pub file_dir : Text
  pub file_path : Text

unfoldable pub file_name_of : Text → Text
unfolding without_protocol segments last_of
file_name_of url = last_of (segments (without_protocol url))

unfoldable pub get_downloaded_file_info : Text → Text → FileInfo
unfolding file_name_of join
get_downloaded_file_info url download_dir = record {
  file_name = file_name_of url;
  file_dir = download_dir;
  file_path = join download_dir (file_name_of url);
}

pub record Host : Type 0 where
  -- the body of the answer to a request
  pub server : Text → Result Bytes
  pub sha256 : Bytes → Bytes
  -- the text of a file, read as UTF-8
  pub text_of : Bytes → Text
  -- what stands in the directory of a tarball's files 100 ms after its bytes are read, and the error that
  -- the unpacking has emitted by then
  pub unpack : Bytes → List (Text × Bytes) × Option Error

-- The files of the download directory, and those of the extraction directory.
pub record Disk : Type 0 where
  pub files : List (Text × Bytes)
  pub extracted : List (Text × Bytes)

abbrev pub Outcome : Type 0
Outcome = Result (Unit {0}) × Disk

-- What follows a call that returned.
abbrev pub and_then : Outcome → (Disk → Outcome) → Outcome
and_then (err e, disk) next = (err e, disk)
and_then (ok done, disk) next = next disk

-- `content.split(' ')[0]`
unfoldable pub first_word : Text → Text
first_word [] = []
first_word (c ∷ s) = let rest = first_word s in if c == 32 then [] else c ∷ rest

module _ (host : Host) where
  -- The file is emptied before the request, and an answer is written to it.
  abbrev pub written_to : Text → Result Bytes → Disk → Outcome
  written_to name (err e) disk = (err e, record disk { files = insert same name [] disk.files })
  written_to name (ok body) disk = (ok tt, record disk { files = insert same name body disk.files })

  unfoldable pub download : Text → Disk → Outcome
  unfolding file_name_of insert
  download url disk = written_to (file_name_of url) (host.server url) disk

  -- A file that is not there rejects the read.
  abbrev pub found : Option Bytes → Result Bytes
  found none = err undefined_property
  found (some content) = ok content

  abbrev pub read_file : Text → Disk → Result Bytes
  read_file name disk = found (lookup same name disk.files)

  abbrev pub checked : Text → Result Bytes → Result (Unit {0})
  checked expected (err e) = err e
  checked expected (ok content) =
      if not (same (hex (host.sha256 content)) expected) then err checksum_mismatch else ok tt

  unfoldable pub verify_checksum : Text → Text → Disk → Result (Unit {0})
  unfolding lookup
  verify_checksum name expected_checksum disk = checked expected_checksum (read_file name disk)

  abbrev pub checksum_in : Text → Result Text
  checksum_in [] = err invalid_filepath
  checksum_in (c ∷ content) = ok (first_word (c ∷ content))

  abbrev pub checksum_of : Result Bytes → Result Text
  checksum_of (err e) = err e
  checksum_of (ok content) = checksum_in (host.text_of content)

  unfoldable pub get_checksum : Text → Disk → Result Text
  unfolding file_name_of lookup first_word
  get_checksum url disk = checksum_of (read_file (file_name_of url ++ codes ".SHA256") disk)

  -- The promise is resolved whatever has been unpacked. Nothing listens to the errors of the unpacking,
  -- so that one of them ends the process.
  abbrev pub unpacked : List (Text × Bytes) × Option Error → Disk → Outcome
  unpacked (files, none) disk = (ok tt, record disk { extracted = files })
  unpacked (files, some e) disk = (err (unhandled e), record disk { extracted = files })

  -- `extractTarBall` empties the directory first.
  abbrev pub extract_from : Result Bytes → Disk → Outcome
  extract_from (err e) disk = (err e, record disk { extracted = [] })
  extract_from (ok content) disk = unpacked (host.unpack content) disk

  unfoldable pub extract_tar_ball : Text → Disk → Outcome
  unfolding lookup
  extract_tar_ball name disk = extract_from (read_file name disk) disk

  -- After the two downloads.
  abbrev pub verified : Text → Result Text → Disk → Outcome
  verified url (err e) disk = (err e, disk)
  verified url (ok checksum) disk =
      and_then (verify_checksum (file_name_of url) checksum disk, disk)
        (extract_tar_ball (file_name_of url))

  unfoldable pub download_and_extract : Text → Disk → Outcome
  unfolding download get_checksum verify_checksum extract_tar_ball
  download_and_extract url disk = and_then (download url disk) λ first.
      and_then (download (url ++ codes ".SHA256") first)
        λ second. verified url (get_checksum url second) second
