-- ===== src/Utils/Download/Verified.antt =====
-- `downloadAndExtract` of src/utils/download.ts against a description without files.
use lisk_migrator.Common.{
  ◌≡◌, refl, ap, ◌∙◌, [], ◌∷◌, ◌++◌, Option, none, some, Bytes, Text, codes, same, same_iff,
  same_refl, if◌then◌else◌, List, Error, unhandled, Result, ok, err, checksum_mismatch,
  invalid_filepath, Bool-cases, inl, inr,
}
use lisk_migrator.Common.Dict.{lookup, insert, lookup-insert}
use lisk_migrator.Encoding.Hex.{hex}
use lisk_migrator.Utils.Download.{
  found, checksum_of, Host, Disk, Outcome, and_then, written_to, verified, unpacked, extract_from,
  extract_tar_ball, checked, checksum_in, first_word, get_checksum, verify_checksum, download,
  download_and_extract, file_name_of,
}
use lisk_migrator.Utils.Download.Names.{file_name_of-append, same-extended}

module _ (host : Host) where
  -- The directory that the files are extracted to, after the tarball is opened.
  abbrev pub opened : List (Text × Bytes) × Option Error → Result (Unit {0}) × List (Text × Bytes)
  opened (files, none) = (ok tt, files)
  opened (files, some e) = (err (unhandled e), files)

  -- The snapshot against the text of its checksum's file.
  abbrev pub matched : Bytes → Text → List (Text × Bytes) → Result (Unit {0}) × List (Text × Bytes)
  matched content [] before = (err invalid_filepath, before)
  matched content (c ∷ listing) before =
      if same (hex (host.sha256 content)) (first_word (c ∷ listing))
      then opened (host.unpack content)
      else (err checksum_mismatch, before)

  -- From the two answers of the server.
  abbrev pub expected :
      Result Bytes → Result Bytes → List (Text × Bytes) → Result (Unit {0}) × List (Text × Bytes)
  expected (err e) listing before = (err e, before)
  expected (ok content) (err e) before = (err e, before)
  expected (ok content) (ok listing) before = matched content (host.text_of listing) before

  -- What the caller sees of an outcome.
  abbrev pub seen : Outcome → Result (Unit {0}) × List (Text × Bytes)
  seen (r, disk) = (r, disk.extracted)

  module _ (name : Text) (content listing : Bytes) (disk : Disk) where
    abbrev both : Disk
    both = record disk {
      files = insert same (name ++ codes ".SHA256") listing (insert same name content disk.files);
    }

    listing_kept : lookup same (name ++ codes ".SHA256") both.files ≡ some listing
    listing_kept =
        lookup-insert same same_iff (name ++ codes ".SHA256") (name ++ codes ".SHA256") listing _
        ∙ rw (same_refl (name ++ codes ".SHA256")) refl

    content_kept : lookup same name both.files ≡ some content
    content_kept =
        lookup-insert same same_iff name (name ++ codes ".SHA256") listing _
        ∙ rw (same-extended name)
            (lookup-insert same same_iff name name content disk.files ∙ rw (same_refl name) refl)

    extracted_seen :
        (r : List (Text × Bytes) × Option Error) → seen (unpacked host r both) ≡ opened r
    extracted_seen (files, none) = refl
    extracted_seen (files, some e) = refl

    verified_as : (sum : Text) → verify_checksum host name sum both ≡ checked host sum (ok content)
    unfolding verify_checksum
    verified_as sum = ap (λ o. checked host sum (found host o)) content_kept

    extracted_as : extract_tar_ball host name both ≡ unpacked host (host.unpack content) both
    unfolding extract_tar_ball
    extracted_as = ap (λ o. extract_from host (found host o) both) content_kept

    checksum_as :
        (url : Text)
        → file_name_of url ≡ name
        → get_checksum host url both ≡ checksum_in host (host.text_of listing)
    unfolding get_checksum
    checksum_as url e = rw e (ap (λ o. checksum_of host (found host o)) listing_kept)

    match_seen :
        (sum : Text)
        → seen (and_then (checked host sum (ok content), both) (extract_tar_ball host name)) ≡ (
            if same (hex (host.sha256 content)) sum
            then opened (host.unpack content)
            else (err checksum_mismatch, disk.extracted))
    match_seen sum = elim (Bool-cases (same (hex (host.sha256 content)) sum)) [
      | inl e ↦ rw e (ap seen extracted_as ∙ extracted_seen (host.unpack content))
      | inr e ↦ rw e refl
    ]

    seen-verified :
        (url text : Text)
        → file_name_of url ≡ name
        → seen (verified host url (checksum_in host text) both)
          ≡ matched content text disk.extracted
    seen-verified url [] e = refl
    seen-verified url (c ∷ text) e =
        rw e (rw (verified_as (first_word (c ∷ text))) (match_seen (first_word (c ∷ text))))

  -- After the answers of the server.
  downloads_seen :
      (url : Text) (disk : Disk) (content listing : Result Bytes)
      → seen (
          and_then (written_to host (file_name_of url) content disk) λ first.
            and_then
              (written_to host (file_name_of (url ++ codes ".SHA256")) listing first)
              λ second. verified host url (get_checksum host url second) second)
        ≡ expected content listing disk.extracted
  downloads_seen url disk (err e) listing = refl
  downloads_seen url disk (ok content) (err e) = refl
  downloads_seen url disk (ok content) (ok listing) = rw (file_name_of-append url) (
      rw (checksum_as (file_name_of url) content listing disk url refl)
        (seen-verified (file_name_of url) content listing disk url (host.text_of listing) refl))

  -- The snapshot is unpacked exactly where the server gives it and the file of its checksum, that
  -- file is not empty, and its first word is the SHA-256 hash of the snapshot in hex. The extraction
  -- directory then has whatever has been unpacked when the call returns, and nothing else, and there
  -- is no error but one of the unpacking, which nothing catches. In all other cases there is the
  -- error of the first of these steps that fails, and the directory is left as it was, whatever the
  -- files that were there.
  pub download_and_extract_lem :
      (url : Text) (disk : Disk)
      → seen (download_and_extract host url disk)
        ≡ expected (host.server url) (host.server (url ++ codes ".SHA256")) disk.extracted
  unfolding download_and_extract download
  download_and_extract_lem url disk =
      downloads_seen url disk (host.server url) (host.server (url ++ codes ".SHA256"))
