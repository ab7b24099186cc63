-- ===== src/Utils/GenesisBlock/Files.antt =====
-- The files that `writeGenesisBlock` of src/utils/genesis_block.ts leaves.
use lisk_migrator.Common.{
  append_assoc, ◌≡◌, refl, ◌∙◌, false, [], ◌∷◌, ◌++◌, some, Bytes, Text, codes, same, same_iff,
  same_refl, ok, arith, ℕ,
}
use lisk_migrator.Common.Dict.{lookup, insert, lookup-insert}
use lisk_migrator.Constants.{file_genesis_block_blob, file_genesis_block_json}
use lisk_migrator.Encoding.Hex.{hex}
use lisk_migrator.Utils.GenesisBlock.{
  Files, Tools, read_file, create_checksum, create_tarball, write_with_checksums,
  write_genesis_block,
}

same-append : (s a b : Text) → same (s ++ a) (s ++ b) ≡ same a b
unfolding same
same-append [] a b = refl
same-append (c ∷ s) a b = ground (arith, same-append s a b)

same-extended : (s : Text) (c : ℕ) (a : Text) → same s (s ++ (c ∷ a)) ≡ false
unfolding same
same-extended [] c a = refl
same-extended (d ∷ s) c a = ground (arith, same-extended s c a)

-- A write and a look-up at another name, or at the same.
module _ (files : Files) (name : Text) (content : Bytes) where
  at_other :
      (other : Text)
      → same other name ≡ false
      → lookup same other (insert same name content files) ≡ lookup same other files
  at_other other h = lookup-insert same same_iff other name content files ∙ rw h refl

  at_same : lookup same name (insert same name content files) ≡ some content
  at_same = lookup-insert same same_iff name name content files ∙ rw (same_refl name) refl

-- The extensions differ.
extensions_differ :
    (same (codes ".SHA256") (codes ".tar.gz") ≡ false)
    × (same (codes ".SHA256") (codes ".tar.gz.SHA256") ≡ false)
    × (same (codes ".tar.gz") (codes ".tar.gz.SHA256") ≡ false)
unfolding same
extensions_differ = (refl, refl, refl)

read_file_as :
    (name : Text) (files : Files) (content : Bytes)
    → lookup same name files ≡ some content
    → read_file name files ≡ ok content
unfolding read_file
read_file_as name files content h = rw (h, read_file) refl

module _ (tools : Tools) where
  create_checksum_as :
      (name : Text) (files : Files) (content : Bytes)
      → lookup same name files ≡ some content
      → create_checksum tools name files ≡ ok (hex (tools.sha256 content))
  unfolding create_checksum
  create_checksum_as name files content h = rw (read_file_as name files content h) refl

  create_tarball_as :
      (name : Text) (files : Files) (content : Bytes)
      → lookup same name files ≡ some content
      → create_tarball tools name files
        ≡ ok (insert same (name ++ codes ".tar.gz") (tools.tar_gz name content) files)
  unfolding create_tarball
  create_tarball_as name files content h = rw (read_file_as name files content h) refl

  -- The file is there, and the file of its checksum has its hash.
  abbrev pub IsChecked : Files → Text → Type 0
  IsChecked files name =
      (content : Bytes) × (lookup same name files ≡ some content)
      × (lookup same (name ++ codes ".SHA256") files ≡ some (hex (tools.sha256 content)))

  module _ (name : Text) (files : Files) (content : Bytes) where
    abbrev tarball : Bytes
    tarball = tools.tar_gz name content

    abbrev with_hash : Files
    with_hash = insert same (name ++ codes ".SHA256") (hex (tools.sha256 content)) files

    abbrev with_tarball : Files
    with_tarball = insert same (name ++ codes ".tar.gz") tarball with_hash

    abbrev with_both : Files
    with_both =
        insert same (name ++ codes ".tar.gz.SHA256") (hex (tools.sha256 tarball)) with_tarball

    module _ (there : lookup same name files ≡ some content) where
      kept_by_hash : lookup same name with_hash ≡ some content
      kept_by_hash =
          at_other files (name ++ codes ".SHA256") (hex (tools.sha256 content)) name
            (same-extended name _ _)
          ∙ there

      tarball_there : lookup same (name ++ codes ".tar.gz") with_tarball ≡ some tarball
      tarball_there = at_same with_hash (name ++ codes ".tar.gz") tarball

      written_as : write_with_checksums tools name files ≡ ok with_both
      unfolding write_with_checksums
      written_as =
          rw
            (
              create_checksum_as name files content there,
              create_tarball_as name with_hash content kept_by_hash,
              create_checksum_as (name ++ codes ".tar.gz") with_tarball tarball tarball_there,
            )
            refl

      -- Names that are not those of the new files keep their files.
      abbrev IsOther : Text → Type 0
      IsOther other =
          (same other (name ++ codes ".SHA256") ≡ false)
          × (same other (name ++ codes ".tar.gz") ≡ false)
          × (same other (name ++ codes ".tar.gz.SHA256") ≡ false)

      others_kept :
          (other : Text) → IsOther other → lookup same other with_both ≡ lookup same other files
      others_kept other (h, t, s) =
          at_other with_tarball (name ++ codes ".tar.gz.SHA256") (hex (tools.sha256 tarball)) other
            s
          ∙ at_other with_hash (name ++ codes ".tar.gz") tarball other t
          ∙ at_other files (name ++ codes ".SHA256") (hex (tools.sha256 content)) other h

      content_kept : lookup same name with_both ≡ some content
      content_kept =
          others_kept name (same-extended name _ _, same-extended name _ _, same-extended name _ _)
          ∙ there

      hash_kept :
          lookup same (name ++ codes ".SHA256") with_both ≡ some (hex (tools.sha256 content))
      hash_kept =
          at_other with_tarball (name ++ codes ".tar.gz.SHA256") (hex (tools.sha256 tarball)) _
            (same-append name _ _ ∙ extensions_differ.1)
          ∙ at_other with_hash (name ++ codes ".tar.gz") tarball _
              (same-append name _ _ ∙ extensions_differ.0)
          ∙ at_same files (name ++ codes ".SHA256") (hex (tools.sha256 content))

      tarball_kept : lookup same (name ++ codes ".tar.gz") with_both ≡ some tarball
      tarball_kept =
          at_other with_tarball (name ++ codes ".tar.gz.SHA256") (hex (tools.sha256 tarball)) _
            (same-append name _ _ ∙ extensions_differ.2)
          ∙ tarball_there

      tarball_hash_kept :
          lookup same ((name ++ codes ".tar.gz") ++ codes ".SHA256") with_both
          ≡ some (hex (tools.sha256 tarball))
      tarball_hash_kept =
          rw (append_assoc name (codes ".tar.gz") (codes ".SHA256"))
            (at_same with_tarball (name ++ codes ".tar.gz.SHA256") (hex (tools.sha256 tarball)))

      both_IsChecked : IsChecked with_both name × IsChecked with_both (name ++ codes ".tar.gz")
      both_IsChecked =
          ((content, content_kept, hash_kept), (tarball, tarball_kept, tarball_hash_kept))

  -- The names of the first block's files are not written again by the second's.
  module _ (files : Files) (json : Bytes)
      (there : lookup same file_genesis_block_json files ≡ some json) where
    abbrev after_json : Files
    after_json = with_both file_genesis_block_json files json

    kept :
        (name : Text)
        → IsOther file_genesis_block_json files json there name
        → IsOther file_genesis_block_json files json there (name ++ codes ".SHA256")
        → IsChecked files name
        → IsChecked after_json name
    kept name o p (content, c, h) = (
      content,
      others_kept file_genesis_block_json files json there name o ∙ c,
      others_kept file_genesis_block_json files json there (name ++ codes ".SHA256") p ∙ h,
    )

  -- Where both forms of the genesis block are in the output directory, they are packed without an error,
  -- and then each of the two forms and each of their tarballs has beside it a file with its SHA-256
  -- hash in hex.
  pub write_genesis_block_lem :
      (files : Files) (blob json : Bytes)
      → lookup same (codes "genesis_block.blob") files ≡ some blob
      → lookup same (codes "genesis_block.json") files ≡ some json
      → (files' : Files) × (write_genesis_block tools files ≡ ok files')
        × IsChecked files' (codes "genesis_block.blob")
        × IsChecked files' (codes "genesis_block.blob.tar.gz")
        × IsChecked files' (codes "genesis_block.json")
        × IsChecked files' (codes "genesis_block.json.tar.gz")
  unfolding write_genesis_block same
  write_genesis_block_lem files blob json hb hj =
      let first = with_both file_genesis_block_blob files blob in
      let json_there : lookup same file_genesis_block_json first ≡ some json =
        others_kept file_genesis_block_blob files blob hb file_genesis_block_json (refl, refl, refl)
        ∙ hj in
      let blobs = both_IsChecked file_genesis_block_blob files blob hb in
      let jsons = both_IsChecked file_genesis_block_json first json json_there in
      (
        after_json first json json_there,
        rw
            (
              written_as file_genesis_block_blob files blob hb,
              written_as file_genesis_block_json first json json_there,
            )
            refl,
        kept first json json_there file_genesis_block_blob (refl, refl, refl) (refl, refl, refl)
            blobs.0,
        kept first json json_there (file_genesis_block_blob ++ codes ".tar.gz") (refl, refl, refl)
            (refl, refl, refl) blobs.1,
        jsons.0,
        jsons.1,
      )
