-- ===== src/Utils/Block/Heights.antt =====
-- `getBlockHeaderByHeight` of src/utils/block.ts on a database of blocks with its two indices.
use lisk_migrator.Common.{
  ℕ, ◌^◌, ◌<◌, ◌≡◌, ◌≢◌, refl, sym, ◌∙◌, ap, List, [], ◌∷◌, ◌++◌, length, Bytes, Text, Bool-cases,
  inl, inr, some, same, same→eq, same_refl, Result, ok, false,
}
use lisk_migrator.Common.Dict.{lookup}
use lisk_migrator.Common.Predicates.{All, IsByte}
use lisk_migrator.Common.Words.{
  be_value, be_bytes, length-be_bytes, be_bytes-IsByte, be_value-be_bytes,
}
use lisk_migrator.Constants.{db_key_blocks_id, db_key_blocks_height}
use lisk_migrator.Database.{Db, Entry}
use lisk_migrator.Encoding.Utf8.{utf8}
use lisk_migrator.Utils.Block.{BlockHeader, height_key, id_key, get_block_header_by_height}
use lisk_migrator.Utils.Block.Paging.Ids.{key_injective, are_bytes-IsByte}
use lisk_migrator.Utils.Number.{format_int-be_bytes}

-- A block as it is stored: its encoded header under its ID, and its ID under its height.
pub record StoredBlock : Type 0 where
  pub height : ℕ
  pub id : Bytes
  pub header : Bytes

abbrev pub height_key_of : ℕ → Bytes
height_key_of height = height_key (be_bytes 4 height)

abbrev pub entries_of : List StoredBlock → List Entry
entries_of [] = []
entries_of (b ∷ bs) =
    (height_key_of b.height, b.id) ∷ (id_key db_key_blocks_id b.id, b.header) ∷ entries_of bs

-- Heights fit in 32 bits and IDs are 32 bytes.
abbrev pub IsStorable : StoredBlock → Type 0
IsStorable b = (b.height < 256 ^ 4) × (length b.id ≡ 32) × All IsByte b.id

-- Neither the height nor the ID of the one is that of the other.
abbrev pub AreDistinct : StoredBlock → StoredBlock → Type 0
AreDistinct a b = (a.height ≢ b.height) × (a.id ≢ b.id)

height_key_ne :
    (m n : ℕ) → m < 256 ^ 4 → n < 256 ^ 4 → m ≢ n → same (height_key_of m) (height_key_of n) ≡ false
height_key_ne m n hm hn ne = elim (Bool-cases (same (height_key_of m) (height_key_of n))) [
  | inr other ↦ other
  | inl equal ↦ absurd (
      ne (
        sym (be_value-be_bytes 4 m hm)
        ∙ ap be_value (
            key_injective db_key_blocks_height (be_bytes 4 m) (be_bytes 4 n)
              (are_bytes-IsByte db_key_blocks_height refl) (be_bytes-IsByte 4 m)
              (be_bytes-IsByte 4 n) (length-be_bytes 4 m ∙ sym (length-be_bytes 4 n))
              (same→eq _ _ equal))
        ∙ be_value-be_bytes 4 n hn))
]

id_key_ne :
    (a b : StoredBlock)
    → IsStorable a
    → IsStorable b
    → a.id ≢ b.id
    → same (id_key db_key_blocks_id a.id) (id_key db_key_blocks_id b.id) ≡ false
id_key_ne a b ha hb ne =
    elim (Bool-cases (same (id_key db_key_blocks_id a.id) (id_key db_key_blocks_id b.id))) [
      | inr other ↦ other
      | inl equal ↦ absurd (
          ne (
            key_injective db_key_blocks_id a.id b.id (are_bytes-IsByte db_key_blocks_id refl) ha.2
              hb.2 (ha.1 ∙ sym hb.1) (same→eq _ _ equal)))
    ]

-- The two indices have no key in common.
kinds_ne : (s t : Text) → same (height_key s) (id_key db_key_blocks_id t) ≡ false
unfolding same utf8
kinds_ne s t = refl

kinds_ne_back : (s t : Text) → same (id_key db_key_blocks_id t) (height_key s) ≡ false
unfolding same utf8
kinds_ne_back s t = refl

module _ (b : StoredBlock) (after : List StoredBlock) (hb : IsStorable b) where
  lookup_height :
      (before : List StoredBlock)
      → All (λ a. IsStorable a × AreDistinct b a) before
      → lookup same (height_key_of b.height) (entries_of (before ++ (b ∷ after))) ≡ some b.id
  unfolding lookup
  lookup_height [] h = rw (same_refl (height_key_of b.height)) refl
  lookup_height (a ∷ before) h =
      rw (height_key_ne b.height a.height hb.0 h.0.0.0 h.0.1.0, kinds_ne (be_bytes 4 b.height) a.id)
        (lookup_height before h.1)

  lookup_id :
      (before : List StoredBlock)
      → All (λ a. IsStorable a × AreDistinct b a) before
      → lookup same (id_key db_key_blocks_id b.id) (entries_of (before ++ (b ∷ after)))
        ≡ some b.header
  unfolding lookup
  lookup_id [] h =
      rw (kinds_ne_back (be_bytes 4 b.height) b.id, same_refl (id_key db_key_blocks_id b.id)) refl
  lookup_id (a ∷ before) h =
      rw (kinds_ne_back (be_bytes 4 a.height) b.id, id_key_ne b a hb h.0.0 h.0.1.1)
        (lookup_id before h.1)

-- In a database with the entries of blocks of different heights and IDs, each height below 2 ^ 32 and
-- each ID of 32 bytes, the header of each block whose header the codec decodes is found by its
-- height, and is returned with its ID.
pub get_block_header_by_height_lem :
    (db : Db) (decode : Bytes → Result BlockHeader) (before : List StoredBlock) (b : StoredBlock)
    (after : List StoredBlock) (header : BlockHeader)
    → ((key value : Bytes)
        → lookup same key (entries_of (before ++ (b ∷ after))) ≡ some value
        → db.get key ≡ ok value)
    → IsStorable b
    → All (λ a. IsStorable a × AreDistinct b a) before
    → decode b.header ≡ ok header
    → get_block_header_by_height db decode b.height ≡ ok (record header { id = b.id })
unfolding get_block_header_by_height
get_block_header_by_height_lem db decode before b after header stored hb h decoded =
    rw (format_int-be_bytes b.height hb.0) (
      rw (stored _ _ (lookup_height b after hb before h))
        (rw (stored _ _ (lookup_id b after hb before h)) (rw decoded refl)))
