-- ===== src/Assets/Auth/Laws.antt =====
-- The key lists of the auth entries.
use mathlib.Core.List.{Perm}
use mathlib.Core.List.Perm
use lisk_migrator.Common.{◌≡◌, refl, List, map, Bytes, Text, ok}
use lisk_migrator.Common.Predicates.{All, IsByte}
use lisk_migrator.Common.Sort.{sort, compare_bytes}
use lisk_migrator.Common.Sort.Laws.{
  IsSorted, IsSorted-map, sort-IsSorted, sort-perm, sort-All, compare_on-IsComparator,
}
use lisk_migrator.Assets.Auth.{get_auth_module_entry_buffer}
use lisk_migrator.Encoding.Decimal.{big_int, big_int-decimal}
use lisk_migrator.Encoding.Hex.{hex, compare_bytes-hex}
use lisk_migrator.Types.{Account}

-- The keys in hex, each as often as it was given, in ascending order of the text.
abbrev pub SortedHexOf : List Bytes → List Text → Type 0
SortedHexOf keys texts = Perm texts (map hex keys) × IsSorted compare_bytes texts

SortedHexOf-sort :
    (keys : List Bytes)
    → All (All IsByte) keys
    → SortedHexOf keys (map hex (sort compare_bytes keys))
SortedHexOf-sort keys h = (
  Perm.map hex (sort-perm compare_bytes keys),
  IsSorted-map compare_bytes compare_bytes hex (All IsByte) compare_bytes-hex
      (sort compare_bytes keys) (sort-All compare_bytes (All IsByte) keys h)
      (sort-IsSorted compare_bytes (compare_on-IsComparator (λ b. b)) keys),
)

-- The auth entry of an account whose keys are bytes keeps its address and its number of signatures. Its key lists are the
-- account's, in hex and in ascending order of the text, and its nonce reads back as the account's.
pub get_auth_module_entry_buffer_lem :
    (a : Account)
    → All (All IsByte) a.keys.mandatory_keys
    → All (All IsByte) a.keys.optional_keys
    → let entry = get_auth_module_entry_buffer a in
      (entry.address ≡ a.address.bytes)
      × (entry.auth_account.number_of_signatures ≡ a.keys.number_of_signatures)
      × SortedHexOf a.keys.mandatory_keys entry.auth_account.mandatory_keys
      × SortedHexOf a.keys.optional_keys entry.auth_account.optional_keys
      × (big_int entry.auth_account.nonce ≡ ok a.sequence.nonce)
unfolding get_auth_module_entry_buffer
get_auth_module_entry_buffer_lem a mandatory optional = (
  refl,
  refl,
  SortedHexOf-sort a.keys.mandatory_keys mandatory,
  SortedHexOf-sort a.keys.optional_keys optional,
  big_int-decimal a.sequence.nonce,
)
