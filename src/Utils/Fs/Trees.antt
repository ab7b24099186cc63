-- ===== src/Utils/Fs/Trees.antt =====
-- Trees of files: what `is_tree` gives of an entry, and names that a directory does not have.
use lisk_migrator.Common.{◌≡◌, refl, Bool, true, false, not, ◌&&◌, none, Text, arith}
use lisk_migrator.Utils.Fs.{nil, entry, Directory, find_entry, has_entry}

pub find_entry-none : (n : Text) (d : Directory) → has_entry n d ≡ false → find_entry n d ≡ none
unfolding find_entry
find_entry-none n nil h = refl
find_entry-none n (entry k node rest) h = ground (arith, find_entry-none n rest)

pub tree_parts : (a b c : Bool) → (not a && (b && c)) ≡ true → (a ≡ false) × (b ≡ true) × (c ≡ true)
tree_parts a b c h = ground arith

pub tree_rest : (a c : Bool) → (not a && c) ≡ true → (a ≡ false) × (c ≡ true)
tree_rest a c h = ground arith
