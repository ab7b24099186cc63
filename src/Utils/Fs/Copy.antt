-- ===== src/Utils/Fs/Copy.antt =====
-- `copyDir` of src/utils/fs.ts to where nothing is.
use lisk_migrator.Common.{
  ◌≡◌, refl, ap, ◌∙◌, sym, Bool, true, false, not, ◌&&◌, ◌||◌, none, Text, same, same_iff, ok,
  arith,
}
use lisk_migrator.Utils.Fs.{
  FileNode, file, directory, Directory, nil, entry, put_entry, copy_entries, copy_dir, has_entry,
  is_tree,
}
use lisk_migrator.Utils.Fs.Trees.{find_entry-none, tree_parts, tree_rest}

-- One directory's entries before another's.
append : Directory → Directory → Directory
append nil after = after
append (entry name node rest) after = entry name node (append rest after)

append_assoc : (a b c : Directory) → append (append a b) c ≡ append a (append b c)
unfolding append
append_assoc nil b c = refl
append_assoc (entry n x a) b c = ap (entry n x) (append_assoc a b c)

append-nil : (a : Directory) → append a nil ≡ a
unfolding append
append-nil nil = refl
append-nil (entry n x a) = ap (entry n x) (append-nil a)

put_entry-append :
    (n : Text) (x : FileNode) (d : Directory)
    → has_entry n d ≡ false
    → put_entry n x d ≡ append d (entry n x nil)
unfolding put_entry append
put_entry-append n x nil h = refl
put_entry-append n x (entry k node rest) h = ground (arith, put_entry-append n x rest)

has_entry-append :
    (m n : Text) (x : FileNode) (d : Directory)
    → has_entry m (append d (entry n x nil)) ≡ (has_entry m d || same m n)
unfolding append
has_entry-append m n x nil = ground arith
has_entry-append m n x (entry k node rest) = ground (arith, has_entry-append m n x rest)

-- No name of the first is one of the second.
disjoint : Directory → Directory → Bool
disjoint nil d = true
disjoint (entry n x rest) d = not (has_entry n d) && disjoint rest d

disjoint-append :
    (n : Text) (x : FileNode) (r d : Directory)
    → has_entry n r ≡ false
    → disjoint r d ≡ true
    → disjoint r (append d (entry n x nil)) ≡ true
unfolding disjoint
disjoint-append n x nil d h k = refl
disjoint-append n x (entry m y r) d h k =
    ground (arith, has_entry-append m n x d, same_iff n m, same_iff m n, disjoint-append n x r d)

disjoint-nil : (r : Directory) → disjoint r nil ≡ true
unfolding disjoint
disjoint-nil nil = refl
disjoint-nil (entry m y r) = ground (arith, disjoint-nil r)

copy_entries-disjoint :
    (src d : Directory)
    → is_tree src ≡ true
    → disjoint src d ≡ true
    → copy_entries src d ≡ ok (append d src)
unfolding copy_entries is_tree disjoint append
copy_entries-disjoint nil d t h = ap ok (sym (append-nil d))
copy_entries-disjoint (entry n (file c) rest) d t h =
    let (unique, rest_tree) = tree_rest (has_entry n rest) (is_tree rest) t in
    let (fresh, rest_fresh) = tree_rest (has_entry n d) (disjoint rest d) h in
    rw (find_entry-none n d fresh, put_entry-append n (file c) d fresh)
      (copy_entries-disjoint rest (append d (entry n (file c) nil)) rest_tree
          (disjoint-append n (file c) rest d unique rest_fresh)
        ∙ ap ok (append_assoc d (entry n (file c) nil) rest))
copy_entries-disjoint (entry n (directory entries) rest) d t h =
    let (unique, sub_tree, rest_tree) =
      tree_parts (has_entry n rest) (is_tree entries) (is_tree rest) t in
    let (fresh, rest_fresh) = tree_rest (has_entry n d) (disjoint rest d) h in
    rw
      (
        find_entry-none n d fresh,
        copy_entries-disjoint entries nil sub_tree (disjoint-nil entries),
        put_entry-append n (directory entries) d fresh,
      )
      (copy_entries-disjoint rest (append d (entry n (directory entries) nil)) rest_tree
          (disjoint-append n (directory entries) rest d unique rest_fresh)
        ∙ ap ok (append_assoc d (entry n (directory entries) nil) rest))

-- To where nothing is, a directory whose entries have different names, there and below, is copied
-- without an error, and what is there afterwards is the directory itself.
pub copy_dir-none : (src : Directory) → is_tree src ≡ true → copy_dir src none ≡ ok src
unfolding copy_dir append
copy_dir-none src t = copy_entries-disjoint src nil t (disjoint-nil src)
