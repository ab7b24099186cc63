-- ===== src/Utils/Fs/Overlay.antt =====
-- What `copyDir` of src/utils/fs.ts leaves at each path.
use lisk_migrator.Common.{
  ◌≡◌, refl, sym, ap, ◌∙◌, ap₂, subst, same→eq, true, false, Option, none, some, Bytes, Text, same,
  same_iff, if◌then◌else◌, List, [], ◌∷◌, Result, ok, err, ◌>>=◌, Bool-cases, inl, inr, arith,
}
use lisk_migrator.Utils.Fs.{
  FileNode, file, directory, Directory, nil, entry, find_entry, put_entry, make_dir, copy_file,
  copy_entries, copy_dir, content_of, entries_of, read_at, has_entry, is_tree,
}
use lisk_migrator.Utils.Fs.Trees.{find_entry-none, tree_parts, tree_rest}

-- The first content, or else the second.
abbrev pub or_else : Option Bytes → Option Bytes → Option Bytes
or_else none second = second
or_else (some first) second = some first

find_entry-put_entry :
    (m n : Text) (node : FileNode) (d : Directory)
    → find_entry m (put_entry n node d) ≡ (if same m n then some node else find_entry m d)
unfolding find_entry put_entry
find_entry-put_entry m n node nil = refl
find_entry-put_entry m n node (entry k old rest) =
    ground (arith, same_iff m n, same_iff n k, same_iff m k, find_entry-put_entry m n node rest)

-- What a path reads from an entry on.
read_node : List Text → Option FileNode → Option Bytes
read_node [] node = content_of node
read_node (k ∷ path) node = read_at (k ∷ path) (entries_of node)

read_at-read_node :
    (m : Text) (path : List Text) (d : Directory)
    → read_at (m ∷ path) d ≡ read_node path (find_entry m d)
unfolding read_at read_node
read_at-read_node m [] d = refl
read_at-read_node m (k ∷ path) d = refl

read_at-nil : (path : List Text) → read_at path nil ≡ none
unfolding read_at find_entry
read_at-nil [] = refl
read_at-nil (m ∷ []) = refl
read_at-nil (m ∷ k ∷ path) = read_at-nil (k ∷ path)

read_node-none : (path : List Text) → read_node path none ≡ none
unfolding read_node
read_node-none [] = refl
read_node-none (k ∷ path) = read_at-nil (k ∷ path)

-- The value that a call gave to what follows it.
module _ {A B : Type 0} (next : A → Result B) {given : B} where
  given_by :
      (call : Result A)
      → (call >>= next) ≡ ok given
      → (value : A) × (ok value ≡ call) × (next value ≡ ok given)
  given_by (ok value) e = (value, refl, e)
  given_by (err thrown) e = absurd (cc)

copy_file_ok :
    (n : Text) (c : Bytes) (o : Option FileNode) (d : Directory) {d' : Directory}
    → copy_file n c o d ≡ ok d'
    → (d' ≡ put_entry n (file c) d) × (entries_of o ≡ nil)
copy_file_ok n c none d h = (cc, refl)
copy_file_ok n c (some (file old)) d h = (cc, refl)
copy_file_ok n c (some (directory entries)) d h = absurd (cc)

make_dir_ok :
    (o : Option FileNode) {made : Directory}
    → make_dir o ≡ ok made
    → (made ≡ entries_of o) × (content_of o ≡ none)
make_dir_ok none h = (cc, refl)
make_dir_ok (some (file old)) h = absurd (cc)
make_dir_ok (some (directory entries)) h = (cc, refl)

-- One entry of the source, with what is copied after it.
module _ (m n : Text) (path : List Text) (rest : Directory) (node : FileNode)
    (unique : has_entry n rest ≡ false) (before : Directory) (after : Option Bytes)
    (later : after
      ≡ or_else
          (read_node path (find_entry m rest))
          (read_node path (find_entry m (put_entry n node before)))) where
  other_entry :
      (shown : FileNode)
      → same m n ≡ false
      → after
        ≡ or_else
            (read_node path (find_entry m (entry n shown rest)))
            (read_node path (find_entry m before))
  unfolding find_entry
  other_entry shown h = rw h (rw (find_entry-put_entry, h) at later)

  this_entry : same m n ≡ true → after ≡ read_node path (some node)
  this_entry h =
      later
      ∙ ap₂ or_else (ap (read_node path) gone ∙ read_node-none path)
          (ap (read_node path) (find_entry-put_entry m n node before ∙ rw h refl))
    where
      gone : find_entry m rest ≡ none
      gone =
          subst (λ k. find_entry k rest ≡ none) (sym (same→eq m n h))
            (find_entry-none n rest unique)

file_over :
    (path : List Text) (c : Bytes) (o : Option FileNode)
    → entries_of o ≡ nil
    → read_node path (some (file c)) ≡ or_else (read_node path (some (file c))) (read_node path o)
unfolding read_node
file_over [] c o flat = refl
file_over (k ∷ path) c o flat = rw (flat, read_at-nil) refl

-- What is copied into a directory, as the induction has it.
abbrev Overlays : Directory → Directory → Directory → Type 0
Overlays src dest dest' =
    (m : Text) (path : List Text)
    → read_node path (find_entry m dest')
      ≡ or_else (read_node path (find_entry m src)) (read_node path (find_entry m dest))

directory_over :
    (path : List Text) (entries made copied : Directory) (o : Option FileNode)
    → made ≡ entries_of o
    → content_of o ≡ none
    → Overlays entries made copied
    → read_node path (some (directory copied))
      ≡ or_else (read_node path (some (directory entries))) (read_node path o)
unfolding read_node
directory_over [] entries made copied o e empty ih = sym empty
directory_over (k ∷ path) entries made copied o e empty ih =
    rw
      (
        ← e,
        read_at-read_node k path copied,
        read_at-read_node k path entries,
        read_at-read_node k path made,
      )
      (ih k path)

-- A new entry over what stands at its name.
entry_over :
    (n : Text) (rest before : Directory) (node : FileNode) (dest' : Directory)
    → has_entry n rest ≡ false
    → Overlays rest (put_entry n node before) dest'
    → (shown : FileNode)
    → ((path : List Text)
        → read_node path (some node)
          ≡ or_else (read_node path (some shown)) (read_node path (find_entry n before)))
    → Overlays (entry n shown rest) before dest'
unfolding find_entry
entry_over n rest before node dest' unique ih shown over m path = elim (Bool-cases (same m n)) [
  | inl h ↦ rw h (
      subst
        (λ k.
          read_node path (find_entry m dest')
          ≡ or_else (read_node path (some shown)) (read_node path (find_entry k before)))
        (sym (same→eq m n h))
        (this_entry m n path rest node unique before _ (ih m path) h ∙ over path))
  | inr h ↦ other_entry m n path rest node unique before _ (ih m path) shown h
]

ok_injective : {a b : Directory} → ok a ≡ ok b → a ≡ b
ok_injective e = cc

copy_entries-Overlays :
    (src dest : Directory) {dest' : Directory}
    → is_tree src ≡ true
    → copy_entries src dest ≡ ok dest'
    → Overlays src dest dest'
unfolding copy_entries is_tree find_entry
copy_entries-Overlays nil dest tree h = λ m path.
    rw (read_node-none path) (ap (λ r. read_node path (find_entry m r)) (sym (ok_injective h)))
copy_entries-Overlays (entry n (file c) rest) dest {dest'} tree h =
    let (unique, rest_tree) = tree_rest (has_entry n rest) (is_tree rest) tree in
    let (copied, p, q) = given_by (copy_entries rest) (copy_file n c (find_entry n dest) dest) h in
    let (e, flat) = copy_file_ok n c (find_entry n dest) dest (sym p) in
    entry_over n rest dest (file c) dest' unique
      (copy_entries-Overlays rest (put_entry n (file c) dest) rest_tree
        (subst (λ d. copy_entries rest d ≡ ok dest') e q))
      (file c) (λ path. file_over path c (find_entry n dest) flat)
copy_entries-Overlays (entry n (directory entries) rest) dest {dest'} tree h =
    let (unique, sub_tree, rest_tree) =
      tree_parts (has_entry n rest) (is_tree entries) (is_tree rest) tree in
    let (made, p, q) = given_by _ (make_dir (find_entry n dest)) h in
    let (e, empty) = make_dir_ok (find_entry n dest) (sym p) in
    let (copied, r, t) = given_by _ (copy_entries entries made) q in
    entry_over n rest dest (directory copied) dest' unique
      (copy_entries-Overlays rest (put_entry n (directory copied) dest) rest_tree t)
      (directory entries)
      (λ path.
        directory_over path entries made copied (find_entry n dest) e empty
          (copy_entries-Overlays entries made sub_tree (sym r)))

-- Where the copy of a directory whose entries have different names, there and below, succeeds, each
-- path below the destination has the file of the source if there is one, and else what it had before.
pub copy_dir-Overlays :
    (src : Directory) (dest : Option FileNode) {dest' : Directory}
    → is_tree src ≡ true
    → copy_dir src dest ≡ ok dest'
    → (path : List Text)
    → read_at path dest' ≡ or_else (read_at path src) (read_at path (entries_of dest))
unfolding copy_dir read_at
copy_dir-Overlays src dest tree h [] = refl
copy_dir-Overlays src dest {dest'} tree h (m ∷ path) =
    let (made, p, q) = given_by (copy_entries src) (make_dir dest) h in
    let (e, empty) = make_dir_ok dest (sym p) in
    rw
      (
        read_at-read_node m path dest',
        read_at-read_node m path src,
        read_at-read_node m path (entries_of dest),
        ← e,
      )
      (copy_entries-Overlays src made tree q m path)
