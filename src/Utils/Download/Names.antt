-- ===== src/Utils/Download/Names.antt =====
-- The names of the two files that src/utils/download.ts downloads.
use lisk_migrator.Common.{
  ℕ, ◌≡◌, refl, ap, ◌∙◌, ◌==◌, Bool, true, false, List, [], ◌∷◌, ◌++◌, Option, none, some, Text,
  codes, same, same_iff, if◌then◌else◌, Bool-cases, inl, inr, arith, ◌&&◌, length, length-append,
}
use lisk_migrator.Utils.Download.{
  is_word, after_slashes, after_protocol, or_text, without_protocol, last_of, file_name_of,
}
use lisk_migrator.Utils.Path.{segments, extend}

abbrev extension : Text
extension = codes ".SHA256"

-- The same text with the extension, if there is one.
abbrev extended : Option Text → Option Text
extended none = none
extended (some text) = some (text ++ extension)

if-extended :
    (b : Bool) (x y : Option Text)
    → (if b then extended x else extended y) ≡ extended (if b then x else y)
if-extended true x y = refl
if-extended false x y = refl

after_slashes-append : (s : Text) → after_slashes (s ++ extension) ≡ extended (after_slashes s)
unfolding after_slashes
after_slashes-append [] = refl
after_slashes-append (a ∷ []) = ground arith
after_slashes-append (a ∷ b ∷ s) = if-extended ((a == 47) && (b == 47)) (some s) none

tests-extended :
    (a b c : Bool) (x y : Option Text)
    → (if a then extended x else if b then (if c then extended y else none) else none)
      ≡ extended (if a then x else if b then (if c then y else none) else none)
tests-extended true b c x y = refl
tests-extended false true true x y = refl
tests-extended false true false x y = refl
tests-extended false false c x y = refl

after_protocol-append :
    (any : Bool) (s : Text) → after_protocol any (s ++ extension) ≡ extended (after_protocol any s)
unfolding after_protocol is_word
after_protocol-append true [] = refl
after_protocol-append false [] = refl
after_protocol-append any (c ∷ s) =
    rw (after_protocol-append true s, after_slashes-append s)
      (tests-extended (is_word c) any (c == 58) (after_protocol true s) (after_slashes s))

or_text-extended :
    (default : Text) (o : Option Text)
    → or_text (default ++ extension) (extended o) ≡ or_text default o ++ extension
or_text-extended default none = refl
or_text-extended default (some text) = refl

without_protocol-append :
    (url : Text) → without_protocol (url ++ extension) ≡ without_protocol url ++ extension
unfolding without_protocol
without_protocol-append url =
    rw (after_slashes-append url, after_protocol-append false url)
      (ap (λ t. or_text t (extended (after_protocol false url)))
          (or_text-extended url (after_slashes url))
        ∙ or_text-extended (or_text url (after_slashes url)) (after_protocol false url))

extend_last : List Text → List Text
extend_last [] = []
extend_last (t ∷ []) = (t ++ extension) ∷ []
extend_last (t ∷ u ∷ ts) = t ∷ extend_last (u ∷ ts)

segments-cons : (s : Text) → (t : Text) × (ts : List Text) × (segments s ≡ t ∷ ts)
unfolding segments
segments-cons [] = ([], [], refl)
segments-cons (c ∷ s) = elim (Bool-cases (c == 47)) [
  | inl slash ↦ ([], segments s, rw (slash, segments) refl)
  | inr other ↦
      let (t, ts, e) = segments-cons s in (c ∷ t, ts, rw (other, segments) (rw (e, extend) refl))
]

extend-last :
    (c : ℕ) (t : Text) (ts : List Text)
    → extend c (extend_last (t ∷ ts)) ≡ extend_last (extend c (t ∷ ts))
unfolding extend_last
extend-last c t [] = refl
extend-last c t (u ∷ ts) = refl

segments-append : (s : Text) → segments (s ++ extension) ≡ extend_last (segments s)
unfolding segments extend_last
segments-append [] = refl
segments-append (c ∷ s) =
    let (t, ts, e) = segments-cons s in
    elim (Bool-cases (c == 47)) [
      | inl slash ↦ rw (slash, segments) (rw (segments-append s, e) refl)
      | inr other ↦ rw (other, segments) (rw (segments-append s, e) (extend-last c t ts))
    ]

last_of-extend_last :
    (t : Text) (ts : List Text) → last_of (extend_last (t ∷ ts)) ≡ last_of (t ∷ ts) ++ extension
unfolding extend_last last_of
last_of-extend_last t [] = refl
last_of-extend_last t (u ∷ []) = refl
last_of-extend_last t (u ∷ v ∷ ts) = last_of-extend_last u (v ∷ ts)

-- The file of the checksum has the name of the first file with `.SHA256`, where the code looks for it.
pub file_name_of-append :
    (url : Text) → file_name_of (url ++ codes ".SHA256") ≡ file_name_of url ++ codes ".SHA256"
unfolding file_name_of
file_name_of-append url =
    let (t, ts, e) = segments-cons (without_protocol url) in
    rw (without_protocol-append url, segments-append (without_protocol url), e)
      (last_of-extend_last t ts)

-- It is another file.
pub same-extended : (name : Text) → same name (name ++ codes ".SHA256") ≡ false
same-extended name = elim (Bool-cases (same name (name ++ extension))) [
  | inl e ↦ absurd (
      omega
        (arith, ap length ((same_iff name (name ++ extension)).0 e), length-append name extension))
  | inr e ↦ e
]
