-- ===== src/Utils/Block/Paging.antt =====
-- The paging loop reads each entry of its range once, whatever the page size.
pub mod Step
pub mod Ids
pub mod Loop
use lisk_migrator.Common.{
  ℕ, zero, suc, ◌+◌, ◌-◌, ◌≤◌, ◌<◌, ◌≡◌, ◌≢◌, refl, sym, ◌∙◌, ap, List, [], ◌∷◌, ◌++◌, length, take,
  drop, keep, arith, Bool, true, false, ◌&&◌, ◌||◌, Bool-cases, inl, inr, Ordering, some, Bytes,
  Text, same, Result, ok, ◌>>=◌, if◌then◌else◌,
}
use lisk_migrator.Common.Dict.{add}
use lisk_migrator.Common.Predicates.{All, keep-All}
use lisk_migrator.Common.Sort.{compare_bytes}
use lisk_migrator.Common.Sort.Laws.{compare_bytes_trans, compare_bytes_refl}
use lisk_migrator.Database.{Db, Entry, Holds, at_most, in_range, IsAscending}
use lisk_migrator.Encoding.Hex.{hex}
use lisk_migrator.Utils.Block.{Page, on_data, page_loop}
use lisk_migrator.Utils.Transaction.{increment_one}
use lisk_migrator.Utils.Transaction.Increment.{increment_one_last}
use Step.{Extends, HasNext, step_lt, step_above, step_below}

-- None of the keys continues one before it.
abbrev pub IsApart : List Entry → Type 0
IsApart [] = Unit
IsApart (e ∷ es) = All (λ f. ¬ Extends e.0 f.0) es × IsApart es

-- What the loop needs of the keys: UTF-8 texts of one number of characters satisfy it, as none of
-- them continues another and none ends in the byte 255.
pub record IsSteppable (es : List Entry) : Type 0 where
  pub ascending : IsAscending es
  pub steps : All (λ e. HasNext e.0) es
  pub apart : IsApart es

abbrev pub next_of : (key : Bytes) → HasNext key → Bytes
next_of key h = h.init ++ ((h.last + 1) ∷ [])

increment_one-next_of : (key : Bytes) (h : HasNext key) → increment_one key ≡ ok (next_of key h)
increment_one-next_of key h = ap increment_one h.split ∙ increment_one_last h.init h.last h.below

next_above :
    (key : Bytes) (h : HasNext key) (k : Bytes)
    → compare_bytes key k ≡ Ordering.lt
    → ¬ Extends key k
    → at_most (next_of key h) k ≡ true
next_above key h k lt apart =
    ground (arith, step_above h.init h.last k (rw (sym h.split) lt) (rw (sym h.split) apart))

next_below :
    (key : Bytes) (h : HasNext key) (k : Bytes)
    → compare_bytes k key ≢ Ordering.gt
    → at_most (next_of key h) k ≡ false
next_below key h k le = ground (arith, step_below h.init h.last k (rw (sym h.split) le))

-- The key of the last event, or `key` if there is none.
abbrev last_key_of : Bytes → List Entry → Bytes
last_key_of key [] = key
last_key_of key (e ∷ es) = last_key_of e.0 es

keep_above :
    (key : Bytes) (h : HasNext key) (es : List Entry)
    → All (λ f. compare_bytes key f.0 ≡ Ordering.lt) es
    → All (λ f. ¬ Extends key f.0) es
    → keep (λ f. at_most (next_of key h) f.0) es ≡ es
keep_above key h [] lt apart = refl
keep_above key h (e ∷ es) lt apart =
    rw (next_above key h e.0 lt.0 apart.0) (ap (◌∷◌ e) (keep_above key h es lt.1 apart.1))

lt_last :
    (key : Bytes) (y : Entry) (n : ℕ) (ys : List Entry)
    → All (λ f. compare_bytes key f.0 ≡ Ordering.lt) (y ∷ ys)
    → compare_bytes key (last_key_of y.0 (take n ys)) ≡ Ordering.lt
lt_last key y zero ys h = h.0
lt_last key y (suc n) [] h = h.0
lt_last key y (suc n) (z ∷ zs) h = lt_last key z n zs h.1

-- Of an ascending list, what is at or above the key after the last of the first entries is the rest.
keep_rest :
    (x : Entry) (n : ℕ) (xs : List Entry)
    → IsAscending (x ∷ xs)
    → IsApart (x ∷ xs)
    → (h : HasNext (last_key_of x.0 (take n xs)))
    → keep (λ f. at_most (next_of (last_key_of x.0 (take n xs)) h) f.0) (x ∷ xs) ≡ drop n xs
keep_rest x zero xs asc apart h =
    rw (next_below x.0 h x.0 (λ e. absurd (cc (compare_bytes_refl x.0))))
      (keep_above x.0 h xs asc.0 apart.0)
keep_rest x (suc n) [] asc apart h =
    rw (next_below x.0 h x.0 (λ e. absurd (cc (compare_bytes_refl x.0)))) refl
keep_rest x (suc n) (y ∷ ys) asc apart h =
    rw
      (next_below (last_key_of y.0 (take n ys)) h x.0 (λ e. absurd (cc (lt_last x.0 y n ys asc.0))))
      (keep_rest y n ys asc.1 apart.1 h)

keep-IsAscending : (p : Entry → Bool) (es : List Entry) → IsAscending es → IsAscending (keep p es)
keep-IsAscending p [] h = tt
keep-IsAscending p (e ∷ es) h = elim (Bool-cases (p e)) [
  | inl kept ↦ rw kept (keep-All _ p es h.0, keep-IsAscending p es h.1)
  | inr left ↦ rw left (keep-IsAscending p es h.1)
]

keep-IsApart : (p : Entry → Bool) (es : List Entry) → IsApart es → IsApart (keep p es)
keep-IsApart p [] h = tt
keep-IsApart p (e ∷ es) h = elim (Bool-cases (p e)) [
  | inl kept ↦ rw kept (keep-All _ p es h.0, keep-IsApart p es h.1)
  | inr left ↦ rw left (keep-IsApart p es h.1)
]

keep-IsSteppable : (p : Entry → Bool) (es : List Entry) → IsSteppable es → IsSteppable (keep p es)
keep-IsSteppable p es h = record {
  ascending = keep-IsAscending p es h.ascending;
  steps = keep-All _ p es h.steps;
  apart = keep-IsApart p es h.apart;
}

-- A property of all entries holds of the last of the first ones.
last_key_of_all :
    (P : Bytes → Type 0) (x : Entry) (n : ℕ) (xs : List Entry)
    → All (λ e. P e.0) (x ∷ xs)
    → P (last_key_of x.0 (take n xs))
last_key_of_all P x zero xs h = h.0
last_key_of_all P x (suc n) [] h = h.0
last_key_of_all P x (suc n) (y ∷ ys) h = last_key_of_all P y n ys h.1

at_most_trans : (a b c : Bytes) → at_most a b ≡ true → at_most b c ≡ true → at_most a c ≡ true
at_most_trans a b c h k = ground (arith, compare_bytes_trans a b c)

at_most-next_of : (key : Bytes) (h : HasNext key) → at_most key (next_of key h) ≡ true
at_most-next_of key h = rw h.split (ground (arith, step_lt h.init h.last))

in_range-low :
    (low high : Bytes) (es : List Entry) → All (λ e. at_most low e.0 ≡ true) (in_range low high es)
in_range-low low high [] = tt
in_range-low low high (e ∷ es) = elim (Bool-cases (at_most low e.0)) [
  | inl above ↦ rw above (elim (Bool-cases (at_most e.0 high)) [
    | inl below ↦ rw below (above, in_range-low low high es)
    | inr over ↦ rw over (in_range-low low high es)
  ])
  | inr under ↦ rw under (in_range-low low high es)
]

-- To raise the lower end of a range is to keep what is above the new end.
in_range_raise :
    (low next high : Bytes) (es : List Entry)
    → ((k : Bytes) → at_most next k ≡ true → at_most low k ≡ true)
    → in_range next high es ≡ keep (λ e. at_most next e.0) (in_range low high es)
in_range_raise low next high [] h = refl
in_range_raise low next high (e ∷ es) h = ground (arith, h e.0, in_range_raise low next high es h)
