-- ===== src/Common/Sort.antt =====
-- `Array.prototype.sort` with a comparator. ECMAScript asks for a stable sort, which determines the
-- result for a consistent comparator: an element goes before those that compare equal and came later.
pub mod Laws
use lisk_migrator.Common.{ℕ, Ordering, List, [], ◌∷◌, compare}

module _ {ℓ} {A : Type ℓ} (cmp : A → A → Ordering) where
  pub insert : A → List A → List A
  insert x [] = x ∷ []
  insert x (y ∷ ys) = elim (cmp x y) [ Ordering.gt ↦ y ∷ insert x ys | _ ↦ x ∷ y ∷ ys ]

  unfoldable pub sort : List A → List A
  unfolding insert
  sort [] = []
  sort (x ∷ xs) = insert x (sort xs)

-- `Buffer.compare`, and the order of strings by code units.
unfoldable pub compare_bytes : List ℕ → List ℕ → Ordering
compare_bytes [] [] = Ordering.eq
compare_bytes [] (b ∷ t) = Ordering.lt
compare_bytes (a ∷ s) [] = Ordering.gt
compare_bytes (a ∷ s) (b ∷ t) = elim (compare a b) [
  | Ordering.lt ↦ Ordering.lt
  | Ordering.eq ↦ compare_bytes s t
  | Ordering.gt ↦ Ordering.gt
]

-- A comparator that looks at a key.
abbrev pub compare_on {ℓ} : {A : Type ℓ} → (A → List ℕ) → A → A → Ordering
compare_on key a b = compare_bytes (key a) (key b)
