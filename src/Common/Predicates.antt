-- ===== src/Common/Predicates.antt =====
-- Predicates on all members of a list, by recursion.
use lisk_migrator.Common.{ℕ, ◌<◌, List, [], ◌∷◌, ◌++◌, keep, Bool, Bool-cases, inl, inr}

module _ {ℓ κ} {A : Type ℓ} where
  abbrev pub All : (A → Type κ) → List A → Type κ
  All P [] = Unit
  All P (x ∷ xs) = P x × All P xs

  pub All-map_of : (P Q : A → Type κ) → ((x : A) → P x → Q x) → (xs : List A) → All P xs → All Q xs
  All-map_of P Q f [] h = tt
  All-map_of P Q f (x ∷ xs) h = (f x h.0, All-map_of P Q f xs h.1)

  pub All-append : (P : A → Type κ) (xs ys : List A) → All P xs → All P ys → All P (xs ++ ys)
  All-append P [] ys h k = k
  All-append P (x ∷ xs) ys h k = (h.0, All-append P xs ys h.1 k)

  pub keep-All : (P : A → Type κ) (p : A → Bool) (xs : List A) → All P xs → All P (keep p xs)
  keep-All P p [] h = tt
  keep-All P p (x ∷ xs) h = elim (Bool-cases (p x)) [
    | inl kept ↦ rw kept (h.0, keep-All P p xs h.1)
    | inr left ↦ rw left (keep-All P p xs h.1)
  ]

-- A byte is below 256.
abbrev pub IsByte : ℕ → Type 0
IsByte b = b < 256
