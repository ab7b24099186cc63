-- ===== src/Utils/Block/Paging/Step.antt =====
-- A key and the next one of the same length, in the order of bytes.
use native.Mathlib.Decide.{ℕ_discrete}
use lisk_migrator.Common.{ℕ, ◌+◌, ◌<◌, ◌≡◌, ◌≢◌, refl, [], ◌∷◌, ◌++◌, arith, Ordering, Bytes}
use lisk_migrator.Common.Sort.{compare_bytes}

-- `t` is `s` or continues it.
abbrev pub Extends : Bytes → Bytes → Type 0
Extends [] t = Unit
Extends (a ∷ s) [] = ⊥
Extends (a ∷ s) (b ∷ t) = (a ≡ b) × Extends s t

-- A key that the loop can step past: its last byte is not at its maximum.
pub record HasNext (key : Bytes) : Type 0 where
  pub init : Bytes
  pub last : ℕ
  pub split : key ≡ init ++ (last ∷ [])
  pub below : last < 255

-- The next key of the same length is above.
pub step_lt :
    (p : Bytes) (b : ℕ) → compare_bytes (p ++ (b ∷ [])) (p ++ ((b + 1) ∷ [])) ≡ Ordering.lt
unfolding compare_bytes
step_lt [] b = ground arith
step_lt (a ∷ p) b = ground (arith, step_lt p b)

nil_ne_gt : (k : Bytes) → compare_bytes [] k ≢ Ordering.gt
unfolding compare_bytes
nil_ne_gt [] = cc
nil_ne_gt (b ∷ k) = cc

-- Nothing lies between a key and the next, but continuations of the key.
pub step_above :
    (p : Bytes) (b : ℕ) (k : Bytes)
    → compare_bytes (p ++ (b ∷ [])) k ≡ Ordering.lt
    → ¬ Extends (p ++ (b ∷ [])) k
    → compare_bytes (p ++ ((b + 1) ∷ [])) k ≢ Ordering.gt
unfolding compare_bytes
step_above [] b [] h n = ground arith
step_above [] b (c ∷ k) h n = elim (ℕ_discrete b c) [
  | yes e ↦ absurd (n (e, tt))
  | no ne ↦ ground (arith, nil_ne_gt k)
]
step_above (a ∷ p) b [] h n = ground arith
step_above (a ∷ p) b (c ∷ k) h n = elim (ℕ_discrete a c) [
  | yes e ↦ ground (arith, step_above p b k (ground arith) (λ x. n (e, x)))
  | no ne ↦ ground arith
]

-- What is up to a key is below the next.
pub step_below :
    (p : Bytes) (b : ℕ) (k : Bytes)
    → compare_bytes k (p ++ (b ∷ [])) ≢ Ordering.gt
    → compare_bytes (p ++ ((b + 1) ∷ [])) k ≡ Ordering.gt
unfolding compare_bytes
step_below [] b [] h = refl
step_below [] b (c ∷ k) h = ground arith
step_below (a ∷ p) b [] h = refl
step_below (a ∷ p) b (c ∷ k) h = elim (ℕ_discrete a c) [
  | yes e ↦ ground (arith, step_below p b k (ground arith))
  | no ne ↦ ground arith
]
