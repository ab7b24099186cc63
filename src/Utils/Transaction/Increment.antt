-- ===== src/Utils/Transaction/Increment.antt =====
-- `incrementOne` adds one to the big-endian number that a buffer holds.
use native.Mathlib.Nat.{pow-suc}
use native.Mathlib.Decide.{dec_lt}
use mathlib.Core.Path.{subst}
use lisk_migrator.Common.{
  ℕ, zero, suc, ◌+◌, ◌*◌, ◌%◌, ◌^◌, ◌≤◌, ◌<◌, ◌≡◌, refl, ap, ◌∙◌, [], ◌∷◌, ◌++◌, arith, Bytes,
  length, get_or, set, Result, ok, err, maximum_input, length-set,
}
use lisk_migrator.Common.Predicates.{All, IsByte}
use lisk_migrator.Common.Words.{be_value, length-snoc}
use lisk_migrator.Utils.Transaction.{increment_from, increment_one}

-- What a byte counts for at an index.
abbrev weight : Bytes → ℕ → ℕ
weight [] i = 1
weight (b ∷ bs) zero = 256 ^ length bs
weight (b ∷ bs) (suc i) = weight bs i

weight_last : (bs : Bytes) (i : ℕ) → suc i ≡ length bs → weight bs i ≡ 1
weight_last [] i h = refl
weight_last (b ∷ []) zero h = refl
weight_last (b ∷ c ∷ bs) zero h = absurd (omega arith)
weight_last (b ∷ bs) (suc i) h = weight_last bs i (omega arith)

weight_step : (bs : Bytes) (i : ℕ) → suc i < length bs → weight bs i ≡ 256 * weight bs (suc i)
weight_step [] i h = absurd (omega arith)
weight_step (b ∷ []) i h = absurd (omega arith)
weight_step (b ∷ c ∷ bs) zero h = omega (arith, pow-suc 256 (length bs))
weight_step (b ∷ c ∷ bs) (suc i) h = weight_step (c ∷ bs) i (omega arith)

weight-set : (bs : Bytes) (i j v : ℕ) → weight (set bs i v) j ≡ weight bs j
weight-set [] i j v = refl
weight-set (b ∷ bs) zero zero v = refl
weight-set (b ∷ bs) zero (suc j) v = refl
weight-set (b ∷ bs) (suc i) zero v = ap (λ n. 256 ^ n) (length-set bs i v)
weight-set (b ∷ bs) (suc i) (suc j) v = weight-set bs i j v

set-IsByte : (bs : Bytes) (i v : ℕ) → All IsByte bs → v < 256 → All IsByte (set bs i v)
set-IsByte [] i v h k = tt
set-IsByte (b ∷ bs) zero v h k = (k, h.1)
set-IsByte (b ∷ bs) (suc i) v h k = (h.0, set-IsByte bs i v h.1 k)

get_or-lt : (bs : Bytes) (i : ℕ) → All IsByte bs → get_or bs i 0 < 256
get_or-lt [] i h = omega arith
get_or-lt (b ∷ bs) zero h = h.0
get_or-lt (b ∷ bs) (suc i) h = get_or-lt bs i h.1

get_or-set_below : (bs : Bytes) (i j v : ℕ) → j < i → get_or (set bs i v) j 0 ≡ get_or bs j 0
get_or-set_below [] i j v h = refl
get_or-set_below (b ∷ bs) zero j v h = elim h [ ]
get_or-set_below (b ∷ bs) (suc i) zero v h = refl
get_or-set_below (b ∷ bs) (suc i) (suc j) v h = get_or-set_below bs i j v (omega arith)

be_value-set :
    (bs : Bytes) (i v : ℕ)
    → i < length bs
    → be_value (set bs i v) + get_or bs i 0 * weight bs i ≡ be_value bs + v * weight bs i
be_value-set [] i v h = absurd (omega arith)
be_value-set (b ∷ bs) zero v h = omega arith
be_value-set (b ∷ bs) (suc i) v h =
    rw (length-set bs i v) (omega (arith, be_value-set bs i v (omega arith)))

-- What a run of the loop from index `i` leaves: the number is raised by what that index counts
-- for, or all bytes below it are at their maximum.
abbrev Raises : Bytes → ℕ → Result Bytes → Type 0
Raises bs i (ok r) =
    (length r ≡ length bs) × All IsByte r × (be_value r ≡ be_value bs + weight bs i)
Raises bs i (err e) = (e ≡ maximum_input) × ((j : ℕ) → j ≤ i → get_or bs j 0 ≡ 255)

Raises-fits :
    (bs : Bytes) (i : ℕ)
    → i < length bs
    → All IsByte bs
    → get_or bs i 0 < 255
    → Raises bs i (ok (set bs i (get_or bs i 0 + 1)))
Raises-fits bs i h k fits = (
  length-set bs i _,
  set-IsByte bs i _ k (omega arith),
  omega (arith, be_value-set bs i (get_or bs i 0 + 1) h),
)

Raises-carry :
    (bs : Bytes) (i : ℕ) (r : Result Bytes)
    → suc i < length bs
    → get_or bs (suc i) 0 ≡ 255
    → Raises (set bs (suc i) 0) i r
    → Raises bs (suc i) r
Raises-carry bs i (ok r) h full (len, bytes, value) = (
  len ∙ length-set bs (suc i) 0,
  bytes,
  omega (
    arith,
    weight-set bs (suc i) i 0,
    weight_step bs i h,
    be_value-set bs (suc i) 0 h,
    ap (λ b. b * weight bs (suc i)) full,
  ),
)
Raises-carry bs i (err e) h full (same_error, below) = (
  same_error,
  λ j le. elim (dec_lt j (suc i)) [
    | yes lt ↦ omega (arith, below j (omega arith), get_or-set_below bs (suc i) j 0 lt)
    | no ge ↦ subst (λ n. get_or bs n 0 ≡ 255) (omega arith) full
  ],
)

increment_from_fits :
    (i : ℕ) (bs : Bytes)
    → get_or bs i 0 < 255
    → increment_from (suc i) bs ≡ ok (set bs i (get_or bs i 0 + 1))
unfolding increment_from
increment_from_fits i bs h =
    let e : (get_or bs i 0 + 1) % 256 ≡ get_or bs i 0 + 1 = omega arith in rw e (ground arith)

increment_from_carry :
    (i : ℕ) (bs : Bytes)
    → get_or bs i 0 ≡ 255
    → increment_from (suc i) bs ≡ increment_from i (set bs i 0)
unfolding increment_from
increment_from_carry i bs h = rw h refl

-- At index 0 a full byte ends the loop with the error.
Raises-first : (bs : Bytes) → get_or bs 0 0 ≡ 255 → Raises bs 0 (increment_from zero (set bs 0 0))
unfolding increment_from
Raises-first bs full = (refl, λ j le. subst (λ n. get_or bs n 0 ≡ 255) (omega arith) full)

increment_from-Raises :
    (i : ℕ) (bs : Bytes) → i < length bs → All IsByte bs → Raises bs i (increment_from (suc i) bs)
increment_from-Raises zero bs h k = elim (dec_lt (get_or bs 0 0) 255) [
  | yes fits ↦ rw (increment_from_fits 0 bs fits) (Raises-fits bs 0 h k fits)
  | no over ↦
      let full : get_or bs 0 0 ≡ 255 = omega (arith, get_or-lt bs 0 k) in
      rw (increment_from_carry 0 bs full) (Raises-first bs full)
]
increment_from-Raises (suc i) bs h k = elim (dec_lt (get_or bs (suc i) 0) 255) [
  | yes fits ↦ rw (increment_from_fits (suc i) bs fits) (Raises-fits bs (suc i) h k fits)
  | no over ↦
      let full : get_or bs (suc i) 0 ≡ 255 = omega (arith, get_or-lt bs (suc i) k) in
      rw (increment_from_carry (suc i) bs full) (
        Raises-carry bs i _ h full (
          increment_from-Raises i (set bs (suc i) 0) (omega (arith, length-set bs (suc i) 0))
            (set-IsByte bs (suc i) 0 k (omega arith))))
]

-- What `incrementOne` promises: the next number at the same size, or the error when every byte
-- is 255 already.
abbrev pub Increments : Bytes → Result Bytes → Type 0
Increments input (ok r) =
    (length r ≡ length input) × All IsByte r × (be_value r ≡ be_value input + 1)
Increments input (err e) = (e ≡ maximum_input) × All (λ b. b ≡ 255) input

All-get_or : (bs : Bytes) → ((j : ℕ) → j < length bs → get_or bs j 0 ≡ 255) → All (λ b. b ≡ 255) bs
All-get_or [] h = tt
All-get_or (b ∷ bs) h = (h 0 (omega arith), All-get_or bs (λ j lt. h (suc j) (omega arith)))

Increments-of_Raises :
    (bs : Bytes) (i : ℕ) (r : Result Bytes) → suc i ≡ length bs → Raises bs i r → Increments bs r
Increments-of_Raises bs i (ok r) h (len, bytes, value) =
    (len, bytes, omega (arith, weight_last bs i h))
Increments-of_Raises bs i (err e) h (same_error, below) =
    (same_error, All-get_or bs (λ j lt. below j (omega arith)))

-- For a buffer of bytes, `incrementOne` returns a buffer of bytes of the same length whose
-- big-endian value is one more, or throws its error, and then every byte of the input is 255.
pub increment_one-Increments :
    (input : Bytes) → All IsByte input → Increments input (increment_one input)
unfolding increment_one
increment_one-Increments [] h = unfold increment_from in (refl, tt)
increment_one-Increments (b ∷ bs) h =
    Increments-of_Raises (b ∷ bs) (length bs) _ refl
      (increment_from-Raises (length bs) (b ∷ bs) (omega arith) h)

get_or_last : (p : Bytes) (b : ℕ) → get_or (p ++ (b ∷ [])) (length p) 0 ≡ b
get_or_last [] b = refl
get_or_last (a ∷ p) b = get_or_last p b

set_last : (p : Bytes) (b c : ℕ) → set (p ++ (b ∷ [])) (length p) c ≡ p ++ (c ∷ [])
set_last [] b c = refl
set_last (a ∷ p) b c = ap (◌∷◌ a) (set_last p b c)

-- The shape of the result where the last byte is not at its maximum: only that byte changes.
increment_from_last :
    (p : Bytes) (b : ℕ)
    → b < 255
    → increment_from (suc (length p)) (p ++ (b ∷ [])) ≡ ok (p ++ ((b + 1) ∷ []))
increment_from_last p b h =
    increment_from_fits (length p) (p ++ (b ∷ [])) (rw (get_or_last p b) h)
    ∙ ap ok (rw (get_or_last p b) (set_last p b (b + 1)))

pub increment_one_last :
    (p : Bytes) (b : ℕ) → b < 255 → increment_one (p ++ (b ∷ [])) ≡ ok (p ++ ((b + 1) ∷ []))
unfolding increment_one
increment_one_last p b h = rw (length-snoc p b) (increment_from_last p b h)
