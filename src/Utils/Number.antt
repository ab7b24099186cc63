-- ===== src/Utils/Number.antt =====
-- src/utils/number.ts: integers as big-endian binary strings, for database keys.
use native.Mathlib.Decide.{dec_lt}
use lisk_migrator.Common.{
  ℕ, ◌^◌, ◌≤◌, ◌<◌, ◌≡◌, refl, ◌⊎◌, inl, inr, ◌∙◌, ap, ap₂, sym, subst, compare, arith, ltb, ltb→lt,
  if◌then◌else◌, Bool-cases, Bytes, Text, length, Result, ok, err, negative_number, out_of_range,
}
use lisk_migrator.Common.Int.{ℤ, pos, negsuc}
use lisk_migrator.Common.Predicates.{All, IsByte}
use lisk_migrator.Common.Sort.{compare_bytes}
use lisk_migrator.Common.Words.{
  be_value, be_bytes, length-be_bytes, be_bytes-IsByte, be_value-be_bytes, compare_bytes-be_bytes,
}

-- `number | bigint`, at integers.
pub data Num : Type 0 where
  number : ℤ → Num
  bigint : ℤ → Num

-- `buf.writeUInt32BE(num, 0)` and `buf.writeBigUInt64BE(num)` throw a RangeError for a number that
-- does not fit in the buffer's bytes.
write_uint : ℕ → ℕ → Result Bytes
write_uint size n = if ltb n (256 ^ size) then ok (be_bytes size n) else err out_of_range

unfoldable pub format_int : Num → Result Text
unfolding write_uint
format_int (bigint (negsuc n)) = err negative_number
format_int (bigint (pos n)) = write_uint 8 n
format_int (number (negsuc n)) = err negative_number
format_int (number (pos n)) = write_uint 4 n

abbrev pub size_of : Num → ℕ
size_of (bigint n) = 8
size_of (number n) = 4

abbrev pub value_of : Num → ℤ
value_of (bigint n) = n
value_of (number n) = n

-- What `formatInt` promises.
abbrev pub Formats : Num → Result Text → Type 0
Formats num (ok s) = (length s ≡ size_of num) × All IsByte s × (value_of num ≡ pos (be_value s))
Formats num (err e) =
    ((n : ℕ) × (value_of num ≡ negsuc n) × (e ≡ negative_number))
    ⊎ ((n : ℕ) × (value_of num ≡ pos n) × (256 ^ size_of num ≤ n) × (e ≡ out_of_range))

write_uint_fits : (size n : ℕ) → n < 256 ^ size → write_uint size n ≡ ok (be_bytes size n)
unfolding write_uint
write_uint_fits size n h = ground arith

pub format_int-be_bytes : (n : ℕ) → n < 256 ^ 4 → format_int (number (pos n)) ≡ ok (be_bytes 4 n)
unfolding format_int
format_int-be_bytes n h = write_uint_fits 4 n h

write_uint_over : (size n : ℕ) → 256 ^ size ≤ n → write_uint size n ≡ err out_of_range
unfolding write_uint
write_uint_over size n h = ground arith

Formats-write_uint :
    (num : Num) (n : ℕ) → value_of num ≡ pos n → Formats num (write_uint (size_of num) n)
Formats-write_uint num n e = elim (dec_lt n (256 ^ size_of num)) [
  | yes fits ↦ rw (write_uint_fits (size_of num) n fits) (
    length-be_bytes (size_of num) n,
    be_bytes-IsByte (size_of num) n,
    e ∙ ap pos (sym (be_value-be_bytes (size_of num) n fits)),
  )
  | no over ↦ rw (write_uint_over (size_of num) n (omega arith)) (inr (n, e, omega arith, refl))
]

-- `formatInt` throws its own error for a negative number and a range error for one that does not
-- fit in 4 bytes (a number) or 8 (a bigint); else it returns that many bytes, most significant
-- first, that hold the number.
pub format_int-Formats : (num : Num) → Formats num (format_int num)
unfolding format_int
format_int-Formats (bigint (negsuc n)) = inl (n, refl, refl)
format_int-Formats (bigint (pos n)) = Formats-write_uint (bigint (pos n)) n refl
format_int-Formats (number (negsuc n)) = inl (n, refl, refl)
format_int-Formats (number (pos n)) = Formats-write_uint (number (pos n)) n refl

write_uint-ok :
    (size n : ℕ) (s : Text) → write_uint size n ≡ ok s → (n < 256 ^ size) × (s ≡ be_bytes size n)
unfolding write_uint
write_uint-ok size n s h = elim (Bool-cases (ltb n (256 ^ size))) [
  | inl fits ↦ (ltb→lt n _ fits, cc)
  | inr over ↦ absurd (cc)
]

sized-order :
    (size m n : ℕ) (s t : Text)
    → write_uint size m ≡ ok s
    → write_uint size n ≡ ok t
    → compare_bytes s t ≡ compare m n
sized-order size m n s t hs ht =
    let (fits_m, em) = write_uint-ok size m s hs in
    let (fits_n, en) = write_uint-ok size n t ht in
    ap₂ compare_bytes em en ∙ compare_bytes-be_bytes size m n fits_m fits_n

-- Two values that `formatInt` accepts and that are both of the type number, or both of the type bigint,
-- have texts that sort as the values do.
pub compare_bytes-format_int :
    (kind : ℤ → Num)
    → (kind ≡ number) ⊎ (kind ≡ bigint)
    → (m n : ℕ) (s t : Text) → format_int (kind (pos m)) ≡ ok s
    → format_int (kind (pos n)) ≡ ok t
    → compare_bytes s t ≡ compare m n
unfolding format_int
compare_bytes-format_int kind (inl e) m n s t hs ht =
    sized-order 4 m n s t (subst (λ k. format_int (k (pos m)) ≡ ok s) e hs)
      (subst (λ k. format_int (k (pos n)) ≡ ok t) e ht)
compare_bytes-format_int kind (inr e) m n s t hs ht =
    sized-order 8 m n s t (subst (λ k. format_int (k (pos m)) ≡ ok s) e hs)
      (subst (λ k. format_int (k (pos n)) ≡ ok t) e ht)
