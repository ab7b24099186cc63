-- ===== src/Encoding/Decimal.antt =====
-- `String(n)` and `BigInt(text)` for the amounts of the snapshot, which are never negative.
use lisk_migrator.Common.{
  ℕ, zero, suc, ◌+◌, ◌*◌, ◌-◌, ◌/◌, ◌%◌, ◌<◌, ◌≡◌, refl, ap, ◌∙◌, inl, inr, ltb→lt, ◌&&◌, [], ◌∷◌,
  arith, ltb, leb, if◌then◌else◌, Bool-cases, Text, Result, ok, err, not_a_number,
}

-- The digits of `n` in front of `out`.
decimal_from : ℕ → ℕ → Text → Text
decimal_from zero n out = out
decimal_from (suc fuel) n out =
    let shown = (48 + n % 10) ∷ out in
    let rest = decimal_from fuel (n / 10) shown in if ltb n 10 then shown else rest

-- Each round divides by ten, so `n + 1` rounds are enough.
unfoldable pub decimal : ℕ → Text
unfolding decimal_from
decimal n = decimal_from (suc n) n []

big_int_from : ℕ → Text → Result ℕ
big_int_from n [] = ok n
big_int_from n (c ∷ s) =
    let rest = big_int_from (10 * n + (c - 48)) s in
    if leb 48 c && leb c 57 then rest else err not_a_number

-- `BigInt` on a text of decimal digits; the other notations that it reads are refused here, as the
-- program only reads back what `String` printed.
unfoldable pub big_int : Text → Result ℕ
unfolding big_int_from
big_int s = big_int_from 0 s

big_int_from_digit :
    (n d : ℕ) (s : Text) → d < 10 → big_int_from n ((48 + d) ∷ s) ≡ big_int_from (10 * n + d) s
unfolding big_int_from
big_int_from_digit n d s h = ground arith

big_int_from-decimal_from :
    (fuel n : ℕ) (out : Text)
    → n < fuel
    → big_int_from 0 (decimal_from fuel n out) ≡ big_int_from n out
unfolding decimal_from
big_int_from-decimal_from zero n out h = elim h [ ]
big_int_from-decimal_from (suc fuel) n out h = elim (Bool-cases (ltb n 10)) [
  | inl small ↦ rw small (
      big_int_from_digit 0 (n % 10) out (omega arith)
      ∙ ap (λ m. big_int_from m out) (omega (arith, ltb→lt n 10 small)))
  | inr more ↦ rw more (
      big_int_from-decimal_from fuel (n / 10) ((48 + n % 10) ∷ out) (ground arith)
      ∙ big_int_from_digit (n / 10) (n % 10) out (omega arith)
      ∙ ap (λ m. big_int_from m out) (omega arith))
]

-- A printed amount reads back as itself.
pub big_int-decimal : (n : ℕ) → big_int (decimal n) ≡ ok n
unfolding big_int decimal
big_int-decimal n =
    rw (big_int_from-decimal_from (suc n) n [] (omega arith)) (unfold big_int_from in refl)
