-- ===== src/Utils/Chain/Duration.antt =====
-- `secondsToHumanString` of src/utils/chain.ts.
use native.Mathlib.Nat.{zero-div, zero-mod}
use lisk_migrator.Common.{
  ℕ, zero, suc, ◌+◌, ◌*◌, ◌/◌, ◌%◌, ◌<◌, ◌≡◌, refl, List, [], ◌∷◌, ◌++◌, Text, codes, arith, ltb,
  keep, map, ap, ◌∙◌, true,
}
use lisk_migrator.Common.Int.{pos, negsuc}
use lisk_migrator.Encoding.Decimal.{decimal}
use lisk_migrator.Utils.Chain.{
  seconds_to_human_string, remainder, floor_div, negated, push_unit, or_zero,
}

-- A number of years, days, hours, minutes and seconds.
pub record Duration : Type 0 where
  pub years : ℕ
  pub days : ℕ
  pub hours : ℕ
  pub minutes : ℕ
  pub seconds : ℕ

abbrev pub in_seconds : Duration → ℕ
in_seconds d = d.years * 31536000 + d.days * 86400 + d.hours * 3600 + d.minutes * 60 + d.seconds

-- No unit makes up one of the next larger unit.
abbrev pub IsReduced : Duration → Type 0
IsReduced d = (d.days < 365) × (d.hours < 24) × (d.minutes < 60) × (d.seconds < 60)

abbrev pub units : Duration → List (ℕ × Text)
units d =
    (d.years, codes "y")
    ∷ (d.days, codes "d")
    ∷ (d.hours, codes "h")
    ∷ (d.minutes, codes "m")
    ∷ (d.seconds, codes "s")
    ∷ []

abbrev pub show_unit : ℕ × Text → Text
show_unit u = decimal u.0 ++ u.1

-- The units that are not zero, each with its letter, with spaces between them; '0' if there is none.
abbrev pub shown : Duration → Text
shown d = or_zero (map show_unit (keep (λ u. ltb 0 u.0) (units d)))

abbrev pub duration_of : ℕ → Duration
duration_of n = record {
  years = n / 31536000;
  days = n % 31536000 / 86400;
  hours = n % 31536000 % 86400 / 3600;
  minutes = n % 31536000 % 86400 % 3600 / 60;
  seconds = n % 31536000 % 86400 % 3600 % 60;
}

-- A reduced duration is determined by its length.
in_seconds-injective :
    (d e : Duration)
    → IsReduced d
    → IsReduced e
    → in_seconds d ≡ in_seconds e
    → (d.years ≡ e.years)
      × (d.days ≡ e.days)
      × (d.hours ≡ e.hours)
      × (d.minutes ≡ e.minutes)
      × (d.seconds ≡ e.seconds)
in_seconds-injective d e h k q = (omega arith, omega arith, omega arith, omega arith, omega arith)

duration_of_lem : (n : ℕ) → IsReduced (duration_of n) × (in_seconds (duration_of n) ≡ n)
duration_of_lem n = ((omega arith, omega arith, omega arith, omega arith), omega arith)

ltb-suc : (n : ℕ) → ltb 0 (suc n) ≡ true
ltb-suc n = ground arith

push_unit-pos :
    (n : ℕ) (unit : Text) (us : List (ℕ × Text))
    → push_unit (pos n) unit (map show_unit (keep (λ u. ltb 0 u.0) us))
      ≡ map show_unit (keep (λ u. ltb 0 u.0) ((n, unit) ∷ us))
unfolding push_unit
push_unit-pos zero unit us = refl
push_unit-pos (suc n) unit us = rw (ltb-suc n) refl

seconds_to_human_string-pos : (n : ℕ) → seconds_to_human_string (pos n) ≡ shown (duration_of n)
unfolding seconds_to_human_string floor_div remainder
seconds_to_human_string-pos n =
    rw
      (
        push_unit-pos (duration_of n).seconds (codes "s") [],
        push_unit-pos (duration_of n).minutes (codes "m") _,
        push_unit-pos (duration_of n).hours (codes "h") _,
        push_unit-pos (duration_of n).days (codes "d") _,
        push_unit-pos (duration_of n).years (codes "y") _,
      )
      refl

duration_eq :
    (d e : Duration)
    → (d.years ≡ e.years)
      × (d.days ≡ e.days)
      × (d.hours ≡ e.hours)
      × (d.minutes ≡ e.minutes)
      × (d.seconds ≡ e.seconds)
    → d ≡ e
duration_eq d e q =
    λ i. record { years = q.0 i; days = q.1 i; hours = q.2 i; minutes = q.3 i; seconds = q.4 i }

-- A time that has passed: nothing is pushed for it.
push_unit-floor_div :
    (m d : ℕ) (unit : Text) (result : List Text)
    → push_unit (floor_div (negated m) d) unit result ≡ result
unfolding push_unit floor_div negated
push_unit-floor_div zero d unit result = rw (zero-div d) refl
push_unit-floor_div (suc m) d unit result = refl

remainder-negated : (m d : ℕ) → remainder (negated m) d ≡ negated (m % d)
unfolding remainder negated
remainder-negated zero d = rw (zero-mod d) refl
remainder-negated (suc m) d = refl

push_unit-negated :
    (m : ℕ) (unit : Text) (result : List Text) → push_unit (negated m) unit result ≡ result
unfolding push_unit negated
push_unit-negated zero unit result = refl
push_unit-negated (suc m) unit result = refl

seconds_to_human_string-negated : (m : ℕ) → seconds_to_human_string (negated m) ≡ codes "0"
unfolding seconds_to_human_string or_zero
seconds_to_human_string-negated m = simp (
  remainder-negated m 31536000,
  remainder-negated (m % 31536000) 86400,
  remainder-negated (m % 31536000 % 86400) 3600,
  remainder-negated (m % 31536000 % 86400 % 3600) 60,
  push_unit-floor_div,
  push_unit-negated,
)

-- For every duration without a unit that makes up one of the next larger unit, the text made of its
-- length in seconds is its units that are not zero, the largest first, or '0' if all are zero; and
-- for every negative number of seconds the text is '0'.
pub seconds_to_human_string_lem :
    (d : Duration) (n : ℕ)
    → IsReduced d
    → (seconds_to_human_string (pos (in_seconds d)) ≡ shown d)
      × (seconds_to_human_string (negsuc n) ≡ codes "0")
unfolding negated
seconds_to_human_string_lem d n h = (
  seconds_to_human_string-pos (in_seconds d)
      ∙ ap shown (
          duration_eq (duration_of (in_seconds d)) d (
            in_seconds-injective (duration_of (in_seconds d)) d (duration_of_lem (in_seconds d)).0 h
              (duration_of_lem (in_seconds d)).1)),
  seconds_to_human_string-negated (suc n),
)
