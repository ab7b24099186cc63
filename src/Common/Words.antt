-- ===== src/Common/Words.antt =====
-- Big-endian numbers as bytes.
use native.Mathlib.Nat.{pow-suc}
use lisk_migrator.Common.{
  ℕ, zero, suc, ◌+◌, ◌*◌, ◌/◌, ◌%◌, ◌^◌, ◌<◌, ◌≡◌, refl, [], ◌∷◌, ◌++◌, arith, length, Bytes,
  compare, length-append, Ordering, sym, ◌∙◌,
}
use lisk_migrator.Common.Predicates.{All, IsByte, All-append}
use lisk_migrator.Common.Sort.{compare_bytes}

abbrev pub be_value : Bytes → ℕ
be_value [] = 0
be_value (b ∷ bs) = b * 256 ^ length bs + be_value bs

-- The lowest `w` bytes of `n`, the most significant first.
unfoldable pub be_bytes : ℕ → ℕ → Bytes
be_bytes zero n = []
be_bytes (suc w) n = be_bytes w (n / 256) ++ ((n % 256) ∷ [])

pub length-be_bytes : (w n : ℕ) → length (be_bytes w n) ≡ w
unfolding be_bytes
length-be_bytes zero n = refl
length-be_bytes (suc w) n =
    omega
      (arith, length-append (be_bytes w (n / 256)) ((n % 256) ∷ []), length-be_bytes w (n / 256))

pub be_bytes-IsByte : (w n : ℕ) → All IsByte (be_bytes w n)
unfolding be_bytes
be_bytes-IsByte zero n = tt
be_bytes-IsByte (suc w) n =
    All-append IsByte (be_bytes w (n / 256)) _ (be_bytes-IsByte w (n / 256)) (omega arith)

pub length-snoc : (bs : Bytes) (b : ℕ) → length (bs ++ (b ∷ [])) ≡ suc (length bs)
length-snoc bs b = omega (arith, length-append bs (b ∷ []))

be_value_snoc : (bs : Bytes) (b : ℕ) → be_value (bs ++ (b ∷ [])) ≡ be_value bs * 256 + b
be_value_snoc [] b = omega arith
be_value_snoc (a ∷ bs) b = rw (length-snoc bs b, pow-suc) (omega (arith, be_value_snoc bs b))

-- A number that fits is read back.
pub be_value-be_bytes : (w n : ℕ) → n < 256 ^ w → be_value (be_bytes w n) ≡ n
unfolding be_bytes
be_value-be_bytes zero n h = omega arith
be_value-be_bytes (suc w) n h = omega (
  arith,
  be_value_snoc (be_bytes w (n / 256)) (n % 256),
  be_value-be_bytes w (n / 256) (omega (arith, pow-suc 256 w)),
)

compare_snoc :
    (s t : Bytes) (a b : ℕ)
    → length s ≡ length t
    → compare_bytes (s ++ (a ∷ [])) (t ++ (b ∷ []))
      ≡ (elim (compare_bytes s t) [ Ordering.eq ↦ compare a b | o ↦ o ])
unfolding compare_bytes
compare_snoc [] [] a b h = ground arith
compare_snoc [] (y ∷ t) a b h = absurd (omega arith)
compare_snoc (x ∷ s) [] a b h = absurd (omega arith)
compare_snoc (x ∷ s) (y ∷ t) a b h = ground (arith, compare_snoc s t a b (omega arith))

compare_parts :
    (m n : ℕ)
    → (elim (compare (m / 256) (n / 256)) [ Ordering.eq ↦ compare (m % 256) (n % 256) | o ↦ o ])
      ≡ compare m n
compare_parts m n = ground arith

-- Big-endian bytes of one width sort as the numbers that they stand for.
pub compare_bytes-be_bytes :
    (w m n : ℕ)
    → m < 256 ^ w
    → n < 256 ^ w
    → compare_bytes (be_bytes w m) (be_bytes w n) ≡ compare m n
unfolding be_bytes
compare_bytes-be_bytes zero m n hm hn = unfold compare_bytes in ground arith
compare_bytes-be_bytes (suc w) m n hm hn =
    compare_snoc (be_bytes w (m / 256)) (be_bytes w (n / 256)) (m % 256) (n % 256)
      (length-be_bytes w (m / 256) ∙ sym (length-be_bytes w (n / 256)))
    ∙ rw
        (compare_bytes-be_bytes w (m / 256) (n / 256) (omega (arith, pow-suc 256 w))
          (omega (arith, pow-suc 256 w)))
        (compare_parts m n)
