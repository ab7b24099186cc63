-- ===== src/Encoding/Hex.antt =====
-- `buffer.toString('hex')` and `Buffer.from(text, 'hex')`.
use lisk_migrator.Common.{
  ℕ, ◌+◌, ◌*◌, ◌-◌, ◌/◌, ◌%◌, ◌<◌, ◌≡◌, refl, ◌∙◌, ap, ◌&&◌, Option, none, some, List, [], ◌∷◌,
  arith, ltb, leb, if◌then◌else◌, Bytes, Text,
}
use lisk_migrator.Common.Predicates.{All, IsByte}
use lisk_migrator.Common.Sort.{compare_bytes}

hex_digit : ℕ → ℕ
hex_digit d = if ltb d 10 then 48 + d else 87 + d

unfoldable pub hex : Bytes → Text
unfolding hex_digit
hex [] = []
hex (b ∷ bs) = hex_digit (b / 16) ∷ hex_digit (b % 16) ∷ hex bs

-- Both cases of the letters are digits.
hex_value : ℕ → Option ℕ
hex_value c =
    if leb 48 c && leb c 57
    then some (c - 48)
    else if leb 97 c && leb c 102
    then some (c - 87)
    else if leb 65 c && leb c 70
    then some (c - 55)
    else none

byte_of : Option ℕ → Option ℕ → Option ℕ
byte_of (some h) (some l) = some (16 * h + l)
byte_of _ _ = none

-- Decoding stops at the first pair that is not two hex digits.
unfoldable pub from_hex : Text → Bytes
unfolding hex_value byte_of
from_hex [] = []
from_hex (h ∷ []) = []
from_hex (h ∷ l ∷ s) =
    let rest = from_hex s in
    elim (byte_of (hex_value h) (hex_value l)) [ some b ↦ b ∷ rest | none ↦ [] ]

from_hex_byte :
    (b : ℕ) (s : Text)
    → b < 256
    → from_hex (hex_digit (b / 16) ∷ hex_digit (b % 16) ∷ s) ≡ b ∷ from_hex s
unfolding from_hex hex_digit
from_hex_byte b s h = ground arith

-- Decoding the hex of a buffer gives the buffer back.
pub from_hex-hex : (bs : Bytes) → All IsByte bs → from_hex (hex bs) ≡ bs
unfolding hex
from_hex-hex [] h = unfold from_hex in refl
from_hex-hex (b ∷ bs) h = from_hex_byte b (hex bs) h.0 ∙ ap (◌∷◌ b) (from_hex-hex bs h.1)

compare_hex_byte :
    (a b : ℕ) (s t : Text)
    → a < 256
    → b < 256
    → compare_bytes
        (hex_digit (a / 16) ∷ hex_digit (a % 16) ∷ s)
        (hex_digit (b / 16) ∷ hex_digit (b % 16) ∷ t)
      ≡ compare_bytes (a ∷ s) (b ∷ t)
unfolding hex_digit compare_bytes
compare_hex_byte a b s t ha hb = ground arith

compare_cons :
    (a b : ℕ) (s t u v : List ℕ)
    → compare_bytes s t ≡ compare_bytes u v
    → compare_bytes (a ∷ s) (b ∷ t) ≡ compare_bytes (a ∷ u) (b ∷ v)
unfolding compare_bytes
compare_cons a b s t u v h = ground arith

-- Hex text sorts as the bytes that it stands for.
pub compare_bytes-hex :
    (s t : Bytes) → All IsByte s → All IsByte t → compare_bytes (hex s) (hex t) ≡ compare_bytes s t
unfolding hex
compare_bytes-hex [] [] hs ht = refl
compare_bytes-hex [] (b ∷ t) hs ht = unfold compare_bytes in refl
compare_bytes-hex (a ∷ s) [] hs ht = unfold compare_bytes in refl
compare_bytes-hex (a ∷ s) (b ∷ t) hs ht =
    compare_hex_byte a b (hex s) (hex t) hs.0 ht.0
    ∙ compare_cons a b (hex s) (hex t) s t (compare_bytes-hex s t hs.1 ht.1)
