-- ===== src/Utils/Block/Paging/Ids.antt =====
-- The keys under which blocks and transactions are stored can be stepped past: they are UTF-8
-- encodings of texts of bytes of one length.
use lisk_migrator.Common.{
  ℕ, ◌+◌, ◌/◌, ◌%◌, ◌<◌, ◌≡◌, ◌≢◌, refl, sym, ◌∙◌, ap, ap₂, subst, subst₂, ltb→lt, List, [], ◌∷◌,
  ◌++◌, length, arith, Bytes, Text, Ordering, Bool-cases, inl, inr, ltb, codes, length-append, drop,
  true, false, Bool, ◌&&◌,
}
use lisk_migrator.Common.Predicates.{All, All-append, IsByte}
use lisk_migrator.Common.Sort.{compare_bytes}
use lisk_migrator.Common.Sort.Laws.{compare_bytes_refl}
use lisk_migrator.Database.{Entry, IsAscending}
use lisk_migrator.Encoding.Utf8.{utf8}
use lisk_migrator.Utils.Block.{id_key}
use lisk_migrator.Utils.Block.Paging.{IsSteppable, IsApart}
use lisk_migrator.Utils.Block.Paging.Step.{Extends, HasNext}

utf8_nil : utf8 [] ≡ []
unfolding utf8
utf8_nil = refl

utf8_ascii : (c : ℕ) (s : Text) → c < 128 → utf8 (c ∷ s) ≡ c ∷ utf8 s
unfolding utf8
utf8_ascii c s h = ground arith

utf8_latin :
    (c : ℕ) (s : Text)
    → ltb c 128 ≡ false
    → c < 256
    → utf8 (c ∷ s) ≡ (192 + c / 64) ∷ (128 + c % 64) ∷ utf8 s
unfolding utf8
utf8_latin c s h k = ground arith

HasNext-cons : (b : ℕ) (key : Bytes) → HasNext key → HasNext (b ∷ key)
HasNext-cons b key h = record {
  init = b ∷ h.init;
  last = h.last;
  split = ap (◌∷◌ b) h.split;
  below = h.below;
}

utf8-HasNext : (c : ℕ) (s : Text) → All IsByte (c ∷ s) → HasNext (utf8 (c ∷ s))
utf8-HasNext c [] h = elim (Bool-cases (ltb c 128)) [
  | inl ascii ↦ record {
    init = [];
    last = c;
    split = utf8_ascii c [] (ltb→lt c 128 ascii) ∙ ap (◌∷◌ c) utf8_nil;
    below = omega (arith, ltb→lt c 128 ascii);
  }
  | inr latin ↦ record {
    init = (192 + c / 64) ∷ [];
    last = 128 + c % 64;
    split = utf8_latin c [] latin h.0 ∙ ap (λ s. (192 + c / 64) ∷ (128 + c % 64) ∷ s) utf8_nil;
    below = omega arith;
  }
]
utf8-HasNext c (d ∷ s) h = elim (Bool-cases (ltb c 128)) [
  | inl ascii ↦
      subst HasNext (sym (utf8_ascii c (d ∷ s) (ground arith)))
        (HasNext-cons c (utf8 (d ∷ s)) (utf8-HasNext d s h.1))
  | inr latin ↦
      subst HasNext (sym (utf8_latin c (d ∷ s) latin h.0))
        (HasNext-cons _ _ (HasNext-cons _ (utf8 (d ∷ s)) (utf8-HasNext d s h.1)))
]

Extends-utf8_cons :
    (c d : ℕ) (s t : Text)
    → c < 256
    → d < 256
    → Extends (utf8 (c ∷ s)) (utf8 (d ∷ t))
    → (c ≡ d) × Extends (utf8 s) (utf8 t)
Extends-utf8_cons c d s t hc hd e = elim (Bool-cases (ltb c 128)) [
  | inl ascii ↦ elim (Bool-cases (ltb d 128)) [
    | inl ascii' ↦
        at_ends (utf8_ascii c s (ltb→lt c 128 ascii)) (utf8_ascii d t (ltb→lt d 128 ascii'))
    | inr latin' ↦
        let e' = at_ends (utf8_ascii c s (ltb→lt c 128 ascii)) (utf8_latin d t latin' hd) in
        absurd (omega (arith, e'.0, ltb→lt c 128 ascii))
  ]
  | inr latin ↦ elim (Bool-cases (ltb d 128)) [
    | inl ascii' ↦
        let e' = at_ends (utf8_latin c s latin hc) (utf8_ascii d t (ltb→lt d 128 ascii')) in
        absurd (omega (arith, e'.0, ltb→lt d 128 ascii'))
    | inr latin' ↦
        let e' = at_ends (utf8_latin c s latin hc) (utf8_latin d t latin' hd) in
        (omega (arith, e'.0, e'.1.0), e'.1.1)
  ]
]
  where
    at_ends : {k l : Bytes} → utf8 (c ∷ s) ≡ k → utf8 (d ∷ t) ≡ l → Extends k l
    at_ends p q = subst₂ Extends p q e

-- Of texts of one length only equal ones have keys that continue each other.
Extends-utf8 :
    (s t : Text)
    → All IsByte s
    → All IsByte t
    → length s ≡ length t
    → Extends (utf8 s) (utf8 t)
    → s ≡ t
Extends-utf8 [] [] hs ht l e = refl
Extends-utf8 [] (d ∷ t) hs ht l e = absurd (omega arith)
Extends-utf8 (c ∷ s) [] hs ht l e = absurd (omega arith)
Extends-utf8 (c ∷ s) (d ∷ t) hs ht l e =
    let (h, rest) = Extends-utf8_cons c d s t hs.0 ht.0 e in
    ap₂ ◌∷◌ h (Extends-utf8 s t hs.1 ht.1 (omega arith) rest)

-- A key of an ID of 32 bytes.
abbrev pub IsIdKey : Text → Bytes → Type 0
IsIdKey prefix key = (id : Bytes) × (key ≡ id_key prefix id) × (length id ≡ 32) × All IsByte id

-- The text whose encoding the key of an ID is.
abbrev id_text : Text → Bytes → Text
id_text prefix id = prefix ++ codes ":" ++ id

id_text-IsByte :
    (prefix : Text) (id : Bytes)
    → All IsByte prefix
    → All IsByte id
    → All IsByte (id_text prefix id)
id_text-IsByte prefix id h k =
    All-append IsByte (prefix ++ codes ":") id
      (All-append IsByte prefix (codes ":") h (omega arith, tt)) k

length-id_text :
    (prefix : Text) (id : Bytes) → length (id_text prefix id) ≡ length prefix + (1 + length id)
length-id_text prefix id =
    omega (arith, length-append (prefix ++ codes ":") id, length-append prefix (codes ":"))

IsIdKey-HasNext :
    (prefix : Text) (key : Bytes) → All IsByte prefix → IsIdKey prefix key → HasNext key
IsIdKey-HasNext prefix key h (id, e, len, bytes) = subst HasNext (sym e) (
    text-HasNext (id_text prefix id) (id_text-IsByte prefix id h bytes)
      (omega (arith, length-id_text prefix id)))
  where
    text-HasNext : (s : Text) → All IsByte s → 0 < length s → HasNext (utf8 s)
    text-HasNext [] h l = absurd (omega arith)
    text-HasNext (c ∷ s) h l = utf8-HasNext c s h

IsIdKey-Extends :
    (prefix : Text) (k l : Bytes)
    → All IsByte prefix
    → IsIdKey prefix k
    → IsIdKey prefix l
    → Extends k l
    → k ≡ l
IsIdKey-Extends prefix k l h (id, e, len, bytes) (id', e', len', bytes') x =
    e
    ∙ ap utf8 (
        Extends-utf8 (id_text prefix id) (id_text prefix id') (id_text-IsByte prefix id h bytes)
          (id_text-IsByte prefix id' h bytes')
          (omega (arith, length-id_text prefix id, length-id_text prefix id'))
          (subst₂ Extends e e' x))
    ∙ sym e'

abbrev pub are_bytes : Text → Bool
are_bytes [] = true
are_bytes (c ∷ s) = ltb c 256 && are_bytes s

pub are_bytes-IsByte : (s : Text) → are_bytes s ≡ true → All IsByte s
are_bytes-IsByte [] h = tt
are_bytes-IsByte (c ∷ s) h = elim (Bool-cases (ltb c 256)) [
  | inl byte ↦ (ltb→lt c 256 byte, are_bytes-IsByte s (rw byte at h))
  | inr large ↦ absurd (cc (rw large at h))
]

-- All entries are stored under keys of IDs.
abbrev pub HaveIdKeys : Text → List Entry → Type 0
HaveIdKeys prefix = All (λ e. IsIdKey prefix e.0)

module _ (prefix : Text) (h : All IsByte prefix) where
  apart_from :
      (k : Bytes) (es : List Entry)
      → IsIdKey prefix k
      → HaveIdKeys prefix es
      → All (λ f. compare_bytes k f.0 ≡ Ordering.lt) es
      → All (λ f. ¬ Extends k f.0) es
  apart_from k [] i is below = tt
  apart_from k (f ∷ es) i is below = (
    λ x. lt_ne (
        sym (compare_bytes_refl k)
        ∙ ap (compare_bytes k) (IsIdKey-Extends prefix k f.0 h i is.0 x)
        ∙ below.0),
    apart_from k es i is.1 below.1,
  )
    where
      lt_ne : Ordering.eq ≢ Ordering.lt
      lt_ne = cc

  HaveIdKeys-IsApart : (es : List Entry) → HaveIdKeys prefix es → IsAscending es → IsApart es
  HaveIdKeys-IsApart [] is a = tt
  HaveIdKeys-IsApart (e ∷ es) is a =
      (apart_from e.0 es is.0 is.1 a.0, HaveIdKeys-IsApart es is.1 a.1)

  HaveIdKeys-steps : (es : List Entry) → HaveIdKeys prefix es → All (λ e. HasNext e.0) es
  HaveIdKeys-steps [] is = tt
  HaveIdKeys-steps (e ∷ es) is = (IsIdKey-HasNext prefix e.0 h is.0, HaveIdKeys-steps es is.1)

  pub HaveIdKeys-IsSteppable :
      (es : List Entry) → HaveIdKeys prefix es → IsAscending es → IsSteppable es
  HaveIdKeys-IsSteppable es is a = record {
    ascending = a;
    steps = HaveIdKeys-steps es is;
    apart = HaveIdKeys-IsApart es is a;
  }

Extends-refl : (k : Bytes) → Extends k k
Extends-refl [] = tt
Extends-refl (b ∷ k) = (refl, Extends-refl k)

-- Texts of one length are under different keys, if they differ.
pub key_injective :
    (prefix : Text) (s t : Text)
    → All IsByte prefix
    → All IsByte s
    → All IsByte t
    → length s ≡ length t
    → id_key prefix s ≡ id_key prefix t
    → s ≡ t
key_injective prefix s t h hs ht l e = drop_prefix (prefix ++ codes ":") s t (
    Extends-utf8 (id_text prefix s) (id_text prefix t) (id_text-IsByte prefix s h hs)
      (id_text-IsByte prefix t h ht)
      (omega (arith, length-id_text prefix s, length-id_text prefix t))
      (subst (Extends (id_key prefix s)) e (Extends-refl (id_key prefix s))))
  where
    drop_prefix : (p u v : Text) → p ++ u ≡ p ++ v → u ≡ v
    drop_prefix [] u v q = q
    drop_prefix (c ∷ p) u v q = drop_prefix p u v (ap (drop 1) q)
