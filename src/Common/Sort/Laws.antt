-- ===== src/Common/Sort/Laws.antt =====
-- The sort returns the ascending rearrangement of its input, and the byte order is a total order.
use mathlib.Core.List.{Perm}
use mathlib.Core.List.Perm
use lisk_migrator.Common.{
  ℕ, ◌≡◌, ◌≢◌, refl, Ordering, List, [], ◌∷◌, map, sym, ◌∙◌, total, arith, ◌+◌, ◌⊎◌, inl, inr,
}
use lisk_migrator.Common.Predicates.{All, All-map_of}
use lisk_migrator.Common.Sort.{insert, sort, compare_bytes, compare_on}

-- What the specification of `sort` asks of a comparator.
pub record IsComparator {ℓ} {A : Type ℓ} (cmp : A → A → Ordering) : Type ℓ where
  pub turn : (a b : A) → cmp a b ≡ Ordering.gt → cmp b a ≢ Ordering.gt
  pub trans : (a b c : A) → cmp a b ≢ Ordering.gt → cmp b c ≢ Ordering.gt → cmp a c ≢ Ordering.gt

Ordering-cases : (o : Ordering) → (o ≡ Ordering.gt) ⊎ (o ≢ Ordering.gt)
Ordering-cases Ordering.lt = inr (cc)
Ordering-cases Ordering.eq = inr (cc)
Ordering-cases Ordering.gt = inl refl

module _ {ℓ} {A : Type ℓ} (cmp : A → A → Ordering) where
  abbrev pub IsBelow : A → List A → Type 0
  IsBelow x ys = All (λ y. cmp x y ≢ Ordering.gt) ys

  -- Every element compares below or equal to each later one.
  abbrev pub IsSorted : List A → Type 0
  IsSorted [] = Unit
  IsSorted (x ∷ xs) = IsBelow x xs × IsSorted xs

  insert_before :
      (x y : A) (ys : List A) → cmp x y ≢ Ordering.gt → insert cmp x (y ∷ ys) ≡ x ∷ y ∷ ys
  unfolding insert
  insert_before x y ys h = ground arith

  insert-perm : (x : A) (ys : List A) → Perm (insert cmp x ys) (x ∷ ys)
  unfolding insert
  insert-perm x [] = Perm.rfl
  insert-perm x (y ∷ ys) = elim (Ordering-cases (cmp x y)) [
    | inl e ↦ rw (e, insert) (Perm.trans (Perm.cons y (insert-perm x ys)) (Perm.swap x y ys))
    | inr h ↦ rw (insert_before x y ys h) Perm.rfl
  ]

  -- `sort` loses and invents nothing.
  pub sort-perm : (xs : List A) → Perm (sort cmp xs) xs
  unfolding sort
  sort-perm [] = Perm.rfl
  sort-perm (x ∷ xs) = Perm.trans (insert-perm x (sort cmp xs)) (Perm.cons x (sort-perm xs))

  pub total-insert :
      (f : A → ℕ) (x : A) (ys : List A) → total f (insert cmp x ys) ≡ f x + total f ys
  unfolding insert
  total-insert f x [] = refl
  total-insert f x (y ∷ ys) = ground (arith, total-insert f x ys)

  pub total-sort : (f : A → ℕ) (xs : List A) → total f (sort cmp xs) ≡ total f xs
  unfolding sort
  total-sort f [] = refl
  total-sort f (x ∷ xs) = omega (arith, total-insert f x (sort cmp xs), total-sort f xs)

  insert-IsBelow :
      (a x : A) (ys : List A) → cmp a x ≢ Ordering.gt → IsBelow a ys → IsBelow a (insert cmp x ys)
  unfolding insert
  insert-IsBelow a x [] h k = (h, tt)
  insert-IsBelow a x (y ∷ ys) h k = ground (arith, insert-IsBelow a x ys h k.1)

  IsBelow-trans :
      IsComparator cmp
      → (x y : A) (ys : List A) → cmp x y ≢ Ordering.gt
      → IsBelow y ys
      → IsBelow x ys
  IsBelow-trans c x y ys h = All-map_of _ _ (λ z. c.trans x y z h) ys

  insert-IsSorted :
      IsComparator cmp → (x : A) (ys : List A) → IsSorted ys → IsSorted (insert cmp x ys)
  unfolding insert
  insert-IsSorted c x [] s = (tt, tt)
  insert-IsSorted c x (y ∷ ys) s = elim (Ordering-cases (cmp x y)) [
    | inl e ↦ rw (e, insert) (insert-IsBelow y x ys (c.turn x y e) s.0, insert-IsSorted c x ys s.1)
    | inr h ↦ rw (insert_before x y ys h) ((h, IsBelow-trans c x y ys h s.0), s)
  ]

  pub sort-IsSorted : IsComparator cmp → (xs : List A) → IsSorted (sort cmp xs)
  unfolding sort
  sort-IsSorted c [] = tt
  sort-IsSorted c (x ∷ xs) = insert-IsSorted c x (sort cmp xs) (sort-IsSorted c xs)

  insert-All {κ} : (P : A → Type κ) (x : A) (ys : List A) → P x → All P ys → All P (insert cmp x ys)
  unfolding insert
  insert-All P x [] h k = (h, tt)
  insert-All P x (y ∷ ys) h k = elim (Ordering-cases (cmp x y)) [
    | inl e ↦ rw (e, insert) (k.0, insert-All P x ys h k.1)
    | inr le ↦ rw (insert_before x y ys le) (h, k)
  ]

  pub sort-All {κ} : (P : A → Type κ) (xs : List A) → All P xs → All P (sort cmp xs)
  unfolding sort
  sort-All P [] h = tt
  sort-All P (x ∷ xs) h = insert-All P x (sort cmp xs) h.0 (sort-All P xs h.1)

-- A map that keeps the order of all members keeps a list ascending.
module _ {ℓ κ} {A : Type ℓ} {B : Type κ} (cmp : A → A → Ordering) (cmp' : B → B → Ordering)
    (f : A → B) (P : A → Type 0) where
  abbrev KeepsOrder : Type ℓ
  KeepsOrder = (a b : A) → P a → P b → cmp' (f a) (f b) ≡ cmp a b

  IsBelow-map :
      KeepsOrder
      → (x : A) (ys : List A) → P x
      → All P ys
      → IsBelow cmp x ys
      → IsBelow cmp' (f x) (map f ys)
  IsBelow-map keep x [] px ps h = tt
  IsBelow-map keep x (y ∷ ys) px ps h =
      (λ e. h.0 (sym (keep x y px ps.0) ∙ e), IsBelow-map keep x ys px ps.1 h.1)

  pub IsSorted-map :
      KeepsOrder → (xs : List A) → All P xs → IsSorted cmp xs → IsSorted cmp' (map f xs)
  IsSorted-map keep [] ps s = tt
  IsSorted-map keep (x ∷ xs) ps s =
      (IsBelow-map keep x xs ps.0 ps.1 s.0, IsSorted-map keep xs ps.1 s.1)

pub compare_bytes_refl : (s : List ℕ) → compare_bytes s s ≡ Ordering.eq
unfolding compare_bytes
compare_bytes_refl [] = refl
compare_bytes_refl (a ∷ s) = ground (arith, compare_bytes_refl s)

pub compare_bytes-eq : (s t : List ℕ) → compare_bytes s t ≡ Ordering.eq → s ≡ t
unfolding compare_bytes
compare_bytes-eq [] [] h = refl
compare_bytes-eq [] (b ∷ t) h = ground arith
compare_bytes-eq (a ∷ s) [] h = ground arith
compare_bytes-eq (a ∷ s) (b ∷ t) h = ground (arith, compare_bytes-eq s t)

pub compare_bytes_turn :
    (s t : List ℕ) → compare_bytes s t ≡ Ordering.gt → compare_bytes t s ≡ Ordering.lt
unfolding compare_bytes
compare_bytes_turn [] [] h = ground arith
compare_bytes_turn [] (b ∷ t) h = ground arith
compare_bytes_turn (a ∷ s) [] h = refl
compare_bytes_turn (a ∷ s) (b ∷ t) h = ground (arith, compare_bytes_turn s t)

pub compare_bytes_trans :
    (s t u : List ℕ)
    → compare_bytes s t ≢ Ordering.gt
    → compare_bytes t u ≢ Ordering.gt
    → compare_bytes s u ≢ Ordering.gt
unfolding compare_bytes
compare_bytes_trans [] t [] h k = ground arith
compare_bytes_trans [] t (c ∷ u) h k = ground arith
compare_bytes_trans (a ∷ s) [] u h k = ground arith
compare_bytes_trans (a ∷ s) (b ∷ t) [] h k = ground arith
compare_bytes_trans (a ∷ s) (b ∷ t) (c ∷ u) h k = ground (arith, compare_bytes_trans s t u)

pub compare_on-IsComparator {ℓ} : {A : Type ℓ} (key : A → List ℕ) → IsComparator (compare_on key)
compare_on-IsComparator key = record {
  turn = λ a b h. ground (arith, compare_bytes_turn (key a) (key b) h);
  trans = λ a b c. compare_bytes_trans (key a) (key b) (key c);
}
