-- ===== src/Common/Dict.antt =====
-- `Map`, `Set` and objects used as dictionaries: association lists in insertion order, over a
-- test of keys.
use lisk_migrator.Common.{
  ◌≡◌, refl, ◌↔◌, Bool, true, false, ◌||◌, Option, none, some, List, [], ◌∷◌, ◌++◌, arith,
  if◌then◌else◌, Bool-cases, inl, inr,
}

module _ {ℓ} {K : Type 0} {V : Type ℓ} (eq : K → K → Bool) where
  unfoldable pub lookup : K → List (K × V) → Option V
  lookup k [] = none
  lookup k ((j, v) ∷ d) = if eq k j then some v else lookup k d

  -- `d[k] = v` and `d.set(k, v)`
  unfoldable pub insert : K → V → List (K × V) → List (K × V)
  insert k v [] = (k, v) ∷ []
  insert k v ((j, w) ∷ d) = if eq k j then (j, v) ∷ d else (j, w) ∷ insert k v d

-- The test decides equality.
abbrev pub Decides : {K : Type 0} → (K → K → Bool) → Type 0
Decides {K} eq = (a b : K) → (eq a b ≡ true) ↔ (a ≡ b)

module _ {ℓ} {K : Type 0} {V : Type ℓ} (eq : K → K → Bool) (dec : Decides eq) where
  pub lookup-insert :
      (j k : K) (v : V) (d : List (K × V))
      → lookup eq j (insert eq k v d) ≡ (if eq j k then some v else lookup eq j d)
  unfolding lookup insert
  lookup-insert j k v [] = refl
  lookup-insert j k v ((i, w) ∷ d) =
      ground (arith, dec j k, dec k i, dec j i, lookup-insert j k v d)

module _ {K : Type 0} (eq : K → K → Bool) where
  -- `set.has(k)`
  unfoldable pub contains : K → List K → Bool
  contains k [] = false
  contains k (j ∷ s) = eq k j || contains k s

  -- `set.add(k)`
  unfoldable pub add : K → List K → List K
  unfolding contains
  add k s = if contains k s then s else s ++ (k ∷ [])

  contains-append : (k j : K) (s : List K) → contains k (s ++ (j ∷ [])) ≡ (contains k s || eq k j)
  unfolding contains
  contains-append k j [] = ground arith
  contains-append k j (i ∷ s) = ground (arith, contains-append k j s)

  pub contains-add :
      Decides eq → (k j : K) (s : List K) → contains k (add j s) ≡ (contains k s || eq k j)
  unfolding add
  contains-add dec k j s = elim (Bool-cases (contains j s)) [
    | inl old ↦ rw old (ground (arith, dec k j))
    | inr new ↦ rw new (contains-append k j s)
  ]
