-- ===== src/Utils/Node/Split.antt =====
-- `split` by a class of characters, with which src/utils/node.ts takes the user's input apart.
use lisk_migrator.Common.{
  ℕ, ◌≡◌, refl, ap, ◌∙◌, List, [], ◌∷◌, ◌++◌, append_assoc, Bool, true, false, not, keep, Text,
  Bool-cases, inl, inr,
}
use lisk_migrator.Common.Predicates.{All, All-append}
use lisk_migrator.Utils.Node.{split_from, split_on}

-- All inputs, one after the other.
abbrev joined : List Text → Text
joined [] = []
joined (t ∷ ts) = t ++ joined ts

-- No character of the text separates.
abbrev IsWhole : (ℕ → Bool) → Text → Type 0
IsWhole sep = All (λ c. sep c ≡ false)

split_from-joined :
    (sep : ℕ → Bool) (current : Text) (after : Bool) (s : Text)
    → joined (split_from sep current after s) ≡ current ++ keep (λ c. not (sep c)) s
unfolding split_from
split_from-joined sep current after [] = refl
split_from-joined sep current false (c ∷ s) = elim (Bool-cases (sep c)) [
  | inl e ↦ rw (e, split_from) (ap (◌++◌ current) (split_from-joined sep [] true s))
  | inr e ↦
      rw (e, split_from)
        (split_from-joined sep (current ++ (c ∷ [])) false s ∙ append_assoc current (c ∷ []) _)
]
split_from-joined sep current true (c ∷ s) = elim (Bool-cases (sep c)) [
  | inl e ↦ rw (e, split_from) (split_from-joined sep current true s)
  | inr e ↦
      rw (e, split_from)
        (split_from-joined sep (current ++ (c ∷ [])) false s ∙ append_assoc current (c ∷ []) _)
]

split_from-IsWhole :
    (sep : ℕ → Bool) (current : Text) (after : Bool) (s : Text)
    → IsWhole sep current
    → All (IsWhole sep) (split_from sep current after s)
unfolding split_from
split_from-IsWhole sep current after [] h = (h, tt)
split_from-IsWhole sep current false (c ∷ s) h = elim (Bool-cases (sep c)) [
  | inl e ↦ rw (e, split_from, All) (h, split_from-IsWhole sep [] true s tt)
  | inr e ↦
      rw (e, split_from, All)
        (split_from-IsWhole sep (current ++ (c ∷ [])) false s
          (All-append _ current (c ∷ []) h (e, tt)))
]
split_from-IsWhole sep current true (c ∷ s) h = elim (Bool-cases (sep c)) [
  | inl e ↦ rw (e, split_from, All) (split_from-IsWhole sep current true s h)
  | inr e ↦
      rw (e, split_from, All)
        (split_from-IsWhole sep (current ++ (c ∷ [])) false s
          (All-append _ current (c ∷ []) h (e, tt)))
]

-- For every class of separators and every text, the inputs that the text is split into, one after
-- the other, are the text without its separators, and no input has a separator.
split_on_lem :
    (sep : ℕ → Bool) (s : Text)
    → (joined (split_on sep s) ≡ keep (λ c. not (sep c)) s) × All (IsWhole sep) (split_on sep s)
unfolding split_on
split_on_lem sep s = (split_from-joined sep [] false s, split_from-IsWhole sep [] false s tt)
