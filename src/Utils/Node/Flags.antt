-- ===== src/Utils/Node/Flags.antt =====
-- `validateStartCommandFlags` of src/utils/node.ts: the inputs that it accepts, as a grammar.
use lisk_migrator.Common.{
  ◌≡◌, refl, List, [], ◌∷◌, ◌++◌, Bool, true, false, ◌||◌, none, some, Text, find, Bool-cases, inl,
  inr, ◌↔◌, Option-cases, if◌then◌else◌, sym, ◌∙◌, subst, ap, arith,
}
use lisk_migrator.Utils.Node.{
  is_network_flag, is_flag, includes, expects_value, is_empty, validate_inputs,
  validate_start_command_flags, split_on, is_input_separator,
}

-- A flag that may be passed, and the allowed flag that it stands for.
abbrev pub IsAllowed : List Text → Text → Text → Type 0
IsAllowed allowed_flags input flag =
    (is_network_flag input ≡ false)
    × (is_flag input ≡ true)
    × (find (includes input) allowed_flags ≡ some flag)

-- What a flag that expects a value may be followed by.
abbrev pub IsValue : Text → Type 0
IsValue input = (is_network_flag input ≡ false) × (is_flag input ≡ false)

-- The grammar: each flag with its value, where it expects one; a flag without a value is never last.
pub data Parses (allowed_flags : List Text) : List Text → Type 0 where
  done : Parses allowed_flags []
  switch :
      (input flag : Text) (next : Text) (rest : List Text)
      → IsAllowed allowed_flags input flag
      → expects_value flag ≡ false
      → Parses allowed_flags (next ∷ rest)
      → Parses allowed_flags (input ∷ next ∷ rest)
  valued :
      (input flag value : Text) (rest : List Text)
      → IsAllowed allowed_flags input flag
      → expects_value flag ≡ true
      → IsValue value
      → Parses allowed_flags rest
      → Parses allowed_flags (input ∷ value ∷ rest)

pick {ℓ} :
    {A : Type ℓ} (x y : A) (b : Bool) → elim b [ true ↦ x | false ↦ y ] ≡ (if b then x else y)
pick x y true = refl
pick x y false = refl

-- What an input is, to the loop.
data Kind (fs : List Text) (input : Text) : Type 0 where
  network : is_network_flag input ≡ true → Kind fs input
  unknown :
      is_network_flag input ≡ false
      → is_flag input ≡ true
      → find (includes input) fs ≡ none
      → Kind fs input
  allowed : (flag : Text) → IsAllowed fs input flag → Kind fs input
  value : IsValue input → Kind fs input

Kind-of : (fs : List Text) (input : Text) → Kind fs input
Kind-of fs input = elim (Bool-cases (is_network_flag input)) [
  | inl n ↦ network n
  | inr n ↦ elim (Bool-cases (is_flag input)) [
    | inl f ↦ elim (Option-cases (find (includes input) fs)) [
      | inl e ↦ unknown n f e
      | inr (flag, e) ↦ allowed flag (n, f, e)
    ]
    | inr f ↦ value (n, f)
  ]
]

module _ (fs : List Text) (e : Bool) (input : Text) (rest : List Text) where
  validate_network : is_network_flag input ≡ true → validate_inputs fs e (input ∷ rest) ≡ false
  unfolding validate_inputs
  validate_network n = rw (n, validate_inputs) refl

  validate_unknown :
      is_network_flag input ≡ false
      → is_flag input ≡ true
      → find (includes input) fs ≡ none
      → validate_inputs fs e (input ∷ rest) ≡ false
  unfolding validate_inputs
  validate_unknown n f u =
      rw (n, validate_inputs) (rw (f, validate_inputs) (rw (u, validate_inputs) refl))

  validate_allowed :
      (flag : Text)
      → IsAllowed fs input flag
      → validate_inputs fs e (input ∷ rest)
        ≡ (if e || is_empty rest then false else validate_inputs fs (expects_value flag) rest)
  unfolding validate_inputs
  validate_allowed flag a =
      rw (a.0, validate_inputs)
        (rw (a.1, validate_inputs) (rw (a.2, validate_inputs) (pick _ _ (e || is_empty rest))))

  validate_value :
      IsValue input
      → validate_inputs fs e (input ∷ rest) ≡ (if e then validate_inputs fs false rest else false)
  unfolding validate_inputs
  validate_value v = rw (v.0, validate_inputs) (rw (v.1, validate_inputs) (pick _ _ e))

-- What follows a flag that expects a value is a value with accepted inputs behind it.
IsValue-taken :
    (fs : List Text) (input : Text) (rest : List Text)
    → validate_inputs fs true (input ∷ rest) ≡ true
    → IsValue input × (validate_inputs fs false rest ≡ true)
IsValue-taken fs input rest h = elim (Kind-of fs input) [
  | network n ↦ absurd (ground (arith, validate_network fs true input rest n, h))
  | unknown n f u ↦ absurd (ground (arith, validate_unknown fs true input rest n f u, h))
  | allowed flag a ↦ absurd (ground (arith, validate_allowed fs true input rest flag a, h))
  | value v ↦ (v, sym (validate_value fs true input rest v) ∙ h)
]

Parses-allowed :
    (fs : List Text) (input flag next : Text) (rest : List Text)
    → IsAllowed fs input flag
    → (validate_inputs fs false (next ∷ rest) ≡ true → Parses fs (next ∷ rest))
    → (validate_inputs fs false rest ≡ true → Parses fs rest)
    → validate_inputs fs (expects_value flag) (next ∷ rest) ≡ true
    → Parses fs (input ∷ next ∷ rest)
Parses-allowed fs input flag next rest a f g h = elim (Bool-cases (expects_value flag)) [
  | inl takes ↦
      let taken =
        IsValue-taken fs next rest
          (subst (λ b. validate_inputs fs b (next ∷ rest) ≡ true) takes h) in
      valued input flag next rest a takes taken.0 (g taken.1)
  | inr plain ↦
      switch input flag next rest a plain
        (f (subst (λ b. validate_inputs fs b (next ∷ rest) ≡ true) plain h))
]

validate→Parses :
    (fs inputs : List Text) → validate_inputs fs false inputs ≡ true → Parses fs inputs
validate→Parses fs [] h = done
validate→Parses fs (input ∷ []) h = elim (Kind-of fs input) [
  | network n ↦ absurd (ground (arith, validate_network fs false input [] n, h))
  | unknown n f u ↦ absurd (ground (arith, validate_unknown fs false input [] n f u, h))
  | allowed flag a ↦ absurd (ground (arith, validate_allowed fs false input [] flag a, h))
  | value v ↦ absurd (ground (arith, validate_value fs false input [] v, h))
]
validate→Parses fs (input ∷ next ∷ rest) h = elim (Kind-of fs input) [
  | network n ↦ absurd (ground (arith, validate_network fs false input (next ∷ rest) n, h))
  | unknown n f u ↦ absurd (ground (arith, validate_unknown fs false input (next ∷ rest) n f u, h))
  | allowed flag a ↦
      Parses-allowed fs input flag next rest a (validate→Parses fs (next ∷ rest))
        (validate→Parses fs rest) (sym (validate_allowed fs false input (next ∷ rest) flag a) ∙ h)
  | value v ↦ absurd (ground (arith, validate_value fs false input (next ∷ rest) v, h))
]

Parses→validate :
    (fs : List Text) {inputs : List Text}
    → Parses fs inputs
    → validate_inputs fs false inputs ≡ true
unfolding validate_inputs
Parses→validate fs done = refl
Parses→validate fs (switch input flag next rest a plain p) =
    validate_allowed fs false input (next ∷ rest) flag a
    ∙ ap (λ b. validate_inputs fs b (next ∷ rest)) plain
    ∙ Parses→validate fs p
Parses→validate fs (valued input flag v rest a takes is p) =
    validate_allowed fs false input (v ∷ rest) flag a
    ∙ ap (λ b. validate_inputs fs b (v ∷ rest)) takes
    ∙ validate_value fs true v rest is
    ∙ Parses→validate fs p

-- For all allowed flags and all inputs, the loop of the validation, started with no value expected,
-- accepts the inputs exactly if they have a parse in the grammar `Parses`.
pub validate_inputs-Parses :
    (fs inputs : List Text) → (validate_inputs fs false inputs ≡ true) ↔ Parses fs inputs
validate_inputs-Parses fs inputs = (validate→Parses fs inputs, Parses→validate fs)

validate_last :
    (fs : List Text) (e : Bool) (before : List Text) (flag : Text)
    → is_flag flag ≡ true
    → validate_inputs fs e (before ++ (flag ∷ [])) ≡ false
validate_last fs e [] flag h = elim (Kind-of fs flag) [
  | network n ↦ validate_network fs e flag [] n
  | unknown n f u ↦ validate_unknown fs e flag [] n f u
  | allowed found a ↦ ground (arith, validate_allowed fs e flag [] found a)
  | value v ↦ absurd (ground (arith, v.1, h))
]
validate_last fs e (input ∷ before) flag h = elim (Kind-of fs input) [
  | network n ↦ validate_network fs e input _ n
  | unknown n f u ↦ validate_unknown fs e input _ n f u
  | allowed found a ↦ ground (
    arith,
    validate_allowed fs e input (before ++ (flag ∷ [])) found a,
    validate_last fs (expects_value found) before flag h,
  )
  | value v ↦ ground (
    arith,
    validate_value fs e input (before ++ (flag ∷ [])) v,
    validate_last fs false before flag h,
  )
]

-- For all allowed flags, no text whose last input is a flag is accepted, whether or not that flag
-- expects a value.
validate_start_command_flags_last :
    (fs : List Text) (text : Text) (before : List Text) (flag : Text)
    → split_on is_input_separator text ≡ before ++ (flag ∷ [])
    → is_flag flag ≡ true
    → validate_start_command_flags fs text ≡ false
unfolding validate_start_command_flags
validate_start_command_flags_last fs text before flag e h =
    rw e (validate_last fs false before flag h)
