-- ===== src/Utils/Node.antt =====
-- src/utils/node.ts: the checks of the user's flags and the start command of Lisk Core v4. Start has the
-- steps of the start, and Legacy and Data what happens to the files of v3.
pub mod Split
pub mod Flags
pub mod StartCommand
pub mod Start
pub mod Started
pub mod Legacy
pub mod Data
pub mod Returns
pub mod Kept
use lisk_migrator.Common.{
  ℕ, zero, suc, ◌+◌, List, [], ◌∷◌, ◌++◌, Bool, true, false, not, ◌&&◌, ◌||◌, Option, none, some,
  Text, codes, leb, ◌==◌, if◌then◌else◌, find, keep, same, Result, ok, err, ◌>>=◌,
  invalid_start_command_flags,
}

-- `\s`
unfoldable pub is_space : ℕ → Bool
is_space c =
    (leb 9 c && leb c 13)
    || (c == 32
        || (c == 160
            || (c == 5760
                || ((leb 8192 c && leb c 8202)
                    || (c == 8232
                        || (c == 8233
                            || (c == 8239 || (c == 8287 || (c == 12288 || c == 65279)))))))))

-- `[\s=]`
unfoldable pub is_input_separator : ℕ → Bool
unfolding is_space
is_input_separator c = c == 61 || is_space c

-- The rest of `split`: the input read so far, and whether the last character was a separator.
unfoldable pub split_from : (ℕ → Bool) → Text → Bool → Text → List Text
split_from sep current after [] = current ∷ []
split_from sep current false (c ∷ s) = elim (sep c) [
  | true ↦ current ∷ split_from sep [] true s
  | false ↦ split_from sep (current ++ (c ∷ [])) false s
]
split_from sep current true (c ∷ s) = elim (sep c) [
  | true ↦ split_from sep current true s
  | false ↦ split_from sep (current ++ (c ∷ [])) false s
]

-- `text.split(/[…]+/)`: a run of separators stands between two inputs, also at both ends.
unfoldable pub split_on : (ℕ → Bool) → Text → List Text
unfolding split_from
split_on sep text = split_from sep [] false text

unfoldable pub starts_with : Text → Text → Bool
starts_with [] s = true
starts_with (c ∷ prefix) [] = false
starts_with (c ∷ prefix) (d ∷ s) = (c == d) && starts_with prefix s

-- `s.includes(part)`
unfoldable pub includes : Text → Text → Bool
unfolding starts_with
includes part [] = starts_with part []
includes part (c ∷ s) = starts_with part (c ∷ s) || includes part s

unfoldable pub is_letter : ℕ → Bool
is_letter c = leb 97 c && leb c 122

-- The rest of `[a-z]+(?:-[a-z]+)*$`, and whether a letter came last.
unfoldable pub is_words : Bool → Text → Bool
unfolding is_letter
is_words after_letter [] = after_letter
is_words after_letter (c ∷ s) = elim (is_letter c) [
  | true ↦ is_words true s
  | false ↦ elim (c == 45 && after_letter) [ true ↦ is_words false s | false ↦ false ]
]

-- `REGEX.FLAG`, `/^(?:-[a-z]|--[a-z]+(?:-[a-z]+)*$)/`: the first branch is not anchored at the end.
unfoldable pub is_flag : Text → Bool
unfolding is_letter is_words
is_flag [] = false
is_flag (c ∷ []) = false
is_flag (c ∷ d ∷ s) = (c == 45) && (is_letter d || ((d == 45) && is_words false s))

-- `REGEX.NETWORK_FLAG`
unfoldable pub is_network_flag : Text → Bool
unfolding starts_with
is_network_flag input = starts_with (codes "-n") input || starts_with (codes "--network") input

-- Whether a text ends in another.
unfoldable pub ends_in : Text → Text → Bool
unfolding same
ends_in suffix [] = same suffix []
ends_in suffix (c ∷ s) = same suffix (c ∷ s) || ends_in suffix s

abbrev pub is_empty {ℓ} : {A : Type ℓ} → List A → Bool
is_empty [] = true
is_empty (x ∷ xs) = false

-- `/=<(option|value)>$/`
unfoldable pub expects_value : Text → Bool
unfolding ends_in
expects_value flag = ends_in (codes "=<option>") flag || ends_in (codes "=<value>") flag

-- The loop of `validateStartCommandFlags` from an index on, with `isOptionOrValueExpected`.
unfoldable pub validate_inputs : List Text → Bool → List Text → Bool
unfolding is_network_flag is_flag includes expects_value
validate_inputs allowed_flags is_value_expected [] = true
validate_inputs allowed_flags is_value_expected (input ∷ rest) = elim (is_network_flag input) [
  | true ↦ false
  | false ↦ elim (is_flag input) [
    | true ↦ elim (find (includes input) allowed_flags) [
      | none ↦ false
      | some corresponding_flag ↦ elim (is_value_expected || is_empty rest) [
        | true ↦ false
        | false ↦ validate_inputs allowed_flags (expects_value corresponding_flag) rest
      ]
    ]
    | false ↦ elim is_value_expected [
      | true ↦ validate_inputs allowed_flags false rest
      | false ↦ false
    ]
  ]
]

unfoldable pub validate_start_command_flags : List Text → Text → Bool
unfolding validate_inputs split_on is_input_separator
validate_start_command_flags allowed_flags user_input_string =
    validate_inputs allowed_flags false (split_on is_input_separator user_input_string)

-- The wizard's input: whether the user confirms, the answer to each prompt, and the output of
-- `lisk-core start --help`, which may fail.
pub record Wizard : Type 0 where
  pub is_user_confirmed : Bool
  pub answer : ℕ → Text
  pub help : Result Text

abbrev pub base_start_command : Text → Text
base_start_command network = codes "lisk-core start --network " ++ network

-- The `while` loop, with the tries left, the user's input and the number of prompts so far.
unfoldable pub customize : (ℕ → Text) → Text → List Text → ℕ → Text → ℕ → Result Text
unfolding validate_start_command_flags
customize answer base allowed_flags zero user_input prompts = ok base
customize answer base allowed_flags (suc num_tries_left) user_input prompts =
    elim (validate_start_command_flags allowed_flags user_input) [
      | true ↦ ok (base ++ codes " " ++ user_input)
      | false ↦ elim (leb 0 num_tries_left) [
        | true ↦ customize answer base allowed_flags num_tries_left (answer prompts) (suc prompts)
        | false ↦ err invalid_start_command_flags
      ]
    ]

-- `allowedFlags.split(/\n+/).filter(e => !!e)`
unfoldable pub flag_lines : Text → List Text
unfolding split_on
flag_lines text = keep (λ e. not (is_empty e)) (split_on (λ c. c == 10) text)

unfoldable pub resolve_lisk_core_start_command : Wizard → Text → Text → Result Text
unfolding customize flag_lines
resolve_lisk_core_start_command w network config_path =
    let base = base_start_command network in
    let default = base ++ codes " --config " ++ config_path in
    if w.is_user_confirmed
    then (w.help >>= λ allowed_flags.
        customize w.answer base (flag_lines allowed_flags) 3 (w.answer 0) 1)
    else ok default
