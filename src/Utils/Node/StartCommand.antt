-- ===== src/Utils/Node/StartCommand.antt =====
-- `resolveLiskCoreStartCommand` of src/utils/node.ts: which start command results.
use lisk_migrator.Common.{
  ◌≡◌, refl, List, [], ◌∷◌, ◌++◌, true, Option, none, some, Text, codes, find, ok, Bool-cases, inl,
  inr, if◌then◌else◌, ◌>>=◌, ℕ, zero, suc, leb, arith,
}
use lisk_migrator.Utils.Node.{
  Wizard, base_start_command, customize, flag_lines, validate_start_command_flags,
  resolve_lisk_core_start_command,
}

-- The command with the user's flags, if there are any.
abbrev pub with_flags : Text → Option Text → Text
with_flags base none = base
with_flags base (some flags) = base ++ codes " " ++ flags

-- The inputs of as many tries.
abbrev asked : (ℕ → Text) → ℕ → Text → ℕ → List Text
asked answer zero input prompts = []
asked answer (suc n) input prompts = input ∷ asked answer n (answer prompts) (suc prompts)

-- The test `numTriesLeft >= 0` always holds.
leb_zero : (n : ℕ) → leb 0 n ≡ true
leb_zero n = ground arith

customize_lem :
    (answer : ℕ → Text) (base : Text) (fs : List Text) (n : ℕ) (input : Text) (prompts : ℕ)
    → customize answer base fs n input prompts
      ≡ ok (with_flags base (find (validate_start_command_flags fs) (asked answer n input prompts)))
unfolding customize
customize_lem answer base fs zero input prompts = refl
customize_lem answer base fs (suc n) input prompts =
    elim (Bool-cases (validate_start_command_flags fs input)) [
      | inl e ↦ rw (e, customize) refl
      | inr e ↦
          rw (e, customize)
            (rw (leb_zero n, customize)
              (customize_lem answer base fs n (answer prompts) (suc prompts)))
    ]

-- If the user customizes the start command and the help of Lisk Core is there, the function returns
-- and does not throw: the base command with the first of the first three answers that is accepted,
-- or, if none of the three is, the base command without any flags.
pub resolve_lisk_core_start_command_lem :
    (w : Wizard) (network config_path help : Text)
    → w.is_user_confirmed ≡ true
    → w.help ≡ ok help
    → resolve_lisk_core_start_command w network config_path
      ≡ ok (
          with_flags (base_start_command network) (
            find
              (validate_start_command_flags (flag_lines help))
              (w.answer 0 ∷ w.answer 1 ∷ w.answer 2 ∷ [])))
unfolding resolve_lisk_core_start_command
resolve_lisk_core_start_command_lem w network config_path help confirmed h =
    rw (confirmed, if◌then◌else◌)
      (rw (h, ◌>>=◌) (customize_lem w.answer _ (flag_lines help) 3 (w.answer 0) 1))
