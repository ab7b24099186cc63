-- ===== src/Command/Recovery.antt =====
-- The commands that src/index.ts leaves to the user after a failure.
use lisk_migrator.Common.{
  ℕ, zero, suc, ◌≡◌, ◌<◌, refl, List, [], ◌∷◌, ◌++◌, some, none, Text, drop, arith, false,
}
use lisk_migrator.Common.Predicates.{All}
use lisk_migrator.Command.{
  Commands, commands_to_execute, includes_code, genesis_block_section, backup_section, copy_section,
  start_section,
}

-- The steps that are left, in their order.
abbrev pub all_sections : Commands → List (List Text)
all_sections commands =
    genesis_block_section commands
    ∷ backup_section commands
    ∷ copy_section commands
    ∷ start_section commands
    ∷ []

abbrev pub flattened : List (List Text) → List Text
flattened [] = []
flattened (section ∷ sections) = section ++ flattened sections

-- How many of the steps are passed over for a code.
abbrev pub steps_passed : ℕ → ℕ
steps_passed zero = 0
steps_passed (suc zero) = 0
steps_passed (suc (suc zero)) = 0
steps_passed (suc (suc (suc zero))) = 3
steps_passed (suc (suc (suc (suc zero)))) = 1
steps_passed (suc (suc (suc (suc (suc zero))))) = 2
steps_passed (suc (suc (suc (suc (suc (suc n)))))) = 4

includes_code-above :
    (n : ℕ) (error_codes : List ℕ)
    → All (λ c. c < 6) error_codes
    → includes_code (some (suc (suc (suc (suc (suc (suc n))))))) error_codes ≡ false
unfolding includes_code
includes_code-above n [] h = refl
includes_code-above n (c ∷ error_codes) h = ground (arith, includes_code-above n error_codes h.1)

-- The commands are, in their order, those of all four steps for the codes 0, 1 and 2, those from the
-- backup on for 4, those from the copy on for 5, and those of the start for 3. For any other code,
-- and after an error without a code, there are none.
pub commands_to_execute_lem :
    (commands : Commands) (code : ℕ)
    → (commands_to_execute (some code) commands
        ≡ flattened (drop (steps_passed code) (all_sections commands)))
      × (commands_to_execute none commands ≡ [])
unfolding commands_to_execute
commands_to_execute_lem commands zero = (refl, refl)
commands_to_execute_lem commands (suc zero) = (refl, refl)
commands_to_execute_lem commands (suc (suc zero)) = (refl, refl)
commands_to_execute_lem commands (suc (suc (suc zero))) = (refl, refl)
commands_to_execute_lem commands (suc (suc (suc (suc zero)))) = (refl, refl)
commands_to_execute_lem commands (suc (suc (suc (suc (suc zero))))) = (refl, refl)
commands_to_execute_lem commands (suc (suc (suc (suc (suc (suc n)))))) = (
  rw
      (
        includes_code-above n (0 ∷ 1 ∷ 2 ∷ []) (omega arith, (omega arith, (omega arith, tt))),
        includes_code-above n (0 ∷ 1 ∷ 2 ∷ 4 ∷ [])
            (omega arith, (omega arith, (omega arith, (omega arith, tt)))),
        includes_code-above n (0 ∷ 1 ∷ 2 ∷ 4 ∷ 5 ∷ [])
            (omega arith, (omega arith, (omega arith, (omega arith, (omega arith, tt))))),
        includes_code-above n (0 ∷ 1 ∷ 2 ∷ 4 ∷ 5 ∷ 3 ∷ []) (
          omega arith,
          (omega arith, (omega arith, (omega arith, (omega arith, (omega arith, tt))))),
        ),
      )
      refl,
  refl,
)
