-- ===== src/Utils/Commands/Document.antt =====
-- When src/utils/commands.ts writes a document.
use lisk_migrator.Common.{ℕ, ◌≡◌, ◌↔◌, refl, List, [], ◌∷◌, true, Option, none, some, Text, arith}
use lisk_migrator.Types.{NetworkConfigLocal}
use lisk_migrator.Utils.Commands.{
  ForgingStatus, get_commands_to_exec_post_migration, validator_sections, write_commands_to_exec,
  given_commands,
}
use lisk_migrator.Utils.Node.{is_empty}

-- The validators of the file, if it exists.
abbrev pub validators_of : Option (List ForgingStatus) → List ForgingStatus
validators_of none = []
validators_of (some statuses) = statuses

is_empty_iff {ℓ} : {A : Type ℓ} (xs : List A) → (is_empty xs ≡ true) ↔ (xs ≡ [])
is_empty_iff [] = (λ h. refl, λ h. refl)
is_empty_iff (x ∷ xs) = (λ h. absurd (cc), λ h. absurd (cc))

module _ (network : NetworkConfigLocal) (height : ℕ) (keys : Text) where
  -- There are commands after the migration exactly if there are validators.
  commands-is_empty :
      (statuses : Option (List ForgingStatus))
      → is_empty (get_commands_to_exec_post_migration network height keys statuses)
        ≡ is_empty (validators_of statuses)
  unfolding get_commands_to_exec_post_migration validator_sections
  commands-is_empty none = refl
  commands-is_empty (some []) = refl
  commands-is_empty (some (status ∷ statuses)) = refl

  -- No document is written exactly if no commands are given from before the completion and the file of
  -- the forging statuses does not exist or has no validator.
  pub write_commands_to_exec-none :
      (statuses : Option (List ForgingStatus)) (pre : Option (List Text))
      → (write_commands_to_exec network height keys statuses pre ≡ none)
        ↔ ((given_commands pre ≡ []) × (validators_of statuses ≡ []))
  unfolding write_commands_to_exec
  write_commands_to_exec-none statuses pre = ground (
    arith,
    commands-is_empty statuses,
    is_empty_iff (given_commands pre),
    is_empty_iff (validators_of statuses),
  )
