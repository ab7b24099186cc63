-- ===== src/Command/Run/Recovers.antt =====
-- The commands that `run` of src/index.ts leaves after an error, against the stage that it has reached.
use lisk_migrator.Common.{ℕ, ◌≡◌, ◌⊎◌, List, [], Option, none, some, Text, drop}
use lisk_migrator.Command.{Flags, Commands, commands_to_execute}
use lisk_migrator.Command.Recovery.{all_sections, flattened}
use lisk_migrator.Command.Run.{commands_for}
use lisk_migrator.Command.Run.Interface.{Calls, exit_code}
use lisk_migrator.Command.Run.Monad.{World}
use lisk_migrator.Command.Run.Stages.{
  Stage, exported, configured, created, written, copied, stopped, moved, restored, started, LeadTo,
}
use lisk_migrator.Types.{NetworkConfigLocal}
use lisk_migrator.Utils.Commands.{ForgingStatus, write_commands_to_exec}
use lisk_migrator.Utils.Exception.{Exception}

-- How many of the four steps (the genesis block, the backup, the copy and the start) a stage has passed.
abbrev pub steps_done : Stage → ℕ
steps_done created = 1
steps_done written = 1
steps_done copied = 1
steps_done stopped = 1
steps_done moved = 2
steps_done restored = 3
steps_done started = 4
steps_done before = 0

-- The stages at which v4 is installed.
abbrev pub Installs : Stage → Type 0
Installs t = (t ≡ exported) ⊎ (t ≡ configured)

-- The commands are those of the steps that are left; or there are none, for an error without a code;
-- or only the start's, for the code 3 before the backup and the copy; or those of the exit code of a failed
-- installation.
abbrev pub Leaves : Commands → Option ℕ → Option ℕ → Stage → List Text → Type 0
Leaves steps exit code t commands =
    (commands ≡ flattened (drop (steps_done t) (all_sections steps)))
    ⊎ ((code ≡ none) × (commands ≡ []))
    ⊎ ((code ≡ some 3) × (steps_done t ≡ 1) × (commands ≡ flattened (drop 3 (all_sections steps))))
    ⊎ (Installs t × (code ≡ exit) × (commands ≡ commands_to_execute exit steps))

module _ (calls : Calls) (flags : Flags) where
  -- The document is that of some commands, for a known network and the forging statuses that were read.
  abbrev pub Documents : Option ℕ → World → Option Text → Type 0
  Documents code w document =
      (network : NetworkConfigLocal) × (statuses : Option (List ForgingStatus)) × (document
        ≡ write_commands_to_exec network flags.snapshot_height calls.keys_filepath statuses
            (some (commands_to_execute code (commands_for calls flags network.name w))))

  -- The document is made of the commands, which are those of the stage.
  abbrev pub Recovers : Option ℕ → World → Option Text → Type 0
  Recovers code w document =
      (network : NetworkConfigLocal) × (statuses : Option (List ForgingStatus)) × (commands : List
        Text)
      × (t : Stage) × (document
          ≡ write_commands_to_exec network flags.snapshot_height calls.keys_filepath statuses
              (some commands))
      × LeadTo flags w.effects t
      × Leaves (commands_for calls flags network.name w) (exit_code calls.install_lisk_core) code t
          commands
