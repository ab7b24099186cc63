-- ===== src/Utils/Node/Start.antt =====
-- `startLiskCore` of src/utils/node.ts: its steps, and the code of the exception that it throws.
use lisk_migrator.Common.{
  ℕ, Bool, true, false, not, Option, none, some, Text, Result, ok, err, start_failed,
}
use lisk_migrator.Utils.Exception.{Attempt, success, failure, plain, with_code, code_or}
use lisk_migrator.Constants.{
  default_port_p2p, default_port_rpc, lisk_core_start, backup_legacy_data_dir, copy_legacy_db,
}
use lisk_migrator.Utils.Node.{Wizard, resolve_lisk_core_start_command}

-- What the calls of the system and of the user's terminal return.
pub record StartSteps : Type 0 where
  pub is_port_available : ℕ → Result Bool
  pub backup : Result (Unit {0})
  pub copy : Result (Unit {0})
  pub wizard : Wizard
  pub is_start_confirmed : Bool
  pub install_pm2 : Result (Unit {0})
  pub write_pm2_config : Result (Unit {0})
  pub pm2_start : Result (Unit {0})

-- Which of the lasting changes are made.
pub record Progress : Type 0 where
  pub is_backed_up : Bool
  pub is_copied : Bool
  pub is_started : Bool

abbrev pub nothing_done : Progress
nothing_done = record { is_backed_up = false; is_copied = false; is_started = false }

abbrev pub backup_done : Progress
backup_done = record { is_backed_up = true; is_copied = false; is_started = false }

abbrev pub copy_done : Progress
copy_done = record { is_backed_up = true; is_copied = true; is_started = false }

abbrev pub all_done : Progress
all_done = record { is_backed_up = true; is_copied = true; is_started = true }

-- A call of the system, whose error has no code of the migrator.
abbrev pub attempt : {A : Type 0} → Result A → Attempt A
attempt (ok value) = success value
attempt (err e) = failure (plain e)

-- A call that throws, and a port whose check throws or finds it taken.
abbrev pub throws {ℓ} : {A : Type ℓ} → Result A → Bool
throws (ok value) = false
throws (err e) = true

abbrev pub is_closed : Result Bool → Bool
is_closed (ok available) = not available
is_closed (err e) = true

-- `(_config?.network?.port as Port) ?? default`
abbrev pub or_port : ℕ → Option ℕ → ℕ
or_port default none = default
or_port default (some port) = port

-- An action of the start throws or returns, with the changes that were made by then.
abbrev pub Action : Type 0 → Type 0
Action A = Progress → Attempt A × Progress

module _ {A B : Type 0} where
  infixl 5 ◌>>=◌ ◌>>◌
  abbrev continue : (A → Action B) → Attempt A → Progress → Attempt B × Progress
  continue next (success value) progress = next value progress
  continue next (failure thrown) progress = (failure thrown, progress)

  unfoldable pub ◌>>=◌ : Action A → (A → Action B) → Action B
  (action >>= next) progress = let (outcome, after) = action progress in continue next outcome after

  abbrev pub ◌>>◌ : Action A → Action B → Action B
  action >> after = action >>= λ _. after

-- A call, with the change that it makes if it returns.
abbrev pub marked : {A : Type 0} → Attempt A → Progress → Progress → Attempt A × Progress
marked (success value) before after = (success value, after)
marked (failure thrown) before after = (failure thrown, before)

unfoldable pub call : {A : Type 0} → Result A → Action A
call (ok value) progress = (success value, progress)
call (err e) progress = (failure (plain e), progress)

abbrev pub backs_up : Attempt (Unit {0}) → Action (Unit {0})
backs_up outcome progress = marked outcome progress (record progress { is_backed_up = true })

abbrev pub copies : Attempt (Unit {0}) → Action (Unit {0})
copies outcome progress = marked outcome progress (record progress { is_copied = true })

abbrev pub starts : Attempt (Unit {0}) → Action (Unit {0})
starts outcome progress = marked outcome progress (record progress { is_started = true })

-- `throw new Error` unless a test holds.
abbrev pub require : Bool → Result (Unit {0})
require true = ok tt
require false = err start_failed

-- The `catch`, where an error that is not a MigratorException gets the code of the start.
abbrev pub caught : Attempt (Unit {0}) × Progress → Option ℕ × Progress
caught (success value, progress) = (none, progress)
caught (failure thrown, progress) = (some (code_or lisk_core_start thrown), progress)

-- From the start command on.
unfoldable pub start_with_pm2 : StartSteps → Text → Text → Action (Unit {0})
unfolding ◌>>=◌ call resolve_lisk_core_start_command
start_with_pm2 steps network config_path = do
  script ← call (resolve_lisk_core_start_command steps.wizard network config_path)
  call (require steps.is_start_confirmed)
  call steps.install_pm2
  call steps.write_pm2_config
  starts (attempt steps.pm2_start)

-- With what the two calls come to that move and copy the files, before their own `catch`.
unfoldable pub start_lisk_core : StartSteps → Option ℕ → Text → Text → Option ℕ × Progress
unfolding ◌>>=◌ call start_with_pm2
start_lisk_core steps port network config_path = caught (actions nothing_done)
  where
    actions : Action (Unit {0})
    actions = do
      is_p2p_available ← call (steps.is_port_available (or_port default_port_p2p port))
      call (require is_p2p_available)
      is_rpc_available ← call (steps.is_port_available (or_port default_port_rpc port))
      call (require is_rpc_available)
      backs_up (with_code backup_legacy_data_dir steps.backup)
      copies (with_code copy_legacy_db steps.copy)
      start_with_pm2 steps network config_path
