-- ===== src/Command/Run/Stages.antt =====
-- What a migration promises: its stages, which effect leads from one to the next, and what an error
-- tells of the stage. It stands beside `run` of src/index.ts and does not mention its calls.
use lisk_migrator.Common.{
  ℕ, ◌≡◌, ◌⊎◌, List, [], ◌∷◌, ◌++◌, Bool, true, false, not, ◌&&◌, Option, none, some,
}
use lisk_migrator.Command.{Flags, use_snapshot}
use lisk_migrator.Constants.{
  invalid_config, genesis_block_create, lisk_core_start, backup_legacy_data_dir, copy_legacy_db,
}
use lisk_migrator.Command.Run.Monad.{
  Effect, snapshot_downloaded, snapshot_extracted, forging_subscribed, height_finalized,
  assets_written, config_saved, config_written, core_installed, block_created, block_written,
  block_copied, v3_stopped, data_dir_moved, legacy_db_copied, v4_started,
}

pub data Stage : Type 0 where
  begun fetched subscribed finalized exported saved configured : Stage
  installed created written copied stopped moved restored started : Stage

-- The user's configuration is to be migrated, and v4 is to be started.
abbrev pub migrates_config : Flags → Bool
migrates_config flags = flags.auto_migrate_config && not (use_snapshot flags)

abbrev pub starts_v4 : Flags → Bool
starts_v4 flags = not (use_snapshot flags) && flags.auto_start_lisk_core_v4

module _ (flags : Flags) where
  -- The snapshot is at hand: the user's directory or what was fetched, or the node's at its height.
  pub data IsReady : Stage → Type 0 where
    given : use_snapshot flags ≡ true → IsReady begun
    remote : IsReady fetched
    local : IsReady finalized

  pub data IsConfigured : Stage → Type 0 where
    unchanged : migrates_config flags ≡ false → IsConfigured exported
    migrated : IsConfigured configured

  pub data Step : Stage → Effect → Stage → Type 0 where
    download : use_snapshot flags ≡ true → Step begun snapshot_downloaded fetched
    extract : use_snapshot flags ≡ true → Step begun snapshot_extracted fetched
    subscribe : use_snapshot flags ≡ false → Step begun forging_subscribed subscribed
    finalize : Step subscribed height_finalized finalized
    export : {s : Stage} → IsReady s → Step s assets_written exported
    save : migrates_config flags ≡ true → Step exported config_saved saved
    configure : Step saved config_written configured
    install : {s : Stage} → IsConfigured s → Step s core_installed installed
    create : Step installed block_created created
    write : Step created block_written written
    copy : starts_v4 flags ≡ true → Step written block_copied copied
    stop : Step copied v3_stopped stopped
    move : Step stopped data_dir_moved moved
    restore : Step moved legacy_db_copied restored
    start : Step restored v4_started started

  -- The effects, in their order, lead to a stage.
  pub data LeadTo : List Effect → Stage → Type 0 where
    nothing : LeadTo [] begun
    then_do :
        {effects : List Effect} {s t : Stage} (e : Effect)
        → LeadTo effects s
        → Step s e t
        → {all : List Effect} → all ≡ effects ++ (e ∷ [])
        → LeadTo all t

  -- Where a migration may end without an error: v4 is not to be started, the user did not want it
  -- started with the configuration that is shown, or it was.
  pub data IsComplete : Stage → Type 0 where
    manual : starts_v4 flags ≡ false → IsComplete written
    declined : starts_v4 flags ≡ true → IsComplete stopped
    automatic : IsComplete started

-- The codes of the errors at a stage, where a failed installation exits with a code. Any other error that
-- is no MigratorException has none.
abbrev pub FailsWith : Option ℕ → Option ℕ → Stage → Type 0
FailsWith exit code exported = (code ≡ none) ⊎ (code ≡ exit)
FailsWith exit code configured = (code ≡ none) ⊎ (code ≡ exit)
FailsWith exit code saved = (code ≡ none) ⊎ (code ≡ some invalid_config)
FailsWith exit code installed = (code ≡ none) ⊎ (code ≡ some genesis_block_create)
FailsWith exit code written = code ≡ some lisk_core_start
FailsWith exit code copied = code ≡ some lisk_core_start
FailsWith exit code stopped = (code ≡ some lisk_core_start) ⊎ (code ≡ some backup_legacy_data_dir)
FailsWith exit code moved = code ≡ some copy_legacy_db
FailsWith exit code restored = code ≡ some lisk_core_start
FailsWith exit code started = ⊥
FailsWith exit code before = code ≡ none

-- The same before the inner `catch`.
abbrev pub FailsInside : Option ℕ → Stage → Type 0
FailsInside code written = code ≡ none
FailsInside code copied = code ≡ none
FailsInside code stopped = (code ≡ some lisk_core_start) ⊎ (code ≡ some backup_legacy_data_dir)
FailsInside code moved = code ≡ some copy_legacy_db
FailsInside code restored = code ≡ some lisk_core_start
FailsInside code other = ⊥
