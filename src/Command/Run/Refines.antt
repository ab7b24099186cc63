-- ===== src/Command/Run/Refines.antt =====
-- `run` of src/index.ts refines the stages of the migration.
use lisk_migrator.Common.{
  ◌≡◌, refl, [], not, ◌&&◌, Option, none, some, Text, Result, ok, err, if◌then◌else◌, inl, inr, sym,
  subst,
}
use lisk_migrator.Command.{Flags, use_snapshot}
use lisk_migrator.Command.Run.{
  Ending, completed, failed, crashed, still_waiting, ending_of, document_of, output_dir_of, prepare,
  conclude, recover, run_from, finish, run,
}
use lisk_migrator.Command.Run.Interface.{Calls, exit_code, name_of, network_of}
use lisk_migrator.Command.Run.Monad.{World, Ended, returned, thrown, waits, died, died, pure}
use lisk_migrator.Command.Run.Phases.{
  fetch_snapshot, await_node, migrate_config, rethrown, auto_start, migrate,
}
use lisk_migrator.Command.Run.Rules.{
  Fails, Reaches, Meets, bind, bind_at, meets_pure, meets_lift, meets_perform, meets_execute,
  meets_if, weaken,
}
use lisk_migrator.Command.Run.Stages.{
  unchanged, migrated, nothing, Stage, begun, subscribed, exported, written, IsConfigured, install,
  write, LeadTo, IsComplete, manual, migrates_config, starts_v4,
}
use lisk_migrator.Utils.Exception.{Exception}
use lisk_migrator.Utils.Config.{ConfigV4}
use lisk_migrator.Types.{NetworkConfigLocal}
use lisk_migrator.Command.Run.Follows.{
  Ready, fetch_snapshot-Meets, await_node-Meets, export_assets-Meets, migrate_config-Meets,
  create_genesis_block-Meets,
}
use lisk_migrator.Command.Run.Starts.{Completes, started-Meets}

module _ (calls : Calls) (flags : Flags) where
  Configured : {A : Type 0} → A → Stage → Type 0
  Configured a t = IsConfigured flags t

  IsConfigured-Fails :
      {t : Stage} → IsConfigured flags t → Fails calls (exit_code calls.install_lisk_core) t
  IsConfigured-Fails (unchanged h) = inr refl
  IsConfigured-Fails migrated = inr refl

  fetched-Meets :
      (id : Text)
      → Meets flags
          (Fails calls)
          begun
          (if use_snapshot flags then fetch_snapshot calls flags else await_node calls flags id)
          (Ready calls flags)
  fetched-Meets id =
      meets_if flags (Fails calls) (Ready calls flags) (use_snapshot flags) _ _
        (fetch_snapshot-Meets calls flags) (await_node-Meets calls flags id)

  Configured-Meets :
      (id : Text) (default : ConfigV4)
      → Meets flags
          (Fails calls)
          exported
          (if flags.auto_migrate_config && not (use_snapshot flags)
            then migrate_config calls flags id default
            else pure tt)
          Configured
  unfolding Configured
  Configured-Meets id default =
      meets_if flags (Fails calls) Configured (migrates_config flags)
        (migrate_config calls flags id default) (pure tt)
        (λ h.
          weaken flags (Fails calls) (migrate_config-Meets calls flags id default h)
            (λ _. migrated))
        (λ h. meets_pure flags (Fails calls) Configured tt (unchanged h))

  completed-Meets :
      (network : Text) (default : ConfigV4)
      → Meets flags
          (Fails calls)
          written
          (if not (use_snapshot flags) && flags.auto_start_lisk_core_v4
            then (λ w. rethrown (auto_start calls flags network default w))
            else pure tt)
          (Completes calls flags)
  completed-Meets network default =
      meets_if flags (Fails calls) (Completes calls flags) (starts_v4 flags)
        (λ w. rethrown (auto_start calls flags network default w)) (pure tt)
        (started-Meets calls flags network default)
        (λ h. meets_pure flags (Fails calls) (Completes calls flags) tt (manual h))

  migrate-Meets :
      (id output_dir : Text)
      → Meets flags (Fails calls) begun (migrate calls flags id output_dir) (Completes calls flags)
  unfolding migrate Configured
  migrate-Meets id output_dir = bind flags (Fails calls) (fetched-Meets id) λ _ s ready.
      bind_at flags (Fails calls) (export_assets-Meets calls flags id ready) λ exports.
        bind flags (Fails calls) (Configured-Meets id exports.2) λ _ t set.
          bind_at flags (Fails calls)
            (meets_execute flags (Fails calls) _ (IsConfigured-Fails set) (install set))
            λ _.
              bind_at flags (Fails calls)
                (meets_lift flags (Fails calls) (name_of (network_of id)) (inl refl))
                λ network.
                  bind_at flags (Fails calls)
                    (create_genesis_block-Meets calls flags network exports.1 output_dir exports.0)
                    λ _.
                      bind_at flags (Fails calls) (meets_perform flags (Fails calls) _ refl write)
                        λ _. completed-Meets network exports.2

  -- What the ending of a run tells of its stage.
  abbrev pub EndsAt : Ending → Stage → Type 0
  EndsAt (completed document) t = IsComplete flags t
  EndsAt (failed cause document) t = Fails calls cause.code t
  EndsAt (crashed cause) t = Unit
  EndsAt still_waiting t = t ≡ subscribed

  abbrev EndsRight : Ending × World → Type 0
  EndsRight (ending, w) = (t : Stage) × LeadTo flags w.effects t × EndsAt ending t

  ending_of-EndsAt :
      (cause : Option Exception) (document : Result (Option Text)) (t : Stage)
      → EndsAt (ending_of calls flags cause (ok none)) t
      → EndsAt (ending_of calls flags cause document) t
  ending_of-EndsAt cause (err e) t h = tt
  ending_of-EndsAt none (ok document) t h = h
  ending_of-EndsAt (some e) (ok document) t h = h

  conclude-EndsAt :
      (network : Option NetworkConfigLocal) (t : Stage)
      → IsComplete flags t
      → EndsAt (conclude calls flags network) t
  conclude-EndsAt none t c = ending_of-EndsAt none _ t c
  conclude-EndsAt (some network) t c =
      ending_of-EndsAt none (document_of calls flags network none) t c

  recover-EndsAt :
      (e : Exception) (w : World) (network : Option NetworkConfigLocal) (t : Stage)
      → Fails calls e.code t
      → EndsAt (recover calls flags e w network) t
  recover-EndsAt e w none t f = tt
  recover-EndsAt e w (some network) t f =
      ending_of-EndsAt (some e) (document_of calls flags network _) t f

  finish-EndsRight :
      (id : Text) (o : Ended (Unit {0}) × World)
      → Reaches flags (Fails calls) (Completes calls flags) o
      → EndsRight (finish calls flags id o)
  unfolding finish
  finish-EndsRight id (waits, w) h = h
  finish-EndsRight id (died e, w) (t, l) = (t, l, tt)
  finish-EndsRight id (returned value, w) (t, l, c) = (t, l, conclude-EndsAt (network_of id) t c)
  finish-EndsRight id (thrown e, w) (t, l, f) = (t, l, recover-EndsAt e w (network_of id) t f)

  -- From the start on, the effects of a run lead to a stage of the migration. The run ends without an
  -- error only at the genesis block where v4 is not to be started, at the stopped v3 where the user
  -- did not confirm the configuration, or at the started v4; the error that is shown has no code, or
  -- a code of its stage, which is the exit code of npm where v4 is installed; and the run waits only
  -- for the snapshot height to be final.
  pub run-Refines :
      (w : World)
      → w.effects ≡ []
      → (t : Stage) × LeadTo flags (run calls flags w).1.effects t × EndsAt (run calls flags w).0 t
  unfolding run
  run-Refines w e = prepared (prepare calls flags)
    where
      start_of : LeadTo flags w.effects begun
      start_of = subst (λ es. LeadTo flags es begun) (sym e) nothing

      prepared : (r : Result Text) → EndsRight (run_from calls flags w r)
      prepared (err x) = (begun, start_of, tt)
      prepared (ok id) =
          finish-EndsRight id _ ((migrate-Meets id (output_dir_of calls flags id)).meets w start_of)
