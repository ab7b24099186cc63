-- ===== src/Command/Run/Completes.antt =====
-- `run` of src/index.ts where no call fails.
use lisk_migrator.Common.{
  ℕ, ◌≡◌, refl, sym, ap, subst, ◌∙◌, List, [], ◌∷◌, ◌++◌, append_assoc, Bool, true, false, Option,
  none, Text, Result, ok, if◌then◌else◌,
}
use lisk_migrator.Command.{Flags, use_snapshot}
use lisk_migrator.Command.Run.{completed, output_dir_of, finish, run}
use lisk_migrator.Command.Run.Interface.{Calls, name_of, port_of, snapshot_path}
use lisk_migrator.Command.Run.Makes.{
  Makes, Any, makes_bind, makes_pure, makes_if, makes_did, makes_quiet, makes_true, makes_bind_eq,
  lift_then, perform_then, execute_then,
}
use lisk_migrator.Command.Run.Monad.{
  Effect, forging_subscribed, height_finalized, config_saved, config_written, block_created,
  block_copied, v3_stopped, data_dir_moved, legacy_db_copied, v4_started, World, Run, pure, did,
  get_config_core_v4, set_config_core_v4, set_genesis_block_create_command,
  set_lisk_core_start_command, ◌>>=◌,
}
use lisk_migrator.Command.Run.Phases.{
  fetch_snapshot, await_node, migrate_config, executed, create_genesis_block, report, start_v4,
  auto_start, rethrown, migrate,
}
use lisk_migrator.Command.Run.Stages.{migrates_config, starts_v4}
use lisk_migrator.Utils.Node.Start.{Progress, all_done}
use lisk_migrator.Command.Run.Exports.{fetch_snapshot-Makes, await_node-Makes, export_assets-Makes}
use lisk_migrator.Command.Run.Favourable.{IsFavourable, fetch_effects, all_effects}

module _ (calls : Calls) (flags : Flags) (f : IsFavourable calls flags) where
  migrate_config-Makes :
      Makes Any
        (migrate_config calls flags f.network_identifier f.default_config)
        (config_saved ∷ config_written ∷ [])
        (λ b. Any)
  unfolding migrate_config set_config_core_v4
  migrate_config-Makes = lift_then _ f.config_v3 _ f.v3_read (
      perform_then _ tt _ f.backed_up (
        makes_bind (makes_true _ _ _ (f.valid _) (makes_pure tt))
          λ _. perform_then _ tt _ (f.config_kept _) (makes_quiet _ λ w p. (_, _, refl, refl, tt))))

  executed-Makes :
      (r : Result Text) → r ≡ ok [] → Makes Any (executed r) (block_created ∷ []) (λ b. Any)
  executed-Makes r e =
      subst (λ o. Makes Any (executed o) (block_created ∷ []) (λ b. Any)) (sym e)
        (record { makes = (makes_did block_created).makes })

  create_genesis_block-Makes :
      (output_dir : Text)
      → Makes Any
          (create_genesis_block calls flags f.network.name f.config_path output_dir f.db)
          (block_created ∷ [])
          (λ b. Any)
  unfolding create_genesis_block set_genesis_block_create_command
  create_genesis_block-Makes output_dir = lift_then _ f.header _ f.header_found (
      makes_bind {Q = λ b. Any} (makes_quiet _ λ w p. (tt, _, refl, refl, tt))
        λ _. executed-Makes _ (f.created _))

  report-Makes :
      (o : Option ℕ × Progress) (command : Option Text)
      → o ≡ (none, all_done)
      → Makes Any
          (report o command)
          (data_dir_moved ∷ legacy_db_copied ∷ v4_started ∷ [])
          (λ b. Any)
  unfolding ◌>>=◌ did pure set_lisk_core_start_command
  report-Makes o command e =
      subst
        (λ p.
          Makes Any (report p command) (data_dir_moved ∷ legacy_db_copied ∷ v4_started ∷ [])
            (λ b. Any))
        (sym e)
        (record {
          makes = λ w p. (
            tt,
            _,
            refl,
            append_assoc (w.effects ++ (data_dir_moved ∷ [])) (legacy_db_copied ∷ [])
                  (v4_started ∷ [])
                ∙ append_assoc w.effects (data_dir_moved ∷ []) (legacy_db_copied ∷ v4_started ∷ []),
            tt,
          );
        })

  start_v4-Makes :
      Makes Any
        (start_v4 calls flags f.network.name)
        (data_dir_moved ∷ legacy_db_copied ∷ v4_started ∷ [])
        (λ b. Any)
  unfolding start_v4 get_config_core_v4
  start_v4-Makes =
      makes_bind {Q = λ b. Any} (makes_quiet _ λ w p. (w.config_core_v4, w, refl, refl, tt))
        λ config. report-Makes _ _ (f.started (port_of config))

  auto_start-Makes :
      Makes Any
        (auto_start calls flags f.network.name f.default_config)
        (block_copied ∷ v3_stopped ∷ data_dir_moved ∷ legacy_db_copied ∷ v4_started ∷ [])
        (λ b. Any)
  unfolding auto_start set_config_core_v4
  auto_start-Makes = makes_bind (chosen flags.auto_migrate_config) λ _.
      lift_then _ f.exec_path _ f.core_found (
        perform_then _ tt _ f.copied
          (perform_then _ tt _ f.stopped (makes_true _ _ _ f.agreed start_v4-Makes)))
    where
      chosen :
          (b : Bool)
          → Makes Any (if b then pure tt else set_config_core_v4 f.default_config) [] (λ b. Any)
      chosen true = makes_pure tt
      chosen false = makes_quiet _ λ w p. (tt, _, refl, refl, tt)

  -- The inner `catch` has nothing to do.
  rethrown-Makes :
      (action : Run (Unit {0})) (es : List Effect)
      → Makes Any action es (λ b. Any)
      → Makes Any (λ w. rethrown (action w)) es (λ b. Any)
  rethrown-Makes action es h = record {
    makes = λ w p. let (a, w', e, made, q) = h.makes w p in (a, w', ap rethrown e, made, q);
  }

  fetched-Makes :
      Makes Any
        (if use_snapshot flags
          then fetch_snapshot calls flags
          else await_node calls flags f.network_identifier)
        (if use_snapshot flags
          then fetch_effects flags (snapshot_path calls flags)
          else forging_subscribed ∷ height_finalized ∷ [])
        (λ b. Any)
  fetched-Makes =
      makes_if (use_snapshot flags) _ _ _ _ (λ _. fetch_snapshot-Makes calls flags f)
        (λ _. await_node-Makes calls flags f)

  migrate-Makes :
      (output_dir : Text)
      → Makes Any
          (migrate calls flags f.network_identifier output_dir)
          (all_effects calls flags)
          (λ b. Any)
  unfolding migrate
  migrate-Makes output_dir = makes_bind fetched-Makes λ _.
      makes_bind_eq _ _ (export_assets-Makes calls flags f) (
        makes_bind
          (makes_if (migrates_config flags) _ _ _ _ (λ _. migrate_config-Makes)
            (λ _. makes_pure tt))
          λ _. execute_then _ f.install_output _ f.installed (
            lift_then _ f.network.name _ (ap name_of f.known) (
              makes_bind (create_genesis_block-Makes output_dir) λ _.
                perform_then _ tt _ f.block_kept (
                  makes_if (starts_v4 flags) _ _ _ _ (λ _. rethrown-Makes _ _ auto_start-Makes)
                    (λ _. makes_pure tt)))))

  -- From every world, where the flags pass, the network is known, the snapshot can be read, the
  -- node answers with the version and the heights that are wanted, no call of the system fails, and
  -- the user agrees to all that is asked, a run ends without an error, with the document of
  -- commands that is kept if there is one, and its effects are exactly all those of the migration
  -- that the flags ask for, in their order.
  pub run-Completes :
      (w : World)
      → ((run calls flags w).0 ≡ completed f.document)
        × ((run calls flags w).1.effects ≡ w.effects ++ all_effects calls flags)
  unfolding run finish
  run-Completes w =
      let (a, w', e, made, q) =
        (migrate-Makes (output_dir_of calls flags f.network_identifier)).makes w tt in
      rw (f.prepared, e, f.known, f.document_kept) (refl, made)
