-- ===== src/Command/Run/Follows.antt =====
-- `run` of src/index.ts keeps to the stages of the migration.
use lisk_migrator.Common.{
  ◌≡◌, refl, true, false, none, Text, Result, ok, err, invalid_migrated_config, inl, inr,
}
use lisk_migrator.Command.{Flags, use_snapshot}
use lisk_migrator.Command.Run.Interface.{Calls, snapshot_path, is_url, is_tar_ball, token_id_of}
use lisk_migrator.Command.Run.Monad.{
  get_chain, set_config_core_v4, set_genesis_block_create_command, pure, throw, did,
}
use lisk_migrator.Command.Run.Phases.{
  fetch_snapshot, await_node, observed, export_assets, migrate_config, executed,
  create_genesis_block,
}
use lisk_migrator.Command.Run.Rules.{
  Fails, raised-Reaches, Meets, At, bind_at, meets_pure, meets_lift, meets_perform, meets_if,
  meets_with_globals, meets_did, weaken, meets_set_chain,
}
use lisk_migrator.Command.Run.Stages.{
  Stage, begun, subscribed, finalized, exported, saved, configured, installed, created, IsReady,
  given, remote, local, download, extract, subscribe, finalize, export, save, configure, create,
  then_do, migrates_config,
}
use lisk_migrator.Constants.{invalid_config}
use lisk_migrator.Utils.Exception.{migrator_exception}
use lisk_migrator.Utils.Config.{ConfigV4}
use lisk_migrator.Database.{Db}
use lisk_migrator.Utils.Chain.{Outcome}

module _ (calls : Calls) (flags : Flags) where
  -- Ready, whatever is returned.
  abbrev pub Ready : {A : Type 0} → A → Stage → Type 0
  Ready a t = IsReady flags t

  pub fetch_snapshot-Meets :
      use_snapshot flags ≡ true → Meets flags (Fails calls) begun (fetch_snapshot calls flags) Ready
  unfolding fetch_snapshot
  fetch_snapshot-Meets h =
      meets_if flags (Fails calls) Ready (is_url flags.snapshot_url) _ _
        (λ _.
          weaken flags (Fails calls) (meets_perform flags (Fails calls) _ refl (download h))
            (λ _. remote))
        (λ _.
          meets_if flags (Fails calls) Ready (is_tar_ball (snapshot_path calls flags)) _ _
            (λ _.
              weaken flags (Fails calls) (meets_perform flags (Fails calls) _ refl (extract h))
                (λ _. remote))
            (λ _. meets_pure flags (Fails calls) Ready tt (given h)))

  observed-Meets :
      (outcome : Outcome) → Meets flags (Fails calls) subscribed (observed outcome) Ready
  unfolding did
  observed-Meets Outcome.waiting = record { meets = λ w l. (subscribed, l, refl) }
  observed-Meets (Outcome.resolved height) = record {
    meets = λ w l. (finalized, then_do _ l finalize refl, local);
  }
  observed-Meets (Outcome.rejected e) = record {
    meets = raised-Reaches flags (Fails calls) _ e refl;
  }

  pub await_node-Meets :
      (network_identifier : Text)
      → use_snapshot flags ≡ false
      → Meets flags (Fails calls) begun (await_node calls flags network_identifier) Ready
  unfolding await_node
  await_node-Meets id h =
      bind_at flags (Fails calls) (meets_lift flags (Fails calls) _ refl) λ node.
        bind_at flags (Fails calls) (meets_lift flags (Fails calls) _ refl) λ _.
          bind_at flags (Fails calls) (meets_did flags (Fails calls) (subscribe h)) λ _.
            bind_at flags (Fails calls) (meets_lift flags (Fails calls) _ refl)
              λ _. observed-Meets _

  pub export_assets-Meets :
      (network_identifier : Text) {s : Stage}
      → IsReady flags s
      → Meets flags
          (Fails calls)
          s
          (export_assets calls flags network_identifier)
          (At flags (Fails calls) exported)
  unfolding export_assets get_chain
  export_assets-Meets id {s} ready =
      bind_at flags (Fails calls) (meets_set_chain flags (Fails calls) _ (silent ready)) λ _.
        bind_at flags (Fails calls) (meets_set_chain flags (Fails calls) _ (silent ready)) λ _.
          bind_at flags (Fails calls) (meets_lift flags (Fails calls) _ (silent ready)) λ _.
            bind_at flags (Fails calls) (meets_lift flags (Fails calls) _ (silent ready)) λ _.
              bind_at flags (Fails calls) (record { meets = λ w l. (s, l, refl) })
                λ chain.
                  bind_at flags (Fails calls)
                    (meets_lift flags (Fails calls) (token_id_of chain) (silent ready))
                    λ _.
                      bind_at flags (Fails calls)
                        (meets_with_globals flags (Fails calls) _ (silent ready))
                        λ _.
                          bind_at flags (Fails calls)
                            (meets_lift flags (Fails calls) _ (silent ready))
                            λ _.
                              bind_at flags (Fails calls)
                                (meets_lift flags (Fails calls) _ (silent ready))
                                λ _.
                                  bind_at flags (Fails calls)
                                    (meets_perform flags (Fails calls) _ (silent ready)
                                      (export ready))
                                    λ _. meets_pure flags (Fails calls) _ _ refl
    where
      silent : {t : Stage} → IsReady flags t → Fails calls none t
      silent (given h) = refl
      silent remote = refl
      silent local = refl

  pub migrate_config-Meets :
      (network_identifier : Text) (default : ConfigV4)
      → migrates_config flags ≡ true
      → Meets flags
          (Fails calls)
          exported
          (migrate_config calls flags network_identifier default)
          (At flags (Fails calls) configured)
  unfolding migrate_config throw set_config_core_v4
  migrate_config-Meets id default h =
      bind_at flags (Fails calls) (meets_lift flags (Fails calls) _ (inl refl)) λ _.
        bind_at flags (Fails calls) (meets_perform flags (Fails calls) _ (inl refl) (save h)) λ _.
          bind_at flags (Fails calls)
            (meets_if flags (Fails calls) (At flags (Fails calls) saved) _ (pure tt)
              (throw (migrator_exception invalid_migrated_config invalid_config))
              (λ _. meets_pure flags (Fails calls) _ _ refl)
              (λ _. record { meets = λ w l. (saved, l, inr refl) }))
            λ _.
              bind_at flags (Fails calls) (meets_perform flags (Fails calls) _ (inl refl) configure)
                λ _. record { meets = λ w l. (configured, l, refl) }

  executed-Meets :
      (r : Result Text)
      → Meets flags (Fails calls) installed (executed r) (At flags (Fails calls) created)
  unfolding throw
  executed-Meets (ok output) = meets_did flags (Fails calls) create
  executed-Meets (err e) = record { meets = λ w l. (installed, l, inr refl) }

  pub create_genesis_block-Meets :
      (network config_path output_dir : Text) (db : Db)
      → Meets flags
          (Fails calls)
          installed
          (create_genesis_block calls flags network config_path output_dir db)
          (At flags (Fails calls) created)
  unfolding create_genesis_block set_genesis_block_create_command
  create_genesis_block-Meets network config_path output_dir db =
      bind_at flags (Fails calls) (meets_lift flags (Fails calls) _ (inl refl)) λ header.
        bind_at flags (Fails calls) (record { meets = λ w l. (installed, l, refl) })
          λ _. executed-Meets _
