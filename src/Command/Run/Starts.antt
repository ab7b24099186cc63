-- ===== src/Command/Run/Starts.antt =====
-- The automatic start of v4 in `run` of src/index.ts, against the stages of the migration.
use lisk_migrator.Common.{◌≡◌, refl, true, Option, none, some, Text, inl, inr, sym, subst, arith, ℕ}
use lisk_migrator.Command.{Flags}
use lisk_migrator.Command.Run.Interface.{Calls, port_of}
use lisk_migrator.Command.Run.Monad.{
  set_config_core_v4, set_lisk_core_start_command, get_config_core_v4, World, Ended, returned,
  thrown, waits, died, ◌>>=◌, pure, throw, did,
}
use lisk_migrator.Command.Run.Phases.{start_v4, report, rethrown, auto_start}
use lisk_migrator.Command.Run.Rules.{
  Fails, Reaches, Meets, At, bind_at, meets_pure, meets_lift, meets_perform, meets_if, weaken,
}
use lisk_migrator.Command.Run.Stages.{
  Stage, begun, fetched, subscribed, finalized, exported, saved, configured, installed, created,
  written, copied, stopped, moved, restored, started, copy, stop, move, restore, start, then_do,
  IsComplete, declined, automatic, FailsInside, starts_v4,
}
use lisk_migrator.Utils.Node.Started.{Tells, start_lisk_core-Tells}
use lisk_migrator.Utils.Node.Start.{Progress, nothing_done, all_done, backup_done, copy_done}
use lisk_migrator.Constants.{lisk_core_start, backup_legacy_data_dir, copy_legacy_db}
use lisk_migrator.Utils.Exception.{Exception, code_or}
use lisk_migrator.Utils.Config.{ConfigV4}

module _ (calls : Calls) (flags : Flags) where
  -- The outcomes of `startLiskCore`.
  report_as :
      (command : Option Text) (o o' : Option ℕ × Progress)
      → o ≡ o'
      → Meets flags FailsInside stopped (report o' command) (At flags FailsInside started)
      → Meets flags FailsInside stopped (report o command) (At flags FailsInside started)
  report_as command o o' e h =
      subst (λ p. Meets flags FailsInside stopped (report p command) (At flags FailsInside started))
        (sym e) h

  report-Meets :
      (command : Option Text) (o : Option ℕ × Progress)
      → Tells o
      → Meets flags FailsInside stopped (report o command) (At flags FailsInside started)
  unfolding ◌>>=◌ pure throw did set_lisk_core_start_command
  report-Meets command o (inl e) =
      report_as command o (some lisk_core_start, nothing_done) e
        (record { meets = λ w l. (stopped, l, inl refl) })
  report-Meets command o (inr (inl e)) =
      report_as command o (none, all_done) e
        (record {
          meets = λ w l. (
            started,
            then_do _ (then_do _ (then_do _ l move refl) restore refl) start refl,
            refl,
          );
        })
  report-Meets command o (inr (inr (inl e))) =
      report_as command o (some backup_legacy_data_dir, nothing_done) e
        (record { meets = λ w l. (stopped, l, inr refl) })
  report-Meets command o (inr (inr (inr (inl e)))) =
      report_as command o (some copy_legacy_db, backup_done) e
        (record { meets = λ w l. (moved, then_do _ l move refl, refl) })
  report-Meets command o (inr (inr (inr (inr e)))) =
      report_as command o (some lisk_core_start, copy_done) e
        (record { meets = λ w l. (restored, then_do _ (then_do _ l move refl) restore refl, refl) })

  start_v4-Meets :
      (network : Text)
      → Meets flags FailsInside stopped
          (start_v4 calls flags network)
          (At flags FailsInside started)
  unfolding start_v4 get_config_core_v4
  start_v4-Meets network =
      bind_at flags FailsInside (record { meets = λ w l. (stopped, l, refl) })
        λ config.
          report-Meets _ _
            (start_lisk_core-Tells calls.start (port_of config) network calls.final_config_path)

  -- After the inner `try`.
  abbrev pub Completes : {A : Type 0} → A → Stage → Type 0
  Completes a t = IsComplete flags t

  pub auto_start-Meets :
      (network : Text) (default : ConfigV4)
      → starts_v4 flags ≡ true
      → Meets flags FailsInside written (auto_start calls flags network default) Completes
  unfolding auto_start set_config_core_v4
  auto_start-Meets network default h =
      bind_at flags FailsInside
        (meets_if flags FailsInside (At flags FailsInside written) flags.auto_migrate_config
          (pure tt) (set_config_core_v4 default) (λ _. meets_pure flags FailsInside _ _ refl)
          (λ _. record { meets = λ w l. (written, l, refl) }))
        λ _. bind_at flags FailsInside (meets_lift flags FailsInside _ refl) λ exec_path.
          bind_at flags FailsInside (meets_perform flags FailsInside _ refl (copy h)) λ _.
            bind_at flags FailsInside (meets_perform flags FailsInside _ refl stop) λ _.
              meets_if flags FailsInside Completes calls.is_config_confirmed
                (start_v4 calls flags network) (pure tt)
                (λ _. weaken flags FailsInside (start_v4-Meets network) (λ _. automatic))
                (λ _. meets_pure flags FailsInside Completes tt (declined h))

  rethrown-Fails :
      (c : Exception) (t : Stage)
      → FailsInside c.code t
      → Fails calls (some (code_or lisk_core_start c)) t
  rethrown-Fails c written h = ground arith
  rethrown-Fails c copied h = ground arith
  rethrown-Fails c stopped h = ground arith
  rethrown-Fails c moved h = ground arith
  rethrown-Fails c restored h = ground arith
  rethrown-Fails c begun h = elim h [ ]
  rethrown-Fails c fetched h = elim h [ ]
  rethrown-Fails c subscribed h = elim h [ ]
  rethrown-Fails c finalized h = elim h [ ]
  rethrown-Fails c exported h = elim h [ ]
  rethrown-Fails c saved h = elim h [ ]
  rethrown-Fails c configured h = elim h [ ]
  rethrown-Fails c installed h = elim h [ ]
  rethrown-Fails c created h = elim h [ ]
  rethrown-Fails c started h = elim h [ ]

  rethrown-Reaches :
      (o : Ended (Unit {0}) × World)
      → Reaches flags FailsInside Completes o
      → Reaches flags (Fails calls) Completes (rethrown o)
  rethrown-Reaches (returned value, w) h = h
  rethrown-Reaches (thrown c, w) (t, l, f) = (t, l, rethrown-Fails c t f)
  rethrown-Reaches (waits, w) h = h
  rethrown-Reaches (died e, w) h = h

  -- The start of v4 with the inner `catch`.
  pub started-Meets :
      (network : Text) (default : ConfigV4)
      → starts_v4 flags ≡ true
      → Meets flags
          (Fails calls)
          written
          (λ w. rethrown (auto_start calls flags network default w))
          Completes
  started-Meets network default h = record {
    meets = λ w l. rethrown-Reaches _ ((auto_start-Meets network default h).meets w l);
  }
