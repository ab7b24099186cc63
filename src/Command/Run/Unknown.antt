-- ===== src/Command/Run/Unknown.antt =====
-- `run` of src/index.ts on a network that `NETWORK_CONSTANT` does not have.
use lisk_migrator.Common.{
  ◌≡◌, ◌≢◌, refl, ap, ◌∙◌, sym, ◌⊎◌, inl, inr, Option, none, some, Error, Text, ok, err,
  undefined_property,
}
use lisk_migrator.Command.{Flags}
use lisk_migrator.Command.Run.{crashed, still_waiting, recover, finish, prepare, output_dir_of, run}
use lisk_migrator.Command.Run.Interface.{Calls, network_of}
use lisk_migrator.Command.Run.Monad.{
  World, Ended, returned, thrown, waits, died, raised, Run, ◌>>=◌, set_chain,
}
use lisk_migrator.Command.Run.Phases.{export_assets, migrate}
use lisk_migrator.Types.{NetworkConfigLocal}
use lisk_migrator.Utils.Chain.{ChainState, set_token_id_lsk_by_net_id}

-- The action does not return, from any world.
pub record IsStopped {A : Type 0} (action : Run A) : Type 0 where
  pub stopped : (w : World) (a : A) (w' : World) → action w ≢ (returned a, w')

module _ {A B : Type 0} where
  -- What is before or after it does not, either.
  bind-IsStopped :
      (m : Run A) (next : A → Run B) → ((a : A) → IsStopped (next a)) → IsStopped (m >>= next)
  unfolding ◌>>=◌
  bind-IsStopped m next h = record { stopped = λ w b w' e. of_outcome (m w) b w' e }
    where
      of_outcome :
          (o : Ended A × World) (b : B) (w' : World)
          → ((λ (v : World). o) >>= next) o.1 ≢ (returned b, w')
      of_outcome (returned a, v) b w' e = (h a).stopped v b w' e
      of_outcome (thrown x, v) b w' e = absurd (cc (ap (λ p. p.0) e))
      of_outcome (waits, v) b w' e = absurd (cc (ap (λ p. p.0) e))
      of_outcome (died x, v) b w' e = absurd (cc (ap (λ p. p.0) e))

  IsStopped-bind : (m : Run A) (next : A → Run B) → IsStopped m → IsStopped (m >>= next)
  unfolding ◌>>=◌
  IsStopped-bind m next h = record { stopped = λ w b w' e. of_outcome w (m w) refl b w' e }
    where
      of_outcome :
          (w : World) (o : Ended A × World)
          → o ≡ m w
          → (b : B) (w' : World) → ((λ (v : World). o) >>= next) o.1 ≢ (returned b, w')
      of_outcome w (returned a, v) same b w' e = h.stopped w a v (sym same)
      of_outcome w (thrown x, v) same b w' e = absurd (cc (ap (λ p. p.0) e))
      of_outcome w (waits, v) same b w' e = absurd (cc (ap (λ p. p.0) e))
      of_outcome w (died x, v) same b w' e = absurd (cc (ap (λ p. p.0) e))

module _ (calls : Calls) (flags : Flags) (id : Text) (unknown : network_of id ≡ none) where
  set_token_fails :
      (chain : ChainState) → set_token_id_lsk_by_net_id id chain ≡ err undefined_property
  unfolding set_token_id_lsk_by_net_id
  set_token_fails chain =
      ap
        (λ (o : Option NetworkConfigLocal). elim o [
          | none ↦ err undefined_property
          | some info ↦ ok (record {
            token_id_lsk = some info.token_id;
            prev_snapshot_block_height = chain.prev_snapshot_block_height;
          })
        ])
        unknown

  set_token-IsStopped : IsStopped (set_chain (set_token_id_lsk_by_net_id id))
  unfolding set_chain
  set_token-IsStopped = record {
    stopped = λ w a w' e. absurd (cc (sym (ap (λ p. p.0) (fails w)) ∙ ap (λ p. p.0) e));
  }
    where
      fails :
          (w : World) → set_chain (set_token_id_lsk_by_net_id id) w ≡ (raised undefined_property, w)
      fails w = rw (set_token_fails w.chain) refl

  migrate-IsStopped : (output_dir : Text) → IsStopped (migrate calls flags id output_dir)
  unfolding migrate export_assets
  migrate-IsStopped output_dir =
      bind-IsStopped _ _ λ _. IsStopped-bind _ _ (IsStopped-bind _ _ set_token-IsStopped)

  finish_unknown :
      (o : Ended (Unit {0}) × World)
      → ((w : World) → o ≢ (returned tt, w))
      → ((cause : Error) × ((finish calls flags id o).0 ≡ crashed cause))
        ⊎ ((finish calls flags id o).0 ≡ still_waiting)
  unfolding finish
  finish_unknown (waits, w) s = inr refl
  finish_unknown (died e, w) s = inl (e, refl)
  finish_unknown (returned value, w) s = absurd (s w refl)
  finish_unknown (thrown e, w) s = inl (undefined_property, ap (recover calls flags e w) unknown)

  -- On a network that is not known, a run that passes the checks of its flags never completes, and shows no
  -- error with commands for the user, such as the one that says that the network is unknown: it ends by an
  -- error that nothing catches, or waits without an end.
  pub run_unknown :
      prepare calls flags ≡ ok id
      → (w : World)
      → ((cause : Error) × ((run calls flags w).0 ≡ crashed cause))
        ⊎ ((run calls flags w).0 ≡ still_waiting)
  unfolding run
  run_unknown p w = rw p (
      finish_unknown (migrate calls flags id (output_dir_of calls flags id) w)
        (λ v e. (migrate-IsStopped (output_dir_of calls flags id)).stopped w tt v e))
