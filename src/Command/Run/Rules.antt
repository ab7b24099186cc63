-- ===== src/Command/Run/Rules.antt =====
-- Rules for what an action of `run` of src/index.ts does to the stage of the migration.
use lisk_migrator.Common.{
  ℕ, ◌≡◌, refl, Bool, true, false, Option, none, some, Error, Result, ok, err, sym, subst,
  if◌then◌else◌,
}
use lisk_migrator.Command.{Flags}
use lisk_migrator.CreateAsset.Monad.{Globals, Action}
use lisk_migrator.Utils.Chain.{ChainState}
use lisk_migrator.Command.Run.Interface.{Calls, exit_code}
use lisk_migrator.Utils.Exception.{Attempt, success, failure, plain}
use lisk_migrator.Command.Run.Monad.{
  Effect, World, Ended, returned, thrown, raised, unhandled_in, waits, died, execute, Run, ◌>>=◌,
  pure, lift, did, perform, with_globals, set_chain,
}
use lisk_migrator.Command.Run.Stages.{Stage, FailsWith, subscribed, Step, LeadTo, then_do}

abbrev pub Errors : Type 1
Errors = Option ℕ → Stage → Type 0

-- With the exit code of the installation of v4.
abbrev pub Fails : Calls → Errors
Fails calls = FailsWith (exit_code calls.install_lisk_core)

module _ (flags : Flags) (F : Errors) where
  module _ {A : Type 0} where
    -- The outcome of an action: the stage that the effects lead to, with what holds of it.
    abbrev pub Reaches : (A → Stage → Type 0) → Ended A × World → Type 0
    Reaches Q (returned a, w) = (t : Stage) × LeadTo flags w.effects t × Q a t
    Reaches Q (thrown e, w) = (t : Stage) × LeadTo flags w.effects t × F e.code t
    Reaches Q (died e, w) = (t : Stage) × LeadTo flags w.effects t
    Reaches Q (waits, w) = (t : Stage) × LeadTo flags w.effects t × (t ≡ subscribed)

    -- From a stage, the action does so.
    pub record Meets (s : Stage) (action : Run A) (Q : A → Stage → Type 0) : Type 0 where
      pub meets : (w : World) → LeadTo flags w.effects s → Reaches Q (action w)

    -- The stage is a given one.
    abbrev pub At : Stage → A → Stage → Type 0
    At s a t = t ≡ s

  module _ {A B : Type 0} where
    bind-Reaches :
        (Q : A → Stage → Type 0) (R : B → Stage → Type 0) (next : A → Run B)
        → ((a : A) (t : Stage) → Q a t → Meets t (next a) R)
        → (m : Run A) (w : World) → Reaches Q (m w)
        → Reaches R ((m >>= next) w)
    unfolding ◌>>=◌
    bind-Reaches Q R next k m w h = at_outcome (m w) h
      where
        at_outcome :
            (o : Ended A × World) → Reaches Q o → Reaches R (((λ (v : World). o) >>= next) w)
        at_outcome (returned a, w') h = (k a h.0 h.2).meets w' h.1
        at_outcome (thrown e, w') h = h
        at_outcome (waits, w') h = h
        at_outcome (died e, w') h = h

    pub bind :
        {s : Stage} {Q : A → Stage → Type 0} {R : B → Stage → Type 0} {m : Run A} {next : A → Run B}
        → Meets s m Q
        → ((a : A) (t : Stage) → Q a t → Meets t (next a) R)
        → Meets s (m >>= next) R
    unfolding ◌>>=◌
    bind {s} {Q} {R} {m} {next} h k = record {
      meets = λ w l. bind-Reaches Q R next k m w (h.meets w l);
    }

    pub bind_at :
        {s u : Stage} {R : B → Stage → Type 0} {m : Run A} {next : A → Run B}
        → Meets s m (At u)
        → ((a : A) → Meets u (next a) R)
        → Meets s (m >>= next) R
    bind_at {s} {u} {R} {m} {next} h k =
        bind {Q = At u} {m = m} {next = next} h
          (λ a t e. subst (λ v. Meets v (next a) R) (sym e) (k a))

  module _ {A : Type 0} where
    pub raised-Reaches :
        {s : Stage} (Q : A → Stage → Type 0) (e : Error)
        → F none s
        → (w : World) → LeadTo flags w.effects s
        → Reaches Q (raised e, w)
    raised-Reaches {s} Q e h w l = of_cause (unhandled_in e)
      where
        of_cause :
            (o : Option Error)
            → Reaches Q (elim o [ some cause ↦ died cause | none ↦ thrown (plain e) ], w)
        of_cause (some cause) = (s, l)
        of_cause none = (s, l, h)

    pub meets_pure : {s : Stage} (Q : A → Stage → Type 0) (a : A) → Q a s → Meets s (pure a) Q
    unfolding pure
    meets_pure {s} Q a h = record { meets = λ w l. (s, l, h) }

    pub meets_lift : {s : Stage} (r : Result A) → F none s → Meets s (lift r) (At s)
    unfolding lift
    meets_lift {s} (ok a) h = record { meets = λ w l. (s, l, refl) }
    meets_lift {s} (err e) h = record { meets = raised-Reaches (At s) e h }

    pub meets_perform :
        {s t : Stage} {e : Effect} (r : Result A)
        → F none s
        → Step flags s e t
        → Meets s (perform e r) (At t)
    unfolding perform
    meets_perform {s} {t} {e} (ok a) h change = record {
      meets = λ w l. (t, then_do e l change refl, refl);
    }
    meets_perform {s} {t} {e} (err x) h change = record { meets = raised-Reaches (At t) x h }

    pub meets_execute :
        {s t : Stage} {e : Effect} (r : Attempt A)
        → F (exit_code r) s
        → Step flags s e t
        → Meets s (execute e r) (At t)
    unfolding execute
    meets_execute {s} {t} {e} (success a) h change = record {
      meets = λ w l. (t, then_do e l change refl, refl);
    }
    meets_execute {s} {t} {e} (failure x) h change = record { meets = λ w l. (s, l, h) }

    pub meets_if :
        {s : Stage} (Q : A → Stage → Type 0) (b : Bool) (m n : Run A)
        → (b ≡ true → Meets s m Q)
        → (b ≡ false → Meets s n Q)
        → Meets s (if b then m else n) Q
    meets_if Q true m n h k = h refl
    meets_if Q false m n h k = k refl

    meets_from_action :
        {s : Stage} (o : Result A × Globals)
        → F none s
        → (w : World) → LeadTo flags w.effects s
        → Reaches (At s) (with_globals (λ g. o) w)
    unfolding with_globals
    meets_from_action {s} (ok a, g) h w l = (s, l, refl)
    meets_from_action {s} (err e, g) h w l = raised-Reaches (At s) e h (record w { globals = g }) l

    pub meets_with_globals :
        {s : Stage} (action : Action A) → F none s → Meets s (with_globals action) (At s)
    unfolding with_globals
    meets_with_globals action h = record {
      meets = λ w l. meets_from_action (action w.globals) h w l;
    }

  pub meets_did : {s t : Stage} {e : Effect} → Step flags s e t → Meets s (did e) (At t)
  unfolding did
  meets_did {s} {t} {e} change = record { meets = λ w l. (t, then_do e l change refl, refl) }

  meets_from_setter :
      {s : Stage} (o : Result ChainState)
      → F none s
      → (w : World) → LeadTo flags w.effects s
      → Reaches (At s) (set_chain (λ c. o) w)
  unfolding set_chain
  meets_from_setter {s} (ok c) h w l = (s, l, refl)
  meets_from_setter {s} (err e) h w l = raised-Reaches (At s) e h w l

  pub meets_set_chain :
      {s : Stage} (setter : ChainState → Result ChainState)
      → F none s
      → Meets s (set_chain setter) (At s)
  unfolding set_chain
  meets_set_chain setter h = record { meets = λ w l. meets_from_setter (setter w.chain) h w l }

  module _ {A : Type 0} where
    weaken-Reaches :
        (Q R : A → Stage → Type 0) (o : Ended A × World)
        → ((a : A) (t : Stage) → Q a t → R a t)
        → Reaches Q o
        → Reaches R o
    weaken-Reaches Q R (returned a, w) k h = (h.0, h.1, k a h.0 h.2)
    weaken-Reaches Q R (thrown e, w) k h = h
    weaken-Reaches Q R (waits, w) k h = h
    weaken-Reaches Q R (died e, w) k h = h

    pub weaken :
        {s u : Stage} {m : Run A} {R : A → Stage → Type 0}
        → Meets s m (At u)
        → ((a : A) → R a u)
        → Meets s m R
    weaken {s} {u} {m} {R} h k = record {
      meets =
          λ w l. weaken-Reaches (At u) R (m w) (λ a t e. subst (R a) (sym e) (k a)) (h.meets w l);
    }
