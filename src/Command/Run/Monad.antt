-- ===== src/Command/Run/Monad.antt =====
-- What src/index.ts acts on while it runs: the module variables, and the lasting effects in their
-- order. An action returns, throws, ends the process by an error that nothing catches, or waits without
-- an end.
use lisk_migrator.Common.{
  List, [], ◌∷◌, ◌++◌, Option, none, some, Text, Error, unhandled, Result, ok, err,
}
use lisk_migrator.CreateAsset.Monad.{Globals, Action}
use lisk_migrator.Utils.Chain.{ChainState}
use lisk_migrator.Utils.Config.{ConfigV4}
use lisk_migrator.Utils.Exception.{Exception, Attempt, success, failure, plain}

-- The effects outside of the process, and the stop of v3, which the operator makes.
pub data Effect : Type 0 where
  snapshot_downloaded snapshot_extracted forging_subscribed height_finalized : Effect
  assets_written config_saved config_written core_installed : Effect
  block_created block_written block_copied v3_stopped : Effect
  data_dir_moved legacy_db_copied v4_started : Effect

pub record World : Type 0 where
  pub effects : List Effect
  pub chain : ChainState
  pub globals : Globals
  pub config_core_v4 : Option ConfigV4
  pub genesis_block_create_command : Option Text
  pub lisk_core_start_command : Option Text

pub data Ended (A : Type 0) : Type 0 where
  returned : A → Ended A
  thrown : Exception → Ended A
  waits : Ended A
  died : Error → Ended A

abbrev pub unhandled_in : Error → Option Error
unhandled_in (unhandled e) = some e
unhandled_in e = none

-- What an error that a call throws comes to: one of an event's handler is not thrown to the caller.
abbrev pub raised : {A : Type 0} → Error → Ended A
raised e = elim (unhandled_in e) [ some cause ↦ died cause | none ↦ thrown (plain e) ]

abbrev pub Run : Type 0 → Type 0
Run A = World → Ended A × World

module _ {A B : Type 0} where
  infixl 5 ◌>>=◌ ◌>>◌
  abbrev continue : (A → Run B) → Ended A → World → Ended B × World
  continue next (returned value) w = next value w
  continue next (thrown e) w = (thrown e, w)
  continue next waits w = (waits, w)
  continue next (died e) w = (died e, w)

  unfoldable pub ◌>>=◌ : Run A → (A → Run B) → Run B
  (action >>= next) w = let (outcome, w') = action w in continue next outcome w'

  abbrev pub ◌>>◌ : Run A → Run B → Run B
  action >> after = action >>= λ _. after

module _ {A : Type 0} where
  unfoldable pub pure : A → Run A
  pure value w = (returned value, w)

  unfoldable pub throw : Exception → Run A
  throw e w = (thrown e, w)

  -- A call that changes nothing that is kept here.
  unfoldable pub lift : Result A → Run A
  lift (ok value) w = (returned value, w)
  lift (err e) w = (raised e, w)

-- An effect that was made.
unfoldable pub did : Effect → Run (Unit {0})
did effect w = (returned tt, record w { effects = w.effects ++ (effect ∷ []) })

-- A call whose effect is made if it does not throw.
unfoldable pub perform : {A : Type 0} → Effect → Result A → Run A
perform effect (ok value) w = (returned value, record w { effects = w.effects ++ (effect ∷ []) })
perform effect (err e) w = (raised e, w)

-- A command of the system, whose error has the exit code, if there is one, as its `code`.
unfoldable pub execute : {A : Type 0} → Effect → Attempt A → Run A
execute effect (success value) w =
    (returned value, record w { effects = w.effects ++ (effect ∷ []) })
execute effect (failure e) w = (thrown e, w)

unfoldable pub get_chain : Run ChainState
get_chain w = (returned w.chain, w)

-- A setter of the variables of src/utils/chain.ts.
abbrev from_setter : Result ChainState → Run (Unit {0})
from_setter (ok chain) w = (returned tt, record w { chain = chain })
from_setter (err e) w = (raised e, w)

unfoldable pub set_chain : (ChainState → Result ChainState) → Run (Unit {0})
set_chain setter w = from_setter (setter w.chain) w

-- An action on the variables of the genesis assets.
abbrev from_action : {A : Type 0} → Result A × Globals → Run A
from_action (ok value, globals) w = (returned value, record w { globals = globals })
from_action (err e, globals) w = (raised e, record w { globals = globals })

unfoldable pub with_globals : {A : Type 0} → Action A → Run A
with_globals action w = from_action (action w.globals) w

unfoldable pub get_config_core_v4 : Run (Option ConfigV4)
get_config_core_v4 w = (returned w.config_core_v4, w)

unfoldable pub set_config_core_v4 : ConfigV4 → Run (Unit {0})
set_config_core_v4 config w = (returned tt, record w { config_core_v4 = Option.some config })

unfoldable pub set_genesis_block_create_command : Text → Run (Unit {0})
set_genesis_block_create_command command w =
    (returned tt, record w { genesis_block_create_command = Option.some command })

unfoldable pub set_lisk_core_start_command : Option Text → Run (Unit {0})
set_lisk_core_start_command command w =
    (returned tt, record w { lisk_core_start_command = command })
