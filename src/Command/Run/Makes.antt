-- ===== src/Command/Run/Makes.antt =====
-- Rules for an action of `run` of src/index.ts that returns, with the effects that it makes.
use lisk_migrator.Common.{
  ◌≡◌, refl, sym, ap, subst, ◌∙◌, List, [], ◌∷◌, ◌++◌, append_assoc, append-nil, Bool, true, false,
  Result, ok, if◌then◌else◌,
}
use lisk_migrator.CreateAsset.Monad.{Globals, Action}
use lisk_migrator.Utils.Chain.{ChainState}
use lisk_migrator.Utils.Exception.{Attempt, success}
use lisk_migrator.Command.Run.Monad.{
  Effect, World, returned, Run, ◌>>=◌, pure, lift, did, perform, execute, set_chain, with_globals,
}

-- From a world with a property, the action returns a value, in a world that has its effects after those
-- that were there.
pub record Makes {A : Type 0} (P : World → Type 0) (action : Run A) (effects : List Effect)
    (Q : A → World → Type 0) : Type 0 where
  pub makes :
      (w : World)
      → P w
      → (a : A) × (w' : World) × (action w ≡ (returned a, w'))
        × (w'.effects ≡ w.effects ++ effects)
        × Q a w'

-- Nothing is asked of the world.
abbrev pub Any : World → Type 0
Any w = Unit

module _ {A B : Type 0} where
  pub makes_bind :
      {P : World → Type 0} {Q : A → World → Type 0} {R : B → World → Type 0} {m : Run A}
      {next : A → Run B} {es fs : List Effect}
      → Makes P m es Q
      → ((a : A) → Makes (Q a) (next a) fs R)
      → Makes P (m >>= next) (es ++ fs) R
  unfolding ◌>>=◌
  makes_bind {P} {Q} {R} {m} {next} {es} {fs} first later = record {
    makes = λ w p.
        let (a, w', e, es_made, q) = first.makes w p in
        let (b, w'', f, fs_made, r) = (later a).makes w' q in
        (
          b,
          w'',
          rw e f,
          fs_made ∙ ap (λ made. made ++ fs) es_made ∙ append_assoc w.effects es fs,
          r,
        );
  }

module _ {A : Type 0} where
  pub makes_pure : {P : World → Type 0} (a : A) → Makes P (pure a) [] (λ b. P)
  unfolding pure
  makes_pure a = record { makes = λ w p. (a, w, refl, sym (append-nil w.effects), p) }

  pub makes_perform :
      {e : Effect} (r : Result A) (a : A) → r ≡ ok a → Makes Any (perform e r) (e ∷ []) (λ b. Any)
  unfolding perform
  makes_perform {e} r a h = record {
    makes =
        λ w p. (a, record w { effects = w.effects ++ (e ∷ []) }, rw (h, perform) refl, refl, tt);
  }

  pub makes_if :
      {P : World → Type 0} {Q : A → World → Type 0} (b : Bool) (m n : Run A) (es fs : List Effect)
      → (b ≡ true → Makes P m es Q)
      → (b ≡ false → Makes P n fs Q)
      → Makes P (if b then m else n) (if b then es else fs) Q
  makes_if true m n es fs h k = h refl
  makes_if false m n es fs h k = k refl

pub makes_did : (e : Effect) → Makes Any (did e) (e ∷ []) (λ b. Any)
unfolding did
makes_did e = record {
  makes = λ w p. (tt, record w { effects = w.effects ++ (e ∷ []) }, refl, refl, tt);
}

module _ {A B : Type 0} where
  -- A call that returns, and what follows it.
  pub lift_then :
      {P : World → Type 0} {R : B → World → Type 0} {es : List Effect} (r : Result A) (a : A)
      (next : A → Run B)
      → r ≡ ok a
      → Makes P (next a) es R
      → Makes P (lift r >>= next) es R
  unfolding ◌>>=◌ lift
  lift_then {P} {R} {es} r a next h later =
      subst (λ v. Makes P (lift v >>= next) es R) (sym h)
        (record { makes = λ w p. later.makes w p })

  pub perform_then :
      {R : B → World → Type 0} {e : Effect} {es : List Effect} (r : Result A) (a : A)
      (next : A → Run B)
      → r ≡ ok a
      → Makes Any (next a) es R
      → Makes Any (perform e r >>= next) (e ∷ es) R
  unfolding ◌>>=◌ perform
  perform_then {R} {e} {es} r a next h later =
      subst (λ v. Makes Any (perform e v >>= next) (e ∷ es) R) (sym h)
        (record {
          makes = λ w p.
              let (b, w', f, made, q) =
                later.makes (record w { effects = w.effects ++ (e ∷ []) }) tt in
              (b, w', f, made ∙ append_assoc w.effects (e ∷ []) es, q);
        })

module _ {A : Type 0} where
  -- What is asked of the world does not depend on it.
  pub makes_given :
      {X : Type 0} {Q : A → World → Type 0} {action : Run A} {es : List Effect}
      → (X → Makes Any action es Q)
      → Makes (λ w. X) action es Q
  makes_given h = record { makes = λ w x. (h x).makes w tt }

  pub makes_true :
      {P : World → Type 0} {Q : A → World → Type 0} (b : Bool) (m n : Run A) {es : List Effect}
      → b ≡ true
      → Makes P m es Q
      → Makes P (if b then m else n) es Q
  makes_true true m n h k = k
  makes_true false m n h k = absurd (cc)

  -- An action that makes no effect.
  pub makes_quiet :
      {P : World → Type 0} {Q : A → World → Type 0} (action : Run A)
      → ((w : World)
          → P w
          → (a : A) × (w' : World) × (action w ≡ (returned a, w'))
            × (w'.effects ≡ w.effects)
            × Q a w')
      → Makes P action [] Q
  makes_quiet action h = record {
    makes =
        λ w p. let (a, w', f, same, q) = h w p in (a, w', f, same ∙ sym (append-nil w.effects), q);
  }

-- Setters that are given what they ask for.
pub makes_set_chain :
    {P Q : ChainState → Type 0} (setter : ChainState → Result ChainState)
    → ((chain : ChainState) → P chain → (after : ChainState) × (setter chain ≡ ok after) × Q after)
    → Makes (λ w. P w.chain) (set_chain setter) [] (λ b w. Q w.chain)
unfolding set_chain
makes_set_chain {P} {Q} setter h = record {
  makes = λ w p.
      let (after, e, q) = h w.chain p in
      (tt, record w { chain = after }, rw (e, set_chain) refl, sym (append-nil w.effects), q);
}

pub makes_with_globals :
    {A : Type 0} (action : Action A)
    → ((g : Globals) → (a : A) × (g' : Globals) × (action g ≡ (ok a, g')))
    → Makes Any (with_globals action) [] (λ b. Any)
unfolding with_globals
makes_with_globals action h = record {
  makes = λ w p.
      let (a, g', e) = h w.globals in
      (a, record w { globals = g' }, rw (e, with_globals) refl, sym (append-nil w.effects), tt);
}

-- A command of the system that returns, and what follows it.
pub execute_then :
    {A B : Type 0} {R : B → World → Type 0} {e : Effect} {es : List Effect} (r : Attempt A) (a : A)
    (next : A → Run B)
    → r ≡ success a
    → Makes Any (next a) es R
    → Makes Any (execute e r >>= next) (e ∷ es) R
unfolding ◌>>=◌ execute
execute_then {A} {B} {R} {e} {es} r a next h later =
    subst (λ v. Makes Any (execute e v >>= next) (e ∷ es) R) (sym h)
      (record {
        makes = λ w p.
            let (b, w', f, made, q) =
              later.makes (record w { effects = w.effects ++ (e ∷ []) }) tt in
            (b, w', f, made ∙ append_assoc w.effects (e ∷ []) es, q);
      })

-- An action whose value is known, and what follows it.
pub makes_bind_eq :
    {A B : Type 0} {P : World → Type 0} {R : B → World → Type 0} {m : Run A} (next : A → Run B)
    {es fs : List Effect} (a : A)
    → Makes P m es (λ b w. b ≡ a)
    → Makes Any (next a) fs R
    → Makes P (m >>= next) (es ++ fs) R
makes_bind_eq {R} next {es} {fs} a first later =
    makes_bind first λ b. makes_given λ e. subst (λ x. Makes Any (next x) fs R) (sym e) later
