-- ===== src/Command/Run/Safety.antt =====
-- What `run` of src/index.ts has done before it moves the data of Lisk Core v3.
use lisk_migrator.Common.{
  ◌≡◌, refl, sym, ap, subst, List, [], ◌∷◌, ◌++◌, append_assoc, true, ◌⊎◌, inl, inr, ◌∙◌,
}
use lisk_migrator.Command.{Flags}
use lisk_migrator.Command.Run.{run}
use lisk_migrator.Command.Run.Interface.{Calls}
use lisk_migrator.Command.Run.Monad.{
  Effect, World, block_written, block_copied, v3_stopped, data_dir_moved,
}
use lisk_migrator.Command.Run.Refines.{run-Refines}
use lisk_migrator.Command.Run.Stages.{
  Stage, stopped, copied, written, Step, write, copy, stop, move, LeadTo, nothing, then_do,
  starts_v4,
}

module _ {A : Type 0} where
  -- Two ways to take a list apart, at its last element and at another.
  last_split :
      (a b c : List A) (x y : A)
      → a ++ (x ∷ []) ≡ b ++ (y ∷ c)
      → ((a ≡ b) × (x ≡ y)) ⊎ ((d : List A) × (a ≡ b ++ (y ∷ d)))
  last_split [] [] c x y h = inl (refl, cc)
  last_split [] (z ∷ []) c x y h = absurd (cc)
  last_split [] (z ∷ w ∷ b) c x y h = absurd (cc)
  last_split (z ∷ a) [] c x y h = inr (a, cc)
  last_split (z ∷ a) (w ∷ b) c x y h = elim (last_split a b c x y (cc)) [
    | inl e ↦ inl (cc (e.0), e.1)
    | inr e ↦ inr (e.0, cc (e.1))
  ]

module _ (flags : Flags) where
  -- The effects before any one lead to a stage from which it was allowed.
  LeadTo-split :
      (before after : List Effect) (e : Effect) {all : List Effect} {t : Stage}
      → LeadTo flags all t
      → all ≡ before ++ (e ∷ after)
      → (s : Stage) × (u : Stage) × LeadTo flags before s × Step flags s e u
  LeadTo-split [] after e nothing h = absurd (cc)
  LeadTo-split (x ∷ before) after e nothing h = absurd (cc)
  LeadTo-split before after e (then_do {effects} {s} {t} x l change q) h =
      elim (last_split effects before after x e (sym q ∙ h)) [
        | inl same ↦ (
          s,
          t,
          subst (λ es. LeadTo flags es s) same.0 l,
          subst (λ y. Step flags s y t) same.1 change,
        )
        | inr earlier ↦ LeadTo-split before earlier.0 e l earlier.1
      ]

  stopped_after :
      {all : List Effect}
      → LeadTo flags all stopped
      → (before : List Effect) × (all ≡ before ++ (v3_stopped ∷ [])) × LeadTo flags before copied
  stopped_after (then_do {effects} x l stop q) = (effects, q, l)

  copied_after :
      {all : List Effect}
      → LeadTo flags all copied
      → (before : List Effect) × (all ≡ before ++ (block_copied ∷ []))
        × LeadTo flags before written
        × (starts_v4 flags ≡ true)
  copied_after (then_do {effects} x l (copy h) q) = (effects, q, l, h)

  written_after :
      {all : List Effect}
      → LeadTo flags all written
      → (before : List Effect) × (all ≡ before ++ (block_written ∷ []))
  written_after (then_do {effects} x l write q) = (effects, q)

  moved_after :
      {before : List Effect} {s u : Stage}
      → LeadTo flags before s
      → Step flags s data_dir_moved u
      → (earlier : List Effect) × (before
          ≡ earlier ++ (block_written ∷ block_copied ∷ v3_stopped ∷ []))
        × (starts_v4 flags ≡ true)
  moved_after l move =
      let (a, p, la) = stopped_after l in
      let (b, q, lb, h) = copied_after la in
      let (c, r) = written_after lb in
      (
        c,
        p
            ∙ ap (λ es. es ++ (v3_stopped ∷ [])) q
            ∙ ap (λ es. (es ++ (block_copied ∷ [])) ++ (v3_stopped ∷ [])) r
            ∙ simp (append_assoc),
        h,
      )

-- Whatever a run does before it moves the data directory of v3, the last of it is that the genesis block
-- was written, that it was copied to v4, and that v3 was stopped; and v4 is to be started, without a
-- given snapshot.
pub run-moves_stopped :
    (calls : Calls) (flags : Flags) (w : World)
    → w.effects ≡ []
    → (before after : List Effect)
    → (run calls flags w).1.effects ≡ before ++ (data_dir_moved ∷ after)
    → (earlier : List Effect) × (before
        ≡ earlier ++ (block_written ∷ block_copied ∷ v3_stopped ∷ []))
      × (starts_v4 flags ≡ true)
run-moves_stopped calls flags w e before after h =
    let (t, l, ending) = run-Refines calls flags w e in
    let (s, u, lead, change) = LeadTo-split flags before after data_dir_moved l h in
    moved_after flags lead change
