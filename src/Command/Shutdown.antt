-- ===== src/Command/Shutdown.antt =====
-- The wait of src/index.ts for the shutdown of Lisk Core v3.
use lisk_migrator.Common.{
  ℕ, zero, suc, ◌≡◌, ◌↔◌, ◌<◌, true, false, ok, err, arith, if◌then◌else◌, ◌+◌, ◌≤◌,
  shutdown_refused, still_running, Bool-cases, inl, inr, refl, sym, ◌∙◌, subst,
}
use lisk_migrator.Command.{Operator, wait_for_shutdown, confirm_shutdown}

module _ (operator : Operator) where
  step_stopped :
      (n looks : ℕ)
      → operator.is_running looks ≡ false
      → wait_for_shutdown operator (suc n) looks ≡ ok tt
  unfolding wait_for_shutdown
  step_stopped n looks h = ground arith

  step_refused :
      (n looks : ℕ)
      → operator.is_running looks ≡ true
      → operator.is_stop_reconfirmed looks ≡ false
      → wait_for_shutdown operator (suc n) looks ≡ err shutdown_refused
  unfolding wait_for_shutdown
  step_refused n looks h k = ground arith

  step_last :
      (looks : ℕ)
      → operator.is_running looks ≡ true
      → operator.is_stop_reconfirmed looks ≡ true
      → wait_for_shutdown operator 1 looks
        ≡ (if operator.is_running (suc looks) then err still_running else ok tt)
  unfolding wait_for_shutdown
  step_last looks h k = ground arith

  step_next :
      (n looks : ℕ)
      → operator.is_running looks ≡ true
      → operator.is_stop_reconfirmed looks ≡ true
      → wait_for_shutdown operator (suc (suc n)) looks
        ≡ wait_for_shutdown operator (suc n) (suc looks)
  unfolding wait_for_shutdown
  step_next n looks h k = ground arith

  -- v3 is found stopped at one of the next looks, with all reconfirmations before it.
  abbrev StopsWithin : ℕ → ℕ → Type 0
  StopsWithin looks n =
      (k : ℕ) × (looks ≤ k)
      × (k < looks + n)
      × (operator.is_running k ≡ false)
      × ((j : ℕ) → looks ≤ j → j < k → operator.is_stop_reconfirmed j ≡ true)

  StopsWithin-suc :
      (looks n : ℕ)
      → operator.is_stop_reconfirmed looks ≡ true
      → StopsWithin (suc looks) n
      → StopsWithin looks (suc n)
  StopsWithin-suc looks n c (k, le, lt, stopped, confirmed) =
      (k, omega arith, omega arith, stopped, λ j a b. ground (arith, confirmed j, c))

  -- The first look, and what the rest of the wait comes to.
  StopsWithin-first :
      (n looks : ℕ)
      → wait_for_shutdown operator (suc n) looks ≡ ok tt
      → (operator.is_running looks ≡ true
          → operator.is_stop_reconfirmed looks ≡ true
          → StopsWithin (suc looks) (suc n))
      → StopsWithin looks (suc (suc n))
  StopsWithin-first n looks h later = elim (Bool-cases (operator.is_running looks)) [
    | inl runs ↦ elim (Bool-cases (operator.is_stop_reconfirmed looks)) [
      | inl c ↦ StopsWithin-suc looks (suc n) c (later runs c)
      | inr refused ↦ absurd (ground (arith, step_refused n looks runs refused, h))
    ]
    | inr stopped ↦ (looks, omega arith, omega arith, stopped, λ j le lt. absurd (omega arith))
  ]

  stopped_last :
      (looks : ℕ)
      → (if operator.is_running looks then err still_running else ok (tt {0})) ≡ ok tt
      → operator.is_running looks ≡ false
  stopped_last looks h = ground arith

  last_look :
      (looks : ℕ)
      → operator.is_running looks ≡ false
      → (if operator.is_running looks then err still_running else ok (tt {0})) ≡ ok tt
  last_look looks h = ground arith

  wait→StopsWithin :
      (n looks : ℕ)
      → wait_for_shutdown operator (suc n) looks ≡ ok tt
      → StopsWithin looks (suc (suc n))
  wait→StopsWithin zero looks h = StopsWithin-first zero looks h (λ runs c. (
    suc looks,
    omega arith,
    omega arith,
    stopped_last (suc looks) (sym (step_last looks runs c) ∙ h),
    λ j le lt. absurd (omega arith),
  ))
  wait→StopsWithin (suc n) looks h =
      StopsWithin-first (suc n) looks h
        (λ runs c. wait→StopsWithin n (suc looks) (sym (step_next n looks runs c) ∙ h))

  -- v3 is stopped at a later look, if it runs at this one.
  later_look :
      (looks k : ℕ)
      → looks ≤ k
      → operator.is_running looks ≡ true
      → operator.is_running k ≡ false
      → looks < k
  later_look looks k le runs stopped = ground arith

  StopsWithin→wait :
      (n looks : ℕ)
      → StopsWithin looks (suc (suc n))
      → wait_for_shutdown operator (suc n) looks ≡ ok tt
  StopsWithin→wait zero looks (k, le, lt, stopped, confirmed) =
      elim (Bool-cases (operator.is_running looks)) [
        | inl runs ↦
            let later = later_look looks k le runs stopped in
            step_last looks runs (confirmed looks (omega arith) later)
            ∙ last_look (suc looks)
                (subst (λ i. operator.is_running i ≡ false) (omega (arith, later)) stopped)
        | inr already ↦ step_stopped zero looks already
      ]
  StopsWithin→wait (suc n) looks (k, le, lt, stopped, confirmed) =
      elim (Bool-cases (operator.is_running looks)) [
        | inl runs ↦
            let later = later_look looks k le runs stopped in
            step_next n looks runs (confirmed looks (omega arith) later)
            ∙ StopsWithin→wait n (suc looks)
                (k, later, omega arith, stopped, λ j a b. confirmed j (omega arith) b)
        | inr already ↦ step_stopped (suc n) looks already
      ]

confirmed_stop :
    (operator : Operator)
    → operator.is_stop_confirmed ≡ true
    → confirm_shutdown operator ≡ wait_for_shutdown operator 3 0
unfolding confirm_shutdown
confirmed_stop operator c = rw (c, if◌then◌else◌) refl

-- The migrator goes on exactly if the user has confirmed the stop, and v3 is found stopped at one of
-- the first four looks, before each of which but the first the user has reconfirmed the stop.
pub confirm_shutdown_iff :
    (operator : Operator)
    → (confirm_shutdown operator ≡ ok tt) ↔ (
        (operator.is_stop_confirmed ≡ true)
        × ((k : ℕ) × (k < 4)
            × (operator.is_running k ≡ false)
            × ((j : ℕ) → j < k → operator.is_stop_reconfirmed j ≡ true)))
unfolding confirm_shutdown
confirm_shutdown_iff operator = (
  λ h. elim (Bool-cases operator.is_stop_confirmed) [
    | inl c ↦
        let (k, le, lt, stopped, confirmed) =
          wait→StopsWithin operator 2 0 (sym (confirmed_stop operator c) ∙ h) in
        (c, (k, omega arith, stopped, λ j b. confirmed j (omega arith) b))
    | inr not_confirmed ↦ absurd (ground (arith, h))
  ],
  λ h.
      confirmed_stop operator h.0
      ∙ StopsWithin→wait operator 2 0 (h.1.0, omega arith, h.1.1, h.1.2, λ j a b. h.1.3 j b),
)
