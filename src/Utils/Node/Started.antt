-- ===== src/Utils/Node/Started.antt =====
-- `startLiskCore` of src/utils/node.ts: the step that fails, and what is done by then.
use lisk_migrator.Common.{
  ℕ, ◌≡◌, refl, sym, subst, ◌⊎◌, inl, inr, Bool, true, false, not, Option, none, some, Text, Result,
  ok, err, if◌then◌else◌, ◌&&◌, Error, Bool-cases, start_failed,
}
use lisk_migrator.Utils.Exception.{Attempt, failure, plain}
use lisk_migrator.Constants.{
  default_port_p2p, default_port_rpc, lisk_core_start, backup_legacy_data_dir, copy_legacy_db,
}
use lisk_migrator.Utils.Node.{resolve_lisk_core_start_command}
use lisk_migrator.Utils.Node.Start.{
  StartSteps, Progress, nothing_done, backup_done, copy_done, all_done, throws, is_closed, or_port,
  Action, ◌>>=◌, call, require, caught, start_with_pm2, start_lisk_core,
}

abbrev pub returns {ℓ} : {A : Type ℓ} → Result A → Bool
returns r = not (throws r)

module _ (steps : StartSteps) (port : Option ℕ) (network config_path : Text) where
  -- Both ports are free.
  abbrev pub are_ports_free : Bool
  are_ports_free =
      not (is_closed (steps.is_port_available (or_port default_port_p2p port)))
      && not (is_closed (steps.is_port_available (or_port default_port_rpc port)))

  -- All that comes after the copy succeeds.
  abbrev pub is_rest_done : Bool
  is_rest_done =
      returns (resolve_lisk_core_start_command steps.wizard network config_path)
      && (steps.is_start_confirmed
          && (returns steps.install_pm2
              && (returns steps.write_pm2_config && returns steps.pm2_start)))

  -- The code of the step that fails first, if any.
  abbrev pub expected_code : Option ℕ
  expected_code =
      if not are_ports_free
      then some lisk_core_start
      else if throws steps.backup
      then some backup_legacy_data_dir
      else if throws steps.copy
      then some copy_legacy_db
      else if not is_rest_done
      then some lisk_core_start
      else none

  -- What is done, step by step.
  abbrev pub expected_progress : Progress
  expected_progress = record {
    is_backed_up = are_ports_free && returns steps.backup;
    is_copied = are_ports_free && (returns steps.backup && returns steps.copy);
    is_started = are_ports_free && (returns steps.backup && (returns steps.copy && is_rest_done));
  }

  abbrev Expected : Attempt (Unit {0}) × Progress → Type 0
  Expected o = caught o ≡ (expected_code, expected_progress)

call_cases :
    {A B : Type 0} (P : Attempt B × Progress → Type 0) (r : Result A) (next : A → Action B)
    (progress : Progress)
    → ((e : Error) → r ≡ err e → P (failure (plain e), progress))
    → ((a : A) → r ≡ ok a → P (next a progress))
    → P ((call r >>= next) progress)
unfolding ◌>>=◌ call
call_cases P (ok a) next progress h k = k a refl
call_cases P (err e) next progress h k = h e refl

require_cases :
    {B : Type 0} (P : Attempt B × Progress → Type 0) (b : Bool) (next : Unit {0} → Action B)
    (progress : Progress)
    → ((e : Error) → b ≡ false → P (failure (plain e), progress))
    → (b ≡ true → P (next tt progress))
    → P ((call (require b) >>= next) progress)
unfolding ◌>>=◌ call
require_cases P true next progress h k = k refl
require_cases P false next progress h k = h start_failed refl

Result-cases : (r : Result (Unit {0})) → ((e : Error) × (r ≡ err e)) ⊎ (r ≡ ok tt)
Result-cases (err e) = inl (e, refl)
Result-cases (ok done) = inr refl

start_with_pm2_lem :
    (steps : StartSteps) (network config_path : Text)
    → caught (start_with_pm2 steps network config_path copy_done) ≡ (
      if not (is_rest_done steps none network config_path) then some lisk_core_start else none,
      record copy_done { is_started = is_rest_done steps none network config_path },
    )
unfolding start_with_pm2
start_with_pm2_lem steps network config_path =
    call_cases P (resolve_lisk_core_start_command steps.wizard network config_path) _ _
      (λ e h. rw h refl)
      λ script h.
        require_cases P steps.is_start_confirmed _ _ (λ e c. rw (h, c) refl)
          λ c.
            call_cases P steps.install_pm2 _ _ (λ e i. rw (h, c, i) refl)
              λ _ i.
                call_cases P steps.write_pm2_config _ _ (λ e f. rw (h, c, i, f) refl)
                  λ _ f. elim (Result-cases steps.pm2_start) [
                    | inl (e, s) ↦ rw (h, c, i, f, s) refl
                    | inr s ↦ rw (h, c, i, f, s) refl
                  ]
  where
    P : Attempt (Unit {0}) × Progress → Type 0
    P o = caught o ≡ (
      if not (is_rest_done steps none network config_path) then some lisk_core_start else none,
      record copy_done { is_started = is_rest_done steps none network config_path },
    )

-- If a port is taken, or its check throws, the start fails with the code 3 before anything is done. If
-- not, the code is that of the step that fails first: 4 for the backup, 5 for the copy, and 3 for the
-- start command, the user's confirmation, the installation of PM2, its file and its start; and none where
-- none of them fails. What is done is what comes before the step that fails.
pub start_lisk_core_lem :
    (steps : StartSteps) (port : Option ℕ) (network config_path : Text)
    → start_lisk_core steps port network config_path ≡ (
      expected_code steps port network config_path,
      expected_progress steps port network config_path,
    )
unfolding start_lisk_core ◌>>=◌
start_lisk_core_lem steps port network config_path =
    call_cases P (steps.is_port_available (or_port default_port_p2p port)) _ _ (λ e h1. rw h1 refl)
      λ p2p h1.
        require_cases P p2p _ _ (λ e b1. rw (h1, b1) refl)
          λ b1.
            call_cases P (steps.is_port_available (or_port default_port_rpc port)) _ _
              (λ e h2. rw (h1, b1, h2) refl)
              λ rpc h2.
                require_cases P rpc _ _ (λ e b2. rw (h1, b1, h2, b2) refl)
                  λ b2. elim (Result-cases steps.backup) [
                    | inl (e, u) ↦ rw (h1, b1, h2, b2, u) refl
                    | inr u ↦ elim (Result-cases steps.copy) [
                      | inl (e, c) ↦ rw (h1, b1, h2, b2, u, c) refl
                      | inr c ↦
                          rw (h1, b1, h2, b2, u, c) (start_with_pm2_lem steps network config_path)
                    ]
                  ]
  where
    P : Attempt (Unit {0}) × Progress → Type 0
    P = Expected steps port network config_path

-- The outcomes, of the code and of what was done.
abbrev pub Tells : Option ℕ × Progress → Type 0
Tells o =
    (o ≡ (some lisk_core_start, nothing_done))
    ⊎ (o ≡ (none, all_done))
    ⊎ (o ≡ (some backup_legacy_data_dir, nothing_done))
    ⊎ (o ≡ (some copy_legacy_db, backup_done))
    ⊎ (o ≡ (some lisk_core_start, copy_done))

pub start_lisk_core-Tells :
    (steps : StartSteps) (port : Option ℕ) (network config_path : Text)
    → Tells (start_lisk_core steps port network config_path)
start_lisk_core-Tells steps port network config_path =
    subst Tells (sym (start_lisk_core_lem steps port network config_path))
      (elim (Bool-cases (are_ports_free steps port network config_path)) [
        | inr taken ↦ inl (rw taken refl)
        | inl free ↦ elim (Bool-cases (throws steps.backup)) [
          | inl b ↦ inr (inr (inl (rw (free, b) refl)))
          | inr b ↦ elim (Bool-cases (throws steps.copy)) [
            | inl c ↦ inr (inr (inr (inl (rw (free, b, c) refl))))
            | inr c ↦ elim (Bool-cases (is_rest_done steps port network config_path)) [
              | inl d ↦ inr (inl (rw (free, b, c, d) refl))
              | inr d ↦ inr (inr (inr (inr (rw (free, b, c, d) refl))))
            ]
          ]
        ]
      ])

-- How far the steps came, with the code.
abbrev pub Ends : StartSteps → Option ℕ × Progress → Type 0
Ends steps (code, progress) =
    ((progress.is_backed_up ≡ false)
      × ((code ≡ some lisk_core_start) ⊎ (code ≡ some backup_legacy_data_dir)))
    ⊎ ((progress.is_backed_up ≡ true)
        × (throws steps.backup ≡ false)
        × (((throws steps.copy ≡ true) × (code ≡ some copy_legacy_db))
            ⊎ ((throws steps.copy ≡ false) × ((code ≡ none) ⊎ (code ≡ some lisk_core_start)))))

pub start_lisk_core-Ends :
    (steps : StartSteps) (port : Option ℕ) (network config_path : Text)
    → Ends steps (start_lisk_core steps port network config_path)
start_lisk_core-Ends steps port network config_path =
    subst (Ends steps) (sym (start_lisk_core_lem steps port network config_path))
      (elim (Bool-cases (are_ports_free steps port network config_path)) [
        | inr taken ↦ inl (rw taken (refl, inl refl))
        | inl free ↦ elim (Bool-cases (throws steps.backup)) [
          | inl b ↦ inl (rw (free, b) (refl, inr refl))
          | inr b ↦ inr (
              rw (free, b)
                (
                  refl,
                  refl,
                  (elim (Bool-cases (throws steps.copy)) [
                    | inl c ↦ inl (rw c (refl, refl))
                    | inr c ↦ inr (
                        rw c (
                          refl,
                          elim (Bool-cases (is_rest_done steps port network config_path)) [
                            | inl d ↦ inl (rw d refl)
                            | inr d ↦ inr (rw d refl)
                          ],
                        ))
                  ]),
                ))
        ]
      ])
