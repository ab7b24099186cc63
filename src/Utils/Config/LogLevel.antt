-- ===== src/Utils/Config/LogLevel.antt =====
-- `getLogLevel` of src/utils/config.ts: the log level that the v4 configuration gets.
use lisk_migrator.Common.{
  ℕ, zero, suc, ◌≤◌, ◌≡◌, refl, max, List, [], ◌∷◌, map, true, Option, some, Text, same, Bool-cases,
  inl, inr, arith, subst, sym, same→eq,
}
use lisk_migrator.Common.Dict.{lookup, contains}
use lisk_migrator.Common.Predicates.{All}
use lisk_migrator.Utils.Config.{
  LoggerConfig, log_level_priority, get_log_level, named_level, priority_of, to_upper, to_lower,
  level_text, or_info,
}

or_info-lookup :
    (k : Text) (entries : List (Text × ℕ))
    → All (λ e. e.1 ≤ 5) entries
    → or_info (lookup same k entries) ≤ 5
unfolding lookup
or_info-lookup k [] h = omega arith
or_info-lookup k ((j, p) ∷ entries) h = elim (Bool-cases (same k j)) [
  | inl e ↦ rw e h.0
  | inr e ↦ rw e (or_info-lookup k entries h.1)
]

priority_of-le : (level : Option Text) → priority_of level ≤ 5
unfolding priority_of
priority_of-le level =
    or_info-lookup (map to_upper (level_text level)) log_level_priority
      (omega arith, (omega arith, (omega arith, (omega arith, (omega arith, (omega arith, tt))))))

-- The six names, as they are returned.
abbrev pub IsLevelName : Text → Type 0
IsLevelName name = contains same name (map (λ e. map to_lower e.0) log_level_priority) ≡ true

named_level_lem :
    (p : ℕ) → p ≤ 5 → IsLevelName (named_level p) × (priority_of (some (named_level p)) ≡ p)
unfolding named_level priority_of to_upper to_lower contains same lookup
named_level_lem zero h = (refl, refl)
named_level_lem (suc zero) h = (refl, refl)
named_level_lem (suc (suc zero)) h = (refl, refl)
named_level_lem (suc (suc (suc zero))) h = (refl, refl)
named_level_lem (suc (suc (suc (suc zero)))) h = (refl, refl)
named_level_lem (suc (suc (suc (suc (suc zero))))) h = (refl, refl)
named_level_lem (suc (suc (suc (suc (suc (suc n)))))) h = absurd (omega arith)

-- For every logger configuration, the level returned is one of the six names in lower case, and its
-- own priority, read back, is the larger of the priorities of the file's and the console's levels.
pub get_log_level_lem :
    (c : LoggerConfig)
    → IsLevelName (get_log_level c)
      × (priority_of (some (get_log_level c))
          ≡ max (priority_of c.file_log_level) (priority_of c.console_log_level))
unfolding get_log_level
get_log_level_lem c =
    named_level_lem (max (priority_of c.file_log_level) (priority_of c.console_log_level))
      (ground (arith, priority_of-le c.file_log_level, priority_of-le c.console_log_level))

contains-All :
    (P : Text → Type 0) (k : Text) (names : List Text)
    → contains same k names ≡ true
    → All P names
    → P k
unfolding contains
contains-All P k [] h all = absurd (ground arith)
contains-All P k (name ∷ names) h all = elim (Bool-cases (same k name)) [
  | inl e ↦ subst P (sym (same→eq k name e)) all.0
  | inr e ↦ contains-All P k names (ground arith) all.1
]

-- A name is the level of the configuration that has it twice.
pub get_log_level-IsLevelName :
    (name : Text)
    → IsLevelName name
    → get_log_level (record { file_log_level = some name; console_log_level = some name }) ≡ name
unfolding get_log_level priority_of named_level to_upper to_lower same lookup
get_log_level-IsLevelName name h =
    contains-All Kept name _ h (refl, (refl, (refl, (refl, (refl, (refl, tt))))))
  where
    Kept : Text → Type 0
    Kept level =
        get_log_level (record { file_log_level = some level; console_log_level = some level })
        ≡ level
