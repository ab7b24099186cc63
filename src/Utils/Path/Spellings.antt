-- ===== src/Utils/Path/Spellings.antt =====
-- The output paths that `verifyOutputPath` of src/utils/path.ts lets pass.
use lisk_migrator.Common.{
  ◌≢◌, ◌≡◌, refl, [], ◌∷◌, ◌++◌, true, false, Text, codes, same, ok, err, arith,
  output_path_not_allowed,
}
use lisk_migrator.Utils.Node.{starts_with, ends_in}
use lisk_migrator.Utils.Path.{
  System, segments, is_absolute, go, go_all, normalize, resolve_absolute_path, verify_output_path,
}

-- A system whose home directory is absolute.
abbrev pub system_of : Text → Text → System
system_of h cwd = record { homedir = codes "/" ++ h; cwd = cwd }

-- A path that continues the data directory of Lisk Core.
abbrev pub below_core : Text → Text → Text
below_core h rest = codes "/" ++ h ++ codes "/.lisk/lisk-core" ++ rest

starts_with-append : (prefix rest : Text) → starts_with prefix (prefix ++ rest) ≡ true
unfolding starts_with
starts_with-append [] rest = refl
starts_with-append (c ∷ prefix) rest = ground (arith, starts_with-append prefix rest)

normalize_dot : (path : Text) → normalize (codes "/./" ++ path) ≡ normalize (codes "/" ++ path)
unfolding normalize segments go_all go is_absolute starts_with ends_in same
normalize_dot path = refl

-- Another start of the path.
starts_with-dot :
    (h core rest : Text)
    → starts_with (codes ".") h ≡ false
    → starts_with (codes ".") core ≡ false
    → core ≢ []
    → starts_with (h ++ core) (46 ∷ rest) ≡ false
unfolding starts_with
starts_with-dot [] [] rest plain other some_core = absurd (some_core refl)
starts_with-dot [] (d ∷ core) rest plain other some_core = ground arith
starts_with-dot (c ∷ h) core rest plain other some_core = ground arith

-- Where the home directory is absolute and its name does not start with a dot, every path that starts
-- with the text of the data directory of Lisk Core is refused as the output path, but its spelling with
-- `/.` before it, which normalizes to the same path, is let pass.
pub verify_output_path_respelled :
    (h cwd rest : Text)
    → starts_with (codes ".") h ≡ false
    → (verify_output_path (system_of h cwd) (below_core h rest) ≡ err output_path_not_allowed)
      × (verify_output_path (system_of h cwd) (codes "/." ++ below_core h rest) ≡ ok tt)
      × (normalize (codes "/." ++ below_core h rest) ≡ normalize (below_core h rest))
unfolding verify_output_path resolve_absolute_path is_absolute starts_with
verify_output_path_respelled h cwd rest plain = (
  rw (starts_with-append (h ++ codes "/.lisk/lisk-core") rest) refl,
  rw (starts_with-dot h (codes "/.lisk/lisk-core") _ plain refl (λ e. cc)) refl,
  normalize_dot (h ++ codes "/.lisk/lisk-core" ++ rest),
)
