-- ===== src/Utils/Chain.antt =====
-- src/utils/chain.ts: the network's constants, the display of durations, and the observation of the
-- chain's height. The node is behind its API client: its answers are a list, in order.
pub mod Duration
pub mod Observe
use lisk_migrator.Common.{
  ℕ, zero, suc, ◌+◌, ◌-◌, ◌*◌, ◌/◌, ◌%◌, List, [], ◌∷◌, ◌++◌, Bool, true, false, Option, none, some,
  Text, codes, same, ltb, leb, if◌then◌else◌, Result, ok, err, Error, undefined_property,
}
use lisk_migrator.Common.Dict.{lookup}
use lisk_migrator.Common.Int.{ℤ, pos, negsuc, sub_ℕ}
use lisk_migrator.Constants.{network_constant}
use lisk_migrator.Encoding.Decimal.{decimal}

-- The two variables of the module.
pub record ChainState : Type 0 where
  pub token_id_lsk : Option Text
  pub prev_snapshot_block_height : Option ℕ

unfoldable pub set_token_id_lsk_by_net_id : Text → ChainState → Result ChainState
set_token_id_lsk_by_net_id network_identifier state =
    elim (lookup same network_identifier network_constant) [
      | none ↦ err undefined_property
      | some info ↦ ok (record {
        token_id_lsk = some info.token_id;
        prev_snapshot_block_height = state.prev_snapshot_block_height;
      })
    ]

unfoldable pub set_prev_snapshot_block_height_by_net_id : Text → ChainState → Result ChainState
set_prev_snapshot_block_height_by_net_id network_identifier state =
    elim (lookup same network_identifier network_constant) [
      | none ↦ err undefined_property
      | some info ↦ ok (record {
        token_id_lsk = state.token_id_lsk;
        prev_snapshot_block_height = some info.prev_snapshot_block_height;
      })
    ]

-- `-n`
unfoldable pub negated : ℕ → ℤ
negated zero = pos 0
negated (suc n) = negsuc n

-- `%`, which takes the sign of the dividend.
unfoldable pub remainder : ℤ → ℕ → ℤ
unfolding negated
remainder (pos n) d = pos (n % d)
remainder (negsuc n) d = negated (suc n % d)

unfoldable pub times : ℤ → ℕ → ℤ
unfolding negated
times (pos n) k = pos (n * k)
times (negsuc n) k = negated (suc n * k)

-- `Math.floor(seconds / d)`
unfoldable pub floor_div : ℤ → ℕ → ℤ
floor_div (pos n) d = pos (n / d)
floor_div (negsuc n) d = negsuc (n / d)

-- `if (value > 0) result.push(...)`, in front of what is pushed later.
unfoldable pub push_unit : ℤ → Text → List Text → List Text
push_unit (pos zero) unit result = result
push_unit (pos (suc n)) unit result = (decimal (suc n) ++ unit) ∷ result
push_unit (negsuc n) unit result = result

-- `result.join(' ')`
unfoldable pub join_spaced : List Text → Text
join_spaced [] = []
join_spaced (s ∷ []) = s
join_spaced (s ∷ t ∷ rest) = s ++ codes " " ++ join_spaced (t ∷ rest)

unfoldable pub or_zero : List Text → Text
unfolding join_spaced
or_zero [] = codes "0"
or_zero (s ∷ rest) = join_spaced (s ∷ rest)

unfoldable pub seconds_to_human_string : ℤ → Text
unfolding remainder floor_div push_unit or_zero
seconds_to_human_string seconds =
    let years = floor_div seconds 31536000 in
    let days = floor_div (remainder seconds 31536000) 86400 in
    let hours = floor_div (remainder (remainder seconds 31536000) 86400) 3600 in
    let minutes = floor_div (remainder (remainder (remainder seconds 31536000) 86400) 3600) 60 in
    let num_seconds =
      remainder (remainder (remainder (remainder seconds 31536000) 86400) 3600) 60 in
    or_zero (
      push_unit years (codes "y") (
        push_unit days (codes "d") (
          push_unit hours (codes "h")
            (push_unit minutes (codes "m") (push_unit num_seconds (codes "s") [])))))

unfoldable pub get_remaining_time : ℕ → ℕ → Text
unfolding seconds_to_human_string times
get_remaining_time current_height observed_height =
    seconds_to_human_string (times (sub_ℕ observed_height current_height) 10)

pub record NodeInfo : Type 0 where
  pub height : ℕ
  pub finalized_height : ℕ

pub record ObserveParams : Type 0 where
  pub observed_height : ℕ
  pub is_final : Bool

abbrev pub height_of : ObserveParams → NodeInfo → ℕ
height_of options info = if options.is_final then info.finalized_height else info.height

-- What the observation has come to once the node has given its answers.
pub data Outcome : Type 0 where
  waiting : Outcome
  resolved : ℕ → Outcome
  rejected : Error → Outcome

-- `checkHeight`, run at each interval: it resolves at the first answer that has reached the height,
-- after which the function returns the observed height.
unfoldable pub check_height : ObserveParams → List (Result NodeInfo) → Outcome
check_height options [] = waiting
check_height options (err e ∷ rest) = rejected e
check_height options (ok info ∷ rest) =
    elim (leb options.observed_height (height_of options info)) [
      | true ↦ resolved options.observed_height
      | false ↦ check_height options rest
    ]

unfoldable pub observe_chain_height : ObserveParams → List (Result NodeInfo) → Outcome
unfolding check_height
observe_chain_height options [] = waiting
observe_chain_height options (err e ∷ rest) = rejected e
observe_chain_height options (ok info ∷ rest) =
    if leb options.observed_height (height_of options info)
    then resolved (height_of options info)
    else check_height options rest
