-- ===== src/Utils/Chain/Observe.antt =====
-- `observeChainHeight` of src/utils/chain.ts: when it resolves, and to which height.
use lisk_migrator.Common.{
  ◌≤◌, ◌<◌, ◌≡◌, refl, List, [], ◌∷◌, ◌++◌, map, true, false, Result, ok, err, Error, leb, arith,
  ◌∙◌, ap, sym, append-nil,
}
use lisk_migrator.Common.Predicates.{All}
use lisk_migrator.Utils.Chain.{
  NodeInfo, ObserveParams, height_of, waiting, resolved, rejected, check_height,
  observe_chain_height,
}

-- The answers are all below the observed height.
abbrev pub AreBelow : ObserveParams → List NodeInfo → Type 0
AreBelow options = All (λ info. height_of options info < options.observed_height)

below-leb :
    (options : ObserveParams) (info : NodeInfo)
    → height_of options info < options.observed_height
    → leb options.observed_height (height_of options info) ≡ false
below-leb options info h = ground arith

reached-leb :
    (options : ObserveParams) (info : NodeInfo)
    → options.observed_height ≤ height_of options info
    → leb options.observed_height (height_of options info) ≡ true
reached-leb options info h = ground arith

check_height-below :
    (options : ObserveParams) (before : List NodeInfo) (rest : List (Result NodeInfo))
    → AreBelow options before
    → check_height options (map ok before ++ rest) ≡ check_height options rest
unfolding check_height
check_height-below options [] rest h = refl
check_height-below options (info ∷ before) rest h =
    rw (below-leb options info h.0, check_height) (check_height-below options before rest h.1)

observe-below :
    (options : ObserveParams) (first : NodeInfo) (before : List NodeInfo)
    (rest : List (Result NodeInfo))
    → AreBelow options (first ∷ before)
    → observe_chain_height options (map ok (first ∷ before) ++ rest) ≡ check_height options rest
unfolding observe_chain_height
observe-below options first before rest h =
    rw (below-leb options first h.0) (check_height-below options before rest h.1)

-- What the observation comes to when the node's answers have been below the observed height, the
-- first one and those that follow it: with no further answer it is waiting, at a failing answer
-- it is rejected with its error, and at an answer that has reached the height it is resolved to the
-- observed height, whatever the later answers are. If the very first answer has reached the height,
-- the result is that answer's height.
pub observe_chain_height_lem :
    (options : ObserveParams) (first info : NodeInfo) (before : List NodeInfo) (e : Error)
    (rest : List (Result NodeInfo))
    → AreBelow options (first ∷ before)
    → options.observed_height ≤ height_of options info
    → (observe_chain_height options (map ok (first ∷ before)) ≡ waiting)
      × (observe_chain_height options (map ok (first ∷ before) ++ (err e ∷ rest)) ≡ rejected e)
      × (observe_chain_height options (map ok (first ∷ before) ++ (ok info ∷ rest))
          ≡ resolved options.observed_height)
      × (observe_chain_height options (ok info ∷ rest) ≡ resolved (height_of options info))
unfolding observe_chain_height check_height
observe_chain_height_lem options first info before e rest h r = (
  ap (observe_chain_height options) (sym (append-nil (map ok (first ∷ before))))
      ∙ observe-below options first before [] h,
  observe-below options first before (err e ∷ rest) h,
  observe-below options first before (ok info ∷ rest) h
      ∙ rw (reached-leb options info r, check_height) refl,
  rw (reached-leb options info r) refl,
)
