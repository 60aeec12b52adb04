-- ===== src/Dev/Outcomes.antt =====
-- Which signals fail in the partial scenario: buildPartialOutcomes and its helpers in
-- internal/devsmartcar/devsmartcar.go.
pub mod Unique
pub mod Grown
pub mod Fallbacks
pub mod Laws
use toyotaview.Common.{
  Bool, true, false, not, ◌||◌, Option, none, some, List, [], ◌∷◌, Str, str, is_empty, Map, lookup,
  insert, mem, is_some, if◌then◌else◌,
}
use toyotaview.Common.Text.{trim_space}

pub data SignalOutcome : Type 0 where
  outcome_success outcome_unsupported outcome_unavailable outcome_error : SignalOutcome

unfoldable pub same_outcome : SignalOutcome → SignalOutcome → Bool
same_outcome outcome_success outcome_success = true
same_outcome outcome_unsupported outcome_unsupported = true
same_outcome outcome_unavailable outcome_unavailable = true
same_outcome outcome_error outcome_error = true
same_outcome _ _ = false

-- The code that the loop of uniqueSignalCodes appends for an entry, if any.
unfoldable pub fresh_code : List Str → Str → Option Str
fresh_code seen signal_code =
    let code = trim_space signal_code in
    if is_empty code then none else if mem code seen then none else some code

-- The loop of uniqueSignalCodes.
unfoldable pub unique_codes : List Str → List Str → List Str
unique_codes seen [] = []
unique_codes seen (c ∷ codes) = elim (fresh_code seen c) [
  | none ↦ unique_codes seen codes
  | some code ↦ code ∷ unique_codes (code ∷ seen) codes
]

unfoldable pub unique_signal_codes : List Str → List Str
unfolding unique_codes
unique_signal_codes signal_codes = unique_codes [] signal_codes

unfoldable pub has_outcome : Map SignalOutcome → SignalOutcome → Bool
has_outcome [] outcome = false
has_outcome ((code, existing) ∷ outcomes) outcome =
    same_outcome existing outcome || has_outcome outcomes outcome

-- The loop of assignPreferredOutcome.
unfoldable pub assign_first :
    Map SignalOutcome → List Str → SignalOutcome → List Str → Map SignalOutcome
assign_first outcomes signal_codes outcome [] = outcomes
assign_first outcomes signal_codes outcome (preferred ∷ codes) =
    let rest = assign_first outcomes signal_codes outcome codes in
    if not (mem preferred signal_codes)
    then rest
    else if is_some (lookup preferred outcomes)
    then rest
    else insert preferred outcome outcomes

unfoldable pub assign_preferred_outcome :
    Map SignalOutcome → List Str → SignalOutcome → List Str → Map SignalOutcome
unfolding assign_first
assign_preferred_outcome outcomes signal_codes outcome preferred_codes =
    if has_outcome outcomes outcome
    then outcomes
    else assign_first outcomes signal_codes outcome preferred_codes

-- The inner loop of buildPartialOutcomes, over the fallbacks from `nextFallback` on; the second
-- component is what is left of them.
unfoldable pub take_fallback :
    Map SignalOutcome → Str → List SignalOutcome → Map SignalOutcome × List SignalOutcome
take_fallback outcomes code [] = (outcomes, [])
take_fallback outcomes code (outcome ∷ fallbacks) =
    let rest = take_fallback outcomes code fallbacks in
    if has_outcome outcomes outcome then rest else (insert code outcome outcomes, fallbacks)

-- The outer loop of buildPartialOutcomes.
unfoldable pub assign_fallbacks :
    Map SignalOutcome → List SignalOutcome → List Str → Map SignalOutcome
unfolding take_fallback
assign_fallbacks outcomes fallbacks [] = outcomes
assign_fallbacks outcomes fallbacks (code ∷ codes) = elim (lookup code outcomes) [
  | some taken ↦ assign_fallbacks outcomes fallbacks codes
  | none ↦
      let taken = take_fallback outcomes code fallbacks in
      elim taken.1 [
        | [] ↦ taken.0
        | outcome ∷ left ↦ assign_fallbacks taken.0 (outcome ∷ left) codes
      ]
]

abbrev pub fallback_outcomes : List SignalOutcome
fallback_outcomes = outcome_unsupported ∷ outcome_unavailable ∷ outcome_error ∷ []

-- The preferred codes of the outcomes.
abbrev pub unsupported_codes : List Str
unsupported_codes = str "diagnostics-dtclist" ∷ str "diagnostics-brakefluid" ∷ []

abbrev pub unavailable_codes : List Str
unavailable_codes = str "service-isinservice" ∷ str "internalcombustionengine-fuellevel" ∷ []

abbrev pub error_codes : List Str
error_codes = str "service-records" ∷ str "internalcombustionengine-range" ∷ []

-- The outcomes before the fallbacks.
unfoldable pub preferred_outcomes : List Str → Map SignalOutcome
unfolding assign_preferred_outcome
preferred_outcomes codes =
    assign_preferred_outcome
      (assign_preferred_outcome
        (assign_preferred_outcome [] codes outcome_unsupported unsupported_codes) codes
        outcome_unavailable unavailable_codes)
      codes outcome_error error_codes

unfoldable pub build_partial_outcomes : List Str → Map SignalOutcome
unfolding unique_signal_codes preferred_outcomes assign_fallbacks
build_partial_outcomes signal_codes =
    let codes = unique_signal_codes signal_codes in
    assign_fallbacks (preferred_outcomes codes) fallback_outcomes codes
