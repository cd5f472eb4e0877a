-- ===== src/Transition/Result.antt =====
-- What a transition that is built says, and that nothing in it is later than the current state.
use deepinsight.Prelude.{◌≡◌, ◌<◌, ◌≤◌, ◌≢◌, ◌↔◌, Option, none, some, In}
use deepinsight.Transition.State.{ResearchStateSnapshot, TimingSatelliteBuildInput}
use deepinsight.Transition.Outcome.{available, ResearchStateTransition}
use deepinsight.Transition.PointInTime.{IsPointInTime}
use deepinsight.Transition.Inputs.{AreKnown}
use deepinsight.Transition.Predecessor.{AreEarlier, IsNearest}

-- What every answer rests on.
pub record IsReplayable (inputs : TimingSatelliteBuildInput) : Type 0 where
  pub known : AreKnown inputs
  pub point_in_time : IsPointInTime inputs.current_state
  pub history : AreEarlier inputs.current_state inputs.historical_states

-- The two states that a transition compares, and its times.
pub record Connects (inputs : TimingSatelliteBuildInput) (previous : ResearchStateSnapshot)
    (t : ResearchStateTransition) : Type 0 where
  pub nearest : IsNearest inputs.current_state inputs.historical_states previous
  pub from : t.content.previous_state_id ≡ previous.research_state_id
  pub to : t.content.current_state_id ≡ inputs.current_state.research_state_id
  pub starts : t.content.previous_as_of ≡ previous.research_as_of
  pub forward : t.content.previous_as_of < t.content.current_as_of
  pub published : t.content.current_as_of ≤ t.available_at
  pub recorded : t.available_at ≤ t.created_at
  pub covered :
      (t.content.coverage_status ≡ available)
      ↔ ((t.content.logic_stage_from ≢ none) × (t.content.logic_stage_to ≢ none))

-- The answer: no transition for an asset without history, else one from its latest state.
abbrev pub Describes : TimingSatelliteBuildInput → Option ResearchStateTransition → Type 0
Describes inputs none =
    (s : ResearchStateSnapshot)
    → In s inputs.historical_states
    → s.asset_id ≢ inputs.current_state.asset_id
Describes inputs (some t) = (previous : ResearchStateSnapshot) × Connects inputs previous t

-- The order of the times of a transition.
AreOrdered : ResearchStateTransition → Type 0
AreOrdered t =
    (t.content.previous_as_of < t.content.current_as_of)
    × (t.content.current_as_of ≤ t.available_at)
    × (t.available_at ≤ t.created_at)
