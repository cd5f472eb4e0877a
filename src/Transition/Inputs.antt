-- ===== src/Transition/Inputs.antt =====
-- What the checks of the events and memories of a transition make sure of.
use deepinsight.Prelude.{◌≡◌, ◌≤◌, Option, none, some, arith, In}
use deepinsight.Temporal.DateTime.{Instant}
use deepinsight.Temporal.Metadata.{research_evidence}
use deepinsight.Temporal.Visibility.{AtMost}
use deepinsight.Transition.State.{
  TimingEventReference, MemorySearchResult, TimingSatelliteBuildInput,
}
use deepinsight.Transition.Collections.{built, for_each}
use deepinsight.Transition.Select.{
  event_at, validate_access, validate_event, validate_outcome, validate_memory, memory_available_at,
  validate_external_inputs,
}
use deepinsight.Transition.Passing.{>>-eq-built, for_each-eq-built}
use deepinsight.Transition.PointInTime.{validate_access-IsVisible}

-- An outcome that is given was known at the cutoff, and so was its event over.
abbrev pub IsKnownOutcome : Instant → (event_time : Instant) → Option Instant → Type 0
IsKnownOutcome cutoff event_time none = Unit
IsKnownOutcome cutoff event_time (some t) = (t ≤ cutoff) × (event_time ≤ cutoff)

pub record IsKnownEvent (cutoff : Instant) (e : TimingEventReference) : Type 0 where
  pub available : e.available_at ≤ cutoff
  pub outcome : IsKnownOutcome cutoff e.event_time e.outcome_available_at

-- The memory had begun to hold, and is not said to have come later.
pub record IsKnownMemory (cutoff : Instant) (m : MemorySearchResult) : Type 0 where
  pub begun : m.effective_ts ≤ cutoff
  pub available : AtMost (memory_available_at m) cutoff

event-le :
    (cutoff event_time t : Instant)
    → validate_access (event_at research_evidence event_time t) cutoff ≡ built tt
    → t ≤ cutoff
event-le cutoff event_time t h =
    (validate_access-IsVisible (event_at research_evidence event_time t) cutoff h).available

validate_outcome-IsKnownOutcome :
    (cutoff event_time : Instant) (o : Option Instant)
    → validate_outcome cutoff event_time o ≡ built tt
    → IsKnownOutcome cutoff event_time o
unfolding validate_outcome
validate_outcome-IsKnownOutcome cutoff event_time none h = tt
validate_outcome-IsKnownOutcome cutoff event_time (some t) h =
    let (seen, over) =
      >>-eq-built (validate_access (event_at research_evidence event_time t) cutoff) _ h in
    (event-le cutoff event_time t seen, ground arith)

validate_event-IsKnownEvent :
    (cutoff : Instant) (e : TimingEventReference)
    → validate_event cutoff e ≡ built tt
    → IsKnownEvent cutoff e
unfolding validate_event
validate_event-IsKnownEvent cutoff e h =
    let (seen, rest) =
      >>-eq-built (validate_access (event_at research_evidence e.event_time e.available_at) cutoff)
        _ h in
    record {
      available = event-le cutoff e.event_time e.available_at seen;
      outcome = validate_outcome-IsKnownOutcome cutoff e.event_time e.outcome_available_at rest;
    }

validate_memory-IsKnownMemory :
    (cutoff : Instant) (m : MemorySearchResult)
    → validate_memory cutoff m ≡ built tt
    → IsKnownMemory cutoff m
unfolding validate_memory
validate_memory-IsKnownMemory cutoff m h =
    let visible = validate_access-IsVisible _ cutoff h in
    record { begun = visible.started; available = visible.available }

-- Every event and memory of the inputs was known at the current state's cutoff.
pub record AreKnown (inputs : TimingSatelliteBuildInput) : Type 0 where
  pub events_known :
      (e : TimingEventReference)
      → In e inputs.events
      → IsKnownEvent inputs.current_state.research_as_of e
  pub memories_known :
      (m : MemorySearchResult)
      → In m inputs.retrieved_memories
      → IsKnownMemory inputs.current_state.research_as_of m

pub validate_external_inputs-AreKnown :
    (inputs : TimingSatelliteBuildInput)
    → validate_external_inputs inputs ≡ built tt
    → AreKnown inputs
unfolding validate_external_inputs
validate_external_inputs-AreKnown inputs h =
    let cutoff = inputs.current_state.research_as_of in
    let (events, memories) = >>-eq-built (for_each (validate_event cutoff) inputs.events) _ h in
    record {
      events_known = λ e m.
          validate_event-IsKnownEvent cutoff e (for_each-eq-built _ inputs.events events e m);
      memories_known = λ x m.
          validate_memory-IsKnownMemory cutoff x
            (for_each-eq-built _ inputs.retrieved_memories memories x m);
    }
