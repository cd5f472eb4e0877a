-- ===== src/Transition/Select.antt =====
-- The point-in-time checks of the transition builder, and its choice of a predecessor.
use deepinsight.Prelude.{
  Bool, true, ◌||◌, ◌&&◌, Option, none, some, List, [], ◌∷◌, same_text, text_lt, ltb, ◌==◌,
  if◌then◌else◌,
}
use deepinsight.Temporal.DateTime.{Instant}
use deepinsight.Temporal.Metadata.{
  TemporalMetadata, TemporalSourceKind, at, generic, memory, research_evidence,
}
use deepinsight.Temporal.Access.{historical_replay, decide_at}
use deepinsight.Transition.State.{
  Feature, section_names, ResearchStateSnapshot, TimingEventReference, MemorySearchResult,
  TimingSatelliteBuildInput,
}
use deepinsight.Transition.Collections.{Built, built, leakage, build_error, ◌>>=◌, ◌>>◌, for_each}

abbrev unset : TemporalSourceKind → TemporalMetadata
unset kind = record {
  source_kind = kind;
  event_time = none;
  period_start = none;
  period_end = none;
  published_at = none;
  available_at = none;
  ingested_at = none;
  effective_from = none;
  effective_to = none;
  as_of = none;
}

-- TemporalMetadata(as_of=...)
abbrev pub snapshot_at : Instant → TemporalMetadata
snapshot_at t = record (unset generic) { as_of = some t }

-- TemporalMetadata(event_time=..., available_at=...)
abbrev pub event_at : TemporalSourceKind → Instant → Instant → TemporalMetadata
event_at kind event_time available_at = record (unset kind) {
  event_time = some event_time;
  available_at = some available_at;
}

-- `validate_temporal_access` at its defaults.
unfoldable pub validate_access : TemporalMetadata → Instant → Built (Unit {0})
validate_access m cutoff =
    if (decide_at m cutoff true historical_replay).is_usable
    then built tt
    else leakage (decide_at m cutoff true historical_replay)

-- `feature.available_at or feature.as_of`
abbrev pub known_at : Feature → Instant
known_at f = elim f.available_at [ none ↦ f.as_of | some t ↦ t ]

unfoldable pub validate_feature : Instant → Feature → Built (Unit {0})
validate_feature cutoff f = validate_access (event_at generic f.as_of (known_at f)) cutoff

unfoldable pub validate_state_at_own_cutoff : ResearchStateSnapshot → Built (Unit {0})
validate_state_at_own_cutoff state =
    for_each
      (λ name. for_each (validate_feature state.research_as_of) (state.section name).features)
      section_names

-- The checks of an outcome that is given.
unfoldable pub validate_outcome :
    Instant → (event_time : Instant) → Option Instant → Built (Unit {0})
validate_outcome cutoff event_time none = built tt
validate_outcome cutoff event_time (some t) =
    validate_access (event_at research_evidence event_time t) cutoff
    >> (if ltb cutoff event_time then build_error else built tt)

-- The checks of one event.
unfoldable pub validate_event : Instant → TimingEventReference → Built (Unit {0})
validate_event cutoff e =
    validate_access (event_at research_evidence e.event_time e.available_at) cutoff
    >> validate_outcome cutoff e.event_time e.outcome_available_at

-- The stated availability, or that of the metadata.
abbrev pub memory_available_at : MemorySearchResult → Option Instant
memory_available_at m = elim m.available_at [
  | some t ↦ some t
  | none ↦ elim m.metadata [ none ↦ none | some x ↦ x.temporal_available_at ]
]

unfoldable pub validate_memory : Instant → MemorySearchResult → Built (Unit {0})
validate_memory cutoff m =
    validate_access
      (record (unset memory) {
        available_at = memory_available_at m;
        effective_from = some (at m.effective_ts);
      })
      cutoff

unfoldable pub validate_external_inputs : TimingSatelliteBuildInput → Built (Unit {0})
validate_external_inputs inputs = do
  for_each (validate_event inputs.current_state.research_as_of) inputs.events
  for_each (validate_memory inputs.current_state.research_as_of) inputs.retrieved_memories

-- The body of the loop over the historical states, for a state of the current asset.
unfoldable pub validate_earlier : ResearchStateSnapshot → ResearchStateSnapshot → Built (Unit {0})
validate_earlier current state =
    validate_state_at_own_cutoff state
    >> (if state.research_as_of == current.research_as_of
        then build_error
        else validate_access (snapshot_at state.research_as_of) current.research_as_of)

unfoldable pub eligible_states :
    ResearchStateSnapshot → List ResearchStateSnapshot → Built (List ResearchStateSnapshot)
eligible_states current [] = built []
eligible_states current (state ∷ states) =
    let rest = eligible_states current states in
    if same_text state.asset_id current.asset_id
    then (do validate_earlier current state; others ← rest; built (state ∷ others))
    else rest

-- The order of `(research_as_of, research_state_id)`.
unfoldable pub is_before : ResearchStateSnapshot → ResearchStateSnapshot → Bool
is_before a b =
    ltb a.research_as_of b.research_as_of
    || (a.research_as_of == b.research_as_of && text_lt a.research_state_id b.research_state_id)

-- `max(eligible, key=...)`: the first of the greatest.
unfoldable pub nearest : ResearchStateSnapshot → List ResearchStateSnapshot → ResearchStateSnapshot
nearest best [] = best
nearest best (state ∷ states) = nearest (if is_before best state then state else best) states

unfoldable pub nearest_of : List ResearchStateSnapshot → Option ResearchStateSnapshot
nearest_of [] = none
nearest_of (state ∷ states) = some (nearest state states)

unfoldable pub select_predecessor :
    ResearchStateSnapshot → List ResearchStateSnapshot → Built (Option ResearchStateSnapshot)
select_predecessor current states = do
  validate_state_at_own_cutoff current
  eligible ← eligible_states current states
  built (nearest_of eligible)
