-- ===== src/Transition/PointInTime.antt =====
-- What the checks of the transition builder make sure of: nothing is later than the cutoff.
use deepinsight.Prelude.{◌≡◌, ◌<◌, ◌≤◌, true, arith, false, In, inl, inr, refl, ◌==◌, if◌then◌else◌}
use deepinsight.Temporal.DateTime.{Instant}
use deepinsight.Temporal.Metadata.{generic, TemporalMetadata}
use deepinsight.Temporal.Access.{historical_replay}
use deepinsight.Temporal.Visibility.{IsVisible, usable_iff_IsVisible}
use deepinsight.Transition.State.{
  Feature, section_names, ResearchStateSnapshot, SectionName, identity, macro_state, sector_state,
  industry_chain_state, fundamental_state, valuation_state, technical_state, sentiment_state,
  event_state, market_context_state, debate_state, risk_state, thesis_state, data_quality_state,
  memory_context_state,
}
use deepinsight.Transition.Collections.{built, build_error}
use deepinsight.Transition.Select.{
  snapshot_at, known_at, event_at, validate_access, validate_feature, validate_state_at_own_cutoff,
  validate_earlier,
}
use deepinsight.Transition.Passing.{>>-eq-built, for_each-eq-built, for_each-built}

pub validate_access-IsVisible :
    (m : TemporalMetadata) (c : Instant)
    → validate_access m c ≡ built tt
    → IsVisible m historical_replay true c
unfolding validate_access
validate_access-IsVisible m c h = (usable_iff_IsVisible m c true historical_replay).0 (ground arith)

snapshot-le : (t c : Instant) → validate_access (snapshot_at t) c ≡ built tt → t ≤ c
snapshot-le t c h = (validate_access-IsVisible (snapshot_at t) c h).snapshot

-- Every feature of the state was known at the state's own cutoff.
abbrev pub IsPointInTime : ResearchStateSnapshot → Type 0
IsPointInTime state =
    (name : SectionName) (f : Feature)
    → In f (state.section name).features
    → known_at f ≤ state.research_as_of

pub is_section : (name : SectionName) → In name section_names
is_section identity = inl refl
is_section macro_state = inr (inl refl)
is_section sector_state = inr (inr (inl refl))
is_section industry_chain_state = inr (inr (inr (inl refl)))
is_section fundamental_state = inr (inr (inr (inr (inl refl))))
is_section valuation_state = inr (inr (inr (inr (inr (inl refl)))))
is_section technical_state = inr (inr (inr (inr (inr (inr (inl refl))))))
is_section sentiment_state = inr (inr (inr (inr (inr (inr (inr (inl refl)))))))
is_section event_state = inr (inr (inr (inr (inr (inr (inr (inr (inl refl))))))))
is_section market_context_state = inr (inr (inr (inr (inr (inr (inr (inr (inr (inl refl)))))))))
is_section debate_state = inr (inr (inr (inr (inr (inr (inr (inr (inr (inr (inl refl))))))))))
is_section risk_state = inr (inr (inr (inr (inr (inr (inr (inr (inr (inr (inr (inl refl)))))))))))
is_section thesis_state =
    inr (inr (inr (inr (inr (inr (inr (inr (inr (inr (inr (inr (inl refl))))))))))))
is_section data_quality_state =
    inr (inr (inr (inr (inr (inr (inr (inr (inr (inr (inr (inr (inr (inl refl)))))))))))))
is_section memory_context_state =
    inr (inr (inr (inr (inr (inr (inr (inr (inr (inr (inr (inr (inr (inr (inl refl))))))))))))))

pub validate_state_at_own_cutoff-IsPointInTime :
    (state : ResearchStateSnapshot)
    → validate_state_at_own_cutoff state ≡ built tt
    → IsPointInTime state
unfolding validate_state_at_own_cutoff validate_feature
validate_state_at_own_cutoff-IsPointInTime state h name f n =
    (validate_access-IsVisible (event_at _ f.as_of (known_at f)) state.research_as_of (
      for_each-eq-built (validate_feature state.research_as_of) (state.section name).features
        (for_each-eq-built _ section_names h name (is_section name)) f n)).available

validate_feature-built :
    (c : Instant) (f : Feature) → known_at f ≤ c → validate_feature c f ≡ built tt
unfolding validate_feature validate_access
validate_feature-built c f h =
    let allowed =
      (usable_iff_IsVisible (event_at generic f.as_of (known_at f)) c true historical_replay).1
        (record {
          available = h;
          ingested = tt;
          snapshot = tt;
          started = tt;
          running = tt;
          attributed = λ _. inl (λ e. cc e);
        }) in
    cc

pub IsPointInTime→validate_state_at_own_cutoff :
    (state : ResearchStateSnapshot)
    → IsPointInTime state
    → validate_state_at_own_cutoff state ≡ built tt
unfolding validate_state_at_own_cutoff
IsPointInTime→validate_state_at_own_cutoff state h = for_each-built _ section_names (λ name _.
    for_each-built (validate_feature state.research_as_of) (state.section name).features
      (λ f m. validate_feature-built state.research_as_of f (h name f m)))

snapshot-built : (t c : Instant) → t ≤ c → validate_access (snapshot_at t) c ≡ built tt
unfolding validate_access
snapshot-built t c h =
    let allowed = (usable_iff_IsVisible (snapshot_at t) c true historical_replay).1 (record {
      available = tt;
      ingested = tt;
      snapshot = h;
      started = tt;
      running = tt;
      attributed = λ _. inr (inr (inl (λ e. cc e)));
    }) in
    cc

-- What the loop asks of a state of the current asset.
pub record IsEarlier (current state : ResearchStateSnapshot) : Type 0 where
  pub earlier : state.research_as_of < current.research_as_of
  pub point_in_time : IsPointInTime state

-- The guard against a state of the same time, with the access check of the snapshot.
guard-lt :
    (current state : ResearchStateSnapshot)
    → (if state.research_as_of == current.research_as_of
        then build_error
        else validate_access (snapshot_at state.research_as_of) current.research_as_of)
      ≡ built tt
    → state.research_as_of < current.research_as_of
guard-lt current state h = ground (arith, snapshot-le state.research_as_of current.research_as_of)

pub validate_earlier-IsEarlier :
    (current state : ResearchStateSnapshot)
    → validate_earlier current state ≡ built tt
    → IsEarlier current state
unfolding validate_earlier
validate_earlier-IsEarlier current state h =
    let (own, guarded) = >>-eq-built (validate_state_at_own_cutoff state) _ h in
    record {
      earlier = guard-lt current state guarded;
      point_in_time = validate_state_at_own_cutoff-IsPointInTime state own;
    }

pub IsEarlier→validate_earlier :
    (current state : ResearchStateSnapshot)
    → IsEarlier current state
    → validate_earlier current state ≡ built tt
unfolding validate_earlier
IsEarlier→validate_earlier current state h =
    let own = IsPointInTime→validate_state_at_own_cutoff state h.point_in_time in
    let other : (state.research_as_of == current.research_as_of) ≡ false =
      ground (arith, h.earlier) in
    let seen =
      snapshot-built state.research_as_of current.research_as_of (ground (arith, h.earlier)) in
    cc
