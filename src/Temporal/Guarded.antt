-- ===== src/Temporal/Guarded.antt =====
-- What `validate_temporal_access` of schemas/temporal.py returns and raises.
use deepinsight.Prelude.{◌≡◌, ◌≢◌, ◌⊎◌, Bool, true, false, none, arith, inl, inr}
use deepinsight.Temporal.DateTime.{
  DateTime, Instant, ValueFault, Checked, passed, value_error, overflow_error, require_utc_aware,
}
use deepinsight.Temporal.Metadata.{TemporalMetadata}
use deepinsight.Temporal.Access.{
  usable, TemporalAccessMode, rejected, decide_at, temporal_access_decision, Access, allowed,
  leaked, admit, validate_temporal_access,
}
use deepinsight.Temporal.Visibility.{IsVisible, usable_iff_IsVisible}
use deepinsight.Temporal.Normalized.{Reads, require_utc_aware_iff}

module _ (m : TemporalMetadata) (t : DateTime) (require : Bool) (mode : TemporalAccessMode) where
  abbrev pub Guards : Checked Access → Type 0
  Guards (passed (allowed d)) =
      Reads t d.research_as_of × IsVisible m mode require d.research_as_of × (d.reason ≡ usable)
  Guards (passed (leaked d)) =
      Reads t d.research_as_of
      × (¬ IsVisible m mode require d.research_as_of)
      × (d.reason ≢ usable)
      × (d.usable_at ≡ none)
  Guards (value_error e) = t.offset ≡ none
  Guards overflow_error = (t.offset ≢ none) × ((u : Instant) → ¬ Reads t u)

  decision_fields :
      (c : Instant)
      → ((decide_at m c require mode).research_as_of ≡ c)
        × ((decide_at m c require mode).is_usable ≡ true
            → (decide_at m c require mode).reason ≡ usable)
        × ((decide_at m c require mode).is_usable ≡ false
            → ((decide_at m c require mode).reason ≢ usable)
              × ((decide_at m c require mode).usable_at ≡ none))
  unfolding decide_at rejected
  decision_fields c = ground arith

  admit-Guards : (c : Instant) → Reads t c → Guards (passed (admit (decide_at m c require mode)))
  unfolding admit
  admit-Guards c h = ground (arith, decision_fields c, usable_iff_IsVisible m c require mode)

  utc_cases :
      ((u : Instant) × (require_utc_aware t ≡ passed u))
      ⊎ ((e : ValueFault) × (require_utc_aware t ≡ value_error e) × (t.offset ≡ none))
      ⊎ ((require_utc_aware t ≡ overflow_error) × (t.offset ≢ none))
  unfolding require_utc_aware
  utc_cases = ground arith

  -- validate_temporal_access returns a decision only for an object that is visible at the UTC
  -- cutoff, raises a leakage error only for one that is not, with a reason and no usable_at,
  -- raises ValueError only for a naive cutoff, and OverflowError only for an aware cutoff with no
  -- UTC reading in the calendar.
  pub validate_temporal_access-Guards : Guards (validate_temporal_access m t require mode)
  unfolding validate_temporal_access temporal_access_decision
  validate_temporal_access-Guards = elim utc_cases [
    | inl (c, e) ↦ rw e (admit-Guards c ((require_utc_aware_iff t c).0 e))
    | inr (inl (x, e, naive)) ↦ rw e naive
    | inr (inr (e, aware)) ↦ rw e (aware, λ u h. ground (arith, (require_utc_aware_iff t u).1 h))
  ]
