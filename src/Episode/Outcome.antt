-- ===== src/Episode/Outcome.antt =====
-- What a call of the builder does: which errors are left.
use deepinsight.Prelude.{
  ◌≡◌, refl, ap, ◌∙◌, String, Bool, true, false, ◌&&◌, length, ◌==◌, if◌then◌else◌, All,
}
use deepinsight.Transition.Collections.{all_different}
use deepinsight.Ontology.Checks.{
  Check, valid, invalid, assertion_failed, key_error, unfinished, ◌and_then◌, require,
}
use deepinsight.Episode.Records.{
  ResearchEpisodeTraceQuality, ResearchEpisodeBuildInput, complete, partial,
}
use deepinsight.Episode.Building.{
  ordered_unique, collect, is_complete, sum_of, run_ids, check_runs, check_sector_usage,
  check_inputs, quality_of, assemble,
}
use deepinsight.Episode.Validation.{
  accepted_of, rejected_of, check_episode_quality, validate_episode, returned_if, build,
}
use deepinsight.Episode.Quality.{
  IsValidTrace, is_empty-quality, check_quality-valid, all_complete-quality,
}
use deepinsight.Episode.Closure.{
  named, groups_reduced, run_index_valid, claim_index_valid, counts_valid, roles_valid,
}

-- A complete episode has as many claims as its traces count.
unfoldable pub retained_checks : ResearchEpisodeBuildInput → Check
unfolding sum_of ordered_unique collect
retained_checks inputs =
    let traces = inputs.agent_traces in
    require
      (sum_of (λ t. t.accepted_claim_count) traces == length (ordered_unique (accepted_of traces)))
      "complete Episode requires every accepted Claim ID"
    and_then require
        (sum_of (λ t. t.rejected_claim_count) traces
          == length (ordered_unique (rejected_of traces)))
        "complete Episode requires every rejected Claim ID"

-- What can still fail: the builder's checks of identities, repeated identifiers in the input, and
-- claims that a complete episode does not retain.
unfoldable pub remaining_checks : ResearchEpisodeBuildInput → Check
unfolding check_runs check_sector_usage quality_of retained_checks
remaining_checks inputs =
    check_runs inputs
    and_then check_sector_usage inputs
    and_then require
        (all_different (run_ids inputs.agent_traces) && all_different inputs.source_artifact_ids)
        "ResearchEpisode identities must be unique"
    and_then (if is_complete (quality_of inputs) then retained_checks inputs else valid)

and_then-valid : (c next : Check) → ((c and_then valid) and_then next) ≡ (c and_then next)
and_then-valid valid next = refl
and_then-valid (invalid message) next = refl
and_then-valid assertion_failed next = refl
and_then-valid key_error next = refl
and_then-valid unfinished next = refl

-- A last check that passes may be dropped.
and_then-passed :
    (a b next : Check)
    → ((a and_then b and_then valid) and_then next) ≡ (a and_then b and_then next)
and_then-passed valid b next = and_then-valid b next
and_then-passed (invalid message) b next = refl
and_then-passed assertion_failed b next = refl
and_then-passed key_error b next = refl
and_then-passed unfinished b next = refl

first : (a b : Bool) → (a && b) ≡ true → a ≡ true
first true b e = refl
first false b e = cc

module _ (fingerprint : ResearchEpisodeBuildInput → String) (inputs : ResearchEpisodeBuildInput)
    (h : All IsValidTrace inputs.agent_traces) where
  quality_reduced :
      (quality : ResearchEpisodeTraceQuality)
      → quality_of inputs ≡ quality
      → check_episode_quality quality (assemble fingerprint inputs)
        ≡ (if is_complete quality then retained_checks inputs else valid)
  unfolding check_episode_quality assemble retained_checks
  quality_reduced complete e =
      rw
        (
          is_empty-quality inputs h ∙ ap is_complete e,
          all_complete-quality inputs h (ap is_complete e),
        )
        refl
  quality_reduced partial e = rw (is_empty-quality inputs h ∙ ap is_complete e) refl

  quality_checked :
      check_episode_quality
        (assemble fingerprint inputs).trace_quality
        (assemble fingerprint inputs)
      ≡ (if is_complete (quality_of inputs) then retained_checks inputs else valid)
  unfolding assemble
  quality_checked = quality_reduced (quality_of inputs) refl

  -- The validator, for identifiers that are all different or not.
  validate_reduced :
      (different : Bool)
      → (all_different (run_ids inputs.agent_traces) && all_different inputs.source_artifact_ids)
        ≡ different
      → validate_episode (assemble fingerprint inputs) ≡ (
          require different "ResearchEpisode identities must be unique"
          and_then (if is_complete (quality_of inputs) then retained_checks inputs else valid))
  unfolding validate_episode
  validate_reduced false e = rw (groups_reduced fingerprint inputs ∙ ap named e) refl
  validate_reduced true e =
      rw
        (
          groups_reduced fingerprint inputs ∙ ap named e,
          run_index_valid fingerprint inputs (first _ _ e),
          claim_index_valid fingerprint inputs,
          counts_valid fingerprint inputs,
          roles_valid fingerprint inputs,
        )
        quality_checked

  checks_reduced :
      (check_inputs inputs and_then validate_episode (assemble fingerprint inputs))
      ≡ remaining_checks inputs
  unfolding check_inputs remaining_checks
  checks_reduced =
      rw (check_quality-valid inputs h, validate_reduced _ refl)
        (and_then-passed (check_runs inputs) (check_sector_usage inputs) _)

-- For traces that have passed their own validator, and whatever the fingerprint, the builder
-- returns the assembled episode unless, in this order, the runs differ from those of the state,
-- the sector usage is not covered by the state, a run or an artifact is repeated, or a complete
-- episode has fewer accepted or rejected claims than its traces count; it then raises that error.
-- None of the other errors of the builder and of the episode's validator occurs.
pub build_lem :
    (fingerprint : ResearchEpisodeBuildInput → String) (inputs : ResearchEpisodeBuildInput)
    → All IsValidTrace inputs.agent_traces
    → build fingerprint inputs ≡ returned_if (remaining_checks inputs) (assemble fingerprint inputs)
unfolding build
build_lem fingerprint inputs h =
    ap (λ checks. returned_if checks (assemble fingerprint inputs))
      (checks_reduced fingerprint inputs h)
