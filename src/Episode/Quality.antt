-- ===== src/Episode/Quality.antt =====
-- The missing metadata of an episode, for traces that have passed their own validator.
use deepinsight.Prelude.{
  ◌≡◌, refl, ap, ◌∙◌, sym, String, Bool, true, false, not, ◌&&◌, ◌||◌, List, [], ◌∷◌, ◌++◌,
  if◌then◌else◌, All,
}
use deepinsight.Ontology.Checks.{valid}
use deepinsight.Ontology.Passing.{and_then_iff, require_iff}
use deepinsight.Episode.Records.{
  ResearchEpisodeTraceQuality, complete, partial, AgentExecutionTrace, ResearchEpisodeBuildInput,
}
use deepinsight.Episode.Building.{
  ordered_unique, collect, is_empty, is_complete, all_complete, any_missing, quality_of,
  check_quality,
}
use deepinsight.Episode.Validation.{check_trace_quality, validate_trace}

abbrev pub IsValidTrace : AgentExecutionTrace → Type 0
IsValidTrace trace = validate_trace trace ≡ valid

is_empty-append : (xs ys : List String) → is_empty (xs ++ ys) ≡ (is_empty xs && is_empty ys)
is_empty-append [] ys = refl
is_empty-append (x ∷ xs) ys = refl

pub is_empty-ordered_unique : (xs : List String) → is_empty (ordered_unique xs) ≡ is_empty xs
unfolding ordered_unique
is_empty-ordered_unique [] = refl
is_empty-ordered_unique (x ∷ xs) = refl

refuted : (b : Bool) → not b ≡ true → b ≡ false
refuted true e = cc
refuted false e = refl

missing_iff_complete :
    (quality : ResearchEpisodeTraceQuality) (trace : AgentExecutionTrace)
    → check_trace_quality quality trace ≡ valid
    → is_empty trace.missing_metadata ≡ is_complete quality
missing_iff_complete complete trace e = (require_iff _ _).0 ((and_then_iff _ _).0 e).0
missing_iff_complete partial trace e =
    refuted (is_empty trace.missing_metadata) ((require_iff _ _).0 e)

-- A valid trace lacks metadata exactly if it is partial.
is_empty_complete :
    (trace : AgentExecutionTrace)
    → IsValidTrace trace
    → is_empty trace.missing_metadata ≡ is_complete trace.trace_quality
unfolding validate_trace
is_empty_complete trace e =
    let (_, rest) = (and_then_iff _ _).0 e in
    missing_iff_complete trace.trace_quality trace ((and_then_iff _ _).0 rest).1

abbrev pub missing_of : List AgentExecutionTrace → List String
missing_of = collect (λ (t : AgentExecutionTrace). t.missing_metadata)

-- De Morgan's law and the tests that the builder repeats.
not_and : (a b : Bool) → (not a || not b) ≡ not (a && b)
not_and true b = refl
not_and false b = refl

is_empty-missing_of :
    (traces : List AgentExecutionTrace)
    → All IsValidTrace traces
    → is_empty (missing_of traces) ≡ all_complete traces
unfolding collect all_complete
is_empty-missing_of [] h = refl
is_empty-missing_of (trace ∷ traces) h =
    is_empty-append trace.missing_metadata (missing_of traces)
    ∙ rw (is_empty_complete trace h.0, is_empty-missing_of traces h.1) refl

any_missing-valid :
    (traces : List AgentExecutionTrace)
    → All IsValidTrace traces
    → any_missing traces ≡ not (all_complete traces)
unfolding any_missing all_complete
any_missing-valid [] h = refl
any_missing-valid (trace ∷ traces) h =
    rw (is_empty_complete trace h.0, any_missing-valid traces h.1)
      (not_and (is_complete trace.trace_quality) (all_complete traces))

is_complete-if : (test : Bool) → is_complete (if test then complete else partial) ≡ test
is_complete-if true = refl
is_complete-if false = refl

excluded_middle_of : (b : Bool) → (b || not b) ≡ true
excluded_middle_of true = refl
excluded_middle_of false = refl

second : (a b : Bool) → (a && b) ≡ true → b ≡ true
second true b e = e
second false b e = cc

module _ (inputs : ResearchEpisodeBuildInput) (h : All IsValidTrace inputs.agent_traces) where
  -- The episode lacks metadata exactly if it is partial.
  pub is_empty-quality :
      is_empty (ordered_unique (inputs.missing_metadata ++ missing_of inputs.agent_traces))
      ≡ is_complete (quality_of inputs)
  unfolding quality_of
  is_empty-quality =
      let own = inputs.missing_metadata in
      let traces = inputs.agent_traces in
      is_empty-ordered_unique (own ++ missing_of traces)
      ∙ (is_empty-append own (missing_of traces)
          ∙ (ap (λ b. is_empty own && b) (is_empty-missing_of traces h)
              ∙ sym (is_complete-if (is_empty own && all_complete traces))))

  -- A partial episode has metadata to blame: the builder's last check never fails.
  pub check_quality-valid : check_quality inputs ≡ valid
  unfolding check_quality quality_of
  check_quality-valid =
      let own = is_empty inputs.missing_metadata in
      let others = all_complete inputs.agent_traces in
      rw
        (
          is_complete-if (own && others),
          any_missing-valid inputs.agent_traces h,
          not_and own others,
          excluded_middle_of (own && others),
        )
        refl

  pub all_complete-quality :
      is_complete (quality_of inputs) ≡ true → all_complete inputs.agent_traces ≡ true
  unfolding quality_of
  all_complete-quality e =
      let own = is_empty inputs.missing_metadata in
      let others = all_complete inputs.agent_traces in
      second own others (sym (is_complete-if (own && others)) ∙ e)
