-- ===== src/Episode/Closure.antt =====
-- An episode that the builder constructs is closed: which errors are left.
use deepinsight.Prelude.{
  ℕ, ◌≡◌, refl, ap, ◌∙◌, sym, String, Bool, true, false, ◌&&◌, List, [], ◌∷◌, ◌++◌, ==_iff,
  if◌then◌else◌, All,
}
use deepinsight.Transition.Collections.{has, all_different}
use deepinsight.Ontology.Checks.{Check, valid, require}
use deepinsight.Episode.Records.{
  AgentName, research_manager, bull_manager, bear_manager, risk_manager, is_role,
  AgentExecutionTrace, ResearchEpisodeBuildInput,
}
use deepinsight.Episode.Building.{
  ordered_unique, collect, sector_claim_ids, accepted_by, sum_of, run_ids, usage_claims,
  final_claims, assemble,
}
use deepinsight.Episode.Validation.{
  all_unique, provided_of, accepted_of, rejected_of, check_groups, check_run_index,
  check_claim_index, check_counts, check_roles,
}
use deepinsight.Episode.Unions.{
  has-ordered_unique, all_different-ordered_unique, ordered_unique-all_different, same_texts_refl,
  subset_if, same_set_if, has-union, has_in_append, has-left, has-right,
}

and_true : (b : Bool) → (b && true) ≡ b
and_true true = refl
and_true false = refl

all_unique_between :
    (first last : List String) (groups : List (List String))
    → All (λ group. all_different group ≡ true) groups
    → all_unique (first ∷ groups ++ last ∷ []) ≡ (all_different first && all_different last)
all_unique_between first last [] h =
    ap (λ b. all_different first && b) (and_true (all_different last))
all_unique_between first last (group ∷ groups) h =
    rw (h.0) (all_unique_between first last groups h.1)

has-added :
    (s : String) (is_added : Bool) (own rest all : List String)
    → (has s rest ≡ true → has s all ≡ true)
    → has s (if is_added then own ++ rest else rest) ≡ true
    → has s (own ++ all) ≡ true
has-added s true own rest all f m =
    has_in_append s own rest (own ++ all) (has-left s own all) (λ n. has-right s own all (f n)) m
has-added s false own rest all f m = has-right s own all (f m)

has-accepted_by :
    (s : String) (role : AgentName) (traces : List AgentExecutionTrace)
    → has s (accepted_by role traces) ≡ true
    → has s (accepted_of traces) ≡ true
unfolding accepted_by collect
has-accepted_by s role [] m = m
has-accepted_by s role (trace ∷ traces) m =
    has-added s (is_role trace.agent_role role) trace.accepted_claim_ids (accepted_by role traces)
      (accepted_of traces) (has-accepted_by s role traces) m

abbrev pub named : Bool → Check
named different = require different "ResearchEpisode identities must be unique"

module _ (fingerprint : ResearchEpisodeBuildInput → String)
    (inputs : ResearchEpisodeBuildInput) where
  pub groups_reduced :
      check_groups (assemble fingerprint inputs)
      ≡ require
          (all_different (run_ids inputs.agent_traces) && all_different inputs.source_artifact_ids)
          "ResearchEpisode identities must be unique"
  unfolding check_groups assemble sector_claim_ids final_claims
  groups_reduced =
      let e = assemble fingerprint inputs in
      let unique = all_different-ordered_unique in
      ap (λ test. require test "ResearchEpisode identities must be unique")
        (all_unique_between e.agent_run_ids e.source_artifact_ids
          (e.provided_claim_ids ∷ e.accepted_claim_ids ∷ e.rejected_claim_ids ∷ e.sector_claim_ids
            ∷ e.bull_claim_ids ∷ e.bear_claim_ids ∷ e.risk_claim_ids ∷ e.final_research_claim_ids
            ∷ e.missing_metadata ∷ [])
          (
            unique _,
            (
              unique _,
              (
                unique _,
                (unique _, (unique _, (unique _, (unique _, (unique _, (unique _, tt)))))),
              ),
            ),
          ))

  pub run_index_valid :
      all_different (run_ids inputs.agent_traces) ≡ true
      → check_run_index (assemble fingerprint inputs) ≡ valid
  unfolding check_run_index assemble
  run_index_valid e =
      let runs = run_ids inputs.agent_traces in
      rw (e, ordered_unique-all_different runs e, same_texts_refl runs) refl

  pub claim_index_valid : check_claim_index (assemble fingerprint inputs) ≡ valid
  unfolding check_claim_index assemble
  claim_index_valid =
      let traces = inputs.agent_traces in
      let usage = usage_claims inputs.sector_usage in
      let same =
        λ (xs : List String). same_set_if (ordered_unique xs) xs (λ s. has-ordered_unique s xs) in
      rw
        (
          same (accepted_of traces),
          same (rejected_of traces),
          same_set_if (ordered_unique (ordered_unique (provided_of traces) ++ usage))
              (provided_of traces ++ usage) (λ s. has-union s (provided_of traces) usage),
        )
        refl

  pub counts_valid : check_counts (assemble fingerprint inputs) ≡ valid
  unfolding check_counts assemble
  counts_valid =
      let traces = inputs.agent_traces in
      let same = λ (n : ℕ). (==_iff n n).1 refl in
      rw
        (
          same (sum_of (λ t. t.accepted_claim_count) traces),
          same (sum_of (λ t. t.rejected_claim_count) traces),
        )
        refl

  has-role :
      (role : AgentName) (s : String)
      → has s (ordered_unique (accepted_by role inputs.agent_traces)) ≡ true
      → has s (ordered_unique (accepted_of inputs.agent_traces)) ≡ true
  has-role role s m =
      let traces = inputs.agent_traces in
      has-ordered_unique s (accepted_of traces)
      ∙ has-accepted_by s role traces (sym (has-ordered_unique s (accepted_by role traces)) ∙ m)

  pub roles_valid : check_roles (assemble fingerprint inputs) ≡ valid
  unfolding check_roles assemble final_claims
  roles_valid =
      let traces = inputs.agent_traces in
      let accepted = ordered_unique (accepted_of traces) in
      let by = λ (role : AgentName). ordered_unique (accepted_by role traces) in
      let research = by research_manager in
      let bull = by bull_manager in
      let bear = by bear_manager in
      let risk = by risk_manager in
      let in_two = λ (s : String).
        has_in_append s bull bear accepted (has-role bull_manager s) (has-role bear_manager s) in
      let in_three = λ (s : String).
        has_in_append s (bull ++ bear) risk accepted (in_two s) (has-role risk_manager s) in
      let led = λ (s : String).
        has_in_append s research bull accepted (has-role research_manager s)
          (has-role bull_manager s) in
      let led_three = λ (s : String).
        has_in_append s (research ++ bull) bear accepted (led s) (has-role bear_manager s) in
      let in_four = λ (s : String).
        has_in_append s (research ++ bull ++ bear) risk accepted (led_three s)
          (has-role risk_manager s) in
      rw
        (
          subset_if (bull ++ bear ++ risk) accepted in_three,
          subset_if (final_claims traces) accepted (λ s m.
              in_four s (sym (has-ordered_unique s (research ++ bull ++ bear ++ risk)) ∙ m)),
        )
        refl
