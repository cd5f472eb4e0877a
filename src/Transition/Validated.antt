-- ===== src/Transition/Validated.antt =====
-- What the validators of the states and of the build input give the builder.
use deepinsight.Prelude.{
  String, ◌≡◌, sym, ap, subst, ◌∙◌, ◌<◌, ◌↔◌, inl, inr, Bool, true, false, Option, List, [], ◌∷◌,
  map, eq_iff, In, arith,
}
use deepinsight.Temporal.Access.{historical_replay}
use deepinsight.Temporal.Metadata.{generic}
use deepinsight.Temporal.Visibility.{usable_iff_IsVisible}
use deepinsight.Transition.State.{section_names, ResearchStateSnapshot, TimingSatelliteBuildInput}
use deepinsight.Transition.Collections.{built, has, all_different}
use deepinsight.Transition.Select.{event_at, known_at, select_predecessor}
use deepinsight.Transition.Validation.{
  every, is_usable_feature, validate_snapshot, validate_build_input,
}
use deepinsight.Transition.PointInTime.{IsPointInTime, is_section}
use deepinsight.Transition.Choice.{
  HaveSameStates, IdentifierIsKey, select_predecessor_returns, select_predecessor_order,
}

every-In :
    {A : Type 0} (p : A → Bool) (xs : List A) → every p xs ≡ true → (x : A) → In x xs → p x ≡ true
unfolding every
every-In p [] h x m = absurd m
every-In p (y ∷ ys) h x (inl i) = subst (λ z. p z ≡ true) i (ground (arith, h))
every-In p (y ∷ ys) h x (inr m) = every-In p ys (ground (arith, h)) x m

-- A valid snapshot is point-in-time.
validate_snapshot-IsPointInTime :
    (state : ResearchStateSnapshot) → validate_snapshot state ≡ true → IsPointInTime state
unfolding validate_snapshot
validate_snapshot-IsPointInTime state h name f m =
    let features : every
          (λ n. every (is_usable_feature state.research_as_of) (state.section n).features)
          section_names
        ≡ true =
      ground (arith, h) in
    let usable =
      every-In (is_usable_feature state.research_as_of) (state.section name).features
        (every-In _ section_names features name (is_section name)) f m in
    ((usable_iff_IsVisible (event_at generic f.as_of (known_at f)) state.research_as_of true
        historical_replay).0
      usable).available

has-In : (s : String) (ts : List String) → (has s ts ≡ true) ↔ In s ts
unfolding has
has-In s [] = (λ e. cc e, λ m. absurd m)
has-In s (t ∷ ts) = ground (arith, has-In s ts, eq_iff t s)

module _ {A : Type 0} (key : A → String) where
  In-map : (x : A) (xs : List A) → In x xs → In (key x) (map key xs)
  In-map x [] m = absurd m
  In-map x (y ∷ ys) (inl i) = inl (ap key i)
  In-map x (y ∷ ys) (inr m) = inr (In-map x ys m)

  head_absent :
      (z : A) (zs : List A)
      → has (key z) (map key zs) ≡ false
      → (w : A) → In w zs
      → key w ≡ key z
      → ⊥
  head_absent z zs h w m e =
      cc (h, (has-In (key z) (map key zs)).1 (subst (λ k. In k (map key zs)) e (In-map w zs m)))

  -- Different keys: a key determines the item.
  all_different-key :
      (xs : List A)
      → all_different (map key xs) ≡ true
      → (x y : A) → In x xs
      → In y xs
      → key x ≡ key y
      → x ≡ y
  unfolding all_different
  all_different-key [] h x y m n e = absurd m
  all_different-key (z ∷ zs) h x y m n e =
      let here : has (key z) (map key zs) ≡ false = ground (arith, h) in
      let rest : all_different (map key zs) ≡ true = ground (arith, h) in
      elim m [
        | inl i ↦ elim n [
          | inl j ↦ sym i ∙ j
          | inr q ↦ absurd (head_absent z zs here y q (sym e ∙ ap key (sym i)))
        ]
        | inr p ↦ elim n [
          | inl j ↦ absurd (head_absent z zs here x p (e ∙ ap key (sym j)))
          | inr q ↦ all_different-key zs rest x y p q e
        ]
      ]

-- The inputs and all their states have passed their validators.
pub record IsValidated (inputs : TimingSatelliteBuildInput) : Type 0 where
  pub input : validate_build_input inputs ≡ true
  pub current : validate_snapshot inputs.current_state ≡ true
  pub history :
      (s : ResearchStateSnapshot) → In s inputs.historical_states → validate_snapshot s ≡ true

different_identifiers :
    (inputs : TimingSatelliteBuildInput)
    → validate_build_input inputs ≡ true
    → all_different (map (λ s. s.research_state_id) inputs.historical_states) ≡ true
unfolding validate_build_input
different_identifiers inputs h = ground (arith, h)

validate_build_input-IdentifierIsKey :
    (inputs : TimingSatelliteBuildInput)
    → validate_build_input inputs ≡ true
    → IdentifierIsKey inputs.historical_states
validate_build_input-IdentifierIsKey inputs h =
    all_different-key (λ s. s.research_state_id) inputs.historical_states
      (different_identifiers inputs h)

-- For a build input that has passed its validator and whose states have passed theirs, a selection
-- returns, rather than raise, exactly if every historical state of the current asset is strictly
-- earlier than the current one.
pub validated_selection_returns :
    (inputs : TimingSatelliteBuildInput)
    → IsValidated inputs
    → ((o : Option ResearchStateSnapshot) × (select_predecessor inputs.current_state
            inputs.historical_states
          ≡ built o))
      ↔ ((s : ResearchStateSnapshot)
          → In s inputs.historical_states
          → s.asset_id ≡ inputs.current_state.asset_id
          → s.research_as_of < inputs.current_state.research_as_of)
validated_selection_returns inputs valid =
    let (to, from) = select_predecessor_returns inputs.current_state inputs.historical_states in
    (
      λ r s m a. ((to r).1 s m a).earlier,
      λ h. from (
        validate_snapshot-IsPointInTime inputs.current_state valid.current,
        λ s m a. record {
          earlier = h s m a;
          point_in_time = validate_snapshot-IsPointInTime s (valid.history s m);
        },
      ),
    )

-- For a build input that has passed its validator, the selection from its history and that from
-- any list of the same states, in any order and with any repetitions, return the same state.
pub validated_selection_order :
    (inputs : TimingSatelliteBuildInput) (states : List ResearchStateSnapshot)
    (o : Option ResearchStateSnapshot)
    → validate_build_input inputs ≡ true
    → HaveSameStates inputs.historical_states states
    → select_predecessor inputs.current_state inputs.historical_states ≡ built o
    → select_predecessor inputs.current_state states ≡ built o
validated_selection_order inputs states o valid same =
    select_predecessor_order inputs.current_state inputs.historical_states states o same
      (validate_build_input-IdentifierIsKey inputs valid)
