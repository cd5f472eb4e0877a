-- ===== src/Transition/Predecessor.antt =====
-- What `select_predecessor` chooses.
use deepinsight.Prelude.{
  String, ◌≡◌, ◌≢◌, ◌≤◌, text_lt, refl, sym, ap, subst, ◌∙◌, ◌↔◌, ◌⊎◌, inl, inr, Bool, true, false,
  Option, none, some, List, [], ◌∷◌, same_text, eq_iff, if◌then◌else◌, Bool-cases, In, arith,
}
use deepinsight.Transition.State.{ResearchStateSnapshot}
use deepinsight.Transition.Collections.{Built, built, ◌>>=◌, ◌>>◌}
use deepinsight.Transition.Select.{
  validate_earlier, eligible_states, is_before, nearest, nearest_of,
}
use deepinsight.Transition.Passing.{>>=-eq-built, >>-eq-built}
use deepinsight.Transition.PointInTime.{
  IsEarlier, validate_earlier-IsEarlier, IsEarlier→validate_earlier,
}
use deepinsight.Transition.Order.{is_before_irrefl, is_before_trans, not_before_trans}

unfoldable asset_of : ResearchStateSnapshot → String
asset_of s = s.asset_id

-- The states of one asset.
unfoldable pub of_asset : String → List ResearchStateSnapshot → List ResearchStateSnapshot
of_asset asset [] = []
of_asset asset (s ∷ ss) =
    if same_text s.asset_id asset then s ∷ of_asset asset ss else of_asset asset ss

-- Every state of the asset has passed the checks.
abbrev pub AreEarlier : ResearchStateSnapshot → List ResearchStateSnapshot → Type 0
AreEarlier current states =
    (s : ResearchStateSnapshot) → In s states → s.asset_id ≡ current.asset_id → IsEarlier current s

-- One step of the loop, by the test of the asset.
step-eq-built :
    (b : Bool) (m : Built (Unit {0})) (rest : Built (List ResearchStateSnapshot))
    (s : ResearchStateSnapshot) {eligible : List ResearchStateSnapshot}
    → (if b then (m >> (rest >>= λ others. built (s ∷ others))) else rest) ≡ built eligible
    → (others : List ResearchStateSnapshot) × (rest ≡ built others)
      × (eligible ≡ (if b then s ∷ others else others))
      × (b ≡ true → m ≡ built tt)
step-eq-built true m rest s h =
    let (passed, more) = >>-eq-built m _ h in
    let (others, e, k) = >>=-eq-built rest (λ others. built (s ∷ others)) more in
    (others, e, cc, λ _. passed)
step-eq-built false m rest s {eligible} h = (eligible, h, refl, λ e. cc)

pub eligible_states-eq :
    (current : ResearchStateSnapshot) (states : List ResearchStateSnapshot)
    {eligible : List ResearchStateSnapshot}
    → eligible_states current states ≡ built eligible
    → (eligible ≡ of_asset current.asset_id states) × AreEarlier current states
unfolding eligible_states of_asset asset_of
eligible_states-eq current [] h = (cc, λ s m _. absurd m)
eligible_states-eq current (x ∷ xs) h =
    let (others, e, k, passed) =
      step-eq-built (same_text x.asset_id current.asset_id) (validate_earlier current x)
        (eligible_states current xs) x h in
    let (same, earlier) = eligible_states-eq current xs e in
    (
      cc,
      λ s m a. elim m [
        | inl i ↦ subst (IsEarlier current) i (
            validate_earlier-IsEarlier current x
              (passed ((eq_iff x.asset_id current.asset_id).1 (ap asset_of i ∙ a))))
        | inr m ↦ earlier s m a
      ],
    )

asymmetric : (a b : ResearchStateSnapshot) → is_before a b ≡ true → is_before b a ≡ false
asymmetric a b h = elim (Bool-cases (is_before b a)) [
  | inl e ↦ cc (is_before_trans a b a h e, is_before_irrefl a a)
  | inr e ↦ e
]

-- The loop of `max` keeps a state that no state is after.
unfoldable IsLast : ResearchStateSnapshot → List ResearchStateSnapshot → Type 0
IsLast p states = (s : ResearchStateSnapshot) → In s states → is_before p s ≡ false

nearest-In :
    (best : ResearchStateSnapshot) (states : List ResearchStateSnapshot)
    → In (nearest best states) (best ∷ states)
unfolding nearest
nearest-In best [] = inl refl
nearest-In best (x ∷ xs) = elim (Bool-cases (is_before best x)) [
  | inl e ↦
      subst (λ b. In (nearest (if b then x else best) xs) (best ∷ x ∷ xs)) (sym e)
        (inr (nearest-In x xs))
  | inr e ↦
      subst (λ b. In (nearest (if b then x else best) xs) (best ∷ x ∷ xs)) (sym e)
        (elim (nearest-In best xs) [ inl i ↦ inl i | inr m ↦ inr (inr m) ])
]

-- `p` is not before any state if it is not before `b`, which is not before `c`, nor the others.
IsLast-cons :
    (p b c : ResearchStateSnapshot) (states : List ResearchStateSnapshot)
    → is_before b c ≡ false
    → IsLast p (b ∷ states)
    → IsLast p (c ∷ b ∷ states)
unfolding IsLast
IsLast-cons p b c states h last s (inl i) =
    subst (λ z. is_before p z ≡ false) i (not_before_trans p b c (last b (inl refl)) h)
IsLast-cons p b c states h last s (inr m) = last s m

IsLast-swap :
    (p b c : ResearchStateSnapshot) (states : List ResearchStateSnapshot)
    → IsLast p (b ∷ c ∷ states)
    → IsLast p (c ∷ b ∷ states)
unfolding IsLast
IsLast-swap p b c states last s (inl i) = last s (inr (inl i))
IsLast-swap p b c states last s (inr (inl i)) = last s (inl i)
IsLast-swap p b c states last s (inr (inr m)) = last s (inr (inr m))

nearest-IsLast :
    (best : ResearchStateSnapshot) (states : List ResearchStateSnapshot)
    → IsLast (nearest best states) (best ∷ states)
unfolding nearest IsLast
nearest-IsLast best [] = λ s m. elim m [
  | inl i ↦ subst (λ z. is_before best z ≡ false) i (is_before_irrefl best best)
  | inr m ↦ absurd m
]
nearest-IsLast best (x ∷ xs) = elim (Bool-cases (is_before best x)) [
  | inl e ↦
      subst (λ b. IsLast (nearest (if b then x else best) xs) (best ∷ x ∷ xs)) (sym e)
        (IsLast-cons _ x best xs (asymmetric best x e) (nearest-IsLast x xs))
  | inr e ↦
      subst (λ b. IsLast (nearest (if b then x else best) xs) (best ∷ x ∷ xs)) (sym e)
        (IsLast-swap _ x best xs (IsLast-cons _ best x xs e (nearest-IsLast best xs)))
]

keep-In :
    (b : Bool) (x s : ResearchStateSnapshot) (ys : List ResearchStateSnapshot)
    → In s (if b then x ∷ ys else ys) ↔ (((b ≡ true) × (x ≡ s)) ⊎ In s ys)
keep-In true x s ys = (
  λ m. elim m [ inl i ↦ inl (refl, i) | inr r ↦ inr r ],
  λ m. elim m [ inl (e, i) ↦ inl i | inr r ↦ inr r ],
)
keep-In false x s ys = (λ m. inr m, λ m. elim m [ inl (e, i) ↦ cc e | inr r ↦ r ])

pub eligible_states-built :
    (current : ResearchStateSnapshot) (states : List ResearchStateSnapshot)
    → AreEarlier current states
    → eligible_states current states ≡ built (of_asset current.asset_id states)
unfolding eligible_states of_asset
eligible_states-built current [] h = refl
eligible_states-built current (x ∷ xs) h =
    let rest = eligible_states-built current xs (λ s m. h s (inr m)) in
    elim (Bool-cases (same_text x.asset_id current.asset_id)) [
      | inl e ↦
          let passed =
            IsEarlier→validate_earlier current x
              (h x (inl refl) ((eq_iff x.asset_id current.asset_id).0 e)) in
          cc
      | inr e ↦ cc
    ]

-- The members of the asset's states.
pub of_asset-In :
    (asset : String) (states : List ResearchStateSnapshot) (s : ResearchStateSnapshot)
    → In s (of_asset asset states) ↔ (In s states × (s.asset_id ≡ asset))
unfolding of_asset asset_of
of_asset-In asset [] s = (λ m. absurd m, λ m. absurd m.0)
of_asset-In asset (x ∷ xs) s =
    let (to, from) = keep-In (same_text x.asset_id asset) x s (of_asset asset xs) in
    let (down, up) = of_asset-In asset xs s in
    let (path, test) = eq_iff x.asset_id asset in
    (
      λ m. elim (to m) [
        | inl (e, i) ↦ (inl i, sym (ap asset_of i) ∙ path e)
        | inr r ↦ (inr (down r).0, (down r).1)
      ],
      λ m.
          let (k, a) = m in
          elim k [
            | inl i ↦ from (inl (test (ap asset_of i ∙ a), i))
            | inr r ↦ from (inr (up (r, a)))
          ],
    )

-- `p` is the asset's latest state, by time and then by identifier.
pub record IsNearest (current : ResearchStateSnapshot) (states : List ResearchStateSnapshot)
    (p : ResearchStateSnapshot) : Type 0 where
  pub member : In p states
  pub same_asset : p.asset_id ≡ current.asset_id
  pub latest :
      (s : ResearchStateSnapshot)
      → In s states
      → s.asset_id ≡ current.asset_id
      → (s.research_as_of ≤ p.research_as_of)
        × (s.research_as_of ≡ p.research_as_of
            → text_lt p.research_state_id s.research_state_id ≡ false)

-- What the answer says of the history.
abbrev pub IsSelection :
    ResearchStateSnapshot → List ResearchStateSnapshot → Option ResearchStateSnapshot → Type 0
IsSelection current states none =
    (s : ResearchStateSnapshot) → In s states → s.asset_id ≢ current.asset_id
IsSelection current states (some p) = IsNearest current states p × IsEarlier current p

not_before-latest :
    (p s : ResearchStateSnapshot)
    → is_before p s ≡ false
    → (s.research_as_of ≤ p.research_as_of)
      × (s.research_as_of ≡ p.research_as_of
          → text_lt p.research_state_id s.research_state_id ≡ false)
unfolding is_before
not_before-latest p s h = (ground arith, λ e. ground arith)

pub nearest_of-IsSelection :
    (current : ResearchStateSnapshot) (states eligible : List ResearchStateSnapshot)
    → AreEarlier current states
    → ((s : ResearchStateSnapshot)
        → In s eligible ↔ (In s states × (s.asset_id ≡ current.asset_id)))
    → IsSelection current states (nearest_of eligible)
unfolding nearest_of IsLast
nearest_of-IsSelection current states [] earlier same = λ s m a. (same s).1 (m, a)
nearest_of-IsSelection current states (x ∷ xs) earlier same =
    let p = nearest x xs in
    let (m, a) = (same p).0 (nearest-In x xs) in
    (
      record {
        member = m;
        same_asset = a;
        latest = λ s i b. not_before-latest p s (nearest-IsLast x xs s ((same s).1 (i, b)));
      },
      earlier p m a,
    )
