-- ===== src/Transition/Choice.antt =====
-- When `select_predecessor` returns, what it returns, and that the order of the history does not matter.
use deepinsight.Prelude.{◌≡◌, refl, sym, ap, subst, ◌↔◌, Option, none, some, List, In, arith}
use deepinsight.Transition.State.{ResearchStateSnapshot}
use deepinsight.Transition.Collections.{built}
use deepinsight.Transition.Select.{
  validate_state_at_own_cutoff, eligible_states, nearest_of, select_predecessor,
}
use deepinsight.Transition.Passing.{>>=-eq-built, >>-eq-built}
use deepinsight.Transition.PointInTime.{
  IsPointInTime, IsPointInTime→validate_state_at_own_cutoff,
  validate_state_at_own_cutoff-IsPointInTime,
}
use deepinsight.Transition.Order.{text_lt_total}
use deepinsight.Transition.Predecessor.{
  of_asset, AreEarlier, IsSelection, IsNearest, eligible_states-eq, eligible_states-built,
  of_asset-In, nearest_of-IsSelection,
}

-- A selection that returns has found the current state and every earlier state of its asset point-
-- in-time, and returns the asset's latest state by time and then identifier, which is strictly
-- earlier than the current one; it returns none only if the history has no state of the asset.
pub select_predecessor-IsSelection :
    (current : ResearchStateSnapshot) (states : List ResearchStateSnapshot)
    (o : Option ResearchStateSnapshot)
    → select_predecessor current states ≡ built o
    → IsPointInTime current × (AreEarlier current states × IsSelection current states o)
unfolding select_predecessor
select_predecessor-IsSelection current states o h =
    let (own, rest) = >>-eq-built (validate_state_at_own_cutoff current) _ h in
    let (eligible, e, k) = >>=-eq-built (eligible_states current states) _ rest in
    let (same, earlier) = eligible_states-eq current states e in
    let found : nearest_of (of_asset current.asset_id states) ≡ o = cc in
    (
      validate_state_at_own_cutoff-IsPointInTime current own,
      (
        earlier,
        subst (IsSelection current states) found (
            nearest_of-IsSelection current states (of_asset current.asset_id states) earlier
              (of_asset-In current.asset_id states)),
      ),
    )

-- A selection returns, rather than raise, exactly if no feature of the current state or of a state
-- of its asset is later than that state's own cutoff, and all states of the asset are strictly
-- earlier than the current one.
pub select_predecessor_returns :
    (current : ResearchStateSnapshot) (states : List ResearchStateSnapshot)
    → ((o : Option ResearchStateSnapshot) × (select_predecessor current states ≡ built o))
      ↔ (IsPointInTime current × AreEarlier current states)
unfolding select_predecessor
select_predecessor_returns current states = (
  λ r. let (own, rest) = select_predecessor-IsSelection current states r.0 r.1 in (own, rest.0),
  λ h.
      let own = IsPointInTime→validate_state_at_own_cutoff current h.0 in
      let all = eligible_states-built current states h.1 in
      (nearest_of (of_asset current.asset_id states), cc),
)

-- The same states, in any order and any number.
abbrev pub HaveSameStates : (xs ys : List ResearchStateSnapshot) → Type 0
HaveSameStates xs ys = (s : ResearchStateSnapshot) → In s xs ↔ In s ys

-- Two states of one identifier are one state.
abbrev pub IdentifierIsKey : List ResearchStateSnapshot → Type 0
IdentifierIsKey states =
    (s t : ResearchStateSnapshot)
    → In s states
    → In t states
    → s.research_state_id ≡ t.research_state_id
    → s ≡ t

unique_nearest :
    (current : ResearchStateSnapshot) (states : List ResearchStateSnapshot)
    (p q : ResearchStateSnapshot)
    → IdentifierIsKey states
    → IsNearest current states p
    → IsNearest current states q
    → p ≡ q
unique_nearest current states p q key np nq =
    let a = np.latest q nq.member nq.same_asset in
    let b = nq.latest p np.member np.same_asset in
    let times : p.research_as_of ≡ q.research_as_of = omega (arith, a.0, b.0) in
    key p q np.member nq.member
      (text_lt_total p.research_state_id q.research_state_id (a.1 (sym times)) (b.1 times))

unique_selection :
    (current : ResearchStateSnapshot) (states : List ResearchStateSnapshot)
    (o o' : Option ResearchStateSnapshot)
    → IdentifierIsKey states
    → IsSelection current states o
    → IsSelection current states o'
    → o ≡ o'
unique_selection current states none none key h k = refl
unique_selection current states none (some q) key h k = absurd (h q k.0.member k.0.same_asset)
unique_selection current states (some p) none key h k = absurd (k p h.0.member h.0.same_asset)
unique_selection current states (some p) (some q) key h k =
    ap some (unique_nearest current states p q key h.0 k.0)

IsSelection-congr :
    (current : ResearchStateSnapshot) (xs ys : List ResearchStateSnapshot)
    (o : Option ResearchStateSnapshot)
    → HaveSameStates xs ys
    → IsSelection current ys o
    → IsSelection current xs o
IsSelection-congr current xs ys none same h = λ s m. h s ((same s).0 m)
IsSelection-congr current xs ys (some p) same (near, earlier) = (
  record {
    member = (same p).1 near.member;
    same_asset = near.same_asset;
    latest = λ s m. near.latest s ((same s).0 m);
  },
  earlier,
)

-- A selection from a history that has the same states, in any order, returns the same.
pub select_predecessor_order :
    (current : ResearchStateSnapshot) (xs ys : List ResearchStateSnapshot)
    (o : Option ResearchStateSnapshot)
    → HaveSameStates xs ys
    → IdentifierIsKey xs
    → select_predecessor current xs ≡ built o
    → select_predecessor current ys ≡ built o
select_predecessor_order current xs ys o same key h =
    let (own, rest) = select_predecessor-IsSelection current xs o h in
    let (o', h') =
      (select_predecessor_returns current ys).1 (own, λ s m. rest.0 s ((same s).1 m)) in
    let (own', rest') = select_predecessor-IsSelection current ys o' h' in
    subst (λ z. select_predecessor current ys ≡ built z)
      (unique_selection current xs o' o key (IsSelection-congr current xs ys o' same rest'.1)
        rest.1)
      h'
