-- ===== src/Temporal/Normalized.antt =====
-- What the constructor of `TemporalMetadata` accepts and what it stores.
use deepinsight.Prelude.{
  ℕ, ◌+◌, ◌*◌, ◌≤◌, ◌<◌, ◌≡◌, refl, sym, ap, ◌∙◌, subst, ◌↔◌, false, Option, none, some, arith,
  Option-cases, inl, inr,
}
use deepinsight.Temporal.DateTime.{
  DateTime, Offset, ahead, behind, Instant, day_length, max_instant, Checked, passed, value_error,
  overflow_error, ValueFault, ◌>>=◌, ◌<*>◌, require_utc_aware,
}
use deepinsight.Temporal.Metadata.{
  Bound, at, on, Arguments, TemporalMetadata, given_lt, ends_too_early, normalize_optional_datetime,
  normalize_effective_bound, normalize_fields, validate_order, temporal_metadata,
}

-- The UTC reading of a datetime: `t` is the instant that the wall clock and the offset stand for.
abbrev pub WallReads : ℕ → Option Offset → Instant → Type 0
WallReads wall none t = ⊥
WallReads wall (some (ahead o)) t = t + o ≡ wall
WallReads wall (some (behind o)) t = (wall + o ≡ t) × (t ≤ max_instant)

abbrev pub Reads : DateTime → Instant → Type 0
Reads d t = WallReads d.wall d.offset t

pub require_utc_aware_iff :
    (d : DateTime) (t : Instant) → (require_utc_aware d ≡ passed t) ↔ Reads d t
unfolding require_utc_aware
require_utc_aware_iff d t = elim (Option-cases d.offset) [
  | inl e ↦ rw e (ground arith)
  | inr (o, e) ↦ rw e (ground arith)
]

abbrev pub Stores : Option DateTime → Option Instant → Type 0
Stores none none = Unit
Stores (some d) (some t) = Reads d t
Stores _ _ = ⊥

abbrev pub StoresBound : Option (Bound DateTime) → Option (Bound Instant) → Type 0
StoresBound none none = Unit
StoresBound (some (at d)) (some (at t)) = Reads d t
StoresBound (some (on d)) (some (on e)) = d ≡ e
StoresBound _ _ = ⊥

normalize_optional_datetime_iff :
    (o : Option DateTime) (r : Option Instant)
    → (normalize_optional_datetime o ≡ passed r) ↔ Stores o r
unfolding normalize_optional_datetime
normalize_optional_datetime_iff none none = (λ _. tt, λ _. refl)
normalize_optional_datetime_iff none (some t) = (λ e. cc, λ h. absurd h)
normalize_optional_datetime_iff (some d) none =
    (λ e. ground (arith, require_utc_aware_iff d 0), λ h. absurd h)
normalize_optional_datetime_iff (some d) (some t) = ground (arith, require_utc_aware_iff d t)

-- Each field of `m` is that of `a`, its datetimes read in UTC.
pub record StoresAll (a : Arguments) (m : TemporalMetadata) : Type 0 where
  pub source_kind : a.source_kind ≡ m.source_kind
  pub event_time : Stores a.event_time m.event_time
  pub period_start : a.period_start ≡ m.period_start
  pub period_end : a.period_end ≡ m.period_end
  pub published_at : Stores a.published_at m.published_at
  pub available_at : Stores a.available_at m.available_at
  pub ingested_at : Stores a.ingested_at m.ingested_at
  pub effective_from : StoresBound a.effective_from m.effective_from
  pub effective_to : StoresBound a.effective_to m.effective_to
  pub as_of : Stores a.as_of m.as_of

normalize_effective_bound_iff :
    (o : Option (Bound DateTime)) (r : Option (Bound Instant))
    → (normalize_effective_bound o ≡ passed r) ↔ StoresBound o r
unfolding normalize_effective_bound
normalize_effective_bound_iff none none = (λ _. tt, λ _. refl)
normalize_effective_bound_iff none (some t) = (λ e. cc, λ h. absurd h)
normalize_effective_bound_iff (some (at d)) none = (λ e. ground arith, λ h. absurd h)
normalize_effective_bound_iff (some (at d)) (some (at t)) =
    ground (arith, require_utc_aware_iff d t)
normalize_effective_bound_iff (some (at d)) (some (on t)) = (λ e. ground arith, λ h. absurd h)
normalize_effective_bound_iff (some (on d)) none = (λ e. cc, λ h. absurd h)
normalize_effective_bound_iff (some (on d)) (some (at t)) = (λ e. cc, λ h. absurd h)
normalize_effective_bound_iff (some (on d)) (some (on t)) = ground arith

-- `P` holds of what `c` returns, if it returns.
record Ensures {ℓ κ} {A : Type ℓ} (P : A → Type κ) (c : Checked A) : Type (ℓ ⊔ κ) where
  at_result : (a : A) → c ≡ passed a → P a

Ensures-passed {ℓ κ} : {A : Type ℓ} {P : A → Type κ} (a : A) → P a → Ensures P (passed a)
Ensures-passed {P} a h = record { at_result = λ b e. subst P (cc) h }

Ensures-value_error {ℓ κ} :
    {A : Type ℓ} {P : A → Type κ} (f : ValueFault) → Ensures P (value_error f)
Ensures-value_error f = record { at_result = λ b e. cc }

Ensures-overflow_error {ℓ κ} : {A : Type ℓ} {P : A → Type κ} → Ensures P overflow_error
Ensures-overflow_error = record { at_result = λ b e. cc }

Ensures-<*> {ℓ κ μ} :
    {A : Type ℓ} {B : Type κ} {P : B → Type μ} (f : Checked (A → B)) (x : Checked A)
    → Ensures (λ g. (a : A) → x ≡ passed a → P (g a)) f
    → Ensures P (f <*> x)
Ensures-<*> (passed f) (passed a) h = Ensures-passed (f a) (h.at_result f refl a refl)
Ensures-<*> (passed f) (value_error x) h = Ensures-value_error x
Ensures-<*> (passed f) overflow_error h = Ensures-overflow_error
Ensures-<*> (value_error x) overflow_error h = Ensures-overflow_error
Ensures-<*> (value_error x) (passed a) h = Ensures-value_error x
Ensures-<*> (value_error x) (value_error y) h = Ensures-value_error x
Ensures-<*> overflow_error x h = Ensures-overflow_error

normalize_fields-StoresAll : (a : Arguments) → Ensures (StoresAll a) (normalize_fields a)
unfolding normalize_fields
normalize_fields-StoresAll a = Ensures-<*> _ _ (
    Ensures-<*> _ _ (
      Ensures-<*> _ _ (
        Ensures-<*> _ _ (
          Ensures-<*> _ _ (
            Ensures-<*> _ _ (
              Ensures-<*> _ _ (
                Ensures-passed _
                  (λ event e1 published e2 available e3 ingested e4 starts e5 ends e6 as_of e7.
                    record {
                      source_kind = refl;
                      event_time = (normalize_optional_datetime_iff a.event_time event).0 e1;
                      period_start = refl;
                      period_end = refl;
                      published_at =
                          (normalize_optional_datetime_iff a.published_at published).0 e2;
                      available_at =
                          (normalize_optional_datetime_iff a.available_at available).0 e3;
                      ingested_at = (normalize_optional_datetime_iff a.ingested_at ingested).0 e4;
                      effective_from = (normalize_effective_bound_iff a.effective_from starts).0 e5;
                      effective_to = (normalize_effective_bound_iff a.effective_to ends).0 e6;
                      as_of = (normalize_optional_datetime_iff a.as_of as_of).0 e7;
                    }))))))))

StoresAll→normalize_fields :
    (a : Arguments) (m : TemporalMetadata) → StoresAll a m → normalize_fields a ≡ passed m
unfolding normalize_fields
StoresAll→normalize_fields a m h =
    rw
      (
        (normalize_optional_datetime_iff a.event_time m.event_time).1 h.event_time,
        (normalize_optional_datetime_iff a.published_at m.published_at).1 h.published_at,
        (normalize_optional_datetime_iff a.available_at m.available_at).1 h.available_at,
        (normalize_optional_datetime_iff a.ingested_at m.ingested_at).1 h.ingested_at,
        (normalize_effective_bound_iff a.effective_from m.effective_from).1 h.effective_from,
        (normalize_effective_bound_iff a.effective_to m.effective_to).1 h.effective_to,
        (normalize_optional_datetime_iff a.as_of m.as_of).1 h.as_of,
      )
      (cc)

abbrev pub GivenLe : Option ℕ → Option ℕ → Type 0
GivenLe (some a) (some b) = a ≤ b
GivenLe _ _ = Unit

abbrev pub bound_start : Bound Instant → Instant
bound_start (at t) = t
bound_start (on d) = d * day_length

-- The effective interval, from `starts` up to but not at `ends`, holds at least one instant.
abbrev pub IsInterval : Option (Bound Instant) → Option (Bound Instant) → Type 0
IsInterval (some starts) (some ends) = bound_start starts < bound_start ends
IsInterval _ _ = Unit

pub record IsOrdered (m : TemporalMetadata) : Type 0 where
  pub period : GivenLe m.period_start m.period_end
  pub publication : GivenLe m.published_at m.available_at
  pub effective : IsInterval m.effective_from m.effective_to

given_lt_iff : (a b : Option ℕ) → (given_lt b a ≡ false) ↔ GivenLe a b
unfolding given_lt
given_lt_iff none b = ground arith
given_lt_iff (some a) none = ground arith
given_lt_iff (some a) (some b) = ground arith

ends_too_early_iff : (a b : Option (Bound Instant)) → (ends_too_early a b ≡ false) ↔ IsInterval a b
unfolding ends_too_early
ends_too_early_iff (some (at a)) (some (at b)) = ground arith
ends_too_early_iff (some (on a)) (some (at b)) = ground arith
ends_too_early_iff (some (at a)) (some (on b)) = ground arith
ends_too_early_iff (some (on a)) (some (on b)) = ground arith
ends_too_early_iff _ _ = (λ _. tt, λ _. refl)

validate_order-eq : (m m' : TemporalMetadata) → validate_order m ≡ passed m' → m ≡ m'
unfolding validate_order
validate_order-eq m m' e = ground arith

validate_order_iff : (m : TemporalMetadata) → (validate_order m ≡ passed m) ↔ IsOrdered m
unfolding validate_order
validate_order_iff m = ground (
  arith,
  given_lt_iff m.period_start m.period_end,
  given_lt_iff m.published_at m.available_at,
  ends_too_early_iff m.effective_from m.effective_to,
)

>>=-eq-passed {ℓ κ} :
    {A : Type ℓ} {B : Type κ} (c : Checked A) (f : A → Checked B) {b : B}
    → (c >>= f) ≡ passed b
    → (a : A) × (c ≡ passed a) × (f a ≡ passed b)
>>=-eq-passed (passed a) f e = (a, refl, e)
>>=-eq-passed (value_error x) f e = cc
>>=-eq-passed overflow_error f e = cc

-- The TemporalMetadata constructor returns an object exactly when the object's fields are the
-- given ones read in UTC and its period, publication and effective interval are in order.
pub temporal_metadata_iff :
    (a : Arguments) (m : TemporalMetadata)
    → (temporal_metadata a ≡ passed m) ↔ (StoresAll a m × IsOrdered m)
unfolding temporal_metadata
temporal_metadata_iff a m = (
  λ e.
      let (m', normalized, checked) = >>=-eq-passed (normalize_fields a) validate_order e in
      let same = validate_order-eq m' m checked in
      (
        (normalize_fields-StoresAll a).at_result m (normalized ∙ ap passed same),
        (validate_order_iff m).0 (ap validate_order (sym same) ∙ checked),
      ),
  λ h. rw (StoresAll→normalize_fields a m h.0) ((validate_order_iff m).1 h.1),
)
