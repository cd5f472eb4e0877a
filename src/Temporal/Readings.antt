-- ===== src/Temporal/Readings.antt =====
-- The readings of the mapping of stored records, and the parts of its answers.
use deepinsight.Prelude.{
  ◌≤◌, max, ◌≡◌, ◌≢◌, refl, subst, ◌↔◌, ◌⊎◌, inl, inr, Bool, true, false, Option, none, some, arith,
  if◌then◌else◌,
}
use deepinsight.Temporal.DateTime.{
  DateTime, Instant, Date, start_of_day, Checked, passed, value_error, overflow_error, ◌>>=◌,
  utc_from_storage, require_utc_aware,
}
use deepinsight.Temporal.Metadata.{Bound, TemporalMetadata, validate_order}
use deepinsight.Temporal.Access.{historical_replay, decide_at}
use deepinsight.Temporal.Visibility.{AtMost, StartedBy, EndsAfter, usable_iff_IsVisible}
use deepinsight.Temporal.Stored.{FundamentalRecord}
use deepinsight.Temporal.Mapping.{
  Mapped, mapped, mapping_error, reading, construct, or_else, optional_from_storage, first_instant,
  filing_publication, max_with, bound_or, ending, optional_day,
}
use deepinsight.Temporal.Known.{ReadBy, AwareBy, OptionalBy, FiledBy, BeforeDay, NotExpired}

pub passed_injective : {A : Type 0} {a b : A} → passed a ≡ passed b → a ≡ b
passed_injective h = cc

pub read_iff : (d : DateTime) (t c : Instant) → utc_from_storage d ≡ passed t → ReadBy d c ↔ (t ≤ c)
read_iff d t c e = (
  λ h. subst (λ u. u ≤ c) (passed_injective (cc (h.reads, e))) h.known,
  λ h. record { time = t; reads = e; known = h },
)

pub aware_iff :
    (d : DateTime) (t c : Instant) → require_utc_aware d ≡ passed t → AwareBy d c ↔ (t ≤ c)
aware_iff d t c e = (
  λ h. subst (λ u. u ≤ c) (passed_injective (cc (h.reads, e))) h.known,
  λ h. record { time = t; reads = e; known = h },
)

pub reading-eq-mapped :
    {A : Type 0} (x : Checked A) (f : A → Mapped) (m : TemporalMetadata)
    → reading x f ≡ mapped m
    → (a : A) × (x ≡ passed a) × (f a ≡ mapped m)
reading-eq-mapped (passed a) f m h = (a, refl, h)
reading-eq-mapped (value_error e) f m h = cc
reading-eq-mapped overflow_error f m h = cc

pub construct-eq-mapped : (m m' : TemporalMetadata) → construct m ≡ mapped m' → m ≡ m'
unfolding construct validate_order
construct-eq-mapped m m' h = ground arith

abbrev pub IsUsable : TemporalMetadata → Instant → Type 0
IsUsable m c = (decide_at m c true historical_replay).is_usable ≡ true

-- The five conditions of a replay.
abbrev pub IsOpen : TemporalMetadata → Instant → Type 0
IsOpen m c =
    AtMost m.available_at c
    × AtMost m.ingested_at c
    × AtMost m.as_of c
    × StartedBy m.effective_from c
    × EndsAfter m.effective_to c

-- They are all, for an object with an availability or a start of its effect.
pub IsUsable-IsOpen :
    (m : TemporalMetadata) (c : Instant)
    → (m.available_at ≢ none) ⊎ (m.effective_from ≢ none)
    → IsUsable m c ↔ IsOpen m c
IsUsable-IsOpen m c given =
    let (to, from) = usable_iff_IsVisible m c true historical_replay in
    (
      λ h. let v = to h in (v.available, v.ingested, v.snapshot, v.started, v.running),
      λ h. from (record {
        available = h.0;
        ingested = h.1;
        snapshot = h.2;
        started = h.3;
        running = h.4;
        attributed = λ _. elim given [ inl a ↦ inl a | inr e ↦ inr (inr (inr e)) ];
      }),
    )

-- What the constructor returns is usable where its argument is open.
pub exact :
    (m m' : TemporalMetadata) (c : Instant) {P : Type 0}
    → construct m ≡ mapped m'
    → (m.available_at ≢ none) ⊎ (m.effective_from ≢ none)
    → IsOpen m c ↔ P
    → IsUsable m' c ↔ P
exact m m' c {P} e given h =
    subst (λ u. IsUsable u c ↔ P) (construct-eq-mapped m m' e)
      (let (to, from) = IsUsable-IsOpen m c given in (λ u. h.0 (to u), λ p. from (h.1 p)))

pub if_mapped :
    (b : Bool) (x : Mapped) (m : TemporalMetadata)
    → (if b then mapping_error else x) ≡ mapped m
    → x ≡ mapped m
if_mapped true x m h = cc
if_mapped false x m h = h

pub optional_iff :
    (d : Option DateTime) (o : Option Instant) (c : Instant)
    → optional_from_storage d ≡ passed o
    → AtMost o c ↔ OptionalBy d c
optional_iff none o c h = subst (λ u. AtMost u c ↔ Unit) (passed_injective h) (λ _. tt, λ _. tt)
optional_iff (some d) o c h = by_case (utc_from_storage d) refl h
  where
    by_case :
        (x : Checked Instant)
        → utc_from_storage d ≡ x
        → (x >>= λ t. passed (some t)) ≡ passed o
        → AtMost o c ↔ ReadBy d c
    by_case (passed t) e k =
        let (to, from) = read_iff d t c e in
        subst (λ u. AtMost u c ↔ ReadBy d c) (passed_injective k) (from, to)
    by_case (value_error x) e k = cc
    by_case overflow_error e k = cc

pub filing_by :
    (d : Option DateTime) (filing : Option Date) (o : Option Instant) (c : Instant)
    → (elim d as (λ _. Checked (Option Instant)) [
      | some a ↦ (utc_from_storage a >>= λ t. passed (some t))
      | none ↦ passed (first_instant filing)
    ])
      ≡ passed o
    → AtMost o c ↔ FiledBy d filing c
filing_by (some d) filing o c h = optional_iff (some d) o c h
filing_by none none o c h =
    subst (λ u. AtMost u c ↔ Unit {0}) (passed_injective h) (λ _. tt, λ _. tt)
filing_by none (some d) o c h =
    subst (λ u. AtMost u c ↔ (start_of_day d ≤ c)) (passed_injective h) (λ a. a, λ a. a)

pub filing_iff :
    (r : FundamentalRecord) (o : Option Instant) (c : Instant)
    → filing_publication r ≡ passed o
    → AtMost o c ↔ FiledBy r.accepted_at r.filing_date c
unfolding filing_publication
filing_iff r o c h = filing_by r.accepted_at r.filing_date o c h

pub expiry_iff :
    (d : Option DateTime) (o : Option Instant) (end : Option (Bound Instant)) (c : Instant)
    → optional_from_storage d ≡ passed o
    → EndsAfter (ending o end) c ↔ NotExpired d end c
expiry_iff none o end c h =
    subst (λ u. EndsAfter (ending u end) c ↔ EndsAfter end c) (passed_injective h) (λ e. e, λ e. e)
expiry_iff (some d) o end c h = by_case (utc_from_storage d) refl h
  where
    by_case :
        (x : Checked Instant)
        → utc_from_storage d ≡ x
        → (x >>= λ t. passed (some t)) ≡ passed o
        → EndsAfter (ending o end) c ↔ ¬ ReadBy d c
    by_case (passed t) e k =
        subst (λ u. EndsAfter (ending u end) c ↔ ¬ ReadBy d c) (passed_injective k)
          (ground (arith, read_iff d t c e))
    by_case (value_error x) e k = cc
    by_case overflow_error e k = cc

pub max_with_iff :
    (t : Instant) (o : Option Instant) (c : Instant) → (max_with t o ≤ c) ↔ ((t ≤ c) × AtMost o c)
max_with_iff t none c = ground arith
max_with_iff t (some u) c = ground arith

pub or_else_iff : (o : Option Instant) (t c : Instant) → t ≤ c → (or_else o t ≤ c) ↔ AtMost o c
or_else_iff none t c h = ground arith
or_else_iff (some u) t c h = ground arith

pub bound_or_iff :
    (b : Option (Bound Instant)) (t c : Instant)
    → t ≤ c
    → StartedBy (some (bound_or b t)) c ↔ StartedBy b c
bound_or_iff none t c h = (λ _. tt, λ _. h)
bound_or_iff (some b) t c h = (λ s. s, λ s. s)

pub ends_iff : (d : Option Date) (c : Instant) → EndsAfter (optional_day d) c ↔ BeforeDay c d
ends_iff none c = (λ e. e, λ e. e)
ends_iff (some d) c = (λ e. e, λ e. e)

-- The two maxima of a memory, apart.
pub memory_iff :
    (t c : Instant) (o available ingested : Option Instant) (from : Option (Bound Instant))
    (E : Type 0)
    → ((max_with (max t (or_else o t)) available ≤ c)
        × (max_with (or_else o t) ingested ≤ c)
        × Unit {0}
        × StartedBy (some (bound_or from t)) c
        × E)
      ↔ ((t ≤ c) × AtMost o c × AtMost available c × AtMost ingested c × StartedBy from c × E)
memory_iff t c o available ingested from E = ground (
  arith,
  max_with_iff (max t (or_else o t)) available c,
  max_with_iff (or_else o t) ingested c,
  or_else_iff o t c,
  bound_or_iff from t c,
)
