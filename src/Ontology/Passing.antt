-- ===== src/Ontology/Passing.antt =====
-- When checks in sequence pass.
use deepinsight.Prelude.{◌≡◌, refl, ◌↔◌, String, Bool, true, false, List, [], ◌∷◌, All}
use deepinsight.Ontology.Checks.{
  Check, valid, invalid, assertion_failed, key_error, unfinished, ◌and_then◌, require, for_each,
}

module _ {A B C : Type 0} where
  pub iff_trans : (A ↔ B) → (B ↔ C) → (A ↔ C)
  iff_trans f g = (λ a. g.0 (f.0 a), λ c. f.1 (g.1 c))

pub iff_pair : {A B C D : Type 0} → (A ↔ B) → (C ↔ D) → ((A × C) ↔ (B × D))
iff_pair f g = (λ p. (f.0 p.0, g.0 p.1), λ q. (f.1 q.0, g.1 q.1))

pub and_then_iff : (a b : Check) → ((a and_then b) ≡ valid) ↔ ((a ≡ valid) × (b ≡ valid))
and_then_iff valid b = (λ e. (refl, e), λ h. h.1)
and_then_iff (invalid message) b = (λ e. cc, λ h. let first = h.0 in cc)
and_then_iff assertion_failed b = (λ e. cc, λ h. let first = h.0 in cc)
and_then_iff key_error b = (λ e. cc, λ h. let first = h.0 in cc)
and_then_iff unfinished b = (λ e. cc, λ h. let first = h.0 in cc)

pub require_iff : (test : Bool) (message : String) → (require test message ≡ valid) ↔ (test ≡ true)
require_iff true message = (λ e. refl, λ e. refl)
require_iff false message = (λ e. cc, λ e. cc)

module _ {A : Type 0} (P Q : A → Type 0) (f : (a : A) → P a → Q a) where
  pub All-map : (items : List A) → All P items → All Q items
  All-map [] h = tt
  All-map (item ∷ items) h = (f item h.0, All-map items h.1)

pub All-iff :
    {A : Type 0} (P Q : A → Type 0)
    → ((a : A) → P a ↔ Q a)
    → (items : List A) → All P items ↔ All Q items
All-iff P Q f items = (All-map P Q (λ a. (f a).0) items, All-map Q P (λ a. (f a).1) items)

module _ {A : Type 0} (check : A → Check) where
  pub for_each_iff :
      (items : List A) → (for_each check items ≡ valid) ↔ All (λ item. check item ≡ valid) items
  for_each_iff [] = (λ e. tt, λ h. refl)
  for_each_iff (item ∷ items) =
      let (down, up) = for_each_iff items in
      let (apart, together) = and_then_iff (check item) (for_each check items) in
      (λ e. let (first, rest) = apart e in (first, down rest), λ h. together (h.0, up h.1))
