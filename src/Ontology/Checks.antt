-- ===== src/Ontology/Checks.antt =====
-- Checks that may raise, in sequence, and `_unique_by`.
use deepinsight.Prelude.{
  String, Bool, true, false, Option, none, some, List, [], ◌∷◌, if◌then◌else◌, same_text,
}

pub data Check : Type 0 where
  valid : Check
  -- A SectorOntologyValidationError, or a model validator's ValueError, with its message.
  invalid : String → Check
  -- An AssertionError, a KeyError, and a loop that has not ended.
  assertion_failed key_error unfinished : Check

infixr 2 ◌and_then◌
abbrev pub ◌and_then◌ : Check → Check → Check
valid and_then next = next
(invalid message) and_then next = invalid message
assertion_failed and_then next = assertion_failed
key_error and_then next = key_error
unfinished and_then next = unfinished

-- `if not test: raise SectorOntologyValidationError(message)`
abbrev pub require : Bool → String → Check
require true message = valid
require false message = invalid message

abbrev pub for_each : {A : Type 0} → (A → Check) → List A → Check
for_each check [] = valid
for_each check (item ∷ items) = check item and_then for_each check items

-- `values.get(key)` of a dictionary made from items.
abbrev pub find : {A : Type 0} → String → List (String × A) → Option A
find key [] = none
find key ((k, item) ∷ rest) = if same_text k key then some item else find key rest

abbrev pub is_known : {A : Type 0} → String → List (String × A) → Bool
is_known key [] = false
is_known key ((k, item) ∷ rest) = if same_text k key then true else is_known key rest

-- `_unique_by`; `none` is its "duplicate" error.
unfoldable pub unique_by :
    {A : Type 0} → (A → String) → List A → List (String × A) → Option (List (String × A))
unique_by key [] result = some result
unique_by key (item ∷ items) result =
    let rest = unique_by key items ((key item, item) ∷ result) in
    if is_known (key item) result then none else rest

abbrev pub with_unique :
    {A : Type 0}
    → Option (List (String × A))
    → (message : String) → (List (String × A) → Check)
    → Check
with_unique none message next = invalid message
with_unique (some by_key) message next = next by_key
