-- ===== src/Ontology/Table.antt =====
-- The dictionary of items with distinct keys: each item under its key, and no other entry.
use deepinsight.Prelude.{
  ◌≡◌, refl, ◌↔◌, inl, inr, String, some, List, [], Option-cases, In, In-All, All-In,
}
use deepinsight.Ontology.Checks.{Check, valid, find, unique_by, with_unique}
use deepinsight.Ontology.Lookup.{
  IsUnique, unique_by-find, find-In, unique_by-IsUnique, unique_by_returns,
}

module _ {A : Type 0} (key : A → String) (items : List A) where
  module _ (by_key : List (String × A)) (built : unique_by key items [] ≡ some by_key) where
    pub find_present : (item : A) → In item items → find (key item) by_key ≡ some item
    find_present item m =
        In-All (λ (x : A). find (key x) by_key ≡ some x) items
          (unique_by-find key items [] by_key built) item m

    pub find_member :
        (k : String) (item : A) → find k by_key ≡ some item → In item items × (key item ≡ k)
    find_member k item e = elim (find-In key items [] by_key k item built e) [
      | inl found ↦ found
      | inr wrong ↦ cc
    ]

  -- A dictionary is made, and the checks over it pass, exactly if the keys are distinct and they do.
  pub with_unique_iff :
      (message : String) (next : List (String × A) → Check) (P : Type 0)
      → ((by_key : List (String × A))
          → unique_by key items [] ≡ some by_key
          → (next by_key ≡ valid) ↔ P)
      → (with_unique (unique_by key items []) message next ≡ valid) ↔ (IsUnique key items × P)
  with_unique_iff message next P h = elim (Option-cases (unique_by key items [])) [
    | inl twice ↦ rw twice (
      λ e. cc,
      λ p.
          let (by_key, built) = unique_by_returns key items [] p.0 (All-In _ items (λ x m. refl)) in
          cc,
    )
    | inr (by_key, built) ↦
        let (down, up) = h by_key built in
        rw built (λ e. (unique_by-IsUnique key items [] by_key built, down e), λ p. up p.1)
  ]
