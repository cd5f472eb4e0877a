-- ===== src/Ontology/Lookup.antt =====
-- The dictionary that `_unique_by` makes.
use deepinsight.Prelude.{
  ◌+◌, ◌≡◌, ◌≢◌, refl, sym, ap, ◌∙◌, ◌⊎◌, inl, inr, String, Bool, true, false, some, List, [], ◌∷◌,
  length, if◌then◌else◌, same_text, eq_iff, eq_refl, Bool-cases, none_if_passed, found_or_rest, All,
  In, arith,
}
use deepinsight.Ontology.Passing.{All-map}
use deepinsight.Ontology.Checks.{find, is_known, unique_by}

All-both :
    {A : Type 0} (P Q : A → Type 0) (items : List A)
    → All P items
    → All Q items
    → All (λ a. P a × Q a) items
All-both P Q [] h k = tt
All-both P Q (item ∷ items) h k = ((h.0, k.0), All-both P Q items h.1 k.1)

neither : (b c : Bool) → (if b then true else c) ≡ false → (b ≡ false) × (c ≡ false)
neither true c e = cc
neither false c e = (refl, e)

module _ {A : Type 0} (key : A → String) where
  -- No two items have one key.
  abbrev pub IsUnique : List A → Type 0
  IsUnique [] = Unit
  IsUnique (item ∷ items) = All (λ other. key item ≢ key other) items × IsUnique items

  abbrev New : List (String × A) → A → Type 0
  New result item = is_known (key item) result ≡ false

  unique_by-first :
      (item : A) (items : List A) (result by_key : List (String × A))
      → unique_by key (item ∷ items) result ≡ some by_key
      → New result item × (unique_by key items ((key item, item) ∷ result) ≡ some by_key)
  unfolding unique_by
  unique_by-first item items result by_key e =
      none_if_passed (is_known (key item) result) _ by_key e

  known-find :
      (k : String) (x : A) (result : List (String × A))
      → find k result ≡ some x
      → is_known k result ≡ true
  known-find k x [] e = cc
  known-find k x ((l, y) ∷ result) e = elim (Bool-cases (same_text l k)) [
    | inl same ↦ rw same refl
    | inr other ↦ rw other (known-find k x result (sym (rw other refl) ∙ e))
  ]

  -- A new key hides no other.
  kept :
      (item : A) (result : List (String × A)) (k : String) (x : A)
      → New result item
      → find k result ≡ some x
      → find k ((key item, item) ∷ result) ≡ some x
  kept item result k x new h = elim (Bool-cases (same_text (key item) k)) [
    | inl same ↦
        let equal = (eq_iff (key item) k).0 same in
        let known = known-find k x result h in
        let clash : is_known k result ≡ false = rw (← equal) new in cc
    | inr other ↦ rw other h
  ]

  pub unique_by_keeps :
      (items : List A) (result by_key : List (String × A)) (k : String) (x : A)
      → unique_by key items result ≡ some by_key
      → find k result ≡ some x
      → find k by_key ≡ some x
  unfolding unique_by
  unique_by_keeps [] result by_key k x e h = let same : result ≡ by_key = cc in rw (← same) h
  unique_by_keeps (item ∷ items) result by_key k x e h =
      let (new, rest) = unique_by-first item items result by_key e in
      unique_by_keeps items _ by_key k x rest (kept item result k x new h)

  pub unique_by-find :
      (items : List A) (result by_key : List (String × A))
      → unique_by key items result ≡ some by_key
      → All (λ item. find (key item) by_key ≡ some item) items
  unique_by-find [] result by_key e = tt
  unique_by-find (item ∷ items) result by_key e =
      let (new, rest) = unique_by-first item items result by_key e in
      (
        unique_by_keeps items _ by_key (key item) item rest (rw (eq_refl (key item)) refl),
        unique_by-find items _ by_key rest,
      )

  pub find-In :
      (items : List A) (result by_key : List (String × A)) (k : String) (x : A)
      → unique_by key items result ≡ some by_key
      → find k by_key ≡ some x
      → (In x items × (key x ≡ k)) ⊎ (find k result ≡ some x)
  unfolding unique_by
  find-In [] result by_key k x e h = inr (let same : result ≡ by_key = cc in rw same h)
  find-In (item ∷ items) result by_key k x e h =
      let (new, rest) = unique_by-first item items result by_key e in
      elim (find-In items _ by_key k x rest h) [
        | inl (m, same) ↦ inl (inr m, same)
        | inr found ↦ elim (found_or_rest (same_text (key item) k) item (find k result) x found) [
          | inl (same, equal) ↦ inl (inl equal, ap key (sym equal) ∙ (eq_iff (key item) k).0 same)
          | inr (other, before) ↦ inr before
        ]
      ]

  pub length-unique_by :
      (items : List A) (result by_key : List (String × A))
      → unique_by key items result ≡ some by_key
      → length by_key ≡ length items + length result
  unfolding unique_by
  length-unique_by [] result by_key e =
      let same : result ≡ by_key = cc in omega (arith, ap length same)
  length-unique_by (item ∷ items) result by_key e =
      let (new, rest) = unique_by-first item items result by_key e in
      omega (arith, length-unique_by items _ by_key rest)

  New-apart :
      (item other : A) (result : List (String × A))
      → New ((key item, item) ∷ result) other
      → (key item ≢ key other) × New result other
  New-apart item other result e =
      let (differ, new) =
        neither (same_text (key item) (key other)) (is_known (key other) result) e in
      (λ same. let equal = (eq_iff (key item) (key other)).1 same in cc, new)

  apart-New :
      (item other : A) (result : List (String × A))
      → (key item ≢ key other) × New result other
      → New ((key item, item) ∷ result) other
  apart-New item other result (apart, new) = elim (Bool-cases (same_text (key item) (key other))) [
    | inl same ↦ absurd (apart ((eq_iff (key item) (key other)).0 same))
    | inr differ ↦ rw differ new
  ]

  unique_by-New :
      (items : List A) (result by_key : List (String × A))
      → unique_by key items result ≡ some by_key
      → All (New result) items
  unique_by-New [] result by_key e = tt
  unique_by-New (item ∷ items) result by_key e =
      let (new, rest) = unique_by-first item items result by_key e in
      (
        new,
        All-map _ _ (λ a h. (New-apart item a result h).1) items
            (unique_by-New items _ by_key rest),
      )

  pub unique_by-IsUnique :
      (items : List A) (result by_key : List (String × A))
      → unique_by key items result ≡ some by_key
      → IsUnique items
  unique_by-IsUnique [] result by_key e = tt
  unique_by-IsUnique (item ∷ items) result by_key e =
      let (new, rest) = unique_by-first item items result by_key e in
      (
        All-map _ _ (λ a h. (New-apart item a result h).0) items
            (unique_by-New items _ by_key rest),
        unique_by-IsUnique items _ by_key rest,
      )

  pub unique_by_returns :
      (items : List A) (result : List (String × A))
      → IsUnique items
      → All (New result) items
      → (by_key : List (String × A)) × (unique_by key items result ≡ some by_key)
  unfolding unique_by
  unique_by_returns [] result u n = (result, refl)
  unique_by_returns (item ∷ items) result u n =
      let news =
        All-map _ _ (λ a h. apart-New item a result h) items
          (All-both (λ other. key item ≢ key other) (New result) items u.0 n.1) in
      let (by_key, e) = unique_by_returns items ((key item, item) ∷ result) u.1 news in
      (by_key, rw n.0 e)
