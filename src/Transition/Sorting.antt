-- ===== src/Transition/Sorting.antt =====
-- `sorted(set(...))` gives the members in strictly ascending order, and a loop that collects changes
-- gives one for each item.
use deepinsight.Prelude.{
  String, ◌≡◌, refl, sym, subst, ◌∙◌, ◌↔◌, ◌⊎◌, inl, inr, true, false, List, [], ◌∷◌, same_text,
  text_lt, eq_iff, Bool-cases, In,
}
use deepinsight.Transition.Collections.{insert_sorted, sorted_set}
use deepinsight.Transition.Order.{text_lt_irrefl, text_lt_trans, text_lt_total}

-- Every text is less than all later ones.
abbrev pub IsAscending : List String → Type 0
IsAscending [] = Unit
IsAscending (x ∷ xs) = ((y : String) → In y xs → text_lt x y ≡ true) × IsAscending xs

text_lt_dec : (s t : String) → same_text s t ≡ false → text_lt s t ≡ false → text_lt t s ≡ true
text_lt_dec s t differ h = elim (Bool-cases (text_lt t s)) [
  | inl e ↦ e
  | inr e ↦ cc (differ, (eq_iff s t).1 (text_lt_total s t h e))
]

-- The three outcomes of one step of the insertion.
insert_sorted-cases :
    (s t : String) (ts : List String)
    → ((s ≡ t) × (insert_sorted s (t ∷ ts) ≡ t ∷ ts))
      ⊎ ((text_lt s t ≡ true) × (insert_sorted s (t ∷ ts) ≡ s ∷ t ∷ ts))
      ⊎ ((text_lt t s ≡ true) × (insert_sorted s (t ∷ ts) ≡ t ∷ insert_sorted s ts))
unfolding insert_sorted
insert_sorted-cases s t ts = elim (Bool-cases (same_text s t)) [
  | inl e ↦ inl ((eq_iff s t).0 e, cc)
  | inr e ↦ elim (Bool-cases (text_lt s t)) [
    | inl l ↦ inr (inl (l, cc))
    | inr l ↦ inr (inr (text_lt_dec s t e l, cc))
  ]
]

insert_sorted-In :
    (s : String) (ts : List String) (y : String) → In y (insert_sorted s ts) ↔ ((s ≡ y) ⊎ In y ts)
unfolding insert_sorted
insert_sorted-In s [] y = (λ m. m, λ m. m)
insert_sorted-In s (t ∷ ts) y =
    let (down, up) = insert_sorted-In s ts y in
    elim (insert_sorted-cases s t ts) [
      | inl (e, k) ↦
          subst (λ us. In y us ↔ ((s ≡ y) ⊎ In y (t ∷ ts))) (sym k)
            (λ m. inr m, λ m. elim m [ inl i ↦ inl (sym e ∙ i) | inr r ↦ r ])
      | inr (inl (l, k)) ↦
          subst (λ us. In y us ↔ ((s ≡ y) ⊎ In y (t ∷ ts))) (sym k) (λ m. m, λ m. m)
      | inr (inr (l, k)) ↦
          subst (λ us. In y us ↔ ((s ≡ y) ⊎ In y (t ∷ ts))) (sym k)
            (
              λ m. elim m [
                | inl i ↦ inr (inl i)
                | inr r ↦ elim (down r) [ inl i ↦ inl i | inr q ↦ inr (inr q) ]
              ],
              λ m. elim m [
                | inl i ↦ inr (up (inl i))
                | inr (inl i) ↦ inl i
                | inr (inr q) ↦ inr (up (inr q))
              ],
            )
    ]

insert_sorted-IsAscending :
    (s : String) (ts : List String) → IsAscending ts → IsAscending (insert_sorted s ts)
unfolding insert_sorted
insert_sorted-IsAscending s [] h = (λ y m. absurd m, tt)
insert_sorted-IsAscending s (t ∷ ts) h = elim (insert_sorted-cases s t ts) [
  | inl (e, k) ↦ subst IsAscending (sym k) h
  | inr (inl (l, k)) ↦ subst IsAscending (sym k) (
    λ y m. elim m [
      | inl i ↦ subst (λ z. text_lt s z ≡ true) i l
      | inr r ↦ text_lt_trans s t y l (h.0 y r)
    ],
    h,
  )
  | inr (inr (l, k)) ↦ subst IsAscending (sym k) (
    λ y m. elim ((insert_sorted-In s ts y).0 m) [
      | inl i ↦ subst (λ z. text_lt t z ≡ true) i l
      | inr r ↦ h.0 y r
    ],
    insert_sorted-IsAscending s ts h.1,
  )
]

sorted_set-In : (ss : List String) (y : String) → In y (sorted_set ss) ↔ In y ss
unfolding sorted_set
sorted_set-In [] y = (λ m. m, λ m. m)
sorted_set-In (s ∷ ss) y =
    let (down, up) = insert_sorted-In s (sorted_set ss) y in
    let (from, to) = sorted_set-In ss y in
    (
      λ m. elim (down m) [ inl i ↦ inl i | inr r ↦ inr (from r) ],
      λ m. elim m [ inl i ↦ up (inl i) | inr r ↦ up (inr (to r)) ],
    )

sorted_set-IsAscending : (ss : List String) → IsAscending (sorted_set ss)
unfolding sorted_set
sorted_set-IsAscending [] = tt
sorted_set-IsAscending (s ∷ ss) =
    insert_sorted-IsAscending s (sorted_set ss) (sorted_set-IsAscending ss)

head-eq :
    (x y : String) (xs ys : List String)
    → IsAscending (x ∷ xs)
    → IsAscending (y ∷ ys)
    → ((z : String) → In z (x ∷ xs) ↔ In z (y ∷ ys))
    → x ≡ y
head-eq x y xs ys (lower, a) (lower', b) same = elim ((same x).0 (inl refl)) [
  | inl e ↦ sym e
  | inr m ↦ elim ((same y).1 (inl refl)) [
    | inl e ↦ e
    | inr n ↦ cc (text_lt_trans x y x (lower y n) (lower' x m), text_lt_irrefl x)
  ]
]

tail-sub :
    (x y : String) (xs ys : List String)
    → ((z : String) → In z xs → text_lt x z ≡ true)
    → x ≡ y
    → ((z : String) → In z (x ∷ xs) → In z (y ∷ ys))
    → (z : String) → In z xs
    → In z ys
tail-sub x y xs ys lower e same z m = elim (same z (inr m)) [
  | inl i ↦ cc (lower z m, text_lt_irrefl x)
  | inr n ↦ n
]

-- A strictly ascending list is determined by its members.
unique_ascending :
    (xs ys : List String)
    → IsAscending xs
    → IsAscending ys
    → ((z : String) → In z xs ↔ In z ys)
    → xs ≡ ys
unique_ascending [] [] a b same = refl
unique_ascending [] (y ∷ ys) a b same = absurd ((same y).1 (inl refl))
unique_ascending (x ∷ xs) [] a b same = absurd ((same x).0 (inl refl))
unique_ascending (x ∷ xs) (y ∷ ys) a b same =
    let e = head-eq x y xs ys a b same in
    let rest = unique_ascending xs ys a.1 b.1 (λ z. (
      tail-sub x y xs ys a.0 e (λ u. (same u).0) z,
      tail-sub y x ys xs b.0 (sym e) (λ u. (same u).1) z,
    )) in
    λ i. e i ∷ rest i

-- `sorted_set` is the only strictly ascending list with the members of its argument.
pub sorted_set_iff :
    (ss ts : List String)
    → (sorted_set ss ≡ ts) ↔ (IsAscending ts × ((y : String) → In y ts ↔ In y ss))
sorted_set_iff ss ts = (
  λ e.
      subst (λ us. IsAscending us × ((y : String) → In y us ↔ In y ss)) e
        (sorted_set-IsAscending ss, sorted_set-In ss),
  λ h.
      unique_ascending (sorted_set ss) ts (sorted_set-IsAscending ss) h.0 (λ y.
        let (a, b) = sorted_set-In ss y in let (c, d) = h.1 y in (λ m. d (a m), λ m. b (c m))),
)
