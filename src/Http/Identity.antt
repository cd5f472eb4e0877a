-- ===== src/Http/Identity.antt =====
-- The headers of a request: those of the client cannot be replaced.
use deepinsight.Prelude.{
  ◌≡◌, refl, ap, ◌∙◌, inl, inr, String, true, false, Option, none, some, List, [], ◌∷◌,
  if◌then◌else◌, same_text, eq_iff, is_blank, all_space, casefold, Bool-cases, none_if_passed,
  arith, All,
}
use deepinsight.Http.Headers.{put, get, is_reserved, is_invalid_header, add_headers, own_headers}

-- The value that a dictionary holds under a name after insertions, the last one first.
abbrev pub value_after : String → List (String × String) → Option String → Option String
value_after name [] before = before
value_after name ((n, v) ∷ rest) before =
    value_after name rest (if same_text n name then some v else before)

get-put :
    (name n v : String) (hs : List (String × String))
    → get name (put n v hs) ≡ (if same_text n name then some v else get name hs)
unfolding put get
get-put name n v [] = refl
get-put name n v ((m, u) ∷ hs) =
    ground (arith, get-put name n v hs, eq_iff m n, eq_iff m name, eq_iff n name)

-- The first header is admitted, and the loop goes on.
add_headers-first :
    (hs extra hs' : List (String × String)) (n v : String)
    → add_headers hs ((n, v) ∷ extra) ≡ some hs'
    → (is_invalid_header n v ≡ false) × (add_headers (put n v hs) extra ≡ some hs')
unfolding add_headers
add_headers-first hs extra hs' n v e = none_if_passed (is_invalid_header n v) _ hs' e

get-add_headers :
    (name : String) (hs extra hs' : List (String × String))
    → add_headers hs extra ≡ some hs'
    → get name hs' ≡ value_after name extra (get name hs)
unfolding add_headers
get-add_headers name hs [] hs' e = ap (get name) (cc)
get-add_headers name hs ((n, v) ∷ extra) hs' e =
    get-add_headers name (put n v hs) extra hs' (add_headers-first hs extra hs' n v e).1
    ∙ ap (value_after name extra) (get-put name n v hs)

abbrev IsAdmitted : String × String → Type 0
IsAdmitted (n, v) = is_invalid_header n v ≡ false

add_headers-IsAdmitted :
    (hs extra hs' : List (String × String)) → add_headers hs extra ≡ some hs' → All IsAdmitted extra
add_headers-IsAdmitted hs [] hs' e = tt
add_headers-IsAdmitted hs ((n, v) ∷ extra) hs' e =
    let (good, rest) = add_headers-first hs extra hs' n v e in
    (good, add_headers-IsAdmitted (put n v hs) extra hs' rest)

-- A name of the client's own.
abbrev pub IsOwn : String → Type 0
IsOwn name = (v : String) → is_invalid_header name v ≡ true

-- No admitted header has such a name.
value_after-own :
    (name : String) (extra : List (String × String)) (before : Option String)
    → IsOwn name
    → All IsAdmitted extra
    → value_after name extra before ≡ before
value_after-own name [] before own h = refl
value_after-own name ((n, v) ∷ extra) before own h = elim (Bool-cases (same_text n name)) [
  | inl same ↦ let equal = (eq_iff n name).0 same in let reserved = own v in let free = h.0 in cc
  | inr other ↦ rw other (value_after-own name extra before own h.1)
]

-- What the request carries: under a name the last value that the caller gives, or the client's own;
-- the caller gives none for a name of the client's, nor for Host.
pub record IsIdentified (user_agent accept : String) (extra hs : List (String × String))
    : Type 0 where
  pub agent : get "User-Agent" hs ≡ some user_agent
  pub accepted : get "Accept" hs ≡ some accept
  pub encoding : get "Accept-Encoding" hs ≡ some "gzip, deflate"
  pub each :
      (name : String)
      → get name hs ≡ value_after name extra (get name (own_headers user_agent accept))
  pub no_host : get "Host" hs ≡ none

-- When the loop over the caller's headers admits them all, the request carries the client's User-
-- Agent, Accept and Accept-Encoding as they were and no Host, and under each name the last value
-- that the caller gives or else the client's own.
pub add_headers-IsIdentified :
    (user_agent accept : String) (extra hs : List (String × String))
    → add_headers (own_headers user_agent accept) extra ≡ some hs
    → IsIdentified user_agent accept extra hs
unfolding get is_invalid_header is_reserved casefold is_blank all_space
add_headers-IsIdentified user_agent accept extra hs e =
    let good = add_headers-IsAdmitted _ extra hs e in
    let held = λ (name : String). get-add_headers name _ extra hs e in
    record {
      agent = held "User-Agent" ∙ value_after-own "User-Agent" extra _ (λ v. refl) good;
      accepted = held "Accept" ∙ value_after-own "Accept" extra _ (λ v. refl) good;
      encoding =
          held "Accept-Encoding" ∙ value_after-own "Accept-Encoding" extra _ (λ v. refl) good;
      each = held;
      no_host = held "Host" ∙ value_after-own "Host" extra _ (λ v. refl) good;
    }
