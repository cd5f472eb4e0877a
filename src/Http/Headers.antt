-- ===== src/Http/Headers.antt =====
-- The headers of a request and of a response: the loop over `headers` in `get_text`, and `_header`.
use deepinsight.Prelude.{
  String, Bool, ◌||◌, Option, none, some, List, [], ◌∷◌, if◌then◌else◌, codes, same_text, is_blank,
  same_codes, has_code, casefold,
}

-- `headers[name] = value`
unfoldable pub put : String → String → List (String × String) → List (String × String)
put name value [] = (name, value) ∷ []
put name value ((n, v) ∷ rest) =
    let rest' = put name value rest in
    if same_text n name then (n, value) ∷ rest else (n, v) ∷ rest'

unfoldable pub get : String → List (String × String) → Option String
get name [] = none
get name ((n, v) ∷ rest) = let found = get name rest in if same_text n name then some v else found

unfoldable pub folds_to : String → String → Bool
unfolding casefold
folds_to name expected = same_codes (casefold (codes name)) (codes expected)

unfoldable pub is_reserved : String → Bool
unfolding folds_to
is_reserved name =
    folds_to name "user-agent"
    || folds_to name "accept"
    || folds_to name "accept-encoding"
    || folds_to name "host"

-- "\r" in text or "\n" in text
abbrev pub breaks_line : String → Bool
breaks_line text = has_code 13 (codes text) || has_code 10 (codes text)

unfoldable pub is_invalid_header : String → String → Bool
unfolding is_blank is_reserved
is_invalid_header name value =
    is_blank name || is_reserved name || breaks_line name || breaks_line value

-- The loop over the caller's headers; `none` is its ValueError.
unfoldable pub add_headers :
    List (String × String) → List (String × String) → Option (List (String × String))
unfolding is_invalid_header put
add_headers request_headers [] = some request_headers
add_headers request_headers ((name, value) ∷ headers) =
    let rest = add_headers (put name value request_headers) headers in
    if is_invalid_header name value then none else rest

abbrev pub own_headers : (user_agent accept : String) → List (String × String)
own_headers user_agent accept =
    ("User-Agent", user_agent) ∷ ("Accept", accept) ∷ ("Accept-Encoding", "gzip, deflate") ∷ []

-- `_header`
unfoldable pub header : List (String × String) → String → Option String
unfolding casefold
header [] name = none
header ((key, value) ∷ headers) name =
    let rest = header headers name in
    if same_codes (casefold (codes key)) (casefold (codes name)) then some value else rest
