-- ===== src/Http/Headers.antt =====
-- `ci_less` and `std::map<std::string, std::string, ci_less>` of `request_respons.h`: the comparison
-- in any case of letters, and the map as the list of its entries in that order.
use my_warehouse.Common.{
  false, ℕ, ◌+◌, Bool, true, ◌&&◌, Option, none, some, List, [], ◌∷◌, ltb, leb, if◌then◌else◌,
}

-- `tolower` of the C locale.
abbrev pub tolower : ℕ → ℕ
tolower c = if leb b'A' c && leb c b'Z' then c + 32 else c

-- `std::lexicographical_compare` with `nocase_compare`.
unfoldable pub ci_less : List ℕ → List ℕ → Bool
ci_less s [] = false
ci_less [] (d ∷ t) = true
ci_less (c ∷ s) (d ∷ t) =
    let rest = ci_less s t in
    if ltb (tolower c) (tolower d)
    then true
    else if ltb (tolower d) (tolower c)
    then false
    else rest

-- The entries of a map, in the order of `begin()` to `end()`.
abbrev pub Headers : Type 0
Headers = List (List ℕ × List ℕ)

-- `find`: the value of the entry, if it is not `end()`.
unfoldable pub find : List ℕ → Headers → Option (List ℕ)
unfolding ci_less
find key [] = none
find key ((k, v) ∷ hs) =
    let rest = find key hs in if ci_less key k then none else if ci_less k key then rest else some v

-- `headers_[key] = value`: the key of an entry that is there stays as it is written.
unfoldable pub put : List ℕ → List ℕ → Headers → Headers
unfolding ci_less
put key value [] = (key, value) ∷ []
put key value ((k, v) ∷ hs) =
    let rest = put key value hs in
    if ci_less key k
    then (key, value) ∷ (k, v) ∷ hs
    else if ci_less k key
    then (k, v) ∷ rest
    else (k, value) ∷ hs

-- The two functions `get_header`, for what `find` gives: the value or `default_value_`, which nothing sets;
-- and whether there is a value, with the caller's variable after the call.
unfoldable pub header_or : List ℕ → Option (List ℕ) → Bool × List ℕ
header_or value none = (false, value)
header_or value (some v) = (true, v)

unfoldable pub get_header : List ℕ → Headers → List ℕ
get_header key hs = (header_or [] (find key hs)).1

unfoldable pub get_header_into : List ℕ → List ℕ → Headers → Bool × List ℕ
get_header_into key value hs = header_or value (find key hs)
