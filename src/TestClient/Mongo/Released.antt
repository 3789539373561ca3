-- ===== src/TestClient/Mongo/Released.antt =====
-- What the functions of `client/TestClient.cpp` make of the drivers of MongoDB, they destroy.
use my_warehouse.Common.{
  ℕ, zero, suc, ◌≡◌, ◌∙◌, refl, ap, Bool, true, false, Option, none, some, List, [], ◌∷◌, ◌++◌,
  ◌==◌, if◌then◌else◌,
}
use my_warehouse.Game.Client.{◌>>=◌}
use my_warehouse.TestClient.Mongo.{
  Object, client, collection, cursor, doc, query, update, command, reply, str, Call, make, use_all,
  destroy, connect, disconnect, mongodb_insert, destroy_if, fail, mongodb_update, mongodb_delete_id,
  mongodb_delete, run_command, print_all, find_with, mongodb_find, mongodb_find_specific,
}

unfoldable pub number : Object → ℕ
number client = 0
number collection = 1
number cursor = 2
number doc = 3
number query = 4
number update = 5
number command = 6
number reply = 7
number str = 8

unfoldable pub is_live : Object → List Object → Bool
is_live x [] = false
is_live x (y ∷ ys) = let rest = is_live x ys in if number x == number y then true else rest

unfoldable pub are_live : List Object → List Object → Bool
are_live [] live = true
are_live (x ∷ xs) live = let rest = are_live xs live in if is_live x live then rest else false

unfoldable pub without : Object → List Object → List Object
without x [] = []
without x (y ∷ ys) = let rest = without x ys in if number x == number y then ys else y ∷ rest

-- The objects that are left after some calls: `none` where one of them makes an object over another that
-- is not destroyed, uses one that is not there, or destroys one that is not there.
unfoldable pub after_call : Call → List Object → Option (List Object)
after_call (make x from) live =
    if is_live x live then none else if are_live from live then some (x ∷ live) else none
after_call (use_all xs) live = if are_live xs live then some live else none
after_call (destroy x) live = if is_live x live then some (without x live) else none

unfoldable pub left_by : List Call → List Object → Option (List Object)
left_by [] live = some live
left_by (c ∷ cs) live = after_call c live >>= left_by cs

left_by-append :
    (xs ys : List Call) (live : List Object)
    → left_by (xs ++ ys) live ≡ (left_by xs live >>= left_by ys)
unfolding left_by
left_by-append [] ys live = refl
left_by-append (c ∷ xs) ys live = both (after_call c live) (λ live'. left_by-append xs ys live')
  where
    both :
        (o : Option (List Object))
        → ((live' : List Object) → left_by (xs ++ ys) live' ≡ (left_by xs live' >>= left_by ys))
        → (o >>= left_by (xs ++ ys)) ≡ ((o >>= left_by xs) >>= left_by ys)
    both none h = refl
    both (some live') h = h live'

left_by-then :
    (xs ys : List Call) (live live' : List Object)
    → left_by xs live ≡ some live'
    → left_by (xs ++ ys) live ≡ left_by ys live'
left_by-then xs ys live live' e = left_by-append xs ys live ∙ ap (λ o. o >>= left_by ys) e

abbrev found : List Object
found = cursor ∷ query ∷ collection ∷ client ∷ []

print_all-left_by : (n : ℕ) → left_by (print_all n) found ≡ some found
unfolding print_all left_by after_call is_live are_live without number
print_all-left_by zero = refl
print_all-left_by (suc n) = print_all-left_by n

find_with-Released :
    (fill : List Call) (n : ℕ)
    → left_by fill (query ∷ collection ∷ client ∷ []) ≡ some (query ∷ collection ∷ client ∷ [])
    → left_by (find_with fill n) [] ≡ some []
unfolding find_with left_by after_call is_live are_live without number connect disconnect
find_with-Released fill n e =
    let opened = fill ++ (make cursor (collection ∷ query ∷ []) ∷ []) in
    let a = left_by-then fill (make cursor (collection ∷ query ∷ []) ∷ []) _ _ e in
    let b = left_by-then opened (print_all n) _ _ a ∙ print_all-left_by n in
    let c = left_by-then (opened ++ print_all n) (destroy query ∷ destroy cursor ∷ []) _ _ b in
    left_by-then (opened ++ print_all n ++ (destroy query ∷ destroy cursor ∷ []))
      (destroy collection ∷ destroy client ∷ []) _ _ c

-- For every outcome of the drivers' calls, and every number of documents that are found: each function
-- destroys each object that it makes exactly once, and uses none before it is made or after it is
-- destroyed.
pub mongodb-Released :
    (n : ℕ) (worked : Bool)
    → (left_by mongodb_insert [] ≡ some [])
      × (left_by (mongodb_update worked) [] ≡ some [])
      × (left_by mongodb_delete [] ≡ some [])
      × (left_by mongodb_delete_id [] ≡ some [])
      × (left_by (run_command worked) [] ≡ some [])
      × (left_by (mongodb_find n) [] ≡ some [])
      × (left_by (mongodb_find_specific n) [] ≡ some [])
unfolding left_by after_call is_live are_live without number connect disconnect mongodb_insert
    mongodb_update mongodb_delete mongodb_delete_id run_command mongodb_find mongodb_find_specific
    destroy_if fail
mongodb-Released n true = (
  refl,
  refl,
  refl,
  refl,
  refl,
  find_with-Released [] n refl,
  find_with-Released (use_all (query ∷ []) ∷ []) n refl,
)
mongodb-Released n false = (
  refl,
  refl,
  refl,
  refl,
  refl,
  find_with-Released [] n refl,
  find_with-Released (use_all (query ∷ []) ∷ []) n refl,
)
