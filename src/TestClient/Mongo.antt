-- ===== src/TestClient/Mongo.antt =====
-- The functions of `client/TestClient.cpp` that try out the drivers of MongoDB, as the calls that they
-- make. The drivers are parameters: what their calls return is an argument of each function, and a
-- document, client, collection, cursor or text of theirs is known by a name.
pub mod Released
use my_warehouse.Common.{ℕ, zero, suc, Bool, true, false, List, [], ◌∷◌, ◌++◌, if◌then◌else◌}

-- The local variables that hold what a driver made.
pub data Object : Type 0 where
  client : Object
  collection : Object
  cursor : Object
  doc : Object
  query : Object
  update : Object
  command : Object
  reply : Object
  str : Object

-- A call of a driver: it makes an object, from others; uses objects; or destroys one.
pub data Call : Type 0 where
  make : Object → List Object → Call
  use_all : List Object → Call
  destroy : Object → Call

-- `mongoc_client_new` and `mongoc_client_get_collection`, with which every function begins, and the two
-- calls with which it ends.
unfoldable pub connect : List Call
connect = make client [] ∷ make collection (client ∷ []) ∷ []

unfoldable pub disconnect : List Call
disconnect = destroy collection ∷ destroy client ∷ []

-- `mongodb_insert`; what the insertion returns only decides on the output.
unfoldable pub mongodb_insert : List Call
mongodb_insert =
    connect
    ++ (make doc []
        ∷ use_all (doc ∷ [])
        ∷ use_all (doc ∷ [])
        ∷ use_all (collection ∷ doc ∷ [])
        ∷ destroy doc
        ∷ [])
    ++ disconnect

-- The label `fail` of `mongodb_update`, for whether `doc`, `query` and `update` are made.
unfoldable pub destroy_if : Bool → Object → List Call
destroy_if made x = if made then destroy x ∷ [] else []

unfoldable pub fail : Bool → Bool → Bool → List Call
fail has_doc has_query has_update =
    destroy_if has_doc doc
    ++ destroy_if has_query query
    ++ destroy_if has_update update
    ++ disconnect

-- `mongodb_update`, for what the insertion returns; what the update returns only decides on the output.
unfoldable pub mongodb_update : Bool → List Call
mongodb_update inserted =
    let updating =
      make query [] ∷ make update [] ∷ use_all (collection ∷ query ∷ update ∷ []) ∷ [] in
    connect
    ++ (make doc [] ∷ use_all (collection ∷ doc ∷ []) ∷ [])
    ++ (if inserted then updating ++ fail true true true else fail true false false)

-- The two functions `mongodb_delete`: with an insertion before it, and of a given id.
unfoldable pub mongodb_delete_id : List Call
mongodb_delete_id =
    connect
    ++ (make doc [] ∷ use_all (doc ∷ []) ∷ use_all (collection ∷ doc ∷ []) ∷ destroy doc ∷ [])
    ++ disconnect

unfoldable pub mongodb_delete : List Call
mongodb_delete =
    connect
    ++ (make doc []
        ∷ use_all (doc ∷ [])
        ∷ use_all (doc ∷ [])
        ∷ use_all (collection ∷ doc ∷ [])
        ∷ destroy doc
        ∷ [])
    ++ (make doc [] ∷ use_all (doc ∷ []) ∷ use_all (collection ∷ doc ∷ []) ∷ destroy doc ∷ [])
    ++ disconnect

-- `run_command`, for what `mongoc_collection_command_simple` returns. It makes `reply` in either case.
unfoldable pub run_command : Bool → List Call
run_command ran =
    connect
    ++ (make command [] ∷ make reply (collection ∷ command ∷ []) ∷ [])
    ++ (if ran then make str (reply ∷ []) ∷ use_all (str ∷ []) ∷ destroy str ∷ [] else [])
    ++ (destroy command ∷ destroy reply ∷ [])
    ++ disconnect

-- The loop over the documents that the cursor gives.
unfoldable pub print_all : ℕ → List Call
print_all zero = use_all (cursor ∷ []) ∷ []
print_all (suc n) =
    use_all (cursor ∷ []) ∷ make str (cursor ∷ []) ∷ use_all (str ∷ []) ∷ destroy str ∷ print_all n

-- `mongodb_find` and `mongodb_find_specific`, for the number of documents that are found.
unfoldable pub find_with : List Call → ℕ → List Call
find_with fill n =
    connect
    ++ (make query [] ∷ [])
    ++ fill
    ++ (make cursor (collection ∷ query ∷ []) ∷ [])
    ++ print_all n
    ++ (destroy query ∷ destroy cursor ∷ [])
    ++ disconnect

unfoldable pub mongodb_find : ℕ → List Call
mongodb_find n = find_with [] n

unfoldable pub mongodb_find_specific : ℕ → List Call
mongodb_find_specific n = find_with (use_all (query ∷ []) ∷ []) n
