-- ===== src/TestClient/Tests.antt =====
-- The test client's calls where two documents are found, and its request in the two pieces that it writes.
use my_warehouse.Common.{◌≡◌, arith, true, some, [], ◌∷◌}
use my_warehouse.TestClient.Mongo.{
  mongodb_insert, mongodb_update, mongodb_delete_id, mongodb_delete, run_command, mongodb_find,
  mongodb_find_specific,
}
use my_warehouse.TestClient.Mongo.Released.{left_by, mongodb-Released}
use my_warehouse.TestClient.Request.{read_twice, given_bodies}
use my_warehouse.TestClient.Request.Delivered.{delivered, request-Delivered}

mongodb-Released_example :
    (left_by mongodb_insert [] ≡ some [])
    × (left_by (mongodb_update true) [] ≡ some [])
    × (left_by mongodb_delete [] ≡ some [])
    × (left_by mongodb_delete_id [] ≡ some [])
    × (left_by (run_command true) [] ≡ some [])
    × (left_by (mongodb_find 2) [] ≡ some [])
    × (left_by (mongodb_find_specific 2) [] ≡ some [])
mongodb-Released_example = mongodb-Released 2 true

request-Delivered_example : given_bodies (read_twice 103) ≡ delivered 103 ∷ []
request-Delivered_example = request-Delivered 103 (omega arith) (omega arith)
