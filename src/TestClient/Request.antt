-- ===== src/TestClient/Request.antt =====
-- `func` of `client/TestClient.cpp`: the request that it writes, in two pieces, and the session of the
-- server that reads it.
pub mod Delivered
use my_warehouse.Common.{
  false, ℕ, Option, none, some, List, [], ◌∷◌, ◌++◌, codes, take, drop, decimal, if◌then◌else◌,
}
use my_warehouse.Net.Session.{Session, start, on_read}

-- The arrays `b` and `b1`.
abbrev pub b : List ℕ
b =
    codes
      "POST / HTTP/1.1\r\nHost: 120.132.85.254:8080\r\nAccept: * /*\r\nContent-Type: text/json; charset=utf-8\r\nCon"

abbrev pub b1 : List ℕ
b1 =
    codes
      "tent-Length: 91\r\n\r\n{\n   \"ClientVersion\" : \"0.0.1\",\n   \"SceneId\" : \"SceneAndroidEnGold_1\",\n   \"UsrID\" : 8962\n}\r\n"

-- What the two calls of `write` send: 120 bytes of headers, and the body with one byte behind it.
abbrev pub request : List ℕ
request = b ++ b1

-- A handler of requests that keeps the bodies it is given, the last first.
abbrev pub keep_body : List ℕ → ℕ → List (List ℕ) → ℕ × List (List ℕ)
keep_body body root bodies = (root, body ∷ bodies)

abbrev pub Reader : Type 0
Reader = Session ℕ (List (List ℕ))

-- A read of a session, where it waits for one.
unfoldable pub read_if : List ℕ → Option Reader → Option Reader
read_if bytes none = none
read_if bytes (some s) = if s.reading then on_read decimal keep_body false bytes s else some s

-- Two reads of a new session, of which the first ends after `k` bytes.
unfoldable pub read_twice : ℕ → Option Reader
read_twice k =
    read_if (drop k request) (read_if (take k request) (some (start decimal keep_body 0 [])))

-- The bodies that the handler was given.
unfoldable pub given_bodies : Option Reader → List (List ℕ)
given_bodies none = []
given_bodies (some s) = s.target.world
