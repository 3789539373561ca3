-- ===== src/Game/Json.antt =====
-- What the program calls of jsoncpp, which is not part of the repository, and `error_code.h`. Strings
-- are lists of bytes, and an `int` is the number of its 32 bits.
use my_warehouse.Common.{ℕ, ◌<◌, ◌≡◌, ◌≢◌, Option, some, List, decimal}

-- `Json::Value` and its operations. `none` stands for the exception that an operation throws.
pub record Json : Type 1 where
  pub Value : Type 0
  pub null : Value
  pub parse : List ℕ → Option Value  -- `Reader::parse`
  pub write : Value → List ℕ  -- `FastWriter::write`
  pub get : Value → List ℕ → Option Value  -- `v[key]`, read
  pub set : Value → List ℕ → Value → Option Value  -- `v[key] = x`
  pub as_string : Value → Option (List ℕ)
  pub as_int : Value → Option ℕ
  pub of_string : List ℕ → Value
  pub of_int : ℕ → Value
  pub members : Value → List (List ℕ × Value)  -- `begin()` to `end()`, with the names

-- What the theorems use of jsoncpp's documentation: a member is written without an exception to null
-- and to an object, which is an object then; it is read back, the other members stay as they are; and
-- `asString` prints an int that is not negative in decimal.
pub record IsJson (json : Json) : Type 1 where
  pub IsObject : json.Value → Type 0
  pub null-IsObject : IsObject json.null
  pub set-IsObject :
      (v x : json.Value) (key : List ℕ)
      → IsObject v
      → (v' : json.Value) × (json.set v key x ≡ some v') × IsObject v'
  pub get-set :
      (v v' x : json.Value) (key : List ℕ) → json.set v key x ≡ some v' → json.get v' key ≡ some x
  pub get-set-other :
      (v v' x : json.Value) (key key' : List ℕ)
      → key' ≢ key
      → json.set v key x ≡ some v'
      → json.get v' key' ≡ json.get v key'
  pub as_string-of_int :
      (n : ℕ) → n < 0x80000000 → json.as_string (json.of_int n) ≡ some (decimal n)

-- `enum ERROR_CODE`.
pub data ErrorCode : Type 0 where
  succeeded user_not_login user_not_exist json_parser_error json_getvalue_exception : ErrorCode
  test_error_code unknown_error : ErrorCode

abbrev pub error_number : ErrorCode → ℕ
error_number succeeded = 0
error_number user_not_login = 1
error_number user_not_exist = 2
error_number json_parser_error = 3
error_number json_getvalue_exception = 4
error_number test_error_code = 9527
error_number unknown_error = 0x7fffffff
