-- ===== src/Game/Answers.antt =====
-- What `client_manager::do_some` answers while no user is logged in.
use my_warehouse.Game.Manager.{
  process_read, find_client_use_id, find, insert_new, answer_data, logic_found, put_code,
  put_message, read_request, process, process_login, process_logic, do_some, same_bytes,
  insert_client_use_id,
}
use my_warehouse.Game.Client.{start_timer, Client, init_user_info, client_new, game_client, ◌>>=◌}
use my_warehouse.Common.{
  ◌∙◌, ap, ◌+◌, ℕ, ◌<◌, ◌≡◌, refl, arith, Bool, true, false, Option, none, some, List, [], codes,
  decimal, if◌then◌else◌,
}
use my_warehouse.Game.Json.{
  Json, IsJson, ErrorCode, error_number, succeeded, user_not_login, user_not_exist,
  json_parser_error, json_getvalue_exception, test_error_code, unknown_error,
}

second_of : {A B : Type 0} → Option (A × B) → Option B
second_of none = none
second_of (some (a, b)) = some b

bind-some :
    {A B : Type 0} (o : Option A) (f : A → Option B) (b : B)
    → (o >>= f) ≡ some b
    → (a : A) × (o ≡ some a) × (f a ≡ some b)
bind-some none f b e = absurd (cc)
bind-some (some a) f b e = (a, refl, e)

small : (ec : ErrorCode) → error_number ec < 0x80000000
small succeeded = omega arith
small user_not_login = omega arith
small user_not_exist = omega arith
small json_parser_error = omega arith
small json_getvalue_exception = omega arith
small test_error_code = omega arith
small unknown_error = omega arith

module _ (json : Json) (laws : IsJson json) where
  -- The code of the answer where the map of users is empty.
  abbrev pub request_code : Option (List ℕ × ℕ) → ErrorCode
  request_code none = json_getvalue_exception
  request_code (some (version, id)) =
      if same_bytes version (codes "0.0.1") then user_not_exist else user_not_login

  abbrev pub answer_code : Option json.Value → ErrorCode
  answer_code none = json_parser_error
  answer_code (some root) = request_code (read_request json (game_client json) root)

  abbrev Coded : ErrorCode → Option (json.Value × List (ℕ × Client json)) → Type 0
  Coded ec o =
      (v : json.Value) × (o ≡ some (v, []))
      × laws.IsObject v
      × (json.get v (codes "errorcode") ≡ some (json.of_int (error_number ec)))

  put_code-Coded :
      (ec : ErrorCode) (res : json.Value)
      → laws.IsObject res
      → Coded ec (put_code json (game_client json) ec res >>= λ v. some (v, []))
  put_code-Coded ec res o =
      let (v, e, o') =
        laws.set-IsObject res (json.of_int (error_number ec)) (codes "errorcode") o in
      (v, rw e refl, o', laws.get-set res v _ (codes "errorcode") e)

  init_user_info-code :
      (roll id : ℕ) (c : Client json)
      → (c' : Client json) × (init_user_info json roll id c ≡ some (user_not_exist, c'))
  unfolding init_user_info start_timer
  init_user_info-code roll id c =
      let (v₁, e₁, o₁) =
        laws.set-IsObject json.null (json.of_int roll) (codes "Value") laws.null-IsObject in
      let (v₂, e₂, o₂) = laws.set-IsObject v₁ (json.of_string (codes "ZX")) (codes "Name") o₁ in
      let (v₃, e₃, o₃) = laws.set-IsObject v₂ (json.of_int id) (codes "UsrID") o₂ in
      let (v₄, e₄, o₄) =
        laws.set-IsObject json.null (json.of_int 100) (codes "subObj") laws.null-IsObject in
      let (v₅, e₅, o₅) = laws.set-IsObject v₃ v₄ (codes "sub1") o₃ in
      (record { session_data = v₅; waits = c.waits + 1; id = id }, rw (e₁, e₂, e₃, e₄, e₅) refl)

  process_login-Coded :
      (roll id : ℕ) (res : json.Value)
      → laws.IsObject res
      → Coded user_not_exist (process_login json (game_client json) roll id res [])
  unfolding process_login insert_client_use_id insert_new answer_data find_client_use_id find
  process_login-Coded roll id res o =
      let (c, e) = init_user_info-code roll id (client_new json) in
      rw e (put_code-Coded user_not_exist res o)

  read_request-id :
      (root : json.Value) (r : List ℕ × ℕ)
      → read_request json (game_client json) root ≡ some r
      → (json.get root (codes "UsrID") >>= json.as_int) ≡ some r.1
  unfolding read_request second_of
  read_request-id root r e =
      let (a₁, e₁, f₁) = bind-some (json.get root (codes "ClientVersion")) _ r e in
      let (a₂, e₂, f₂) = bind-some (json.as_string a₁) _ r f₁ in
      let (a₃, e₃, f₃) = bind-some (json.get root (codes "SceneId")) _ r f₂ in
      let (a₄, e₄, f₄) = bind-some (json.as_string a₃) _ r f₃ in
      let (a₅, e₅, f₅) = bind-some (json.get root (codes "UsrID")) _ r f₄ in
      let (a₆, e₆, f₆) = bind-some (json.as_int a₅) _ r f₅ in rw (e₅, e₆) (ap second_of f₆)

  process_logic-Coded :
      (root res : json.Value) (id : ℕ)
      → (json.get root (codes "UsrID") >>= json.as_int) ≡ some id
      → laws.IsObject res
      → Coded user_not_login (process_logic json (game_client json) root res [])
  unfolding process_logic logic_found find_client_use_id find
  process_logic-Coded root res id e o =
      let (x, e₁, e₂) = bind-some (json.get root (codes "UsrID")) _ id e in
      rw (e₁, e₂) (put_code-Coded user_not_login res o)

  if-Coded :
      (b : Bool) (x y : ErrorCode) (m n : Option (json.Value × List (ℕ × Client json)))
      → Coded x m
      → Coded y n
      → Coded (if b then x else y) (if b then m else n)
  if-Coded true x y m n c d = c
  if-Coded false x y m n c d = d

  process_read-Coded :
      (roll : ℕ) (root res : json.Value) (read : Option (List ℕ × ℕ))
      → read_request json (game_client json) root ≡ read
      → laws.IsObject res
      → Coded (request_code read) (process_read json (game_client json) roll root read res [])
  unfolding process_read
  process_read-Coded roll root res none e o = put_code-Coded json_getvalue_exception res o
  process_read-Coded roll root res (some r) e o =
      if-Coded (same_bytes r.0 (codes "0.0.1")) _ _ _ _ (process_login-Coded roll r.1 res o)
        (process_logic-Coded root res r.1 (read_request-id root r e) o)

  process-Coded :
      (roll : ℕ) (parsed : Option json.Value) (res : json.Value)
      → laws.IsObject res
      → Coded (answer_code parsed) (process json (game_client json) roll parsed res [])
  unfolding process
  process-Coded roll none res o = put_code-Coded json_parser_error res o
  process-Coded roll (some root) res o =
      process_read-Coded roll root res (read_request json (game_client json) root) refl o

  -- While no user is logged in, and for a response that is an object or null, `do_some` returns without
  -- an exception, gives an object and leaves no user logged in: it answers a body that is no JSON with
  -- JSON_PARSER_ERROR, a request whose three members are not a string, a string and an int with
  -- JSON_GETVALUE_EXCEPTION, every login with USER_NOT_EXIST and every other request with
  -- USER_NOT_LOGIN, each time as the number and as its text.
  pub do_some-answer :
      (roll : ℕ) (body : List ℕ) (res : json.Value)
      → laws.IsObject res
      → (v : json.Value) × (do_some json (game_client json) roll body res [] ≡ some (v, []))
        × laws.IsObject v
        × (json.get v (codes "errorcode")
            ≡ some (json.of_int (error_number (answer_code (json.parse body)))))
        × (json.get v (codes "errormsg")
            ≡ some (json.of_string (decimal (error_number (answer_code (json.parse body))))))
  unfolding do_some put_message
  do_some-answer roll body res o =
      let ec = answer_code (json.parse body) in
      let (v₁, e₁, o₁) = laws.set-IsObject res (json.of_int 0) (codes "errorcode") o in
      let (v₂, e₂, o₂, g₂) = process-Coded roll (json.parse body) v₁ o₁ in
      let (v₃, e₃, o₃) =
        laws.set-IsObject v₂ (json.of_string (decimal (error_number ec))) (codes "errormsg") o₂ in
      (
        v₃,
        rw (e₁, e₂, g₂, laws.as_string-of_int (error_number ec) (small ec), e₃) refl,
        o₃,
        laws.get-set-other v₂ v₃ _ (codes "errormsg") (codes "errorcode") (λ e. absurd (cc)) e₃
            ∙ g₂,
        laws.get-set v₂ v₃ _ (codes "errormsg") e₃,
      )
