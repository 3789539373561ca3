-- ===== src/Game/Manager.antt =====
-- `client_manager.h` and `client_manager.cpp`. The map `m_client` is the list of its entries, and a
-- client stands in it by its state: the map holds the only pointer that lasts.
pub mod Threads
use my_warehouse.Common.{
  ℕ, Bool, true, false, Option, none, some, List, [], ◌∷◌, codes, ◌==◌, if◌then◌else◌,
}
use my_warehouse.Game.Json.{
  Json, ErrorCode, error_number, succeeded, user_not_login, json_parser_error,
  json_getvalue_exception, unknown_error,
}
use my_warehouse.Game.Client.{ClientInterface, ◌>>=◌}

abbrev pub is_error : ErrorCode → Bool
is_error succeeded = false
is_error _ = true

abbrev pub same_bytes : List ℕ → List ℕ → Bool
same_bytes [] [] = true
same_bytes [] (d ∷ t) = false
same_bytes (c ∷ s) [] = false
same_bytes (c ∷ s) (d ∷ t) = let rest = same_bytes s t in if c == d then rest else false

-- `std::unordered_map<int, …>`.
module _ {C : Type 0} where
  unfoldable pub find : ℕ → List (ℕ × C) → Option C
  find id [] = none
  find id ((k, c) ∷ m) = let rest = find id m in if id == k then some c else rest

  -- The entry `id` now has the state `c`.
  unfoldable pub update : ℕ → C → List (ℕ × C) → List (ℕ × C)
  update id c [] = []
  update id c ((k, c') ∷ m) =
      let rest = update id c m in if id == k then (k, c) ∷ m else (k, c') ∷ rest

  -- `client_manager::erase`.
  unfoldable pub erase : ℕ → List (ℕ × C) → List (ℕ × C)
  erase id [] = []
  erase id ((k, c) ∷ m) = let rest = erase id m in if id == k then m else (k, c) ∷ rest

  -- The handler of a client's timer, where `aborted` is `operation_aborted` and `alive` says that the
  -- manager still is: `client::clear_client`.
  unfoldable pub on_client_timer : Bool → Bool → ℕ → List (ℕ × C) → List (ℕ × C)
  on_client_timer aborted alive id m = if aborted then m else if alive then erase id m else m

  -- `client_manager::insert`: nothing is inserted where the key is there.
  unfoldable pub insert : ℕ → C → List (ℕ × C) → Bool × List (ℕ × C)
  insert id c m = elim (find id m) [ none ↦ (true, (id, c) ∷ m) | some old ↦ (false, m) ]

  -- `find_client_use_id`.
  unfoldable pub find_client_use_id : ℕ → List (ℕ × C) → ErrorCode × Option C
  find_client_use_id id m = elim (find id m) [
    | none ↦ (user_not_login, none)
    | some c ↦ (succeeded, some c)
  ]

module _ (json : Json) (iface : ClientInterface json) where
  -- `m_client`.
  abbrev pub Clients : Type 0
  Clients = List (ℕ × iface.Client)

  -- What follows `init_user_info`.
  unfoldable pub insert_new :
      ℕ → Clients → ErrorCode × iface.Client → ErrorCode × Option iface.Client × Clients
  insert_new id m (ec, c) =
      let r = insert id c m in
      if is_error ec then (ec, none, m) else (if r.0 then succeeded else unknown_error, some c, r.1)

  -- `insert_client_use_id`: the code, `sc`, and the map.
  unfoldable pub insert_client_use_id :
      ℕ → ℕ → Clients → Option (ErrorCode × Option iface.Client × Clients)
  insert_client_use_id roll id m =
      let found = find_client_use_id id m in
      let fresh : Option (ErrorCode × Option iface.Client × Clients) = (do
        r ← iface.init_user_info roll id iface.client_new
        some (insert_new id m r)) in
      if is_error found.0 then fresh else some (found.0, found.1, m)

  -- `if (sc) sc->get_session_data(respons);`.
  unfoldable pub answer_data : Option iface.Client → json.Value → Option json.Value
  answer_data none respons = some respons
  answer_data (some c) respons = iface.get_session_data c respons

  abbrev pub put_code : ErrorCode → json.Value → Option json.Value
  put_code ec respons = json.set respons (codes "errorcode") (json.of_int (error_number ec))

  unfoldable pub process_login : ℕ → ℕ → json.Value → Clients → Option (json.Value × Clients)
  process_login roll id respons m =
      let found = find_client_use_id id m in
      let fresh : Option (json.Value × Clients) = (do
        r ← insert_client_use_id roll id m
        v ← put_code r.0 respons
        v' ← answer_data r.1 v
        some (v', r.2)) in
      let known : Option (json.Value × Clients) = (do
        v ← answer_data found.1 respons
        some (v, m)) in
      if is_error found.0 then fresh else known

  -- The rest of `process_logic`, for what `find_client_use_id` gives.
  unfoldable pub logic_found :
      ℕ
      → json.Value
      → json.Value
      → Clients
      → ErrorCode × Option iface.Client
      → Option (json.Value × Clients)
  logic_found id root respons m (ec, none) = do v ← put_code ec respons; some (v, m)
  logic_found id root respons m (ec, some c) = do
    r ← iface.do_some c root respons
    v ← iface.get_session_data r.1 r.2
    v' ← put_code r.0 v
    some (v', update id r.1 m)

  unfoldable pub process_logic : json.Value → json.Value → Clients → Option (json.Value × Clients)
  process_logic root respons m = do
    x ← json.get root (codes "UsrID")
    id ← json.as_int x
    logic_found id root respons m (find_client_use_id id m)

  -- The three values that are read inside the `try`.
  unfoldable pub read_request : json.Value → Option (List ℕ × ℕ)
  read_request root = do
    v ← json.get root (codes "ClientVersion")
    version ← json.as_string v
    s ← json.get root (codes "SceneId")
    scene ← json.as_string s
    u ← json.get root (codes "UsrID")
    id ← json.as_int u
    some (version, id)

  -- The `catch`, and the test of the version.
  unfoldable pub process_read :
      ℕ → json.Value → Option (List ℕ × ℕ) → json.Value → Clients → Option (json.Value × Clients)
  process_read roll root none res m = do v ← put_code json_getvalue_exception res; some (v, m)
  process_read roll root (some r) res m =
      if same_bytes r.0 (codes "0.0.1")
      then process_login roll r.1 res m
      else process_logic root res m

  -- The body of the `do … while (0)`.
  unfoldable pub process :
      ℕ → Option json.Value → json.Value → Clients → Option (json.Value × Clients)
  process roll none res m = do v ← put_code json_parser_error res; some (v, m)
  process roll (some root) res m = process_read roll root (read_request root) res m

  -- `res["errormsg"] = res["errorcode"].asString();`.
  unfoldable pub put_message : json.Value → Option json.Value
  put_message res = do
    code ← json.get res (codes "errorcode")
    text ← json.as_string code
    json.set res (codes "errormsg") (json.of_string text)

  -- `client_manager::do_some`, for the bytes of the request's body.
  unfoldable pub do_some : ℕ → List ℕ → json.Value → Clients → Option (json.Value × Clients)
  do_some roll body res m = do
    v ← put_code succeeded res
    r ← process roll (json.parse body) v m
    v' ← put_message r.0
    some (v', r.1)
