-- ===== src/Game/Client.antt =====
-- `client_interface.h` and `client.h`: a user that is logged in.
use my_warehouse.Common.{ℕ, ◌+◌, Option, none, some, List, [], ◌∷◌, codes}
use my_warehouse.Game.Json.{Json, ErrorCode, user_not_exist, test_error_code}

infixl 5 ◌>>=◌
abbrev pub ◌>>=◌ : {A B : Type 0} → Option A → (A → Option B) → Option B
none >>= f = none
some a >>= f = f a

-- The virtual functions of `client_interface`. `none` stands for an exception; the objects are the
-- states of clients, and `roll` is what `rand()` returns.
pub record ClientInterface (json : Json) : Type 1 where
  pub Client : Type 0
  pub client_new : Client
  pub init_user_info : ℕ → ℕ → Client → Option (ErrorCode × Client)
  pub do_some : Client → json.Value → json.Value → Option (ErrorCode × Client × json.Value)
  pub get_session_data : Client → json.Value → Option json.Value

module _ (json : Json) where
  -- `class client`: the session's data, the number of waits on the timer, and the id.
  pub record Client : Type 0 where
    pub session_data : json.Value
    pub waits : ℕ
    pub id : ℕ

  unfoldable pub client_new : Client
  client_new = record { session_data = json.null; waits = 0; id = 0 }

  -- `start_timer`: one more handler waits for the same expiry.
  unfoldable pub start_timer : Client → Client
  start_timer c = record c { waits = c.waits + 1 }

  unfoldable pub init_user_info : ℕ → ℕ → Client → Option (ErrorCode × Client)
  init_user_info roll id c = do
    d₁ ← json.set json.null (codes "Value") (json.of_int roll)
    d₂ ← json.set d₁ (codes "Name") (json.of_string (codes "ZX"))
    d₃ ← json.set d₂ (codes "UsrID") (json.of_int id)
    v ← json.set json.null (codes "subObj") (json.of_int 100)
    d₄ ← json.set d₃ (codes "sub1") v
    some (user_not_exist, record (start_timer c) { session_data = d₄; id = id })

  unfoldable pub do_some :
      Client → json.Value → json.Value → Option (ErrorCode × Client × json.Value)
  do_some c root respons = some (test_error_code, start_timer c, respons)

  -- The loop of `get_session_data`: each member of the copy is swapped into the response.
  unfoldable pub copy_members : List (List ℕ × json.Value) → json.Value → Option json.Value
  copy_members [] respons = some respons
  copy_members ((name, v) ∷ rest) respons = json.set respons name v >>= copy_members rest

  unfoldable pub get_session_data : Client → json.Value → Option json.Value
  get_session_data c respons = copy_members (json.members c.session_data) respons

  -- `client` as a `client_interface`.
  abbrev pub game_client : ClientInterface json
  game_client = record {
    Client = Client;
    client_new = client_new;
    init_user_info = init_user_info;
    do_some = do_some;
    get_session_data = get_session_data;
  }
