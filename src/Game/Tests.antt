-- ===== src/Game/Tests.antt =====
-- A small jsoncpp on which the requests run: values are null, numbers, texts, and objects that grow
-- at the front.
use my_warehouse.Game.Manager.{
  on_client_timer, process, process_read, process_login, process_logic, read_request, put_message,
  find_client_use_id, insert_client_use_id, insert_new, insert, answer_data, do_some, same_bytes,
  find,
}
use my_warehouse.Game.Expiry.{Holding, nobody, asked, Holding-expired}
use my_warehouse.Common.{
  Bool, false, ◌+◌, ℕ, ◌≡◌, ◌≢◌, refl, sym, ap, subst, arith, true, Option, none, some, List, [],
  ◌∷◌, codes, decimal, if◌then◌else◌, Bool-cases, inl, inr,
}
use my_warehouse.Game.Json.{succeeded, Json, IsJson, error_number}
use my_warehouse.Game.Client.{game_client, ClientInterface}
use my_warehouse.Game.Answers.{answer_code, do_some-answer}
use my_warehouse.Game.Users.{IsMap}

pub data Value : Type 0 where
  null : Value
  int : ℕ → Value
  text : List ℕ → Value
  member : List ℕ → Value → Value → Value

pub get : Value → List ℕ → Option Value
get null key = some null
get (int n) key = none
get (text s) key = none
get (member k x v) key = let rest = get v key in if same_bytes k key then some x else rest

abbrev set : Value → List ℕ → Value → Option Value
set null key x = some (member key x null)
set (int n) key x = none
set (text s) key x = none
set (member k y v) key x = some (member key x (member k y v))

abbrev as_string : Value → Option (List ℕ)
as_string null = some []
as_string (int n) = some (decimal n)
as_string (text s) = some s
as_string (member k x v) = none

abbrev as_int : Value → Option ℕ
as_int null = some 0
as_int (int n) = some n
as_int (text s) = none
as_int (member k x v) = none

abbrev members : Value → List (List ℕ × Value)
members (member k x v) = (k, x) ∷ members v
members null = []
members (int n) = []
members (text s) = []

-- Every body is a request of the user 7, with the body as its version.
abbrev parse : List ℕ → Option Value
parse [] = none
parse (c ∷ cs) = some (
    member (codes "ClientVersion") (text (c ∷ cs))
      (member (codes "SceneId") (text []) (member (codes "UsrID") (int 7) null)))

abbrev pub small_json : Json
small_json = record {
  Value = Value;
  null = null;
  parse = parse;
  write = λ v. codes "{}";
  get = get;
  set = set;
  as_string = as_string;
  as_int = as_int;
  of_string = text;
  of_int = int;
  members = members;
}

abbrev IsObject : Value → Type 0
IsObject null = Unit
IsObject (int n) = ⊥
IsObject (text s) = ⊥
IsObject (member k x v) = Unit

set-IsObject :
    (v x : Value) (key : List ℕ) → IsObject v → (v' : Value) × (set v key x ≡ some v') × IsObject v'
set-IsObject null x key o = (member key x null, refl, tt)
set-IsObject (int n) x key o = absurd o
set-IsObject (text s) x key o = absurd o
set-IsObject (member k y v) x key o = (member key x (member k y v), refl, tt)

same_bytes_refl : (s : List ℕ) → same_bytes s s ≡ true
same_bytes_refl [] = refl
same_bytes_refl (c ∷ s) = ground (arith, same_bytes_refl s)

same_bytes-equal : (s t : List ℕ) → same_bytes s t ≡ true → s ≡ t
same_bytes-equal [] [] e = refl
same_bytes-equal [] (d ∷ t) e = absurd (cc)
same_bytes-equal (c ∷ s) [] e = absurd (cc)
same_bytes-equal (c ∷ s) (d ∷ t) e =
    let p : c ≡ d = ground arith in
    let q : same_bytes s t ≡ true = ground arith in let r = same_bytes-equal s t q in cc

or_null : Option Value → Value
or_null none = null
or_null (some v) = v

-- What is read from the object that `set` makes.
set-front : (v v' x : Value) (key : List ℕ) → set v key x ≡ some v' → member key x v ≡ v'
unfolding or_null
set-front null v' x key e = ap or_null e
set-front (int n) v' x key e = absurd (cc)
set-front (text s) v' x key e = absurd (cc)
set-front (member k y v) v' x key e = ap or_null e

get-set : (v v' x : Value) (key : List ℕ) → set v key x ≡ some v' → get v' key ≡ some x
unfolding get
get-set v v' x key e =
    subst (λ w. get w key ≡ some x) (set-front v v' x key e) (rw (same_bytes_refl key) refl)

get-set-other :
    (v v' x : Value) (key key' : List ℕ)
    → key' ≢ key
    → set v key x ≡ some v'
    → get v' key' ≡ get v key'
unfolding get
get-set-other v v' x key key' n e =
    subst (λ w. get w key' ≡ get v key') (set-front v v' x key e)
      (elim (Bool-cases (same_bytes key key')) [
        | inl t ↦ absurd (n (sym (same_bytes-equal key key' t)))
        | inr t ↦ rw t refl
      ])

pub small_json-IsJson : IsJson small_json
small_json-IsJson = record {
  IsObject = IsObject;
  null-IsObject = tt;
  set-IsObject = set-IsObject;
  get-set = get-set;
  get-set-other = get-set-other;
  as_string-of_int = λ n h. refl;
}

do_some-answer_example :
    (v : Value) × (do_some small_json (game_client small_json) 3 (codes "0.0.1") null []
      ≡ some (v, []))
    × IsObject v
    × (get v (codes "errorcode")
        ≡ some (
            int (
              error_number (
                answer_code small_json small_json-IsJson (
                  some (
                    member (codes "ClientVersion") (text (codes "0.0.1")) (
                      member
                        (codes "SceneId")
                        (text [])
                        (member (codes "UsrID") (int 7) null))))))))
    × (get v (codes "errormsg")
        ≡ some (
            text (
              decimal
                (error_number (answer_code small_json small_json-IsJson (parse (codes "0.0.1")))))))
unfolding small_json-IsJson
do_some-answer_example = do_some-answer small_json small_json-IsJson 3 (codes "0.0.1") null tt

-- Clients that count the calls, and can log in.
abbrev counting : ClientInterface small_json
counting = record {
  Client = ℕ;
  client_new = 0;
  init_user_info = λ roll id c. some (succeeded, c + 1);
  do_some = λ c root respons. some (succeeded, c + 1, respons);
  get_session_data = λ c respons. some respons;
}

abbrev logged_in : Value
logged_in =
    member (codes "errormsg") (text (decimal 0))
      (member (codes "errorcode") (int 0) (member (codes "errorcode") (int 0) null))

abbrev only_user : List (ℕ × ℕ)
only_user = (7, 1) ∷ []

login : do_some small_json counting 3 (codes "0.0.1") null [] ≡ some (logged_in, only_user)
unfolding do_some process process_read process_login process_logic read_request put_message
    find_client_use_id find insert_client_use_id insert_new insert answer_data get
login = refl

only_user-Holding : Holding small_json counting only_user
only_user-Holding = asked 3 (codes "0.0.1") null logged_in nobody login

Holding-expired_example :
    IsMap only_user
    × ((id : ℕ) → find id (on_client_timer false true id only_user) ≡ none)
    × ((aborted alive : Bool) (id k : ℕ)
        → k ≢ id
        → find k (on_client_timer aborted alive id only_user) ≡ find k only_user)
Holding-expired_example = Holding-expired small_json counting only_user only_user-Holding
