-- ===== src/Game/Manager/Threads.antt =====
-- `client_manager.cpp` and `client_manager.h` with calls on several threads: what a call does under
-- `m_lock`, or on its own client alone, is one step. A client is known by a number that no other client
-- ever had, as its shared pointer is, and `objects` has its state.

pub mod Changes
pub mod Once
pub mod Resolve
pub mod Known
pub mod Pending
pub mod Alone
pub mod Described
mod Tests
use my_warehouse.Common.{
  ℕ, ◌+◌, Bool, true, false, Option, none, some, List, [], ◌∷◌, ◌++◌, ◌≡◌, if◌then◌else◌,
}
use my_warehouse.Game.Json.{Json, ErrorCode, succeeded, unknown_error}
use my_warehouse.Game.Client.{ClientInterface}
use my_warehouse.Game.Manager.{is_error, find, update, erase, insert, find_client_use_id}

module _ (json : Json) (iface : ClientInterface json) where
  pub record Shared : Type 0 where
    pub m_client : List (ℕ × ℕ)
    pub objects : List (ℕ × iface.Client)
    pub made : ℕ  -- the clients made so far

  -- Where a call stands: `process_login` before its search, `insert_client_use_id` before its search,
  -- before `init_user_info` and before `insert`; `process_logic` before its search and before the
  -- client's `do_some`; `erase`; a call that ended with a code and a client; and one that threw.
  pub data Call : Type 0 where
    login_finds : ℕ → ℕ → Call
    login_again : ℕ → ℕ → Call
    login_inits : ℕ → ℕ → Call
    login_inserts : ℕ → ℕ → Call
    logic_finds : ℕ → json.Value → json.Value → Call
    logic_works : ℕ → json.Value → json.Value → Call
    erases : ℕ → Call
    ended : ErrorCode → Option ℕ → Call
    threw : Call

  -- `if (ec)` after the search of `process_login`, and of `insert_client_use_id`.
  unfoldable pub login_found : Call → ErrorCode × Option ℕ → Call
  login_found next (ec, sc) = if is_error ec then next else ended ec sc

  -- `new client`, `init_user_info`, and the test of its code.
  unfoldable pub login_new : ℕ → Shared → Option (ErrorCode × iface.Client) → Call × Shared
  login_new id s none = (threw, s)
  login_new id s (some (ec, c)) = (
    if is_error ec then ended ec none else login_inserts id s.made,
    record s { objects = (s.made, c) ∷ s.objects; made = s.made + 1 },
  )

  -- `return !insert(id, sc) ? UNKNOWN_ERROR : SUCCEEDED;`.
  unfoldable pub login_inserted : ℕ → Shared → Bool × List (ℕ × ℕ) → Call × Shared
  login_inserted h s (fresh, m) =
      (ended (if fresh then succeeded else unknown_error) (some h), record s { m_client = m })

  unfoldable pub logic_searched : json.Value → json.Value → ErrorCode × Option ℕ → Call
  logic_searched root respons (ec, none) = ended ec none
  logic_searched root respons (ec, some h) =
      if is_error ec then ended ec (some h) else logic_works h root respons

  -- `sc->do_some(root, respons)`.
  unfoldable pub logic_worked :
      ℕ → Shared → Option (ErrorCode × iface.Client × json.Value) → Call × Shared
  logic_worked h s none = (threw, s)
  logic_worked h s (some (ec, c, v)) =
      (ended ec (some h), record s { objects = update h c s.objects })

  unfoldable pub work_on :
      ℕ
      → json.Value
      → json.Value
      → Option iface.Client
      → Option (ErrorCode × iface.Client × json.Value)
  work_on h root respons none = none
  work_on h root respons (some c) = iface.do_some c root respons

  -- The next step of a call.
  unfoldable pub go : Call → Shared → Call × Shared
  go (login_finds roll id) s =
      (login_found (login_again roll id) (find_client_use_id id s.m_client), s)
  go (login_again roll id) s =
      (login_found (login_inits roll id) (find_client_use_id id s.m_client), s)
  go (login_inits roll id) s = login_new id s (iface.init_user_info roll id iface.client_new)
  go (login_inserts id h) s = login_inserted h s (insert id h s.m_client)
  go (logic_finds id root respons) s =
      (logic_searched root respons (find_client_use_id id s.m_client), s)
  go (logic_works h root respons) s = logic_worked h s (work_on h root respons (find h s.objects))
  go (erases id) s = (ended succeeded none, record s { m_client = erase id s.m_client })
  go (ended ec sc) s = (ended ec sc, s)
  go threw s = (threw, s)

  -- The id of a call whose step is the answer `SUCCEEDED` after `insert`.
  unfoldable pub admitted : Call → Call → List ℕ
  admitted (login_inserts id h) (ended succeeded sc) = id ∷ []
  admitted _ _ = []

  -- The id that a step takes out.
  unfoldable pub taken_out : Call → List (ℕ × ℕ) → List ℕ
  taken_out (erases id) m = elim (find id m) [ none ↦ [] | some _ ↦ id ∷ [] ]
  taken_out _ m = []

  -- The manager with its calls, the ids for which a call was told that its client is the one logged in,
  -- and those that were taken out so far.
  pub record Manager : Type 0 where
    pub shared : Shared
    pub calls : List Call
    pub logged_in : List ℕ
    pub logged_out : List ℕ

  abbrev pub empty_manager : Manager
  empty_manager = record {
    shared = record { m_client = []; objects = []; made = 0 };
    calls = [];
    logged_in = [];
    logged_out = [];
  }

  -- The calls that the server and the timers make.
  unfoldable pub is_begin : Call → Bool
  is_begin (login_finds roll id) = true
  is_begin (logic_finds id root respons) = true
  is_begin (erases id) = true
  is_begin _ = false

  -- A step of a call that stands among the others.
  unfoldable pub step_call : List Call → Call → List Call → Manager → Manager
  step_call before c after t =
      let r = go c t.shared in
      record {
        shared = r.1;
        calls = before ++ r.0 ∷ after;
        logged_in = admitted c r.0 ++ t.logged_in;
        logged_out = taken_out c t.shared.m_client ++ t.logged_out;
      }

  pub data Step (t : Manager) : Manager → Type 0 where
    begins : (c : Call) → is_begin c ≡ true → Step t (record t { calls = c ∷ t.calls })
    goes :
        (before : List Call) (c : Call) (after : List Call)
        → t.calls ≡ before ++ c ∷ after
        → Step t (step_call before c after t)

  pub data Steps (t : Manager) : Manager → Type 0 where
    stay : Steps t t
    then_step : {u v : Manager} → Steps t u → Step u v → Steps t v
