-- ===== src/Game/Manager/Threads/Described.antt =====
-- What a login of `client_manager.cpp` answers and leaves, described by the user who is in the map and by
-- what `init_user_info` gives.
use my_warehouse.Common.{ℕ, Option, none, some, List, ◌∷◌}
use my_warehouse.Game.Json.{Json, ErrorCode, succeeded, unknown_error}
use my_warehouse.Game.Manager.Threads.{Manager}

module _ {C : Type 0} where
  -- The answer to a login, for the client of the user in the map, if there is one, and what
  -- `init_user_info` gives for a new client: `none` is an exception.
  abbrev pub described :
      ℕ
      → Option C
      → Option (ErrorCode × C)
      → List (ℕ × C)
      → Option (ErrorCode × Option C × List (ℕ × C))
  described id (some c) new m = some (succeeded, some c, m)
  described id none none m = none
  described id none (some (succeeded, c)) m = some (succeeded, some c, (id, c) ∷ m)
  described id none (some (ec, c)) m = some (ec, none, m)

  -- The answer to a login that has made its client, where another may have come first.
  abbrev pub described_late :
      ℕ → Option C → C → List (ℕ × C) → Option (ErrorCode × Option C × List (ℕ × C))
  described_late id (some other) c m = some (unknown_error, some c, m)
  described_late id none c m = some (succeeded, some c, (id, c) ∷ m)
