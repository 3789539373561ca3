-- ===== src/Game/Expiry.antt =====
-- The users of `client_manager.h` over the life of the program: requests, and the timers of `client.h`.
use my_warehouse.Common.{ℕ, ◌≡◌, ◌≢◌, refl, Bool, true, false, none, some, List, []}
use my_warehouse.Game.Json.{Json}
use my_warehouse.Game.Client.{ClientInterface}
use my_warehouse.Game.Manager.{Clients, do_some, find, on_client_timer}
use my_warehouse.Game.Users.{IsMap, erase-find, do_some-IsMap}

module _ {C : Type 0} where
  on_client_timer-IsMap :
      (aborted alive : Bool) (id : ℕ) (m : List (ℕ × C))
      → IsMap m
      → IsMap (on_client_timer aborted alive id m)
  unfolding on_client_timer
  on_client_timer-IsMap true alive id m h = h
  on_client_timer-IsMap false true id m h = (erase-find id m h).0
  on_client_timer-IsMap false false id m h = h

  on_client_timer-other :
      (aborted alive : Bool) (id k : ℕ) (m : List (ℕ × C))
      → IsMap m
      → k ≢ id
      → find k (on_client_timer aborted alive id m) ≡ find k m
  unfolding on_client_timer
  on_client_timer-other true alive id k m h n = refl
  on_client_timer-other false true id k m h n = (erase-find id m h).2 k n
  on_client_timer-other false false id k m h n = refl

module _ (json : Json) (iface : ClientInterface json) where
  -- The maps that lead on from the empty one, by requests and timers in any order.
  pub data Holding : Clients json iface → Type 0 where
    nobody : Holding []
    asked :
        {m m' : Clients json iface} (roll : ℕ) (body : List ℕ) (res v : json.Value)
        → Holding m
        → do_some json iface roll body res m ≡ some (v, m')
        → Holding m'
    expired :
        {m : Clients json iface} (aborted alive : Bool) (id : ℕ)
        → Holding m
        → Holding (on_client_timer aborted alive id m)

  Holding-IsMap : (m : Clients json iface) → Holding m → IsMap m
  Holding-IsMap _ nobody = tt
  Holding-IsMap m (asked {m = before} roll body res v h e) =
      do_some-IsMap json iface roll body res v before m (Holding-IsMap before h) e
  Holding-IsMap _ (expired {m} aborted alive id h) =
      on_client_timer-IsMap aborted alive id m (Holding-IsMap m h)

  -- For every implementation of a client, in every map of users that requests and timers lead to in any
  -- order: no id stands twice; a timer that runs out takes its user out of the map, while the manager
  -- lives; and no timer's handler touches another user.
  pub Holding-expired :
      (m : Clients json iface)
      → Holding m
      → IsMap m
        × ((id : ℕ) → find id (on_client_timer false true id m) ≡ none)
        × ((aborted alive : Bool) (id k : ℕ)
            → k ≢ id
            → find k (on_client_timer aborted alive id m) ≡ find k m)
  unfolding on_client_timer
  Holding-expired m h =
      let i = Holding-IsMap m h in
      (
        i,
        λ id. (erase-find id m i).1,
        λ aborted alive id k n. on_client_timer-other aborted alive id k m i n,
      )
