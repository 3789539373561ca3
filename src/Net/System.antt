-- ===== src/Net/System.antt =====
-- The server as it runs: the acceptor and the set of `http_server.cpp`, the sessions of
-- `http_session.cpp`, and the state that their calls of `invoke` share. A handler of the acceptor or of
-- one session is one step; steps of different sessions follow each other in any order.
pub mod Invariant
use my_warehouse.Common.{ℕ, ◌≡◌, true, false, Option, none, some, List, ◌==◌, if◌then◌else◌}
use my_warehouse.Net.IoServicePool.{IoServicePool}
use my_warehouse.Net.Server.{HttpServer, erase_session, on_accept, http_server}
use my_warehouse.Net.Session.{Session, start}
use my_warehouse.Net.Lifetime.{Handler, set_world}

module _ {J W : Type 0} (write : J → List ℕ) (invoke : List ℕ → J → W → J × W) (null : J) where
  pub record System : Type 0 where
    pub server : HttpServer
    pub table : ℕ → Option (Session J W)  -- the sessions that were started
    pub world : W

  unfoldable pub put_session :
      ℕ → Session J W → (ℕ → Option (Session J W)) → ℕ → Option (Session J W)
  put_session h s table k = if h == k then some s else table k

  -- The set after a handler of the session `h`: `close` erases it.
  unfoldable pub settle : ℕ → Session J W → HttpServer → HttpServer
  settle h s server = if s.registered then server else erase_session h server

  unfoldable pub launch : IoServicePool → W → System
  launch pool world = record { server = http_server pool; table = λ h. none; world = world }

  pub data Moves (y : System) : System → Type 0 where
    connected :
        (h io : ℕ) (server : HttpServer)
        → y.server.accepting ≡ some (h, io)
        → on_accept false h y.server ≡ some server
        → Moves y (record y {
          server = server;
          table = put_session h (start write invoke null y.world) y.table;
        })
    refused :
        (h io : ℕ) (server : HttpServer)
        → y.server.accepting ≡ some (h, io)
        → on_accept true h y.server ≡ some server
        → Moves y (record y { server = server })
    handled :
        (h : ℕ) (s s' : Session J W)
        → y.table h ≡ some s
        → Handler write invoke (set_world write invoke y.world s) s'
        → Moves y (record {
          server = settle h s' y.server;
          table = put_session h s' y.table;
          world = s'.target.world;
        })

  pub data Reaches (y : System) : System → Type 0 where
    begun : Reaches y y
    moved : {u v : System} → Reaches y u → Moves u v → Reaches y v
