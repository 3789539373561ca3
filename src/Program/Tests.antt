-- ===== src/Program/Tests.antt =====
-- The program with a small jsoncpp, after its first connection.
use my_warehouse.Net.Lifetime.{set_world}
use my_warehouse.Net.Session.{on_read, Session, start, max_length}
use my_warehouse.Common.{
  ℕ, ◌+◌, ◌≤◌, ◌<◌, ◌≡◌, refl, true, false, none, some, List, [], ◌∷◌, length,
}
use my_warehouse.Game.Tests.{Value, small_json, small_json-IsJson}
use my_warehouse.Game.Program.{Process, main, invoke}
use my_warehouse.Net.IoServicePool.{IoServicePool, get_io_service}
use my_warehouse.Net.Server.{
  HttpServer, http_server, do_accept, on_accept, insert_session, has_session,
}
use my_warehouse.Net.System.{connected, begun, moved, launch, put_session}
use my_warehouse.Program.{Program, Runs, main-Runs}

abbrev rolls : ℕ → ℕ
rolls i = i + 1

abbrev two_services : IoServicePool
two_services = record { size = 2; next_io_service = 0 }

abbrev listening : HttpServer
listening = record {
  session = [];
  accepting = some (0, 0);
  made = 1;
  pool = record { size = 2; next_io_service = 1 };
}

abbrev one_session : HttpServer
one_session = record {
  session = 0 ∷ [];
  accepting = some (1, 1);
  made = 2;
  pool = record { size = 2; next_io_service = 0 };
}

accepted_one : on_accept false 0 listening ≡ some one_session
unfolding on_accept insert_session do_accept get_io_service has_session
accepted_one = refl

abbrev launched : Program small_json small_json-IsJson rolls
launched = record { server = listening; table = λ h. none; world = main small_json rolls }

abbrev running : Program small_json small_json-IsJson rolls
running = record launched {
  server = one_session;
  table =
      put_session small_json.write (invoke small_json rolls) small_json.null 0
        (start small_json.write (invoke small_json rolls) small_json.null (main small_json rolls))
        launched.table;
}

running-Runs : Runs small_json small_json-IsJson rolls two_services running
unfolding launch http_server do_accept get_io_service
running-Runs = moved begun (connected 0 0 one_session refl accepted_one)

main-Runs_example :
    (running.world.clients ≡ some [])
    × ((h : ℕ) (s : Session Value (Process small_json rolls)) (bytes : List ℕ)
        → running.table h ≡ some s
        → s.reading ≡ true
        → s.registered ≡ true
        → 0 < length bytes
        → s.pos + length bytes ≤ max_length
        → (s' : Session Value (Process small_json rolls)) × (on_read small_json.write
              (invoke small_json rolls)
              false
              bytes
              (set_world small_json.write (invoke small_json rolls) running.world s)
            ≡ some s')
          × (s'.target.world.clients ≡ some []))
main-Runs_example = main-Runs small_json small_json-IsJson rolls two_services running running-Runs
