-- ===== src/Net/Tests.antt =====
-- A session that reads a request, a pool of two connections, and a pool of three services.
use my_warehouse.Common.{
  count, true, subst, ℕ, ◌+◌, ◌<◌, ◌≡◌, ◌⊎◌, ◌↔◌, refl, arith, false, Option, none, some, List, [],
  ◌∷◌, codes, decimal, length, inr,
}
use my_warehouse.Net.DbConnectPool.Leases.{leases, Leased, pool-Leased}
use my_warehouse.Net.IoServicePool.{
  get_io_service, IoServicePool, io_service_pool, get_io_services, in_turn, get_io_services-in_turn,
}
use my_warehouse.Net.Accepting.{Reached, here, later, erased, on_accept-inserts, on_accept-stops}
use my_warehouse.Net.Server.{
  insert_session, has_session, HttpServer, http_server, do_accept, on_accept, erase_session,
}
use my_warehouse.Net.DbConnectPool.{
  DbConnectPool, db_connect_pool, get_conn, release_conn, connect_all, push_back, is_full,
  get_front,
}
use my_warehouse.Net.DbConnectPool.Lending.{
  Reachable, built, got, held, release_conn-runs, get_conn-waits,
}
use my_warehouse.Net.Session.{Session, start, on_read, close, execute_read, after_read, do_read}
use my_warehouse.Net.Reading.{start-IsSession, Settled, on_read-runs, InvokeKeeps}
use my_warehouse.Net.Lifetime.{
  Steps, stay, step, ran, others, read_done, read_failed, set_world, Lives, Final, start-Steps,
  answered-Final,
}
use my_warehouse.Net.Lifetime.Errors.{errored-Silent}
use my_warehouse.Net.System.{System, Reaches, launch, put_session, connected, begun, moved}
use my_warehouse.Net.System.Invariant.{IsSystem, launch-Reaches}
use my_warehouse.Parser.Enums.{hpe_invalid_method}
use my_warehouse.Http.Response.{response_new}
use my_warehouse.Parser.Execute.{http_parser_execute}

abbrev services : ℕ
services = 3

get_io_services_example :
    (io_service_pool services ≡ none) × (services ≡ 0)
    ⊎ ((pool : IoServicePool) × (io_service_pool services ≡ some pool)
        × (get_io_services 7 pool ≡ in_turn services 0 7))
get_io_services_example = get_io_services-in_turn services 7

abbrev connect : ℕ → Option ℕ
connect i = some (i + 100)

abbrev two_free : DbConnectPool
two_free = record { m_conn_pool = record { capacity = 2; items = 101 ∷ 102 ∷ [] }; lent = [] }

abbrev one_lent : DbConnectPool
one_lent = record { m_conn_pool = record { capacity = 2; items = 102 ∷ [] }; lent = 101 ∷ [] }

two_free-Reachable : Reachable connect 2 two_free
unfolding db_connect_pool connect_all push_back is_full
two_free-Reachable = built refl

one_lent-Reachable : Reachable connect 2 one_lent
unfolding get_conn get_front
one_lent-Reachable = got 101 two_free-Reachable refl

release_conn_example :
    (length one_lent.m_conn_pool.items + length one_lent.lent ≡ 2)
    × ((conn : ℕ)
        → 0 < count conn one_lent.lent
        → (pool' : DbConnectPool) × (release_conn conn one_lent ≡ some pool')
          × ((c : ℕ) → held c pool' ≡ held c one_lent))
release_conn_example = release_conn-runs connect 2 one_lent one_lent-Reachable

get_conn_example :
    ((get_conn one_lent ≡ none) ↔ (length one_lent.lent ≡ 2))
    × ((conn : ℕ) (pool' : DbConnectPool)
        → get_conn one_lent ≡ some (conn, pool')
        → (one_lent.m_conn_pool.items ≡ conn ∷ pool'.m_conn_pool.items)
          × (pool'.lent ≡ conn ∷ one_lent.lent))
get_conn_example = get_conn-waits connect 2 one_lent one_lent-Reachable

-- A program that counts the bytes of the bodies that it is given.
abbrev invoke : List ℕ → ℕ → ℕ → ℕ × ℕ
invoke body root world = (root, world + length body)

abbrev post : List ℕ
post = codes "POST / HTTP/1.1\r\nContent-Length: 3\r\n\r\nabc"

abbrev fresh : Session ℕ ℕ
fresh = start decimal invoke 5 0

-- The value that the program answers with.
abbrev Five : ℕ → ℕ → Type 0
Five root world = root ≡ 5

keeps_Five : InvokeKeeps Five invoke
keeps_Five body root world h e = e

on_read_example :
    (s' : Session ℕ ℕ) × (on_read decimal invoke false post fresh ≡ some s')
    × Settled Five decimal invoke 41 s'
    × (s'.timing ≡ true)
unfolding start
on_read_example =
    on_read-runs Five decimal invoke keeps_Five post fresh
      (start-IsSession Five decimal invoke 5 0 refl) refl (omega arith) (omega arith)

-- A session whose first read fails while others serve seven bytes.
abbrev failed_read : Session ℕ ℕ
failed_read = record fresh { reading = false; registered = false }

failed_read-Steps : Steps Five decimal invoke fresh failed_read
unfolding on_read close start
failed_read-Steps = step stay (ran (read_failed refl refl refl))

abbrev seven_served : Session ℕ ℕ
seven_served = set_world decimal invoke 7 failed_read

seven_served-Steps : Steps Five decimal invoke failed_read seven_served
unfolding start response_new
seven_served-Steps = step stay (others 7 refl)

start-Steps_example : Lives Five decimal invoke failed_read
start-Steps_example =
    start-Steps Five decimal invoke keeps_Five 5 0 failed_read refl failed_read-Steps

answered-Final_example :
    (seven_served.target.written ≡ failed_read.target.written)
    × Final Five decimal invoke seven_served
answered-Final_example =
    answered-Final Five decimal invoke keeps_Five 5 0 failed_read seven_served refl
      failed_read-Steps (inr refl) seven_served-Steps

-- A session whose parser has met an error, and three bytes more.
abbrev broken : Session ℕ ℕ
broken = record fresh { parser = record (fresh.parser) { http_errno = hpe_invalid_method } }

abbrev more_read : Session ℕ ℕ
more_read = record broken { pos = 3; target = record (broken.target) { buffer = codes "abc" } }

more_read-Steps : Steps Five decimal invoke broken more_read
unfolding on_read execute_read http_parser_execute after_read do_read start
more_read-Steps =
    step stay (ran (read_done (codes "abc") refl refl (omega arith) (omega arith) refl))

errored-Silent_example :
    (more_read.parser.http_errno ≡ broken.parser.http_errno)
    × (more_read.target.written ≡ broken.target.written)
errored-Silent_example = errored-Silent Five decimal invoke broken more_read refl more_read-Steps

abbrev two_services : IoServicePool
two_services = record { size = 2; next_io_service = 0 }

abbrev listening : HttpServer
listening = record {
  session = [];
  accepting = some (0, 0);
  made = 1;
  pool = record { size = 2; next_io_service = 1 };
}

listening-made : http_server two_services ≡ listening
unfolding http_server do_accept get_io_service
listening-made = refl

listening-Reached : Reached (http_server two_services) listening
listening-Reached = subst (Reached (http_server two_services)) listening-made here

on_accept-inserts_example :
    (s' : HttpServer) × (on_accept false 0 listening ≡ some s')
    × (s'.session ≡ 0 ∷ [])
    × ((io' : ℕ) × (s'.accepting ≡ some (1, io')))
on_accept-inserts_example = on_accept-inserts two_services listening 0 0 listening-Reached refl

abbrev stopped : HttpServer
stopped = record listening { accepting = none }

failed : on_accept true 0 listening ≡ some stopped
unfolding on_accept
failed = refl

stopped-Reached : Reached stopped (erase_session 0 stopped)
stopped-Reached = later here (erased 0 refl)

on_accept-stops_example : (erase_session 0 stopped).accepting ≡ none
on_accept-stops_example =
    on_accept-stops listening stopped (erase_session 0 stopped) 0 failed stopped-Reached

-- A server of which one session was connected.
abbrev one_session : HttpServer
one_session = record {
  session = 0 ∷ [];
  accepting = some (1, 1);
  made = 2;
  pool = record { size = 2; next_io_service = 0 };
}

accepted_one : on_accept false 0 listening ≡ some one_session
unfolding on_accept insert_session do_accept get_io_service has_session
accepted_one = refl

abbrev launched : System decimal invoke 5
launched = record { server = listening; table = λ h. none; world = 0 }

abbrev running : System decimal invoke 5
running = record launched {
  server = one_session;
  table = put_session decimal invoke 5 0 (start decimal invoke 5 0) launched.table;
}

launched-Reaches : Reaches decimal invoke 5 (launch decimal invoke 5 two_services 0) running
unfolding launch http_server do_accept get_io_service
launched-Reaches = moved begun (connected 0 0 one_session refl accepted_one)

abbrev IsFive : ℕ → Type 0
IsFive root = root ≡ 5

abbrev Served : ℕ → Type 0
Served world = Unit

launch-Reaches_example : IsSystem decimal invoke 5 IsFive Served running
launch-Reaches_example =
    launch-Reaches decimal invoke 5 IsFive Served (λ body root world h e. (e.0, tt)) refl
      two_services 0 running tt launched-Reaches

pool-Leased_example :
    (get_conn two_free ≡ some (101, one_lent) → Leased 101 (leases two_free) (leases one_lent))
    × (0 < count 101 two_free.lent
        → release_conn 101 two_free ≡ some one_lent
        → Leased 101 (leases one_lent) (leases two_free))
pool-Leased_example = pool-Leased connect 2 101 two_free one_lent two_free-Reachable
