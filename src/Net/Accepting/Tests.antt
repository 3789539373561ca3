-- ===== src/Net/Accepting/Tests.antt =====
-- A server of two io_services with two calls of `OnAccept` at the same time, of which the first has
-- inserted its session.
use my_warehouse.Common.{ℕ, ◌<◌, ◌≡◌, refl, true, false, some, [], ◌∷◌, count}
use my_warehouse.Net.IoServicePool.{IoServicePool, get_io_service}
use my_warehouse.Net.Server.{HttpServer, has_session, do_accept, insert_session, http_server}
use my_warehouse.Net.Accepting.Threads.{
  Accepting, listening, accept, accepts, inserts, Reached, begun, next, accepted-Inserts,
}

abbrev two_services : IoServicePool
two_services = record { size = 2; next_io_service = 0 }

abbrev two_accepted : Accepting
two_accepted = accept false 1 (accept false 0 (listening two_services))

abbrev first_inserted : HttpServer
first_inserted = record (two_accepted.server) { session = 0 ∷ [] }

abbrev one_inserted : Accepting
one_inserted = record two_accepted { server = first_inserted; accepted = 1 ∷ []; inserted = 0 ∷ [] }

one_inserted-Reached : Reached two_services one_inserted
unfolding accept listening http_server do_accept get_io_service insert_session has_session
one_inserted-Reached =
    next (next (next begun (accepts false 0 0 refl)) (accepts false 1 1 refl))
      (inserts (1 ∷ []) 0 [] first_inserted refl refl)

accepted-Inserts_example :
    ((h : ℕ)
      → 0 < count h one_inserted.accepted
      → insert_session h one_inserted.server
        ≡ some (record (one_inserted.server) { session = h ∷ one_inserted.server.session }))
    × ((h : ℕ)
        → 0 < count h one_inserted.inserted
        → (has_session h one_inserted.server.session ≡ true) × (count h one_inserted.started ≡ 0))
accepted-Inserts_example = accepted-Inserts two_services one_inserted one_inserted-Reached
