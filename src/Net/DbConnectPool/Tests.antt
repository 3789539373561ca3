-- ===== src/Net/DbConnectPool/Tests.antt =====
-- A pool of two connections, with three threads that want one each.
use my_warehouse.Common.{
  count, ◌+◌, ℕ, ◌<◌, ◌≤◌, ◌≡◌, refl, arith, true, false, Option, some, [], ◌∷◌, length,
}
use my_warehouse.Net.DbConnectPool.{
  DbConnectPool, db_connect_pool, connect_all, push_back, is_full, get_conn, get_front,
}
use my_warehouse.Net.DbConnectPool.Threads.{
  Threads, idle_pool, get_locked, locked, delete_lease, calls, Reached, begun, next,
}
use my_warehouse.Net.DbConnectPool.Threads.Wakeups.{waiting-Served, connections-Finished}

abbrev connect : ℕ → Option ℕ
connect i = some (i + 100)

abbrev first : DbConnectPool
first = record { m_conn_pool = record { capacity = 2; items = 101 ∷ 102 ∷ [] }; lent = [] }

abbrev one_waits : Threads
one_waits = get_locked 3 (get_locked 2 (get_locked 1 (idle_pool first)))

first-made : db_connect_pool connect 2 ≡ some first
unfolding db_connect_pool connect_all push_back is_full
first-made = refl

one_waits-Reached : Reached first one_waits
unfolding get_locked locked get_conn get_front idle_pool
one_waits-Reached = next (next (next begun (calls 1 refl)) (calls 2 refl)) (calls 3 refl)

somebody_waits : 0 < length one_waits.waiting
unfolding get_locked locked get_conn get_front idle_pool
somebody_waits = omega arith

waiting-Served_example :
    (length one_waits.pool.m_conn_pool.items ≤ length one_waits.woken)
    × (one_waits.woken ≡ [] → length one_waits.pool.lent ≡ 2)
waiting-Served_example =
    waiting-Served connect 2 first one_waits first-made one_waits-Reached somebody_waits

connections-Finished_example :
    ((choice conn : ℕ)
      → 0 < count conn one_waits.pool.lent
      → (s' : Threads) × (delete_lease choice conn one_waits ≡ some s'))
    × (one_waits.alive ≡ true → one_waits.finished ≡ [])
    × (one_waits.alive ≡ false
        → one_waits.pool.lent ≡ []
        → (c : ℕ) → count c one_waits.finished ≡ count c first.m_conn_pool.items)
connections-Finished_example =
    connections-Finished connect 2 first one_waits first-made one_waits-Reached
