-- ===== src/Net/DbConnectPool/Threads/Wakeups.antt =====
-- The threads that call the pool of `DBConnectPool.cpp`, in any order: who waits, and who finishes a
-- connection.
use my_warehouse.Common.{
  some-inj, count, ℕ, ◌≤◌, ◌<◌, ◌≡◌, inl, inr, refl, sym, ap, arith, true, false, Bool-cases,
  Option, none, some, [], length,
}
use my_warehouse.Net.DbConnectPool.{CircularBuffer, connect_all, DbConnectPool, db_connect_pool}
use my_warehouse.Net.DbConnectPool.Lending.{db_connect_pool-IsPool}
use my_warehouse.Net.DbConnectPool.Threads.{Threads, idle_pool, delete_lease, Reached, begun, next}
use my_warehouse.Net.DbConnectPool.Threads.Kept.{IsThreads, Step-Kept, delete_lease-runs}

module _ (connect : ℕ → Option ℕ) (n : ℕ) (first : DbConnectPool) where
  unlent : (pool : DbConnectPool) → db_connect_pool connect n ≡ some pool → pool.lent ≡ []
  unfolding db_connect_pool
  unlent pool e = made (connect_all connect 1 n (record { capacity = n; items = [] })) e
    where
      made :
          (o : Option CircularBuffer)
          → (elim o [ none ↦ none | some b ↦ some (record { m_conn_pool = b; lent = [] }) ])
            ≡ some pool
          → pool.lent ≡ []
      made none e' = absurd (cc)
      made (some b) e' =
          ap (λ p. p.lent) (sym (some-inj (record { m_conn_pool = b; lent = [] }) pool e'))

  Reached-IsThreads :
      (s : Threads)
      → db_connect_pool connect n ≡ some first
      → Reached first s
      → IsThreads n (λ c. count c first.m_conn_pool.items) s
  unfolding idle_pool count
  Reached-IsThreads s built begun = record {
    room = λ _. db_connect_pool-IsPool connect n first built;
    served = inl refl;
    gone = λ d. absurd (cc);
    kept = λ c. (let e = ap (count c) (unlent first built) in ground arith);
    unfinished = λ _. refl;
  }
  Reached-IsThreads s built (next {s = before} r st) =
      Step-Kept n _ before s (Reached-IsThreads before built r) st

  -- No connection is free where no thread is woken and one waits.
  all_lent :
      (s : Threads)
      → IsThreads n (λ c. count c first.m_conn_pool.items) s
      → length s.pool.m_conn_pool.items ≤ length s.woken
      → s.woken ≡ []
      → s.alive ≡ true
      → length s.pool.lent ≡ n
  all_lent s inv b e alive =
      let q = ap length e in let room = inv.room alive in omega (arith, room.whole)

  -- However the calls, the wake-ups and the ends of the leases come in turn: while a thread waits for a
  -- connection, at least as many threads are woken and have not gone on yet as connections are free; so
  -- where no woken thread is left, a thread waits only while all the connections are lent.
  pub waiting-Served :
      (s : Threads)
      → db_connect_pool connect n ≡ some first
      → Reached first s
      → 0 < length s.waiting
      → (length s.pool.m_conn_pool.items ≤ length s.woken) × (s.woken ≡ [] → length s.pool.lent ≡ n)
  waiting-Served s built r h =
      let inv = Reached-IsThreads s built r in
      elim inv.served [
        | inl w ↦ absurd (let q = ap length w in omega arith)
        | inr b ↦ (
          b,
          λ e. all_lent s inv b e (elim (Bool-cases s.alive) [
            | inl a ↦ a
            | inr d ↦ absurd (let q = ap length ((inv.gone d).0) in omega arith)
          ]),
        )
      ]

  -- Whatever the threads did: the end of a lease does not wait; no connection is finished while the pool
  -- lives; and where the pool is gone and no lease is left, every connection was finished exactly as
  -- often as the constructor made it.
  pub connections-Finished :
      (s : Threads)
      → db_connect_pool connect n ≡ some first
      → Reached first s
      → ((choice conn : ℕ)
          → 0 < count conn s.pool.lent
          → (s' : Threads) × (delete_lease choice conn s ≡ some s'))
        × (s.alive ≡ true → s.finished ≡ [])
        × (s.alive ≡ false
            → s.pool.lent ≡ []
            → (c : ℕ) → count c s.finished ≡ count c first.m_conn_pool.items)
  unfolding count
  connections-Finished s built r =
      let inv = Reached-IsThreads s built r in
      (
        λ choice conn h. (let (s', e, _) = delete_lease-runs n _ choice conn s inv h in (s', e)),
        inv.unfinished,
        λ dead empty c.
            (let a = ap (count c) ((inv.gone dead).2) in
              let b = ap (count c) empty in ground (arith, inv.kept c)),
      )
