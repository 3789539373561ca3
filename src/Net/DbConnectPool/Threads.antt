-- ===== src/Net/DbConnectPool/Threads.antt =====
-- `DBConnectPool.cpp` with the threads that call it. A step is what a thread does while it holds `m_lock`:
-- up to its return, or up to the point where it waits on `m_empty_cv` and gives the lock up. A lease is a
-- pointer that `getConn` returned; its deleter gives the connection back, or finishes it where the pool
-- is gone.
pub mod Kept
pub mod Wakeups
use my_warehouse.Common.{
  count, ℕ, zero, suc, ◌<◌, ◌≡◌, Bool, true, false, Option, none, some, List, [], ◌∷◌, ◌++◌,
  if◌then◌else◌,
}
use my_warehouse.Net.DbConnectPool.{DbConnectPool, get_conn, release_conn, give_back}

pub record Threads : Type 0 where
  pub pool : DbConnectPool
  pub alive : Bool  -- the pool is not destroyed
  pub waiting : List ℕ  -- the threads that wait on `m_empty_cv`
  pub woken : List ℕ  -- those that were woken and have to test `empty()` again
  pub finished : List ℕ  -- the connections that `PQfinish` was given

unfoldable pub idle_pool : DbConnectPool → Threads
idle_pool pool = record { pool = pool; alive = true; waiting = []; woken = []; finished = [] }

-- `m_empty_cv.wait(…)` and what follows it, for a thread that holds the lock.
unfoldable pub locked : ℕ → Threads → Option (ℕ × DbConnectPool) → Threads
locked thread s none = record s { waiting = thread ∷ s.waiting }
locked thread s (some (conn, pool)) = record s { pool = pool }

unfoldable pub get_locked : ℕ → Threads → Threads
get_locked thread s = locked thread s (get_conn s.pool)

-- The thread at a place among those that wait, and the others.
unfoldable pub pick : ℕ → List ℕ → Option (ℕ × List ℕ)
pick i [] = none
pick zero (t ∷ ts) = some (t, ts)
pick (suc i) (t ∷ ts) = elim (pick i ts) [ none ↦ some (t, ts) | some (u, us) ↦ some (u, t ∷ us) ]

-- `notify_one`, which wakes one of the threads that wait, or none where no thread waits.
unfoldable pub notified : Threads → Option (ℕ × List ℕ) → Threads
notified s none = s
notified s (some (t, ts)) = record s { waiting = ts; woken = t ∷ s.woken }

unfoldable pub notify_one : ℕ → Threads → Threads
notify_one choice s = notified s (pick choice s.waiting)

-- The deleter of a lease: `releaseConn` and its `notify_one`, or `PQfinish` where the pool is gone. A
-- call that waits for room is `none`.
unfoldable pub given : ℕ → Threads → Option DbConnectPool → Option Threads
given choice s none = none
given choice s (some pool) = some (notify_one choice (record s { pool = pool }))

unfoldable pub end_alone : ℕ → Threads → Threads
end_alone conn s = record s {
  pool = record (s.pool) { lent = give_back conn s.pool.lent };
  finished = conn ∷ s.finished;
}

unfoldable pub delete_lease : ℕ → ℕ → Threads → Option Threads
delete_lease choice conn s =
    if s.alive then given choice s (release_conn conn s.pool) else some (end_alone conn s)

-- `~DBConnectPool`.
unfoldable pub destroy : Threads → Threads
destroy s =
    let b = s.pool.m_conn_pool in
    record s {
      pool = record (s.pool) { m_conn_pool = record b { items = [] } };
      alive = false;
      finished = b.items ++ s.finished;
    }

-- A thread calls `getConn`; one that was woken goes on, or a thread wakes up although nobody notified
-- it; a lease ends; the last pointer to the pool goes, which nobody holds who waits in it.
pub data Step (s : Threads) : Threads → Type 0 where
  calls : (thread : ℕ) → s.alive ≡ true → Step s (get_locked thread s)
  goes_on :
      (thread : ℕ) (rest : List ℕ) (i : ℕ)
      → pick i s.woken ≡ some (thread, rest)
      → Step s (get_locked thread (record s { woken = rest }))
  wakes : (choice : ℕ) → Step s (notify_one choice s)
  ends :
      {s' : Threads} (choice conn : ℕ)
      → 0 < count conn s.pool.lent
      → delete_lease choice conn s ≡ some s'
      → Step s s'
  goes : s.alive ≡ true → s.waiting ≡ [] → s.woken ≡ [] → Step s (destroy s)

pub data Reached (first : DbConnectPool) : Threads → Type 0 where
  begun : Reached first (idle_pool first)
  next : {s s' : Threads} → Reached first s → Step s s' → Reached first s'
