-- ===== src/Net/DbConnectPool.antt =====
-- `DBConnectPool.cpp`: the circular buffer of connections that are free, and those that are lent by
-- `getConn`. A call that waits on a condition variable is `none`; connecting is libpq's.
pub mod Lending
pub mod Leases
pub mod Threads
mod Tests
use my_warehouse.Common.{
  ℕ, zero, suc, ◌+◌, Bool, Option, none, some, List, [], ◌∷◌, ◌++◌, length, ◌==◌, if◌then◌else◌,
}

-- `boost::circular_buffer<PGconn*>`.
pub record CircularBuffer : Type 0 where
  pub capacity : ℕ
  pub items : List ℕ

unfoldable pub is_full : CircularBuffer → Bool
is_full b = length b.items == b.capacity

-- `push_back`, which overwrites the front of a full buffer.
unfoldable pub overwrite : List ℕ → ℕ → List ℕ
overwrite [] x = []
overwrite (y ∷ ys) x = ys ++ x ∷ []

unfoldable pub push_back : ℕ → CircularBuffer → CircularBuffer
push_back x b = record b { items = if is_full b then overwrite b.items x else b.items ++ x ∷ [] }

-- The pool, with the connections that clients hold.
pub record DbConnectPool : Type 0 where
  pub m_conn_pool : CircularBuffer
  pub lent : List ℕ

-- The loop of the constructor; `none` is the `exit` where a connection fails.
unfoldable pub connect_all : (ℕ → Option ℕ) → ℕ → ℕ → CircularBuffer → Option CircularBuffer
connect_all connect i zero b = some b
connect_all connect i (suc n) b = elim (connect i) [
  | none ↦ none
  | some conn ↦ connect_all connect (i + 1) n (push_back conn b)
]

unfoldable pub db_connect_pool : (ℕ → Option ℕ) → ℕ → Option DbConnectPool
db_connect_pool connect n = elim (connect_all connect 1 n (record { capacity = n; items = [] })) [
  | none ↦ none
  | some b ↦ some (record { m_conn_pool = b; lent = [] })
]

-- `getConn`, for the items of the buffer.
unfoldable pub get_front : List ℕ → DbConnectPool → Option (ℕ × DbConnectPool)
get_front [] pool = none
get_front (conn ∷ rest) pool = some (
  conn,
  record { m_conn_pool = record (pool.m_conn_pool) { items = rest }; lent = conn ∷ pool.lent },
)

unfoldable pub get_conn : DbConnectPool → Option (ℕ × DbConnectPool)
get_conn pool = get_front pool.m_conn_pool.items pool

-- The first place of a connection among the lent.
unfoldable pub give_back : ℕ → List ℕ → List ℕ
give_back conn [] = []
give_back conn (c ∷ cs) = let rest = give_back conn cs in if conn == c then cs else c ∷ rest

-- `releaseConn`.
unfoldable pub release_conn : ℕ → DbConnectPool → Option DbConnectPool
release_conn conn pool =
    if is_full pool.m_conn_pool
    then none
    else some
        (record { m_conn_pool = push_back conn pool.m_conn_pool; lent = give_back conn pool.lent })
