-- ===== src/Net/DbConnectPool/Lending.antt =====
-- The pool of connections of `DBConnectPool.cpp` over its whole life: the pools that can be reached.
use my_warehouse.Common.{
  some-inj, count, count-append, ◌∙◌, ℕ, zero, suc, ◌+◌, ◌<◌, ◌≡◌, ◌↔◌, refl, sym, ap, subst, false,
  Option, none, some, List, [], ◌∷◌, ◌++◌, length, length-append, ◌==◌, arith,
}
use my_warehouse.Net.DbConnectPool.{
  CircularBuffer, is_full, push_back, DbConnectPool, connect_all, db_connect_pool, get_front,
  get_conn, give_back, release_conn,
}

-- The pools that `getConn` and the deleters of its pointers lead to, from a constructed one.
pub data Reachable (connect : ℕ → Option ℕ) (n : ℕ) : DbConnectPool → Type 0 where
  built : {pool : DbConnectPool} → db_connect_pool connect n ≡ some pool → Reachable connect n pool
  got :
      {pool pool' : DbConnectPool} (conn : ℕ)
      → Reachable connect n pool
      → get_conn pool ≡ some (conn, pool')
      → Reachable connect n pool'
  released :
      {pool pool' : DbConnectPool} (conn : ℕ)
      → Reachable connect n pool
      → 0 < count conn pool.lent
      → release_conn conn pool ≡ some pool'
      → Reachable connect n pool'

-- The connections of the pool, free and lent.
abbrev pub held : ℕ → DbConnectPool → ℕ
held c pool = count c pool.m_conn_pool.items + count c pool.lent

-- The buffer has room for exactly the connections that are lent.
pub record IsPool (n : ℕ) (pool : DbConnectPool) : Type 0 where
  pub room : pool.m_conn_pool.capacity ≡ n
  pub whole : length pool.m_conn_pool.items + length pool.lent ≡ n

length-give_back :
    (c : ℕ) (xs : List ℕ) → 0 < count c xs → suc (length (give_back c xs)) ≡ length xs
unfolding count give_back
length-give_back c [] h = omega arith
length-give_back c (x ∷ xs) h = ground (arith, length-give_back c xs)

pub count-give_back :
    (c d : ℕ) (xs : List ℕ)
    → 0 < count d xs
    → count c xs ≡ count c (give_back d xs) + count c (d ∷ [])
unfolding count give_back
count-give_back c d [] h = omega arith
count-give_back c d (x ∷ xs) h = ground (arith, count-give_back c d xs)

-- A buffer that is not full takes the item at its end.
length-push_back :
    (x : ℕ) (b : CircularBuffer)
    → length b.items < b.capacity
    → length ((push_back x b).items) ≡ suc (length b.items)
unfolding push_back is_full
length-push_back x b h = ground (arith, length-append b.items (x ∷ []))

pub connect_all-full :
    (connect : ℕ → Option ℕ) (i n : ℕ) (b b' : CircularBuffer)
    → length b.items + n ≡ b.capacity
    → connect_all connect i n b ≡ some b'
    → (b'.capacity ≡ b.capacity) × (length b'.items ≡ b.capacity)
unfolding connect_all push_back
connect_all-full connect i zero b b' h e =
    subst (λ x. (x.capacity ≡ b.capacity) × (length x.items ≡ b.capacity)) (some-inj b b' e)
      (refl, omega arith)
connect_all-full connect i (suc n) b b' h e =
    connected (connect i) (λ conn. connect_all connect (i + 1) n (push_back conn b)) e
      (λ conn e'.
        connect_all-full connect (i + 1) n (push_back conn b) b'
          (omega (arith, length-push_back conn b (omega arith))) e')
  where
    connected :
        {P : Type 0} (o : Option ℕ) (f : ℕ → Option CircularBuffer)
        → (elim o [ none ↦ none | some conn ↦ f conn ]) ≡ some b'
        → ((conn : ℕ) → f conn ≡ some b' → P)
        → P
    connected none f e' k = absurd (cc)
    connected (some conn) f e' k = k conn e'

pub db_connect_pool-IsPool :
    (connect : ℕ → Option ℕ) (n : ℕ) (pool : DbConnectPool)
    → db_connect_pool connect n ≡ some pool
    → IsPool n pool
unfolding db_connect_pool
db_connect_pool-IsPool connect n pool e =
    made (connect_all connect 1 n (record { capacity = n; items = [] })) refl e
  where
    made :
        (o : Option CircularBuffer)
        → connect_all connect 1 n (record { capacity = n; items = [] }) ≡ o
        → (elim o [ none ↦ none | some b ↦ some (record { m_conn_pool = b; lent = [] }) ])
          ≡ some pool
        → IsPool n pool
    made none e₁ e₂ = absurd (cc)
    made (some b) e₁ e₂ =
        let (c, l) =
          connect_all-full connect 1 n (record { capacity = n; items = [] }) b (omega arith) e₁ in
        subst (IsPool n) (some-inj _ pool e₂) (record { room = c; whole = omega arith })

-- What `getConn` gives, from the items of the buffer.
got-front :
    (n : ℕ) (items : List ℕ) (pool pool' : DbConnectPool) (conn : ℕ)
    → pool.m_conn_pool.items ≡ items
    → IsPool n pool
    → get_front items pool ≡ some (conn, pool')
    → IsPool n pool' × ((c : ℕ) → held c pool' ≡ held c pool)
unfolding get_front count
got-front n [] pool pool' conn e inv g = absurd (cc)
got-front n (x ∷ xs) pool pool' conn e inv g =
    let q = ap (λ r. r.1) (some-inj _ (conn, pool') g) in
    subst (λ p. IsPool n p × ((c : ℕ) → held c p ≡ held c pool)) q
      (
        record {
          room = inv.room;
          whole =
              (let w : length pool.m_conn_pool.items ≡ length (x ∷ xs) = ap length e in
                omega arith);
        },
        λ c.
            (let w : count c pool.m_conn_pool.items ≡ count c (x ∷ xs) = ap (count c) e in
              ground arith),
      )

-- `releaseConn` of a connection that is lent: it does not wait.
pub give_back-runs :
    (n conn : ℕ) (pool : DbConnectPool)
    → IsPool n pool
    → 0 < count conn pool.lent
    → (pool' : DbConnectPool) × (release_conn conn pool ≡ some pool')
      × IsPool n pool'
      × ((c : ℕ) → held c pool' ≡ held c pool)
unfolding release_conn is_full push_back
give_back-runs n conn pool inv h =
    let l = length-give_back conn pool.lent h in
    let room : length pool.m_conn_pool.items == pool.m_conn_pool.capacity ≡ false =
      ground (arith, inv.room, inv.whole) in
    (
      given,
      rw room refl,
      record {
        room = inv.room;
        whole = omega (arith, inv.whole, l, length-append pool.m_conn_pool.items (conn ∷ []));
      },
      λ c. omega (
        arith,
        count-append c pool.m_conn_pool.items (conn ∷ []),
        count-give_back c conn pool.lent h,
      ),
    )
  where
    given : DbConnectPool
    given = record {
      m_conn_pool = record (pool.m_conn_pool) { items = pool.m_conn_pool.items ++ conn ∷ [] };
      lent = give_back conn pool.lent;
    }

pub got-runs :
    (n conn : ℕ) (pool pool' : DbConnectPool)
    → IsPool n pool
    → get_conn pool ≡ some (conn, pool')
    → IsPool n pool' × ((c : ℕ) → held c pool' ≡ held c pool)
unfolding get_conn get_front
got-runs n conn pool pool' inv e = got-front n pool.m_conn_pool.items pool pool' conn refl inv e

pub Reachable-IsPool :
    (connect : ℕ → Option ℕ) (n : ℕ) (pool : DbConnectPool)
    → Reachable connect n pool
    → IsPool n pool
Reachable-IsPool connect n pool (built e) = db_connect_pool-IsPool connect n pool e
Reachable-IsPool connect n pool (got {pool = before} conn r e) =
    (got-runs n conn before pool (Reachable-IsPool connect n before r) e).0
Reachable-IsPool connect n pool (released {pool = before} conn r h e) =
    let (after, e', inv, _) =
      give_back-runs n conn before (Reachable-IsPool connect n before r) h in
    subst (IsPool n) (some-inj after pool (sym e' ∙ e)) inv

-- In every pool that is reached, the buffer and the clients together hold as many connections as were
-- made, and giving back a connection that is lent does not wait and loses or doubles no connection.
pub release_conn-runs :
    (connect : ℕ → Option ℕ) (n : ℕ) (pool : DbConnectPool)
    → Reachable connect n pool
    → (length pool.m_conn_pool.items + length pool.lent ≡ n)
      × ((conn : ℕ)
          → 0 < count conn pool.lent
          → (pool' : DbConnectPool) × (release_conn conn pool ≡ some pool')
            × ((c : ℕ) → held c pool' ≡ held c pool))
release_conn-runs connect n pool r =
    let inv = Reachable-IsPool connect n pool r in
    (
      inv.whole,
      λ conn h. (let (after, e, _, same) = give_back-runs n conn pool inv h in (after, e, same)),
    )

-- What `getConn` lends, for the items of the buffer.
lent-front :
    (items : List ℕ) (pool pool' : DbConnectPool) (conn : ℕ)
    → pool.m_conn_pool.items ≡ items
    → get_front items pool ≡ some (conn, pool')
    → (pool.m_conn_pool.items ≡ conn ∷ pool'.m_conn_pool.items) × (pool'.lent ≡ conn ∷ pool.lent)
unfolding get_front
lent-front [] pool pool' conn e g = absurd (cc)
lent-front (x ∷ xs) pool pool' conn e g =
    let both = some-inj _ (conn, pool') g in
    let same : x ≡ conn = ap (λ r. r.0) both in
    let rest : xs ≡ pool'.m_conn_pool.items = ap (λ r. r.1.m_conn_pool.items) both in
    let lent : (x ∷ pool.lent) ≡ pool'.lent = ap (λ r. r.1.lent) both in (cc, cc)

-- In every pool that is reached, `getConn` waits exactly while all the connections are lent; and what it
-- lends is the first of the free connections, which is then lent and no longer free.
pub get_conn-waits :
    (connect : ℕ → Option ℕ) (n : ℕ) (pool : DbConnectPool)
    → Reachable connect n pool
    → ((get_conn pool ≡ none) ↔ (length pool.lent ≡ n))
      × ((conn : ℕ) (pool' : DbConnectPool)
          → get_conn pool ≡ some (conn, pool')
          → (pool.m_conn_pool.items ≡ conn ∷ pool'.m_conn_pool.items)
            × (pool'.lent ≡ conn ∷ pool.lent))
unfolding get_conn get_front
get_conn-waits connect n pool r =
    let inv = Reachable-IsPool connect n pool r in
    (
      waits pool.m_conn_pool.items refl inv.whole,
      λ conn pool' e. lent-front pool.m_conn_pool.items pool pool' conn refl e,
    )
  where
    waits :
        (items : List ℕ)
        → pool.m_conn_pool.items ≡ items
        → length pool.m_conn_pool.items + length pool.lent ≡ n
        → (get_front items pool ≡ none) ↔ (length pool.lent ≡ n)
    waits [] e w = let l = ap length e in (λ _. omega arith, λ _. refl)
    waits (x ∷ xs) e w = let l = ap length e in (λ g. absurd (cc), λ g. absurd (omega arith))
