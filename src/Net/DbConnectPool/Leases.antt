-- ===== src/Net/DbConnectPool/Leases.antt =====
-- The pool of `DBConnectPool.cpp` as leases: for each connection, how often it is free and how often it
-- is lent, whatever the order in the buffer.
use my_warehouse.Common.{
  some-inj, count, ℕ, ◌+◌, ◌<◌, ◌≡◌, ◌∙◌, refl, sym, ap, subst, arith, Bool, true, false, Option,
  none, some, List, [], ◌∷◌, ◌==◌, if◌then◌else◌,
}
use my_warehouse.Net.DbConnectPool.{
  DbConnectPool, is_full, get_front, get_conn, give_back, release_conn,
}
use my_warehouse.Net.DbConnectPool.Lending.{
  Reachable, Reachable-IsPool, count-give_back, give_back-runs,
}

pub record Leases : Type 0 where
  pub free : ℕ → ℕ
  pub lent : ℕ → ℕ

abbrev pub leases : DbConnectPool → Leases
leases pool = record { free = λ c. count c pool.m_conn_pool.items; lent = λ c. count c pool.lent }

abbrev pub one : ℕ → ℕ → ℕ
one conn c = if c == conn then 1 else 0

-- One lease of a connection that is free.
pub record Leased (conn : ℕ) (a b : Leases) : Type 0 where
  pub was_free : 0 < a.free conn
  pub from_free : (c : ℕ) → a.free c ≡ b.free c + one conn c
  pub to_lent : (c : ℕ) → b.lent c ≡ a.lent c + one conn c

count-cons : (c d : ℕ) (ds : List ℕ) → count c (d ∷ ds) ≡ count c ds + one d c
unfolding count
count-cons c d ds = ground arith

front-Leased :
    (items : List ℕ) (pool pool' : DbConnectPool) (conn : ℕ)
    → pool.m_conn_pool.items ≡ items
    → get_front items pool ≡ some (conn, pool')
    → Leased conn (leases pool) (leases pool')
unfolding get_front
front-Leased [] pool pool' conn e g = absurd (cc)
front-Leased (x ∷ rest) pool pool' conn e g =
    let taken : DbConnectPool = record {
      m_conn_pool = record (pool.m_conn_pool) { items = rest };
      lent = x ∷ pool.lent;
    } in
    let pair = some-inj (x, taken) (conn, pool') g in
    subst (λ r. Leased r.0 (leases pool) (leases r.1)) pair
      (record {
        was_free = (let w = ap (count x) e ∙ count-cons x x rest in ground arith);
        from_free = λ c. ap (count c) e ∙ count-cons c x rest;
        to_lent = λ c. count-cons c x pool.lent;
      })

if-lent : (b : Bool) (x pool : DbConnectPool) → (if b then none else some x) ≡ some pool → x ≡ pool
if-lent true x pool e = absurd (cc)
if-lent false x pool e = some-inj x pool e

-- The connections that are lent after `releaseConn`.
release-lent :
    (conn : ℕ) (pool pool' : DbConnectPool)
    → release_conn conn pool ≡ some pool'
    → give_back conn pool.lent ≡ pool'.lent
unfolding release_conn
release-lent conn pool pool' e = ap (λ p. p.lent) (if-lent (is_full pool.m_conn_pool) _ pool' e)

-- In every pool that is reached, `getConn` is one lease of a connection that is free, and `releaseConn`
-- of a connection that is lent takes one such lease back, whatever the order in the buffer.
pub pool-Leased :
    (connect : ℕ → Option ℕ) (n conn : ℕ) (pool pool' : DbConnectPool)
    → Reachable connect n pool
    → (get_conn pool ≡ some (conn, pool') → Leased conn (leases pool) (leases pool'))
      × (0 < count conn pool.lent
          → release_conn conn pool ≡ some pool'
          → Leased conn (leases pool') (leases pool))
unfolding get_conn count
pool-Leased connect n conn pool pool' r = (
  λ e. front-Leased pool.m_conn_pool.items pool pool' conn refl e,
  λ h e.
      let (after, e', inv, same) =
        give_back-runs n conn pool (Reachable-IsPool connect n pool r) h in
      let q = some-inj after pool' (sym e' ∙ e) in
      let lent = λ (c : ℕ).
        count-give_back c conn pool.lent h
        ∙ ap (λ x. x + count c (conn ∷ [])) (ap (count c) (release-lent conn pool pool' e)) in
      let held' =
        λ (c : ℕ). ap (λ p. count c p.m_conn_pool.items + count c p.lent) (sym q) ∙ same c in
      record {
        was_free = (let a = lent conn in let b = held' conn in ground arith);
        from_free = λ c. (let a = lent c in let b = held' c in ground arith);
        to_lent = λ c. (let a = lent c in ground arith);
      },
)
