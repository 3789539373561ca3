-- ===== src/Net/DbConnectPool/Threads/Kept.antt =====
-- What the steps of the threads that call the pool of `DBConnectPool.cpp` keep: who waits, and where each
-- connection is.
use my_warehouse.Common.{
  some-inj, if-first, if-second, count, count-append, ℕ, zero, suc, ◌+◌, ◌≤◌, ◌<◌, ◌≡◌, ◌∙◌, ◌⊎◌,
  inl, inr, refl, sym, ap, subst, arith, true, false, Bool-cases, none, some, List, [], ◌∷◌, length,
  length-append,
}
use my_warehouse.Net.DbConnectPool.{
  DbConnectPool, is_full, push_back, get_front, get_conn, release_conn,
}
use my_warehouse.Net.DbConnectPool.Lending.{IsPool, count-give_back, give_back-runs, got-runs}
use my_warehouse.Net.DbConnectPool.Threads.{
  Threads, locked, get_locked, pick, notified, notify_one, given, end_alone, delete_lease, destroy,
  Step, calls, goes_on, wakes, ends, goes,
}

-- What every reachable state satisfies, for `n` connections that stand in the first buffer as `k` says.
pub record IsThreads (n : ℕ) (k : ℕ → ℕ) (s : Threads) : Type 0 where
  pub room : s.alive ≡ true → IsPool n s.pool
  pub served : (s.waiting ≡ []) ⊎ (length s.pool.m_conn_pool.items ≤ length s.woken)
  pub gone : s.alive ≡ false → (s.waiting ≡ []) × (s.woken ≡ []) × (s.pool.m_conn_pool.items ≡ [])
  pub kept :
      (c : ℕ) → count c s.pool.m_conn_pool.items + count c s.pool.lent + count c s.finished ≡ k c
  pub unfinished : s.alive ≡ true → s.finished ≡ []

-- How `getConn` ends: the buffer is empty, or one connection goes over to the leases.
front-cases :
    (items : List ℕ) (pool : DbConnectPool)
    → pool.m_conn_pool.items ≡ items
    → ((pool.m_conn_pool.items ≡ []) × (get_front items pool ≡ none))
      ⊎ ((conn : ℕ) × (pool' : DbConnectPool) × (get_front items pool ≡ some (conn, pool'))
          × (length pool.m_conn_pool.items ≡ suc (length pool'.m_conn_pool.items)))
unfolding get_front
front-cases [] pool e = inl (e, refl)
front-cases (x ∷ xs) pool e = inr (x, _, refl, ap length e)

get_conn-cases :
    (pool : DbConnectPool)
    → ((pool.m_conn_pool.items ≡ []) × (get_conn pool ≡ none))
      ⊎ ((conn : ℕ) × (pool' : DbConnectPool) × (get_conn pool ≡ some (conn, pool'))
          × (length pool.m_conn_pool.items ≡ suc (length pool'.m_conn_pool.items)))
unfolding get_conn
get_conn-cases pool = front-cases pool.m_conn_pool.items pool refl

-- The connection that is given back stands behind the others.
release_conn-grows :
    (conn : ℕ) (pool pool' : DbConnectPool)
    → release_conn conn pool ≡ some pool'
    → length pool'.m_conn_pool.items ≡ suc (length pool.m_conn_pool.items)
unfolding release_conn push_back
release_conn-grows conn pool pool' = elim (Bool-cases (is_full pool.m_conn_pool)) [
  | inl full ↦ rw full (λ e. absurd (cc))
  | inr room ↦ rw room (λ e.
      subst (λ p. length p.m_conn_pool.items ≡ suc (length pool.m_conn_pool.items))
        (some-inj _ pool' e) (omega (arith, length-append pool.m_conn_pool.items (conn ∷ []))))
]

module _ (n : ℕ) (k : ℕ → ℕ) where
  get_locked-IsThreads :
      (thread : ℕ) (s : Threads)
      → s.alive ≡ true
      → IsPool n s.pool
      → (s.waiting ≡ []) ⊎ (length s.pool.m_conn_pool.items ≤ suc (length s.woken))
      → ((c : ℕ)
          → count c s.pool.m_conn_pool.items + count c s.pool.lent + count c s.finished ≡ k c)
      → s.finished ≡ []
      → IsThreads n k (get_locked thread s)
  unfolding get_locked locked
  get_locked-IsThreads thread s alive room served kept unfinished = elim (get_conn-cases s.pool) [
    | inl (empty, e) ↦ rw e (record {
      room = λ _. room;
      served = inr (let q = ap length empty in omega arith);
      gone = λ d. absurd (cc);
      kept = kept;
      unfinished = λ _. unfinished;
    })
    | inr (conn, pool', e, l) ↦
        let (room', held) = got-runs n conn s.pool pool' room e in
        rw e (record {
          room = λ _. room';
          served = elim served [ inl w ↦ inl w | inr b ↦ inr (omega arith) ];
          gone = λ d. absurd (cc);
          kept = λ c. omega (arith, held c, kept c);
          unfinished = λ _. unfinished;
        })
  ]

  pick-cases :
      (i : ℕ) (ts : List ℕ)
      → ((ts ≡ []) × (pick i ts ≡ none))
        ⊎ ((t : ℕ) × (us : List ℕ) × (pick i ts ≡ some (t, us)) × (length ts ≡ suc (length us)))
  unfolding pick
  pick-cases i [] = inl (refl, refl)
  pick-cases zero (t ∷ ts) = inr (t, ts, refl, refl)
  pick-cases (suc i) (t ∷ ts) = elim (pick-cases i ts) [
    | inl (e, f) ↦ rw f (inr (t, ts, refl, refl))
    | inr (u, us, e, l) ↦ rw e (inr (u, t ∷ us, refl, omega arith))
  ]

  notify_one-IsThreads :
      (choice : ℕ) (s : Threads)
      → (s.alive ≡ true → IsPool n s.pool)
      → (s.waiting ≡ []) ⊎ (length s.pool.m_conn_pool.items ≤ suc (length s.woken))
      → (s.alive ≡ false → (s.waiting ≡ []) × (s.woken ≡ []) × (s.pool.m_conn_pool.items ≡ []))
      → ((c : ℕ)
          → count c s.pool.m_conn_pool.items + count c s.pool.lent + count c s.finished ≡ k c)
      → (s.alive ≡ true → s.finished ≡ [])
      → IsThreads n k (notify_one choice s)
  unfolding notify_one notified
  notify_one-IsThreads choice s room served gone kept unfinished =
      elim (pick-cases choice s.waiting) [
        | inl (w, e) ↦ rw e (record {
          room = room;
          served = inl w;
          gone = gone;
          kept = kept;
          unfinished = unfinished;
        })
        | inr (t, ts, e, l) ↦ rw e (record {
          room = room;
          served = elim served [
            | inl w ↦ absurd (let q = ap length w in omega arith)
            | inr b ↦ inr b
          ];
          gone = λ d. absurd (let q = ap length ((gone d).0) in omega arith);
          kept = kept;
          unfinished = unfinished;
        })
      ]

  pub delete_lease-runs :
      (choice conn : ℕ) (s : Threads)
      → IsThreads n k s
      → 0 < count conn s.pool.lent
      → (s' : Threads) × (delete_lease choice conn s ≡ some s') × IsThreads n k s'
  unfolding delete_lease given end_alone count
  delete_lease-runs choice conn s inv h = elim (Bool-cases s.alive) [
    | inl alive ↦
        let (pool', e, room, held) = give_back-runs n conn s.pool (inv.room alive) h in
        let grown = release_conn-grows conn s.pool pool' e in
        let after = record s { pool = pool' } in
        (
          notify_one choice after,
          if-first s.alive _ _ alive ∙ ap (given choice s) e,
          notify_one-IsThreads choice after (λ _. room)
              (elim inv.served [ inl w ↦ inl w | inr b ↦ inr (omega arith) ]) (λ d. absurd (cc))
              (λ c. omega (arith, held c, inv.kept c)) inv.unfinished,
        )
    | inr dead ↦ (
      end_alone conn s,
      if-second s.alive _ _ dead,
      record {
        room = λ a. absurd (cc);
        served = inv.served;
        gone = inv.gone;
        kept = λ c. ground (arith, inv.kept c, count-give_back c conn s.pool.lent h);
        unfinished = λ a. absurd (cc);
      },
    )
  ]

  destroy-IsThreads :
      (s : Threads)
      → IsThreads n k s
      → s.alive ≡ true
      → s.waiting ≡ []
      → s.woken ≡ []
      → IsThreads n k (destroy s)
  unfolding destroy count
  destroy-IsThreads s inv alive waits woken = record {
    room = λ a. absurd (cc);
    served = inl waits;
    gone = λ _. (waits, woken, refl);
    kept = λ c. omega (arith, inv.kept c, count-append c s.pool.m_conn_pool.items s.finished);
    unfinished = λ a. absurd (cc);
  }

  alone :
      (s : Threads)
      → IsThreads n k s
      → (t : ℕ) (ts : List ℕ) (i : ℕ) → pick i s.woken ≡ some (t, ts)
      → (s.alive ≡ true) × (length s.woken ≡ suc (length ts))
  alone s inv t ts i e = elim (pick-cases i s.woken) [
    | inl (_, f) ↦ absurd (cc)
    | inr (u, us, f, l) ↦
        let same : ts ≡ us = ap (λ r. r.1) (some-inj (t, ts) (u, us) (sym e ∙ f)) in
        let l' = ap length same in
        elim (Bool-cases s.alive) [
          | inl a ↦ (a, omega arith)
          | inr d ↦ absurd (let q = ap length ((inv.gone d).1) in omega arith)
        ]
  ]

  pub Step-Kept : (s s' : Threads) → IsThreads n k s → Step s s' → IsThreads n k s'
  Step-Kept s s' inv (calls thread alive) =
      get_locked-IsThreads thread s alive (inv.room alive)
        (elim inv.served [ inl w ↦ inl w | inr b ↦ inr (omega arith) ]) inv.kept
        (inv.unfinished alive)
  Step-Kept s s' inv (goes_on thread rest i e) =
      let (alive, l) = alone s inv thread rest i e in
      get_locked-IsThreads thread (record s { woken = rest }) alive (inv.room alive)
        (elim inv.served [ inl w ↦ inl w | inr b ↦ inr (omega arith) ]) inv.kept
        (inv.unfinished alive)
  Step-Kept s s' inv (wakes choice) =
      notify_one-IsThreads choice s inv.room
        (elim inv.served [ inl w ↦ inl w | inr b ↦ inr (omega arith) ]) inv.gone inv.kept
        inv.unfinished
  Step-Kept s s' inv (ends choice conn h e) =
      let (after, e', inv') = delete_lease-runs choice conn s inv h in
      subst (IsThreads n k) (some-inj after s' (sym e' ∙ e)) inv'
  Step-Kept s s' inv (goes alive waits woken) = destroy-IsThreads s inv alive waits woken
