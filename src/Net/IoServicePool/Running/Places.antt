-- ===== src/Net/IoServicePool/Running/Places.antt =====
-- What holds at each place where the thread of `io_service_pool.cpp` and that of the server stand, and
-- that their steps keep it.
use my_warehouse.Common.{
  some-inj, if-none, if-some, if-either, ℕ, ◌+◌, ◌≤◌, ◌≡◌, inl, inr, refl, subst, arith, Bool, true,
  false, some, ltb, if◌then◌else◌,
}
use my_warehouse.Net.IoServicePool.Running.{
  RunAt, entering, starting, ready, joining, returned, MainAt, calling, waits, woken, serving,
  stopping, joins, gone, Running, notify_init, run_at, test_init, has_returned, main_at,
}

-- What holds where `run` stands.
unfoldable pub RunFits : RunAt → Bool → Bool → ℕ → ℕ → ℕ → Type 0
RunFits entering locked is_init size started stopped =
    (locked ≡ false) × (is_init ≡ false) × (started ≡ 0)
RunFits (starting i) locked is_init size started stopped =
    (locked ≡ true) × (is_init ≡ false) × (started ≡ i) × (i ≤ size)
RunFits ready locked is_init size started stopped =
    (locked ≡ true) × (is_init ≡ true) × (started ≡ size)
RunFits (joining i) locked is_init size started stopped =
    (locked ≡ false) × (is_init ≡ true) × (started ≡ size) × (i ≤ stopped)
RunFits returned locked is_init size started stopped =
    (locked ≡ false) × (is_init ≡ true) × (started ≡ size) × (size ≤ stopped)

-- What holds where the thread of the server stands.
unfoldable pub MainFits : MainAt → Bool → Bool → ℕ → ℕ → Type 0
MainFits calling is_init ended size stopped = stopped ≡ 0
MainFits waits is_init ended size stopped = (stopped ≡ 0) × (is_init ≡ false)
MainFits woken is_init ended size stopped = stopped ≡ 0
MainFits serving is_init ended size stopped = (stopped ≡ 0) × (is_init ≡ true)
MainFits (stopping i) is_init ended size stopped = (stopped ≡ i) × (i ≤ size) × (is_init ≡ true)
MainFits joins is_init ended size stopped = (stopped ≡ size) × (is_init ≡ true)
MainFits gone is_init ended size stopped = (stopped ≡ size) × (is_init ≡ true) × (ended ≡ true)

pub record IsRunning (size : ℕ) (s : Running) : Type 0 where
  pub same : s.size ≡ size
  pub run_fits : RunFits s.run s.locked s.is_init s.size s.started s.stopped
  pub main_fits : MainFits s.main s.is_init (has_returned s.run) s.size s.stopped

-- More services are stopped.
RunFits-stops :
    (p : RunAt) (l b : Bool) (size started stopped : ℕ)
    → RunFits p l b size started stopped
    → RunFits p l b size started (stopped + 1)
unfolding RunFits
RunFits-stops entering l b size started stopped f = f
RunFits-stops (starting i) l b size started stopped f = f
RunFits-stops ready l b size started stopped f = f
RunFits-stops (joining i) l b size started stopped (x, y, z, w) = (x, y, z, omega arith)
RunFits-stops returned l b size started stopped (x, y, z, w) = (x, y, z, omega arith)

-- `run` is ready, and wakes the thread that waits.
MainFits-ready :
    (p : MainAt) (size stopped : ℕ)
    → MainFits p false false size stopped
    → MainFits (notify_init p) true false size stopped
unfolding MainFits notify_init
MainFits-ready calling size stopped f = f
MainFits-ready waits size stopped (f, _) = f
MainFits-ready woken size stopped f = f
MainFits-ready serving size stopped (_, f) = absurd (cc)
MainFits-ready (stopping i) size stopped (_, _, f) = absurd (cc)
MainFits-ready joins size stopped (_, f) = absurd (cc)
MainFits-ready gone size stopped (_, f, _) = absurd (cc)

-- `run` returns.
MainFits-returned :
    (p : MainAt) (b : Bool) (size stopped : ℕ)
    → MainFits p b false size stopped
    → MainFits p b true size stopped
unfolding MainFits
MainFits-returned calling b size stopped f = f
MainFits-returned waits b size stopped f = f
MainFits-returned woken b size stopped f = f
MainFits-returned serving b size stopped f = f
MainFits-returned (stopping i) b size stopped f = f
MainFits-returned joins b size stopped f = f
MainFits-returned gone b size stopped (_, _, f) = absurd (cc)

module _ (size : ℕ) where
  abbrev pub AtRun : RunAt → Running → Type 0
  AtRun p s =
      RunFits p s.locked s.is_init s.size s.started s.stopped
      × MainFits s.main s.is_init (has_returned p) s.size s.stopped

  pub at_run : (p : RunAt) (s : Running) → s.run ≡ p → IsRunning size s → AtRun p s
  at_run p s at inv = subst (λ q. AtRun q s) at (inv.run_fits, inv.main_fits)

  pub run_at-Kept :
      (p : RunAt) (s s' : Running)
      → s.run ≡ p
      → IsRunning size s
      → run_at p s ≡ some s'
      → IsRunning size s'
  unfolding run_at RunFits has_returned
  run_at-Kept entering s s' at inv e =
      let (free, q) = if-none s.locked _ s' e in
      let ((l, i, st), m) = at_run entering s at inv in
      subst (IsRunning size) q
        (record { same = inv.same; run_fits = (refl, i, st, omega arith); main_fits = m })
  run_at-Kept (starting k) s s' at inv e =
      let ((l, i, st, b), m) = at_run (starting k) s at inv in
      elim (if-either (ltb k s.size) _ _ s' e) [
        | inl (t, o) ↦ subst (IsRunning size) (some-inj _ s' o) (record {
          same = inv.same;
          run_fits = (l, i, omega arith, ground arith);
          main_fits = m;
        })
        | inr (t, q) ↦ subst (IsRunning size) q (record {
          same = inv.same;
          run_fits = (l, refl, ground arith);
          main_fits =
              MainFits-ready s.main s.size s.stopped
                (subst (λ x. MainFits s.main x false s.size s.stopped) i m);
        })
      ]
  run_at-Kept ready s s' at inv e =
      let ((l, i, st), m) = at_run ready s at inv in
      subst (IsRunning size) (some-inj _ s' e)
        (record { same = inv.same; run_fits = (refl, i, st, omega arith); main_fits = m })
  run_at-Kept (joining k) s s' at inv e =
      let ((l, i, st, b), m) = at_run (joining k) s at inv in
      elim (if-either (ltb k s.size) _ _ s' e) [
        | inl (t, o) ↦
            let (w, q) = if-some (ltb k s.stopped) _ s' o in
            subst (IsRunning size) q
              (record { same = inv.same; run_fits = (l, i, st, ground arith); main_fits = m })
        | inr (t, q) ↦ subst (IsRunning size) q (record {
          same = inv.same;
          run_fits = (l, i, st, ground arith);
          main_fits = MainFits-returned s.main s.is_init s.size s.stopped m;
        })
      ]
  run_at-Kept returned s s' at inv e = absurd (cc)

  abbrev pub AtMain : MainAt → Running → Type 0
  AtMain p s = MainFits p s.is_init (has_returned s.run) s.size s.stopped

  tested-MainFits :
      (b r : Bool) (n stopped : ℕ)
      → stopped ≡ 0
      → MainFits (if b then serving else waits) b r n stopped
  unfolding MainFits
  tested-MainFits true r n stopped z = (z, refl)
  tested-MainFits false r n stopped z = (z, refl)

  test_init-Kept :
      (s s' : Running)
      → s.stopped ≡ 0
      → IsRunning size s
      → test_init s ≡ some s'
      → IsRunning size s'
  unfolding test_init
  test_init-Kept s s' z inv e =
      let (free, q) = if-none s.locked _ s' e in
      subst (IsRunning size) q (record {
        same = inv.same;
        run_fits = inv.run_fits;
        main_fits = tested-MainFits s.is_init (has_returned s.run) s.size s.stopped z;
      })

  pub main_at-Kept :
      (p : MainAt) (s s' : Running)
      → s.main ≡ p
      → IsRunning size s
      → main_at p s ≡ some s'
      → IsRunning size s'
  unfolding main_at MainFits
  main_at-Kept calling s s' at inv e =
      test_init-Kept s s' (subst (λ q. AtMain q s) at inv.main_fits) inv e
  main_at-Kept waits s s' at inv e = absurd (cc)
  main_at-Kept woken s s' at inv e =
      test_init-Kept s s' (subst (λ q. AtMain q s) at inv.main_fits) inv e
  main_at-Kept serving s s' at inv e =
      let (z, i) = subst (λ q. AtMain q s) at inv.main_fits in
      subst (IsRunning size) (some-inj _ s' e)
        (record { same = inv.same; run_fits = inv.run_fits; main_fits = (z, omega arith, i) })
  main_at-Kept (stopping k) s s' at inv e =
      let (z, b, i) = subst (λ q. AtMain q s) at inv.main_fits in
      elim (if-either (ltb k s.size) _ _ s' e) [
        | inl (t, o) ↦ subst (IsRunning size) (some-inj _ s' o) (record {
          same = inv.same;
          run_fits = RunFits-stops s.run s.locked s.is_init s.size s.started s.stopped inv.run_fits;
          main_fits = (omega arith, ground arith, i);
        })
        | inr (t, q) ↦
            subst (IsRunning size) q
              (record { same = inv.same; run_fits = inv.run_fits; main_fits = (ground arith, i) })
      ]
  main_at-Kept joins s s' at inv e =
      let (z, i) = subst (λ q. AtMain q s) at inv.main_fits in
      let (r, q) = if-some (has_returned s.run) _ s' e in
      subst (IsRunning size) q
        (record { same = inv.same; run_fits = inv.run_fits; main_fits = (z, i, r) })
  main_at-Kept gone s s' at inv e = absurd (cc)
