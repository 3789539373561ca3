-- ===== src/Net/IoServicePool/Running/Starting.antt =====
-- The start of the threads of `io_service_pool.cpp`, and what the server that waits for it relies on.
use my_warehouse.Common.{ℕ, ◌≡◌, ◌∙◌, refl, subst, Bool, true, false}
use my_warehouse.Net.IoServicePool.{IoServicePool}
use my_warehouse.Net.IoServicePool.Running.{
  RunAt, entering, starting, ready, joining, returned, MainAt, calling, waits, woken, serving,
  stopping, joins, gone, Running, running, has_returned, runs, goes_on, Reached, begun, worked,
  woke,
}
use my_warehouse.Net.IoServicePool.Running.Places.{
  RunFits, MainFits, IsRunning, AtMain, run_at-Kept, main_at-Kept,
}

pub Reached-IsRunning :
    (pool : IoServicePool) (s : Running) → Reached pool s → IsRunning pool.size s
unfolding running RunFits MainFits
Reached-IsRunning pool s begun = record {
  same = refl;
  run_fits = (refl, refl, refl);
  main_fits = refl;
}
Reached-IsRunning pool s (worked {s = before} r (runs e)) =
    run_at-Kept pool.size before.run before s refl (Reached-IsRunning pool before r) e
Reached-IsRunning pool s (worked {s = before} r (goes_on e)) =
    main_at-Kept pool.size before.main before s refl (Reached-IsRunning pool before r) e
Reached-IsRunning pool s (woke {s = before} r e) =
    let inv = Reached-IsRunning pool before r in
    let (z, _) = subst (λ q. AtMain pool.size q before) e inv.main_fits in
    record { same = inv.same; run_fits = inv.run_fits; main_fits = z }

-- After `wait_init`, up to the end of the destructor.
unfoldable pub has_waited : MainAt → Bool
has_waited calling = false
has_waited waits = false
has_waited woken = false
has_waited serving = true
has_waited (stopping i) = true
has_waited joins = true
has_waited gone = true

MainFits-waited :
    (p : MainAt) (b r : Bool) (size stopped : ℕ)
    → MainFits p b r size stopped
    → has_waited p ≡ true
    → b ≡ true
unfolding MainFits has_waited
MainFits-waited calling b r size stopped f e = absurd (cc)
MainFits-waited waits b r size stopped f e = absurd (cc)
MainFits-waited woken b r size stopped f e = absurd (cc)
MainFits-waited serving b r size stopped (_, i) e = i
MainFits-waited (stopping k) b r size stopped (_, _, i) e = i
MainFits-waited joins b r size stopped (_, i) e = i
MainFits-waited gone b r size stopped (_, i, _) e = i

RunFits-started :
    (p : RunAt) (l b : Bool) (size started stopped : ℕ)
    → RunFits p l b size started stopped
    → b ≡ true
    → started ≡ size
unfolding RunFits
RunFits-started entering l b size started stopped (_, f, _) e = absurd (cc)
RunFits-started (starting i) l b size started stopped (_, f, _, _) e = absurd (cc)
RunFits-started ready l b size started stopped (_, _, f) e = f
RunFits-started (joining i) l b size started stopped (_, _, f, _) e = f
RunFits-started returned l b size started stopped (_, _, f, _) e = f

-- In whatever order the two threads run, and whatever wakes the wait: once `wait_init` has returned,
-- `run` has started a thread for each service; and once the destructor of the server has ended, all the
-- services are stopped and `run` has returned.
pub wait_init-Started :
    (pool : IoServicePool) (s : Running)
    → Reached pool s
    → (has_waited s.main ≡ true → s.started ≡ pool.size)
      × (s.main ≡ gone → (s.stopped ≡ pool.size) × (has_returned s.run ≡ true))
unfolding MainFits
wait_init-Started pool s r =
    let inv = Reached-IsRunning pool s r in
    (
      λ w.
          RunFits-started s.run s.locked s.is_init s.size s.started s.stopped inv.run_fits
            (MainFits-waited s.main s.is_init (has_returned s.run) s.size s.stopped inv.main_fits w)
          ∙ inv.same,
      λ e. let (z, _, r') = subst (λ q. AtMain pool.size q s) e inv.main_fits in (z ∙ inv.same, r'),
    )
