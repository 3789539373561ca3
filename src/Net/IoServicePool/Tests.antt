-- ===== src/Net/IoServicePool/Tests.antt =====
-- A pool of one service, whose server waits before the service runs; and the servers of two processors.
use my_warehouse.Common.{◌≡◌, ◌<◌, ◌⊎◌, refl, true, false}
use my_warehouse.Net.IoServicePool.{IoServicePool}
use my_warehouse.Net.IoServicePool.Running.{
  entering, starting, ready, joining, waits, woken, serving, gone, Running, running, notify_init,
  run_at, test_init, main_at, has_returned, Works, runs, goes_on, Reached, begun, worked,
}
use my_warehouse.Net.IoServicePool.Running.Starting.{has_waited, wait_init-Started}
use my_warehouse.Net.IoServicePool.Running.Ending.{steps_left, run-Ends}

abbrev one_service : IoServicePool
one_service = record { size = 1; next_io_service = 0 }

abbrev waiting : Running
waiting = record {
  size = 1;
  run = entering;
  main = waits;
  locked = false;
  is_init = false;
  started = 0;
  stopped = 0;
}

abbrev entered : Running
entered = record waiting { run = starting 0; locked = true }

abbrev one_started : Running
one_started = record entered { run = starting 1; started = 1 }

abbrev notified : Running
notified = record one_started { run = ready; is_init = true; main = woken }

abbrev unlocked : Running
unlocked = record notified { run = joining 0; locked = false }

abbrev served : Running
served = record unlocked { main = serving }

served-Reached : Reached one_service served
unfolding running run_at main_at test_init notify_init
served-Reached =
    let s₁ : Reached one_service waiting = worked begun (goes_on refl) in
    let s₂ : Reached one_service entered = worked s₁ (runs refl) in
    let s₃ : Reached one_service one_started = worked s₂ (runs refl) in
    let s₄ : Reached one_service notified = worked s₃ (runs refl) in
    let s₅ : Reached one_service unlocked = worked s₄ (runs refl) in worked s₅ (goes_on refl)

wait_init-Started_example :
    (has_waited served.main ≡ true → served.started ≡ 1)
    × (served.main ≡ gone → (served.stopped ≡ 1) × (has_returned served.run ≡ true))
wait_init-Started_example = wait_init-Started one_service served served-Reached

run-Ends_example :
    (((s' : Running) × Works served s') ⊎ ((served.main ≡ gone) × (has_returned served.run ≡ true)))
    × ((s' : Running) → Works served s' → steps_left s' < steps_left served)
run-Ends_example = run-Ends one_service served served-Reached
