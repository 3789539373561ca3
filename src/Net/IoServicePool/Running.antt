-- ===== src/Net/IoServicePool/Running.antt =====
-- `io_service_pool.cpp` and `io_service_pool.h` with their threads: `run` on the thread that the
-- constructor of `http_server` makes, and the thread of that constructor, with `wait_init`, and of the
-- destructor, with `stop` and the join of the first thread. A step is what a thread does up to the next
-- point where another one may see it or hold it up; `none` is a thread that waits or has ended.
-- `io_service::run` is boost's: it returns once its service is stopped, since the pool gives it work.
pub mod Places
pub mod Starting
pub mod Ending
use my_warehouse.Common.{ℕ, ◌+◌, Bool, true, false, Option, none, some, ◌≡◌, ltb, if◌then◌else◌}
use my_warehouse.Net.IoServicePool.{IoServicePool}

-- Where `io_service_pool::run` stands: before the lock, in the first loop, after `notify_one`, in the
-- second loop, and at its end.
pub data RunAt : Type 0 where
  entering : RunAt
  starting : ℕ → RunAt
  ready : RunAt
  joining : ℕ → RunAt
  returned : RunAt

-- Where the thread of the server stands: in `wait_init` before the test, in the wait, and after a
-- wake-up; after `wait_init`; in the loop of `stop`; at `thread_.join()`; and after the destructor.
pub data MainAt : Type 0 where
  calling : MainAt
  waits : MainAt
  woken : MainAt
  serving : MainAt
  stopping : ℕ → MainAt
  joins : MainAt
  gone : MainAt

pub record Running : Type 0 where
  pub size : ℕ  -- `io_services_.size()`
  pub run : RunAt
  pub main : MainAt
  pub locked : Bool  -- `run` holds `m_lock`
  pub is_init : Bool
  pub started : ℕ  -- the threads that run a service
  pub stopped : ℕ  -- the services that are stopped

-- The members `pool_` and `thread_` of the server are made.
unfoldable pub running : IoServicePool → Running
running pool = record {
  size = pool.size;
  run = entering;
  main = calling;
  locked = false;
  is_init = false;
  started = 0;
  stopped = 0;
}

-- `m_init_ok.notify_one()`.
unfoldable pub notify_init : MainAt → MainAt
notify_init calling = calling
notify_init waits = woken
notify_init woken = woken
notify_init serving = serving
notify_init (stopping i) = stopping i
notify_init joins = joins
notify_init gone = gone

-- One step of `io_service_pool::run`.
unfoldable pub run_at : RunAt → Running → Option Running
run_at entering s = if s.locked then none else some (record s { run = starting 0; locked = true })
run_at (starting i) s =
    if ltb i s.size
    then some (record s { run = starting (i + 1); started = s.started + 1 })
    else some (record s { run = ready; is_init = true; main = notify_init s.main })
run_at ready s = some (record s { run = joining 0; locked = false })
run_at (joining i) s =
    if ltb i s.size
    then if ltb i s.stopped then some (record s { run = joining (i + 1) }) else none
    else some (record s { run = returned })
run_at returned s = none

-- The test of `m_is_init` under the lock.
unfoldable pub test_init : Running → Option Running
test_init s =
    if s.locked then none else some (record s { main = if s.is_init then serving else waits })

unfoldable pub has_returned : RunAt → Bool
has_returned entering = false
has_returned (starting i) = false
has_returned ready = false
has_returned (joining i) = false
has_returned returned = true

-- One step of `wait_init`, or of the destructor of the server with `stop`.
unfoldable pub main_at : MainAt → Running → Option Running
main_at calling s = test_init s
main_at waits s = none
main_at woken s = test_init s
main_at serving s = some (record s { main = stopping 0 })
main_at (stopping i) s =
    if ltb i s.size
    then some (record s { main = stopping (i + 1); stopped = s.stopped + 1 })
    else some (record s { main = joins })
main_at joins s = if has_returned s.run then some (record s { main = gone }) else none
main_at gone s = none

-- A step of one of the two threads.
pub data Works (s s' : Running) : Type 0 where
  runs : run_at s.run s ≡ some s' → Works s s'
  goes_on : main_at s.main s ≡ some s' → Works s s'

-- The states that are reached, where a wait may also end although nobody notified.
pub data Reached (pool : IoServicePool) : Running → Type 0 where
  begun : Reached pool (running pool)
  worked : {s s' : Running} → Reached pool s → Works s s' → Reached pool s'
  woke : {s : Running} → Reached pool s → s.main ≡ waits → Reached pool (record s { main = woken })
