-- ===== src/Net/Server/Tests.antt =====
-- The server on a machine with four processors, of whose threads the first has returned.
use my_warehouse.Common.{ℕ, zero, suc, ◌≡◌, ◌<◌, Bool, true, false}
use my_warehouse.Net.Server.Run.{run_server, past_end, waits, done, terminated, run_server-ends}

abbrev processors : ℕ
processors = 4

abbrev first_returned : ℕ → Bool
first_returned zero = true
first_returned (suc i) = false

run_server-ends_example :
    (processors ≡ 0 → run_server first_returned processors ≡ past_end)
    × (0 < processors → true ≡ false → run_server first_returned processors ≡ waits 0)
    × (processors ≡ 1 → true ≡ true → run_server first_returned processors ≡ past_end)
    × (1 < processors
        → true ≡ true
        → false ≡ false
        → run_server first_returned processors ≡ waits 1)
    × (processors ≡ 2 → true ≡ true → false ≡ true → run_server first_returned processors ≡ done)
    × (2 < processors
        → true ≡ true
        → false ≡ true
        → run_server first_returned processors ≡ terminated)
run_server-ends_example = run_server-ends first_returned processors
