-- ===== src/Program.antt =====
-- The program of `UCludeProject.cpp`: `main` gives the server `client_manager::do_some`, so that the
-- sessions of `Net` share the users of `Game`.
mod Tests
use my_warehouse.Common.{false, ℕ, ◌+◌, ◌≤◌, ◌<◌, ◌≡◌, true, some, List, [], length}
use my_warehouse.Net.Lifetime.{set_world}
use my_warehouse.Net.Session.{on_read, Session, max_length}
use my_warehouse.Net.IoServicePool.{IoServicePool}
use my_warehouse.Net.Reading.{InvokeKeeps}
use my_warehouse.Net.System.{System, Moves, handled, Reaches, launch}
use my_warehouse.Net.System.Invariant.{Holds, IsSystem, launch-Reaches, read-Moves, Moves-IsSystem}
use my_warehouse.Game.Json.{Json, IsJson}
use my_warehouse.Game.Program.{Process, main, invoke, IsRunning, main-IsRunning, invoke-IsRunning}

module _ (json : Json) (laws : IsJson json) (rolls : ℕ → ℕ) where
  -- The states of the program.
  abbrev pub Program : Type 0
  Program = System json.write (invoke json rolls) json.null

  abbrev pub Runs : IoServicePool → Program → Type 0
  Runs pool y =
      Reaches json.write (invoke json rolls) json.null
        (launch json.write (invoke json rolls) json.null pool (main json rolls)) y

  abbrev pub IsProgram : Program → Type 0
  IsProgram y =
      IsSystem json.write (invoke json rolls) json.null laws.IsObject (IsRunning json rolls laws) y

  answers :
      InvokeKeeps
        (Holds json.write (invoke json rolls) json.null laws.IsObject (IsRunning json rolls laws))
        (invoke json rolls)
  answers body root p h (o, e) = invoke-IsRunning json rolls laws body root p o e

  Runs-IsProgram : (pool : IoServicePool) (y : Program) → Runs pool y → IsProgram y
  Runs-IsProgram pool y r =
      launch-Reaches json.write (invoke json rolls) json.null laws.IsObject
        (IsRunning json rolls laws) answers laws.null-IsObject pool (main json rolls) y
        (main-IsRunning json rolls laws) r

  Moves-IsProgram :
      (y y' : Program)
      → IsProgram y
      → Moves json.write (invoke json rolls) json.null y y'
      → IsProgram y'
  Moves-IsProgram y y' i m =
      Moves-IsSystem json.write (invoke json rolls) json.null laws.IsObject
        (IsRunning json rolls laws) answers laws.null-IsObject y y' i m

  -- Whatever the clients send and in whatever order the handlers run, no exception of a request ever
  -- ends the program and no user is ever logged in; and whichever session waits for a read, when bytes
  -- come that fit in the room it has, its handler returns, without an exception and with nobody logged
  -- in.
  pub main-Runs :
      (pool : IoServicePool) (y : Program)
      → Runs pool y
      → (y.world.clients ≡ some [])
        × ((h : ℕ) (s : Session json.Value (Process json rolls)) (bytes : List ℕ)
            → y.table h ≡ some s
            → s.reading ≡ true
            → s.registered ≡ true
            → 0 < length bytes
            → s.pos + length bytes ≤ max_length
            → (s' : Session json.Value (Process json rolls)) × (on_read json.write
                  (invoke json rolls)
                  false
                  bytes
                  (set_world json.write (invoke json rolls) y.world s)
                ≡ some s')
              × (s'.target.world.clients ≡ some []))
  main-Runs pool y r =
      let i = Runs-IsProgram pool y r in
      (
        i.shared,
        λ h s bytes e reading alive b fits.
            let (s', o, m) =
              read-Moves json.write (invoke json rolls) json.null laws.IsObject
                (IsRunning json rolls laws) answers y h s bytes i e reading alive b fits in
            (s', o, (Moves-IsProgram y _ i (handled h s s' e m)).shared),
      )
