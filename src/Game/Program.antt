-- ===== src/Game/Program.antt =====
-- `main` of `UCludeProject.cpp`: the function that the server is given calls `client_manager::do_some`.
use my_warehouse.Common.{ℕ, ◌+◌, ◌≡◌, refl, Option, none, some, List, []}
use my_warehouse.Game.Json.{Json, IsJson}
use my_warehouse.Game.Client.{game_client}
use my_warehouse.Game.Manager.{Clients, do_some}
use my_warehouse.Game.Answers.{do_some-answer}

-- `rolls i` is what `rand()` returns while the request `i` is answered.
module _ (json : Json) (rolls : ℕ → ℕ) where
  -- What the sessions share: the number of requests, and `m_client`, which is none once an exception
  -- has ended the program.
  pub record Process : Type 0 where
    pub requests : ℕ
    pub clients : Option (Clients json (game_client json))

  unfoldable pub main : Process
  main = record { requests = 0; clients = some [] }

  unfoldable pub answered :
      json.Value → ℕ → Option (json.Value × Clients json (game_client json)) → json.Value × Process
  answered root n none = (root, record { requests = n; clients = none })
  answered root n (some (v, m)) = (v, record { requests = n; clients = some m })

  -- The function, for the bytes of the body and the value of the response.
  unfoldable pub invoke : List ℕ → json.Value → Process → json.Value × Process
  invoke body root p = answered root (p.requests + 1) (elim p.clients [
    | none ↦ none
    | some m ↦ do_some json (game_client json) (rolls p.requests) body root m
  ])

  module _ (laws : IsJson json) where
    -- The program runs, and nobody is logged in.
    abbrev pub IsRunning : Process → Type 0
    IsRunning p = p.clients ≡ some []

    pub main-IsRunning : IsRunning main
    unfolding main
    main-IsRunning = refl

    -- Each request is answered without an exception, with an object, and logs nobody in.
    pub invoke-IsRunning :
        (body : List ℕ) (root : json.Value) (p : Process)
        → laws.IsObject root
        → IsRunning p
        → laws.IsObject (invoke body root p).0 × IsRunning (invoke body root p).1
    unfolding invoke answered
    invoke-IsRunning body root p o e =
        let (v, e', o', code, message) = do_some-answer json laws (rolls p.requests) body root o in
        rw (e, e') (o', refl)
