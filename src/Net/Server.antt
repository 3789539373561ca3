-- ===== src/Net/Server.antt =====
-- `http_server.cpp` and `http_server.h`: the acceptor and the set of sessions. A session is known by a
-- number that no other session ever had, as its shared pointer is while the set holds it.
pub mod Run
mod Tests
use my_warehouse.Common.{
  ℕ, ◌+◌, Bool, true, false, Option, none, some, List, [], ◌∷◌, ◌==◌, if◌then◌else◌,
}
use my_warehouse.Net.IoServicePool.{IoServicePool, get_io_service}

pub record HttpServer : Type 0 where
  pub session : List ℕ
  pub accepting : Option (ℕ × ℕ)  -- the session that waits in `async_accept`, and its io_service
  pub made : ℕ  -- the number of sessions made so far
  pub pool : IoServicePool

-- `session_.find(p) != session_.end()`.
unfoldable pub has_session : ℕ → List ℕ → Bool
has_session h [] = false
has_session h (k ∷ ks) = let rest = has_session h ks in if h == k then true else rest

unfoldable pub remove_session : ℕ → List ℕ → List ℕ
remove_session h [] = []
remove_session h (k ∷ ks) = let rest = remove_session h ks in if h == k then rest else k ∷ rest

-- `erase`.
unfoldable pub erase_session : ℕ → HttpServer → HttpServer
erase_session h s = record s { session = remove_session h s.session }

-- `do_accept`.
unfoldable pub do_accept : HttpServer → HttpServer
do_accept s =
    let r = get_io_service s.pool in
    record s { accepting = some (s.made, r.0); made = s.made + 1; pool = r.1 }

-- `insert`; `none` is the assertion that fails.
unfoldable pub insert_session : ℕ → HttpServer → Option HttpServer
insert_session h s =
    if has_session h s.session then none else some (record s { session = h ∷ s.session })

-- `OnAccept` for the session that waited, where `failed` is `ec`.
unfoldable pub on_accept : Bool → ℕ → HttpServer → Option HttpServer
on_accept failed h s =
    let idle = record s { accepting = none } in
    if failed then some idle else insert_session h (do_accept idle)

-- The end of the constructor.
unfoldable pub http_server : IoServicePool → HttpServer
http_server pool = do_accept (record { session = []; accepting = none; made = 0; pool = pool })
