-- ===== src/Net/Accepting.antt =====
-- The server of `http_server.cpp` over its whole life: the handlers that can run, in any order.
pub mod Threads
mod Tests
use my_warehouse.Common.{
  some-inj, ℕ, ◌+◌, ◌<◌, ◌≡◌, refl, sym, ap, subst, ◌∙◌, arith, Bool, true, false, none, some, List,
  [], ◌∷◌, Bool-cases, inl, inr,
}
use my_warehouse.Net.IoServicePool.{IoServicePool, get_io_service}
use my_warehouse.Net.Server.{
  HttpServer, has_session, remove_session, erase_session, do_accept, insert_session, on_accept,
  http_server,
}

-- A handler of the acceptor runs for the session that waits, or a session is erased.
pub data Step (s s' : HttpServer) : Type 0 where
  accepted :
      (failed : Bool) (h io : ℕ)
      → s.accepting ≡ some (h, io)
      → on_accept failed h s ≡ some s'
      → Step s s'
  erased : (h : ℕ) → erase_session h s ≡ s' → Step s s'

pub data Reached (s : HttpServer) : HttpServer → Type 0 where
  here : Reached s s
  later : {t u : HttpServer} → Reached s t → Step t u → Reached s u

-- Every session was made before, and the one that waits is not in the set.
pub record IsServer (s : HttpServer) : Type 0 where
  pub old : (h : ℕ) → has_session h s.session ≡ true → h < s.made
  pub waiting :
      (h io : ℕ) → s.accepting ≡ some (h, io) → (h < s.made) × (has_session h s.session ≡ false)

pub has-remove_session :
    (h k : ℕ) (ks : List ℕ) → has_session h ks ≡ false → has_session h (remove_session k ks) ≡ false
unfolding has_session remove_session
has-remove_session h k [] e = refl
has-remove_session h k (x ∷ xs) e = ground (arith, has-remove_session h k xs)

has_session-made :
    (s : HttpServer)
    → ((h : ℕ) → has_session h s.session ≡ true → h < s.made)
    → has_session s.made s.session ≡ false
has_session-made s old = elim (Bool-cases (has_session s.made s.session)) [
  | inl t ↦ absurd (let q = old s.made t in omega arith)
  | inr f ↦ f
]

has-cons_old :
    (h k made : ℕ) (ks : List ℕ)
    → h < made
    → (has_session k ks ≡ true → k < made)
    → has_session k (h ∷ ks) ≡ true
    → k < made + 1
unfolding has_session
has-cons_old h k made ks lt f e = ground arith

has-cons_new :
    (h made : ℕ) (ks : List ℕ)
    → h < made
    → has_session made ks ≡ false
    → has_session made (h ∷ ks) ≡ false
unfolding has_session
has-cons_new h made ks lt e = ground arith

-- `OnAccept` without an error, in an invariant state.
pub accepted-runs :
    (h io : ℕ) (s : HttpServer)
    → IsServer s
    → s.accepting ≡ some (h, io)
    → (s' : HttpServer) × (on_accept false h s ≡ some s')
      × (s'.session ≡ h ∷ s.session)
      × ((io' : ℕ) × (s'.accepting ≡ some (s.made, io')))
      × IsServer s'
unfolding on_accept insert_session do_accept
accepted-runs h io s inv e =
    let (lt, new) = inv.waiting h io e in
    let r = get_io_service s.pool in
    (
      record {
        session = h ∷ s.session;
        accepting = some (s.made, r.0);
        made = s.made + 1;
        pool = r.1;
      },
      rw new refl,
      refl,
      (r.0, refl),
      record {
        old = λ k t. has-cons_old h k s.made s.session lt (inv.old k) t;
        waiting = λ k io' e'.
            subst (λ x. (x < s.made + 1) × (has_session x (h ∷ s.session) ≡ false))
              (ap (λ p. p.0) (some-inj (s.made, r.0) (k, io') e'))
              (omega arith, has-cons_new h s.made s.session lt (has_session-made s inv.old));
      },
    )

pub Step-IsServer : (s s' : HttpServer) → IsServer s → Step s s' → IsServer s'
unfolding on_accept erase_session
Step-IsServer s s' inv (accepted true h io e f) =
    subst IsServer (some-inj (record s { accepting = none }) s' f)
      (record { old = inv.old; waiting = λ k io' e'. absurd (cc) })
Step-IsServer s s' inv (accepted false h io e f) =
    let (t, g, _, _, inv') = accepted-runs h io s inv e in
    subst IsServer (some-inj t s' (sym g ∙ f)) inv'
Step-IsServer s s' inv (erased h e) = subst IsServer e (record {
  old = λ k t. inv.old k (removed k h s.session t);
  waiting =
      λ k io e'. let (lt, new) = inv.waiting k io e' in (lt, has-remove_session k h s.session new);
})
  where
    removed :
        (k h : ℕ) (ks : List ℕ)
        → has_session k (remove_session h ks) ≡ true
        → has_session k ks ≡ true
    removed k h ks t = elim (Bool-cases (has_session k ks)) [
      | inl u ↦ u
      | inr u ↦ absurd (let q = has-remove_session k h ks u in ground arith)
    ]

pub http_server-IsServer : (pool : IoServicePool) → IsServer (http_server pool)
unfolding http_server do_accept has_session
http_server-IsServer pool = record {
  old = λ k t. absurd (ground arith);
  waiting = λ k io e.
      subst (λ x. (x < 1) × (has_session x [] ≡ false))
        (ap (λ p. p.0) (some-inj (0, (get_io_service pool).0) (k, io) e)) (omega arith, refl);
}

Reached-IsServer :
    (pool : IoServicePool) (s : HttpServer) → Reached (http_server pool) s → IsServer s
Reached-IsServer pool s here = http_server-IsServer pool
Reached-IsServer pool s (later {t = t} r step) = Step-IsServer t s (Reached-IsServer pool t r) step

-- In every server that is reached, when `OnAccept` runs without an error the assertion of `insert`
-- holds, the session that waited is in the set, and another session waits.
pub on_accept-inserts :
    (pool : IoServicePool) (s : HttpServer) (h io : ℕ)
    → Reached (http_server pool) s
    → s.accepting ≡ some (h, io)
    → (s' : HttpServer) × (on_accept false h s ≡ some s')
      × (s'.session ≡ h ∷ s.session)
      × ((io' : ℕ) × (s'.accepting ≡ some (s.made, io')))
on_accept-inserts pool s h io r e =
    let (s', f, g, a, _) = accepted-runs h io s (Reached-IsServer pool s r) e in (s', f, g, a)

-- After one `OnAccept` with an error no session waits any more, in whatever order handlers run then.
pub on_accept-stops :
    (s s' u : HttpServer) (h : ℕ) → on_accept true h s ≡ some s' → Reached s' u → u.accepting ≡ none
unfolding on_accept erase_session
on_accept-stops s s' u h e here =
    ap (λ x. x.accepting) (sym (some-inj (record s { accepting = none }) s' e))
on_accept-stops s s' u h e (later {t = t} r (accepted failed k io e' f)) =
    let q = on_accept-stops s s' t h e r in absurd (cc)
on_accept-stops s s' u h e (later {t = t} r (erased k f)) =
    ap (λ x. x.accepting) (sym f) ∙ on_accept-stops s s' t h e r
