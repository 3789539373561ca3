-- ===== src/Net/System/Invariant.antt =====
-- The running server of `Net/System.antt`: what every reachable state satisfies.
use my_warehouse.Common.{
  some-inj, ℕ, ◌+◌, ◌≤◌, ◌<◌, ◌≡◌, ◌≢◌, ◌∙◌, inl, inr, refl, sym, ap, subst, arith, true, false,
  Bool-cases, Option, none, some, List, [], ◌∷◌, length, ◌==◌,
}
use my_warehouse.Net.Session.{on_read, Session, start, max_length}
use my_warehouse.Net.Accepting.{
  accepted, erased, Step-IsServer, IsServer, accepted-runs, http_server-IsServer,
}
use my_warehouse.Net.System.{
  connected, System, Moves, refused, handled, Reaches, begun, moved, launch, put_session, settle,
}
use my_warehouse.Net.Server.{
  do_accept, HttpServer, has_session, remove_session, erase_session, on_accept, http_server,
}
use my_warehouse.Net.IoServicePool.{IoServicePool}
use my_warehouse.Net.Reading.{InvokeKeeps, on_read-runs}
use my_warehouse.Net.Lifetime.{
  Handler, read_done, read_failed, write_done, timer_done, Lives, set_world, start-Lives,
  set_world-Lives, Handler-Lives,
}

has-cons_other : (h k : ℕ) (ks : List ℕ) → h ≢ k → has_session k (h ∷ ks) ≡ has_session k ks
unfolding has_session
has-cons_other h k ks n = ground arith

has-cons_self : (h : ℕ) (ks : List ℕ) → has_session h (h ∷ ks) ≡ true
unfolding has_session
has-cons_self h ks = ground arith

has-remove_other :
    (h k : ℕ) (ks : List ℕ) → h ≢ k → has_session k (remove_session h ks) ≡ has_session k ks
unfolding has_session remove_session
has-remove_other h k [] n = refl
has-remove_other h k (x ∷ ks) n = ground (arith, has-remove_other h k ks n)

has-remove_self : (h : ℕ) (ks : List ℕ) → has_session h (remove_session h ks) ≡ false
unfolding has_session remove_session
has-remove_self h [] = refl
has-remove_self h (x ∷ ks) = ground (arith, has-remove_self h ks)

module _ {J W : Type 0} (write : J → List ℕ) (invoke : List ℕ → J → W → J × W) (null : J) where
  settle_other :
      (h k : ℕ) (s : Session J W) (server : HttpServer)
      → h ≢ k
      → has_session k (settle write invoke null h s server).session ≡ has_session k server.session
  unfolding settle erase_session
  settle_other h k s server n = ground (arith, has-remove_other h k server.session n)

  settle_self :
      (h : ℕ) (s : Session J W) (server : HttpServer)
      → has_session h server.session ≡ true
      → s.registered ≡ has_session h (settle write invoke null h s server).session
  unfolding settle erase_session
  settle_self h s server e = ground (arith, has-remove_self h server.session)

  settle-IsServer :
      (h : ℕ) (s : Session J W) (server : HttpServer)
      → IsServer server
      → IsServer (settle write invoke null h s server)
  unfolding settle
  settle-IsServer h s server i = elim (Bool-cases s.registered) [
    | inl r ↦ rw r i
    | inr r ↦ rw r (Step-IsServer server (erase_session h server) i (erased h refl))
  ]

  Handler-registered : (s s' : Session J W) → Handler write invoke s s' → s.registered ≡ true
  Handler-registered s s' (read_done bytes r a h fits e) = a
  Handler-registered s s' (read_failed r a e) = a
  Handler-registered s _ (write_done failed p a) = a
  Handler-registered s _ (timer_done t a) = a

  module _ (Root : J → Type 0) (Shared : W → Type 0) where
    abbrev pub Holds : J → W → Type 0
    Holds root world = Root root × Shared world

    -- What the table says of a number: the set holds the session just while it is registered.
    abbrev pub Entry : List ℕ → W → ℕ → Option (Session J W) → Type 0
    Entry ks world k none = has_session k ks ≡ false
    Entry ks world k (some s) =
        Lives Holds write invoke (set_world write invoke world s)
        × (s.registered ≡ has_session k ks)

    pub record IsSystem (y : System write invoke null) : Type 0 where
      pub server : IsServer y.server
      pub entries : (k : ℕ) → Entry y.server.session y.world k (y.table k)
      pub shared : Shared y.world

    put_session-Entry :
        (ks : List ℕ) (world : W) (h k : ℕ) (s : Session J W) (table : ℕ → Option (Session J W))
        → (h ≡ k → Entry ks world k (some s))
        → (h ≢ k → Entry ks world k (table k))
        → Entry ks world k (put_session write invoke null h s table k)
    unfolding put_session
    put_session-Entry ks world h k s table f g = elim (Bool-cases (h == k)) [
      | inl t ↦ rw t (f (ground arith))
      | inr t ↦ rw t (g (λ e. absurd (ground arith)))
    ]

    -- The set and the shared state change, for a number that the handler is not about.
    Entry-other :
        (ks ks' : List ℕ) (world world' : W) (k : ℕ) (o : Option (Session J W))
        → has_session k ks' ≡ has_session k ks
        → Shared world'
        → Entry ks world k o
        → Entry ks' world' k o
    Entry-other ks ks' world world' k none e h i = e ∙ i
    Entry-other ks ks' world world' k (some s) e h (l, r) = (
      set_world-Lives Holds write invoke (set_world write invoke world s) world' l
          (l.session.target.holds.0, h),
      r ∙ sym e,
    )

    launch-IsSystem :
        (pool : IoServicePool) (world : W)
        → Shared world
        → IsSystem (launch write invoke null pool world)
    unfolding launch http_server do_accept has_session
    launch-IsSystem pool world h = record {
      server = http_server-IsServer pool;
      entries = λ k. refl;
      shared = h;
    }

    accepted-IsSystem :
        (root : Root null) (y : System write invoke null) (h : ℕ) (server : HttpServer)
        → IsSystem y
        → server.session ≡ h ∷ y.server.session
        → IsServer server
        → IsSystem (record y {
          server = server;
          table = put_session write invoke null h (start write invoke null y.world) y.table;
        })
    unfolding start
    accepted-IsSystem root y h server i e i' = record {
      server = i';
      entries = λ k.
          put_session-Entry server.session y.world h k (start write invoke null y.world) y.table
            (λ q. (
              start-Lives Holds write invoke null y.world (root, i.shared),
              sym (
                  ap (has_session k) e
                  ∙ subst (λ x. has_session x (h ∷ y.server.session) ≡ true) q
                      (has-cons_self h y.server.session)),
            ))
            (λ n.
              Entry-other y.server.session server.session y.world y.world k (y.table k)
                (ap (has_session k) e ∙ has-cons_other h k y.server.session n) i.shared
                (i.entries k));
      shared = i.shared;
    }

    handled-IsSystem :
        (keeps : InvokeKeeps Holds invoke) (y : System write invoke null) (h : ℕ)
        (s s' : Session J W)
        → IsSystem y
        → y.table h ≡ some s
        → Handler write invoke (set_world write invoke y.world s) s'
        → IsSystem (record {
          server = settle write invoke null h s' y.server;
          table = put_session write invoke null h s' y.table;
          world = s'.target.world;
        })
    handled-IsSystem keeps y h s s' i e m =
        let ks' = (settle write invoke null h s' y.server).session in
        let (l, r) = subst (Entry y.server.session y.world h) e (i.entries h) in
        let l' = Handler-Lives Holds write invoke keeps (set_world write invoke y.world s) s' l m in
        let is_open = sym r ∙ Handler-registered (set_world write invoke y.world s) s' m in
        record {
          server = settle-IsServer h s' y.server i.server;
          entries = λ k.
              put_session-Entry ks' s'.target.world h k s' y.table
                (λ q.
                  subst (λ x. Entry ks' s'.target.world x (some s')) q
                    (l', settle_self h s' y.server is_open))
                (λ n.
                  Entry-other y.server.session ks' y.world s'.target.world k (y.table k)
                    (settle_other h k s' y.server n) l'.session.target.holds.1 (i.entries k));
          shared = l'.session.target.holds.1;
        }

    pub Moves-IsSystem :
        (keeps : InvokeKeeps Holds invoke) (root : Root null) (y y' : System write invoke null)
        → IsSystem y
        → Moves write invoke null y y'
        → IsSystem y'
    unfolding on_accept
    Moves-IsSystem keeps root y _ i (connected h io server a e) =
        let (server', e', set, _, i') = accepted-runs h io y.server i.server a in
        let q = some-inj server' server (sym e' ∙ e) in
        accepted-IsSystem root y h server i (sym (ap (λ v. v.session) q) ∙ set)
          (subst IsServer q i')
    Moves-IsSystem keeps root y _ i (refused h io server a e) =
        let q = some-inj (record (y.server) { accepting = none }) server e in
        record {
          server = Step-IsServer y.server server i.server (accepted true h io a e);
          entries = λ k. subst (λ v. Entry v.session y.world k (y.table k)) q (i.entries k);
          shared = i.shared;
        }
    Moves-IsSystem keeps root y _ i (handled h s s' e m) = handled-IsSystem keeps y h s s' i e m

    -- Let the answers keep a predicate on the response's value and one on the shared state, which hold
    -- at first. In every state that the server reaches, whatever the order of the handlers of its
    -- acceptor and its sessions: the shared state satisfies its predicate; a session is in the server's
    -- set just while it has not closed; and each that was started satisfies `IsSession` and waits for a
    -- read, or is answered, with its timer pending, while it is in the set.
    pub launch-Reaches :
        (keeps : InvokeKeeps Holds invoke) (root : Root null) (pool : IoServicePool) (world : W)
        (y : System write invoke null)
        → Shared world
        → Reaches write invoke null (launch write invoke null pool world) y
        → IsSystem y
    launch-Reaches keeps root pool world _ h begun = launch-IsSystem pool world h
    launch-Reaches keeps root pool world y h (moved {u = u} r m) =
        Moves-IsSystem keeps root u y (launch-Reaches keeps root pool world u h r) m

    -- A session that waits for a read takes any bytes that fit.
    pub read-Moves :
        (keeps : InvokeKeeps Holds invoke) (y : System write invoke null) (h : ℕ) (s : Session J W)
        (bytes : List ℕ)
        → IsSystem y
        → y.table h ≡ some s
        → s.reading ≡ true
        → s.registered ≡ true
        → 0 < length bytes
        → s.pos + length bytes ≤ max_length
        → (s' : Session J W) × (on_read write invoke false bytes (set_world write invoke y.world s)
            ≡ some s')
          × Handler write invoke (set_world write invoke y.world s) s'
    read-Moves keeps y h s bytes i e r a b fits =
        let (l, _) = subst (Entry y.server.session y.world h) e (i.entries h) in
        let (s', e', settled, _) =
          on_read-runs Holds write invoke keeps bytes (set_world write invoke y.world s) l.session a
            b fits in
        (s', e', read_done bytes r a b fits e')
