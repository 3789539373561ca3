-- ===== src/Net/Accepting/Threads.antt =====
-- The acceptor of `http_server.cpp` with its handlers on several threads: `OnAccept` calls `do_accept`,
-- takes `m_mutex` in `insert`, and starts the session; other calls of it, and of `erase`, may run between
-- these. A session erases itself from its own handlers only, which run once it is started.
use my_warehouse.Common.{
  some-inj, ℕ, ◌+◌, ◌≤◌, ◌<◌, ◌≡◌, ◌∙◌, refl, sym, ap, subst, arith, Bool, true, false, Bool-cases,
  inl, inr, Option, none, some, List, [], ◌∷◌, ◌++◌, ◌==◌, if◌then◌else◌, count, count-append,
}
use my_warehouse.Net.IoServicePool.{IoServicePool}
use my_warehouse.Net.Server.{
  HttpServer, has_session, remove_session, erase_session, do_accept, insert_session, http_server,
}

-- The server with the sessions whose `OnAccept` has called `do_accept`, those that it has inserted, and
-- those that it has started.
pub record Accepting : Type 0 where
  pub server : HttpServer
  pub accepted : List ℕ
  pub inserted : List ℕ
  pub started : List ℕ

unfoldable pub listening : IoServicePool → Accepting
listening pool = record { server = http_server pool; accepted = []; inserted = []; started = [] }

-- The first step of `OnAccept` for the session `h`: `do_accept`, or nothing where `ec` is an error.
unfoldable pub accept : Bool → ℕ → Accepting → Accepting
accept failed h s =
    let idle = record (s.server) { accepting = none } in
    if failed
    then record s { server = idle }
    else record s { server = do_accept idle; accepted = h ∷ s.accepted }

-- A session goes over from `before ++ h ∷ after`.
pub data Step (s : Accepting) : Accepting → Type 0 where
  accepts :
      (failed : Bool) (h io : ℕ) → s.server.accepting ≡ some (h, io) → Step s (accept failed h s)
  inserts :
      (before : List ℕ) (h : ℕ) (after : List ℕ) (server : HttpServer)
      → s.accepted ≡ before ++ h ∷ after
      → insert_session h s.server ≡ some server
      → Step s (record s { server = server; accepted = before ++ after; inserted = h ∷ s.inserted })
  starts :
      (before : List ℕ) (h : ℕ) (after : List ℕ)
      → s.inserted ≡ before ++ h ∷ after
      → Step s (record s { inserted = before ++ after; started = h ∷ s.started })
  erases : (h : ℕ) → 0 < count h s.started → Step s (record s { server = erase_session h s.server })

pub data Reached (pool : IoServicePool) : Accepting → Type 0 where
  begun : Reached pool (listening pool)
  next : {s s' : Accepting} → Reached pool s → Step s s' → Reached pool s'

waits : ℕ → Option (ℕ × ℕ) → ℕ
waits h none = 0
waits h (some (k, io)) = count h (k ∷ [])

-- How often a session stands in one of the lists, or waits in the acceptor.
abbrev places : ℕ → Accepting → ℕ
places h s =
    waits h s.server.accepting + count h s.accepted + count h s.inserted + count h s.started

record IsAccepting (s : Accepting) : Type 0 where
  once : (h : ℕ) → places h s ≤ 1
  old : (h : ℕ) → s.server.made ≤ h → places h s ≡ 0
  listed : (h : ℕ) → count h s.server.session ≤ count h s.inserted + count h s.started
  there : (h : ℕ) → count h s.inserted ≤ count h s.server.session

has-count : (h : ℕ) (ks : List ℕ) → count h ks ≡ 0 → has_session h ks ≡ false
unfolding has_session count
has-count h [] e = refl
has-count h (k ∷ ks) e = ground (arith, has-count h ks)

count-has : (h : ℕ) (ks : List ℕ) → 0 < count h ks → has_session h ks ≡ true
unfolding has_session count
count-has h [] e = absurd (omega arith)
count-has h (k ∷ ks) e = ground (arith, count-has h ks)

count-remove_session :
    (h k : ℕ) (ks : List ℕ) → count h (remove_session k ks) ≡ (if h == k then 0 else count h ks)
unfolding remove_session count
count-remove_session h k [] = ground arith
count-remove_session h k (x ∷ xs) = ground (arith, count-remove_session h k xs)

insert_session-runs :
    (h : ℕ) (server : HttpServer)
    → count h server.session ≡ 0
    → insert_session h server ≡ some (record server { session = h ∷ server.session })
unfolding insert_session
insert_session-runs h server e = rw (has-count h server.session e) refl

-- The list with one place taken out.
count-between :
    (k h : ℕ) (xs before after : List ℕ)
    → xs ≡ before ++ h ∷ after
    → count k xs ≡ count k (before ++ after) + count k (h ∷ [])
unfolding count
count-between k h xs before after e =
    let whole = ap (count k) e in
    ground (arith, count-append k before (h ∷ after), count-append k before after)

waits-some : (k h io : ℕ) (o : Option (ℕ × ℕ)) → o ≡ some (h, io) → waits k o ≡ count k (h ∷ [])
unfolding waits
waits-some k h io o e = ap (waits k) e

accepted-New :
    (s : Accepting)
    → IsAccepting s
    → (before : List ℕ) (h : ℕ) (after : List ℕ) → s.accepted ≡ before ++ h ∷ after
    → count h s.server.session ≡ 0
unfolding count
accepted-New s inv before h after e =
    let c = count-between h h s.accepted before after e in ground (arith, inv.once h, inv.listed h)

Step-IsAccepting : (s s' : Accepting) → IsAccepting s → Step s s' → IsAccepting s'
unfolding accept do_accept waits erase_session count
Step-IsAccepting s s' inv (accepts true h io e) = record {
  once = λ k. omega (arith, inv.once k);
  old = λ k l. omega (arith, inv.old k l);
  listed = inv.listed;
  there = inv.there;
}
Step-IsAccepting s s' inv (accepts false h io e) = record {
  once = λ k.
      (let w = waits-some k h io s.server.accepting e in ground (arith, inv.once k, inv.old k));
  old = λ k l. (let w = waits-some k h io s.server.accepting e in ground (arith, inv.old k));
  listed = inv.listed;
  there = inv.there;
}
Step-IsAccepting s s' inv (inserts before h after server e f) =
    subst
      (λ x.
        IsAccepting
          (record s { server = x; accepted = before ++ after; inserted = h ∷ s.inserted }))
      q
      (record {
        once = λ k.
            (let c = count-between k h s.accepted before after e in ground (arith, inv.once k));
        old = λ k l.
            (let c = count-between k h s.accepted before after e in ground (arith, inv.old k));
        listed = λ k. ground (arith, inv.listed k);
        there = λ k. ground (arith, inv.there k);
      })
  where
    q : record (s.server) { session = h ∷ s.server.session } ≡ server
    q =
        some-inj _ server
          (sym (insert_session-runs h s.server (accepted-New s inv before h after e)) ∙ f)
Step-IsAccepting s s' inv (starts before h after e) = record {
  once = λ k. (let c = count-between k h s.inserted before after e in ground (arith, inv.once k));
  old = λ k l. (let c = count-between k h s.inserted before after e in ground (arith, inv.old k));
  listed =
      λ k. (let c = count-between k h s.inserted before after e in ground (arith, inv.listed k));
  there = λ k. (let c = count-between k h s.inserted before after e in ground (arith, inv.there k));
}
Step-IsAccepting s s' inv (erases h l) = record {
  once = inv.once;
  old = inv.old;
  listed = λ k. ground (arith, inv.listed k, count-remove_session k h s.server.session);
  there = λ k. started-Kept k;
}
  where
    started-Kept : (k : ℕ) → count k s.inserted ≤ count k (remove_session h s.server.session)
    started-Kept k = elim (Bool-cases (k == h)) [
      | inl t ↦
          let same : count k s.inserted ≡ count h s.inserted =
            ap (λ x. count x s.inserted) (ground arith) in
          omega (arith, inv.once h)
      | inr t ↦ ground (arith, inv.there k, count-remove_session k h s.server.session)
    ]

Reached-IsAccepting : (pool : IoServicePool) (s : Accepting) → Reached pool s → IsAccepting s
unfolding listening http_server do_accept waits count
Reached-IsAccepting pool s begun = record {
  once = λ k. ground arith;
  old = λ k l. ground arith;
  listed = λ k. omega arith;
  there = λ k. omega arith;
}
Reached-IsAccepting pool s (next {s = before} r st) =
    Step-IsAccepting before s (Reached-IsAccepting pool before r) st

-- In whatever order the handlers of the acceptor and of the sessions run, on however many threads: for a
-- session whose `OnAccept` has called `do_accept` and not yet `insert`, the assertion of `insert` holds;
-- and a session that was inserted and is not started yet is in the set, and was not started before.
pub accepted-Inserts :
    (pool : IoServicePool) (s : Accepting)
    → Reached pool s
    → ((h : ℕ)
        → 0 < count h s.accepted
        → insert_session h s.server ≡ some (record (s.server) { session = h ∷ s.server.session }))
      × ((h : ℕ)
          → 0 < count h s.inserted
          → (has_session h s.server.session ≡ true) × (count h s.started ≡ 0))
accepted-Inserts pool s r =
    let inv = Reached-IsAccepting pool s r in
    (
      λ h l. insert_session-runs h s.server (omega (arith, inv.once h, inv.listed h)),
      λ h l. (count-has h s.server.session (omega (arith, inv.there h)), omega (arith, inv.once h)),
    )
