-- ===== src/Game/Manager/Threads/Alone.antt =====
-- A login of `client_manager.cpp` that no other thread comes between, and `insert_client_use_id` as a
-- function of the map.
use my_warehouse.Game.Manager.Threads.Changes.{insert-new}
use my_warehouse.Game.Manager.Threads.Pending.{Steps-Known}
use my_warehouse.Game.Manager.Threads.{
  Manager, empty_manager, Steps, Shared, Call, login_again, login_inits, ended, login_found,
  login_new, login_inserted, go,
}
use my_warehouse.Common.{
  ℕ, ◌+◌, ◌≡◌, ◌∙◌, inl, inr, refl, sym, ap, arith, Bool-cases, Option, Option-cases, none, some,
  List, ◌∷◌, if◌then◌else◌,
}
use my_warehouse.Game.Json.{user_not_login, Json, ErrorCode, succeeded, unknown_error}
use my_warehouse.Game.Client.{ClientInterface, ◌>>=◌}
use my_warehouse.Game.Manager.{
  is_error, find, insert, find_client_use_id, insert_client_use_id, insert_new, Clients,
}
use my_warehouse.Game.Manager.Threads.Resolve.{
  find-first, find-resolve-none, find-resolve-some, resolve-new, entry, resolve, Known,
}

module _ (json : Json) (iface : ClientInterface json) where
  -- One more step, and the three steps of `insert_client_use_id`, one after the other.
  abbrev pub go_on : Call json iface × Shared json iface → Call json iface × Shared json iface
  go_on r = go json iface r.0 r.1

  unfoldable pub login_alone : ℕ → ℕ → Shared json iface → Call json iface × Shared json iface
  login_alone roll id s = go_on (go_on (go json iface (login_again roll id) s))

  -- The code, the client and the map with which a call ended; `none` is an exception.
  unfoldable pub end_of :
      Call json iface × Shared json iface
      → Option (ErrorCode × Option iface.Client × Clients json iface)
  end_of (ended ec none, s) = some (ec, none, resolve s.objects s.m_client)
  end_of (ended ec (some h), s) = some (ec, find h s.objects, resolve s.objects s.m_client)
  end_of _ = none

  abbrev KnownIn : Shared json iface → Type 0
  KnownIn s = Known s.made s.objects s.m_client

  pub find_client-none :
      {D : Type 0} (id : ℕ) (m : List (ℕ × D))
      → find id m ≡ none
      → find_client_use_id id m ≡ (user_not_login, none)
  unfolding find_client_use_id
  find_client-none {D} id m e =
      ap
        (λ o. elim o as (λ o. ErrorCode × Option D) [
          | none ↦ (user_not_login, none)
          | some c ↦ (succeeded, some c)
        ])
        e

  pub find_client-some :
      {D : Type 0} (id : ℕ) (c : D) (m : List (ℕ × D))
      → find id m ≡ some c
      → find_client_use_id id m ≡ (succeeded, some c)
  unfolding find_client_use_id
  find_client-some {D} id c m e =
      ap
        (λ o. elim o as (λ o. ErrorCode × Option D) [
          | none ↦ (user_not_login, none)
          | some c ↦ (succeeded, some c)
        ])
        e

  -- `insert_client_use_id`, for what its search gives.
  unfoldable pub from_found :
      ℕ
      → ℕ
      → Clients json iface
      → ErrorCode × Option iface.Client
      → Option (ErrorCode × Option iface.Client × Clients json iface)
  from_found roll id m found =
      if is_error found.0
      then (iface.init_user_info roll id iface.client_new >>= λ r.
          some (insert_new json iface id m r))
      else some (found.0, found.1, m)

  alone-found :
      (roll id h : ℕ) (s : Shared json iface)
      → KnownIn s
      → find id s.m_client ≡ some h
      → end_of (login_alone roll id s)
        ≡ insert_client_use_id json iface roll id (resolve s.objects s.m_client)
  unfolding login_alone go login_found insert_client_use_id end_of from_found
  alone-found roll id h s k e =
      let m = resolve s.objects s.m_client in
      let (c, f, g) = find-resolve-some id h s.objects s.m_client s.made k e in
      let threads : end_of (login_alone roll id s) ≡ some (succeeded, find h s.objects, m) =
        ap (λ x. end_of (go_on (go_on (login_found json iface (login_inits roll id) x, s))))
          (find_client-some id h s.m_client e) in
      let client : some (succeeded, find h s.objects, m) ≡ some (succeeded, some c, m) =
        ap (λ x. some (succeeded, x, m)) f in
      let alone : some (succeeded, some c, m) ≡ from_found roll id m (find_client_use_id id m) =
        sym (ap (from_found roll id m) (find_client-some id c m g)) in
      threads ∙ client ∙ alone

  -- The insertion of a new client, on both sides.
  alone-inserts :
      (id : ℕ) (c : iface.Client) (s : Shared json iface)
      → KnownIn s
      → find id s.m_client ≡ none
      → end_of (
          login_inserted json iface s.made
            (record s { objects = (s.made, c) ∷ s.objects; made = s.made + 1 })
            (insert id s.made s.m_client))
        ≡ some (
          if (insert id c (resolve s.objects s.m_client)).0 then succeeded else unknown_error,
          some c,
          (insert id c (resolve s.objects s.m_client)).1,
        )
  unfolding login_inserted end_of resolve
  alone-inserts id c s k e =
      let objects = (s.made, c) ∷ s.objects in
      let m = resolve s.objects s.m_client in
      let after = record s { objects = objects; made = s.made + 1 } in
      let g = find-resolve-none id s.objects s.m_client s.made k e in
      let own : find s.made objects ≡ some c =
        find-first s.made s.made c s.objects (ground arith) in
      let threads : end_of (login_inserted json iface s.made after (insert id s.made s.m_client))
          ≡ some (
            succeeded,
            find s.made objects,
            entry id (find s.made objects) (resolve objects s.m_client),
          ) =
        ap (λ x. end_of (login_inserted json iface s.made after x))
          (insert-new id s.made s.m_client e) in
      let same : some (
        succeeded,
        find s.made objects,
        entry id (find s.made objects) (resolve objects s.m_client),
      )
          ≡ some (succeeded, some c, (id, c) ∷ m) =
        rw (own, resolve-new c s.objects s.m_client s.made k) refl in
      let alone : some (succeeded, some c, (id, c) ∷ m)
          ≡ some
              (if (insert id c m).0 then succeeded else unknown_error, some c, (insert id c m).1) =
        rw (insert-new id c m g) refl in
      threads ∙ same ∙ alone

  new-ends :
      (id : ℕ) (s : Shared json iface) (o : Option (ErrorCode × iface.Client))
      → KnownIn s
      → find id s.m_client ≡ none
      → end_of (go_on (login_new json iface id s o))
        ≡ (o >>= λ r. some (insert_new json iface id (resolve s.objects s.m_client) r))
  unfolding go login_new end_of insert_new
  new-ends id s none k e = refl
  new-ends id s (some (ec, c)) k e = elim (Bool-cases (is_error ec)) [
    | inl t ↦ rw t (ap (λ x. some (ec, none, x)) (resolve-new c s.objects s.m_client s.made k))
    | inr t ↦ rw t (alone-inserts id c s k e)
  ]

  alone-new :
      (roll id : ℕ) (s : Shared json iface)
      → KnownIn s
      → find id s.m_client ≡ none
      → end_of (login_alone roll id s)
        ≡ insert_client_use_id json iface roll id (resolve s.objects s.m_client)
  unfolding login_alone go login_found insert_client_use_id from_found
  alone-new roll id s k e =
      let m = resolve s.objects s.m_client in
      let g = find-resolve-none id s.objects s.m_client s.made k e in
      let threads : end_of (login_alone roll id s)
          ≡ end_of
              (go_on (login_new json iface id s (iface.init_user_info roll id iface.client_new))) =
        ap (λ x. end_of (go_on (go_on (login_found json iface (login_inits roll id) x, s))))
          (find_client-none id s.m_client e) in
      let alone : (iface.init_user_info roll id iface.client_new >>= λ r.
      some (insert_new json iface id m r))
          ≡ from_found roll id m (find_client_use_id id m) =
        sym (ap (from_found roll id m) (find_client-none id m g)) in
      threads ∙ new-ends id s (iface.init_user_info roll id iface.client_new) k e ∙ alone

  -- The two translations agree.
  pub login_alone-insert_client_use_id :
      (roll id : ℕ) (t : Manager json iface)
      → Steps json iface (empty_manager json iface) t
      → end_of (login_alone roll id t.shared)
        ≡ insert_client_use_id json iface roll id (resolve t.shared.objects t.shared.m_client)
  login_alone-insert_client_use_id roll id t r =
      let known = Steps-Known json iface t r in
      elim (Option-cases (find id t.shared.m_client)) [
        | inl e ↦ alone-new roll id t.shared known e
        | inr (h, e) ↦ alone-found roll id h t.shared known e
      ]
