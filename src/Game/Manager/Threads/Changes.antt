-- ===== src/Game/Manager/Threads/Changes.antt =====
-- What one step of a call of `client_manager.cpp` does to the map of users.
use my_warehouse.Game.Manager.Threads.{
  admitted, Shared, Call, login_finds, login_again, login_inits, login_inserts, logic_finds,
  logic_works, erases, ended, threw, login_new, login_inserted, logic_worked, go, taken_out,
  work_on,
}
use my_warehouse.Common.{
  ℕ, ◌+◌, ◌≡◌, ◌∙◌, ◌⊎◌, inl, inr, refl, ap, arith, Bool, true, false, Bool-cases, Option,
  Option-cases, none, some, List, [], ◌∷◌, ◌==◌, count,
}
use my_warehouse.Game.Json.{Json, ErrorCode}
use my_warehouse.Game.Client.{ClientInterface}
use my_warehouse.Game.Manager.{find, erase, insert}
use my_warehouse.Game.Users.{IsMap, erase-find}

-- 1 where the id is in the map.
unfoldable pub is_some : Option ℕ → ℕ
is_some none = 0
is_some (some h) = 1

unfoldable pub present : ℕ → List (ℕ × ℕ) → ℕ
present id m = is_some (find id m)

erase-absent : (id : ℕ) (m : List (ℕ × ℕ)) → find id m ≡ none → erase id m ≡ m
unfolding find erase
erase-absent id [] e = refl
erase-absent id ((k, h) ∷ m) e = elim (Bool-cases (id == k)) [
  | inl t ↦ absurd (let q : some h ≡ none = (rw⁻¹ e (rw t refl)) in cc)
  | inr t ↦ rw t (ap (λ x. (k, h) ∷ x) (erase-absent id m (rw⁻¹ e (rw t refl))))
]

pub present-cons :
    (id k h : ℕ) (m : List (ℕ × ℕ))
    → find k m ≡ none
    → present id ((k, h) ∷ m) ≡ present id m + count id (k ∷ [])
unfolding present find count is_some
present-cons id k h m e = elim (Bool-cases (id == k)) [
  | inl t ↦
      let same : id ≡ k = ground arith in
      let new : find id m ≡ none = ap (λ x. find x m) same ∙ e in rw (t, new) refl
  | inr t ↦ rw t (omega arith)
]

pub present-erase :
    (id k h : ℕ) (m : List (ℕ × ℕ))
    → IsMap m
    → find k m ≡ some h
    → present id m ≡ present id (erase k m) + count id (k ∷ [])
unfolding present count is_some
present-erase id k h m inv e =
    let (_, gone, others) = erase-find k m inv in
    elim (Bool-cases (id == k)) [
      | inl t ↦
          let same : id ≡ k = ground arith in
          let old : find id m ≡ some h = ap (λ x. find x m) same ∙ e in
          let new : find id (erase k m) ≡ none = ap (λ x. find x (erase k m)) same ∙ gone in
          rw (t, old, new) refl
      | inr t ↦
          let same : find id (erase k m) ≡ find id m = others id (λ q. ground arith) in
          rw (t, same) (omega arith)
    ]

pub insert-new :
    {D : Type 0} (id : ℕ) (x : D) (m : List (ℕ × D))
    → find id m ≡ none
    → insert id x m ≡ (true, (id, x) ∷ m)
unfolding insert
insert-new {D} id x m e =
    ap
      (λ o. elim o as (λ o. Bool × List (ℕ × D)) [
        | none ↦ (true, (id, x) ∷ m)
        | some old ↦ (false, m)
      ])
      e

pub insert-old :
    {D : Type 0} (id : ℕ) (x y : D) (m : List (ℕ × D))
    → find id m ≡ some y
    → insert id x m ≡ (false, m)
unfolding insert
insert-old {D} id x y m e =
    ap
      (λ o. elim o as (λ o. Bool × List (ℕ × D)) [
        | none ↦ (true, (id, x) ∷ m)
        | some old ↦ (false, m)
      ])
      e

module _ (json : Json) (iface : ClientInterface json) where
  login_new-m_client :
      (id : ℕ) (s : Shared json iface) (o : Option (ErrorCode × iface.Client))
      → (login_new json iface id s o).1.m_client ≡ s.m_client
  unfolding login_new
  login_new-m_client id s none = refl
  login_new-m_client id s (some (ec, c)) = refl

  logic_worked-m_client :
      (h : ℕ) (s : Shared json iface) (o : Option (ErrorCode × iface.Client × json.Value))
      → (logic_worked json iface h s o).1.m_client ≡ s.m_client
  unfolding logic_worked
  logic_worked-m_client h s none = refl
  logic_worked-m_client h s (some (ec, c, v)) = refl

  -- What a step answers and does to the map, for the call and the client that it inserts.
  pub go-cases :
      (c : Call json iface) (s : Shared json iface)
      → ((admitted json iface c (go json iface c s).0 ≡ [])
          × (taken_out json iface c s.m_client ≡ [])
          × ((go json iface c s).1.m_client ≡ s.m_client))
        ⊎ ((id : ℕ) × (h : ℕ) × (find id s.m_client ≡ none)
            × (admitted json iface c (go json iface c s).0 ≡ id ∷ [])
            × (taken_out json iface c s.m_client ≡ [])
            × ((go json iface c s).1.m_client ≡ (id, h) ∷ s.m_client))
        ⊎ ((id : ℕ) × (h : ℕ) × (find id s.m_client ≡ some h)
            × (admitted json iface c (go json iface c s).0 ≡ [])
            × (taken_out json iface c s.m_client ≡ id ∷ [])
            × ((go json iface c s).1.m_client ≡ erase id s.m_client))
  unfolding admitted taken_out go login_inserted insert
  go-cases (login_finds roll id) s = inl (refl, refl, refl)
  go-cases (login_again roll id) s = inl (refl, refl, refl)
  go-cases (login_inits roll id) s =
      inl (refl, refl, login_new-m_client id s (iface.init_user_info roll id iface.client_new))
  go-cases (login_inserts id h) s = elim (Option-cases (find id s.m_client)) [
    | inl e ↦
        let new = insert-new id h s.m_client e in
        inr (
          inl (
            id,
            h,
            e,
            ap (λ r. admitted json iface (login_inserts id h) (login_inserted json iface h s r).0)
                new,
            refl,
            ap (λ r. r.1) new,
          ))
    | inr (k, e) ↦
        let old = insert-old id h k s.m_client e in
        inl (
          ap (λ r. admitted json iface (login_inserts id h) (login_inserted json iface h s r).0)
              old,
          refl,
          ap (λ r. r.1) old,
        )
  ]
  go-cases (logic_finds id root respons) s = inl (refl, refl, refl)
  go-cases (logic_works h root respons) s =
      inl (
        refl,
        refl,
        logic_worked-m_client h s (work_on json iface h root respons (find h s.objects)),
      )
  go-cases (erases id) s = elim (Option-cases (find id s.m_client)) [
    | inl e ↦ inl (
      refl,
      ap (λ o. elim o as (λ x. List ℕ) [ none ↦ [] | some k ↦ id ∷ [] ]) e,
      erase-absent id s.m_client e,
    )
    | inr (k, e) ↦ inr (
        inr (
          id,
          k,
          e,
          refl,
          ap (λ o. elim o as (λ x. List ℕ) [ none ↦ [] | some k ↦ id ∷ [] ]) e,
          refl,
        ))
  ]
  go-cases (ended ec sc) s = inl (refl, refl, refl)
  go-cases threw s = inl (refl, refl, refl)
