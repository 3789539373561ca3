-- ===== src/Game/Manager/Threads/Once.antt =====
-- The users of `client_manager.cpp` with calls on several threads, whatever steps they make in turn.
use my_warehouse.Game.Manager.Threads.{
  admitted, Shared, Call, go, taken_out, Manager, empty_manager, step_call, Step, begins, goes,
  Steps, stay, then_step,
}
use my_warehouse.Common.{
  ℕ, ◌+◌, ◌<◌, ◌≤◌, ◌≡◌, ◌∙◌, ◌⊎◌, inl, inr, refl, sym, ap, subst, arith, Bool-cases, some, List,
  [], ◌∷◌, ◌++◌, ◌==◌, count, count-append,
}
use my_warehouse.Game.Json.{Json}
use my_warehouse.Game.Client.{ClientInterface}
use my_warehouse.Game.Manager.{find}
use my_warehouse.Game.Users.{IsMap, erase-find}
use my_warehouse.Game.Manager.Threads.Changes.{
  present, present-cons, present-erase, go-cases, is_some,
}

module _ (json : Json) (iface : ClientInterface json) where
  -- The map has each id at most once, and as often as it was inserted and not taken out.
  record IsManager (t : Manager json iface) : Type 0 where
    once : IsMap t.shared.m_client
    balanced :
        (id : ℕ) → count id t.logged_in ≡ count id t.logged_out + present id t.shared.m_client

  Step-IsManager : (t u : Manager json iface) → IsManager t → Step json iface t u → IsManager u
  unfolding step_call
  Step-IsManager t u inv (begins c b) = record { once = inv.once; balanced = inv.balanced }
  Step-IsManager t u inv (goes before c after e) = elim (go-cases json iface c t.shared) [
    | inl (i, o, m) ↦ kept i o m (inv.once) (λ k. (let q = inv.balanced k in cc))
    | inr (inl (id, h, f, i, o, m)) ↦
        kept i o m (f, inv.once)
          (λ k. ground (
            arith,
            inv.balanced k,
            present-cons k id h t.shared.m_client f,
            count-append k (id ∷ []) t.logged_in,
          ))
    | inr (inr (id, h, f, i, o, m)) ↦ kept i o m (erase-find id t.shared.m_client inv.once).0 (λ k.
        ground (
          arith,
          inv.balanced k,
          present-erase k id h t.shared.m_client inv.once f,
          count-append k (id ∷ []) t.logged_out,
        ))
  ]
    where
      kept :
          {ins outs : List ℕ} {m : List (ℕ × ℕ)}
          → admitted json iface c (go json iface c t.shared).0 ≡ ins
          → taken_out json iface c t.shared.m_client ≡ outs
          → (go json iface c t.shared).1.m_client ≡ m
          → IsMap m
          → ((k : ℕ) → count k (ins ++ t.logged_in) ≡ count k (outs ++ t.logged_out) + present k m)
          → IsManager (step_call json iface before c after t)
      kept {ins} {outs} {m} i o g inv' b = record {
        once = subst IsMap (sym g) inv';
        balanced = λ k. ap (λ x. count k (x ++ t.logged_in)) i ∙ b k ∙ rw (o, g) refl;
      }

  Steps-IsManager : (t u : Manager json iface) → IsManager t → Steps json iface t u → IsManager u
  Steps-IsManager t u inv stay = inv
  Steps-IsManager t u inv (then_step {u = v} r st) =
      Step-IsManager v u (Steps-IsManager t v inv r) st

  reached : (t : Manager json iface) → Steps json iface (empty_manager json iface) t → IsManager t
  unfolding present find count is_some
  reached t r =
      Steps-IsManager (empty_manager json iface) t (record { once = tt; balanced = λ id. refl }) r

  -- One step leaves a user who is logged in as it is, or takes it out.
  go-Stays :
      (id h : ℕ) (c : Call json iface) (s : Shared json iface)
      → IsMap s.m_client
      → find id s.m_client ≡ some h
      → (find id ((go json iface c s).1.m_client) ≡ some h)
        ⊎ (0 < count id (taken_out json iface c s.m_client))
  unfolding count find
  go-Stays id h c s inv f = elim (go-cases json iface c s) [
    | inl (i, o, m) ↦ inl (ap (find id) m ∙ f)
    | inr (inl (k, x, e, i, o, m)) ↦ elim (Bool-cases (id == k)) [
      | inl t ↦
          let same : find id s.m_client ≡ find k s.m_client =
            ap (λ y. find y s.m_client) (ground arith) in
          absurd (cc)
      | inr t ↦ inl (ap (find id) m ∙ rw t f)
    ]
    | inr (inr (k, x, e, i, o, m)) ↦ elim (Bool-cases (id == k)) [
      | inl t ↦ inr (rw o (rw t (omega arith)))
      | inr t ↦
          let others = (erase-find k s.m_client inv).2 in
          inl (ap (find id) m ∙ others id (λ q. ground arith) ∙ f)
    ]
  ]

  Step-Stays :
      (id h : ℕ) (t u : Manager json iface)
      → IsManager t
      → find id t.shared.m_client ≡ some h
      → Step json iface t u
      → (find id u.shared.m_client ≡ some h) ⊎ (count id t.logged_out < count id u.logged_out)
  unfolding step_call
  Step-Stays id h t u inv f (begins c b) = inl f
  Step-Stays id h t u inv f (goes before c after e) = elim (go-Stays id h c t.shared inv.once f) [
    | inl g ↦ inl g
    | inr g ↦
        inr (omega (arith, count-append id (taken_out json iface c t.shared.m_client) t.logged_out))
  ]

  Step-more :
      (id : ℕ) (t u : Manager json iface)
      → Step json iface t u
      → count id t.logged_out ≤ count id u.logged_out
  unfolding step_call
  Step-more id t u (begins c b) = omega arith
  Step-more id t u (goes before c after e) =
      omega (arith, count-append id (taken_out json iface c t.shared.m_client) t.logged_out)

  Steps-more :
      (id : ℕ) (t u : Manager json iface)
      → Steps json iface t u
      → count id t.logged_out ≤ count id u.logged_out
  Steps-more id t u stay = omega arith
  Steps-more id t u (then_step {u = v} r st) =
      omega (arith, Steps-more id t v r, Step-more id v u st)

  -- From every state that is reached: a user who is logged in keeps its client, whatever steps the calls
  -- make in turn, until `erase` takes a client of that id out.
  pub user-Stays :
      (id h : ℕ) (t u : Manager json iface)
      → Steps json iface (empty_manager json iface) t
      → find id t.shared.m_client ≡ some h
      → Steps json iface t u
      → (find id u.shared.m_client ≡ some h) ⊎ (count id t.logged_out < count id u.logged_out)
  user-Stays id h t u r f stay = inl f
  user-Stays id h t u r f (then_step {u = v} rs st) = elim (user-Stays id h t v r f rs) [
    | inl g ↦ elim (Step-Stays id h v u (Steps-IsManager t v (reached t r) rs) g st) [
      | inl g' ↦ inl g'
      | inr l ↦ inr (let more = Steps-more id t v rs in omega arith)
    ]
    | inr l ↦ inr (let more = Step-more id v u st in omega arith)
  ]
