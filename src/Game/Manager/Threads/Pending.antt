-- ===== src/Game/Manager/Threads/Pending.antt =====
-- In every state that the calls of `client_manager.cpp` lead to, the numbers in the map and in a call that
-- is about to insert stand for clients.
use my_warehouse.Common.{
  ◌++◌, ℕ, ◌+◌, ◌≡◌, inl, inr, subst, arith, true, Bool-cases, Option, none, some, List, [], ◌∷◌,
}
use my_warehouse.Game.Json.{Json, ErrorCode}
use my_warehouse.Game.Client.{ClientInterface}
use my_warehouse.Game.Manager.{is_error, find, update}
use my_warehouse.Game.Manager.Threads.{
  Shared, Call, login_again, login_inits, login_inserts, ended, threw, login_found, login_new,
  login_inserted, go, logic_worked, logic_searched, login_finds, logic_finds, logic_works, erases,
  Manager, empty_manager, step_call, work_on, is_begin, Step, begins, goes, Steps, stay, then_step,
}
use my_warehouse.Game.Manager.Threads.Resolve.{find-first, Known}
use my_warehouse.Game.Manager.Threads.Known.{
  Made, Made-new, find-update, Known-all, Known-erase, Known-insert,
}

module _ (json : Json) (iface : ClientInterface json) where
  -- What a call relies on.
  unfoldable pub CallFits : Shared json iface → Call json iface → Type 0
  CallFits s (login_inserts id h) = Made h s.made s.objects
  CallFits s _ = Unit

  unfoldable pub AllFit : Shared json iface → List (Call json iface) → Type 0
  AllFit s [] = Unit
  AllFit s (c ∷ cs) = CallFits s c × AllFit s cs

  Grows : Shared json iface → Shared json iface → Type 0
  Grows s s' = (h : ℕ) → Made h s.made s.objects → Made h s'.made s'.objects

  login_new-Grows :
      (id : ℕ) (s : Shared json iface) (o : Option (ErrorCode × iface.Client))
      → Grows s ((login_new json iface id s o).1)
  unfolding login_new Grows
  login_new-Grows id s none h f = f
  login_new-Grows id s (some (ec, c)) h f = Made-new h s.made c s.objects f

  logic_worked-Grows :
      (k : ℕ) (s : Shared json iface) (o : Option (ErrorCode × iface.Client × json.Value))
      → Grows s ((logic_worked json iface k s o).1)
  unfolding logic_worked Grows
  logic_worked-Grows k s none h f = f
  logic_worked-Grows k s (some (ec, c, v)) h (l, (d, f)) = (l, find-update h k c d s.objects f)

  go-Grows : (c : Call json iface) (s : Shared json iface) → Grows s ((go json iface c s).1)
  unfolding go Grows login_inserted
  go-Grows (login_finds roll id) s h f = f
  go-Grows (login_again roll id) s h f = f
  go-Grows (login_inits roll id) s h f = login_new-Grows id s _ h f
  go-Grows (login_inserts id k) s h f = f
  go-Grows (logic_finds id root respons) s h f = f
  go-Grows (logic_works k root respons) s h f = logic_worked-Grows k s _ h f
  go-Grows (erases id) s h f = f
  go-Grows (ended ec sc) s h f = f
  go-Grows threw s h f = f

  login_new-Fits :
      (id : ℕ) (s : Shared json iface) (o : Option (ErrorCode × iface.Client))
      → let r = login_new json iface id s o in CallFits r.1 r.0
  unfolding login_new CallFits
  login_new-Fits id s none = tt
  login_new-Fits id s (some (ec, c)) = elim (Bool-cases (is_error ec)) [
    | inl t ↦ rw t tt
    | inr t ↦ rw t (omega arith, (c, find-first s.made s.made c s.objects (ground arith)))
  ]

  login_found-Fits :
      (s : Shared json iface) (next : Call json iface) (found : ErrorCode × Option ℕ)
      → CallFits s next
      → CallFits s (login_found json iface next found)
  unfolding login_found CallFits
  login_found-Fits s next (ec, sc) f = elim (Bool-cases (is_error ec)) [
    | inl t ↦ rw t f
    | inr t ↦ rw t tt
  ]

  logic_searched-Fits :
      (s : Shared json iface) (root respons : json.Value) (found : ErrorCode × Option ℕ)
      → CallFits s (logic_searched json iface root respons found)
  unfolding logic_searched CallFits
  logic_searched-Fits s root respons (ec, none) = tt
  logic_searched-Fits s root respons (ec, some h) = elim (Bool-cases (is_error ec)) [
    | inl t ↦ rw t tt
    | inr t ↦ rw t tt
  ]

  logic_worked-Fits :
      (k : ℕ) (s : Shared json iface) (o : Option (ErrorCode × iface.Client × json.Value))
      → let r = logic_worked json iface k s o in CallFits r.1 r.0
  unfolding logic_worked CallFits
  logic_worked-Fits k s none = tt
  logic_worked-Fits k s (some (ec, c, v)) = tt

  go-Fits :
      (c : Call json iface) (s : Shared json iface) → let r = go json iface c s in CallFits r.1 r.0
  unfolding go login_inserted CallFits
  go-Fits (login_finds roll id) s = login_found-Fits s _ _ tt
  go-Fits (login_again roll id) s = login_found-Fits s _ _ tt
  go-Fits (login_inits roll id) s = login_new-Fits id s _
  go-Fits (login_inserts id k) s = tt
  go-Fits (logic_finds id root respons) s = logic_searched-Fits s root respons _
  go-Fits (logic_works k root respons) s = logic_worked-Fits k s _
  go-Fits (erases id) s = tt
  go-Fits (ended ec sc) s = tt
  go-Fits threw s = tt

  go-Known :
      (c : Call json iface) (s : Shared json iface)
      → CallFits s c
      → Known s.made s.objects s.m_client
      → let s' = (go json iface c s).1 in Known s'.made s'.objects s'.m_client
  unfolding go login_inserted CallFits login_new logic_worked
  go-Known (login_finds roll id) s f k = k
  go-Known (login_again roll id) s f k = k
  go-Known (login_inits roll id) s f k = new (iface.init_user_info roll id iface.client_new)
    where
      new :
          (o : Option (ErrorCode × iface.Client))
          → let s' = (login_new json iface id s o).1 in Known s'.made s'.objects s'.m_client
      new none = k
      new (some (ec, c)) =
          Known-all s.made (s.made + 1) s.objects ((s.made, c) ∷ s.objects) s.m_client
            (λ h m. Made-new h s.made c s.objects m) k
  go-Known (login_inserts id h) s f k = Known-insert id h s.made s.objects s.m_client f k
  go-Known (logic_finds id root respons) s f k = k
  go-Known (logic_works h root respons) s f k =
      worked (work_on json iface h root respons (find h s.objects))
    where
      worked :
          (o : Option (ErrorCode × iface.Client × json.Value))
          → let s' = (logic_worked json iface h s o).1 in Known s'.made s'.objects s'.m_client
      worked none = k
      worked (some (ec, c, v)) =
          Known-all s.made s.made s.objects (update h c s.objects) s.m_client
            (λ i m. let (l, (d, g)) = m in (l, find-update i h c d s.objects g)) k
  go-Known (erases id) s f k = Known-erase id s.made s.objects s.m_client k
  go-Known (ended ec sc) s f k = k
  go-Known threw s f k = k

  CallFits-grow :
      (s s' : Shared json iface) (c : Call json iface) → Grows s s' → CallFits s c → CallFits s' c
  unfolding CallFits Grows
  CallFits-grow s s' (login_inserts id h) g f = g h f
  CallFits-grow s s' (login_finds roll id) g f = tt
  CallFits-grow s s' (login_again roll id) g f = tt
  CallFits-grow s s' (login_inits roll id) g f = tt
  CallFits-grow s s' (logic_finds id root respons) g f = tt
  CallFits-grow s s' (logic_works h root respons) g f = tt
  CallFits-grow s s' (erases id) g f = tt
  CallFits-grow s s' (ended ec sc) g f = tt
  CallFits-grow s s' threw g f = tt

  -- One call of a list goes on, and the others stay.
  AllFit-step :
      (before : List (Call json iface)) (c d : Call json iface) (after : List (Call json iface))
      (s s' : Shared json iface)
      → Grows s s'
      → CallFits s' d
      → AllFit s (before ++ c ∷ after)
      → CallFits s c × AllFit s' (before ++ d ∷ after)
  unfolding AllFit
  AllFit-step [] c d after s s' g f (fc, fs) = (fc, (f, rest after fs))
    where
      rest : (cs : List (Call json iface)) → AllFit s cs → AllFit s' cs
      rest [] a = tt
      rest (x ∷ xs) (f', fs') = (CallFits-grow s s' x g f', rest xs fs')
  AllFit-step (b ∷ before) c d after s s' g f (fb, fs) =
      let (fc, fs') = AllFit-step before c d after s s' g f fs in
      (fc, (CallFits-grow s s' b g fb, fs'))

  begin-Fits :
      (s : Shared json iface) (c : Call json iface) → is_begin json iface c ≡ true → CallFits s c
  unfolding CallFits is_begin
  begin-Fits s (login_inserts id h) e = absurd (cc)
  begin-Fits s (login_finds roll id) e = tt
  begin-Fits s (login_again roll id) e = tt
  begin-Fits s (login_inits roll id) e = tt
  begin-Fits s (logic_finds id root respons) e = tt
  begin-Fits s (logic_works h root respons) e = tt
  begin-Fits s (erases id) e = tt
  begin-Fits s (ended ec sc) e = tt
  begin-Fits s threw e = tt

  -- What every state that is reached satisfies.
  pub Pending : Manager json iface → Type 0
  Pending t = AllFit t.shared t.calls × Known t.shared.made t.shared.objects t.shared.m_client

  Step-Pending : (t u : Manager json iface) → Pending t → Step json iface t u → Pending u
  unfolding Pending step_call AllFit
  Step-Pending t u (a, k) (begins c b) = ((begin-Fits t.shared c b, a), k)
  Step-Pending t u (a, k) (goes before c after e) =
      let s' = (go json iface c t.shared).1 in
      let (fc, fs) =
        AllFit-step before c (go json iface c t.shared).0 after t.shared s' (go-Grows c t.shared)
          (go-Fits c t.shared) (subst (AllFit t.shared) e a) in
      (fs, go-Known c t.shared fc k)

  Steps-Pending :
      (t : Manager json iface) → Steps json iface (empty_manager json iface) t → Pending t
  unfolding AllFit Known Pending
  Steps-Pending t stay = (tt, tt)
  Steps-Pending t (then_step {u = u} r st) = Step-Pending u t (Steps-Pending u r) st

  pub Steps-Known :
      (t : Manager json iface)
      → Steps json iface (empty_manager json iface) t
      → Known t.shared.made t.shared.objects t.shared.m_client
  unfolding Pending
  Steps-Known t r = (Steps-Pending t r).1

  -- A call that is about to insert has a client.
  pub Steps-Made :
      (t : Manager json iface) (before : List (Call json iface)) (id h : ℕ)
      (after : List (Call json iface))
      → Steps json iface (empty_manager json iface) t
      → t.calls ≡ before ++ login_inserts id h ∷ after
      → (c : iface.Client) × (find h t.shared.objects ≡ some c)
  unfolding Pending CallFits Grows
  Steps-Made t before id h after r e =
      let (a, _) = Steps-Pending t r in
      let (fits, _) =
        AllFit-step before (login_inserts id h) threw after t.shared t.shared (λ i m. m) tt
          (subst (AllFit t.shared) e a) in
      fits.1
