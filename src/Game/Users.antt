-- ===== src/Game/Users.antt =====
-- The map of the users that are logged in, for any implementation of `client_interface`.
use my_warehouse.Game.Json.{succeeded, json_parser_error, json_getvalue_exception, Json, ErrorCode}
use my_warehouse.Game.Manager.{
  answer_data, put_message, find, update, erase, insert, is_error, find_client_use_id,
  insert_client_use_id, insert_new, Clients, logic_found, process, process_read, process_login,
  process_logic, do_some, read_request, put_code,
}
use my_warehouse.Common.{
  subst, codes, ℕ, ◌≡◌, ◌≢◌, refl, ap, arith, Bool, true, false, Option, none, some, List, [], ◌∷◌,
  ◌==◌, if◌then◌else◌, Bool-cases, Option-cases, inl, inr,
}
use my_warehouse.Game.Client.{ClientInterface, ◌>>=◌}

or_else : {A : Type 0} → A → Option A → A
or_else a none = a
or_else a (some b) = b

bind-some :
    {A B : Type 0} (o : Option A) (f : A → Option B) (b : B)
    → (o >>= f) ≡ some b
    → (a : A) × (o ≡ some a) × (f a ≡ some b)
bind-some none f b e = absurd (cc)
bind-some (some a) f b e = (a, refl, e)

module _ {C : Type 0} where
  -- No id is in the map twice.
  abbrev pub IsMap : List (ℕ × C) → Type 0
  IsMap [] = Unit
  IsMap ((k, c) ∷ m) = (find k m ≡ none) × IsMap m

  find-erase-other : (id k : ℕ) (m : List (ℕ × C)) → k ≢ id → find k (erase id m) ≡ find k m
  unfolding find erase
  find-erase-other id k [] n = refl
  find-erase-other id k ((k', c) ∷ m) n = ground (arith, find-erase-other id k m)

  find-erase-none : (id k : ℕ) (m : List (ℕ × C)) → find k m ≡ none → find k (erase id m) ≡ none
  unfolding find erase
  find-erase-none id k [] e = refl
  find-erase-none id k ((k', c) ∷ m) e = ground (arith, find-erase-none id k m)

  find-erase : (id : ℕ) (m : List (ℕ × C)) → IsMap m → find id (erase id m) ≡ none
  unfolding find erase
  find-erase id [] h = refl
  find-erase id ((k, c) ∷ m) (e, h) = ground (arith, find-erase id m h)

  erase-IsMap : (id : ℕ) (m : List (ℕ × C)) → IsMap m → IsMap (erase id m)
  unfolding erase
  erase-IsMap id [] h = tt
  erase-IsMap id ((k, c) ∷ m) (e, h) = elim (Bool-cases (id == k)) [
    | inl t ↦ rw t h
    | inr t ↦ rw t (find-erase-none id k m e, erase-IsMap id m h)
  ]

  find-update-none :
      (id k : ℕ) (x : C) (m : List (ℕ × C)) → find k m ≡ none → find k (update id x m) ≡ none
  unfolding find update
  find-update-none id k x [] e = refl
  find-update-none id k x ((k', c) ∷ m) e = ground (arith, find-update-none id k x m)

  update-IsMap : (id : ℕ) (x : C) (m : List (ℕ × C)) → IsMap m → IsMap (update id x m)
  unfolding update
  update-IsMap id x [] h = tt
  update-IsMap id x ((k, c) ∷ m) (e, h) = elim (Bool-cases (id == k)) [
    | inl t ↦ rw t (e, h)
    | inr t ↦ rw t (find-update-none id k x m e, update-IsMap id x m h)
  ]

  pub insert-IsMap : (id : ℕ) (x : C) (m : List (ℕ × C)) → IsMap m → IsMap ((insert id x m).1)
  unfolding insert
  insert-IsMap id x m h = elim (Option-cases (find id m)) [
    | inl e ↦ rw (e, IsMap) (e, h)
    | inr r ↦ rw (r.1, IsMap) h
  ]

  -- `erase` takes the user with the id out of the map and leaves every other user.
  pub erase-find :
      (id : ℕ) (m : List (ℕ × C))
      → IsMap m
      → IsMap (erase id m)
        × (find id (erase id m) ≡ none)
        × ((k : ℕ) → k ≢ id → find k (erase id m) ≡ find k m)
  erase-find id m h = (erase-IsMap id m h, find-erase id m h, λ k n. find-erase-other id k m n)

module _ (json : Json) (iface : ClientInterface json) where
  insert_new-IsMap :
      (id : ℕ) (m : Clients json iface) (r : ErrorCode × iface.Client)
      → IsMap m
      → IsMap ((insert_new json iface id m r).2)
  unfolding insert_new
  insert_new-IsMap id m (ec, c) h = elim (Bool-cases (is_error ec)) [
    | inl e ↦ rw e h
    | inr e ↦ rw e (insert-IsMap id c m h)
  ]

  Kept : {A : Type 0} → (A → Clients json iface) → Option A → Type 0
  Kept {A} f o = (r : A) → o ≡ some r → IsMap (f r)

  Kept-some : {A : Type 0} (f : A → Clients json iface) (a : A) → IsMap (f a) → Kept f (some a)
  unfolding Kept or_else
  Kept-some f a h r e = subst (λ x. IsMap (f x)) (ap (or_else a) e) h

  Kept-bind :
      {A B : Type 0} (f : B → Clients json iface) (o : Option A) (g : A → Option B)
      → ((a : A) → o ≡ some a → Kept f (g a))
      → Kept f (o >>= g)
  unfolding Kept
  Kept-bind f o g h r e = let (a, e₁, e₂) = bind-some o g r e in h a e₁ r e₂

  Kept-if :
      {A : Type 0} (f : A → Clients json iface) (b : Bool) (x y : Option A)
      → Kept f x
      → Kept f y
      → Kept f (if b then x else y)
  Kept-if f true x y h k = h
  Kept-if f false x y h k = k

  insert_client_use_id-IsMap :
      (roll id : ℕ) (m : Clients json iface)
      → IsMap m
      → Kept (λ r. r.2) (insert_client_use_id json iface roll id m)
  unfolding insert_client_use_id
  insert_client_use_id-IsMap roll id m h =
      Kept-if (λ r. r.2) _ _ _
        (Kept-bind (λ r. r.2) (iface.init_user_info roll id iface.client_new) _
          (λ r e. Kept-some (λ r. r.2) (insert_new json iface id m r) (insert_new-IsMap id m r h)))
        (Kept-some (λ r. r.2) _ h)

  process_login-IsMap :
      (roll id : ℕ) (res : json.Value) (m : Clients json iface)
      → IsMap m
      → Kept (λ r. r.1) (process_login json iface roll id res m)
  unfolding process_login Kept
  process_login-IsMap roll id res m h =
      Kept-if (λ r. r.1) _ _ _
        (Kept-bind (λ r. r.1) (insert_client_use_id json iface roll id m) _
          (λ r e.
            Kept-bind (λ r. r.1) (put_code json iface r.0 res) _
              (λ v _.
                Kept-bind (λ r. r.1) (answer_data json iface r.1 v) _
                  (λ v' _.
                    Kept-some (λ r. r.1) (v', r.2) (insert_client_use_id-IsMap roll id m h r e)))))
        (Kept-bind (λ r. r.1) (answer_data json iface (find_client_use_id id m).1 res) _
          (λ v _. Kept-some (λ r. r.1) (v, m) h))

  logic_found-IsMap :
      (id : ℕ) (root res : json.Value) (m : Clients json iface)
      (found : ErrorCode × Option iface.Client)
      → IsMap m
      → Kept (λ r. r.1) (logic_found json iface id root res m found)
  unfolding logic_found
  logic_found-IsMap id root res m (ec, none) h =
      Kept-bind (λ r. r.1) (put_code json iface ec res) _ (λ v _. Kept-some (λ r. r.1) (v, m) h)
  logic_found-IsMap id root res m (ec, some c) h =
      Kept-bind (λ r. r.1) (iface.do_some c root res) _
        (λ r _.
          Kept-bind (λ r. r.1) (iface.get_session_data r.1 r.2) _
            (λ v _.
              Kept-bind (λ r. r.1) (put_code json iface r.0 v) _
                (λ v' _. Kept-some (λ r. r.1) (v', update id r.1 m) (update-IsMap id r.1 m h))))

  process_logic-IsMap :
      (root res : json.Value) (m : Clients json iface)
      → IsMap m
      → Kept (λ r. r.1) (process_logic json iface root res m)
  unfolding process_logic
  process_logic-IsMap root res m h =
      Kept-bind (λ r. r.1) (json.get root (codes "UsrID")) _
        (λ x _.
          Kept-bind (λ r. r.1) (json.as_int x) _
            (λ id _. logic_found-IsMap id root res m (find_client_use_id id m) h))

  process_read-IsMap :
      (roll : ℕ) (root : json.Value) (read : Option (List ℕ × ℕ)) (res : json.Value)
      (m : Clients json iface)
      → IsMap m
      → Kept (λ r. r.1) (process_read json iface roll root read res m)
  unfolding process_read
  process_read-IsMap roll root none res m h =
      Kept-bind (λ r. r.1) (put_code json iface json_getvalue_exception res) _
        (λ v _. Kept-some (λ r. r.1) (v, m) h)
  process_read-IsMap roll root (some r) res m h =
      Kept-if (λ r. r.1) _ _ _ (process_login-IsMap roll r.1 res m h)
        (process_logic-IsMap root res m h)

  process-IsMap :
      (roll : ℕ) (parsed : Option json.Value) (res : json.Value) (m : Clients json iface)
      → IsMap m
      → Kept (λ r. r.1) (process json iface roll parsed res m)
  unfolding process
  process-IsMap roll none res m h =
      Kept-bind (λ r. r.1) (put_code json iface json_parser_error res) _
        (λ v _. Kept-some (λ r. r.1) (v, m) h)
  process-IsMap roll (some root) res m h =
      process_read-IsMap roll root (read_request json iface root) res m h

  -- For every implementation of a client, `do_some` keeps each user at most once in the map.
  pub do_some-IsMap :
      (roll : ℕ) (body : List ℕ) (res v : json.Value) (m m' : Clients json iface)
      → IsMap m
      → do_some json iface roll body res m ≡ some (v, m')
      → IsMap m'
  unfolding do_some Kept
  do_some-IsMap roll body res v m m' h e =
      Kept-bind (λ r. r.1) (put_code json iface succeeded res) _
        (λ v _.
          Kept-bind (λ r. r.1) (process json iface roll (json.parse body) v m) _
            (λ r e.
              Kept-bind (λ r. r.1) (put_message json iface r.0) _
                (λ v' _.
                  Kept-some (λ r. r.1) (v', r.1) (process-IsMap roll (json.parse body) v m h r e))))
        (v, m') e
