-- ===== src/Game/Manager/Threads/Resolve.antt =====
-- The map of `client_manager.h` from ids to the numbers of clients, and the map to the clients themselves.
use my_warehouse.Common.{
  some-inj, ℕ, ◌<◌, ◌≡◌, ◌∙◌, inl, inr, refl, sym, ap, arith, true, false, Bool-cases, Option, none,
  some, List, [], ◌∷◌, ◌==◌,
}
use my_warehouse.Game.Manager.{find}

pub find-first :
    {D : Type 0} (id i : ℕ) (x : D) (m : List (ℕ × D))
    → id == i ≡ true
    → find id ((i, x) ∷ m) ≡ some x
unfolding find
find-first id i x m t = rw t refl

pub find-later :
    {D : Type 0} (id i : ℕ) (x : D) (m : List (ℕ × D))
    → id == i ≡ false
    → find id ((i, x) ∷ m) ≡ find id m
unfolding find
find-later id i x m t = rw t refl

-- The map as it is for the clients that its numbers stand for.
module _ {C : Type 0} where
  abbrev pub entry : ℕ → Option C → List (ℕ × C) → List (ℕ × C)
  entry id none rest = rest
  entry id (some c) rest = (id, c) ∷ rest

  unfoldable pub resolve : List (ℕ × C) → List (ℕ × ℕ) → List (ℕ × C)
  resolve objects [] = []
  resolve objects ((id, h) ∷ m) = entry id (find h objects) (resolve objects m)

  -- Every number in the map stands for a client, and is less than a bound.
  unfoldable pub Known : ℕ → List (ℕ × C) → List (ℕ × ℕ) → Type 0
  Known made objects [] = Unit
  Known made objects ((id, h) ∷ m) =
      (h < made) × ((c : C) × (find h objects ≡ some c)) × Known made objects m

  pub find-resolve-none :
      (id : ℕ) (objects : List (ℕ × C)) (m : List (ℕ × ℕ)) (made : ℕ)
      → Known made objects m
      → find id m ≡ none
      → find id (resolve objects m) ≡ none
  unfolding find resolve Known
  find-resolve-none id objects [] made k e = refl
  find-resolve-none id objects ((i, h) ∷ m) made (_, (c, f), k) e =
      rw f (elim (Bool-cases (id == i)) [
        | inl t ↦ absurd (let q = sym (find-first id i h m t) ∙ e in cc)
        | inr t ↦
            find-later id i c (resolve objects m) t
            ∙ find-resolve-none id objects m made k (sym (find-later id i h m t) ∙ e)
      ])

  pub find-resolve-some :
      (id h : ℕ) (objects : List (ℕ × C)) (m : List (ℕ × ℕ)) (made : ℕ)
      → Known made objects m
      → find id m ≡ some h
      → (c : C) × (find h objects ≡ some c) × (find id (resolve objects m) ≡ some c)
  unfolding find resolve Known
  find-resolve-some id h objects [] made k e = absurd (cc)
  find-resolve-some id h objects ((i, j) ∷ m) made (_, (c, f), k) e =
      rw f (elim (Bool-cases (id == i)) [
        | inl t ↦
            let same : j ≡ h = some-inj j h (sym (find-first id i j m t) ∙ e) in
            (c, ap (λ x. find x objects) (sym same) ∙ f, find-first id i c (resolve objects m) t)
        | inr t ↦
            let (c', f', g) =
              find-resolve-some id h objects m made k (sym (find-later id i j m t) ∙ e) in
            (c', f', find-later id i c (resolve objects m) t ∙ g)
      ])

  pub resolve-new :
      (c : C) (objects : List (ℕ × C)) (m : List (ℕ × ℕ)) (made : ℕ)
      → Known made objects m
      → resolve ((made, c) ∷ objects) m ≡ resolve objects m
  unfolding resolve Known find
  resolve-new c objects [] made k = refl
  resolve-new c objects ((i, h) ∷ m) made (l, _, k) =
      let other : h == made ≡ false = ground arith in
      rw other (ap (entry i (find h objects)) (resolve-new c objects m made k))
