-- ===== src/Game/Manager/Threads/Known.antt =====
-- The numbers in the map of `client_manager.h` still stand for clients when clients or entries come and go.
use my_warehouse.Common.{
  ℕ, ◌+◌, ◌<◌, ◌≡◌, ◌∙◌, inl, inr, sym, arith, Bool-cases, Option-cases, some, List, [], ◌∷◌, ◌==◌,
}
use my_warehouse.Game.Manager.{find, insert, update, erase}
use my_warehouse.Game.Manager.Threads.Resolve.{find-first, find-later, Known}

-- A number that stands for a client.
abbrev pub Made : {C : Type 0} → ℕ → ℕ → List (ℕ × C) → Type 0
Made {C} h made objects = (h < made) × ((c : C) × (find h objects ≡ some c))

module _ {C : Type 0} where
  pub Made-new :
      (h made : ℕ) (c : C) (objects : List (ℕ × C))
      → Made h made objects
      → Made h (made + 1) ((made, c) ∷ objects)
  Made-new h made c objects (l, (d, f)) =
      (omega arith, (d, find-later h made c objects (ground arith) ∙ f))

  pub find-update :
      (h k : ℕ) (c d : C) (objects : List (ℕ × C))
      → find h objects ≡ some d
      → (d' : C) × (find h (update k c objects) ≡ some d')
  unfolding update
  find-update h k c d [] f = (d, f)
  find-update h k c d ((i, x) ∷ rest) f = elim (Bool-cases (k == i)) [
    | inl t ↦ rw t (elim (Bool-cases (h == i)) [
      | inl u ↦ (c, find-first h i c rest u)
      | inr u ↦ (d, find-later h i c rest u ∙ sym (find-later h i x rest u) ∙ f)
    ])
    | inr t ↦ rw t (elim (Bool-cases (h == i)) [
      | inl u ↦ (x, find-first h i x (update k c rest) u)
      | inr u ↦
          let (d', g) = find-update h k c d rest (sym (find-later h i x rest u) ∙ f) in
          (d', find-later h i x (update k c rest) u ∙ g)
    ])
  ]

  pub Known-all :
      (made made' : ℕ) (objects objects' : List (ℕ × C)) (m : List (ℕ × ℕ))
      → ((h : ℕ) → Made h made objects → Made h made' objects')
      → Known made objects m
      → Known made' objects' m
  unfolding Known
  Known-all made made' objects objects' [] g k = tt
  Known-all made made' objects objects' ((id, h) ∷ m) g (l, f, k) =
      let (l', f') = g h (l, f) in (l', f', Known-all made made' objects objects' m g k)

  pub Known-erase :
      (id made : ℕ) (objects : List (ℕ × C)) (m : List (ℕ × ℕ))
      → Known made objects m
      → Known made objects (erase id m)
  unfolding Known erase
  Known-erase id made objects [] k = tt
  Known-erase id made objects ((i, h) ∷ m) (l, f, k) = elim (Bool-cases (id == i)) [
    | inl t ↦ rw t k
    | inr t ↦ rw t (l, f, Known-erase id made objects m k)
  ]

  pub Known-insert :
      (id h made : ℕ) (objects : List (ℕ × C)) (m : List (ℕ × ℕ))
      → Made h made objects
      → Known made objects m
      → Known made objects (insert id h m).1
  unfolding Known insert
  Known-insert id h made objects m (l, f) k = elim (Option-cases (find id m)) [
    | inl e ↦ rw (e, Known) (l, f, k)
    | inr (x, e) ↦ rw (e, Known) k
  ]
