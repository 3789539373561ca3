-- ===== src/Http/Refinement.antt =====
-- The headers of a response of `request_respons.h` as a function on names up to the case of letters: of
-- the assignments to a name, the last one wins.
use my_warehouse.Common.{
  ℕ, ◌≡◌, ◌≢◌, ◌∙◌, refl, sym, ap, arith, Bool, true, false, Bool-cases, inl, inr, Option, ltb,
  subst, some, List, [], ◌∷◌, ◌==◌, if◌then◌else◌,
}
use my_warehouse.Http.Headers.{tolower, ci_less, Headers, find, put}
use my_warehouse.Http.Response.{Response, set_header}
use my_warehouse.Http.Order.{lowered, IsOrdered, put-find, put-IsOrdered}

abbrev same_list : List ℕ → List ℕ → Bool
same_list [] [] = true
same_list [] (d ∷ t) = false
same_list (c ∷ s) [] = false
same_list (c ∷ s) (d ∷ t) = let rest = same_list s t in if c == d then rest else false

same_list_refl : (s : List ℕ) → same_list s s ≡ true
same_list_refl [] = refl
same_list_refl (c ∷ s) = ground (arith, same_list_refl s)

same_list-equal : (s t : List ℕ) → same_list s t ≡ true → s ≡ t
same_list-equal [] [] e = refl
same_list-equal [] (d ∷ t) e = absurd (cc)
same_list-equal (c ∷ s) [] e = absurd (cc)
same_list-equal (c ∷ s) (d ∷ t) e =
    let p : c ≡ d = ground arith in
    let q : same_list s t ≡ true = ground arith in let r = same_list-equal s t q in cc

-- The abstract map, and an assignment to it.
abbrev pub Meaning : Type 0
Meaning = List ℕ → Option (List ℕ)

abbrev pub assign : List ℕ → List ℕ → Meaning → Meaning
assign key value f name = if same_list (lowered name) (lowered key) then some value else f name

abbrev pub assign_all : List (List ℕ × List ℕ) → Meaning → Meaning
assign_all [] f = f
assign_all ((key, value) ∷ rest) f = assign_all rest (assign key value f)

-- The order does not see the case of letters.
ci_less-same :
    (s s' t : List ℕ)
    → lowered s ≡ lowered s'
    → (ci_less s t ≡ ci_less s' t) × (ci_less t s ≡ ci_less t s')
unfolding ci_less
ci_less-same [] [] t e = (refl, refl)
ci_less-same [] (d ∷ s') t e = absurd (cc)
ci_less-same (c ∷ s) [] t e = absurd (cc)
ci_less-same (c ∷ s) (d ∷ s') [] e = (refl, refl)
ci_less-same (c ∷ s) (d ∷ s') (b ∷ t) e =
    step (tolower c) (tolower d) (tolower b) (lowered s) (lowered s') (ci_less s t) (ci_less s' t)
      (ci_less t s) (ci_less t s') e (ci_less-same s s' t)
  where
    step :
        (a a' b : ℕ) (us vs : List ℕ) (x x' y y' : Bool)
        → (a ∷ us) ≡ (a' ∷ vs)
        → (us ≡ vs → (x ≡ x') × (y ≡ y'))
        → ((if ltb a b then true else if ltb b a then false else x)
            ≡ (if ltb a' b then true else if ltb b a' then false else x'))
          × ((if ltb b a then true else if ltb a b then false else y)
              ≡ (if ltb b a' then true else if ltb a' b then false else y'))
    step a a' b us vs x x' y y' e f =
        let p : a ≡ a' = cc in let q : us ≡ vs = cc in let (h, k) = f q in rw (p, h, k) (refl, refl)

true-is-not-false : true ≢ false
true-is-not-false e = absurd (cc)

find-same :
    (key key' : List ℕ) (hs : Headers) → lowered key ≡ lowered key' → find key hs ≡ find key' hs
unfolding find
find-same key key' [] e = refl
find-same key key' ((k, v) ∷ hs) e =
    let (l, r) = ci_less-same key key' k e in rw (l, r, find-same key key' hs e) refl

assign-find :
    (key value name : List ℕ) (hs : Headers)
    → IsOrdered hs
    → find name (put key value hs) ≡ assign key value (λ k. find k hs) name
assign-find key value name hs o = elim (Bool-cases (same_list (lowered name) (lowered key))) [
  | inl t ↦ rw t (
      find-same name key (put key value hs) (same_list-equal (lowered name) (lowered key) t)
      ∙ (put-find key value hs o).1)
  | inr t ↦ rw t (
      (put-find key value hs o).2 name (λ e.
        true-is-not-false (
          sym (same_list_refl (lowered key)) ∙ subst (λ u. same_list u (lowered key) ≡ false) e t)))
]

-- The entry for one name depends on the entries for that name alone.
assign_all-same :
    (sets : List (List ℕ × List ℕ)) (f g : Meaning)
    → ((name : List ℕ) → f name ≡ g name)
    → (name : List ℕ) → assign_all sets f name ≡ assign_all sets g name
assign_all-same [] f g e name = e name
assign_all-same ((key, value) ∷ rest) f g e name =
    assign_all-same rest (assign key value f) (assign key value g)
      (λ k. ap (λ o. if same_list (lowered k) (lowered key) then some value else o) (e k)) name

module _ {J : Type 0} where
  abbrev pub set_headers : List (List ℕ × List ℕ) → Response J → Response J
  set_headers [] r = r
  set_headers ((key, value) ∷ rest) r = set_headers rest (set_header key value r)

  -- After any sequence of `set_header` on a response whose headers are in order, as a new response's
  -- are, the value of each name is that of the last call whose name agrees with it up to the case of
  -- letters, or what it was where there is none; and the headers are in order.
  pub set_headers-assign_all :
      (sets : List (List ℕ × List ℕ)) (r : Response J)
      → IsOrdered r.headers
      → IsOrdered (set_headers sets r).headers
        × ((name : List ℕ)
            → find name (set_headers sets r).headers ≡ assign_all sets (λ k. find k r.headers) name)
  unfolding set_header
  set_headers-assign_all [] r o = (o, λ name. refl)
  set_headers-assign_all ((key, value) ∷ rest) r o =
      let (o', e) =
        set_headers-assign_all rest (set_header key value r)
          (put-IsOrdered key value r.headers o) in
      (
        o',
        λ name.
            e name
            ∙ assign_all-same rest _ (assign key value (λ k. find k r.headers))
                (λ k. assign-find key value k r.headers o) name,
      )
