-- ===== src/Http/Order.antt =====
-- The order `ci_less` of `request_respons.h`, and the map of headers under it.
use my_warehouse.Http.Headers.{
  get_header, get_header_into, header_or, tolower, ci_less, Headers, find, put,
}
use my_warehouse.Common.{
  ap, ◌∙◌, ◌≢◌, ℕ, ◌≡◌, ◌↔◌, inl, inr, refl, sym, Bool, true, false, some, List, [], ◌∷◌, map, ltb,
  arith, if◌then◌else◌, Bool-cases,
}

-- Equal up to the case of letters.
abbrev pub lowered : List ℕ → List ℕ
lowered s = map tolower s

ci_less-equal-right : (s t : List ℕ) → lowered s ≡ lowered t → ci_less s t ≡ false
unfolding ci_less
ci_less-equal-right [] [] e = refl
ci_less-equal-right [] (d ∷ t) e = absurd (cc)
ci_less-equal-right (c ∷ s) [] e = refl
ci_less-equal-right (c ∷ s) (d ∷ t) e =
    step (tolower c) (tolower d) (lowered s) (lowered t) (ci_less s t) e (ci_less-equal-right s t)
  where
    step :
        (a b : ℕ) (us vs : List ℕ) (x : Bool)
        → (a ∷ us) ≡ (b ∷ vs)
        → (us ≡ vs → x ≡ false)
        → (if ltb a b then true else if ltb b a then false else x) ≡ false
    step a b us vs x e f = ground arith

ci_less-equal-left :
    (s t : List ℕ) → ci_less s t ≡ false → ci_less t s ≡ false → lowered s ≡ lowered t
unfolding ci_less
ci_less-equal-left [] [] h k = refl
ci_less-equal-left [] (d ∷ t) h k = absurd (cc)
ci_less-equal-left (c ∷ s) [] h k = absurd (cc)
ci_less-equal-left (c ∷ s) (d ∷ t) h k =
    let (p, q) =
      step (tolower c) (tolower d) (lowered s) (lowered t) (ci_less s t) (ci_less t s) h k
        (ci_less-equal-left s t) in
    cc
  where
    step :
        (a b : ℕ) (us vs : List ℕ) (x y : Bool)
        → (if ltb a b then true else if ltb b a then false else x) ≡ false
        → (if ltb b a then true else if ltb a b then false else y) ≡ false
        → (x ≡ false → y ≡ false → us ≡ vs)
        → (a ≡ b) × (us ≡ vs)
    step a b us vs x y h k f = ground arith

pub ci_less_trans : (s t u : List ℕ) → ci_less s t ≡ true → ci_less t u ≡ true → ci_less s u ≡ true
unfolding ci_less
ci_less_trans s [] u h k = absurd (cc)
ci_less_trans s (d ∷ t) [] h k = absurd (cc)
ci_less_trans [] (d ∷ t) (e ∷ u) h k = refl
ci_less_trans (c ∷ s) (d ∷ t) (e ∷ u) h k =
    step (tolower c) (tolower d) (tolower e) (ci_less s t) (ci_less t u) (ci_less s u)
      (ci_less_trans s t u) h k
  where
    step :
        (a b d : ℕ) (x y z : Bool)
        → (x ≡ true → y ≡ true → z ≡ true)
        → (if ltb a b then true else if ltb b a then false else x) ≡ true
        → (if ltb b d then true else if ltb d b then false else y) ≡ true
        → (if ltb a d then true else if ltb d a then false else z) ≡ true
    step a b d x y z f h k = ground arith

-- Two names are the same key of the map exactly where neither is less, that is where they agree up to
-- the case of letters.
pub ci_less-equal :
    (s t : List ℕ) → (lowered s ≡ lowered t) ↔ ((ci_less s t ≡ false) × (ci_less t s ≡ false))
ci_less-equal s t = (
  λ e. (ci_less-equal-right s t e, ci_less-equal-right t s (sym e)),
  λ (h, k). ci_less-equal-left s t h k,
)

-- Each entry stands before all that come after it.
abbrev pub IsAbove : List ℕ → Headers → Type 0
IsAbove key [] = Unit
IsAbove key ((k, v) ∷ hs) = (ci_less key k ≡ true) × IsAbove key hs

abbrev pub IsOrdered : Headers → Type 0
IsOrdered [] = Unit
IsOrdered ((k, v) ∷ hs) = IsAbove k hs × IsOrdered hs

if-IsAbove :
    (k : List ℕ) (b : Bool) (x y : Headers)
    → (b ≡ true → IsAbove k x)
    → (b ≡ false → IsAbove k y)
    → IsAbove k (if b then x else y)
if-IsAbove k true x y f g = f refl
if-IsAbove k false x y f g = g refl

if-IsOrdered :
    (b : Bool) (x y : Headers)
    → (b ≡ true → IsOrdered x)
    → (b ≡ false → IsOrdered y)
    → IsOrdered (if b then x else y)
if-IsOrdered true x y f g = f refl
if-IsOrdered false x y f g = g refl

IsAbove-trans : (k k' : List ℕ) (hs : Headers) → ci_less k k' ≡ true → IsAbove k' hs → IsAbove k hs
IsAbove-trans k k' [] h i = tt
IsAbove-trans k k' ((key, v) ∷ hs) h (i, j) =
    (ci_less_trans k k' key h i, IsAbove-trans k k' hs h j)

IsAbove-put :
    (k key value : List ℕ) (hs : Headers)
    → ci_less k key ≡ true
    → IsAbove k hs
    → IsAbove k (put key value hs)
unfolding put
IsAbove-put k key value [] h i = (h, tt)
IsAbove-put k key value ((k', v) ∷ hs) h (i, j) =
    if-IsAbove k (ci_less key k') _ _ (λ e. (h, (i, j)))
      (λ e.
        if-IsAbove k (ci_less k' key) _ _ (λ e'. (i, IsAbove-put k key value hs h j))
          (λ e'. (i, j)))

-- `headers_[key] = value` keeps the entries in order, so with distinct keys.
pub put-IsOrdered :
    (key value : List ℕ) (hs : Headers) → IsOrdered hs → IsOrdered (put key value hs)
unfolding put
put-IsOrdered key value [] o = (tt, tt)
put-IsOrdered key value ((k, v) ∷ hs) (a, o) =
    if-IsOrdered (ci_less key k) _ _ (λ e. ((e, IsAbove-trans key k hs e a), (a, o)))
      (λ e.
        if-IsOrdered (ci_less k key) _ _
          (λ e'. (IsAbove-put k key value hs e' a, put-IsOrdered key value hs o)) (λ e'. (a, o)))

find-put-same : (key value : List ℕ) (hs : Headers) → find key (put key value hs) ≡ some value
unfolding put find
find-put-same key value [] = rw (ci_less-equal-right key key refl) refl
find-put-same key value ((k, v) ∷ hs) = elim (Bool-cases (ci_less key k)) [
  | inl e ↦ rw (e, ci_less-equal-right key key refl) refl
  | inr e ↦ elim (Bool-cases (ci_less k key)) [
    | inl e' ↦ rw (e, e', e, e') (find-put-same key value hs)
    | inr e' ↦ rw (e, e', e, e') refl
  ]
]

ci_less-total : (s t : List ℕ) → lowered s ≢ lowered t → ci_less s t ≡ false → ci_less t s ≡ true
ci_less-total s t n e = elim (Bool-cases (ci_less t s)) [
  | inl h ↦ h
  | inr h ↦ absurd (n (ci_less-equal-left s t e h))
]

find-put-other :
    (key key' value : List ℕ) (hs : Headers)
    → lowered key' ≢ lowered key
    → find key' (put key value hs) ≡ find key' hs
unfolding put find
find-put-other key key' value [] n = elim (Bool-cases (ci_less key' key)) [
  | inl e ↦ rw e refl
  | inr e ↦ rw (e, ci_less-total key' key n e) refl
]
find-put-other key key' value ((k, v) ∷ hs) n = elim (Bool-cases (ci_less key k)) [
  | inl e ↦ elim (Bool-cases (ci_less key' key)) [
    | inl h ↦ rw (e, h, ci_less_trans key' key k h e) refl
    | inr h ↦ rw (e, h, ci_less-total key' key n h) refl
  ]
  | inr e ↦ elim (Bool-cases (ci_less k key)) [
    | inl e' ↦ rw (e, e', find-put-other key key' value hs n) refl
    | inr e' ↦ elim (Bool-cases (ci_less key' k)) [
      | inl h ↦ rw (e, e', h) refl
      | inr h ↦
          rw (e, e', h, ci_less-total key' k (λ eq. n (eq ∙ sym (ci_less-equal-left key k e e'))) h)
            refl
    ]
  ]
]

-- `ci_less` is transitive, and two names are the same key exactly where neither is less, which is
-- where they agree up to the case of letters.
pub ci_less-IsOrder :
    (s t u : List ℕ)
    → (ci_less s t ≡ true → ci_less t u ≡ true → ci_less s u ≡ true)
      × ((lowered s ≡ lowered t) ↔ ((ci_less s t ≡ false) × (ci_less t s ≡ false)))
ci_less-IsOrder s t u = (ci_less_trans s t u, ci_less-equal s t)

-- `headers_[key] = value` keeps the entries in the order of `ci_less`, the value is found under the
-- key, what is found under any key that differs in more than the case of letters is as before, and both
-- functions `get_header` give the value for the key.
pub put-find :
    (key value : List ℕ) (hs : Headers)
    → IsOrdered hs
    → IsOrdered (put key value hs)
      × (find key (put key value hs) ≡ some value)
      × ((key' : List ℕ) → lowered key' ≢ lowered key → find key' (put key value hs) ≡ find key' hs)
      × ((old : List ℕ) → get_header_into key old (put key value hs) ≡ (true, value))
      × (get_header key (put key value hs) ≡ value)
unfolding get_header get_header_into header_or
put-find key value hs o =
    let found = find-put-same key value hs in
    (
      put-IsOrdered key value hs o,
      found,
      λ key' n. find-put-other key key' value hs n,
      λ old. ap (header_or old) found,
      ap (λ v. (header_or [] v).1) found,
    )
