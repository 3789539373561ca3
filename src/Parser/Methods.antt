-- ===== src/Parser/Methods.antt =====
-- The names of methods in http_parser.c: what the tests on the bytes of a request line
-- spell.
pub mod Step
pub mod Run
use my_warehouse.Common.{
  ℕ, zero, suc, ◌≤◌, ◌≡◌, ◌≢◌, inl, inr, refl, ap, subst, arith, Bool, true, false, Bool-cases,
  ◌&&◌, Option, none, some, List, [], ◌∷◌, ◌++◌, length, take, get_or, leb, ◌==◌, if◌then◌else◌,
}
use my_warehouse.Parser.Enums.{
  Method, method_string, http_delete, http_get, http_head, http_post, http_put, http_connect,
  http_options, http_trace, http_copy, http_lock, http_mkcol, http_move, http_propfind,
  http_proppatch, http_search, http_unlock, http_report, http_mkactivity, http_checkout, http_merge,
  http_msearch, http_notify, http_subscribe, http_unsubscribe, http_patch, http_purge,
  http_mkcalendar,
}
use my_warehouse.Parser.Request.{first_letter, other_method}

abbrev pub all_pos : List ℕ → Bool
all_pos [] = true
all_pos (c ∷ cs) = let rest = all_pos cs in if c == 0 then false else rest

-- A name has no zero byte and at most eleven bytes.
abbrev pub is_name : List ℕ → Bool
is_name xs = all_pos xs && leb (length xs) 11

pub method_string-is_name : (m : Method) → is_name (method_string m) ≡ true
unfolding method_string
method_string-is_name http_delete = refl
method_string-is_name http_get = refl
method_string-is_name http_head = refl
method_string-is_name http_post = refl
method_string-is_name http_put = refl
method_string-is_name http_connect = refl
method_string-is_name http_options = refl
method_string-is_name http_trace = refl
method_string-is_name http_copy = refl
method_string-is_name http_lock = refl
method_string-is_name http_mkcol = refl
method_string-is_name http_move = refl
method_string-is_name http_propfind = refl
method_string-is_name http_proppatch = refl
method_string-is_name http_search = refl
method_string-is_name http_unlock = refl
method_string-is_name http_report = refl
method_string-is_name http_mkactivity = refl
method_string-is_name http_checkout = refl
method_string-is_name http_merge = refl
method_string-is_name http_msearch = refl
method_string-is_name http_notify = refl
method_string-is_name http_subscribe = refl
method_string-is_name http_unsubscribe = refl
method_string-is_name http_patch = refl
method_string-is_name http_purge = refl
method_string-is_name http_mkcalendar = refl

pub and-both : (a b : Bool) → (a && b) ≡ true → (a ≡ true) × (b ≡ true)
and-both true b e = (refl, e)
and-both false b e = absurd (cc)

-- Where a name ends.
pub get_or-end : (xs : List ℕ) (i : ℕ) → all_pos xs ≡ true → get_or xs i 0 ≡ 0 → take i xs ≡ xs
get_or-end [] zero a e = refl
get_or-end [] (suc i) a e = refl
get_or-end (x ∷ xs) zero a e = absurd (ground arith)
get_or-end (x ∷ xs) (suc i) a e = ap (λ ys. x ∷ ys) (get_or-end xs i (ground arith) e)

-- What the bytes so far and one more byte spell.
abbrev pub Spelled : ℕ → List ℕ → ℕ → List ℕ → Type 0
Spelled i text c name = (take (suc i) name ≡ text ++ c ∷ []) × (suc i ≤ length name)

pub get_or-Spelled :
    (xs : List ℕ) (i : ℕ) → get_or xs i 0 ≢ 0 → Spelled i (take i xs) (get_or xs i 0) xs
get_or-Spelled [] i n = absurd (n refl)
get_or-Spelled (x ∷ xs) zero n = (refl, omega arith)
get_or-Spelled (x ∷ xs) (suc i) n =
    let (e, h) = get_or-Spelled xs i n in (ap (λ ys. x ∷ ys) e, omega arith)

-- Every method that a test gives is spelled by the bytes.
abbrev pub Spells : ℕ → List ℕ → ℕ → Option Method → Type 0
Spells i text c o = (m : Method) → o ≡ some m → Spelled i text c (method_string m)

Spells-none : (i : ℕ) (text : List ℕ) (c : ℕ) → Spells i text c none
Spells-none i text c m e = absurd (cc)

or_method : Method → Option Method → Method
or_method m none = m
or_method m (some n) = n

pub Spells-some :
    (i : ℕ) (text : List ℕ) (c : ℕ) (m : Method)
    → Spelled i text c (method_string m)
    → Spells i text c (some m)
unfolding or_method
Spells-some i text c m s n e =
    subst (λ x. Spelled i text c (method_string x)) (ap (or_method m) e) s

Spells-letter :
    (i : ℕ) (text : List ℕ) (c d : ℕ) (m : Method) (rest : Option Method)
    → Spelled i text d (method_string m)
    → Spells i text c rest
    → Spells i text c (if c == d then some m else rest)
Spells-letter i text c d m rest s k = elim (Bool-cases (c == d)) [
  | inl t ↦
      let e : d ≡ c = ground arith in
      rw t (Spells-some i text c m (subst (λ x. Spelled i text x (method_string m)) e s))
  | inr t ↦ rw t k
]

Spells-place :
    (i j c d : ℕ) (name : List ℕ) (m : Method) (rest : Option Method)
    → Spelled j (take j name) d (method_string m)
    → Spells i (take i name) c rest
    → Spells i (take i name) c (if i == j && c == d then some m else rest)
Spells-place i j c d name m rest s k = elim (Bool-cases (i == j)) [
  | inl t ↦
      let e : j ≡ i = ground arith in
      rw t (
        Spells-letter i (take i name) c d m rest
          (subst (λ x. Spelled x (take x name) d (method_string m)) e s) k)
  | inr t ↦ rw t k
]

-- The chain of tests for another method.
pub other_method-Spells :
    (m : Method) (i c : ℕ) → Spells i (take i (method_string m)) c (other_method m i c)
unfolding other_method method_string
other_method-Spells http_connect i c =
    Spells-place i 1 c b'H' (method_string http_connect) http_checkout _ (refl, omega arith)
      (Spells-place i 2 c b'P' (method_string http_connect) http_copy _ (refl, omega arith)
        (Spells-none i _ c))
other_method-Spells http_mkcol i c =
    Spells-place i 1 c b'O' (method_string http_mkcol) http_move _ (refl, omega arith)
      (Spells-place i 1 c b'E' (method_string http_mkcol) http_merge _ (refl, omega arith)
        (Spells-place i 1 c b'-' (method_string http_mkcol) http_msearch _ (refl, omega arith)
          (Spells-place i 2 c b'A' (method_string http_mkcol) http_mkactivity _ (refl, omega arith)
            (Spells-place i 3 c b'A' (method_string http_mkcol) http_mkcalendar _
              (refl, omega arith) (Spells-none i _ c)))))
other_method-Spells http_subscribe i c =
    Spells-place i 1 c b'E' (method_string http_subscribe) http_search _ (refl, omega arith)
      (Spells-none i _ c)
other_method-Spells http_post i c = elim (Bool-cases (i == 1)) [
  | inl t ↦
      let e : 1 ≡ i = ground arith in
      rw t (
        subst
          (λ x. Spells x (take x (method_string http_post)) c (
            if c == b'R'
            then some http_propfind
            else if c == b'U'
            then some http_put
            else if c == b'A'
            then some http_patch
            else none))
          e
          (Spells-letter 1 (b'P' ∷ []) c b'R' http_propfind _ (refl, omega arith)
            (Spells-letter 1 (b'P' ∷ []) c b'U' http_put _ (refl, omega arith)
              (Spells-letter 1 (b'P' ∷ []) c b'A' http_patch _ (refl, omega arith)
                (Spells-none 1 (b'P' ∷ []) c)))))
  | inr t ↦ rw t (Spells-none i _ c)
]
other_method-Spells http_put i c =
    Spells-place i 2 c b'R' (method_string http_put) http_purge _ (refl, omega arith)
      (Spells-none i _ c)
other_method-Spells http_unlock i c =
    Spells-place i 2 c b'S' (method_string http_unlock) http_unsubscribe _ (refl, omega arith)
      (Spells-none i _ c)
other_method-Spells http_propfind i c =
    Spells-place i 4 c b'P' (method_string http_propfind) http_proppatch _ (refl, omega arith)
      (Spells-none i _ c)
other_method-Spells _ i c = Spells-none i _ c

pub first_letter-Spells : (c : ℕ) → Spells 0 [] c (first_letter c)
unfolding first_letter method_string
first_letter-Spells c =
    Spells-letter 0 [] c b'C' http_connect _ (refl, omega arith)
      (Spells-letter 0 [] c b'D' http_delete _ (refl, omega arith)
        (Spells-letter 0 [] c b'G' http_get _ (refl, omega arith)
          (Spells-letter 0 [] c b'H' http_head _ (refl, omega arith)
            (Spells-letter 0 [] c b'L' http_lock _ (refl, omega arith)
              (Spells-letter 0 [] c b'M' http_mkcol _ (refl, omega arith)
                (Spells-letter 0 [] c b'N' http_notify _ (refl, omega arith)
                  (Spells-letter 0 [] c b'O' http_options _ (refl, omega arith)
                    (Spells-letter 0 [] c b'P' http_post _ (refl, omega arith)
                      (Spells-letter 0 [] c b'R' http_report _ (refl, omega arith)
                        (Spells-letter 0 [] c b'S' http_subscribe _ (refl, omega arith)
                          (Spells-letter 0 [] c b'T' http_trace _ (refl, omega arith)
                            (Spells-letter 0 [] c b'U' http_unlock _ (refl, omega arith)
                              (Spells-none 0 [] c)))))))))))))
