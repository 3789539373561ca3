-- ===== src/Parser/LineEnd.antt =====
-- The search for the end of a line in `case h_general` of http_parser.c, against a scan byte by byte.
use my_warehouse.Common.{
  ℕ, zero, suc, ◌+◌, ◌-◌, ◌≤◌, ◌≡◌, ◌∙◌, refl, ap, arith, min, Bool, true, false, Bool-cases, inl,
  inr, ◌||◌, Option, none, some, List, length, get_or, ◌==◌, if◌then◌else◌,
}
use my_warehouse.Parser.Chars.{cr, lf}
use my_warehouse.Parser.State.{http_max_header_size}
use my_warehouse.Parser.Value.{memchr, earlier, line_end}

-- The first CR or LF at `p` or behind it among `n` bytes, or where these end.
abbrev pub scan : List ℕ → ℕ → ℕ → ℕ
scan bytes p zero = p
scan bytes p (suc n) =
    let rest = scan bytes (p + 1) n in
    if get_or bytes p 0 == cr || get_or bytes p 0 == lf then p else rest

-- What is found is not before `p`.
abbrev IsFrom : ℕ → Option ℕ → Type 0
IsFrom p none = Unit
IsFrom p (some q) = p ≤ q

IsFrom-mono : (p : ℕ) (o : Option ℕ) → IsFrom (p + 1) o → IsFrom p o
IsFrom-mono p none h = tt
IsFrom-mono p (some q) h = omega arith

if-IsFrom : (p : ℕ) (b : Bool) (o : Option ℕ) → IsFrom p o → IsFrom p (if b then some p else o)
if-IsFrom p true o h = omega arith
if-IsFrom p false o h = h

memchr-IsFrom : (bytes : List ℕ) (p c n : ℕ) → IsFrom p (memchr bytes p c n)
unfolding memchr
memchr-IsFrom bytes p c zero = tt
memchr-IsFrom bytes p c (suc n) =
    if-IsFrom p (get_or bytes p 0 == c) (memchr bytes (p + 1) c n)
      (IsFrom-mono p (memchr bytes (p + 1) c n) (memchr-IsFrom bytes (p + 1) c n))

-- A find at `p` itself is the earlier one.
earlier-left : (p end : ℕ) (o : Option ℕ) → IsFrom (p + 1) o → earlier (some p) o end ≡ p
unfolding earlier
earlier-left p end none h = refl
earlier-left p end (some q) h = ground arith

earlier-right : (p end : ℕ) (o : Option ℕ) → IsFrom (p + 1) o → earlier o (some p) end ≡ p
unfolding earlier
earlier-right p end none h = refl
earlier-right p end (some q) h = ground arith

earlier-scan :
    (bytes : List ℕ) (p n : ℕ)
    → earlier (memchr bytes p cr n) (memchr bytes p lf n) (p + n) ≡ scan bytes p n
unfolding memchr earlier
earlier-scan bytes p zero = omega arith
earlier-scan bytes p (suc n) = elim (Bool-cases (get_or bytes p 0 == cr)) [
  | inl t ↦
      let other : (get_or bytes p 0 == lf) ≡ false = ground arith in
      rw (t, other) (earlier-left p (p + suc n) _ (memchr-IsFrom bytes (p + 1) lf n))
  | inr t ↦ elim (Bool-cases (get_or bytes p 0 == lf)) [
    | inl u ↦ rw (t, u) (earlier-right p (p + suc n) _ (memchr-IsFrom bytes (p + 1) cr n))
    | inr u ↦
        rw (t, u)
          (ap (earlier (memchr bytes (p + 1) cr n) (memchr bytes (p + 1) lf n)) (omega arith)
            ∙ earlier-scan bytes (p + 1) n)
  ]
]

-- Where no more bytes are left than a header may have, the value of a header that is not looked at ends
-- where a scan byte by byte ends it: at the first CR or LF, or at the end of the bytes.
pub line_end-scan :
    (bytes : List ℕ) (p : ℕ)
    → p ≤ length bytes
    → length bytes - p ≤ http_max_header_size
    → line_end bytes p ≡ scan bytes p (length bytes - p)
unfolding line_end
line_end-scan bytes p h l =
    let n = length bytes - p in
    let all : min n http_max_header_size ≡ n = omega arith in
    let end : length bytes ≡ p + n = omega arith in
    ap (λ k. earlier (memchr bytes p cr k) (memchr bytes p lf k) (length bytes)) all
    ∙ ap (earlier (memchr bytes p cr n) (memchr bytes p lf n)) end
    ∙ earlier-scan bytes p n
