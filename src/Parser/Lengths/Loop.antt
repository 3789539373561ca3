-- ===== src/Parser/Lengths/Loop.antt =====
-- The loop over the value of a `Content-Length` in http_parser.c.
use my_warehouse.Common.{
  decimal-digits, length-append, ℕ, zero, suc, ◌+◌, ◌-◌, ◌/◌, ◌≤◌, ◌<◌, ◌≡◌, ◌⊎◌, inl, inr, ◌∙◌,
  refl, sym, ap, subst, arith, Bool, true, false, Bool-cases, Option, none, some, List, [], ◌∷◌,
  ◌++◌, length, drop, drop-cons, get_or, ltb, leb, ◌==◌, if◌then◌else◌, decimal, decimal_digits,
}
use my_warehouse.Parser.Chars.{cr, lf, is_num}
use my_warehouse.Parser.Enums.{HeaderState, h_content_length}
use my_warehouse.Parser.State.{Parser, ullong_max}
use my_warehouse.Parser.Flow.{Locals}
use my_warehouse.Parser.Value.{
  ValueByte, taken, refused, length_digit, value_switch, value_start, value_loop, ValueEnd, at_end,
  at_cr, at_lf, bad_length,
}
use my_warehouse.Parser.Lengths.{
  max_content_length, then_digits, after_digit, read_digits, number_read, with_length, Reads,
  decimal_digits-Reads, AllNum, decimal_digits-AllNum,
}

-- What a digit does: it is refused, or taken and the length goes on.
length_digit-cases :
    (c : ℕ) (q : Parser)
    → is_num c ≡ true
    → (length_digit c q ≡ refused)
      ⊎ ((q' : Parser) × (length_digit c q ≡ taken q' h_content_length))
unfolding length_digit
length_digit-cases c q h =
    let space : (c == b' ') ≡ false = ground arith in
    elim (Bool-cases (ltb ((ullong_max - 10) / 10) q.content_length)) [
      | inl t ↦ rw (space, h, t) (inl refl)
      | inr t ↦ rw (space, h, t) (inr (_, refl))
    ]

number_read-some :
    (n : ℕ) (q q' : Parser)
    → number_read n q ≡ some q'
    → (n ≤ max_content_length) × (q'.content_length ≡ n)
number_read-some n q q' = from (leb n max_content_length) refl
  where
    from :
        (b : Bool)
        → leb n max_content_length ≡ b
        → (if b then some (with_length n q) else none) ≡ some q'
        → (n ≤ max_content_length) × (q'.content_length ≡ n)
    from true t e =
        (ground arith, sym (ap (λ o. elim o [ none ↦ n | some r ↦ r.content_length ]) e))
    from false t e = absurd (cc)

number_read-none : (n : ℕ) (q : Parser) → number_read n q ≡ none → max_content_length < n
number_read-none n q e = elim (Bool-cases (leb n max_content_length)) [
  | inl t ↦
      absurd (some-none _ (subst (λ b. (if b then some (with_length n q) else none) ≡ none) t e))
  | inr t ↦ ground arith
]
  where
    some-none : (r : Parser) → some r ≡ none → ⊥
    some-none r h = absurd (cc)

module _ {S : Type 0} where
  -- How the loop ends, for what the digits give.
  abbrev LoopReads : Option Parser → ValueEnd S → Type 0
  LoopReads o (at_end h l) = ⊥
  LoopReads o (at_cr h l) = o ≡ some l.parser
  LoopReads o (at_lf h l) = ⊥
  LoopReads o (bad_length h l) = o ≡ none

  if-LoopReads :
      (o : Option Parser) (b₁ b₂ b₃ : Bool) (x y z rest : ValueEnd S)
      → b₁ ≡ false
      → b₂ ≡ false
      → b₃ ≡ false
      → LoopReads o rest
      → LoopReads o (if b₁ then x else if b₂ then y else if b₃ then z else rest)
  if-LoopReads o b₁ b₂ b₃ x y z rest e₁ e₂ e₃ h = rw (e₁, e₂, e₃) h

  byte-LoopReads :
      (b : ValueByte) (f : Parser → Option Parser) (g : Parser → HeaderState → ValueEnd S)
      (h : HeaderState) (l : Locals S)
      → (b ≡ refused) ⊎ ((q : Parser) × (b ≡ taken q h_content_length))
      → ((q : Parser) → LoopReads (f q) (g q h_content_length))
      → LoopReads (after_digit b f) (elim b [ taken q h' ↦ g q h' | refused ↦ bad_length h l ])
  byte-LoopReads b f g h l (inl e) k = rw e refl
  byte-LoopReads b f g h l (inr (q, e)) k = rw e (k q)

  value_loop-LoopReads :
      (ds rest bytes : List ℕ) (n : ℕ) (l : Locals S)
      → length ds < n
      → drop l.p bytes ≡ ds ++ cr ∷ rest
      → AllNum ds
      → LoopReads (read_digits ds l.parser) (value_loop n bytes h_content_length l)
  unfolding value_loop value_switch
  value_loop-LoopReads ds rest bytes zero l h e a = absurd (omega arith)
  value_loop-LoopReads [] rest bytes (suc n) l h e a =
      let (c, d, p) = drop-cons l.p bytes 0 cr rest e in
      let inside : (l.p == length bytes) ≡ false = ground arith in rw (inside, c) refl
  value_loop-LoopReads (x ∷ ds) rest bytes (suc n) l h e (num, a) =
      let (c, d, p) = drop-cons l.p bytes 0 x (ds ++ cr ∷ rest) e in
      let ch = get_or bytes l.p 0 in
      let digit : is_num ch ≡ true = ap is_num c ∙ num in
      let after : suc l.p ≡ l.p + 1 = omega arith in
      subst
        (λ y.
          LoopReads (after_digit (length_digit y l.parser) (read_digits ds))
            (value_loop (suc n) bytes h_content_length l))
        c
        (if-LoopReads (after_digit (length_digit ch l.parser) (read_digits ds))
          (l.p == length bytes) (ch == cr) (ch == lf) _ _ _ _ (ground arith) (ground arith)
          (ground arith)
          (byte-LoopReads (length_digit ch l.parser) (read_digits ds) _ h_content_length _
            (length_digit-cases ch l.parser digit)
            (λ q.
              value_loop-LoopReads ds rest bytes n (record l { ch = ch; p = l.p + 1; parser = q })
                (omega arith) (subst (λ i. drop i bytes ≡ ds ++ cr ∷ rest) after d) a)))

  -- The two ways in which the loop can end on a number.
  abbrev pub LengthRead : ℕ → ValueEnd S → Type 0
  LengthRead n (at_end h l) = ⊥
  LengthRead n (at_cr h l) = (n ≤ max_content_length) × (l.parser.content_length ≡ n)
  LengthRead n (at_lf h l) = ⊥
  LengthRead n (bad_length h l) = max_content_length < n

  number_read-LengthRead :
      (n : ℕ) (q : Parser) (o : Option Parser) (v : ValueEnd S)
      → o ≡ number_read n q
      → LoopReads o v
      → LengthRead n v
  number_read-LengthRead n q o (at_end h l) e k = k
  number_read-LengthRead n q o (at_cr h l) e k = number_read-some n q l.parser (sym e ∙ k)
  number_read-LengthRead n q o (at_lf h l) e k = k
  number_read-LengthRead n q o (bad_length h l) e k = number_read-none n q (sym e ∙ k)

  -- The first byte, and the loop over the others.
  digits-LengthRead :
      (n : ℕ) (text rest bytes : List ℕ) (l : Locals S)
      → drop l.p bytes ≡ text ++ cr ∷ rest
      → AllNum text
      → Reads n l.parser text
      → (q : Parser) × (value_start h_content_length (get_or bytes l.p 0) l.parser ≡ some q)
        × LengthRead n (
            value_loop
              (length bytes - (l.p + 1))
              bytes
              h_content_length
              (record l { p = l.p + 1; parser = q }))
  unfolding value_start
  digits-LengthRead n [] rest bytes l e a (some_digits, r) = absurd (omega arith)
  digits-LengthRead n (x ∷ ds) rest bytes l e (num, a) (some_digits, r) =
      let (c, d, p) = drop-cons l.p bytes 0 x (ds ++ cr ∷ rest) e in
      let after : suc l.p ≡ l.p + 1 = omega arith in
      let q = with_length (x - b'0') l.parser in
      let start : value_start h_content_length x l.parser ≡ some q = rw num refl in
      (
        q,
        rw c start,
        number_read-LengthRead n l.parser (read_digits ds q) _ (sym (ap (then_digits ds) start) ∙ r)
            (value_loop-LoopReads ds rest bytes (length bytes - (l.p + 1))
              (record l { p = l.p + 1; parser = q }) (omega (arith, length-append ds (cr ∷ rest)))
              (subst (λ i. drop i bytes ≡ ds ++ cr ∷ rest) after d) a),
      )

  -- Where the value of a `Content-Length` is a number as `operator<<` prints it, up to the end of the
  -- line: the parser takes its first digit and the loop reads the others, and comes to the end of the
  -- line with that number where it is at most 18446744073709551609; a greater number is refused.
  pub decimal-LengthRead :
      (n : ℕ) (rest bytes : List ℕ) (l : Locals S)
      → drop l.p bytes ≡ decimal n ++ cr ∷ rest
      → (q : Parser) × (value_start h_content_length (get_or bytes l.p 0) l.parser ≡ some q)
        × LengthRead n (
            value_loop
              (length bytes - (l.p + 1))
              bytes
              h_content_length
              (record l { p = l.p + 1; parser = q }))
  decimal-LengthRead n rest bytes l e =
      digits-LengthRead n (decimal_digits n n) rest bytes l
        (e ∙ ap (λ t. t ++ cr ∷ rest) (decimal-digits n)) (decimal_digits-AllNum n n (omega arith))
        (decimal_digits-Reads n n l.parser (omega arith))
