-- ===== src/Parser/Progress/Values.antt =====
-- The state of a header's value.
use my_warehouse.Common.{
  ℕ, zero, suc, ◌+◌, ◌-◌, ◌≤◌, ◌<◌, false, some, ◌≡◌, ◌≢◌, ◌⊎◌, refl, arith, List, length, get_or,
  min, Bool-cases, inl, inr, ◌==◌, Option-cases,
}
use my_warehouse.Parser.Enums.{
  HeaderState, h_general, State, s_header_value, s_header_almost_done, hpe_invalid_content_length,
}
use my_warehouse.Parser.Chars.{cr, lf}
use my_warehouse.Parser.State.{Parser, Settings, http_max_header_size}
use my_warehouse.Parser.Flow.{Locals, to_state}
use my_warehouse.Parser.Value.{
  step_header_value, value_loop, value_switch, memchr, line_end, ValueByte, taken, refused,
  ValueEnd, at_end, at_cr, at_lf, bad_length, value_ended, after_value, value_next,
  put_header_state,
}
use my_warehouse.Parser.Progress.{
  InRange, Progress, takes_body, Called-again, Called-then, fail-Progress,
  callback_header_value-Called, count_header_size-Called,
}

-- `memchr` finds a byte that is the one asked for, in its window.
pub memchr-found :
    (bytes : List ℕ) (p c limit r : ℕ)
    → memchr bytes p c limit ≡ some r
    → (p ≤ r) × (r < p + limit) × (get_or bytes r 0 ≡ c)
unfolding memchr
memchr-found bytes p c zero r e = cc
memchr-found bytes p c (suc limit) r e = ground (arith, memchr-found bytes (p + 1) c limit r)

-- Past a byte that ends no line, the skip to the end of the line moves on.
pub line_end-bounds :
    (bytes : List ℕ) (p : ℕ)
    → p < length bytes
    → get_or bytes p 0 ≢ cr
    → get_or bytes p 0 ≢ lf
    → (p < line_end bytes p) × (line_end bytes p ≤ length bytes)
unfolding line_end
line_end-bounds bytes p i a b =
    let limit = min (length bytes - p) http_max_header_size in
    elim (Option-cases (memchr bytes p cr limit)) [
      | inl e ↦ elim (Option-cases (memchr bytes p lf limit)) [
        | inl f ↦ rw (e, f) (omega arith, omega arith)
        | inr (r, f) ↦ rw (e, f) (ground (arith, memchr-found bytes p lf limit r f))
      ]
      | inr (q, e) ↦ elim (Option-cases (memchr bytes p lf limit)) [
        | inl f ↦ rw (e, f) (ground (arith, memchr-found bytes p cr limit q e))
        | inr (r, f) ↦
            rw (e, f)
              (ground (arith, memchr-found bytes p cr limit q e, memchr-found bytes p lf limit r f))
      ]
    ]

value_next-bounds :
    (h : HeaderState) (bytes : List ℕ) (p : ℕ)
    → p < length bytes
    → get_or bytes p 0 ≢ cr
    → get_or bytes p 0 ≢ lf
    → (p < value_next h bytes p) × (value_next h bytes p ≤ length bytes)
value_next-bounds h_general bytes p i a b = line_end-bounds bytes p i a b
value_next-bounds _ bytes p i a b = (omega arith, omega arith)

abbrev TakenInRange : State → ValueByte → Type 0
TakenInRange s (taken q h) = InRange s q
TakenInRange s refused = Unit

value_switch-InRange :
    (s : State) (h : HeaderState) (ch : ℕ) (q : Parser)
    → takes_body s ≡ false
    → InRange s q
    → TakenInRange s (value_switch h ch q)
unfolding value_switch
value_switch-InRange s h_general ch q b inv = inv
value_switch-InRange s _ ch q b inv = ground arith

-- How the loop over a value's bytes ends: by its condition, at the end of the bytes; or before.
abbrev pub Ended : {S : Type 0} → State → ℕ → ℕ → ValueEnd S → Type 0
Ended s p len (at_end h k) = (k.p ≡ len) × (k.p_state ≡ s) × InRange s k.parser
Ended s p len (at_cr h k) = (p ≤ k.p) × (k.p < len) × (k.p_state ≡ s) × InRange s k.parser
Ended s p len (at_lf h k) =
    (p ≤ k.p) × (k.p < len) × (k.p_state ≡ s) × InRange s k.parser × (k.ch ≡ lf)
Ended s p len (bad_length h k) = (k.p < len) × (k.p_state ≡ s) × InRange s k.parser

Ended-mono :
    {S : Type 0} (s : State) (p p' len : ℕ) (r : ValueEnd S)
    → p ≤ p'
    → Ended s p' len r
    → Ended s p len r
Ended-mono s p p' len (at_end h k) i e = e
Ended-mono s p p' len (at_cr h k) i e = (omega arith, e.1, e.2, e.3)
Ended-mono s p p' len (at_lf h k) i e = (omega arith, e.1, e.2, e.3, e.4)
Ended-mono s p p' len (bad_length h k) i e = e

ValueByte-cases :
    (v : ValueByte) → ((q : Parser) × (h : HeaderState) × (v ≡ taken q h)) ⊎ (v ≡ refused)
ValueByte-cases (taken q h) = inl (q, h, refl)
ValueByte-cases refused = inr refl

-- One round of the loop at a byte that ends no line, given the rounds after it.
value_more-Ended :
    {S : Type 0} (n : ℕ) (bytes : List ℕ) (h : HeaderState) (l : Locals S)
    → ((h' : HeaderState) (k : Locals S)
        → k.p ≤ length bytes
        → length bytes ≤ k.p + n
        → takes_body k.p_state ≡ false
        → InRange k.p_state k.parser
        → Ended k.p_state k.p (length bytes) (value_loop n bytes h' k))
    → length bytes ≤ l.p + suc n
    → takes_body l.p_state ≡ false
    → InRange l.p_state l.parser
    → l.p < length bytes
    → get_or bytes l.p 0 ≢ cr
    → get_or bytes l.p 0 ≢ lf
    → Ended l.p_state l.p (length bytes) (elim (value_switch h (get_or bytes l.p 0) l.parser) [
      | taken q h' ↦
          value_loop n bytes h'
            (record l { ch = get_or bytes l.p 0; p = value_next h bytes l.p; parser = q })
      | refused ↦ bad_length h (record l { ch = get_or bytes l.p 0 })
    ])
value_more-Ended n bytes h l rest f b inv j c d =
    let next = value_next-bounds h bytes l.p j c d in
    elim (ValueByte-cases (value_switch h (get_or bytes l.p 0) l.parser)) [
      | inl (q, h', e) ↦ rw e (
          let k = record l { ch = get_or bytes l.p 0; p = value_next h bytes l.p; parser = q } in
          Ended-mono l.p_state l.p (value_next h bytes l.p) (length bytes) (value_loop n bytes h' k)
            (omega arith)
            (rest h' k next.1 (omega arith) b
              (rw e at (value_switch-InRange l.p_state h (get_or bytes l.p 0) l.parser b inv))))
      | inr e ↦ rw e (j, refl, inv)
    ]

-- With as much fuel as there are bytes left, the loop over a value's bytes ends at the end of the bytes
-- or before, and keeps the numbers in range.
pub value_loop-Ended :
    {S : Type 0} (n : ℕ) (bytes : List ℕ) (h : HeaderState) (l : Locals S)
    → l.p ≤ length bytes
    → length bytes ≤ l.p + n
    → takes_body l.p_state ≡ false
    → InRange l.p_state l.parser
    → Ended l.p_state l.p (length bytes) (value_loop n bytes h l)
unfolding value_loop
value_loop-Ended zero bytes h l i f b inv = (omega arith, refl, inv)
value_loop-Ended (suc n) bytes h l i f b inv =
    let ch = get_or bytes l.p 0 in
    elim (Bool-cases (l.p == length bytes)) [
      | inl e ↦ rw e (ground arith, refl, inv)
      | inr e ↦ elim (Bool-cases (ch == cr)) [
        | inl c ↦ rw (e, c) (omega arith, ground arith, refl, inv)
        | inr c ↦ elim (Bool-cases (ch == lf)) [
          | inl d ↦ rw (e, c, d) (omega arith, ground arith, refl, inv, ground arith)
          | inr d ↦
              rw (e, c, d)
                (value_more-Ended n bytes h l (λ h' k. value_loop-Ended n bytes h' k) f b inv
                  (ground arith) (ground arith) (ground arith))
        ]
      ]
    ]

module _ {S : Type 0} (settings : Settings S) (bytes : List ℕ) (l : Locals S) where
  after_value-Progress :
      (start : ℕ) (k : Locals S)
      → l.p < length bytes
      → l.p ≤ k.p
      → k.p ≤ length bytes
      → InRange k.p_state k.parser
      → Progress (length bytes) l (after_value bytes start k)
  unfolding after_value
  after_value-Progress start k i a b inv =
      Called-then (length bytes) l k _ _ b (count_header_size-Called (k.p - start) k inv)
        (λ k' c. ground arith)

  value_ended-Progress :
      (s : State) (r : ValueEnd S)
      → l.p < length bytes
      → s ≡ s_header_value
      → l.p_state ≡ s
      → Ended s l.p (length bytes) r
      → Progress (length bytes) l (value_ended settings bytes l.p r)
  unfolding value_ended
  value_ended-Progress s (at_end h k) i e f d =
      after_value-Progress l.p (put_header_state h k) i (omega arith) (omega arith) (ground arith)
  value_ended-Progress s (at_cr h k) i e f d =
      let k₁ = put_header_state h (to_state s_header_almost_done k) in
      Called-then (length bytes) l k₁ _ _ (omega arith)
        (callback_header_value-Called settings k.p (k.p + 1) k₁ (ground arith))
        (λ k' c.
          after_value-Progress l.p (put_header_state h k') i (omega arith) (omega arith)
            (ground arith))
  value_ended-Progress s (at_lf h k) i e f d =
      let k₁ = to_state s_header_almost_done k in
      Called-then (length bytes) l k₁ _ _ (omega arith)
        (count_header_size-Called (k.p - l.p) k₁ (ground arith))
        (λ k₂ c.
          let k₃ = put_header_state h k₂ in
          Called-again (length bytes) l k₃ _ (omega arith) (omega arith) (omega arith)
            (rw (c.1, f, e) (omega arith))
            (callback_header_value-Called settings k.p k.p k₃ (ground arith)))
  value_ended-Progress s (bad_length h k) i e f d =
      fail-Progress (length bytes) l hpe_invalid_content_length (put_header_state h k) (omega arith)
        refl

  pub step_header_value-Progress :
      l.p < length bytes
      → InRange l.p_state l.parser
      → l.p_state ≡ s_header_value
      → Progress (length bytes) l (step_header_value settings bytes l)
  unfolding step_header_value
  step_header_value-Progress i inv e = value_ended-Progress l.p_state _ i e refl (
      value_loop-Ended (length bytes - l.p) bytes l.parser.header_state l (omega arith)
        (omega arith) (rw e) inv)
