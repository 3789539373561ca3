-- ===== src/Parser/Slices/Values.antt =====
-- The state of a header's value.
use my_warehouse.Common.{
  if◌then◌else◌, ◌^◌, ℕ, zero, suc, ◌+◌, ◌-◌, ◌≤◌, ◌<◌, false, ◌≡◌, arith, List, length, get_or,
  Bool-cases, inl, inr, ◌==◌,
}
use my_warehouse.Parser.Flow.{next, fail, with_parser, Locals, to_state}
use my_warehouse.Parser.Chars.{cr, lf}
use my_warehouse.Parser.Enums.{HeaderState, State, s_header_value, s_header_almost_done}
use my_warehouse.Parser.State.{Parser, Settings}
use my_warehouse.Parser.Value.{
  step_header_value, value_loop, value_switch, ValueByte, taken, refused, ValueEnd, at_end, at_cr,
  at_lf, bad_length, value_ended, after_value, value_next, put_header_state,
}
use my_warehouse.Parser.Slices.{
  Passed-then, Keeps, Marked, MarksAt, Held, Passed-again, count_header_size-Held,
  callback_header_value-Passed, Marks-mono,
}
use my_warehouse.Parser.Progress.{InRange}
use my_warehouse.Parser.Progress.Values.{Ended, value_loop-Ended}

EndKept : {S : Type 0} → (S → Type 0) → ℕ → ValueEnd S → Type 0
EndKept P p (at_end h k) = P k.app × MarksAt p k
EndKept P p (at_cr h k) = P k.app × MarksAt p k
EndKept P p (at_lf h k) = P k.app × MarksAt p k
EndKept P p (bad_length h k) = P k.app × MarksAt p k

value_loop-EndKept :
    {S : Type 0} (P : S → Type 0) (p n : ℕ) (bytes : List ℕ) (h : HeaderState) (l : Locals S)
    → P l.app
    → MarksAt p l
    → EndKept P p (value_loop n bytes h l)
unfolding value_loop EndKept
value_loop-EndKept P p zero bytes h l a m = (a, m)
value_loop-EndKept {S = S} P p (suc n) bytes h l a m =
    let ch = get_or bytes l.p 0 in
    elim (Bool-cases (l.p == length bytes)) [
      | inl e ↦ rw e (a, m)
      | inr e ↦ elim (Bool-cases (ch == cr)) [
        | inl c ↦ rw (e, c) (a, m)
        | inr c ↦ elim (Bool-cases (ch == lf)) [
          | inl d ↦ rw (e, c, d) (a, m)
          | inr d ↦
              rw (e, c, d)
                (switched (value_switch h ch l.parser)
                  (λ q h'.
                    value_loop n bytes h'
                      (record l { ch = ch; p = value_next h bytes l.p; parser = q }))
                  (λ q h'.
                    value_loop-EndKept P p n bytes h'
                      (record l { ch = ch; p = value_next h bytes l.p; parser = q }) a m))
        ]
      ]
    ]
  where
    switched :
        (v : ValueByte) (rest : Parser → HeaderState → ValueEnd S)
        → ((q : Parser) (h' : HeaderState) → EndKept P p (rest q h'))
        → EndKept P p (elim v [
          | taken q h' ↦ rest q h'
          | refused ↦ bad_length h (record l { ch = get_or bytes l.p 0 })
        ])
    switched (taken q h') rest f = f q h'
    switched refused rest f = (a, m)

module _ {S : Type 0} (P : S → Type 0) (settings : Settings S) (bytes : List ℕ)
    (keeps : Keeps P settings (length bytes)) (small : length bytes < 2 ^ 64) (l : Locals S)
    (inside : l.p < length bytes) (h : P l.app) (m : Marked l) where
  after_value-Held :
      (start : ℕ) (k : Locals S)
      → l.p ≤ k.p
      → k.p ≤ length bytes
      → P k.app
      → MarksAt l.p k
      → Held P (after_value bytes start k)
  unfolding after_value
  after_value-Held start k i j a b =
      let up : (p : ℕ) → l.p ≤ p → MarksAt p k = λ p le. Marks-mono l.p p _ _ _ _ _ le b in
      count_header_size-Held P (k.p - start) k _ a (λ q. elim (Bool-cases (k.p == length bytes)) [
        | inl e ↦ rw e (a, up (k.p - 1) (ground arith))
        | inr e ↦ rw e (a, up k.p i)
      ])

  after_value-Held_inside :
      (start : ℕ) (k : Locals S)
      → k.p < length bytes
      → P k.app
      → Marked k
      → Held P (after_value bytes start k)
  unfolding after_value
  after_value-Held_inside start k i a b =
      let e : k.p == length bytes ≡ false = ground arith in
      count_header_size-Held P (k.p - start) k
        (λ k'. next (if k'.p == length bytes then record k' { p = k'.p - 1 } else k')) a
        (λ q. rw e (a, b))

  value_ended-Held :
      (s : State) (r : ValueEnd S)
      → Ended s l.p (length bytes) r
      → EndKept P l.p r
      → Held P (value_ended settings bytes l.p r)
  unfolding value_ended EndKept fail
  value_ended-Held s (at_end hs k) e (a, b) =
      after_value-Held l.p (put_header_state hs k) (omega arith) (omega arith) a b
  value_ended-Held s (at_cr hs k) e (a, b) =
      let k₁ = put_header_state hs (to_state s_header_almost_done k) in
      Passed-then P k.p _ _
        (callback_header_value-Passed P settings (length bytes) k.p (k.p + 1) keeps small k₁
          (omega arith) (omega arith) a (Marks-mono l.p k.p _ _ _ _ _ e.0 b))
        (λ k₂ a₂ b₂ e₂. after_value-Held_inside l.p (put_header_state hs k₂) (omega arith) a₂ b₂)
  value_ended-Held s (at_lf hs k) e (a, b) =
      count_header_size-Held P (k.p - l.p) (to_state s_header_almost_done k) _ a (λ q.
        Passed-again P k.p _ (
          callback_header_value-Passed P settings (length bytes) k.p k.p keeps small
            (put_header_state hs (with_parser q (to_state s_header_almost_done k))) (omega arith)
            (omega arith) a (Marks-mono l.p k.p _ _ _ _ _ e.0 b)))
  value_ended-Held s (bad_length hs k) e (a, b) = a

  pub step_header_value-Held :
      l.p_state ≡ s_header_value
      → InRange l.p_state l.parser
      → Held P (step_header_value settings bytes l)
  unfolding step_header_value
  step_header_value-Held e inv =
      value_ended-Held l.p_state (value_loop (length bytes - l.p) bytes l.parser.header_state l)
        (value_loop-Ended (length bytes - l.p) bytes l.parser.header_state l (omega arith)
          (omega arith) (rw e) inv)
        (value_loop-EndKept P l.p (length bytes - l.p) bytes l.parser.header_state l h m)
