-- ===== src/Parser/Progress/Headers.antt =====
-- The states of the header fields.
use my_warehouse.Parser.Enums.{
  hpe_invalid_header_token, s_header_value_discard_ws, h_upgrade, HeaderState, h_general, State,
  s_header_field_start, s_header_value_lws, s_header_value_discard_lws,
}
use my_warehouse.Parser.Progress.{
  Called-then, count_header_size-Called, fail-Progress, Called-again, Called-next,
  callback_header_value-Called, callback_header_field-Called, takes_body, InRange, Progress,
}
use my_warehouse.Common.{
  ◌||◌, false, ℕ, zero, suc, ◌+◌, ◌-◌, ◌≤◌, ◌<◌, ◌≡◌, refl, arith, List, length, get_or, Bool-cases,
  inl, inr, ◌==◌,
}
use my_warehouse.Parser.Value.{
  value_start, value_started, flag_header, step_header_value_start, step_header_value_discard_ws,
  step_header_value_lws, step_header_value_discard_lws,
}
use my_warehouse.Parser.Flow.{to_state, mark_at, Locals}
use my_warehouse.Parser.Chars.{token}
use my_warehouse.Parser.State.{Parser, Settings}
use my_warehouse.Parser.Header.{
  step_header_field_start, step_header_field, field_loop, field_switch, after_field,
}

field_switch-InRange :
    (s : State) (h : HeaderState) (ch c : ℕ) (q : Parser)
    → InRange s q
    → InRange s (field_switch h ch c q)
unfolding field_switch
field_switch-InRange s h_general ch c q inv = inv
field_switch-InRange s _ ch c q inv = ground arith

-- The loop over a name's bytes stays within them and keeps the numbers in range.
field_loop-keeps :
    {S : Type 0} (n : ℕ) (bytes : List ℕ) (s : State) (l : Locals S)
    → InRange s l.parser
    → let k = field_loop n bytes l in
      (l.p ≤ k.p) × (k.p ≤ l.p + n) × (k.p_state ≡ l.p_state) × InRange s k.parser
unfolding field_loop
field_loop-keeps zero bytes s l inv = (omega arith, omega arith, refl, inv)
field_loop-keeps (suc n) bytes s l inv =
    let ch = get_or bytes l.p 0 in
    let q = field_switch l.parser.header_state ch (token ch) l.parser in
    elim (Bool-cases (token ch == 0)) [
      | inl e ↦ rw e (omega arith, omega arith, refl, inv)
      | inr e ↦ rw e (
          let r =
            field_loop-keeps n bytes s (record l { ch = ch; p = l.p + 1; parser = q })
              (field_switch-InRange s l.parser.header_state ch (token ch) l.parser inv) in
          (omega arith, omega arith, r.2, r.3))
    ]

module _ {S : Type 0} (settings : Settings S) (len : ℕ) (l : Locals S) (inside : l.p < len)
    (inv : InRange l.p_state l.parser) where
  pub step_header_field_start-Progress :
      l.p_state ≡ s_header_field_start → Progress len l (step_header_field_start l)
  unfolding step_header_field_start
  step_header_field_start-Progress e = ground arith

  value_started-Progress :
      (k : Locals S) (h : HeaderState) (ch : ℕ)
      → k.p ≡ l.p
      → InRange k.p_state k.parser
      → takes_body k.p_state ≡ false
      → Progress len l (value_started k (value_start h ch k.parser))
  unfolding value_started value_start
  value_started-Progress k h_upgrade ch e r b = ground arith
  value_started-Progress k _ ch e r b = ground arith

  pub step_header_value_start-Progress : Progress len l (step_header_value_start l)
  unfolding step_header_value_start
  step_header_value_start-Progress = value_started-Progress _ _ l.ch refl (ground arith) refl

  pub step_header_value_discard_ws-Progress :
      takes_body l.p_state ≡ false → Progress len l (step_header_value_discard_ws l)
  unfolding step_header_value_discard_ws
  step_header_value_discard_ws-Progress h = ground (arith, step_header_value_start-Progress)

  pub step_header_value_lws-Progress :
      l.p_state ≡ s_header_value_lws → Progress len l (step_header_value_lws l)
  unfolding step_header_value_lws
  step_header_value_lws-Progress e = ground arith

  pub step_header_value_discard_lws-Progress :
      l.p_state ≡ s_header_value_discard_lws
      → Progress len l (step_header_value_discard_lws settings l)
  unfolding step_header_value_discard_lws
  step_header_value_discard_lws-Progress e =
      let k =
        to_state s_header_field_start
          (record (flag_header l) { header_value_mark = mark_at l.header_value_mark l.p }) in
      elim (Bool-cases (l.ch == b' ' || l.ch == 9)) [
        | inl t ↦ rw t (ground arith)
        | inr t ↦ rw t (
            Called-again len l k _ (omega arith) (omega arith) (omega arith) (ground arith)
              (callback_header_value-Called settings l.p l.p k (ground arith)))
      ]

module _ {S : Type 0} (settings : Settings S) (bytes : List ℕ) (l : Locals S) where
  after_field-Progress :
      (k : Locals S)
      → l.p < length bytes
      → l.p ≤ k.p
      → k.p ≤ length bytes
      → takes_body k.p_state ≡ false
      → InRange k.p_state k.parser
      → Progress (length bytes) l (after_field settings bytes k)
  unfolding after_field
  after_field-Progress k i a b h inv = elim (Bool-cases (k.p == length bytes)) [
    | inl e ↦ rw e (ground arith)
    | inr e ↦ elim (Bool-cases (k.ch == b':')) [
      | inl e' ↦
          rw (e, e')
            (Called-next (length bytes) l (to_state s_header_value_discard_ws k) _ a (ground arith)
              (ground arith)
              (callback_header_field-Called settings k.p (k.p + 1)
                (to_state s_header_value_discard_ws k) (ground arith)))
      | inr e' ↦ rw (e, e') (fail-Progress (length bytes) l hpe_invalid_header_token k b refl)
    ]
  ]

  pub step_header_field-Progress :
      l.p < length bytes
      → InRange l.p_state l.parser
      → takes_body l.p_state ≡ false
      → Progress (length bytes) l (step_header_field settings bytes l)
  unfolding step_header_field
  step_header_field-Progress i inv h =
      let k = field_loop (length bytes - l.p) bytes l in
      let f = field_loop-keeps (length bytes - l.p) bytes l.p_state l inv in
      Called-then (length bytes) l k _ (after_field settings bytes) (omega arith)
        (count_header_size-Called (k.p - l.p) k (rw f.2 f.3))
        (λ k' c. after_field-Progress k' i (omega arith) (omega arith) (rw (c.1, f.2) h) c.5)
