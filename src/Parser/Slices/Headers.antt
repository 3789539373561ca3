-- ===== src/Parser/Slices/Headers.antt =====
-- The states of the header fields.
use my_warehouse.Parser.Flow.{fail, with_parser, to_state, mark_at, Locals}
use my_warehouse.Parser.Chars.{cr, lf, token}
use my_warehouse.Common.{
  ◌^◌, Option, none, some, ◌||◌, ℕ, zero, suc, ◌+◌, ◌-◌, ◌≤◌, ◌<◌, arith, List, length, get_or,
  Bool-cases, inl, inr, ◌==◌,
}
use my_warehouse.Parser.Enums.{
  hpe_invalid_header_token, s_header_value_discard_ws, s_header_field_start,
}
use my_warehouse.Parser.Value.{
  value_start, value_started, flag_header, step_header_value_start, step_header_value_discard_ws,
  step_header_value_lws, step_header_value_discard_lws,
}
use my_warehouse.Parser.State.{Parser, Settings}
use my_warehouse.Parser.Header.{
  step_header_field_start, step_header_field, field_loop, field_switch, after_field,
}
use my_warehouse.Parser.Slices.{
  Keeps, Marked, MarksAt, Held, Passed-next, Passed-again, count_header_size-Held, if-Held,
  fail-Held, callback_header_field-Passed, callback_header_value-Passed, IsMark-mark_at, Marks-mono,
}

field_loop-kept :
    {S : Type 0} (P : S → Type 0) (p n : ℕ) (bytes : List ℕ) (l : Locals S)
    → P l.app
    → MarksAt p l
    → P (field_loop n bytes l).app
      × MarksAt p (field_loop n bytes l)
      × (l.p ≤ (field_loop n bytes l).p)
      × ((field_loop n bytes l).p ≤ l.p + n)
unfolding field_loop
field_loop-kept P p zero bytes l h m = (h, m, omega arith, omega arith)
field_loop-kept P p (suc n) bytes l h m =
    let ch = get_or bytes l.p 0 in
    elim (Bool-cases (token ch == 0)) [
      | inl e ↦ rw e (h, m, omega arith, omega arith)
      | inr e ↦ rw e (
          let r =
            field_loop-kept P p n bytes
              (record l {
                ch = ch;
                p = l.p + 1;
                parser = field_switch l.parser.header_state ch (token ch) l.parser;
              })
              h m in
          (r.0, r.1, omega arith, omega arith))
    ]

module _ {S : Type 0} (P : S → Type 0) (settings : Settings S) (bytes : List ℕ)
    (keeps : Keeps P settings (length bytes)) (small : length bytes < 2 ^ 64) (l : Locals S)
    (inside : l.p < length bytes) (h : P l.app) (m : Marked l) where
  pub step_header_field_start-Held : Held P (step_header_field_start l)
  unfolding step_header_field_start
  step_header_field_start-Held =
      if-Held P (l.ch == cr) _ _ (h, m)
        (if-Held P (l.ch == lf) _ _ (h, m)
          (if-Held P (token l.ch == 0) _ _ (fail-Held P hpe_invalid_header_token l h) (
            h,
            record {
              in_field = IsMark-mark_at l.p l.header_field_mark m.in_field;
              in_value = m.in_value;
              in_url = m.in_url;
              in_body = m.in_body;
              in_status = m.in_status;
            },
          )))

  value_started-Held :
      (k : Locals S) (o : Option Parser) → P k.app → Marked k → Held P (value_started k o)
  unfolding value_started fail
  value_started-Held k none a b = a
  value_started-Held k (some q) a b = (a, b)

  pub step_header_value_start-Held : Held P (step_header_value_start l)
  unfolding step_header_value_start
  step_header_value_start-Held =
      value_started-Held _
        (value_start (l.parser.header_state) l.ch (record (l.parser) { index = 0 })) h
        record {
          in_field = m.in_field;
          in_value = IsMark-mark_at l.p l.header_value_mark m.in_value;
          in_url = m.in_url;
          in_body = m.in_body;
          in_status = m.in_status;
        }

  pub step_header_value_discard_ws-Held : Held P (step_header_value_discard_ws l)
  unfolding step_header_value_discard_ws
  step_header_value_discard_ws-Held =
      if-Held P (l.ch == b' ' || l.ch == 9) _ _ (h, m)
        (if-Held P (l.ch == cr) _ _ (h, m)
          (if-Held P (l.ch == lf) _ _ (h, m) step_header_value_start-Held))

  pub step_header_value_lws-Held : Held P (step_header_value_lws l)
  unfolding step_header_value_lws
  step_header_value_lws-Held = if-Held P (l.ch == b' ' || l.ch == 9) _ _ (h, m) (h, m)

  pub step_header_value_discard_lws-Held : Held P (step_header_value_discard_lws settings l)
  unfolding step_header_value_discard_lws
  step_header_value_discard_lws-Held =
      let k =
        to_state s_header_field_start
          (record (flag_header l) { header_value_mark = mark_at l.header_value_mark l.p }) in
      let b : Marked k = record {
        in_field = m.in_field;
        in_value = IsMark-mark_at l.p l.header_value_mark m.in_value;
        in_url = m.in_url;
        in_body = m.in_body;
        in_status = m.in_status;
      } in
      if-Held P (l.ch == b' ' || l.ch == 9) _ _ (h, m)
        (Passed-again P l.p _ (
          callback_header_value-Passed P settings (length bytes) l.p l.p keeps small k (omega arith)
            (omega arith) h b))

  after_field-Held :
      (k : Locals S)
      → l.p ≤ k.p
      → k.p ≤ length bytes
      → P k.app
      → MarksAt l.p k
      → Held P (after_field settings bytes k)
  unfolding after_field
  after_field-Held k i j a b =
      let up : (p : ℕ) → l.p ≤ p → MarksAt p k = λ p le. Marks-mono l.p p _ _ _ _ _ le b in
      elim (Bool-cases (k.p == length bytes)) [
        | inl e ↦ rw e (a, up (k.p - 1) (ground arith))
        | inr e ↦ elim (Bool-cases (k.ch == b':')) [
          | inl e' ↦
              rw (e, e')
                (Passed-next P k.p _ (
                  callback_header_field-Passed P settings (length bytes) k.p (k.p + 1) keeps small
                    (to_state s_header_value_discard_ws k) j (omega arith) a
                    (up k.p (omega arith))))
          | inr e' ↦ rw (e, e') (fail-Held P hpe_invalid_header_token k a)
        ]
      ]

  pub step_header_field-Held : Held P (step_header_field settings bytes l)
  unfolding step_header_field
  step_header_field-Held =
      let k = field_loop (length bytes - l.p) bytes l in
      let (a, b, c, d) = field_loop-kept P l.p (length bytes - l.p) bytes l h m in
      count_header_size-Held P (k.p - l.p) k (after_field settings bytes) a
        (λ q. after_field-Held (with_parser q k) (omega arith) (omega arith) a b)
