-- ===== src/Parser/Slices/Lines.antt =====
-- The states of the status line and of the request line.
use my_warehouse.Parser.Request.{
  matcher_at, step_start_req, step_req_method, step_req_spaces_before_url, step_req_schema,
  step_req_url, step_req_http_start, step_req_first_http_major, step_req_http_major,
  step_req_http_minor, step_req_line_almost_done, start_method, continue_method, other_method,
  first_letter, url_byte,
}
use my_warehouse.Parser.Enums.{
  hpe_invalid_constant, hpe_invalid_method, hpe_invalid_url, is_connect, is_dead, s_res_h,
  s_res_line_almost_done, s_header_field_start, s_req_method, s_req_spaces_before_url,
  s_req_server_start, s_req_http_start, s_req_line_almost_done, Method, s_res_or_resp_h,
  hpe_cb_message_begin, State,
}
use my_warehouse.Parser.Flow.{
  ◌>>=◌, next, callback_notify, callback_status, mark_at, to_state, with_parser, Locals, fail,
}
use my_warehouse.Parser.Slices.{
  if-Held, fail-Held, Keeps, Marked, Held, Passed-next, callback_notify-Passed,
  callback_status-Passed, callback_url-Passed, IsMark-mark_at,
}
use my_warehouse.Common.{
  ◌^◌, not, ◌&&◌, ◌||◌, Bool-cases, inl, inr, ◌==◌, if◌then◌else◌, ℕ, ◌+◌, ◌<◌, Option, none, some,
  ◌≡◌, refl, arith,
}
use my_warehouse.Parser.Chars.{lf, is_alpha, cr}
use my_warehouse.Parser.Response.{
  is_crlf, major_digit, minor_digit, fresh, step_dead, step_start_req_or_res, step_res_or_resp_h,
  step_start_res, expect, step_res_first_http_major, step_res_http_major, first_http_minor,
  step_res_http_minor, step_res_first_status_code, step_res_status_code, step_res_status_start,
  step_res_status,
}
use my_warehouse.Parser.State.{Settings}
use my_warehouse.Parser.UrlChar.{parse_url_char}

module _ {S : Type 0} (P : S → Type 0) (settings : Settings S) (total : ℕ)
    (keeps : Keeps P settings total) (small : total < 2 ^ 64) (l : Locals S) (inside : l.p < total)
    (h : P l.app) (m : Marked l) where
  pub step_dead-Held : Held P (step_dead l)
  unfolding step_dead fail
  step_dead-Held = ground arith

  pub step_res_or_resp_h-Held : Held P (step_res_or_resp_h l)
  unfolding step_res_or_resp_h fail
  step_res_or_resp_h-Held = ground arith

  pub major_digit-Held : Held P (major_digit l)
  unfolding major_digit fail
  major_digit-Held = ground arith

  pub minor_digit-Held : Held P (minor_digit l)
  unfolding minor_digit fail
  minor_digit-Held = ground arith

  pub step_res_first_http_major-Held : Held P (step_res_first_http_major l)
  unfolding step_res_first_http_major fail
  step_res_first_http_major-Held = ground arith

  pub step_res_first_status_code-Held : Held P (step_res_first_status_code l)
  unfolding step_res_first_status_code fail
  step_res_first_status_code-Held = ground arith

  pub step_res_status_code-Held : Held P (step_res_status_code l)
  unfolding step_res_status_code fail
  step_res_status_code-Held = ground arith

  pub step_req_http_start-Held : Held P (step_req_http_start l)
  unfolding step_req_http_start fail
  step_req_http_start-Held = ground arith

  pub step_req_first_http_major-Held : Held P (step_req_first_http_major l)
  unfolding step_req_first_http_major fail
  step_req_first_http_major-Held = ground arith

  pub step_req_line_almost_done-Held : Held P (step_req_line_almost_done l)
  unfolding step_req_line_almost_done fail
  step_req_line_almost_done-Held = ground arith

  pub step_res_http_major-Held : Held P (step_res_http_major l)
  unfolding step_res_http_major
  step_res_http_major-Held = ground (arith, major_digit-Held)

  pub step_res_http_minor-Held : Held P (step_res_http_minor l)
  unfolding step_res_http_minor
  step_res_http_minor-Held = ground (arith, minor_digit-Held)

  pub step_req_http_major-Held : Held P (step_req_http_major l)
  unfolding step_req_http_major
  step_req_http_major-Held = ground (arith, major_digit-Held)

  pub step_req_http_minor-Held : Held P (step_req_http_minor l)
  unfolding step_req_http_minor
  step_req_http_minor-Held = ground (arith, minor_digit-Held)

  pub expect-Held : (c : ℕ) (s : State) → Held P (expect c s l)
  unfolding expect fail
  expect-Held c s = ground arith

  pub first_http_minor-Held : (s : State) → Held P (first_http_minor s l)
  unfolding first_http_minor fail
  first_http_minor-Held s = ground arith

  begun-Held :
      (k : Locals S)
      → k.p ≡ l.p
      → P k.app
      → Marked k
      → Held P (
          callback_notify settings.on_message_begin hpe_cb_message_begin (l.p + 1) k >>= λ k'.
          next k')
  begun-Held k e a b = Passed-next P k.p _ (
      callback_notify-Passed P settings.on_message_begin hpe_cb_message_begin (l.p + 1) k
        keeps.on_message_begin a b)

  pub step_start_req_or_res-Held : Held P (step_start_req_or_res settings l)
  unfolding step_start_req_or_res
  step_start_req_or_res-Held = elim (Bool-cases (is_crlf l.ch)) [
    | inl e ↦ rw e (h, m)
    | inr e ↦ elim (Bool-cases (l.ch == b'H')) [
      | inl e' ↦
          rw (e, e')
            (begun-Held (to_state s_res_or_resp_h (with_parser (fresh l.parser) l)) refl h m)
      | inr e' ↦ rw (e, e') (h, m)
    ]
  ]

  pub step_start_res-Held : Held P (step_start_res settings l)
  unfolding step_start_res
  step_start_res-Held =
      if-Held P (l.ch == b'H') _ _
        (begun-Held (to_state s_res_h (with_parser (fresh l.parser) l)) refl h m)
        (if-Held P (is_crlf l.ch) _ _ (begun-Held (with_parser (fresh l.parser) l) refl h m)
          (fail-Held P hpe_invalid_constant (with_parser (fresh l.parser) l) h))

  pub step_res_status_start-Held : Held P (step_res_status_start l)
  unfolding step_res_status_start
  step_res_status_start-Held =
      if-Held P (l.ch == cr) _ _ (h, m)
        (if-Held P (l.ch == lf) _ _ (h, m)
          (
            h,
            record {
              in_field = m.in_field;
              in_value = m.in_value;
              in_url = m.in_url;
              in_body = m.in_body;
              in_status = IsMark-mark_at l.p l.status_mark m.in_status;
            },
          ))

  status-Held :
      (s : State) → Held P (callback_status settings l.p (l.p + 1) (to_state s l) >>= λ k. next k)
  status-Held s = Passed-next P l.p _ (
      callback_status-Passed P settings total l.p (l.p + 1) keeps small (to_state s l) (omega arith)
        (omega arith) h m)

  pub step_res_status-Held : Held P (step_res_status settings l)
  unfolding step_res_status
  step_res_status-Held =
      if-Held P (l.ch == cr) _ _ (status-Held s_res_line_almost_done)
        (if-Held P (l.ch == lf) _ _ (status-Held s_header_field_start) (h, m))

  start_method-Held : (o : Option Method) → Held P (start_method settings l o)
  unfolding start_method fail
  start_method-Held none = h
  start_method-Held (some x) =
      begun-Held
        (to_state s_req_method (with_parser (record (fresh l.parser) { method = x; index = 1 }) l))
        refl h m

  pub step_start_req-Held : Held P (step_start_req settings l)
  unfolding step_start_req
  step_start_req-Held =
      if-Held P (is_crlf l.ch) _ _ (h, m)
        (if-Held P (not (is_alpha l.ch)) _ _
          (fail-Held P hpe_invalid_method (with_parser (fresh l.parser) l) h)
          (start_method-Held (first_letter l.ch)))

  continue_method-Held :
      (k : Locals S) (o : Option Method) → P k.app → Marked k → Held P (continue_method k o)
  unfolding continue_method fail
  continue_method-Held k none a b = a
  continue_method-Held k (some x) a b = (a, b)

  pub step_req_method-Held : Held P (step_req_method l)
  unfolding step_req_method
  step_req_method-Held =
      let q = l.parser in
      if-Held P (l.ch == 0) _ _ (fail-Held P hpe_invalid_method l h) (
        if-Held P (l.ch == b' ' && matcher_at q.method q.index == 0) _ _
          (continue_method-Held (to_state s_req_spaces_before_url l) (some q.method) h m)
          (if-Held P (l.ch == matcher_at q.method q.index) _ _
            (continue_method-Held l (some q.method) h m)
            (continue_method-Held l (other_method q.method q.index l.ch) h m)))

  url_byte-Held : (k : Locals S) → P k.app → Marked k → Held P (url_byte k)
  unfolding url_byte fail
  url_byte-Held k a b = if-Held P (is_dead (parse_url_char k.p_state k.ch)) _ _ a (a, b)

  pub step_req_spaces_before_url-Held : Held P (step_req_spaces_before_url l)
  unfolding step_req_spaces_before_url
  step_req_spaces_before_url-Held =
      let k = record l { url_mark = mark_at l.url_mark l.p } in
      let b : Marked k = record {
        in_field = m.in_field;
        in_value = m.in_value;
        in_url = IsMark-mark_at l.p l.url_mark m.in_url;
        in_body = m.in_body;
        in_status = m.in_status;
      } in
      if-Held P (l.ch == b' ') _ _ (h, m)
        (elim (Bool-cases (is_connect l.parser.method)) [
          | inl t ↦ rw t (url_byte-Held (to_state s_req_server_start k) h b)
          | inr t ↦ rw t (url_byte-Held k h b)
        ])

  pub step_req_schema-Held : Held P (step_req_schema l)
  unfolding step_req_schema
  step_req_schema-Held =
      if-Held P (l.ch == b' ' || is_crlf l.ch) _ _ (fail-Held P hpe_invalid_url l h)
        (url_byte-Held l h m)

  pub step_req_url-Held : Held P (step_req_url settings l)
  unfolding step_req_url
  step_req_url-Held =
      let k =
        to_state (if l.ch == cr then s_req_line_almost_done else s_header_field_start)
          (with_parser (record (l.parser) { http_major = 0; http_minor = 9 }) l) in
      if-Held P (l.ch == b' ') _ _
        (Passed-next P l.p _ (
          callback_url-Passed P settings total l.p (l.p + 1) keeps small
            (to_state s_req_http_start l) (omega arith) (omega arith) h m))
        (if-Held P (is_crlf l.ch) _ _
          (Passed-next P l.p _ (
            callback_url-Passed P settings total l.p (l.p + 1) keeps small k (omega arith)
              (omega arith) h m))
          (url_byte-Held l h m))
