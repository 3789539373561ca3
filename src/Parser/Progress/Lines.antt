-- ===== src/Parser/Progress/Lines.antt =====
-- The states of the status line and of the request line.
use my_warehouse.Common.{
  Bool-cases, inl, inr, ◌==◌, if◌then◌else◌, false, ℕ, ◌+◌, ◌<◌, Option, none, some, ◌≡◌, refl,
  arith,
}
use my_warehouse.Parser.Chars.{lf, is_alpha, cr}
use my_warehouse.Parser.Response.{
  is_crlf, major_digit, minor_digit, fresh, step_dead, step_start_req_or_res, step_res_or_resp_h,
  step_start_res, expect, step_res_first_http_major, step_res_http_major, first_http_minor,
  step_res_http_minor, step_res_first_status_code, step_res_status_code, step_res_status_start,
  step_res_status,
}
use my_warehouse.Parser.Enums.{
  s_res_h, s_res_line_almost_done, s_header_field_start, s_req_method, s_req_spaces_before_url,
  s_req_server_start, s_req_http_start, s_req_line_almost_done, Method, s_res_or_resp_h, s_dead,
  hpe_cb_message_begin, State, s_start_req_or_res,
}
use my_warehouse.Parser.Flow.{mark_at, to_state, with_parser, Locals, fail}
use my_warehouse.Parser.Progress.{
  Called-next, callback_notify-Called, callback_status-Called, callback_url-Called, takes_body,
  InRange, Progress,
}
use my_warehouse.Parser.State.{Settings}
use my_warehouse.Parser.Request.{
  step_start_req, step_req_method, step_req_spaces_before_url, step_req_schema, step_req_url,
  step_req_http_start, step_req_first_http_major, step_req_http_major, step_req_http_minor,
  step_req_line_almost_done, start_method, continue_method, other_method, first_letter, url_byte,
}
use my_warehouse.Parser.UrlChar.{parse_url_char}

-- The URL parser leads to no state of the body.
parse_url_char-takes_body :
    (s : State) (ch : ℕ) → takes_body s ≡ false → takes_body (parse_url_char s ch) ≡ false
unfolding parse_url_char
parse_url_char-takes_body s_dead ch h = ground arith
parse_url_char-takes_body _ ch h = ground arith

module _ {S : Type 0} (settings : Settings S) (len : ℕ) (l : Locals S) (inside : l.p < len)
    (inv : InRange l.p_state l.parser) where
  pub step_dead-Progress : Progress len l (step_dead l)
  unfolding step_dead
  step_dead-Progress = ground arith

  pub step_start_req_or_res-Progress :
      l.p_state ≡ s_start_req_or_res → Progress len l (step_start_req_or_res settings l)
  unfolding step_start_req_or_res
  step_start_req_or_res-Progress e = ground (
    arith,
    callback_notify-Called settings.on_message_begin hpe_cb_message_begin (l.p + 1)
        (to_state s_res_or_resp_h (with_parser (fresh l.parser) l)) refl,
  )

  pub step_res_or_resp_h-Progress : Progress len l (step_res_or_resp_h l)
  unfolding step_res_or_resp_h
  step_res_or_resp_h-Progress = ground arith

  pub step_start_res-Progress : Progress len l (step_start_res settings l)
  unfolding step_start_res
  step_start_res-Progress = ground (
    arith,
    callback_notify-Called settings.on_message_begin hpe_cb_message_begin (l.p + 1)
        (to_state s_res_h (with_parser (fresh l.parser) l)) refl,
    callback_notify-Called settings.on_message_begin hpe_cb_message_begin (l.p + 1)
        (with_parser (fresh l.parser) l) refl,
  )

  pub expect-Progress : (c : ℕ) (s : State) → takes_body s ≡ false → Progress len l (expect c s l)
  unfolding expect
  expect-Progress c s h = ground arith

  pub major_digit-Progress : Progress len l (major_digit l)
  unfolding major_digit
  major_digit-Progress = ground arith

  pub minor_digit-Progress : Progress len l (minor_digit l)
  unfolding minor_digit
  minor_digit-Progress = ground arith

  pub step_res_first_http_major-Progress : Progress len l (step_res_first_http_major l)
  unfolding step_res_first_http_major
  step_res_first_http_major-Progress = ground arith

  pub step_res_http_major-Progress : Progress len l (step_res_http_major l)
  unfolding step_res_http_major
  step_res_http_major-Progress = ground (arith, major_digit-Progress)

  pub first_http_minor-Progress :
      (s : State) → takes_body s ≡ false → Progress len l (first_http_minor s l)
  unfolding first_http_minor
  first_http_minor-Progress s h = ground arith

  pub step_res_http_minor-Progress : Progress len l (step_res_http_minor l)
  unfolding step_res_http_minor
  step_res_http_minor-Progress = ground (arith, minor_digit-Progress)

  pub step_res_first_status_code-Progress : Progress len l (step_res_first_status_code l)
  unfolding step_res_first_status_code
  step_res_first_status_code-Progress = ground arith

  pub step_res_status_code-Progress : Progress len l (step_res_status_code l)
  unfolding step_res_status_code
  step_res_status_code-Progress = ground arith

  pub step_res_status_start-Progress : Progress len l (step_res_status_start l)
  unfolding step_res_status_start
  step_res_status_start-Progress = ground arith

  pub step_res_status-Progress : Progress len l (step_res_status settings l)
  unfolding step_res_status
  step_res_status-Progress = elim (Bool-cases (l.ch == cr)) [
    | inl e ↦ rw e (
        Called-next len l (to_state s_res_line_almost_done l) _ (omega arith) (omega arith)
          (omega arith)
          (callback_status-Called settings l.p (l.p + 1) (to_state s_res_line_almost_done l)
            (ground arith)))
    | inr e ↦ elim (Bool-cases (l.ch == lf)) [
      | inl e' ↦
          rw (e, e')
            (Called-next len l (to_state s_header_field_start l) _ (omega arith) (omega arith)
              (omega arith)
              (callback_status-Called settings l.p (l.p + 1) (to_state s_header_field_start l)
                (ground arith)))
      | inr e' ↦ rw (e, e') (ground arith)
    ]
  ]

  start_method-Progress : (o : Option Method) → Progress len l (start_method settings l o)
  unfolding start_method
  start_method-Progress none = ground arith
  start_method-Progress (some m) = ground (
    arith,
    callback_notify-Called settings.on_message_begin hpe_cb_message_begin (l.p + 1)
        (to_state s_req_method (with_parser (record (fresh l.parser) { method = m; index = 1 }) l))
        refl,
  )

  pub step_start_req-Progress : Progress len l (step_start_req settings l)
  unfolding step_start_req fail
  step_start_req-Progress = elim (Bool-cases (is_crlf l.ch)) [
    | inl e ↦ rw e (ground arith)
    | inr e ↦ elim (Bool-cases (is_alpha l.ch)) [
      | inl e' ↦ rw (e, e') (start_method-Progress (first_letter l.ch))
      | inr e' ↦ rw (e, e') (ground arith)
    ]
  ]

  continue_method-Progress :
      (s : State) (o : Option Method)
      → takes_body s ≡ false
      → Progress len l (continue_method (to_state s l) o)
  unfolding continue_method
  continue_method-Progress s none h = ground arith
  continue_method-Progress s (some m) h = ground arith

  pub step_req_method-Progress : l.p_state ≡ s_req_method → Progress len l (step_req_method l)
  unfolding step_req_method
  step_req_method-Progress e = ground (
    arith,
    continue_method-Progress s_req_spaces_before_url (some l.parser.method),
    continue_method-Progress l.p_state (some l.parser.method),
    continue_method-Progress l.p_state (other_method l.parser.method l.parser.index l.ch),
  )

  url_byte-Progress :
      (k : Locals S)
      → k.p ≡ l.p
      → k.parser ≡ l.parser
      → takes_body k.p_state ≡ false
      → Progress len l (url_byte k)
  unfolding url_byte
  url_byte-Progress k e f h = ground (arith, parse_url_char-takes_body k.p_state k.ch)

  pub step_req_spaces_before_url-Progress :
      takes_body l.p_state ≡ false → Progress len l (step_req_spaces_before_url l)
  unfolding step_req_spaces_before_url
  step_req_spaces_before_url-Progress h = ground (
    arith,
    url_byte-Progress (to_state s_req_server_start (record l { url_mark = mark_at l.url_mark l.p }))
        refl refl,
    url_byte-Progress (record l { url_mark = mark_at l.url_mark l.p }) refl refl,
  )

  pub step_req_schema-Progress : takes_body l.p_state ≡ false → Progress len l (step_req_schema l)
  unfolding step_req_schema
  step_req_schema-Progress h = ground (arith, url_byte-Progress l refl refl)

  pub step_req_url-Progress :
      takes_body l.p_state ≡ false → Progress len l (step_req_url settings l)
  unfolding step_req_url
  step_req_url-Progress h = ground (
    arith,
    url_byte-Progress l refl refl,
    callback_url-Called settings l.p (l.p + 1) (to_state s_req_http_start l),
    callback_url-Called settings l.p (l.p + 1) (
        to_state (if l.ch == cr then s_req_line_almost_done else s_header_field_start)
          (with_parser (record (l.parser) { http_major = 0; http_minor = 9 }) l)),
  )

  pub step_req_http_start-Progress : Progress len l (step_req_http_start l)
  unfolding step_req_http_start
  step_req_http_start-Progress = ground arith

  pub step_req_first_http_major-Progress : Progress len l (step_req_first_http_major l)
  unfolding step_req_first_http_major
  step_req_first_http_major-Progress = ground arith

  pub step_req_line_almost_done-Progress : Progress len l (step_req_line_almost_done l)
  unfolding step_req_line_almost_done
  step_req_line_almost_done-Progress = ground arith

  pub step_req_http_major-Progress : Progress len l (step_req_http_major l)
  unfolding step_req_http_major
  step_req_http_major-Progress = ground (arith, major_digit-Progress)

  pub step_req_http_minor-Progress : Progress len l (step_req_http_minor l)
  unfolding step_req_http_minor
  step_req_http_minor-Progress = ground (arith, minor_digit-Progress)
