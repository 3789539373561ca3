-- ===== src/Parser/Response.antt =====
-- The states of `http_parser_execute` that read a status line, and those before the kind of message
-- is known.
use my_warehouse.Common.{ℕ, ◌+◌, ◌-◌, ◌*◌, ◌%◌, Bool, not, ◌||◌, ltb, ◌==◌, if◌then◌else◌}
use my_warehouse.Parser.Chars.{cr, lf, is_num}
use my_warehouse.Parser.Enums.{
  http_request, http_response, http_head, hpe_closed_connection, hpe_cb_message_begin,
  hpe_invalid_constant, hpe_invalid_version, hpe_invalid_status, State, s_res_or_resp_h,
  s_start_req, s_res_h, s_res_ht, s_req_method, s_res_http_major, s_res_first_http_minor,
  s_res_first_status_code, s_res_status_code, s_res_status_start, s_res_status,
  s_res_line_almost_done, s_header_field_start,
}
use my_warehouse.Parser.State.{Parser, Settings, no_flags, ullong_max}
use my_warehouse.Parser.Flow.{
  Locals, Flow, Next, ◌>>=◌, next, again, to_state, with_parser, fail, strict_check,
  callback_notify, callback_status, mark_at,
}

-- `ch == CR || ch == LF`.
abbrev pub is_crlf : ℕ → Bool
is_crlf ch = ch == cr || ch == lf

-- `parser->flags = 0; parser->content_length = ULLONG_MAX;`.
abbrev pub fresh : Parser → Parser
fresh q = record q { flags = no_flags; content_length = ullong_max }

module _ {S : Type 0} where
  -- `case s_dead`.
  unfoldable pub step_dead : Locals S → Flow S (Next S)
  unfolding fail
  step_dead l = if is_crlf l.ch then next l else fail hpe_closed_connection l

  -- `case s_start_req_or_res`.
  unfoldable pub step_start_req_or_res : Settings S → Locals S → Flow S (Next S)
  step_start_req_or_res settings l =
      if is_crlf l.ch
      then next l
      else if l.ch == b'H'
      then (do
        l' ←
            callback_notify settings.on_message_begin hpe_cb_message_begin (l.p + 1)
              (to_state s_res_or_resp_h (with_parser (fresh l.parser) l))
        next l')
      else again
          (to_state s_start_req (with_parser (record (fresh l.parser) { type = http_request }) l))

  -- `case s_res_or_resp_H`.
  unfoldable pub step_res_or_resp_h : Locals S → Flow S (Next S)
  unfolding fail
  step_res_or_resp_h l =
      if l.ch == b'T'
      then next (to_state s_res_ht (with_parser (record (l.parser) { type = http_response }) l))
      else if not (l.ch == b'E')
      then fail hpe_invalid_constant l
      else next (
          to_state s_req_method (
            with_parser (record (l.parser) { type = http_request; method = http_head; index = 2 })
              l))

  -- `case s_start_res`.
  unfoldable pub step_start_res : Settings S → Locals S → Flow S (Next S)
  unfolding fail
  step_start_res settings l =
      let l₁ = with_parser (fresh l.parser) l in
      if l.ch == b'H'
      then (do
        l' ←
            callback_notify settings.on_message_begin hpe_cb_message_begin (l.p + 1)
              (to_state s_res_h l₁)
        next l')
      else if is_crlf l.ch
      then (do
        l' ← callback_notify settings.on_message_begin hpe_cb_message_begin (l.p + 1) l₁
        next l')
      else fail hpe_invalid_constant l₁

  -- `STRICT_CHECK(ch != want); UPDATE_STATE(s); break;`, as in `case s_res_H` and its like.
  unfoldable pub expect : ℕ → State → Locals S → Flow S (Next S)
  unfolding fail
  expect want s l = strict_check (not (l.ch == want)) l (next (to_state s l))

  -- One more digit of the major version.
  unfoldable pub major_digit : Locals S → Flow S (Next S)
  unfolding fail
  major_digit l =
      let major = (l.parser.http_major * 10 % 65536 + (l.ch - b'0')) % 65536 in
      let l' = with_parser (record (l.parser) { http_major = major }) l in
      if not (is_num l.ch)
      then fail hpe_invalid_version l
      else if ltb 999 major
      then fail hpe_invalid_version l'
      else next l'

  -- One more digit of the minor version.
  unfoldable pub minor_digit : Locals S → Flow S (Next S)
  unfolding fail
  minor_digit l =
      let minor = (l.parser.http_minor * 10 % 65536 + (l.ch - b'0')) % 65536 in
      let l' = with_parser (record (l.parser) { http_minor = minor }) l in
      if not (is_num l.ch)
      then fail hpe_invalid_version l
      else if ltb 999 minor
      then fail hpe_invalid_version l'
      else next l'

  -- `case s_res_first_http_major`.
  unfoldable pub step_res_first_http_major : Locals S → Flow S (Next S)
  unfolding fail
  step_res_first_http_major l =
      if ltb l.ch b'0' || ltb b'9' l.ch
      then fail hpe_invalid_version l
      else next (
          to_state s_res_http_major
            (with_parser (record (l.parser) { http_major = l.ch - b'0' }) l))

  -- `case s_res_http_major`.
  unfoldable pub step_res_http_major : Locals S → Flow S (Next S)
  step_res_http_major l =
      if l.ch == b'.' then next (to_state s_res_first_http_minor l) else major_digit l

  -- `case s_res_first_http_minor`, and `case s_req_first_http_minor` with its own next state.
  unfoldable pub first_http_minor : State → Locals S → Flow S (Next S)
  unfolding fail
  first_http_minor s l =
      if not (is_num l.ch)
      then fail hpe_invalid_version l
      else next (to_state s (with_parser (record (l.parser) { http_minor = l.ch - b'0' }) l))

  -- `case s_res_http_minor`.
  unfoldable pub step_res_http_minor : Locals S → Flow S (Next S)
  step_res_http_minor l =
      if l.ch == b' ' then next (to_state s_res_first_status_code l) else minor_digit l

  -- `case s_res_first_status_code`.
  unfoldable pub step_res_first_status_code : Locals S → Flow S (Next S)
  unfolding fail
  step_res_first_status_code l =
      if not (is_num l.ch)
      then (if l.ch == b' ' then next l else fail hpe_invalid_status l)
      else next (
          to_state s_res_status_code
            (with_parser (record (l.parser) { status_code = l.ch - b'0' }) l))

  -- `case s_res_status_code`.
  unfoldable pub step_res_status_code : Locals S → Flow S (Next S)
  unfolding fail
  step_res_status_code l =
      let code = (l.parser.status_code * 10 % 65536 + (l.ch - b'0')) % 65536 in
      let l' = with_parser (record (l.parser) { status_code = code }) l in
      if not (is_num l.ch)
      then (if l.ch == b' '
          then next (to_state s_res_status_start l)
          else if l.ch == cr
          then next (to_state s_res_line_almost_done l)
          else if l.ch == lf
          then next (to_state s_header_field_start l)
          else fail hpe_invalid_status l)
      else if ltb 999 code
      then fail hpe_invalid_status l'
      else next l'

  -- `case s_res_status_start`.
  unfoldable pub step_res_status_start : Locals S → Flow S (Next S)
  step_res_status_start l =
      if l.ch == cr
      then next (to_state s_res_line_almost_done l)
      else if l.ch == lf
      then next (to_state s_header_field_start l)
      else next (record l {
        status_mark = mark_at l.status_mark l.p;
        p_state = s_res_status;
        parser = record (l.parser) { index = 0 };
      })

  -- `case s_res_status`.
  unfoldable pub step_res_status : Settings S → Locals S → Flow S (Next S)
  step_res_status settings l =
      if l.ch == cr
      then (do
        l' ← callback_status settings l.p (l.p + 1) (to_state s_res_line_almost_done l)
        next l')
      else if l.ch == lf
      then (do
        l' ← callback_status settings l.p (l.p + 1) (to_state s_header_field_start l)
        next l')
      else next l
