-- ===== src/Parser/Request.antt =====
-- The states of `http_parser_execute` that read a request line.
use my_warehouse.Common.{
  ℕ, ◌+◌, ◌-◌, ◌%◌, not, ◌&&◌, ◌||◌, Option, none, some, get_or, ltb, ◌==◌, if◌then◌else◌,
}
use my_warehouse.Parser.Chars.{cr, lf, is_alpha}
use my_warehouse.Parser.Enums.{
  Method, http_delete, http_get, http_head, http_post, http_put, http_connect, http_options,
  http_trace, http_copy, http_lock, http_mkcol, http_move, http_propfind, http_proppatch,
  http_search, http_unlock, http_report, http_mkactivity, http_checkout, http_merge, http_msearch,
  http_notify, http_subscribe, http_unsubscribe, http_patch, http_purge, http_mkcalendar,
  method_string, hpe_invalid_method, hpe_cb_message_begin, hpe_invalid_url, hpe_invalid_constant,
  hpe_invalid_version, hpe_lf_expected, s_req_method, s_req_spaces_before_url, s_req_server_start,
  s_req_http_start, s_req_line_almost_done, s_header_field_start, s_req_http_h, s_req_http_major,
  s_req_first_http_minor, is_dead, is_connect,
}
use my_warehouse.Parser.State.{Settings}
use my_warehouse.Parser.Flow.{
  Locals, Flow, Next, ◌>>=◌, next, to_state, with_parser, fail, callback_notify, callback_url,
  mark_at,
}
use my_warehouse.Parser.UrlChar.{parse_url_char}
use my_warehouse.Parser.Response.{is_crlf, fresh, major_digit, minor_digit}

-- The switch on a method's first letter in `case s_start_req`.
unfoldable pub first_letter : ℕ → Option Method
first_letter ch =
    if ch == b'C'
    then some http_connect
    else if ch == b'D'
    then some http_delete
    else if ch == b'G'
    then some http_get
    else if ch == b'H'
    then some http_head
    else if ch == b'L'
    then some http_lock
    else if ch == b'M'
    then some http_mkcol
    else if ch == b'N'
    then some http_notify
    else if ch == b'O'
    then some http_options
    else if ch == b'P'
    then some http_post
    else if ch == b'R'
    then some http_report
    else if ch == b'S'
    then some http_subscribe
    else if ch == b'T'
    then some http_trace
    else if ch == b'U'
    then some http_unlock
    else none

-- The chain of tests in `case s_req_method` for a byte that is not the next one of the method's name,
-- up to the test of `index == 2`; `none` is HPE_INVALID_METHOD.
unfoldable pub other_method : Method → ℕ → ℕ → Option Method
other_method http_connect index ch =
    if index == 1 && ch == b'H'
    then some http_checkout
    else if index == 2 && ch == b'P'
    then some http_copy
    else none
other_method http_mkcol index ch =
    if index == 1 && ch == b'O'
    then some http_move
    else if index == 1 && ch == b'E'
    then some http_merge
    else if index == 1 && ch == b'-'
    then some http_msearch
    else if index == 2 && ch == b'A'
    then some http_mkactivity
    else if index == 3 && ch == b'A'
    then some http_mkcalendar
    else none
other_method http_subscribe index ch = if index == 1 && ch == b'E' then some http_search else none
other_method http_post index ch =
    if index == 1
    then (if ch == b'R'
        then some http_propfind
        else if ch == b'U'
        then some http_put
        else if ch == b'A'
        then some http_patch
        else none)
    else none
other_method http_put index ch = if index == 2 && ch == b'R' then some http_purge else none
other_method http_unlock index ch = if index == 2 && ch == b'S' then some http_unsubscribe else none
other_method http_propfind index ch = if index == 4 && ch == b'P' then some http_proppatch else none
other_method _ index ch = none

-- `matcher[parser->index]`, the name ending in a zero byte.
abbrev pub matcher_at : Method → ℕ → ℕ
matcher_at m index = get_or (method_string m) index 0

module _ {S : Type 0} where
  unfoldable pub start_method : Settings S → Locals S → Option Method → Flow S (Next S)
  unfolding fail
  start_method settings l none =
      fail hpe_invalid_method
        (with_parser (record (fresh l.parser) { method = http_delete; index = 1 }) l)
  start_method settings l (some m) = do
    l' ←
        callback_notify settings.on_message_begin hpe_cb_message_begin (l.p + 1) (
          to_state s_req_method (with_parser (record (fresh l.parser) { method = m; index = 1 }) l))
    next l'

  -- `case s_start_req`.
  unfoldable pub step_start_req : Settings S → Locals S → Flow S (Next S)
  step_start_req settings l =
      if is_crlf l.ch
      then next l
      else if not (is_alpha l.ch)
      then fail hpe_invalid_method (with_parser (fresh l.parser) l)
      else start_method settings l (first_letter l.ch)

  -- `++parser->index; break;`, with the method that the byte calls for.
  unfoldable pub continue_method : Locals S → Option Method → Flow S (Next S)
  unfolding fail
  continue_method l none = fail hpe_invalid_method l
  continue_method l (some m) =
      next (with_parser (record (l.parser) { method = m; index = (l.parser.index + 1) % 256 }) l)

  -- `case s_req_method`.
  unfoldable pub step_req_method : Locals S → Flow S (Next S)
  unfolding fail method_string
  step_req_method l =
      let q = l.parser in
      let want = matcher_at q.method q.index in
      if l.ch == 0
      then fail hpe_invalid_method l
      else if l.ch == b' ' && want == 0
      then continue_method (to_state s_req_spaces_before_url l) (some q.method)
      else if l.ch == want
      then continue_method l (some q.method)
      else continue_method l (other_method q.method q.index l.ch)

  -- `UPDATE_STATE(parse_url_char(CURRENT_STATE(), ch));` and the test of the outcome.
  unfoldable pub url_byte : Locals S → Flow S (Next S)
  unfolding fail
  url_byte l =
      let s = parse_url_char l.p_state l.ch in
      if is_dead s then fail hpe_invalid_url (to_state s l) else next (to_state s l)

  -- `case s_req_spaces_before_url`.
  unfoldable pub step_req_spaces_before_url : Locals S → Flow S (Next S)
  step_req_spaces_before_url l =
      let l' = record l { url_mark = mark_at l.url_mark l.p } in
      if l.ch == b' '
      then next l
      else url_byte (if is_connect l.parser.method then to_state s_req_server_start l' else l')

  -- `case s_req_schema:` to `case s_req_server_start:`.
  unfoldable pub step_req_schema : Locals S → Flow S (Next S)
  unfolding fail
  step_req_schema l = if l.ch == b' ' || is_crlf l.ch then fail hpe_invalid_url l else url_byte l

  -- `case s_req_server:` to `case s_req_fragment:`.
  unfoldable pub step_req_url : Settings S → Locals S → Flow S (Next S)
  step_req_url settings l =
      if l.ch == b' '
      then (do l' ← callback_url settings l.p (l.p + 1) (to_state s_req_http_start l); next l')
      else if is_crlf l.ch
      then (do
        l' ← callback_url settings l.p (l.p + 1) (
            to_state (if l.ch == cr then s_req_line_almost_done else s_header_field_start)
              (with_parser (record (l.parser) { http_major = 0; http_minor = 9 }) l))
        next l')
      else url_byte l

  -- `case s_req_http_start`.
  unfoldable pub step_req_http_start : Locals S → Flow S (Next S)
  unfolding fail
  step_req_http_start l =
      if l.ch == b'H'
      then next (to_state s_req_http_h l)
      else if l.ch == b' '
      then next l
      else fail hpe_invalid_constant l

  -- `case s_req_first_http_major`.
  unfoldable pub step_req_first_http_major : Locals S → Flow S (Next S)
  unfolding fail
  step_req_first_http_major l =
      if ltb l.ch b'1' || ltb b'9' l.ch
      then fail hpe_invalid_version l
      else next (
          to_state s_req_http_major
            (with_parser (record (l.parser) { http_major = l.ch - b'0' }) l))

  -- `case s_req_http_major`.
  unfoldable pub step_req_http_major : Locals S → Flow S (Next S)
  step_req_http_major l =
      if l.ch == b'.' then next (to_state s_req_first_http_minor l) else major_digit l

  -- `case s_req_http_minor`.
  unfoldable pub step_req_http_minor : Locals S → Flow S (Next S)
  step_req_http_minor l =
      if l.ch == cr
      then next (to_state s_req_line_almost_done l)
      else if l.ch == lf
      then next (to_state s_header_field_start l)
      else minor_digit l

  -- `case s_req_line_almost_done`.
  unfoldable pub step_req_line_almost_done : Locals S → Flow S (Next S)
  unfolding fail
  step_req_line_almost_done l =
      if not (l.ch == lf) then fail hpe_lf_expected l else next (to_state s_header_field_start l)
