-- ===== src/Parser/Execute.antt =====
-- `http_parser_execute`: the switch on the state, `goto reexecute`, the loop over the bytes, and what
-- stands before and behind it.
use my_warehouse.Common.{
  ℕ, zero, suc, ◌+◌, Bool, true, false, Option, none, some, List, get_or, length, ◌==◌,
  if◌then◌else◌,
}
use my_warehouse.Parser.Chars.{lf}
use my_warehouse.Parser.Enums.{
  State, parsing_header, hpe_invalid_eof_state, hpe_cb_message_complete, is_ok, s_dead,
  s_start_req_or_res, s_res_or_resp_h, s_start_res, s_res_h, s_res_ht, s_res_htt, s_res_http,
  s_res_first_http_major, s_res_http_major, s_res_first_http_minor, s_res_http_minor,
  s_res_first_status_code, s_res_status_code, s_res_status_start, s_res_status,
  s_res_line_almost_done, s_start_req, s_req_method, s_req_spaces_before_url, s_req_schema,
  s_req_schema_slash, s_req_schema_slash_slash, s_req_server_start, s_req_server,
  s_req_server_with_at, s_req_path, s_req_query_string_start, s_req_query_string,
  s_req_fragment_start, s_req_fragment, s_req_http_start, s_req_http_h, s_req_http_ht,
  s_req_http_htt, s_req_http_http, s_req_first_http_major, s_req_http_major, s_req_first_http_minor,
  s_req_http_minor, s_req_line_almost_done, s_header_field_start, s_header_field,
  s_header_value_discard_ws, s_header_value_discard_ws_almost_done, s_header_value_discard_lws,
  s_header_value_start, s_header_value, s_header_value_lws, s_header_almost_done,
  s_chunk_size_start, s_chunk_size, s_chunk_parameters, s_chunk_size_almost_done,
  s_headers_almost_done, s_headers_done, s_chunk_data, s_chunk_data_almost_done, s_chunk_data_done,
  s_body_identity, s_body_identity_eof, s_message_done,
}
use my_warehouse.Parser.State.{Parser, Settings}
use my_warehouse.Parser.Flow.{
  Locals, Flow, Next, continue, leave, spinning, advance, reexecute, ◌>>=◌, return_at,
  count_header_size, callback_notify, callback_status, callback_url, callback_header_field,
  callback_header_value, callback_body,
}
use my_warehouse.Parser.Response.{
  step_dead, step_start_req_or_res, step_res_or_resp_h, step_start_res, expect,
  step_res_first_http_major, step_res_http_major, first_http_minor, step_res_http_minor,
  step_res_first_status_code, step_res_status_code, step_res_status_start, step_res_status,
}
use my_warehouse.Parser.Request.{
  step_start_req, step_req_method, step_req_spaces_before_url, step_req_schema, step_req_url,
  step_req_http_start, step_req_first_http_major, step_req_http_major, step_req_http_minor,
  step_req_line_almost_done,
}
use my_warehouse.Parser.Header.{step_header_field_start, step_header_field}
use my_warehouse.Parser.Value.{
  step_header_value_start, step_header_value_discard_ws, step_header_value, step_header_value_lws,
  step_header_value_discard_lws,
}
use my_warehouse.Parser.Body.{
  step_headers_almost_done, step_headers_done, step_body_identity, step_body_identity_eof,
  step_message_done, step_chunk_size_start, step_chunk_size, step_chunk_parameters,
  step_chunk_size_almost_done, step_chunk_data, step_chunk_data_almost_done, step_chunk_data_done,
}

-- The number of times that one byte can pass through the switch.
abbrev pub state_fuel : ℕ
state_fuel = 4

-- The marks set by the state in which the call begins.
abbrev pub url_open : State → Option ℕ
url_open s_req_path = some 0
url_open s_req_schema = some 0
url_open s_req_schema_slash = some 0
url_open s_req_schema_slash_slash = some 0
url_open s_req_server_start = some 0
url_open s_req_server = some 0
url_open s_req_server_with_at = some 0
url_open s_req_query_string_start = some 0
url_open s_req_query_string = some 0
url_open s_req_fragment_start = some 0
url_open s_req_fragment = some 0
url_open _ = none

abbrev pub field_open : State → Option ℕ
field_open s_header_field = some 0
field_open _ = none

abbrev pub value_open : State → Option ℕ
value_open s_header_value = some 0
value_open _ = none

abbrev pub status_open : State → Option ℕ
status_open s_res_status = some 0
status_open _ = none

-- The local variables at the start.
unfoldable pub enter : {S : Type 0} → Parser → S → Locals S
enter q s = record {
  parser = q;
  p_state = q.state;
  p = 0;
  ch = 0;
  header_field_mark = field_open q.state;
  header_value_mark = value_open q.state;
  url_mark = url_open q.state;
  body_mark = none;
  status_mark = status_open q.state;
  app = s;
}

module _ {S : Type 0} (settings : Settings S) (bytes : List ℕ) where
  -- `switch (CURRENT_STATE())`.
  unfoldable pub dispatch : State → Locals S → Flow S (Next S)
  dispatch s_dead l = step_dead l
  dispatch s_start_req_or_res l = step_start_req_or_res settings l
  dispatch s_res_or_resp_h l = step_res_or_resp_h l
  dispatch s_start_res l = step_start_res settings l
  dispatch s_res_h l = expect b'T' s_res_ht l
  dispatch s_res_ht l = expect b'T' s_res_htt l
  dispatch s_res_htt l = expect b'P' s_res_http l
  dispatch s_res_http l = expect b'/' s_res_first_http_major l
  dispatch s_res_first_http_major l = step_res_first_http_major l
  dispatch s_res_http_major l = step_res_http_major l
  dispatch s_res_first_http_minor l = first_http_minor s_res_http_minor l
  dispatch s_res_http_minor l = step_res_http_minor l
  dispatch s_res_first_status_code l = step_res_first_status_code l
  dispatch s_res_status_code l = step_res_status_code l
  dispatch s_res_status_start l = step_res_status_start l
  dispatch s_res_status l = step_res_status settings l
  dispatch s_res_line_almost_done l = expect lf s_header_field_start l
  dispatch s_start_req l = step_start_req settings l
  dispatch s_req_method l = step_req_method l
  dispatch s_req_spaces_before_url l = step_req_spaces_before_url l
  dispatch s_req_schema l = step_req_schema l
  dispatch s_req_schema_slash l = step_req_schema l
  dispatch s_req_schema_slash_slash l = step_req_schema l
  dispatch s_req_server_start l = step_req_schema l
  dispatch s_req_server l = step_req_url settings l
  dispatch s_req_server_with_at l = step_req_url settings l
  dispatch s_req_path l = step_req_url settings l
  dispatch s_req_query_string_start l = step_req_url settings l
  dispatch s_req_query_string l = step_req_url settings l
  dispatch s_req_fragment_start l = step_req_url settings l
  dispatch s_req_fragment l = step_req_url settings l
  dispatch s_req_http_start l = step_req_http_start l
  dispatch s_req_http_h l = expect b'T' s_req_http_ht l
  dispatch s_req_http_ht l = expect b'T' s_req_http_htt l
  dispatch s_req_http_htt l = expect b'P' s_req_http_http l
  dispatch s_req_http_http l = expect b'/' s_req_first_http_major l
  dispatch s_req_first_http_major l = step_req_first_http_major l
  dispatch s_req_http_major l = step_req_http_major l
  dispatch s_req_first_http_minor l = first_http_minor s_req_http_minor l
  dispatch s_req_http_minor l = step_req_http_minor l
  dispatch s_req_line_almost_done l = step_req_line_almost_done l
  dispatch s_header_field_start l = step_header_field_start l
  dispatch s_header_field l = step_header_field settings bytes l
  dispatch s_header_value_discard_ws l = step_header_value_discard_ws l
  dispatch s_header_value_start l = step_header_value_start l
  dispatch s_header_value l = step_header_value settings bytes l
  dispatch s_header_almost_done l = expect lf s_header_value_lws l
  dispatch s_header_value_lws l = step_header_value_lws l
  dispatch s_header_value_discard_ws_almost_done l = expect lf s_header_value_discard_lws l
  dispatch s_header_value_discard_lws l = step_header_value_discard_lws settings l
  dispatch s_headers_almost_done l = step_headers_almost_done settings l
  dispatch s_headers_done l = step_headers_done settings l
  dispatch s_body_identity l = step_body_identity settings bytes l
  dispatch s_body_identity_eof l = step_body_identity_eof bytes l
  dispatch s_message_done l = step_message_done settings l
  dispatch s_chunk_size_start l = step_chunk_size_start l
  dispatch s_chunk_size l = step_chunk_size l
  dispatch s_chunk_parameters l = step_chunk_parameters l
  dispatch s_chunk_size_almost_done l = step_chunk_size_almost_done settings l
  dispatch s_chunk_data l = step_chunk_data bytes l
  dispatch s_chunk_data_almost_done l = step_chunk_data_almost_done settings l
  dispatch s_chunk_data_done l = step_chunk_data_done settings l

  -- The switch, again after each `goto reexecute`.
  unfoldable pub run_states : ℕ → Locals S → Flow S (Locals S)
  run_states zero l = spinning
  run_states (suc n) l = elim (dispatch l.p_state l) [
    | continue (advance l') ↦ continue l'
    | continue (reexecute l') ↦ run_states n l'
    | leave q s r ↦ leave q s r
    | spinning ↦ spinning
  ]

  -- The body of the `for`: read a byte, count it while in the headers, and run the switch.
  unfoldable pub visit : Locals S → Flow S (Locals S)
  visit l =
      let l₁ = record l { ch = get_or bytes l.p 0 } in
      if parsing_header l.p_state
      then (do l₂ ← count_header_size 1 l₁; run_states state_fuel l₂)
      else run_states state_fuel l₁

  -- The callbacks for the marks left over, and `RETURN(len)`.
  unfoldable pub finish : Locals S → Flow S (Locals S)
  finish l = do
    l₁ ← callback_header_field settings l.p l.p l
    l₂ ← callback_header_value settings l.p l.p l₁
    l₃ ← callback_url settings l.p l.p l₂
    l₄ ← callback_body settings l.p l.p l₃
    l₅ ← callback_status settings l.p l.p l₄
    return_at (length bytes) l₅

  -- The `for` over the bytes. The fuel is the number of bytes left.
  unfoldable pub run_bytes : ℕ → Locals S → Flow S (Locals S)
  run_bytes zero l = if l.p == length bytes then finish l else spinning
  run_bytes (suc n) l =
      let rest : Flow S (Locals S) = elim (visit l) [
        | continue l' ↦ run_bytes n (record l' { p = l'.p + 1 })
        | leave q s r ↦ leave q s r
        | spinning ↦ spinning
      ] in
      if l.p == length bytes then finish l else rest

  -- The switch for `len == 0`, which reports the end of the stream.
  unfoldable pub end_of_stream : State → Locals S → Flow S (Locals S)
  end_of_stream s_body_identity_eof l = do
    l' ← callback_notify settings.on_message_complete hpe_cb_message_complete l.p l
    leave l'.parser l'.app 0
  end_of_stream s_dead l = leave l.parser l.app 0
  end_of_stream s_start_req_or_res l = leave l.parser l.app 0
  end_of_stream s_start_res l = leave l.parser l.app 0
  end_of_stream s_start_req l = leave l.parser l.app 0
  end_of_stream _ l = leave (record (l.parser) { http_errno = hpe_invalid_eof_state }) l.app 1

  -- `http_parser_execute`.
  unfoldable pub http_parser_execute : Parser → S → Flow S (Locals S)
  http_parser_execute q s =
      let l = enter q s in
      if not_ok q
      then leave q s 0
      else if length bytes == 0
      then end_of_stream q.state l
      else run_bytes (length bytes) l
    where
      not_ok : Parser → Bool
      not_ok r = if is_ok r.http_errno then false else true
