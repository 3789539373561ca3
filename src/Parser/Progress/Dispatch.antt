-- ===== src/Parser/Progress/Dispatch.antt =====
-- The switch of `http_parser_execute` over all its states.
use my_warehouse.Common.{ℕ, ◌<◌, ◌≡◌, refl, arith, List, length}
use my_warehouse.Parser.Chars.{lf}
use my_warehouse.Parser.Enums.{
  State, s_body_identity, s_body_identity_eof, s_chunk_data, s_chunk_data_almost_done,
  s_chunk_data_done, s_chunk_parameters, s_chunk_size, s_chunk_size_almost_done, s_chunk_size_start,
  s_dead, s_header_almost_done, s_header_field, s_header_field_start, s_header_value,
  s_header_value_discard_lws, s_header_value_discard_ws, s_header_value_discard_ws_almost_done,
  s_header_value_lws, s_header_value_start, s_headers_almost_done, s_headers_done, s_message_done,
  s_req_first_http_major, s_req_first_http_minor, s_req_fragment, s_req_fragment_start,
  s_req_http_h, s_req_http_ht, s_req_http_htt, s_req_http_http, s_req_http_major, s_req_http_minor,
  s_req_http_start, s_req_line_almost_done, s_req_method, s_req_path, s_req_query_string,
  s_req_query_string_start, s_req_schema, s_req_schema_slash, s_req_schema_slash_slash,
  s_req_server, s_req_server_start, s_req_server_with_at, s_req_spaces_before_url,
  s_res_first_http_major, s_res_first_http_minor, s_res_first_status_code, s_res_h, s_res_ht,
  s_res_htt, s_res_http, s_res_http_major, s_res_http_minor, s_res_line_almost_done,
  s_res_or_resp_h, s_res_status, s_res_status_code, s_res_status_start, s_start_req,
  s_start_req_or_res, s_start_res,
}
use my_warehouse.Parser.State.{Settings}
use my_warehouse.Parser.Flow.{Locals}
use my_warehouse.Parser.Execute.{dispatch, state_fuel}
use my_warehouse.Parser.Progress.{InRange, Progress, rank}
use my_warehouse.Parser.Progress.Lines.{
  expect-Progress, first_http_minor-Progress, step_dead-Progress,
  step_req_first_http_major-Progress, step_req_http_major-Progress, step_req_http_minor-Progress,
  step_req_http_start-Progress, step_req_line_almost_done-Progress, step_req_method-Progress,
  step_req_schema-Progress, step_req_spaces_before_url-Progress, step_req_url-Progress,
  step_res_first_http_major-Progress, step_res_first_status_code-Progress,
  step_res_http_major-Progress, step_res_http_minor-Progress, step_res_or_resp_h-Progress,
  step_res_status-Progress, step_res_status_code-Progress, step_res_status_start-Progress,
  step_start_req-Progress, step_start_req_or_res-Progress, step_start_res-Progress,
}
use my_warehouse.Parser.Progress.Headers.{
  step_header_field-Progress, step_header_field_start-Progress,
  step_header_value_discard_lws-Progress, step_header_value_discard_ws-Progress,
  step_header_value_lws-Progress, step_header_value_start-Progress,
}
use my_warehouse.Parser.Progress.Values.{step_header_value-Progress}
use my_warehouse.Parser.Progress.Bodies.{
  step_body_identity-Progress, step_body_identity_eof-Progress, step_chunk_data-Progress,
  step_chunk_data_almost_done-Progress, step_chunk_data_done-Progress,
  step_chunk_parameters-Progress, step_chunk_size-Progress, step_chunk_size_almost_done-Progress,
  step_chunk_size_start-Progress, step_headers_almost_done-Progress, step_headers_done-Progress,
  step_message_done-Progress,
}

module _ {S : Type 0} (settings : Settings S) (bytes : List ℕ) where
  pub dispatch-Progress :
      (s : State) (l : Locals S)
      → l.p_state ≡ s
      → l.p < length bytes
      → InRange l.p_state l.parser
      → Progress (length bytes) l (dispatch settings bytes s l)
  unfolding dispatch
  dispatch-Progress s_dead l e i inv = step_dead-Progress settings (length bytes) l i inv
  dispatch-Progress s_start_req_or_res l e i inv =
      step_start_req_or_res-Progress settings (length bytes) l i inv e
  dispatch-Progress s_res_or_resp_h l e i inv =
      step_res_or_resp_h-Progress settings (length bytes) l i inv
  dispatch-Progress s_start_res l e i inv = step_start_res-Progress settings (length bytes) l i inv
  dispatch-Progress s_res_h l e i inv =
      expect-Progress settings (length bytes) l i inv b'T' s_res_ht refl
  dispatch-Progress s_res_ht l e i inv =
      expect-Progress settings (length bytes) l i inv b'T' s_res_htt refl
  dispatch-Progress s_res_htt l e i inv =
      expect-Progress settings (length bytes) l i inv b'P' s_res_http refl
  dispatch-Progress s_res_http l e i inv =
      expect-Progress settings (length bytes) l i inv b'/' s_res_first_http_major refl
  dispatch-Progress s_res_first_http_major l e i inv =
      step_res_first_http_major-Progress settings (length bytes) l i inv
  dispatch-Progress s_res_http_major l e i inv =
      step_res_http_major-Progress settings (length bytes) l i inv
  dispatch-Progress s_res_first_http_minor l e i inv =
      first_http_minor-Progress settings (length bytes) l i inv s_res_http_minor refl
  dispatch-Progress s_res_http_minor l e i inv =
      step_res_http_minor-Progress settings (length bytes) l i inv
  dispatch-Progress s_res_first_status_code l e i inv =
      step_res_first_status_code-Progress settings (length bytes) l i inv
  dispatch-Progress s_res_status_code l e i inv =
      step_res_status_code-Progress settings (length bytes) l i inv
  dispatch-Progress s_res_status_start l e i inv =
      step_res_status_start-Progress settings (length bytes) l i inv
  dispatch-Progress s_res_status l e i inv =
      step_res_status-Progress settings (length bytes) l i inv
  dispatch-Progress s_res_line_almost_done l e i inv =
      expect-Progress settings (length bytes) l i inv lf s_header_field_start refl
  dispatch-Progress s_start_req l e i inv = step_start_req-Progress settings (length bytes) l i inv
  dispatch-Progress s_req_method l e i inv =
      step_req_method-Progress settings (length bytes) l i inv e
  dispatch-Progress s_req_spaces_before_url l e i inv =
      step_req_spaces_before_url-Progress settings (length bytes) l i inv (rw e)
  dispatch-Progress s_req_schema l e i inv =
      step_req_schema-Progress settings (length bytes) l i inv (rw e)
  dispatch-Progress s_req_schema_slash l e i inv =
      step_req_schema-Progress settings (length bytes) l i inv (rw e)
  dispatch-Progress s_req_schema_slash_slash l e i inv =
      step_req_schema-Progress settings (length bytes) l i inv (rw e)
  dispatch-Progress s_req_server_start l e i inv =
      step_req_schema-Progress settings (length bytes) l i inv (rw e)
  dispatch-Progress s_req_server l e i inv =
      step_req_url-Progress settings (length bytes) l i inv (rw e)
  dispatch-Progress s_req_server_with_at l e i inv =
      step_req_url-Progress settings (length bytes) l i inv (rw e)
  dispatch-Progress s_req_path l e i inv =
      step_req_url-Progress settings (length bytes) l i inv (rw e)
  dispatch-Progress s_req_query_string_start l e i inv =
      step_req_url-Progress settings (length bytes) l i inv (rw e)
  dispatch-Progress s_req_query_string l e i inv =
      step_req_url-Progress settings (length bytes) l i inv (rw e)
  dispatch-Progress s_req_fragment_start l e i inv =
      step_req_url-Progress settings (length bytes) l i inv (rw e)
  dispatch-Progress s_req_fragment l e i inv =
      step_req_url-Progress settings (length bytes) l i inv (rw e)
  dispatch-Progress s_req_http_start l e i inv =
      step_req_http_start-Progress settings (length bytes) l i inv
  dispatch-Progress s_req_http_h l e i inv =
      expect-Progress settings (length bytes) l i inv b'T' s_req_http_ht refl
  dispatch-Progress s_req_http_ht l e i inv =
      expect-Progress settings (length bytes) l i inv b'T' s_req_http_htt refl
  dispatch-Progress s_req_http_htt l e i inv =
      expect-Progress settings (length bytes) l i inv b'P' s_req_http_http refl
  dispatch-Progress s_req_http_http l e i inv =
      expect-Progress settings (length bytes) l i inv b'/' s_req_first_http_major refl
  dispatch-Progress s_req_first_http_major l e i inv =
      step_req_first_http_major-Progress settings (length bytes) l i inv
  dispatch-Progress s_req_http_major l e i inv =
      step_req_http_major-Progress settings (length bytes) l i inv
  dispatch-Progress s_req_first_http_minor l e i inv =
      first_http_minor-Progress settings (length bytes) l i inv s_req_http_minor refl
  dispatch-Progress s_req_http_minor l e i inv =
      step_req_http_minor-Progress settings (length bytes) l i inv
  dispatch-Progress s_req_line_almost_done l e i inv =
      step_req_line_almost_done-Progress settings (length bytes) l i inv
  dispatch-Progress s_header_field_start l e i inv =
      step_header_field_start-Progress settings (length bytes) l i inv e
  dispatch-Progress s_header_field l e i inv =
      step_header_field-Progress settings bytes l i inv (rw e)
  dispatch-Progress s_header_value_discard_ws l e i inv =
      step_header_value_discard_ws-Progress settings (length bytes) l i inv (rw e)
  dispatch-Progress s_header_value_start l e i inv =
      step_header_value_start-Progress settings (length bytes) l i inv
  dispatch-Progress s_header_value l e i inv = step_header_value-Progress settings bytes l i inv e
  dispatch-Progress s_header_almost_done l e i inv =
      expect-Progress settings (length bytes) l i inv lf s_header_value_lws refl
  dispatch-Progress s_header_value_lws l e i inv =
      step_header_value_lws-Progress settings (length bytes) l i inv e
  dispatch-Progress s_header_value_discard_ws_almost_done l e i inv =
      expect-Progress settings (length bytes) l i inv lf s_header_value_discard_lws refl
  dispatch-Progress s_header_value_discard_lws l e i inv =
      step_header_value_discard_lws-Progress settings (length bytes) l i inv e
  dispatch-Progress s_headers_almost_done l e i inv =
      step_headers_almost_done-Progress settings bytes l i inv e
  dispatch-Progress s_headers_done l e i inv = step_headers_done-Progress settings bytes l i inv e
  dispatch-Progress s_body_identity l e i inv = step_body_identity-Progress settings bytes l i inv e
  dispatch-Progress s_body_identity_eof l e i inv =
      step_body_identity_eof-Progress settings bytes l i inv (rw e)
  dispatch-Progress s_message_done l e i inv = step_message_done-Progress settings bytes l i inv
  dispatch-Progress s_chunk_size_start l e i inv =
      step_chunk_size_start-Progress settings bytes l i inv
  dispatch-Progress s_chunk_size l e i inv = step_chunk_size-Progress settings bytes l i inv (rw e)
  dispatch-Progress s_chunk_parameters l e i inv =
      step_chunk_parameters-Progress settings bytes l i inv
  dispatch-Progress s_chunk_size_almost_done l e i inv =
      step_chunk_size_almost_done-Progress settings bytes l i inv
  dispatch-Progress s_chunk_data l e i inv = step_chunk_data-Progress settings bytes l i inv e
  dispatch-Progress s_chunk_data_almost_done l e i inv =
      step_chunk_data_almost_done-Progress settings bytes l i inv
  dispatch-Progress s_chunk_data_done l e i inv =
      step_chunk_data_done-Progress settings bytes l i inv

-- The switch is entered at most `state_fuel` times for a byte.
pub rank-fuel : (s : State) → rank s < state_fuel
rank-fuel s_dead = omega arith
rank-fuel s_start_req_or_res = omega arith
rank-fuel s_res_or_resp_h = omega arith
rank-fuel s_start_res = omega arith
rank-fuel s_res_h = omega arith
rank-fuel s_res_ht = omega arith
rank-fuel s_res_htt = omega arith
rank-fuel s_res_http = omega arith
rank-fuel s_res_first_http_major = omega arith
rank-fuel s_res_http_major = omega arith
rank-fuel s_res_first_http_minor = omega arith
rank-fuel s_res_http_minor = omega arith
rank-fuel s_res_first_status_code = omega arith
rank-fuel s_res_status_code = omega arith
rank-fuel s_res_status_start = omega arith
rank-fuel s_res_status = omega arith
rank-fuel s_res_line_almost_done = omega arith
rank-fuel s_start_req = omega arith
rank-fuel s_req_method = omega arith
rank-fuel s_req_spaces_before_url = omega arith
rank-fuel s_req_schema = omega arith
rank-fuel s_req_schema_slash = omega arith
rank-fuel s_req_schema_slash_slash = omega arith
rank-fuel s_req_server_start = omega arith
rank-fuel s_req_server = omega arith
rank-fuel s_req_server_with_at = omega arith
rank-fuel s_req_path = omega arith
rank-fuel s_req_query_string_start = omega arith
rank-fuel s_req_query_string = omega arith
rank-fuel s_req_fragment_start = omega arith
rank-fuel s_req_fragment = omega arith
rank-fuel s_req_http_start = omega arith
rank-fuel s_req_http_h = omega arith
rank-fuel s_req_http_ht = omega arith
rank-fuel s_req_http_htt = omega arith
rank-fuel s_req_http_http = omega arith
rank-fuel s_req_first_http_major = omega arith
rank-fuel s_req_http_major = omega arith
rank-fuel s_req_first_http_minor = omega arith
rank-fuel s_req_http_minor = omega arith
rank-fuel s_req_line_almost_done = omega arith
rank-fuel s_header_field_start = omega arith
rank-fuel s_header_field = omega arith
rank-fuel s_header_value_discard_ws = omega arith
rank-fuel s_header_value_discard_ws_almost_done = omega arith
rank-fuel s_header_value_discard_lws = omega arith
rank-fuel s_header_value_start = omega arith
rank-fuel s_header_value = omega arith
rank-fuel s_header_value_lws = omega arith
rank-fuel s_header_almost_done = omega arith
rank-fuel s_chunk_size_start = omega arith
rank-fuel s_chunk_size = omega arith
rank-fuel s_chunk_parameters = omega arith
rank-fuel s_chunk_size_almost_done = omega arith
rank-fuel s_headers_almost_done = omega arith
rank-fuel s_headers_done = omega arith
rank-fuel s_chunk_data = omega arith
rank-fuel s_chunk_data_almost_done = omega arith
rank-fuel s_chunk_data_done = omega arith
rank-fuel s_body_identity = omega arith
rank-fuel s_body_identity_eof = omega arith
rank-fuel s_message_done = omega arith
