-- ===== src/Parser/Slices/Dispatch.antt =====
-- The switch of `http_parser_execute` over all its states.
use my_warehouse.Common.{◌^◌, ℕ, ◌<◌, ◌≡◌, List, length}
use my_warehouse.Parser.Chars.{lf}
use my_warehouse.Parser.Enums.{
  State, s_body_identity, s_body_identity_eof, s_chunk_data, s_chunk_data_almost_done,
  s_chunk_data_done, s_chunk_parameters, s_chunk_size, s_chunk_size_almost_done, s_chunk_size_start,
  s_dead, s_header_almost_done, s_header_field, s_header_field_start, s_header_value,
  s_header_value_discard_lws, s_header_value_discard_ws, s_header_value_discard_ws_almost_done,
  s_header_value_lws, s_header_value_start, s_headers_almost_done, s_headers_done, s_message_done,
  s_req_first_http_major, s_req_first_http_minor, s_req_fragment, s_req_fragment_start,
  s_req_http_h, s_req_http_ht, s_req_http_htt, s_req_http_http, s_req_http_major, s_req_http_minor,
  s_req_http_start, s_req_line_almost_done, s_req_method, s_req_path, s_req_query_string,
  s_req_query_string_start, s_req_schema, s_req_schema_slash, s_req_schema_slash_slash,
  s_req_server, s_req_server_start, s_req_server_with_at, s_req_spaces_before_url,
  s_res_first_http_major, s_res_first_http_minor, s_res_first_status_code, s_res_h, s_res_ht,
  s_res_htt, s_res_http, s_res_http_major, s_res_http_minor, s_res_line_almost_done,
  s_res_or_resp_h, s_res_status, s_res_status_code, s_res_status_start, s_start_req,
  s_start_req_or_res, s_start_res,
}
use my_warehouse.Parser.State.{Settings}
use my_warehouse.Parser.Flow.{Locals}
use my_warehouse.Parser.Execute.{dispatch}
use my_warehouse.Parser.Progress.{InRange}
use my_warehouse.Parser.Slices.{Keeps, Marked, Held}
use my_warehouse.Parser.Slices.Lines.{
  expect-Held, first_http_minor-Held, step_dead-Held, step_req_first_http_major-Held,
  step_req_http_major-Held, step_req_http_minor-Held, step_req_http_start-Held,
  step_req_line_almost_done-Held, step_req_method-Held, step_req_schema-Held,
  step_req_spaces_before_url-Held, step_req_url-Held, step_res_first_http_major-Held,
  step_res_first_status_code-Held, step_res_http_major-Held, step_res_http_minor-Held,
  step_res_or_resp_h-Held, step_res_status-Held, step_res_status_code-Held,
  step_res_status_start-Held, step_start_req-Held, step_start_req_or_res-Held, step_start_res-Held,
}
use my_warehouse.Parser.Slices.Headers.{
  step_header_field-Held, step_header_field_start-Held, step_header_value_discard_lws-Held,
  step_header_value_discard_ws-Held, step_header_value_lws-Held, step_header_value_start-Held,
}
use my_warehouse.Parser.Slices.Values.{step_header_value-Held}
use my_warehouse.Parser.Slices.Bodies.{
  step_body_identity-Held, step_body_identity_eof-Held, step_chunk_data-Held,
  step_chunk_data_almost_done-Held, step_chunk_data_done-Held, step_chunk_parameters-Held,
  step_chunk_size-Held, step_chunk_size_almost_done-Held, step_chunk_size_start-Held,
  step_headers_almost_done-Held, step_headers_done-Held, step_message_done-Held,
}

module _ {S : Type 0} (P : S → Type 0) (settings : Settings S) (bytes : List ℕ)
    (keeps : Keeps P settings (length bytes)) (small : length bytes < 2 ^ 64) where
  pub dispatch-Held :
      (s : State) (l : Locals S)
      → l.p_state ≡ s
      → l.p < length bytes
      → InRange l.p_state l.parser
      → P l.app
      → Marked l
      → Held P (dispatch settings bytes s l)
  unfolding dispatch
  dispatch-Held s_dead l e i inv h m = step_dead-Held P settings (length bytes) keeps small l i h m
  dispatch-Held s_start_req_or_res l e i inv h m =
      step_start_req_or_res-Held P settings (length bytes) keeps small l i h m
  dispatch-Held s_res_or_resp_h l e i inv h m =
      step_res_or_resp_h-Held P settings (length bytes) keeps small l i h m
  dispatch-Held s_start_res l e i inv h m =
      step_start_res-Held P settings (length bytes) keeps small l i h m
  dispatch-Held s_res_h l e i inv h m =
      expect-Held P settings (length bytes) keeps small l i h m b'T' s_res_ht
  dispatch-Held s_res_ht l e i inv h m =
      expect-Held P settings (length bytes) keeps small l i h m b'T' s_res_htt
  dispatch-Held s_res_htt l e i inv h m =
      expect-Held P settings (length bytes) keeps small l i h m b'P' s_res_http
  dispatch-Held s_res_http l e i inv h m =
      expect-Held P settings (length bytes) keeps small l i h m b'/' s_res_first_http_major
  dispatch-Held s_res_first_http_major l e i inv h m =
      step_res_first_http_major-Held P settings (length bytes) keeps small l i h m
  dispatch-Held s_res_http_major l e i inv h m =
      step_res_http_major-Held P settings (length bytes) keeps small l i h m
  dispatch-Held s_res_first_http_minor l e i inv h m =
      first_http_minor-Held P settings (length bytes) keeps small l i h m s_res_http_minor
  dispatch-Held s_res_http_minor l e i inv h m =
      step_res_http_minor-Held P settings (length bytes) keeps small l i h m
  dispatch-Held s_res_first_status_code l e i inv h m =
      step_res_first_status_code-Held P settings (length bytes) keeps small l i h m
  dispatch-Held s_res_status_code l e i inv h m =
      step_res_status_code-Held P settings (length bytes) keeps small l i h m
  dispatch-Held s_res_status_start l e i inv h m =
      step_res_status_start-Held P settings (length bytes) keeps small l i h m
  dispatch-Held s_res_status l e i inv h m =
      step_res_status-Held P settings (length bytes) keeps small l i h m
  dispatch-Held s_res_line_almost_done l e i inv h m =
      expect-Held P settings (length bytes) keeps small l i h m lf s_header_field_start
  dispatch-Held s_start_req l e i inv h m =
      step_start_req-Held P settings (length bytes) keeps small l i h m
  dispatch-Held s_req_method l e i inv h m =
      step_req_method-Held P settings (length bytes) keeps small l i h m
  dispatch-Held s_req_spaces_before_url l e i inv h m =
      step_req_spaces_before_url-Held P settings (length bytes) keeps small l i h m
  dispatch-Held s_req_schema l e i inv h m =
      step_req_schema-Held P settings (length bytes) keeps small l i h m
  dispatch-Held s_req_schema_slash l e i inv h m =
      step_req_schema-Held P settings (length bytes) keeps small l i h m
  dispatch-Held s_req_schema_slash_slash l e i inv h m =
      step_req_schema-Held P settings (length bytes) keeps small l i h m
  dispatch-Held s_req_server_start l e i inv h m =
      step_req_schema-Held P settings (length bytes) keeps small l i h m
  dispatch-Held s_req_server l e i inv h m =
      step_req_url-Held P settings (length bytes) keeps small l i h m
  dispatch-Held s_req_server_with_at l e i inv h m =
      step_req_url-Held P settings (length bytes) keeps small l i h m
  dispatch-Held s_req_path l e i inv h m =
      step_req_url-Held P settings (length bytes) keeps small l i h m
  dispatch-Held s_req_query_string_start l e i inv h m =
      step_req_url-Held P settings (length bytes) keeps small l i h m
  dispatch-Held s_req_query_string l e i inv h m =
      step_req_url-Held P settings (length bytes) keeps small l i h m
  dispatch-Held s_req_fragment_start l e i inv h m =
      step_req_url-Held P settings (length bytes) keeps small l i h m
  dispatch-Held s_req_fragment l e i inv h m =
      step_req_url-Held P settings (length bytes) keeps small l i h m
  dispatch-Held s_req_http_start l e i inv h m =
      step_req_http_start-Held P settings (length bytes) keeps small l i h m
  dispatch-Held s_req_http_h l e i inv h m =
      expect-Held P settings (length bytes) keeps small l i h m b'T' s_req_http_ht
  dispatch-Held s_req_http_ht l e i inv h m =
      expect-Held P settings (length bytes) keeps small l i h m b'T' s_req_http_htt
  dispatch-Held s_req_http_htt l e i inv h m =
      expect-Held P settings (length bytes) keeps small l i h m b'P' s_req_http_http
  dispatch-Held s_req_http_http l e i inv h m =
      expect-Held P settings (length bytes) keeps small l i h m b'/' s_req_first_http_major
  dispatch-Held s_req_first_http_major l e i inv h m =
      step_req_first_http_major-Held P settings (length bytes) keeps small l i h m
  dispatch-Held s_req_http_major l e i inv h m =
      step_req_http_major-Held P settings (length bytes) keeps small l i h m
  dispatch-Held s_req_first_http_minor l e i inv h m =
      first_http_minor-Held P settings (length bytes) keeps small l i h m s_req_http_minor
  dispatch-Held s_req_http_minor l e i inv h m =
      step_req_http_minor-Held P settings (length bytes) keeps small l i h m
  dispatch-Held s_req_line_almost_done l e i inv h m =
      step_req_line_almost_done-Held P settings (length bytes) keeps small l i h m
  dispatch-Held s_header_field_start l e i inv h m =
      step_header_field_start-Held P settings bytes keeps small l i h m
  dispatch-Held s_header_field l e i inv h m =
      step_header_field-Held P settings bytes keeps small l i h m
  dispatch-Held s_header_value_discard_ws l e i inv h m =
      step_header_value_discard_ws-Held P settings bytes keeps small l i h m
  dispatch-Held s_header_value_start l e i inv h m =
      step_header_value_start-Held P settings bytes keeps small l i h m
  dispatch-Held s_header_value l e i inv h m =
      step_header_value-Held P settings bytes keeps small l i h m e inv
  dispatch-Held s_header_almost_done l e i inv h m =
      expect-Held P settings (length bytes) keeps small l i h m lf s_header_value_lws
  dispatch-Held s_header_value_lws l e i inv h m =
      step_header_value_lws-Held P settings bytes keeps small l i h m
  dispatch-Held s_header_value_discard_ws_almost_done l e i inv h m =
      expect-Held P settings (length bytes) keeps small l i h m lf s_header_value_discard_lws
  dispatch-Held s_header_value_discard_lws l e i inv h m =
      step_header_value_discard_lws-Held P settings bytes keeps small l i h m
  dispatch-Held s_headers_almost_done l e i inv h m =
      step_headers_almost_done-Held P settings bytes keeps small l i h m
  dispatch-Held s_headers_done l e i inv h m =
      step_headers_done-Held P settings bytes keeps small l i h m
  dispatch-Held s_body_identity l e i inv h m =
      step_body_identity-Held P settings bytes keeps small l i h m (inv.body_left (rw e))
  dispatch-Held s_body_identity_eof l e i inv h m =
      step_body_identity_eof-Held P settings bytes keeps small l i h m
  dispatch-Held s_message_done l e i inv h m =
      step_message_done-Held P settings bytes keeps small l i h m
  dispatch-Held s_chunk_size_start l e i inv h m =
      step_chunk_size_start-Held P settings bytes keeps small l i h m
  dispatch-Held s_chunk_size l e i inv h m =
      step_chunk_size-Held P settings bytes keeps small l i h m
  dispatch-Held s_chunk_parameters l e i inv h m =
      step_chunk_parameters-Held P settings bytes keeps small l i h m
  dispatch-Held s_chunk_size_almost_done l e i inv h m =
      step_chunk_size_almost_done-Held P settings bytes keeps small l i h m
  dispatch-Held s_chunk_data l e i inv h m =
      step_chunk_data-Held P settings bytes keeps small l i h m (inv.body_left (rw e))
  dispatch-Held s_chunk_data_almost_done l e i inv h m =
      step_chunk_data_almost_done-Held P settings bytes keeps small l i h m
  dispatch-Held s_chunk_data_done l e i inv h m =
      step_chunk_data_done-Held P settings bytes keeps small l i h m
