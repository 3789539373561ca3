-- ===== src/Parser/Enums.antt =====
-- The enumerations of http_parser.h and http_parser.c: parser types, methods, error numbers, parser
-- states, header states and URL fields. A state's number is its place in the C enumeration.
use my_warehouse.Common.{ℕ, Bool, leb, List, [], ◌∷◌}

-- `enum http_parser_type`.
pub data ParserType : Type 0 where
  http_request http_response http_both : ParserType

-- `enum http_method`.
pub data Method : Type 0 where
  http_delete http_get http_head http_post http_put http_connect http_options : Method
  http_trace http_copy http_lock http_mkcol http_move http_propfind http_proppatch : Method
  http_search http_unlock http_report http_mkactivity http_checkout http_merge : Method
  http_msearch http_notify http_subscribe http_unsubscribe http_patch http_purge : Method
  http_mkcalendar : Method

-- `enum http_errno`.
pub data Errno : Type 0 where
  hpe_ok hpe_cb_message_begin hpe_cb_url hpe_cb_header_field hpe_cb_header_value : Errno
  hpe_cb_headers_complete hpe_cb_body hpe_cb_message_complete hpe_cb_status : Errno
  hpe_cb_chunk_header hpe_cb_chunk_complete hpe_invalid_eof_state hpe_header_overflow : Errno
  hpe_closed_connection hpe_invalid_version hpe_invalid_status hpe_invalid_method : Errno
  hpe_invalid_url hpe_invalid_host hpe_invalid_port hpe_invalid_path : Errno
  hpe_invalid_query_string hpe_invalid_fragment hpe_lf_expected hpe_invalid_header_token : Errno
  hpe_invalid_content_length hpe_invalid_chunk_size hpe_invalid_constant : Errno
  hpe_invalid_internal_state hpe_strict hpe_paused hpe_unknown : Errno

-- `enum state`.
pub data State : Type 0 where
  s_dead s_start_req_or_res s_res_or_resp_h s_start_res s_res_h s_res_ht s_res_htt : State
  s_res_http s_res_first_http_major s_res_http_major s_res_first_http_minor : State
  s_res_http_minor s_res_first_status_code s_res_status_code s_res_status_start : State
  s_res_status s_res_line_almost_done s_start_req s_req_method s_req_spaces_before_url : State
  s_req_schema s_req_schema_slash s_req_schema_slash_slash s_req_server_start : State
  s_req_server s_req_server_with_at s_req_path s_req_query_string_start : State
  s_req_query_string s_req_fragment_start s_req_fragment s_req_http_start s_req_http_h : State
  s_req_http_ht s_req_http_htt s_req_http_http s_req_first_http_major s_req_http_major : State
  s_req_first_http_minor s_req_http_minor s_req_line_almost_done s_header_field_start : State
  s_header_field s_header_value_discard_ws s_header_value_discard_ws_almost_done : State
  s_header_value_discard_lws s_header_value_start s_header_value s_header_value_lws : State
  s_header_almost_done s_chunk_size_start s_chunk_size s_chunk_parameters : State
  s_chunk_size_almost_done s_headers_almost_done s_headers_done s_chunk_data : State
  s_chunk_data_almost_done s_chunk_data_done s_body_identity s_body_identity_eof : State
  s_message_done : State

-- `enum header_states`.
pub data HeaderState : Type 0 where
  h_general h_c h_co h_con h_matching_connection h_matching_proxy_connection : HeaderState
  h_matching_content_length h_matching_transfer_encoding h_matching_upgrade : HeaderState
  h_connection h_content_length h_transfer_encoding h_upgrade : HeaderState
  h_matching_transfer_encoding_chunked h_matching_connection_token_start : HeaderState
  h_matching_connection_keep_alive h_matching_connection_close : HeaderState
  h_matching_connection_upgrade h_matching_connection_token : HeaderState
  h_transfer_encoding_chunked h_connection_keep_alive h_connection_close : HeaderState
  h_connection_upgrade : HeaderState

-- The number of a state in the C enumeration, where `s_dead` is 1.
unfoldable pub state_number : State → ℕ
state_number s_dead = 1
state_number s_start_req_or_res = 2
state_number s_res_or_resp_h = 3
state_number s_start_res = 4
state_number s_res_h = 5
state_number s_res_ht = 6
state_number s_res_htt = 7
state_number s_res_http = 8
state_number s_res_first_http_major = 9
state_number s_res_http_major = 10
state_number s_res_first_http_minor = 11
state_number s_res_http_minor = 12
state_number s_res_first_status_code = 13
state_number s_res_status_code = 14
state_number s_res_status_start = 15
state_number s_res_status = 16
state_number s_res_line_almost_done = 17
state_number s_start_req = 18
state_number s_req_method = 19
state_number s_req_spaces_before_url = 20
state_number s_req_schema = 21
state_number s_req_schema_slash = 22
state_number s_req_schema_slash_slash = 23
state_number s_req_server_start = 24
state_number s_req_server = 25
state_number s_req_server_with_at = 26
state_number s_req_path = 27
state_number s_req_query_string_start = 28
state_number s_req_query_string = 29
state_number s_req_fragment_start = 30
state_number s_req_fragment = 31
state_number s_req_http_start = 32
state_number s_req_http_h = 33
state_number s_req_http_ht = 34
state_number s_req_http_htt = 35
state_number s_req_http_http = 36
state_number s_req_first_http_major = 37
state_number s_req_http_major = 38
state_number s_req_first_http_minor = 39
state_number s_req_http_minor = 40
state_number s_req_line_almost_done = 41
state_number s_header_field_start = 42
state_number s_header_field = 43
state_number s_header_value_discard_ws = 44
state_number s_header_value_discard_ws_almost_done = 45
state_number s_header_value_discard_lws = 46
state_number s_header_value_start = 47
state_number s_header_value = 48
state_number s_header_value_lws = 49
state_number s_header_almost_done = 50
state_number s_chunk_size_start = 51
state_number s_chunk_size = 52
state_number s_chunk_parameters = 53
state_number s_chunk_size_almost_done = 54
state_number s_headers_almost_done = 55
state_number s_headers_done = 56
state_number s_chunk_data = 57
state_number s_chunk_data_almost_done = 58
state_number s_chunk_data_done = 59
state_number s_body_identity = 60
state_number s_body_identity_eof = 61
state_number s_message_done = 62

-- `PARSING_HEADER(state)`.
unfoldable pub parsing_header : State → Bool
unfolding state_number
parsing_header s = leb (state_number s) (state_number s_headers_done)

-- `CURRENT_STATE() == s_dead`.
abbrev pub is_dead : State → Bool
is_dead s_dead = Bool.true
is_dead _ = Bool.false

-- `HTTP_PARSER_ERRNO(parser) == HPE_OK`.
abbrev pub is_ok : Errno → Bool
is_ok hpe_ok = Bool.true
is_ok _ = Bool.false

-- `method == HTTP_CONNECT`.
abbrev pub is_connect : Method → Bool
is_connect http_connect = Bool.true
is_connect _ = Bool.false

-- `method_strings`, as bytes.
unfoldable pub method_string : Method → List ℕ
method_string http_delete = b'D' ∷ b'E' ∷ b'L' ∷ b'E' ∷ b'T' ∷ b'E' ∷ []
method_string http_get = b'G' ∷ b'E' ∷ b'T' ∷ []
method_string http_head = b'H' ∷ b'E' ∷ b'A' ∷ b'D' ∷ []
method_string http_post = b'P' ∷ b'O' ∷ b'S' ∷ b'T' ∷ []
method_string http_put = b'P' ∷ b'U' ∷ b'T' ∷ []
method_string http_connect = b'C' ∷ b'O' ∷ b'N' ∷ b'N' ∷ b'E' ∷ b'C' ∷ b'T' ∷ []
method_string http_options = b'O' ∷ b'P' ∷ b'T' ∷ b'I' ∷ b'O' ∷ b'N' ∷ b'S' ∷ []
method_string http_trace = b'T' ∷ b'R' ∷ b'A' ∷ b'C' ∷ b'E' ∷ []
method_string http_copy = b'C' ∷ b'O' ∷ b'P' ∷ b'Y' ∷ []
method_string http_lock = b'L' ∷ b'O' ∷ b'C' ∷ b'K' ∷ []
method_string http_mkcol = b'M' ∷ b'K' ∷ b'C' ∷ b'O' ∷ b'L' ∷ []
method_string http_move = b'M' ∷ b'O' ∷ b'V' ∷ b'E' ∷ []
method_string http_propfind = b'P' ∷ b'R' ∷ b'O' ∷ b'P' ∷ b'F' ∷ b'I' ∷ b'N' ∷ b'D' ∷ []
method_string http_proppatch = b'P' ∷ b'R' ∷ b'O' ∷ b'P' ∷ b'P' ∷ b'A' ∷ b'T' ∷ b'C' ∷ b'H' ∷ []
method_string http_search = b'S' ∷ b'E' ∷ b'A' ∷ b'R' ∷ b'C' ∷ b'H' ∷ []
method_string http_unlock = b'U' ∷ b'N' ∷ b'L' ∷ b'O' ∷ b'C' ∷ b'K' ∷ []
method_string http_report = b'R' ∷ b'E' ∷ b'P' ∷ b'O' ∷ b'R' ∷ b'T' ∷ []
method_string http_mkactivity =
    b'M' ∷ b'K' ∷ b'A' ∷ b'C' ∷ b'T' ∷ b'I' ∷ b'V' ∷ b'I' ∷ b'T' ∷ b'Y' ∷ []
method_string http_checkout = b'C' ∷ b'H' ∷ b'E' ∷ b'C' ∷ b'K' ∷ b'O' ∷ b'U' ∷ b'T' ∷ []
method_string http_merge = b'M' ∷ b'E' ∷ b'R' ∷ b'G' ∷ b'E' ∷ []
method_string http_msearch = b'M' ∷ b'-' ∷ b'S' ∷ b'E' ∷ b'A' ∷ b'R' ∷ b'C' ∷ b'H' ∷ []
method_string http_notify = b'N' ∷ b'O' ∷ b'T' ∷ b'I' ∷ b'F' ∷ b'Y' ∷ []
method_string http_subscribe = b'S' ∷ b'U' ∷ b'B' ∷ b'S' ∷ b'C' ∷ b'R' ∷ b'I' ∷ b'B' ∷ b'E' ∷ []
method_string http_unsubscribe =
    b'U' ∷ b'N' ∷ b'S' ∷ b'U' ∷ b'B' ∷ b'S' ∷ b'C' ∷ b'R' ∷ b'I' ∷ b'B' ∷ b'E' ∷ []
method_string http_patch = b'P' ∷ b'A' ∷ b'T' ∷ b'C' ∷ b'H' ∷ []
method_string http_purge = b'P' ∷ b'U' ∷ b'R' ∷ b'G' ∷ b'E' ∷ []
method_string http_mkcalendar =
    b'M' ∷ b'K' ∷ b'C' ∷ b'A' ∷ b'L' ∷ b'E' ∷ b'N' ∷ b'D' ∷ b'A' ∷ b'R' ∷ []
