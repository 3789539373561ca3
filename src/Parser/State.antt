-- ===== src/Parser/State.antt =====
-- The parser's record (`struct http_parser`), its settings (`struct http_parser_settings`), and the
-- functions that only read or reset it.
use my_warehouse.Common.{
  ℕ, ◌-◌, ◌*◌, ◌/◌, ◌^◌, Bool, true, false, not, ◌&&◌, ◌||◌, Option, none, ltb, ◌==◌, if◌then◌else◌,
}
use my_warehouse.Parser.Enums.{
  ParserType, http_request, http_response, http_both, Method, http_delete, Errno, hpe_ok,
  hpe_paused, State, s_dead, s_start_req, s_start_res, s_start_req_or_res, s_message_done,
  HeaderState, h_general,
}

-- `parser->flags`, a Boolean for each bit of `enum flags`.
pub record Flags : Type 0 where
  pub chunked : Bool
  pub connection_keep_alive : Bool
  pub connection_close : Bool
  pub connection_upgrade : Bool
  pub trailing : Bool
  pub upgrade : Bool
  pub skipbody : Bool

-- `parser->flags = 0`.
abbrev pub no_flags : Flags
no_flags = record {
  chunked = false;
  connection_keep_alive = false;
  connection_close = false;
  connection_upgrade = false;
  trailing = false;
  upgrade = false;
  skipbody = false;
}

-- `struct http_parser`. Its field `data` points to the session, which the callbacks are handed here.
pub record Parser : Type 0 where
  pub type : ParserType
  pub flags : Flags
  pub state : State
  pub header_state : HeaderState
  pub index : ℕ  -- 8 bits
  pub nread : ℕ  -- uint32_t
  pub content_length : ℕ  -- uint64_t
  pub http_major : ℕ  -- unsigned short
  pub http_minor : ℕ  -- unsigned short
  pub status_code : ℕ  -- 16 bits
  pub method : Method
  pub http_errno : Errno
  pub upgrade : Bool

abbrev pub ullong_max : ℕ
ullong_max = 2 ^ 64 - 1

abbrev pub http_max_header_size : ℕ
http_max_header_size = 80 * 1024

-- What a callback leaves behind: the application's state, `parser->http_errno` (a callback may pause the
-- parser and may not write its private fields), and the number that it returns.
pub record Reply (S : Type 0) : Type 0 where
  pub app : S
  pub http_errno : Errno
  pub result : ℕ

-- `http_cb`.
abbrev pub NotifyCallback : Type 0 → Type 0
NotifyCallback S = Parser → S → Reply S

-- `http_data_cb`, with the offset of `at` in the bytes being parsed, and `length`.
abbrev pub DataCallback : Type 0 → Type 0
DataCallback S = Parser → ℕ → ℕ → S → Reply S

-- `struct http_parser_settings`; `none` is a null pointer.
pub record Settings (S : Type 0) : Type 0 where
  pub on_message_begin : Option (NotifyCallback S)
  pub on_url : Option (DataCallback S)
  pub on_status : Option (DataCallback S)
  pub on_header_field : Option (DataCallback S)
  pub on_header_value : Option (DataCallback S)
  pub on_headers_complete : Option (NotifyCallback S)
  pub on_body : Option (DataCallback S)
  pub on_message_complete : Option (NotifyCallback S)
  pub on_chunk_header : Option (NotifyCallback S)
  pub on_chunk_complete : Option (NotifyCallback S)

-- `http_parser_settings_init`.
abbrev pub http_parser_settings_init : (S : Type 0) → Settings S
http_parser_settings_init S = record {
  on_message_begin = none;
  on_url = none;
  on_status = none;
  on_header_field = none;
  on_header_value = none;
  on_headers_complete = none;
  on_body = none;
  on_message_complete = none;
  on_chunk_header = none;
  on_chunk_complete = none;
}

-- The state in which a parser of a type begins.
abbrev pub initial_state : ParserType → State
initial_state http_request = s_start_req
initial_state http_response = s_start_res
initial_state http_both = s_start_req_or_res

-- `http_parser_init`: every field but `data` is zeroed first.
unfoldable pub http_parser_init : ParserType → Parser
http_parser_init t = record {
  type = t;
  flags = no_flags;
  state = initial_state t;
  header_state = h_general;
  index = 0;
  nread = 0;
  content_length = 0;
  http_major = 0;
  http_minor = 0;
  status_code = 0;
  method = http_delete;
  http_errno = hpe_ok;
  upgrade = false;
}

-- The second half of `http_message_needs_eof`, for what is not a request.
abbrev pub response_needs_eof : Parser → Bool
response_needs_eof q =
    if q.status_code / 100 == 1 || q.status_code == 204 || q.status_code == 304 || q.flags.skipbody
    then false
    else if q.flags.chunked || not (q.content_length == ullong_max)
    then false
    else true

abbrev pub needs_eof_by_type : ParserType → Parser → Bool
needs_eof_by_type http_request q = false
needs_eof_by_type _ q = response_needs_eof q

-- `http_message_needs_eof`.
unfoldable pub http_message_needs_eof : Parser → Bool
http_message_needs_eof q = needs_eof_by_type q.type q

-- `http_should_keep_alive`.
unfoldable pub http_should_keep_alive : Parser → Bool
unfolding http_message_needs_eof
http_should_keep_alive q =
    if ltb 0 q.http_major && ltb 0 q.http_minor
    then (if q.flags.connection_close then false else not (http_message_needs_eof q))
    else (if not q.flags.connection_keep_alive then false else not (http_message_needs_eof q))

-- `start_state`.
abbrev pub start_state : ParserType → State
start_state http_request = s_start_req
start_state _ = s_start_res

-- `NEW_MESSAGE()`.
unfoldable pub new_message : Parser → State
unfolding http_should_keep_alive
new_message q = if http_should_keep_alive q then start_state q.type else s_dead

abbrev pub pause_from : Errno → Bool → Parser → Parser
pause_from hpe_ok paused q = record q { http_errno = if paused then hpe_paused else hpe_ok }
pause_from hpe_paused paused q = record q { http_errno = if paused then hpe_paused else hpe_ok }
pause_from _ paused q = q

-- `http_parser_pause`, with the assertion on a parser in error taken as compiled out.
unfoldable pub http_parser_pause : Parser → Bool → Parser
http_parser_pause q paused = pause_from q.http_errno paused q

abbrev pub is_message_done : State → Bool
is_message_done s_message_done = true
is_message_done _ = false

-- `http_body_is_final`.
unfoldable pub http_body_is_final : Parser → Bool
http_body_is_final q = is_message_done q.state
