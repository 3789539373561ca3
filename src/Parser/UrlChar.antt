-- ===== src/Parser/UrlChar.antt =====
-- `parse_url_char`: one byte of a URL, shared by the parser and by `http_parser_parse_url`.
use my_warehouse.Common.{ℕ, ◌||◌, ◌==◌, if◌then◌else◌}
use my_warehouse.Parser.Chars.{cr, lf, is_alpha, is_userinfo_char, is_url_char}
use my_warehouse.Parser.Enums.{
  State, s_dead, s_req_spaces_before_url, s_req_schema, s_req_schema_slash,
  s_req_schema_slash_slash, s_req_server_start, s_req_server, s_req_server_with_at, s_req_path,
  s_req_query_string_start, s_req_query_string, s_req_fragment_start, s_req_fragment,
}

-- `case s_req_server_start: case s_req_server:`, into which `s_req_server_with_at` falls through.
unfoldable pub url_server_char : ℕ → State
url_server_char ch =
    if ch == b'/'
    then s_req_path
    else if ch == b'?'
    then s_req_query_string_start
    else if ch == b'@'
    then s_req_server_with_at
    else if is_userinfo_char ch || ch == b'[' || ch == b']'
    then s_req_server
    else s_dead

-- The switch of `parse_url_char`.
unfoldable pub url_switch : State → ℕ → State
unfolding url_server_char
url_switch s_req_spaces_before_url ch =
    if ch == b'/' || ch == b'*' then s_req_path else if is_alpha ch then s_req_schema else s_dead
url_switch s_req_schema ch =
    if is_alpha ch then s_req_schema else if ch == b':' then s_req_schema_slash else s_dead
url_switch s_req_schema_slash ch = if ch == b'/' then s_req_schema_slash_slash else s_dead
url_switch s_req_schema_slash_slash ch = if ch == b'/' then s_req_server_start else s_dead
url_switch s_req_server_with_at ch = if ch == b'@' then s_dead else url_server_char ch
url_switch s_req_server_start ch = url_server_char ch
url_switch s_req_server ch = url_server_char ch
url_switch s_req_path ch =
    if is_url_char ch
    then s_req_path
    else if ch == b'?'
    then s_req_query_string_start
    else if ch == b'#'
    then s_req_fragment_start
    else s_dead
url_switch s_req_query_string_start ch =
    if is_url_char ch
    then s_req_query_string
    else if ch == b'?'
    then s_req_query_string
    else if ch == b'#'
    then s_req_fragment_start
    else s_dead
url_switch s_req_query_string ch =
    if is_url_char ch
    then s_req_query_string
    else if ch == b'?'
    then s_req_query_string
    else if ch == b'#'
    then s_req_fragment_start
    else s_dead
url_switch s_req_fragment_start ch =
    if is_url_char ch
    then s_req_fragment
    else if ch == b'?'
    then s_req_fragment
    else if ch == b'#'
    then s_req_fragment_start
    else s_dead
url_switch s_req_fragment ch =
    if is_url_char ch
    then s_req_fragment
    else if ch == b'?' || ch == b'#'
    then s_req_fragment
    else s_dead
url_switch _ ch = s_dead

-- `parse_url_char`, in strict mode.
unfoldable pub parse_url_char : State → ℕ → State
unfolding url_switch
parse_url_char s ch =
    if ch == b' ' || ch == cr || ch == lf
    then s_dead
    else if ch == 9 || ch == 12
    then s_dead
    else url_switch s ch
