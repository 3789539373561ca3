-- ===== src/Url/Parse.antt =====
-- `http_parser_parse_url`. The buffer is the memory from `buf` on, of which the URL is the first
-- `buflen` bytes: `strtoul` stops at the first byte that is no digit, wherever that is.
use my_warehouse.Common.{
  ℕ, zero, suc, ◌+◌, ◌-◌, ◌*◌, ◌%◌, ◌^◌, min, Bool, true, false, not, ◌&&◌, ◌||◌, Option, none,
  some, List, [], ◌∷◌, get_or, drop, ltb, if◌then◌else◌,
}
use my_warehouse.Parser.Chars.{is_num}
use my_warehouse.Parser.Enums.{
  State, s_req_spaces_before_url, s_req_schema, s_req_schema_slash, s_req_schema_slash_slash,
  s_req_server_start, s_req_server, s_req_server_with_at, s_req_path, s_req_query_string_start,
  s_req_query_string, s_req_fragment_start, s_req_fragment,
}
use my_warehouse.Parser.State.{ullong_max}
use my_warehouse.Parser.UrlChar.{parse_url_char}
use my_warehouse.Url.Host.{
  UrlField, uf_schema, uf_host, uf_port, uf_path, uf_query, uf_fragment, uf_userinfo, HttpParserUrl,
  same_field, open_field, grow_field, http_parse_host,
}

-- What the switch on the state says of a byte.
pub data ByteRole : Type 0 where
  in_field : UrlField → ByteRole
  delimiter illegal : ByteRole

-- "Figure out the next field that we're operating on".
unfoldable pub byte_role : State → ByteRole
byte_role s_req_schema_slash = delimiter
byte_role s_req_schema_slash_slash = delimiter
byte_role s_req_server_start = delimiter
byte_role s_req_query_string_start = delimiter
byte_role s_req_fragment_start = delimiter
byte_role s_req_schema = in_field uf_schema
byte_role s_req_server_with_at = in_field uf_host
byte_role s_req_server = in_field uf_host
byte_role s_req_path = in_field uf_path
byte_role s_req_query_string = in_field uf_query
byte_role s_req_fragment = in_field uf_fragment
byte_role _ = illegal

abbrev pub has_at : State → Bool
has_at s_req_server_with_at = true
has_at _ = false

abbrev pub is_current : Option UrlField → UrlField → Bool
is_current none f = false
is_current (some g) f = same_field g f

-- "Nothing's changed; soldier on", or the start of a field.
abbrev pub take_byte : Option UrlField → UrlField → ℕ → HttpParserUrl → HttpParserUrl
take_byte old_uf f p u = if is_current old_uf f then grow_field f u else open_field f p u

-- How the loop ends: at the end of the URL, with `found_at`, or by `return 1`.
pub data Scanned : Type 0 where
  whole : Bool → HttpParserUrl → Scanned
  broken : HttpParserUrl → Scanned

-- The loop of `http_parser_parse_url`, with the number of bytes left; `none` is UF_MAX.
unfoldable pub url_loop : ℕ → List ℕ → ℕ → State → Option UrlField → Bool → HttpParserUrl → Scanned
unfolding byte_role
url_loop zero buf p s old_uf found_at u = whole found_at u
url_loop (suc n) buf p s old_uf found_at u =
    let s' = parse_url_char s (get_or buf p 0) in
    elim (byte_role s') [
      | illegal ↦ broken u
      | delimiter ↦ url_loop n buf (p + 1) s' old_uf found_at u
      | in_field f ↦
          url_loop n buf (p + 1) s' (some f) (found_at || has_at s') (take_byte old_uf f p u)
    ]

-- `strtoul(…, NULL, 10)` at a digit, saturating at ULONG_MAX.
unfoldable pub digits_value : ℕ → List ℕ → ℕ
digits_value acc [] = acc
digits_value acc (c ∷ cs) =
    let rest = digits_value (acc * 10 + (c - b'0')) cs in if is_num c then rest else acc

unfoldable pub strtoul : List ℕ → ℕ
unfolding digits_value
strtoul cs = min (digits_value 0 cs) ullong_max

-- `u->field_set != ((1 << UF_HOST)|(1 << UF_PORT))`.
abbrev pub only_host_port : HttpParserUrl → Bool
only_host_port u =
    u.field_set uf_host
    && u.field_set uf_port
    && not (
        u.field_set uf_schema
        || u.field_set uf_path
        || u.field_set uf_query
        || u.field_set uf_fragment
        || u.field_set uf_userinfo)

-- The conversion of the port.
unfoldable pub set_port : List ℕ → HttpParserUrl → Bool × HttpParserUrl
unfolding strtoul
set_port buf u =
    let v = strtoul (drop (u.field_data uf_port).off buf) in
    if u.field_set uf_port
    then (if ltb 0xffff v then (true, u) else (false, record u { port = v % 2 ^ 16 }))
    else (false, u)

unfoldable pub check_connect : List ℕ → Bool → Bool × HttpParserUrl → Bool × HttpParserUrl
unfolding set_port
check_connect buf is_connect (true, u) = (true, u)
check_connect buf is_connect (false, u) =
    if is_connect && not (only_host_port u) then (true, u) else set_port buf u

-- What follows the loop.
unfoldable pub check_url : List ℕ → Bool → Scanned → Bool × HttpParserUrl
unfolding check_connect http_parse_host
check_url buf is_connect (broken u) = (true, u)
check_url buf is_connect (whole found_at u) =
    if u.field_set uf_schema && not (u.field_set uf_host)
    then (true, u)
    else check_connect buf is_connect
        (if u.field_set uf_host then http_parse_host buf u found_at else (false, u))

-- `u->port = u->field_set = 0`.
abbrev pub cleared : HttpParserUrl → HttpParserUrl
cleared u = record u { port = 0; field_set = λ _. false }

-- `http_parser_parse_url`: `true` is the return value 1, and the URL is what `*u` holds then.
unfoldable pub http_parser_parse_url : List ℕ → ℕ → Bool → HttpParserUrl → Bool × HttpParserUrl
unfolding url_loop check_url
http_parser_parse_url buf buflen is_connect u = check_url buf is_connect (
    url_loop buflen buf 0 (if is_connect then s_req_server_start else s_req_spaces_before_url) none
      false (cleared u))
