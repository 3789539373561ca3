-- ===== src/Url/Host.antt =====
-- `struct http_parser_url`, `http_parse_host_char` and `http_parse_host`.
use my_warehouse.Common.{
  ℕ, zero, suc, ◌+◌, ◌%◌, ◌^◌, Bool, true, false, ◌||◌, List, get_or, ◌==◌, if◌then◌else◌,
}
use my_warehouse.Parser.Chars.{is_num, is_hex, is_host_char, is_userinfo_char}

-- `enum http_parser_url_fields`, without UF_MAX.
pub data UrlField : Type 0 where
  uf_schema uf_host uf_port uf_path uf_query uf_fragment uf_userinfo : UrlField

-- An element of `field_data`; both numbers are `uint16_t`.
pub record Span : Type 0 where
  pub off : ℕ
  pub len : ℕ

-- `struct http_parser_url`; `field_set` says which bits are set.
pub record HttpParserUrl : Type 0 where
  pub field_set : UrlField → Bool
  pub port : ℕ
  pub field_data : UrlField → Span

abbrev pub same_field : UrlField → UrlField → Bool
same_field uf_schema uf_schema = true
same_field uf_host uf_host = true
same_field uf_port uf_port = true
same_field uf_path uf_path = true
same_field uf_query uf_query = true
same_field uf_fragment uf_fragment = true
same_field uf_userinfo uf_userinfo = true
same_field _ _ = false

abbrev pub put_field {ℓ} : {A : Type ℓ} → UrlField → A → (UrlField → A) → UrlField → A
put_field f a g k = if same_field f k then a else g k

-- `field_data[f].off = off; field_data[f].len = 1; field_set |= (1 << f);`.
abbrev pub open_field : UrlField → ℕ → HttpParserUrl → HttpParserUrl
open_field f off u = record u {
  field_set = put_field f true u.field_set;
  field_data = put_field f (record { off = off % 2 ^ 16; len = 1 }) u.field_data;
}

-- `field_data[f].len++`.
abbrev pub grow_field : UrlField → HttpParserUrl → HttpParserUrl
grow_field f u = record u {
  field_data =
      put_field f (record { off = (u.field_data f).off; len = ((u.field_data f).len + 1) % 2 ^ 16 })
        u.field_data;
}

-- `field_data[f].off = off; field_data[f].len++;`.
abbrev pub move_field : UrlField → ℕ → HttpParserUrl → HttpParserUrl
move_field f off u = record u {
  field_data =
      put_field f (record { off = off % 2 ^ 16; len = ((u.field_data f).len + 1) % 2 ^ 16 })
        u.field_data;
}

-- `enum http_host_state`.
pub data HostState : Type 0 where
  s_http_host_dead s_http_userinfo_start s_http_userinfo s_http_host_start : HostState
  s_http_host_v6_start s_http_host s_http_host_v6 s_http_host_v6_end : HostState
  s_http_host_port_start s_http_host_port : HostState

-- `http_parse_host_char`.
unfoldable pub http_parse_host_char : HostState → ℕ → HostState
http_parse_host_char s_http_userinfo ch =
    if ch == b'@'
    then s_http_host_start
    else if is_userinfo_char ch
    then s_http_userinfo
    else s_http_host_dead
http_parse_host_char s_http_userinfo_start ch =
    if ch == b'@'
    then s_http_host_start
    else if is_userinfo_char ch
    then s_http_userinfo
    else s_http_host_dead
http_parse_host_char s_http_host_start ch =
    if ch == b'['
    then s_http_host_v6_start
    else if is_host_char ch
    then s_http_host
    else s_http_host_dead
http_parse_host_char s_http_host ch =
    if is_host_char ch
    then s_http_host
    else if ch == b':'
    then s_http_host_port_start
    else s_http_host_dead
http_parse_host_char s_http_host_v6_end ch =
    if ch == b':' then s_http_host_port_start else s_http_host_dead
http_parse_host_char s_http_host_v6 ch =
    if ch == b']'
    then s_http_host_v6_end
    else if is_hex ch || ch == b':' || ch == b'.'
    then s_http_host_v6
    else s_http_host_dead
http_parse_host_char s_http_host_v6_start ch =
    if is_hex ch || ch == b':' || ch == b'.' then s_http_host_v6 else s_http_host_dead
http_parse_host_char s_http_host_port ch = if is_num ch then s_http_host_port else s_http_host_dead
http_parse_host_char s_http_host_port_start ch =
    if is_num ch then s_http_host_port else s_http_host_dead
http_parse_host_char s_http_host_dead ch = s_http_host_dead

-- The switch on the new state in the loop of `http_parse_host`: old state, new state, `p - buf`. None
-- of the states that read a field's first byte is the state of its other bytes.
unfoldable pub host_fields : HostState → HostState → ℕ → HttpParserUrl → HttpParserUrl
host_fields s_http_host s_http_host p u = grow_field uf_host u
host_fields _ s_http_host p u = move_field uf_host p u
host_fields s_http_host_v6 s_http_host_v6 p u = grow_field uf_host u
host_fields _ s_http_host_v6 p u = move_field uf_host p u
host_fields s_http_host_port s_http_host_port p u = grow_field uf_port u
host_fields _ s_http_host_port p u = open_field uf_port p u
host_fields s_http_userinfo s_http_userinfo p u = grow_field uf_userinfo u
host_fields _ s_http_userinfo p u = open_field uf_userinfo p u
host_fields _ _ p u = u

abbrev pub is_host_dead : HostState → Bool
is_host_dead s_http_host_dead = true
is_host_dead _ = false

-- The switch on the last state of `http_parse_host`.
unfoldable pub host_unfinished : HostState → Bool
host_unfinished s_http_host_start = true
host_unfinished s_http_host_v6_start = true
host_unfinished s_http_host_v6 = true
host_unfinished s_http_host_port_start = true
host_unfinished s_http_userinfo = true
host_unfinished s_http_userinfo_start = true
host_unfinished _ = false

-- The loop of `http_parse_host` over the bytes left, and what follows it. `true` is the return value 1.
unfoldable pub host_loop : ℕ → List ℕ → ℕ → HostState → HttpParserUrl → Bool × HttpParserUrl
unfolding http_parse_host_char host_fields host_unfinished
host_loop zero buf p s u = (host_unfinished s, u)
host_loop (suc n) buf p s u =
    let new_s = http_parse_host_char s (get_or buf p 0) in
    let rest = host_loop n buf (p + 1) new_s (host_fields s new_s p u) in
    if is_host_dead new_s then (true, u) else rest

-- `http_parse_host`.
unfoldable pub http_parse_host : List ℕ → HttpParserUrl → Bool → Bool × HttpParserUrl
unfolding host_loop
http_parse_host buf u found_at =
    let host = u.field_data uf_host in
    let u' = record u {
      field_data = put_field uf_host (record { off = host.off; len = 0 }) u.field_data;
    } in
    host_loop host.len buf host.off (if found_at then s_http_userinfo_start else s_http_host_start)
      u'
