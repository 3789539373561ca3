-- ===== src/Parser/Header.antt =====
-- The states of `http_parser_execute` that read a header's name.
use my_warehouse.Common.{
  ℕ, zero, suc, ◌+◌, ◌-◌, ◌%◌, not, ◌||◌, List, [], ◌∷◌, get_or, length, ltb, ◌==◌, if◌then◌else◌,
}
use my_warehouse.Parser.Chars.{cr, lf, token}
use my_warehouse.Parser.Enums.{
  hpe_invalid_header_token, s_headers_almost_done, s_header_field, s_header_value_discard_ws,
  HeaderState, h_general, h_c, h_co, h_con, h_matching_connection, h_matching_proxy_connection,
  h_matching_content_length, h_matching_transfer_encoding, h_matching_upgrade, h_connection,
  h_content_length, h_transfer_encoding, h_upgrade,
}
use my_warehouse.Parser.State.{Parser, Settings}
use my_warehouse.Parser.Flow.{
  Locals, Flow, Next, ◌>>=◌, next, again, to_state, fail, count_header_size, callback_header_field,
  mark_at,
}

-- The string constants, which end in a zero byte that `get_or` gives past the end.
abbrev pub proxy_connection_name : List ℕ
proxy_connection_name =
    b'p' ∷ b'r' ∷ b'o' ∷ b'x' ∷ b'y' ∷ b'-' ∷ b'c' ∷ b'o' ∷ b'n' ∷ b'n' ∷ b'e' ∷ b'c' ∷ b't' ∷ b'i'
    ∷ b'o' ∷ b'n' ∷ []

abbrev pub connection_name : List ℕ
connection_name = b'c' ∷ b'o' ∷ b'n' ∷ b'n' ∷ b'e' ∷ b'c' ∷ b't' ∷ b'i' ∷ b'o' ∷ b'n' ∷ []

abbrev pub content_length_name : List ℕ
content_length_name =
    b'c' ∷ b'o' ∷ b'n' ∷ b't' ∷ b'e' ∷ b'n' ∷ b't' ∷ b'-' ∷ b'l' ∷ b'e' ∷ b'n' ∷ b'g' ∷ b't' ∷ b'h'
    ∷ []

abbrev pub transfer_encoding_name : List ℕ
transfer_encoding_name =
    b't' ∷ b'r' ∷ b'a' ∷ b'n' ∷ b's' ∷ b'f' ∷ b'e' ∷ b'r' ∷ b'-' ∷ b'e' ∷ b'n' ∷ b'c' ∷ b'o' ∷ b'd'
    ∷ b'i' ∷ b'n' ∷ b'g' ∷ []

abbrev pub upgrade_name : List ℕ
upgrade_name = b'u' ∷ b'p' ∷ b'g' ∷ b'r' ∷ b'a' ∷ b'd' ∷ b'e' ∷ []

-- One byte against the rest of a constant: `parser->index++`, the two tests of
-- `parser->index > sizeof(NAME)-1 || c != NAME[parser->index]`, and the last byte.
unfoldable pub match_name : List ℕ → HeaderState → HeaderState → ℕ → Parser → Parser
match_name name matching matched c q =
    let index = (q.index + 1) % 256 in
    record q {
      index = index;
      header_state =
          if ltb (length name) index || not (c == get_or name index 0)
          then h_general
          else if index == length name - 1
          then matched
          else matching;
    }

abbrev pub bump_index : HeaderState → Parser → Parser
bump_index h q = record q { header_state = h; index = (q.index + 1) % 256 }

-- The switch on `parser->header_state` in `case s_header_field`, for a token `c` read as `ch`.
unfoldable pub field_switch : HeaderState → ℕ → ℕ → Parser → Parser
unfolding match_name
field_switch h_general ch c q = q
field_switch h_c ch c q = bump_index (if c == b'o' then h_co else h_general) q
field_switch h_co ch c q = bump_index (if c == b'n' then h_con else h_general) q
field_switch h_con ch c q =
    bump_index
      (if c == b'n'
        then h_matching_connection
        else if c == b't'
        then h_matching_content_length
        else h_general)
      q
field_switch h_matching_connection ch c q =
    match_name connection_name h_matching_connection h_connection c q
field_switch h_matching_proxy_connection ch c q =
    match_name proxy_connection_name h_matching_proxy_connection h_connection c q
field_switch h_matching_content_length ch c q =
    match_name content_length_name h_matching_content_length h_content_length c q
field_switch h_matching_transfer_encoding ch c q =
    match_name transfer_encoding_name h_matching_transfer_encoding h_transfer_encoding c q
field_switch h_matching_upgrade ch c q = match_name upgrade_name h_matching_upgrade h_upgrade c q
field_switch h_connection ch c q = record q {
  header_state = if not (ch == b' ') then h_general else h_connection;
}
field_switch h_content_length ch c q = record q {
  header_state = if not (ch == b' ') then h_general else h_content_length;
}
field_switch h_transfer_encoding ch c q = record q {
  header_state = if not (ch == b' ') then h_general else h_transfer_encoding;
}
field_switch h_upgrade ch c q = record q {
  header_state = if not (ch == b' ') then h_general else h_upgrade;
}
field_switch _ ch c q = q

-- The switch on the first byte of a name in `case s_header_field_start`.
unfoldable pub first_field_byte : ℕ → HeaderState
first_field_byte c =
    if c == b'c'
    then h_c
    else if c == b'p'
    then h_matching_proxy_connection
    else if c == b't'
    then h_matching_transfer_encoding
    else if c == b'u'
    then h_matching_upgrade
    else h_general

module _ {S : Type 0} where
  -- `case s_header_field_start`.
  unfoldable pub step_header_field_start : Locals S → Flow S (Next S)
  unfolding fail first_field_byte
  step_header_field_start l =
      let c = token l.ch in
      if l.ch == cr
      then next (to_state s_headers_almost_done l)
      else if l.ch == lf
      then again (to_state s_headers_almost_done l)
      else if c == 0
      then fail hpe_invalid_header_token l
      else next (record l {
        header_field_mark = mark_at l.header_field_mark l.p;
        p_state = s_header_field;
        parser = record (l.parser) { index = 0; header_state = first_field_byte c };
      })

  -- The `for` over the bytes of a name, with the number of bytes left as the bound.
  unfoldable pub field_loop : ℕ → List ℕ → Locals S → Locals S
  unfolding field_switch
  field_loop zero bytes l = l
  field_loop (suc n) bytes l =
      let ch = get_or bytes l.p 0 in
      let c = token ch in
      let rest = field_loop n bytes (record l {
        ch = ch;
        p = l.p + 1;
        parser = field_switch l.parser.header_state ch c l.parser;
      }) in
      if c == 0 then record l { ch = ch } else rest

  -- The code behind that loop.
  unfoldable pub after_field : Settings S → List ℕ → Locals S → Flow S (Next S)
  unfolding fail
  after_field settings bytes l =
      if l.p == length bytes
      then next (record l { p = l.p - 1 })
      else if l.ch == b':'
      then (do
        l' ← callback_header_field settings l.p (l.p + 1) (to_state s_header_value_discard_ws l)
        next l')
      else fail hpe_invalid_header_token l

  -- `case s_header_field`.
  unfoldable pub step_header_field : Settings S → List ℕ → Locals S → Flow S (Next S)
  step_header_field settings bytes l = do
    let l₁ = field_loop (length bytes - l.p) bytes l
    l₂ ← count_header_size (l₁.p - l.p) l₁
    after_field settings bytes l₂
