-- ===== src/Parser/Value.antt =====
-- The states of `http_parser_execute` that read a header's value.
use my_warehouse.Common.{
  ℕ, zero, suc, ◌+◌, ◌-◌, ◌*◌, ◌/◌, ◌%◌, ◌^◌, min, true, not, ◌||◌, Option, none, some, List, [],
  ◌∷◌, get_or, length, ltb, leb, ◌==◌, if◌then◌else◌,
}
use my_warehouse.Parser.Chars.{cr, lf, lower, is_num, token}
use my_warehouse.Parser.Enums.{
  hpe_invalid_content_length, s_header_value, s_header_value_discard_ws,
  s_header_value_discard_ws_almost_done, s_header_value_discard_lws, s_header_almost_done,
  s_header_value_start, s_header_field_start, HeaderState, h_general, h_upgrade,
  h_transfer_encoding, h_content_length, h_connection, h_matching_transfer_encoding_chunked,
  h_matching_connection_token_start, h_matching_connection_keep_alive, h_matching_connection_close,
  h_matching_connection_upgrade, h_matching_connection_token, h_transfer_encoding_chunked,
  h_connection_keep_alive, h_connection_close, h_connection_upgrade,
}
use my_warehouse.Parser.State.{Flags, Parser, Settings, ullong_max, http_max_header_size}
use my_warehouse.Parser.Flow.{
  Locals, Flow, Next, ◌>>=◌, next, again, to_state, with_parser, fail, count_header_size,
  callback_header_value, mark_at,
}
use my_warehouse.Parser.Header.{upgrade_name}

abbrev pub chunked_name : List ℕ
chunked_name = b'c' ∷ b'h' ∷ b'u' ∷ b'n' ∷ b'k' ∷ b'e' ∷ b'd' ∷ []

abbrev pub keep_alive_name : List ℕ
keep_alive_name = b'k' ∷ b'e' ∷ b'e' ∷ b'p' ∷ b'-' ∷ b'a' ∷ b'l' ∷ b'i' ∷ b'v' ∷ b'e' ∷ []

abbrev pub close_name : List ℕ
close_name = b'c' ∷ b'l' ∷ b'o' ∷ b's' ∷ b'e' ∷ []

-- `memchr` from an offset, over at most `limit` bytes.
unfoldable pub memchr : List ℕ → ℕ → ℕ → ℕ → Option ℕ
memchr bytes p c zero = none
memchr bytes p c (suc limit) =
    let rest = memchr bytes (p + 1) c limit in if get_or bytes p 0 == c then some p else rest

unfoldable pub earlier : Option ℕ → Option ℕ → ℕ → ℕ
earlier (some p_cr) (some p_lf) end = if leb p_lf p_cr then p_lf else p_cr
earlier (some p_cr) none end = p_cr
earlier none (some p_lf) end = p_lf
earlier none none end = end

-- Where `case h_general` leaves `p` for the next round of the loop.
unfoldable pub line_end : List ℕ → ℕ → ℕ
unfolding memchr earlier
line_end bytes p =
    let limit = min (length bytes - p) http_max_header_size in
    earlier (memchr bytes p cr limit) (memchr bytes p lf limit) (length bytes)

-- What one byte of a value does: on with the loop, or HPE_INVALID_CONTENT_LENGTH.
pub data ValueByte : Type 0 where
  taken : Parser → HeaderState → ValueByte
  refused : ValueByte

-- A byte against the rest of a constant, as in `case h_matching_connection_close`.
unfoldable pub match_value :
    List ℕ → HeaderState → HeaderState → HeaderState → ℕ → Parser → ValueByte
match_value name matching matched other c q =
    let index = (q.index + 1) % 256 in
    taken (record q { index = index })
      (if ltb (length name) index || not (c == get_or name index 0)
        then other
        else if index == length name - 1
        then matched
        else matching)

-- `case h_content_length`: a digit, with the test against overflow.
unfoldable pub length_digit : ℕ → Parser → ValueByte
length_digit ch q =
    let t = (q.content_length * 10 % 2 ^ 64 + (ch - b'0')) % 2 ^ 64 in
    if ch == b' '
    then taken q h_content_length
    else if not (is_num ch)
    then refused
    else if ltb ((ullong_max - 10) / 10) q.content_length
    then refused
    else taken (record q { content_length = t }) h_content_length

-- Where the token of a `Connection` header starts, by its first letter.
unfoldable pub connection_token : ℕ → HeaderState → HeaderState
connection_token c other =
    if c == b'k'
    then h_matching_connection_keep_alive
    else if c == b'c'
    then h_matching_connection_close
    else if c == b'u'
    then h_matching_connection_upgrade
    else other

-- `parser->flags |= …` for a header state that is complete.
unfoldable pub set_flag : HeaderState → Flags → Flags
set_flag h_connection_keep_alive f = record f { connection_keep_alive = true }
set_flag h_connection_close f = record f { connection_close = true }
set_flag h_connection_upgrade f = record f { connection_upgrade = true }
set_flag h_transfer_encoding_chunked f = record f { chunked = true }
set_flag _ f = f

-- `case h_connection_keep_alive:` to `case h_connection_upgrade:`.
unfoldable pub token_end : HeaderState → ℕ → Parser → ValueByte
unfolding set_flag
token_end h ch q =
    if ch == b','
    then taken (record q { flags = set_flag h q.flags; index = 0 })
        h_matching_connection_token_start
    else if not (ch == b' ')
    then taken q h_matching_connection_token
    else taken q h

-- The switch on `h_state` in `case s_header_value`, but for the move of `p` in `case h_general`.
-- Its default writes the state that the parser is in already.
unfoldable pub value_switch : HeaderState → ℕ → Parser → ValueByte
unfolding match_value length_digit connection_token token_end lower
value_switch h_general ch q = taken q h_general
value_switch h_connection ch q = taken q h_connection
value_switch h_transfer_encoding ch q = taken q h_transfer_encoding
value_switch h_content_length ch q = length_digit ch q
value_switch h_matching_transfer_encoding_chunked ch q =
    match_value chunked_name h_matching_transfer_encoding_chunked h_transfer_encoding_chunked
      h_general (lower ch) q
value_switch h_matching_connection_token_start ch q =
    let c = lower ch in
    taken q (
      connection_token c (
        if not (token c == 0)
        then h_matching_connection_token
        else if c == b' ' || c == 9
        then h_matching_connection_token_start
        else h_general))
value_switch h_matching_connection_keep_alive ch q =
    match_value keep_alive_name h_matching_connection_keep_alive h_connection_keep_alive
      h_matching_connection_token (lower ch) q
value_switch h_matching_connection_close ch q =
    match_value close_name h_matching_connection_close h_connection_close
      h_matching_connection_token (lower ch) q
value_switch h_matching_connection_upgrade ch q =
    match_value upgrade_name h_matching_connection_upgrade h_connection_upgrade
      h_matching_connection_token (lower ch) q
value_switch h_matching_connection_token ch q =
    if ch == b','
    then taken (record q { index = 0 }) h_matching_connection_token_start
    else taken q h_matching_connection_token
value_switch h_transfer_encoding_chunked ch q =
    taken q (if not (ch == b' ') then h_general else h_transfer_encoding_chunked)
value_switch h_connection_keep_alive ch q = token_end h_connection_keep_alive ch q
value_switch h_connection_close ch q = token_end h_connection_close ch q
value_switch h_connection_upgrade ch q = token_end h_connection_upgrade ch q
value_switch _ ch q = taken q h_general

-- `p` in the next round: `case h_general` skips to the end of the line.
abbrev pub value_next : HeaderState → List ℕ → ℕ → ℕ
value_next h_general bytes p = line_end bytes p
value_next _ bytes p = p + 1

-- The switch on `parser->header_state` in `case s_header_value_start`; `none` is
-- HPE_INVALID_CONTENT_LENGTH.
unfoldable pub value_start : HeaderState → ℕ → Parser → Option Parser
unfolding connection_token lower
value_start h_upgrade ch q =
    some (record q { flags = record (q.flags) { upgrade = true }; header_state = h_general })
value_start h_transfer_encoding ch q = some (record q {
  header_state = if lower ch == b'c' then h_matching_transfer_encoding_chunked else h_general;
})
value_start h_content_length ch q =
    if not (is_num ch) then none else some (record q { content_length = ch - b'0' })
value_start h_connection ch q =
    some (record q { header_state = connection_token (lower ch) h_matching_connection_token })
value_start h_matching_connection_token_start ch q = some q
value_start _ ch q = some (record q { header_state = h_general })

-- How the `for` over the bytes of a value ends, with `h_state`.
pub data ValueEnd (S : Type 0) : Type 0 where
  at_end at_cr at_lf : HeaderState → Locals S → ValueEnd S
  bad_length : HeaderState → Locals S → ValueEnd S

module _ {S : Type 0} where
  -- The loop, with the number of bytes left as the bound.
  unfoldable pub value_loop : ℕ → List ℕ → HeaderState → Locals S → ValueEnd S
  unfolding value_switch line_end
  value_loop zero bytes h l = at_end h l
  value_loop (suc n) bytes h l =
      let ch = get_or bytes l.p 0 in
      let l' = record l { ch = ch } in
      let rest : ValueEnd S = elim (value_switch h ch l.parser) [
        | taken q h' ↦ value_loop n bytes h' (record l' { p = value_next h bytes l.p; parser = q })
        | refused ↦ bad_length h l'
      ] in
      if l.p == length bytes
      then at_end h l
      else if ch == cr
      then at_cr h l'
      else if ch == lf
      then at_lf h l'
      else rest

  -- `parser->header_state = h_state;`.
  abbrev pub put_header_state : HeaderState → Locals S → Locals S
  put_header_state h l = with_parser (record (l.parser) { header_state = h }) l

  -- The code behind the loop, where it ended by its condition or at CR.
  unfoldable pub after_value : List ℕ → ℕ → Locals S → Flow S (Next S)
  after_value bytes start l = do
    l' ← count_header_size (l.p - start) l
    next (if l'.p == length bytes then record l' { p = l'.p - 1 } else l')

  unfoldable pub value_ended : Settings S → List ℕ → ℕ → ValueEnd S → Flow S (Next S)
  unfolding fail
  value_ended settings bytes start (at_end h l) = after_value bytes start (put_header_state h l)
  value_ended settings bytes start (at_cr h l) = do
    l' ←
        callback_header_value settings l.p (l.p + 1)
          (put_header_state h (to_state s_header_almost_done l))
    after_value bytes start (put_header_state h l')
  value_ended settings bytes start (at_lf h l) = do
    l₁ ← count_header_size (l.p - start) (to_state s_header_almost_done l)
    l₂ ← callback_header_value settings l.p l.p (put_header_state h l₁)
    again l₂
  value_ended settings bytes start (bad_length h l) =
      fail hpe_invalid_content_length (put_header_state h l)

  -- `case s_header_value`.
  unfoldable pub step_header_value : Settings S → List ℕ → Locals S → Flow S (Next S)
  step_header_value settings bytes l =
      value_ended settings bytes l.p (value_loop (length bytes - l.p) bytes l.parser.header_state l)

  unfoldable pub value_started : Locals S → Option Parser → Flow S (Next S)
  unfolding fail
  value_started l none = fail hpe_invalid_content_length l
  value_started l (some q) = next (with_parser q l)

  -- `case s_header_value_start`.
  unfoldable pub step_header_value_start : Locals S → Flow S (Next S)
  step_header_value_start l =
      let q = record (l.parser) { index = 0 } in
      value_started
        (record l {
          header_value_mark = mark_at l.header_value_mark l.p;
          p_state = s_header_value;
          parser = q;
        })
        (value_start q.header_state l.ch q)

  -- `case s_header_value_discard_ws`, which falls through to the case above.
  unfoldable pub step_header_value_discard_ws : Locals S → Flow S (Next S)
  step_header_value_discard_ws l =
      if l.ch == b' ' || l.ch == 9
      then next l
      else if l.ch == cr
      then next (to_state s_header_value_discard_ws_almost_done l)
      else if l.ch == lf
      then next (to_state s_header_value_discard_lws l)
      else step_header_value_start l

  -- The switch that ends a header, here and in `case s_header_value_discard_lws`.
  abbrev pub flag_header : Locals S → Locals S
  flag_header l =
      with_parser (record (l.parser) { flags = set_flag l.parser.header_state l.parser.flags }) l

  -- `case s_header_value_lws`.
  unfoldable pub step_header_value_lws : Locals S → Flow S (Next S)
  unfolding set_flag
  step_header_value_lws l =
      if l.ch == b' ' || l.ch == 9
      then again (to_state s_header_value_start l)
      else again (to_state s_header_field_start (flag_header l))

  -- `case s_header_value_discard_lws`.
  unfoldable pub step_header_value_discard_lws : Settings S → Locals S → Flow S (Next S)
  unfolding set_flag
  step_header_value_discard_lws settings l =
      let l₁ = flag_header l in
      if l.ch == b' ' || l.ch == 9 then next (to_state s_header_value_discard_ws l) else do
        l' ← callback_header_value settings l.p l.p (
            to_state s_header_field_start
              (record l₁ { header_value_mark = mark_at l.header_value_mark l.p }))
        again l'
