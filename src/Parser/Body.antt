-- ===== src/Parser/Body.antt =====
-- The states of `http_parser_execute` behind the headers: the end of the headers, the body by length
-- and to the end of the stream, the chunks, and the end of a message.
use my_warehouse.Parser.State.{
  Parser, http_message_needs_eof, Reply, Settings, NotifyCallback, ullong_max, new_message,
}
use my_warehouse.Common.{
  ℕ, ◌+◌, ◌-◌, ◌*◌, ◌/◌, ◌%◌, ◌^◌, min, true, not, ◌&&◌, ◌||◌, Option, none, some, List, length,
  ltb, ◌==◌, if◌then◌else◌,
}
use my_warehouse.Parser.Chars.{cr, lf, unhex}
use my_warehouse.Parser.Enums.{
  hpe_cb_message_complete, hpe_cb_chunk_header, hpe_cb_chunk_complete, hpe_cb_headers_complete,
  hpe_invalid_chunk_size, hpe_invalid_content_length, s_message_done, s_headers_done,
  s_chunk_size_start, s_body_identity, s_body_identity_eof, s_chunk_size, s_chunk_size_almost_done,
  s_chunk_parameters, s_header_field_start, s_chunk_data, s_chunk_data_almost_done,
  s_chunk_data_done, is_ok, is_connect,
}
use my_warehouse.Parser.Flow.{
  Locals, Flow, Next, ◌>>=◌, next, again, to_state, with_parser, return_at, fail, strict_check,
  callback_notify, callback_body, mark_at,
}

-- The ways in which a message goes on behind its headers.
pub data BodyKind : Type 0 where
  other_protocol no_body chunks sized until_eof : BodyKind

-- The tests of `case s_headers_done`, in their order.
unfoldable pub body_kind : Parser → BodyKind
unfolding http_message_needs_eof
body_kind q =
    let has_body =
      q.flags.chunked || ltb 0 q.content_length && not (q.content_length == ullong_max) in
    if q.upgrade && (is_connect q.method || q.flags.skipbody || not has_body)
    then other_protocol
    else if q.flags.skipbody
    then no_body
    else if q.flags.chunked
    then chunks
    else if q.content_length == 0
    then no_body
    else if not (q.content_length == ullong_max)
    then sized
    else if not (http_message_needs_eof q)
    then no_body
    else until_eof

module _ {S : Type 0} where
  -- What `case s_headers_almost_done` does with the reply of `on_headers_complete`.
  abbrev pub headers_replied : Locals S → Reply S → Flow S (Next S)
  headers_replied l r =
      let q = record (l.parser) { http_errno = r.http_errno } in
      let skip = record q { flags = record (q.flags) { skipbody = true } } in
      let failed = record q { http_errno = hpe_cb_headers_complete } in
      let q' = if r.result == 0 then q else if r.result == 1 then skip else failed in
      let l' = record l { parser = q'; app = r.app } in
      if is_ok q'.http_errno then again l' else return_at l.p l'

  unfoldable pub headers_complete : Option (NotifyCallback S) → Locals S → Flow S (Next S)
  headers_complete none l = if is_ok l.parser.http_errno then again l else return_at l.p l
  headers_complete (some callback) l = headers_replied l (callback l.parser l.app)

  -- `case s_headers_almost_done`.
  unfoldable pub step_headers_almost_done : Settings S → Locals S → Flow S (Next S)
  unfolding fail
  step_headers_almost_done settings l =
      let q = l.parser in
      let upgrade = q.flags.upgrade && q.flags.connection_upgrade || is_connect q.method in
      let headers =
        headers_complete settings.on_headers_complete
          (to_state s_headers_done (with_parser (record q { upgrade = upgrade }) l)) in
      let trailer = (do
        l' ←
            callback_notify settings.on_chunk_complete hpe_cb_chunk_complete l.p
              (to_state s_message_done l)
        again l') in
      strict_check (not (l.ch == lf)) l (if q.flags.trailing then trailer else headers)

  -- `UPDATE_STATE(NEW_MESSAGE()); CALLBACK_NOTIFY(message_complete);`.
  unfoldable pub message_complete : Settings S → Locals S → Flow S (Locals S)
  unfolding new_message
  message_complete settings l =
      callback_notify settings.on_message_complete hpe_cb_message_complete (l.p + 1)
        (to_state (new_message l.parser) l)

  -- What `case s_headers_done` does for each kind of body.
  unfoldable pub enter_body : Settings S → BodyKind → Locals S → Flow S (Next S)
  enter_body settings other_protocol l = do
    l' ← message_complete settings l
    return_at (l'.p + 1) l'
  enter_body settings no_body l = do l' ← message_complete settings l; next l'
  enter_body settings chunks l = next (to_state s_chunk_size_start l)
  enter_body settings sized l = next (to_state s_body_identity l)
  enter_body settings until_eof l = next (to_state s_body_identity_eof l)

  -- `case s_headers_done`.
  unfoldable pub step_headers_done : Settings S → Locals S → Flow S (Next S)
  unfolding fail
  step_headers_done settings l =
      let l₁ = with_parser (record (l.parser) { nread = 0 }) l in
      strict_check (not (l.ch == lf)) l (enter_body settings (body_kind l₁.parser) l₁)

  -- `to_read`, and the moves of the mark, the length and `p`, in `case s_body_identity` and
  -- `case s_chunk_data`.
  unfoldable pub take_body : List ℕ → Locals S → Locals S
  take_body bytes l =
      let to_read = min l.parser.content_length (length bytes - l.p) in
      record l {
        body_mark = mark_at l.body_mark l.p;
        parser = record (l.parser) { content_length = l.parser.content_length - to_read };
        p = l.p + to_read - 1;
      }

  -- `case s_body_identity`.
  unfoldable pub step_body_identity : Settings S → List ℕ → Locals S → Flow S (Next S)
  step_body_identity settings bytes l =
      let l₁ = take_body bytes l in
      if l₁.parser.content_length == 0
      then (do l' ← callback_body settings (l₁.p + 1) l₁.p (to_state s_message_done l₁); again l')
      else next l₁

  -- `case s_body_identity_eof`.
  unfoldable pub step_body_identity_eof : List ℕ → Locals S → Flow S (Next S)
  step_body_identity_eof bytes l =
      next (record l { body_mark = mark_at l.body_mark l.p; p = length bytes - 1 })

  -- `case s_message_done`.
  unfoldable pub step_message_done : Settings S → Locals S → Flow S (Next S)
  step_message_done settings l = do
    l' ← message_complete settings l
    if l'.parser.upgrade then return_at (l'.p + 1) l' else next l'

  unfoldable pub chunk_start : Locals S → Option ℕ → Flow S (Next S)
  unfolding fail
  chunk_start l none = fail hpe_invalid_chunk_size l
  chunk_start l (some digit) =
      next (to_state s_chunk_size (with_parser (record (l.parser) { content_length = digit }) l))

  -- `case s_chunk_size_start`.
  unfoldable pub step_chunk_size_start : Locals S → Flow S (Next S)
  step_chunk_size_start l = chunk_start l (unhex l.ch)

  unfoldable pub chunk_digit : Locals S → Option ℕ → Flow S (Next S)
  unfolding fail
  chunk_digit l none =
      if l.ch == b';' || l.ch == b' '
      then next (to_state s_chunk_parameters l)
      else fail hpe_invalid_chunk_size l
  chunk_digit l (some digit) =
      let t = (l.parser.content_length * 16 % 2 ^ 64 + digit) % 2 ^ 64 in
      if ltb ((ullong_max - 16) / 16) l.parser.content_length
      then fail hpe_invalid_content_length l
      else next (with_parser (record (l.parser) { content_length = t }) l)

  -- `case s_chunk_size`.
  unfoldable pub step_chunk_size : Locals S → Flow S (Next S)
  step_chunk_size l =
      if l.ch == cr then next (to_state s_chunk_size_almost_done l) else chunk_digit l (unhex l.ch)

  -- `case s_chunk_parameters`.
  unfoldable pub step_chunk_parameters : Locals S → Flow S (Next S)
  step_chunk_parameters l =
      if l.ch == cr then next (to_state s_chunk_size_almost_done l) else next l

  -- `case s_chunk_size_almost_done`.
  unfoldable pub step_chunk_size_almost_done : Settings S → Locals S → Flow S (Next S)
  unfolding fail
  step_chunk_size_almost_done settings l =
      let q = record (l.parser) { nread = 0 } in
      let last =
        to_state s_header_field_start
          (with_parser (record q { flags = record (q.flags) { trailing = true } }) l) in
      let more = to_state s_chunk_data (with_parser q l) in
      strict_check (not (l.ch == lf)) l do
        l' ←
            callback_notify settings.on_chunk_header hpe_cb_chunk_header (l.p + 1)
              (if q.content_length == 0 then last else more)
        next l'

  -- `case s_chunk_data`.
  unfoldable pub step_chunk_data : List ℕ → Locals S → Flow S (Next S)
  step_chunk_data bytes l =
      let l₁ = take_body bytes l in
      next (if l₁.parser.content_length == 0 then to_state s_chunk_data_almost_done l₁ else l₁)

  -- `case s_chunk_data_almost_done`.
  unfoldable pub step_chunk_data_almost_done : Settings S → Locals S → Flow S (Next S)
  unfolding fail
  step_chunk_data_almost_done settings l =
      strict_check (not (l.ch == cr)) l
        do l' ← callback_body settings l.p (l.p + 1) (to_state s_chunk_data_done l); next l'

  -- `case s_chunk_data_done`.
  unfoldable pub step_chunk_data_done : Settings S → Locals S → Flow S (Next S)
  unfolding fail
  step_chunk_data_done settings l = strict_check (not (l.ch == lf)) l do
    l' ←
        callback_notify settings.on_chunk_complete hpe_cb_chunk_complete (l.p + 1)
          (to_state s_chunk_size_start (with_parser (record (l.parser) { nread = 0 }) l))
    next l'
