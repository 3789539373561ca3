-- ===== src/Parser/Progress/Bodies.antt =====
-- The states behind the headers.
use my_warehouse.Common.{
  ◌∙◌, ℕ, ◌+◌, ◌<◌, true, false, Option, none, some, ◌≡◌, refl, arith, List, length, Bool-cases,
  inl, inr, if◌then◌else◌, ◌==◌, ◌&&◌, ◌||◌,
}
use my_warehouse.Parser.Body.{
  BodyKind, other_protocol, no_body, chunks, sized, until_eof, body_kind, enter_body,
  step_headers_almost_done, step_headers_done, step_body_identity, step_body_identity_eof,
  step_message_done, step_chunk_size_start, step_chunk_size, step_chunk_parameters,
  step_chunk_size_almost_done, step_chunk_data, step_chunk_data_almost_done, step_chunk_data_done,
  take_body, message_complete, chunk_digit, chunk_start, headers_complete,
}
use my_warehouse.Parser.Flow.{◌>>=◌, again, Locals, callback_notify, to_state, with_parser}
use my_warehouse.Parser.Progress.{
  if-Progress, InRange, Progress, Called, Called-next, Called-again, Called-then,
  callback_notify-Called, callback_body-Called, takes_body,
}
use my_warehouse.Parser.Chars.{lf, unhex}
use my_warehouse.Parser.Enums.{
  s_headers_almost_done, s_body_identity, s_message_done, s_headers_done, s_chunk_data,
  s_header_field_start, s_chunk_size_start, s_chunk_data_done, is_connect, hpe_cb_message_complete,
  hpe_cb_chunk_complete, hpe_cb_chunk_header,
}
use my_warehouse.Parser.State.{Parser, Settings, NotifyCallback, new_message}

-- A new message starts in a state that reads no body.
new_message-takes_body : (q : Parser) → takes_body (new_message q) ≡ false
unfolding new_message
new_message-takes_body q = ground arith

-- A body of known length is not empty.
body_kind-sized : (q : Parser) → body_kind q ≡ sized → 0 < q.content_length
unfolding body_kind
body_kind-sized q e = ground arith

body_kind-other_protocol : (q : Parser) → body_kind q ≡ other_protocol → q.upgrade ≡ true
unfolding body_kind
body_kind-other_protocol q e = ground arith

message_complete-Called :
    {S : Type 0} (settings : Settings S) (l : Locals S)
    → InRange l.p_state l.parser
    → Called (l.p + 1) (to_state (new_message l.parser) l) (message_complete settings l)
unfolding message_complete
message_complete-Called settings l inv =
    callback_notify-Called settings.on_message_complete hpe_cb_message_complete (l.p + 1)
      (to_state (new_message l.parser) l) refl (ground (arith, new_message-takes_body l.parser))

module _ {S : Type 0} (settings : Settings S) (bytes : List ℕ) (l : Locals S)
    (inside : l.p < length bytes) (inv : InRange l.p_state l.parser) where
  headers_complete-Progress :
      (callback : Option (NotifyCallback S)) (k : Locals S)
      → k.p ≡ l.p
      → k.p_state ≡ s_headers_done
      → l.p_state ≡ s_headers_almost_done
      → InRange k.p_state k.parser
      → Progress (length bytes) l (headers_complete callback k)
  unfolding headers_complete
  headers_complete-Progress none k a b e r = ground arith
  headers_complete-Progress (some callback) k a b e r = ground arith

  pub step_headers_almost_done-Progress :
      l.p_state ≡ s_headers_almost_done
      → Progress (length bytes) l (step_headers_almost_done settings l)
  unfolding step_headers_almost_done
  step_headers_almost_done-Progress e =
      let upgrade =
        l.parser.flags.upgrade && l.parser.flags.connection_upgrade || is_connect l.parser.method in
      let done = to_state s_message_done l in
      let k = to_state s_headers_done (with_parser (record (l.parser) { upgrade = upgrade }) l) in
      elim (Bool-cases (l.ch == lf)) [
        | inr c ↦ rw c (ground arith)
        | inl c ↦ rw c (
            if-Progress (length bytes) l l.parser.flags.trailing
              (do
                l' ← callback_notify settings.on_chunk_complete hpe_cb_chunk_complete l.p done
                again l')
              (headers_complete settings.on_headers_complete k)
              (λ t.
                Called-again (length bytes) l done _ (omega arith) (omega arith) (omega arith)
                  (rw e (omega arith))
                  (callback_notify-Called settings.on_chunk_complete hpe_cb_chunk_complete l.p done
                    refl (ground arith)))
              (λ t.
                headers_complete-Progress settings.on_headers_complete k refl refl e
                  (ground arith)))
      ]

  enter_body-Progress :
      (b : BodyKind) (k : Locals S)
      → k.p ≡ l.p
      → takes_body k.p_state ≡ false
      → InRange k.p_state k.parser
      → body_kind k.parser ≡ b
      → Progress (length bytes) l (enter_body settings b k)
  unfolding enter_body
  enter_body-Progress other_protocol k e h r b =
      Called-then (length bytes) l (to_state (new_message k.parser) k) _ _ (omega arith)
        (message_complete-Called settings k r)
        (λ k' c.
          (omega arith, λ ok. (ground arith, inl (c.3 ∙ body_kind-other_protocol k.parser b))))
  enter_body-Progress no_body k e h r b =
      Called-next (length bytes) l (to_state (new_message k.parser) k) _ (omega arith) (omega arith)
        (omega arith) (message_complete-Called settings k r)
  enter_body-Progress chunks k e h r b = ground arith
  enter_body-Progress sized k e h r b = ground (arith, body_kind-sized k.parser b)
  enter_body-Progress until_eof k e h r b = ground arith

  pub step_headers_done-Progress :
      l.p_state ≡ s_headers_done → Progress (length bytes) l (step_headers_done settings l)
  unfolding step_headers_done
  step_headers_done-Progress e =
      let k = with_parser (record (l.parser) { nread = 0 }) l in
      elim (Bool-cases (l.ch == lf)) [
        | inr c ↦ rw c (ground arith)
        | inl c ↦ rw c (enter_body-Progress (body_kind k.parser) k refl (rw e) (ground arith) refl)
      ]

  pub step_message_done-Progress : Progress (length bytes) l (step_message_done settings l)
  unfolding step_message_done
  step_message_done-Progress =
      Called-then (length bytes) l (to_state (new_message l.parser) l) _ _ (omega arith)
        (message_complete-Called settings l inv) (λ k' c. ground arith)

  pub step_body_identity-Progress :
      l.p_state ≡ s_body_identity → Progress (length bytes) l (step_body_identity settings bytes l)
  unfolding step_body_identity take_body
  step_body_identity-Progress e =
      let left = inv.body_left (rw e) in
      let k = take_body bytes l in
      elim (Bool-cases (k.parser.content_length == 0)) [
        | inl c ↦ rw c (
            Called-again (length bytes) l (to_state s_message_done k) _ (omega arith) (omega arith)
              (omega arith) (rw e (omega arith))
              (callback_body-Called settings (k.p + 1) k.p (to_state s_message_done k)
                (ground arith)))
        | inr c ↦ rw c (ground arith)
      ]

  pub step_chunk_data-Progress :
      l.p_state ≡ s_chunk_data → Progress (length bytes) l (step_chunk_data bytes l)
  unfolding step_chunk_data take_body
  step_chunk_data-Progress e = ground (arith, inv.body_left (rw e))

  pub step_body_identity_eof-Progress :
      takes_body l.p_state ≡ false → Progress (length bytes) l (step_body_identity_eof bytes l)
  unfolding step_body_identity_eof
  step_body_identity_eof-Progress h = ground arith

  chunk_start-Progress : (o : Option ℕ) → Progress (length bytes) l (chunk_start l (unhex l.ch))
  unfolding chunk_start unhex
  chunk_start-Progress o = ground arith

  pub step_chunk_size_start-Progress : Progress (length bytes) l (step_chunk_size_start l)
  unfolding step_chunk_size_start
  step_chunk_size_start-Progress = chunk_start-Progress none

  chunk_digit-Progress :
      (o : Option ℕ) → takes_body l.p_state ≡ false → Progress (length bytes) l (chunk_digit l o)
  unfolding chunk_digit
  chunk_digit-Progress none h = ground arith
  chunk_digit-Progress (some d) h = ground arith

  pub step_chunk_size-Progress :
      takes_body l.p_state ≡ false → Progress (length bytes) l (step_chunk_size l)
  unfolding step_chunk_size
  step_chunk_size-Progress h = ground (arith, chunk_digit-Progress (unhex l.ch))

  pub step_chunk_parameters-Progress : Progress (length bytes) l (step_chunk_parameters l)
  unfolding step_chunk_parameters
  step_chunk_parameters-Progress = ground arith

  pub step_chunk_data_almost_done-Progress :
      Progress (length bytes) l (step_chunk_data_almost_done settings l)
  unfolding step_chunk_data_almost_done
  step_chunk_data_almost_done-Progress =
      ground (arith, callback_body-Called settings l.p (l.p + 1) (to_state s_chunk_data_done l))

  pub step_chunk_data_done-Progress : Progress (length bytes) l (step_chunk_data_done settings l)
  unfolding step_chunk_data_done
  step_chunk_data_done-Progress = ground (
    arith,
    callback_notify-Called settings.on_chunk_complete hpe_cb_chunk_complete (l.p + 1)
        (to_state s_chunk_size_start (with_parser (record (l.parser) { nread = 0 }) l)) refl,
  )

  pub step_chunk_size_almost_done-Progress :
      Progress (length bytes) l (step_chunk_size_almost_done settings l)
  unfolding step_chunk_size_almost_done
  step_chunk_size_almost_done-Progress =
      let q = record (l.parser) { nread = 0 } in
      let k =
        if q.content_length == 0
        then to_state s_header_field_start
            (with_parser (record q { flags = record (q.flags) { trailing = true } }) l)
        else to_state s_chunk_data (with_parser q l) in
      elim (Bool-cases (l.ch == lf)) [
        | inr c ↦ rw c (ground arith)
        | inl c ↦ rw c (
            Called-next (length bytes) l k _ (ground arith) (ground arith) (omega arith) (
              callback_notify-Called settings.on_chunk_header hpe_cb_chunk_header (l.p + 1) k refl
                (ground arith)))
      ]
