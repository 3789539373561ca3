-- ===== src/Parser/Slices/Bodies.antt =====
-- The states behind the headers.
use my_warehouse.Parser.Enums.{
  hpe_strict, hpe_invalid_chunk_size, hpe_invalid_content_length, is_ok, s_message_done,
  s_headers_done, s_chunk_data, s_header_field_start, s_chunk_size_start, s_chunk_data_done,
  is_connect, hpe_cb_message_complete, hpe_cb_chunk_complete, hpe_cb_chunk_header,
}
use my_warehouse.Parser.Flow.{
  fail, with_parser, Flow, Next, next, again, return_at, ◌>>=◌, Locals, callback_notify, to_state,
}
use my_warehouse.Parser.State.{ullong_max, Settings, NotifyCallback, new_message}
use my_warehouse.Parser.Slices.{
  NotifyKeeps, Passed-then, Keeps, Marked, MarksAt, Held, Passed-next, Passed-again, if-Held,
  fail-Held, callback_notify-Passed, callback_body-Passed, IsMark-mark_at, Marks-mono,
}
use my_warehouse.Parser.Chars.{cr, lf, unhex}
use my_warehouse.Common.{
  ◌^◌, Option, none, some, ◌-◌, ◌/◌, ltb, not, ◌≤◌, Bool, ℕ, ◌+◌, ◌<◌, true, false, ◌≡◌, refl,
  arith, List, length, Bool-cases, inl, inr, if◌then◌else◌, ◌==◌, ◌&&◌, ◌||◌,
}
use my_warehouse.Parser.Body.{
  BodyKind, other_protocol, no_body, chunks, sized, until_eof, body_kind, enter_body,
  step_headers_almost_done, step_headers_done, step_body_identity, step_body_identity_eof,
  step_message_done, step_chunk_size_start, step_chunk_size, step_chunk_parameters,
  step_chunk_size_almost_done, step_chunk_data, step_chunk_data_almost_done, step_chunk_data_done,
  take_body, message_complete, chunk_digit, chunk_start, headers_complete,
}

module _ {S : Type 0} (P : S → Type 0) (settings : Settings S) (bytes : List ℕ)
    (keeps : Keeps P settings (length bytes)) (small : length bytes < 2 ^ 64) (l : Locals S)
    (inside : l.p < length bytes) (h : P l.app) (m : Marked l) where
  replied-Held :
      (b : Bool) (n : ℕ) (k : Locals S)
      → P k.app
      → Marked k
      → Held P (if b then again k else return_at n k)
  replied-Held true n k a b = (a, b)
  replied-Held false n k a b = a

  completed-Held :
      (k : Locals S) (rest : Locals S → Flow S (Next S))
      → k.p ≡ l.p
      → P k.app
      → Marked k
      → ((k' : Locals S) → P k'.app → Marked k' → k'.p ≡ k.p → Held P (rest k'))
      → Held P (message_complete settings k >>= rest)
  unfolding message_complete
  completed-Held k rest e a b f =
      Passed-then P k.p _ rest
        (callback_notify-Passed P settings.on_message_complete hpe_cb_message_complete (k.p + 1)
          (to_state (new_message k.parser) k) keeps.on_message_complete a b)
        f

  headers_complete-Held :
      (o : Option (NotifyCallback S)) (k : Locals S)
      → NotifyKeeps P o
      → P k.app
      → Marked k
      → Held P (headers_complete o k)
  unfolding headers_complete
  headers_complete-Held none k f a b = if-Held P (is_ok k.parser.http_errno) _ _ (a, b) a
  headers_complete-Held (some callback) k f a b = replied-Held _ k.p _ (f k.parser k.app a) b

  pub step_headers_almost_done-Held : Held P (step_headers_almost_done settings l)
  unfolding step_headers_almost_done
  step_headers_almost_done-Held =
      let upgrade =
        l.parser.flags.upgrade && l.parser.flags.connection_upgrade || is_connect l.parser.method in
      let k = to_state s_headers_done (with_parser (record (l.parser) { upgrade = upgrade }) l) in
      if-Held P (not (l.ch == lf)) _ _ (fail-Held P hpe_strict l h) (
        if-Held P l.parser.flags.trailing _ _
          (Passed-again P l.p _ (
            callback_notify-Passed P settings.on_chunk_complete hpe_cb_chunk_complete l.p
              (to_state s_message_done l) keeps.on_chunk_complete h m))
          (headers_complete-Held settings.on_headers_complete k keeps.on_headers_complete h m))

  enter_body-Held :
      (b : BodyKind) (k : Locals S)
      → k.p ≡ l.p
      → P k.app
      → Marked k
      → Held P (enter_body settings b k)
  unfolding enter_body
  enter_body-Held other_protocol k e a b = completed-Held k _ e a b (λ k' a' b' e'. a')
  enter_body-Held no_body k e a b = completed-Held k _ e a b (λ k' a' b' e'. (a', b'))
  enter_body-Held chunks k e a b = (a, b)
  enter_body-Held sized k e a b = (a, b)
  enter_body-Held until_eof k e a b = (a, b)

  pub step_headers_done-Held : Held P (step_headers_done settings l)
  unfolding step_headers_done
  step_headers_done-Held =
      let k = with_parser (record (l.parser) { nread = 0 }) l in
      if-Held P (not (l.ch == lf)) _ _ (fail-Held P hpe_strict l h)
        (enter_body-Held (body_kind k.parser) k refl h m)

  pub step_message_done-Held : Held P (step_message_done settings l)
  unfolding step_message_done
  step_message_done-Held =
      completed-Held l _ refl h m (λ k a b e. if-Held P k.parser.upgrade _ _ a (a, b))

  take_body-Marked :
      0 < l.parser.content_length
      → (l.p ≤ (take_body bytes l).p)
        × ((take_body bytes l).p < length bytes)
        × Marked (take_body bytes l)
  unfolding take_body
  take_body-Marked left =
      let b : MarksAt l.p (take_body bytes l) = record {
        in_field = m.in_field;
        in_value = m.in_value;
        in_url = m.in_url;
        in_body = IsMark-mark_at l.p l.body_mark m.in_body;
        in_status = m.in_status;
      } in
      (omega arith, omega arith, Marks-mono l.p _ _ _ _ _ _ (omega arith) b)

  pub step_body_identity-Held :
      0 < l.parser.content_length → Held P (step_body_identity settings bytes l)
  unfolding step_body_identity take_body
  step_body_identity-Held left =
      let k = take_body bytes l in
      let (i, j, b) = take_body-Marked left in
      if-Held P (k.parser.content_length == 0) _ _
        (Passed-again P k.p _ (
          callback_body-Passed P settings (length bytes) (k.p + 1) k.p keeps small
            (to_state s_message_done k) (omega arith) (omega arith) h b))
        (h, b)

  pub step_chunk_data-Held : 0 < l.parser.content_length → Held P (step_chunk_data bytes l)
  unfolding step_chunk_data take_body
  step_chunk_data-Held left =
      let (i, j, b) = take_body-Marked left in
      elim (Bool-cases ((take_body bytes l).parser.content_length == 0)) [
        | inl t ↦ rw t (h, b)
        | inr t ↦ rw t (h, b)
      ]

  pub step_body_identity_eof-Held : Held P (step_body_identity_eof bytes l)
  unfolding step_body_identity_eof
  step_body_identity_eof-Held = (
    h,
    Marks-mono l.p (length bytes - 1) _ _ _ _ _ (omega arith) record {
      in_field = m.in_field;
      in_value = m.in_value;
      in_url = m.in_url;
      in_body = IsMark-mark_at l.p l.body_mark m.in_body;
      in_status = m.in_status;
    },
  )

  chunk_start-Held : (o : Option ℕ) → Held P (chunk_start l o)
  unfolding chunk_start fail
  chunk_start-Held none = h
  chunk_start-Held (some x) = (h, m)

  pub step_chunk_size_start-Held : Held P (step_chunk_size_start l)
  unfolding step_chunk_size_start
  step_chunk_size_start-Held = chunk_start-Held (unhex l.ch)

  chunk_digit-Held : (o : Option ℕ) → Held P (chunk_digit l o)
  unfolding chunk_digit
  chunk_digit-Held none =
      if-Held P (l.ch == b';' || l.ch == b' ') _ _ (h, m) (fail-Held P hpe_invalid_chunk_size l h)
  chunk_digit-Held (some x) =
      if-Held P (ltb ((ullong_max - 16) / 16) l.parser.content_length) _ _
        (fail-Held P hpe_invalid_content_length l h) (h, m)

  pub step_chunk_size-Held : Held P (step_chunk_size l)
  unfolding step_chunk_size
  step_chunk_size-Held = if-Held P (l.ch == cr) _ _ (h, m) (chunk_digit-Held (unhex l.ch))

  pub step_chunk_parameters-Held : Held P (step_chunk_parameters l)
  unfolding step_chunk_parameters
  step_chunk_parameters-Held = if-Held P (l.ch == cr) _ _ (h, m) (h, m)

  chunk_header-Held :
      (k : Locals S)
      → P k.app
      → Marked k
      → Held P (
          callback_notify settings.on_chunk_header hpe_cb_chunk_header (l.p + 1) k >>= λ k'.
          next k')
  chunk_header-Held k a b = Passed-next P k.p _ (
      callback_notify-Passed P settings.on_chunk_header hpe_cb_chunk_header (l.p + 1) k
        keeps.on_chunk_header a b)

  pub step_chunk_size_almost_done-Held : Held P (step_chunk_size_almost_done settings l)
  unfolding step_chunk_size_almost_done
  step_chunk_size_almost_done-Held =
      let q = record (l.parser) { nread = 0 } in
      if-Held P (not (l.ch == lf)) _ _ (fail-Held P hpe_strict l h)
        (elim (Bool-cases (l.parser.content_length == 0)) [
          | inl t ↦ rw t (
              chunk_header-Held
                (to_state s_header_field_start
                  (with_parser (record q { flags = record (q.flags) { trailing = true } }) l))
                h m)
          | inr t ↦ rw t (chunk_header-Held (to_state s_chunk_data (with_parser q l)) h m)
        ])

  pub step_chunk_data_almost_done-Held : Held P (step_chunk_data_almost_done settings l)
  unfolding step_chunk_data_almost_done
  step_chunk_data_almost_done-Held = if-Held P (not (l.ch == cr)) _ _ (fail-Held P hpe_strict l h) (
      Passed-next P l.p _ (
        callback_body-Passed P settings (length bytes) l.p (l.p + 1) keeps small
          (to_state s_chunk_data_done l) (omega arith) (omega arith) h m))

  pub step_chunk_data_done-Held : Held P (step_chunk_data_done settings l)
  unfolding step_chunk_data_done
  step_chunk_data_done-Held = if-Held P (not (l.ch == lf)) _ _ (fail-Held P hpe_strict l h) (
      Passed-next P l.p _ (
        callback_notify-Passed P settings.on_chunk_complete hpe_cb_chunk_complete (l.p + 1)
          (to_state s_chunk_size_start (with_parser (record (l.parser) { nread = 0 }) l))
          keeps.on_chunk_complete h m))
