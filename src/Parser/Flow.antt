-- ===== src/Parser/Flow.antt =====
-- The local variables of `http_parser_execute`, the ways in which a state's code ends, and the macros
-- CALLBACK_NOTIFY, CALLBACK_DATA, STRICT_CHECK, COUNT_HEADER_SIZE, MARK and SET_ERRNO with `goto error`.
-- Assertions are taken as compiled out, as release.mak does.
use my_warehouse.Common.{ℕ, ◌+◌, ◌-◌, ◌%◌, ◌^◌, Bool, Option, none, some, ltb, ◌==◌, if◌then◌else◌}
use my_warehouse.Parser.Enums.{
  Errno, hpe_unknown, hpe_strict, hpe_header_overflow, hpe_cb_status, hpe_cb_url,
  hpe_cb_header_field, hpe_cb_header_value, hpe_cb_body, State, is_ok,
}
use my_warehouse.Parser.State.{
  Parser, Reply, NotifyCallback, DataCallback, Settings, http_max_header_size,
}

-- A pointer into the bytes is an offset, and a mark is `none` where the pointer is null. `ch` is the
-- variable of that name, which a `reexecute` does not read again.
pub record Locals (S : Type 0) : Type 0 where
  pub parser : Parser
  pub p_state : State
  pub p : ℕ
  pub ch : ℕ
  pub header_field_mark : Option ℕ
  pub header_value_mark : Option ℕ
  pub url_mark : Option ℕ
  pub body_mark : Option ℕ
  pub status_mark : Option ℕ
  pub app : S

-- Either the code goes on, or `http_parser_execute` returns a number of bytes. `spinning` says that a
-- loop of the model ran out of fuel.
pub data Flow (S : Type 0) (A : Type 0) : Type 0 where
  continue : A → Flow S A
  leave : Parser → S → ℕ → Flow S A
  spinning : Flow S A

-- A `break` out of the switch, or `goto reexecute`.
pub data Next (S : Type 0) : Type 0 where
  advance : Locals S → Next S
  reexecute : Locals S → Next S

infixl 5 ◌>>=◌
abbrev pub ◌>>=◌ : {S A B : Type 0} → Flow S A → (A → Flow S B) → Flow S B
continue a >>= f = f a
leave q s n >>= f = leave q s n
spinning >>= f = spinning

-- `MARK(FOR)`: a mark that is set stays.
abbrev pub mark_at : Option ℕ → ℕ → Option ℕ
mark_at none p = some p
mark_at (some m) p = some m

module _ {S : Type 0} where
  abbrev pub next : Locals S → Flow S (Next S)
  next l = continue (advance l)

  abbrev pub again : Locals S → Flow S (Next S)
  again l = continue (reexecute l)

  -- `UPDATE_STATE(V)`.
  abbrev pub to_state : State → Locals S → Locals S
  to_state s l = record l { p_state = s }

  abbrev pub with_parser : Parser → Locals S → Locals S
  with_parser q l = record l { parser = q }

  -- `RETURN(V)`.
  abbrev pub return_at : {A : Type 0} → ℕ → Locals S → Flow S A
  return_at n l = leave (record (l.parser) { state = l.p_state }) l.app n

  -- `SET_ERRNO(e); goto error;` and the code at the label.
  unfoldable pub fail : {A : Type 0} → Errno → Locals S → Flow S A
  fail e l =
      leave
        (record (l.parser) { http_errno = if is_ok e then hpe_unknown else e; state = l.p_state })
        l.app l.p

  -- `STRICT_CHECK(cond)`, in strict mode.
  abbrev pub strict_check : Bool → Locals S → Flow S (Next S) → Flow S (Next S)
  strict_check cond l rest = if cond then fail hpe_strict l else rest

  -- `COUNT_HEADER_SIZE(V)`.
  unfoldable pub count_header_size : ℕ → Locals S → Flow S (Locals S)
  unfolding fail
  count_header_size v l =
      let n = (l.parser.nread + v) % 2 ^ 32 in
      let l' = record l { parser = record (l.parser) { nread = n } } in
      if ltb http_max_header_size n then fail hpe_header_overflow l' else continue l'

  -- What CALLBACK_NOTIFY_ and CALLBACK_DATA_ do after the call.
  unfoldable pub after_reply : Errno → ℕ → Locals S → Reply S → Flow S (Locals S)
  after_reply e er l r =
      let errno = if r.result == 0 then r.http_errno else e in
      let q = record (l.parser) { state = l.p_state; http_errno = errno } in
      if is_ok errno then continue (record l { parser = q; app = r.app }) else leave q r.app er

  -- `CALLBACK_NOTIFY_(FOR, ER)`: `e` is HPE_CB_FOR.
  unfoldable pub callback_notify :
      Option (NotifyCallback S) → Errno → ℕ → Locals S → Flow S (Locals S)
  unfolding after_reply
  callback_notify none e er l = continue l
  callback_notify (some callback) e er l =
      after_reply e er l (callback (record (l.parser) { state = l.p_state }) l.app)

  -- `CALLBACK_DATA_(FOR, LEN, ER)` with the mark of FOR, where LEN is `end` less the mark, a
  -- `size_t`. The callers
  -- below clear the mark.
  unfoldable pub callback_data :
      Option (DataCallback S) → Errno → Option ℕ → ℕ → ℕ → Locals S → Flow S (Locals S)
  unfolding after_reply
  callback_data callback e none end er l = continue l
  callback_data none e (some mark) end er l = continue l
  callback_data (some callback) e (some mark) end er l = after_reply e er l (
      callback (record (l.parser) { state = l.p_state }) mark ((end + 2 ^ 64 - mark) % 2 ^ 64)
        l.app)

  unfoldable pub callback_status : Settings S → ℕ → ℕ → Locals S → Flow S (Locals S)
  unfolding callback_data
  callback_status settings end er l = do
    l' ← callback_data settings.on_status hpe_cb_status l.status_mark end er l
    continue (record l' { status_mark = none })

  unfoldable pub callback_url : Settings S → ℕ → ℕ → Locals S → Flow S (Locals S)
  unfolding callback_data
  callback_url settings end er l = do
    l' ← callback_data settings.on_url hpe_cb_url l.url_mark end er l
    continue (record l' { url_mark = none })

  unfoldable pub callback_header_field : Settings S → ℕ → ℕ → Locals S → Flow S (Locals S)
  unfolding callback_data
  callback_header_field settings end er l = do
    l' ← callback_data settings.on_header_field hpe_cb_header_field l.header_field_mark end er l
    continue (record l' { header_field_mark = none })

  unfoldable pub callback_header_value : Settings S → ℕ → ℕ → Locals S → Flow S (Locals S)
  unfolding callback_data
  callback_header_value settings end er l = do
    l' ← callback_data settings.on_header_value hpe_cb_header_value l.header_value_mark end er l
    continue (record l' { header_value_mark = none })

  unfoldable pub callback_body : Settings S → ℕ → ℕ → Locals S → Flow S (Locals S)
  unfolding callback_data
  callback_body settings end er l = do
    l' ← callback_data settings.on_body hpe_cb_body l.body_mark end er l
    continue (record l' { body_mark = none })
