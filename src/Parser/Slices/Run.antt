-- ===== src/Parser/Slices/Run.antt =====
-- The loop of `http_parser_execute` and the function as a whole, with its callbacks.
use my_warehouse.Parser.Progress.{Returned, InRange, Progress, Called, count_header_size-Called}
use my_warehouse.Parser.Progress.Run.{Returns, http_parser_execute-Returns, Visited, visit-Visited}
use my_warehouse.Common.{
  ℕ, zero, suc, ◌+◌, ◌^◌, ◌≤◌, ◌<◌, Bool, true, false, none, ◌≡◌, refl, arith, List, length,
  Bool-cases, inl, inr, get_or, ◌==◌, if◌then◌else◌,
}
use my_warehouse.Parser.Enums.{
  State, parsing_header, is_ok, s_dead, s_body_identity_eof, hpe_cb_message_complete,
}
use my_warehouse.Parser.State.{Parser, Settings}
use my_warehouse.Parser.Flow.{
  Locals, Flow, Next, continue, leave, spinning, advance, reexecute, ◌>>=◌, count_header_size,
}
use my_warehouse.Parser.Execute.{
  dispatch, run_states, visit, finish, run_bytes, enter, end_of_stream, http_parser_execute,
  state_fuel, url_open, field_open, value_open, status_open,
}
use my_warehouse.Parser.Progress.Dispatch.{dispatch-Progress}
use my_warehouse.Parser.Slices.{
  Keeps, Marks, Marked, IsMark, Held, Passed, Marks-mono, count_header_size-Passed,
  callback_notify-Passed, callback_header_field-Passed, callback_header_value-Passed,
  callback_url-Passed, callback_body-Passed, callback_status-Passed,
}
use my_warehouse.Parser.Slices.Dispatch.{dispatch-Held}

module _ {S : Type 0} (P : S → Type 0) where
  -- The outcome of a byte, and of the whole call.
  abbrev pub Kept : Flow S (Locals S) → Type 0
  Kept (continue l) = P l.app × Marked l
  Kept (leave q s n) = P s
  Kept spinning = Unit

  Passed-Kept :
      (p : ℕ) (m : Flow S (Locals S)) (rest : Locals S → Flow S (Locals S))
      → Passed P p m
      → ((l : Locals S) → P l.app → Marked l → l.p ≡ p → Kept (rest l))
      → Kept (m >>= rest)
  Passed-Kept p (continue l) rest h f = f l h.0 h.1 h.2
  Passed-Kept p (leave q s n) rest h f = h
  Passed-Kept p spinning rest h f = tt

  counted-Kept :
      (er p : ℕ) (k : Locals S) (m : Flow S (Locals S)) (rest : Locals S → Flow S (Locals S))
      → Called er k m
      → Passed P p m
      → ((l : Locals S) → Called er k (continue l) → P l.app → Marked l → Kept (rest l))
      → Kept (m >>= rest)
  counted-Kept er p k (continue l) rest c h f = f l c h.0 h.1
  counted-Kept er p k (leave q s n) rest c h f = h
  counted-Kept er p k spinning rest c h f = tt

  pass-Kept :
      (len : ℕ) (l : Locals S) (m : Flow S (Next S)) (rest : Locals S → Flow S (Locals S))
      → Progress len l m
      → Held P m
      → ((l' : Locals S)
          → l'.p < len
          → InRange l'.p_state l'.parser
          → P l'.app
          → Marked l'
          → Kept (rest l'))
      → Kept (elim m [
        | continue (advance l') ↦ continue l'
        | continue (reexecute l') ↦ rest l'
        | leave q s n ↦ leave q s n
        | spinning ↦ spinning
      ])
  pass-Kept len l (continue (advance l')) rest a h f = h
  pass-Kept len l (continue (reexecute l')) rest a h f = f l' a.1 a.2 h.0 h.1
  pass-Kept len l (leave q s n) rest a h f = h
  pass-Kept len l spinning rest a h f = tt

  Visited-Kept :
      (len p : ℕ) (m : Flow S (Locals S)) (rest : Locals S → Flow S (Locals S))
      → Visited len p m
      → Kept m
      → ((l : Locals S)
          → p ≤ l.p
          → l.p < len
          → InRange l.p_state l.parser
          → P l.app
          → Marked l
          → Kept (rest l))
      → Kept (elim m [ continue l ↦ rest l | leave q s n ↦ leave q s n | spinning ↦ spinning ])
  Visited-Kept len p (continue l) rest v h f = f l v.0 v.1 v.2 h.0 h.1
  Visited-Kept len p (leave q s n) rest v h f = h
  Visited-Kept len p spinning rest v h f = tt

  -- The call returns, with a state of the application that satisfies the predicate.
  abbrev pub Delivers : ℕ → Flow S (Locals S) → Type 0
  Delivers len (continue l) = ⊥
  Delivers len (leave q s n) = P s × Returned len q n
  Delivers len spinning = ⊥

  Delivers-both : (len : ℕ) (m : Flow S (Locals S)) → Returns len m → Kept m → Delivers len m
  Delivers-both len (continue l) r k = r
  Delivers-both len (leave q s n) r k = (k, r)
  Delivers-both len spinning r k = r

  if-Kept :
      (b : Bool) (x y : Flow S (Locals S))
      → (b ≡ true → Kept x)
      → (b ≡ false → Kept y)
      → Kept (if b then x else y)
  if-Kept true x y f g = f refl
  if-Kept false x y f g = g refl

url_open-IsMark : (s : State) → IsMark 0 (url_open s)
url_open-IsMark s_dead = tt
url_open-IsMark _ = ground arith

field_open-IsMark : (s : State) → IsMark 0 (field_open s)
field_open-IsMark s_dead = tt
field_open-IsMark _ = ground arith

value_open-IsMark : (s : State) → IsMark 0 (value_open s)
value_open-IsMark s_dead = tt
value_open-IsMark _ = ground arith

status_open-IsMark : (s : State) → IsMark 0 (status_open s)
status_open-IsMark s_dead = tt
status_open-IsMark _ = ground arith

opened-Marks :
    (q : Parser)
    → Marks 0
        (field_open q.state)
        (value_open q.state)
        (url_open q.state)
        none
        (status_open q.state)
opened-Marks q = record {
  in_field = field_open-IsMark q.state;
  in_value = value_open-IsMark q.state;
  in_url = url_open-IsMark q.state;
  in_body = tt;
  in_status = status_open-IsMark q.state;
}

module _ {S : Type 0} (P : S → Type 0) (settings : Settings S) (bytes : List ℕ)
    (keeps : Keeps P settings (length bytes)) (small : length bytes < 2 ^ 64) where
  run_states-Kept :
      (n : ℕ) (l : Locals S)
      → l.p < length bytes
      → InRange l.p_state l.parser
      → P l.app
      → Marked l
      → Kept P (run_states settings bytes n l)
  unfolding run_states
  run_states-Kept zero l i inv h m = tt
  run_states-Kept (suc n) l i inv h m =
      pass-Kept P (length bytes) l (dispatch settings bytes l.p_state l)
        (run_states settings bytes n) (dispatch-Progress settings bytes l.p_state l refl i inv)
        (dispatch-Held P settings bytes keeps small l.p_state l refl i inv h m)
        (λ l' i' inv' h' m'. run_states-Kept n l' i' inv' h' m')

  visit-Kept :
      (l : Locals S)
      → l.p < length bytes
      → InRange l.p_state l.parser
      → P l.app
      → Marked l
      → Kept P (visit settings bytes l)
  unfolding visit
  visit-Kept l i inv h m =
      let l₁ = record l { ch = get_or bytes l.p 0 } in
      if-Kept P (parsing_header l.p_state) _ _
        (λ t.
          counted-Kept P l.p l.p l₁ (count_header_size 1 l₁) (run_states settings bytes state_fuel)
            (count_header_size-Called 1 l₁ inv) (count_header_size-Passed P 1 l₁ h m)
            (λ l' c h' m'. run_states-Kept state_fuel l' (rw (c.0) i) c.5 h' m'))
        (λ t. run_states-Kept state_fuel l₁ i inv h m)

  finish-Kept :
      (l : Locals S) → l.p ≡ length bytes → P l.app → Marked l → Kept P (finish settings bytes l)
  unfolding finish
  finish-Kept l e h m =
      Passed-Kept P l.p _ _
        (callback_header_field-Passed P settings (length bytes) l.p l.p keeps small l (omega arith)
          (omega arith) h m)
        λ l₁ h₁ m₁ e₁.
          Passed-Kept P l₁.p _ _
            (callback_header_value-Passed P settings (length bytes) l.p l.p keeps small l₁
              (omega arith) (omega arith) h₁ m₁)
            λ l₂ h₂ m₂ e₂.
              Passed-Kept P l₂.p _ _
                (callback_url-Passed P settings (length bytes) l.p l.p keeps small l₂ (omega arith)
                  (omega arith) h₂ m₂)
                λ l₃ h₃ m₃ e₃.
                  Passed-Kept P l₃.p _ _
                    (callback_body-Passed P settings (length bytes) l.p l.p keeps small l₃
                      (omega arith) (omega arith) h₃ m₃)
                    λ l₄ h₄ m₄ e₄.
                      Passed-Kept P l₄.p _ _
                        (callback_status-Passed P settings (length bytes) l.p l.p keeps small l₄
                          (omega arith) (omega arith) h₄ m₄)
                        λ l₅ h₅ m₅ e₅. h₅

  run_bytes-Kept :
      (n : ℕ) (l : Locals S)
      → l.p ≤ length bytes
      → InRange l.p_state l.parser
      → P l.app
      → Marked l
      → Kept P (run_bytes settings bytes n l)
  unfolding run_bytes
  run_bytes-Kept zero l i inv h m =
      if-Kept P (l.p == length bytes) _ _ (λ e. finish-Kept l (ground arith) h m) (λ e. tt)
  run_bytes-Kept (suc n) l i inv h m =
      if-Kept P (l.p == length bytes) _ _ (λ e. finish-Kept l (ground arith) h m)
        (λ e.
          Visited-Kept P (length bytes) l.p (visit settings bytes l)
            (λ l'. run_bytes settings bytes n (record l' { p = l'.p + 1 }))
            (visit-Visited settings bytes l (ground arith) inv)
            (visit-Kept l (ground arith) inv h m)
            (λ l' a b inv' h' m'.
              run_bytes-Kept n (record l' { p = l'.p + 1 }) (omega arith) inv' h'
                (Marks-mono l'.p (l'.p + 1) _ _ _ _ _ (omega arith) m')))

  end_of_stream-Kept :
      (s : State) (l : Locals S) → P l.app → Marked l → Kept P (end_of_stream settings bytes s l)
  unfolding end_of_stream
  end_of_stream-Kept s_body_identity_eof l h m =
      Passed-Kept P l.p _ _
        (callback_notify-Passed P settings.on_message_complete hpe_cb_message_complete l.p l
          keeps.on_message_complete h m)
        (λ l' h' m' e. h')
  end_of_stream-Kept _ l h m = ground arith

  pub http_parser_execute-Kept :
      (q : Parser) (s : S)
      → (is_ok q.http_errno ≡ true → InRange q.state q)
      → P s
      → Kept P (http_parser_execute settings bytes q s)
  unfolding http_parser_execute enter
  http_parser_execute-Kept q s inv h = elim (Bool-cases (is_ok q.http_errno)) [
    | inl ok ↦ rw ok (
        if-Kept P (length bytes == 0) _ _
          (λ e. end_of_stream-Kept q.state (enter q s) h (opened-Marks q))
          (λ e.
            run_bytes-Kept (length bytes) (enter q s) (omega arith) (inv ok) h (opened-Marks q)))
    | inr bad ↦ rw bad h
  ]

  -- Let the callbacks keep a predicate on the application's state, the data callbacks whenever their
  -- slice lies inside the bytes that the call was given. Then for fewer than 2^64 bytes, at least one,
  -- and a parser that is in range unless it has an error, the call returns and the predicate holds: no
  -- callback is given a byte outside the bytes, for all the headers, bodies and chunks.
  pub http_parser_execute-Delivers :
      (q : Parser) (s : S)
      → (is_ok q.http_errno ≡ true → InRange q.state q)
      → 0 < length bytes
      → P s
      → Delivers P (length bytes) (http_parser_execute settings bytes q s)
  http_parser_execute-Delivers q s inv i h =
      Delivers-both P (length bytes) _ (http_parser_execute-Returns settings bytes q s inv i)
        (http_parser_execute-Kept q s inv h)
