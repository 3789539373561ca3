-- ===== src/Parser/Slices.antt =====
-- What the callbacks of `http_parser_execute` are given, and what they keep: a predicate on the
-- application's state, for callbacks that keep it whenever their slice lies inside the bytes.
pub mod Lines
pub mod Headers
pub mod Values
pub mod Bodies
pub mod Dispatch
pub mod Run
use my_warehouse.Parser.State.{
  http_max_header_size, Parser, Settings, Reply, NotifyCallback, DataCallback,
}
use my_warehouse.Common.{
  ltb, ◌∙◌, ℕ, ◌+◌, ◌-◌, ◌%◌, ◌^◌, ◌≤◌, ◌<◌, ◌≡◌, refl, arith, true, false, Option, none, some,
  Bool, Bool-cases, inl, inr, if◌then◌else◌, ◌==◌,
}
use my_warehouse.Parser.Enums.{
  Errno, is_ok, hpe_cb_status, hpe_cb_url, hpe_cb_header_field, hpe_cb_header_value, hpe_cb_body,
}
use my_warehouse.Parser.Flow.{
  Locals, Flow, Next, continue, leave, spinning, advance, reexecute, ◌>>=◌, next, again, fail,
  mark_at, after_reply, callback_notify, callback_data, callback_status, callback_url,
  callback_header_field, callback_header_value, callback_body, count_header_size,
}

-- A mark that is set is not past `p`.
abbrev pub IsMark : ℕ → Option ℕ → Type 0
IsMark p none = Unit
IsMark p (some m) = m ≤ p

-- The five marks.
pub record Marks (p : ℕ) (field value url body status : Option ℕ) : Type 0 where
  pub in_field : IsMark p field
  pub in_value : IsMark p value
  pub in_url : IsMark p url
  pub in_body : IsMark p body
  pub in_status : IsMark p status

pub IsMark-mono : (p q : ℕ) (o : Option ℕ) → p ≤ q → IsMark p o → IsMark q o
IsMark-mono p q none h m = tt
IsMark-mono p q (some x) h m = omega arith

pub IsMark-mark_at : (p : ℕ) (o : Option ℕ) → IsMark p o → IsMark p (mark_at o p)
IsMark-mark_at p none m = omega arith
IsMark-mark_at p (some x) m = m

pub Marks-mono : (p q : ℕ) (a b c d e : Option ℕ) → p ≤ q → Marks p a b c d e → Marks q a b c d e
Marks-mono p q a b c d e h m = record {
  in_field = IsMark-mono p q a h m.in_field;
  in_value = IsMark-mono p q b h m.in_value;
  in_url = IsMark-mono p q c h m.in_url;
  in_body = IsMark-mono p q d h m.in_body;
  in_status = IsMark-mono p q e h m.in_status;
}

-- No mark is past an offset, and none is past `p`.
abbrev pub MarksAt : {S : Type 0} → ℕ → Locals S → Type 0
MarksAt p l = Marks p l.header_field_mark l.header_value_mark l.url_mark l.body_mark l.status_mark

abbrev pub Marked : {S : Type 0} → Locals S → Type 0
Marked l = MarksAt l.p l

module _ {S : Type 0} (P : S → Type 0) where
  abbrev pub NotifyKeeps : Option (NotifyCallback S) → Type 0
  NotifyKeeps none = Unit
  NotifyKeeps (some callback) = (q : Parser) (s : S) → P s → P (callback q s).app

  -- The callback may count on a slice inside the bytes.
  abbrev pub DataKeeps : ℕ → Option (DataCallback S) → Type 0
  DataKeeps total none = Unit
  DataKeeps total (some callback) =
      (q : Parser) (at n : ℕ) (s : S) → P s → at + n ≤ total → P (callback q at n s).app

  pub record Keeps (settings : Settings S) (total : ℕ) : Type 0 where
    pub on_message_begin : NotifyKeeps settings.on_message_begin
    pub on_url : DataKeeps total settings.on_url
    pub on_status : DataKeeps total settings.on_status
    pub on_header_field : DataKeeps total settings.on_header_field
    pub on_header_value : DataKeeps total settings.on_header_value
    pub on_headers_complete : NotifyKeeps settings.on_headers_complete
    pub on_body : DataKeeps total settings.on_body
    pub on_message_complete : NotifyKeeps settings.on_message_complete
    pub on_chunk_header : NotifyKeeps settings.on_chunk_header
    pub on_chunk_complete : NotifyKeeps settings.on_chunk_complete

  -- The outcome of the code of one state.
  abbrev pub Held : Flow S (Next S) → Type 0
  Held (continue (advance l)) = P l.app × Marked l
  Held (continue (reexecute l)) = P l.app × Marked l
  Held (leave q s n) = P s
  Held spinning = Unit

  -- The outcome of a callback at `p`.
  abbrev pub Passed : ℕ → Flow S (Locals S) → Type 0
  Passed p (continue l) = P l.app × Marked l × (l.p ≡ p)
  Passed p (leave q s n) = P s
  Passed p spinning = Unit

  pub Passed-next : (p : ℕ) (m : Flow S (Locals S)) → Passed p m → Held (m >>= λ l. next l)
  Passed-next p (continue l) h = (h.0, h.1)
  Passed-next p (leave q s n) h = h
  Passed-next p spinning h = tt

  pub Passed-again : (p : ℕ) (m : Flow S (Locals S)) → Passed p m → Held (m >>= λ l. again l)
  Passed-again p (continue l) h = (h.0, h.1)
  Passed-again p (leave q s n) h = h
  Passed-again p spinning h = tt

  pub Passed-then :
      (p : ℕ) (m : Flow S (Locals S)) (rest : Locals S → Flow S (Next S))
      → Passed p m
      → ((l : Locals S) → P l.app → Marked l → l.p ≡ p → Held (rest l))
      → Held (m >>= rest)
  Passed-then p (continue l) rest h f = f l h.0 h.1 h.2
  Passed-then p (leave q s n) rest h f = h
  Passed-then p spinning rest h f = tt

  pub if-Held : (b : Bool) (x y : Flow S (Next S)) → Held x → Held y → Held (if b then x else y)
  if-Held true x y f g = f
  if-Held false x y f g = g

  pub fail-Held : (e : Errno) (l : Locals S) → P l.app → Held (fail e l)
  unfolding fail
  fail-Held e l h = h

  after_reply-Passed :
      (e : Errno) (er : ℕ) (l : Locals S) (r : Reply S)
      → P r.app
      → Marked l
      → Passed l.p (after_reply e er l r)
  unfolding after_reply
  after_reply-Passed e er l r h m =
      elim (Bool-cases (is_ok (if r.result == 0 then r.http_errno else e))) [
        | inl t ↦ rw t (h, m, refl)
        | inr t ↦ rw t h
      ]

  pub callback_notify-Passed :
      (o : Option (NotifyCallback S)) (e : Errno) (er : ℕ) (l : Locals S)
      → NotifyKeeps o
      → P l.app
      → Marked l
      → Passed l.p (callback_notify o e er l)
  unfolding callback_notify
  callback_notify-Passed none e er l k h m = (h, m, refl)
  callback_notify-Passed (some callback) e er l k h m =
      after_reply-Passed e er l (callback (record (l.parser) { state = l.p_state }) l.app)
        (k (record (l.parser) { state = l.p_state }) l.app h) m

  pub callback_data-Passed :
      (total : ℕ) (o : Option (DataCallback S)) (e : Errno) (mark : Option ℕ) (end er : ℕ)
      (l : Locals S)
      → DataKeeps total o
      → total < 2 ^ 64
      → end ≤ total
      → IsMark end mark
      → P l.app
      → Marked l
      → Passed l.p (callback_data o e mark end er l)
  unfolding callback_data
  callback_data-Passed total none e none end er l k t i j h m = (h, m, refl)
  callback_data-Passed total none e (some x) end er l k t i j h m = (h, m, refl)
  callback_data-Passed total (some callback) e none end er l k t i j h m = (h, m, refl)
  callback_data-Passed total (some callback) e (some x) end er l k t i j h m =
      after_reply-Passed e er l
        (callback (record (l.parser) { state = l.p_state }) x ((end + 2 ^ 64 - x) % 2 ^ 64) l.app)
        (k (record (l.parser) { state = l.p_state }) x ((end + 2 ^ 64 - x) % 2 ^ 64) l.app h
          (omega arith))
        m

  cleared-Passed :
      (p : ℕ) (m : Flow S (Locals S)) (clear : Locals S → Locals S)
      → ((k : Locals S)
          → P k.app
          → Marked k
          → P (clear k).app × Marked (clear k) × ((clear k).p ≡ k.p))
      → Passed p m
      → Passed p (m >>= λ k. continue (clear k))
  cleared-Passed p (continue k) clear keep h = let (a, b, c) = keep k h.0 h.1 in (a, b, c ∙ h.2)
  cleared-Passed p (leave q s n) clear keep h = h
  cleared-Passed p spinning clear keep h = tt

  module _ (settings : Settings S) (total end er : ℕ) (keeps : Keeps settings total)
      (small : total < 2 ^ 64) (l : Locals S) (inside : end ≤ total) (before : l.p ≤ end)
      (h : P l.app) (m : Marked l) where
    pub callback_status-Passed : Passed l.p (callback_status settings end er l)
    unfolding callback_status
    callback_status-Passed =
        cleared-Passed l.p _ (λ k. record k { status_mark = none })
          (λ k a b. (
            a,
            record {
              in_field = b.in_field;
              in_value = b.in_value;
              in_url = b.in_url;
              in_body = b.in_body;
              in_status = tt;
            },
            refl,
          ))
          (callback_data-Passed total settings.on_status hpe_cb_status l.status_mark end er l
            keeps.on_status small inside (IsMark-mono l.p end l.status_mark before m.in_status) h m)

    pub callback_url-Passed : Passed l.p (callback_url settings end er l)
    unfolding callback_url
    callback_url-Passed =
        cleared-Passed l.p _ (λ k. record k { url_mark = none })
          (λ k a b. (
            a,
            record {
              in_field = b.in_field;
              in_value = b.in_value;
              in_url = tt;
              in_body = b.in_body;
              in_status = b.in_status;
            },
            refl,
          ))
          (callback_data-Passed total settings.on_url hpe_cb_url l.url_mark end er l keeps.on_url
            small inside (IsMark-mono l.p end l.url_mark before m.in_url) h m)

    pub callback_header_field-Passed : Passed l.p (callback_header_field settings end er l)
    unfolding callback_header_field
    callback_header_field-Passed =
        cleared-Passed l.p _ (λ k. record k { header_field_mark = none })
          (λ k a b. (
            a,
            record {
              in_field = tt;
              in_value = b.in_value;
              in_url = b.in_url;
              in_body = b.in_body;
              in_status = b.in_status;
            },
            refl,
          ))
          (callback_data-Passed total settings.on_header_field hpe_cb_header_field
            l.header_field_mark end er l keeps.on_header_field small inside
            (IsMark-mono l.p end l.header_field_mark before m.in_field) h m)

    pub callback_header_value-Passed : Passed l.p (callback_header_value settings end er l)
    unfolding callback_header_value
    callback_header_value-Passed =
        cleared-Passed l.p _ (λ k. record k { header_value_mark = none })
          (λ k a b. (
            a,
            record {
              in_field = b.in_field;
              in_value = tt;
              in_url = b.in_url;
              in_body = b.in_body;
              in_status = b.in_status;
            },
            refl,
          ))
          (callback_data-Passed total settings.on_header_value hpe_cb_header_value
            l.header_value_mark end er l keeps.on_header_value small inside
            (IsMark-mono l.p end l.header_value_mark before m.in_value) h m)

    pub callback_body-Passed : Passed l.p (callback_body settings end er l)
    unfolding callback_body
    callback_body-Passed =
        cleared-Passed l.p _ (λ k. record k { body_mark = none })
          (λ k a b. (
            a,
            record {
              in_field = b.in_field;
              in_value = b.in_value;
              in_url = b.in_url;
              in_body = tt;
              in_status = b.in_status;
            },
            refl,
          ))
          (callback_data-Passed total settings.on_body hpe_cb_body l.body_mark end er l
            keeps.on_body small inside (IsMark-mono l.p end l.body_mark before m.in_body) h m)

  pub count_header_size-Passed :
      (v : ℕ) (l : Locals S) → P l.app → Marked l → Passed l.p (count_header_size v l)
  unfolding count_header_size fail
  count_header_size-Passed v l h m = ground arith

  -- `COUNT_HEADER_SIZE(V)`, and what follows it: only the parser changes.
  pub count_header_size-Held :
      (v : ℕ) (l : Locals S) (rest : Locals S → Flow S (Next S))
      → P l.app
      → ((q : Parser) → Held (rest (record l { parser = q })))
      → Held (count_header_size v l >>= rest)
  unfolding count_header_size fail
  count_header_size-Held v l rest h f =
      let n = (l.parser.nread + v) % 2 ^ 32 in
      elim (Bool-cases (ltb http_max_header_size n)) [
        | inl t ↦ rw t h
        | inr t ↦ rw t (f (record (l.parser) { nread = n }))
      ]
