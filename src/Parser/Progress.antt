-- ===== src/Parser/Progress.antt =====
-- What is asked of one pass through the switch of `http_parser_execute`, as predicates on how it ends,
-- and of the macros for callbacks.
pub mod Lines
pub mod Headers
pub mod Values
pub mod Bodies
pub mod Dispatch
pub mod Run
use my_warehouse.Common.{
  ◌+◌, ◌%◌, ◌^◌, ◌-◌, Bool-cases, inl, inr, false, if◌then◌else◌, ◌==◌, ℕ, ◌≤◌, ◌<◌, Bool, true,
  Option, none, some, ◌≡◌, ◌⊎◌, refl, arith,
}
use my_warehouse.Parser.Flow.{
  ◌>>=◌, next, again, callback_status, callback_url, callback_header_field, callback_header_value,
  callback_body, Locals, Flow, Next, continue, leave, spinning, advance, reexecute, after_reply,
  callback_notify, callback_data, count_header_size, fail,
}
use my_warehouse.Parser.State.{
  Settings, Parser, ullong_max, http_max_header_size, Reply, NotifyCallback, DataCallback,
}
use my_warehouse.Parser.Enums.{
  s_chunk_data, hpe_cb_status, hpe_cb_url, hpe_cb_header_field, hpe_cb_header_value, hpe_cb_body,
  State, s_start_req_or_res, s_header_field_start, s_header_value, s_header_value_lws,
  s_header_value_discard_lws, s_headers_almost_done, s_body_identity, Errno, is_ok,
}

-- The states that take bytes of a body whose length is known.
abbrev pub takes_body : State → Bool
takes_body s_body_identity = true
takes_body s_chunk_data = true
takes_body _ = false

-- The parser between two bytes, in a state.
pub record InRange (s : State) (q : Parser) : Type 0 where
  pub major : q.http_major ≤ 999
  pub minor : q.http_minor ≤ 999
  pub status : q.status_code ≤ 999
  pub content : q.content_length ≤ ullong_max
  pub header_bytes : q.nread ≤ http_max_header_size
  pub no_error : is_ok q.http_errno ≡ true
  pub body_left : takes_body s ≡ true → 0 < q.content_length

-- How many times the switch can be entered again for the same byte.
abbrev pub rank : State → ℕ
rank s_start_req_or_res = 1
rank s_header_field_start = 2
rank s_header_value = 1
rank s_header_value_lws = 3
rank s_header_value_discard_lws = 3
rank s_headers_almost_done = 1
rank s_body_identity = 1
rank _ = 0

-- What holds where `http_parser_execute` returns `n` for `len` bytes.
abbrev pub Returned : ℕ → Parser → ℕ → Type 0
Returned len q n =
    (n ≤ len) × (is_ok q.http_errno ≡ true → InRange q.state q × ((q.upgrade ≡ true) ⊎ (n ≡ len)))

module _ {S : Type 0} where
  -- The outcome of the code of one state.
  abbrev pub Progress : ℕ → Locals S → Flow S (Next S) → Type 0
  Progress len l (continue (advance l')) =
      (l.p ≤ l'.p) × (l'.p < len) × InRange l'.p_state l'.parser
  Progress len l (continue (reexecute l')) =
      (l.p ≤ l'.p)
      × (l'.p < len)
      × InRange l'.p_state l'.parser
      × (rank l'.p_state < rank l.p_state)
  Progress len l (leave q s n) = Returned len q n
  Progress len l spinning = ⊥

  -- The outcome of a callback, which may only raise an error.
  abbrev pub Called : ℕ → Locals S → Flow S (Locals S) → Type 0
  Called er l (continue l') =
      (l'.p ≡ l.p)
      × (l'.p_state ≡ l.p_state)
      × (l'.parser.content_length ≡ l.parser.content_length)
      × (l'.parser.upgrade ≡ l.parser.upgrade)
      × (l'.ch ≡ l.ch)
      × InRange l'.p_state l'.parser
  Called er l (leave q s n) = (n ≡ er) × (is_ok q.http_errno ≡ false)
  Called er l spinning = ⊥

  pub after_reply-Called :
      (e : Errno) (er : ℕ) (l : Locals S) (r : Reply S)
      → is_ok e ≡ false
      → InRange l.p_state l.parser
      → Called er l (after_reply e er l r)
  unfolding after_reply
  after_reply-Called e er l r bad inv =
      elim (Bool-cases (is_ok (if r.result == 0 then r.http_errno else e))) [
        | inl ok ↦ rw ok (
          refl,
          refl,
          refl,
          refl,
          refl,
          record {
            major = inv.major;
            minor = inv.minor;
            status = inv.status;
            content = inv.content;
            header_bytes = inv.header_bytes;
            no_error = ok;
            body_left = inv.body_left;
          },
        )
        | inr error ↦ rw error (refl, error)
      ]

  pub callback_notify-Called :
      (callback : Option (NotifyCallback S)) (e : Errno) (er : ℕ) (l : Locals S)
      → is_ok e ≡ false
      → InRange l.p_state l.parser
      → Called er l (callback_notify callback e er l)
  unfolding callback_notify
  callback_notify-Called none e er l bad inv = (refl, refl, refl, refl, refl, inv)
  callback_notify-Called (some callback) e er l bad inv =
      after_reply-Called e er l (callback (record l.parser { state = l.p_state }) l.app) bad inv

  pub callback_data-Called :
      (callback : Option (DataCallback S)) (e : Errno) (mark : Option ℕ) (end er : ℕ) (l : Locals S)
      → is_ok e ≡ false
      → InRange l.p_state l.parser
      → Called er l (callback_data callback e mark end er l)
  unfolding callback_data
  callback_data-Called none e none end er l bad inv = (refl, refl, refl, refl, refl, inv)
  callback_data-Called none e (some mark) end er l bad inv = (refl, refl, refl, refl, refl, inv)
  callback_data-Called (some callback) e none end er l bad inv = (refl, refl, refl, refl, refl, inv)
  callback_data-Called (some callback) e (some mark) end er l bad inv =
      after_reply-Called e er l
        (callback (record l.parser { state = l.p_state }) mark ((end + 2 ^ 64 - mark) % 2 ^ 64)
          l.app)
        bad inv

  -- Counting bytes of the headers is as a callback here: it may only raise an error.
  pub count_header_size-Called :
      (v : ℕ) (l : Locals S) → InRange l.p_state l.parser → Called l.p l (count_header_size v l)
  unfolding count_header_size fail
  count_header_size-Called v l inv = ground arith

  module _ (settings : Settings S) (end er : ℕ) (l : Locals S)
      (inv : InRange l.p_state l.parser) where
    cleared-Called :
        (m : Flow S (Locals S)) (clear : Locals S → Locals S)
        → ((k : Locals S) → Called er l (continue k) → Called er l (continue (clear k)))
        → Called er l m
        → Called er l (m >>= λ k. continue (clear k))
    cleared-Called (continue k) clear keep c = keep k c
    cleared-Called (leave q s n) clear keep c = c
    cleared-Called spinning clear keep c = c

    pub callback_status-Called : Called er l (callback_status settings end er l)
    unfolding callback_status
    callback_status-Called =
        cleared-Called _ (λ k. record k { status_mark = none }) (λ k c. c)
          (callback_data-Called settings.on_status hpe_cb_status l.status_mark end er l refl inv)

    pub callback_url-Called : Called er l (callback_url settings end er l)
    unfolding callback_url
    callback_url-Called =
        cleared-Called _ (λ k. record k { url_mark = none }) (λ k c. c)
          (callback_data-Called settings.on_url hpe_cb_url l.url_mark end er l refl inv)

    pub callback_header_field-Called : Called er l (callback_header_field settings end er l)
    unfolding callback_header_field
    callback_header_field-Called =
        cleared-Called _ (λ k. record k { header_field_mark = none }) (λ k c. c)
          (callback_data-Called settings.on_header_field hpe_cb_header_field l.header_field_mark end
            er l refl inv)

    pub callback_header_value-Called : Called er l (callback_header_value settings end er l)
    unfolding callback_header_value
    callback_header_value-Called =
        cleared-Called _ (λ k. record k { header_value_mark = none }) (λ k c. c)
          (callback_data-Called settings.on_header_value hpe_cb_header_value l.header_value_mark end
            er l refl inv)

    pub callback_body-Called : Called er l (callback_body settings end er l)
    unfolding callback_body
    callback_body-Called =
        cleared-Called _ (λ k. record k { body_mark = none }) (λ k c. c)
          (callback_data-Called settings.on_body hpe_cb_body l.body_mark end er l refl inv)

  module _ (len : ℕ) (l : Locals S) where
    pub if-Progress :
        (b : Bool) (x y : Flow S (Next S))
        → (b ≡ true → Progress len l x)
        → (b ≡ false → Progress len l y)
        → Progress len l (if b then x else y)
    if-Progress true x y f g = f refl
    if-Progress false x y f g = g refl

    pub fail-Progress :
        (e : Errno) (k : Locals S) → k.p ≤ len → is_ok e ≡ false → Progress len l (fail e k)
    unfolding fail
    fail-Progress e k h bad = (h, λ ok. absurd (ground arith))

    -- `CALLBACK…(FOR); break;`.
    pub Called-next :
        {er : ℕ} (k : Locals S) (m : Flow S (Locals S))
        → l.p ≤ k.p
        → k.p < len
        → er ≤ len
        → Called er k m
        → Progress len l (m >>= λ k'. next k')
    Called-next k (continue k') h i j c = (omega arith, omega arith, c.5)
    Called-next k (leave q s n) h i j c = (omega arith, λ ok. absurd (cc))
    Called-next k spinning h i j c = c

    -- `CALLBACK…(FOR); REEXECUTE();`.
    pub Called-again :
        {er : ℕ} (k : Locals S) (m : Flow S (Locals S))
        → l.p ≤ k.p
        → k.p < len
        → er ≤ len
        → rank k.p_state < rank l.p_state
        → Called er k m
        → Progress len l (m >>= λ k'. again k')
    Called-again k (continue k') h i j r c = (omega arith, omega arith, c.5, rw c.1 r)
    Called-again k (leave q s n) h i j r c = (omega arith, λ ok. absurd (cc))
    Called-again k spinning h i j r c = c

    -- A callback or a count, and what follows it.
    pub Called-then :
        {er : ℕ} (k : Locals S) (m : Flow S (Locals S)) (rest : Locals S → Flow S (Next S))
        → er ≤ len
        → Called er k m
        → ((k' : Locals S) → Called er k (continue k') → Progress len l (rest k'))
        → Progress len l (m >>= rest)
    Called-then k (continue k') rest j c r = r k' c
    Called-then k (leave q s n) rest j c r = (omega arith, λ ok. absurd (cc))
    Called-then k spinning rest j c r = c
