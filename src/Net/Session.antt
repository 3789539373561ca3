-- ===== src/Net/Session.antt =====
-- `http_session.cpp` and `http_session.h`. The answer of `server_.invoke` is a parameter: it takes the
-- bytes of the body, the response's value and the state of the rest of the program. A session that
-- the server has erased is dead, and its handlers do nothing.
use my_warehouse.Common.{
  ℕ, ◌+◌, Bool, true, false, Option, none, some, List, [], ◌∷◌, ◌++◌, length, take, drop, leb,
  if◌then◌else◌,
}
use my_warehouse.Parser.Enums.{http_request}
use my_warehouse.Parser.State.{Parser, Settings, http_parser_settings_init, http_parser_init}
use my_warehouse.Parser.Flow.{continue, leave, spinning}
use my_warehouse.Parser.Execute.{http_parser_execute}
use my_warehouse.Http.Response.{Request, request_new, Response, response_new, end}

abbrev pub max_length : ℕ
max_length = 2048

-- What the callbacks read and write through `parser->data`.
pub record Target (J W : Type 0) : Type 0 where
  pub buffer : List ℕ  -- the bytes of `data_` that were read
  pub request : Request
  pub response : Response J
  pub process : Bool
  pub world : W
  pub written : List (Option (List ℕ))  -- the texts that `async_write` was given

pub record Session (J W : Type 0) : Type 0 where
  pub parser : Parser
  pub pos : ℕ
  pub target : Target J W
  pub reading : Bool  -- a read is pending
  pub timing : Bool  -- the timer's wait is pending
  pub registered : Bool  -- the server's set holds the session, whose socket is open

-- `get_body()` and `get_body_len()`, as the bytes.
unfoldable pub body_bytes : List ℕ → Request → List ℕ
body_bytes buffer r = elim r.body [ none ↦ [] | some at ↦ take r.len (drop at buffer) ]

module _ {J W : Type 0} (write : J → List ℕ) (invoke : List ℕ → J → W → J × W) where
  -- `on_body`, for the offset of the bytes in `data_`.
  unfoldable pub on_body : ℕ → ℕ → ℕ → Target J W → Target J W
  on_body base at len t = record t { request = record { body = some (base + at); len = len } }

  -- `on_message_complete`: the call of the handler, `end()` and `do_write`.
  unfoldable pub on_message_complete : Target J W → Target J W
  on_message_complete t =
      let answer = invoke (body_bytes t.buffer t.request) t.response.root t.world in
      let ended = end write (record (t.response) { root = answer.0 }) in
      record t {
        response = ended.1;
        process = true;
        world = answer.1;
        written = t.written ++ ended.0 ∷ [];
      }

  -- `parser_settings_`, for a call at `data_ + base`.
  unfoldable pub parser_settings : ℕ → Settings (Target J W)
  parser_settings base = record (http_parser_settings_init (Target J W)) {
    on_body = some (λ q at len t. record {
      app = on_body base at len t;
      http_errno = q.http_errno;
      result = 0;
    });
    on_message_complete =
        some (λ q t. record { app = on_message_complete t; http_errno = q.http_errno; result = 0 });
  }

  -- The constructor and `start`.
  unfoldable pub start : J → W → Session J W
  start null world = record {
    parser = http_parser_init http_request;
    pos = 0;
    target = record {
      buffer = [];
      request = request_new;
      response = response_new null;
      process = false;
      world = world;
      written = [];
    };
    reading = true;
    timing = true;
    registered = true;
  }

  -- `close`, after which the server erases the session.
  unfoldable pub close : Session J W → Session J W
  close s = record s { registered = false }

  unfoldable pub do_read : Session J W → Session J W
  do_read s = record s { reading = true }

  -- The end of `onRead` for bytes that were read.
  unfoldable pub after_read : Session J W → Session J W
  after_read s = if s.target.process then s else if leb max_length s.pos then close s else do_read s

  -- `http_parser_execute(…); pos_ += length;`. A call that did not return would be `none`.
  unfoldable pub execute_read : List ℕ → Session J W → Option (Session J W)
  execute_read bytes s =
      elim (http_parser_execute (parser_settings s.pos) bytes s.parser
        (record (s.target) { buffer = s.target.buffer ++ bytes })) [
          | continue l ↦ none
          | leave q t n ↦ some (record s { parser = q; pos = s.pos + length bytes; target = t })
          | spinning ↦ none
        ]

  -- `onRead`, where `failed` is `ec`.
  unfoldable pub on_read : Bool → List ℕ → Session J W → Option (Session J W)
  on_read failed bytes s =
      let idle = record s { reading = false } in
      let run : Option (Session J W) = elim (execute_read bytes idle) [
        | none ↦ none
        | some s' ↦ some (after_read s')
      ] in
      if failed then some (close idle) else run

  -- The handler of `async_write`: the timer is cancelled, and `onWrite` closes on either outcome.
  unfoldable pub on_write : Bool → Session J W → Session J W
  on_write failed s = close (record s { timing = false })

  -- The handler of the timer, where `aborted` is `operation_aborted`.
  unfoldable pub on_timer : Bool → Session J W → Session J W
  on_timer aborted s =
      let idle = record s { timing = false } in if aborted then idle else close idle
