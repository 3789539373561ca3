-- ===== src/Parser/Tests.antt =====
-- Runs of the parser on whole messages, with callbacks that write down each call.
use my_warehouse.Parser.Value.{line_end, value_start, value_loop}
use my_warehouse.Parser.LineEnd.{scan, line_end-scan}
use my_warehouse.Common.{
  ℕ, ◌++◌, Option, some, List, [], ◌∷◌, codes, length, refl, arith, ◌+◌, ◌≤◌, ◌≡◌, drop, decimal,
  decimal_digits,
}
use my_warehouse.Parser.Enums.{http_request, h_content_length}
use my_warehouse.Parser.State.{Parser, Settings, NotifyCallback, DataCallback, http_parser_init}
use my_warehouse.Parser.Progress.{InRange}
use my_warehouse.Parser.Progress.Run.{Returns, http_parser_execute-Returns}
use my_warehouse.Parser.Execute.{http_parser_execute, enter}
use my_warehouse.Parser.Slices.{Keeps}
use my_warehouse.Parser.Slices.Run.{Delivers, http_parser_execute-Delivers}
use my_warehouse.Parser.Chars.{token, is_url_char, is_alpha, is_hex, cr, lf}
use my_warehouse.Parser.Classes.{token_value, is_path_char, is_letter, is_hex_digit, token-classes}
use my_warehouse.Parser.Flow.{Locals}
use my_warehouse.Parser.Lengths.Loop.{LengthRead, decimal-LengthRead}

-- A code, and the offset and length that a data callback is given.
abbrev Event : Type 0
Event = ℕ × ℕ × ℕ

abbrev note_notify : ℕ → Option (NotifyCallback (List Event))
note_notify k =
    some (λ q s. record { app = s ++ (k, 0, 0) ∷ []; http_errno = q.http_errno; result = 0 })

abbrev note_data : ℕ → Option (DataCallback (List Event))
note_data k =
    some (λ q at n s. record { app = s ++ (k, at, n) ∷ []; http_errno = q.http_errno; result = 0 })

abbrev noting : Settings (List Event)
noting = record {
  on_message_begin = note_notify 1;
  on_url = note_data 2;
  on_status = note_data 3;
  on_header_field = note_data 4;
  on_header_value = note_data 5;
  on_headers_complete = note_notify 6;
  on_body = note_data 7;
  on_message_complete = note_notify 8;
  on_chunk_header = note_notify 9;
  on_chunk_complete = note_notify 10;
}

abbrev post : List ℕ
post = codes "POST /a?b HTTP/1.1\r\nHost: x:8080\r\nContent-Length: 3\r\n\r\nabcGET"

abbrev fresh : Parser
fresh = http_parser_init http_request

fresh-InRange : InRange fresh.state fresh
unfolding http_parser_init
fresh-InRange = record {
  major = omega arith;
  minor = omega arith;
  status = omega arith;
  content = omega arith;
  header_bytes = omega arith;
  no_error = refl;
  body_left = λ e. absurd (cc);
}

http_parser_execute_example : Returns (length post) (http_parser_execute noting post fresh [])
http_parser_execute_example =
    http_parser_execute-Returns noting post fresh [] (λ ok. fresh-InRange) (omega arith)

-- Every slice that was written down lies inside so many bytes.
abbrev Noted : ℕ → List Event → Type 0
Noted total [] = Unit
Noted total ((k, at, n) ∷ es) = (at + n ≤ total) × Noted total es

Noted-append :
    (total k at n : ℕ) (es : List Event)
    → at + n ≤ total
    → Noted total es
    → Noted total (es ++ (k, at, n) ∷ [])
Noted-append total k at n [] h a = (h, tt)
Noted-append total k at n (e ∷ es) h (b, a) = (b, Noted-append total k at n es h a)

noting-Keeps : (total : ℕ) → Keeps (Noted total) noting total
noting-Keeps total = record {
  on_message_begin = λ q s a. Noted-append total 1 0 0 s (omega arith) a;
  on_url = λ q at n s a h. Noted-append total 2 at n s h a;
  on_status = λ q at n s a h. Noted-append total 3 at n s h a;
  on_header_field = λ q at n s a h. Noted-append total 4 at n s h a;
  on_header_value = λ q at n s a h. Noted-append total 5 at n s h a;
  on_headers_complete = λ q s a. Noted-append total 6 0 0 s (omega arith) a;
  on_body = λ q at n s a h. Noted-append total 7 at n s h a;
  on_message_complete = λ q s a. Noted-append total 8 0 0 s (omega arith) a;
  on_chunk_header = λ q s a. Noted-append total 9 0 0 s (omega arith) a;
  on_chunk_complete = λ q s a. Noted-append total 10 0 0 s (omega arith) a;
}

http_parser_execute-Delivers_example :
    Delivers (Noted (length post)) (length post) (http_parser_execute noting post fresh [])
http_parser_execute-Delivers_example =
    http_parser_execute-Delivers (Noted (length post)) noting post (noting-Keeps (length post))
      (omega arith) fresh [] (λ ok. fresh-InRange) (omega arith) tt

-- The byte `B` stands in `tokens` as `b`, and is allowed in a URL.
token-classes_example :
    (token b'B' ≡ token_value b'B')
    × (is_url_char b'B' ≡ is_path_char b'B')
    × (is_alpha b'B' ≡ is_letter b'B')
    × (is_hex b'B' ≡ is_hex_digit b'B')
token-classes_example = token-classes b'B' (omega arith)

-- A parser at the value of `Content-Length: 1234`.
abbrev length_line : List ℕ
length_line = codes "1234\r\n"

abbrev at_value : Locals (List Event)
at_value = enter fresh []

length_line-decimal : drop 0 length_line ≡ decimal 1234 ++ cr ∷ (lf ∷ [])
unfolding decimal_digits decimal
length_line-decimal = refl

decimal-LengthRead_example :
    (q : Parser) × (value_start h_content_length b'1' fresh ≡ some q)
    × LengthRead 1234
        (value_loop 5 length_line h_content_length (record at_value { p = 1; parser = q }))
unfolding enter
decimal-LengthRead_example =
    decimal-LengthRead 1234 (lf ∷ []) length_line at_value length_line-decimal

abbrev get_space : List ℕ
get_space = codes "\r\nGET "

abbrev line_start : ℕ
line_start = 1

line_end-scan_example : line_end length_line line_start ≡ scan length_line line_start 5
line_end-scan_example = line_end-scan length_line line_start (omega arith) (omega arith)
