-- ===== src/TestClient/Request/Delivered.antt =====
-- What the session of `http_session.cpp` gives the handler for the request of `client/TestClient.cpp`, in
-- whatever two pieces it arrives.
use my_warehouse.Parser.Execute.{
  end_of_stream, enter, dispatch, run_states, visit, finish, run_bytes, http_parser_execute,
}
use my_warehouse.Common.{
  ℕ, ◌-◌, ◌<◌, ◌≡◌, refl, Bool, true, false, List, [], ◌∷◌, take, drop, ltb, ◌==◌, if◌then◌else◌,
  all_below, all_below_sound, arith,
}
use my_warehouse.Parser.Enums.{parsing_header}
use my_warehouse.Parser.Chars.{is_host_char, token}
use my_warehouse.Parser.State.{http_parser_init}
use my_warehouse.Parser.Flow.{
  count_header_size, callback_notify, callback_status, callback_url, callback_header_field,
  callback_header_value, callback_body,
}
use my_warehouse.Parser.UrlChar.{parse_url_char}
use my_warehouse.Parser.Response.{expect, first_http_minor}
use my_warehouse.Parser.Request.{
  first_letter, start_method, step_start_req, continue_method, step_req_method, url_byte,
  step_req_spaces_before_url, step_req_url, step_req_http_start, step_req_first_http_major,
  step_req_http_major, step_req_http_minor, step_req_line_almost_done,
}
use my_warehouse.Parser.Header.{step_header_field_start, field_loop, after_field, step_header_field}
use my_warehouse.Parser.Value.{
  value_start, value_loop, after_value, value_ended, step_header_value, value_started,
  step_header_value_start, step_header_value_discard_ws, step_header_value_lws,
}
use my_warehouse.Parser.Body.{
  body_kind, headers_complete, step_headers_almost_done, message_complete, enter_body,
  step_headers_done, take_body, step_body_identity, step_message_done,
}
use my_warehouse.Net.Session.{
  body_bytes, on_body, on_message_complete, parser_settings, start, do_read, after_read,
  execute_read, on_read,
}
use my_warehouse.TestClient.Request.{request, read_if, read_twice, given_bodies}

-- The bytes of the body, as many as the Content-Length says.
abbrev pub sent_body : List ℕ
sent_body = take 91 (drop 120 request)

-- The body where no piece ends inside it, and else what the second piece has of it.
unfoldable pub delivered : ℕ → List ℕ
delivered k =
    if ltb k 120 then sent_body else if ltb k 211 then drop (k - 120) sent_body else sent_body

abbrev same_list : List ℕ → List ℕ → Bool
same_list [] [] = true
same_list [] (y ∷ ys) = false
same_list (x ∷ xs) [] = false
same_list (x ∷ xs) (y ∷ ys) = let rest = same_list xs ys in if x == y then rest else false

same_list-≡ : (xs ys : List ℕ) → same_list xs ys ≡ true → xs ≡ ys
same_list-≡ [] [] e = refl
same_list-≡ [] (y ∷ ys) e = absurd (cc)
same_list-≡ (x ∷ xs) [] e = absurd (cc)
same_list-≡ (x ∷ xs) (y ∷ ys) e = ground (arith, same_list-≡ xs ys)

abbrev is_only : List ℕ → List (List ℕ) → Bool
is_only xs [] = false
is_only xs (ys ∷ []) = same_list ys xs
is_only xs (ys ∷ zs ∷ rest) = false

is_only-≡ : (xs : List ℕ) (bodies : List (List ℕ)) → is_only xs bodies ≡ true → bodies ≡ xs ∷ []
is_only-≡ xs [] e = absurd (cc)
is_only-≡ xs (ys ∷ []) e = let same = same_list-≡ ys xs e in cc
is_only-≡ xs (ys ∷ zs ∷ rest) e = absurd (cc)

all_delivered : all_below 212 (λ k. is_only (delivered k) (given_bodies (read_twice k))) ≡ true
unfolding end_of_stream delivered read_if read_twice given_bodies parsing_header is_host_char token
    http_parser_init count_header_size callback_notify callback_status callback_url
    callback_header_field callback_header_value callback_body parse_url_char expect first_http_minor
    first_letter start_method step_start_req continue_method step_req_method url_byte
    step_req_spaces_before_url step_req_url step_req_http_start step_req_first_http_major
    step_req_http_major step_req_http_minor step_req_line_almost_done step_header_field_start
    field_loop after_field step_header_field value_start value_loop after_value value_ended
    step_header_value value_started step_header_value_start step_header_value_discard_ws
    step_header_value_lws body_kind headers_complete step_headers_almost_done message_complete
    enter_body step_headers_done take_body step_body_identity step_message_done enter dispatch
    run_states visit finish run_bytes http_parser_execute body_bytes on_body on_message_complete
    parser_settings start do_read after_read execute_read on_read
all_delivered = refl

-- However the request of the test client is split into two reads, the handler is called exactly once:
-- with the 91 bytes of the body where the first read ends outside of it, and with those of them that the
-- second read has where it ends inside.
pub request-Delivered : (k : ℕ) → 0 < k → k < 212 → given_bodies (read_twice k) ≡ delivered k ∷ []
request-Delivered k some_read h = is_only-≡ (delivered k) (given_bodies (read_twice k)) (
    all_below_sound 212 (λ k. is_only (delivered k) (given_bodies (read_twice k))) k all_delivered
      h)
