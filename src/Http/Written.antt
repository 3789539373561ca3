-- ===== src/Http/Written.antt =====
-- The text that `response::end` writes for a new response, and its Content-Length read by the parser of
-- http_parser.c.
use my_warehouse.Common.{
  ℕ, ◌+◌, ◌-◌, ◌≡◌, ◌∙◌, ap, some, List, ◌∷◌, ◌++◌, append_assoc, codes, decimal, length, drop,
  get_or,
}
use my_warehouse.Http.Headers.{find, put, ci_less}
use my_warehouse.Http.Response.{
  response_new, end, get_status_text, lookup_case, with_length, add_length, answer_text,
  response_text, header_lines, crlf,
}
use my_warehouse.Parser.Chars.{lf}
use my_warehouse.Parser.Enums.{h_content_length}
use my_warehouse.Parser.State.{Parser}
use my_warehouse.Parser.Flow.{Locals}
use my_warehouse.Parser.Value.{value_start, value_loop}
use my_warehouse.Parser.Lengths.Loop.{LengthRead, decimal-LengthRead}

-- The text of an answer, for the bytes of its body.
abbrev pub first_text : List ℕ → List ℕ
first_text body =
    codes "HTTP/1.1 200 OK\r\nContent-Length: "
    ++ (decimal (length body) ++ (codes "\r\nContent-Type: text/json\r\n\r\n" ++ body))

append_assoc-four : (d a b c e : List ℕ) → d ++ a ++ b ++ c ++ e ≡ d ++ ((a ++ b ++ c) ++ e)
append_assoc-four d a b c e =
    ap (λ x. x ++ c ++ e) (append_assoc d a b)
    ∙ ap (λ x. x ++ e) (append_assoc d (a ++ b) c)
    ∙ append_assoc d (a ++ b ++ c) e

end-first_text :
    {J : Type 0} (write : J → List ℕ) (null root : J)
    → (end write (record (response_new null) { root = root })).0 ≡ some (first_text (write root))
unfolding end response_new put find ci_less with_length add_length answer_text get_status_text
    lookup_case response_text header_lines decimal
end-first_text write null root =
    ap (λ t. some (codes "HTTP/1.1 200 OK\r\nContent-Length: " ++ t))
      (append_assoc-four (decimal (length (write root))) crlf (codes "Content-Type: text/json\r\n")
        crlf (write root))

-- A new response, with any value in its place, is written as a message of status 200 with a
-- Content-Length, a Content-Type and the value; and where the parser stands at the value of that
-- Content-Length, it reads the length of the body that follows, where that is at most
-- 18446744073709551609, and refuses a greater one.
pub end-LengthRead :
    {J S : Type 0} (write : J → List ℕ) (null root : J) (l : Locals S)
    → l.p ≡ 33
    → ((end write (record (response_new null) { root = root })).0 ≡ some (first_text (write root)))
      × (q : Parser) × (value_start h_content_length
            (get_or (first_text (write root)) l.p 0)
            l.parser
          ≡ some q)
      × LengthRead (length (write root)) (
          value_loop
            (length (first_text (write root)) - (l.p + 1))
            (first_text (write root))
            h_content_length
            (record l { p = l.p + 1; parser = q }))
end-LengthRead write null root l at =
    let text = first_text (write root) in
    let (q, e, r) =
      decimal-LengthRead (length (write root))
        (lf ∷ (codes "Content-Type: text/json\r\n\r\n" ++ write root)) text l
        (ap (λ p. drop p text) at) in
    (end-first_text write null root, q, e, r)
