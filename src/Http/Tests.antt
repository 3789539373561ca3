-- ===== src/Http/Tests.antt =====
-- Headers stored and found, and a response written.
use my_warehouse.Http.Headers.{get_header, get_header_into, Headers, ci_less, find, put}
use my_warehouse.Common.{
  ◌-◌, get_or, arith, ℕ, ◌≡◌, ◌≢◌, ◌↔◌, refl, true, false, none, some, List, [], ◌∷◌, codes,
  decimal, length,
}
use my_warehouse.Parser.Enums.{http_response, h_content_length}
use my_warehouse.Parser.State.{Parser, http_parser_init}
use my_warehouse.Parser.Flow.{Locals}
use my_warehouse.Parser.Execute.{enter}
use my_warehouse.Parser.Value.{value_start, value_loop}
use my_warehouse.Parser.Lengths.Loop.{LengthRead}
use my_warehouse.Http.Written.{first_text, end-LengthRead}
use my_warehouse.Url.Host.{uf_schema, uf_path, uf_query}
use my_warehouse.Url.Parse.{http_parser_parse_url}
use my_warehouse.Parser.UrlChar.{parse_url_char}
use my_warehouse.Parser.Chars.{is_alpha, is_userinfo_char, is_url_char, is_host_char}
use my_warehouse.Http.UrlObj.{UrlObj, substr, schema, path, query, fragment, from_buf}
use my_warehouse.Http.Slices.{Cut, from_buf-Cut}
use my_warehouse.Http.Response.{Response, response_new, end, get_status_text, lookup_case}
use my_warehouse.Http.Order.{IsOrdered, lowered, ci_less-IsOrder, put-find}
use my_warehouse.Http.Refinement.{set_headers, assign_all, set_headers-assign_all}
use my_warehouse.Http.Lengths.{end-content_length}

abbrev two : Headers
two = (codes "Accept", codes "a") ∷ (codes "Host", codes "h") ∷ []

abbrev three : Headers
three = put (codes "content-type") (codes "x") two

three-lookup : find (codes "Content-Type") three ≡ some (codes "x")
unfolding find put ci_less
three-lookup = refl

no_text_for_299 : get_status_text 299 ≡ none
unfolding get_status_text lookup_case
no_text_for_299 = refl

ci_less-IsOrder_example :
    (ci_less (codes "Accept") (codes "host") ≡ true
      → ci_less (codes "host") (codes "Via") ≡ true
      → ci_less (codes "Accept") (codes "Via") ≡ true)
    × ((lowered (codes "Accept") ≡ lowered (codes "host")) ↔ (
        (ci_less (codes "Accept") (codes "host") ≡ false)
        × (ci_less (codes "host") (codes "Accept") ≡ false)))
ci_less-IsOrder_example = ci_less-IsOrder (codes "Accept") (codes "host") (codes "Via")

two-IsOrdered : IsOrdered two
unfolding ci_less
two-IsOrdered = ((refl, tt), (tt, tt))

put-find_example :
    IsOrdered three
    × (find (codes "content-type") three ≡ some (codes "x"))
    × ((key' : List ℕ)
        → lowered key' ≢ lowered (codes "content-type")
        → find key' three ≡ find key' two)
    × ((old : List ℕ) → get_header_into (codes "content-type") old three ≡ (true, codes "x"))
    × (get_header (codes "content-type") three ≡ codes "x")
put-find_example = put-find (codes "content-type") (codes "x") two two-IsOrdered

abbrev fresh : Response ℕ
fresh = response_new 7

fresh-IsOrdered : IsOrdered fresh.headers
unfolding response_new put
fresh-IsOrdered = (tt, tt)

fresh-no_length : find (codes "Content-Length") fresh.headers ≡ none
unfolding response_new put find ci_less
fresh-no_length = refl

abbrev stale : Response ℕ
stale = (end (λ _. codes "[]") (end decimal fresh).1).1

end-content_length_example :
    ((end decimal fresh).1.body ≡ decimal 7)
    × (find (codes "Content-Length") (end decimal fresh).1.headers
        ≡ some (decimal (length (end decimal fresh).1.body)))
    × ((key : List ℕ)
        → lowered key ≢ lowered (codes "Content-Length")
        → find key (end decimal fresh).1.headers ≡ find key fresh.headers)
    × IsOrdered (end decimal fresh).1.headers
    × (stale.body ≡ codes "[]")
    × (find (codes "Content-Length") stale.headers
        ≡ some (decimal (length (end decimal fresh).1.body)))
unfolding response_new
end-content_length_example =
    end-content_length decimal (λ _. codes "[]") fresh fresh-IsOrdered fresh-no_length

-- The second value for `Via` and `via` wins.
abbrev sets : List (List ℕ × List ℕ)
sets = (codes "Via", codes "1") ∷ (codes "via", codes "2") ∷ []

abbrev new_response : Response ℕ
new_response = record {
  headers = (codes "Content-Type", codes "text/json") ∷ [];
  status = 200;
  body = [];
  root = 0;
}

set_headers-assign_all_example :
    IsOrdered (set_headers sets new_response).headers
    × ((name : List ℕ)
        → find name (set_headers sets new_response).headers
          ≡ assign_all sets (λ k. find k new_response.headers) name)
set_headers-assign_all_example = set_headers-assign_all sets new_response (tt, tt)

abbrev no_url : UrlObj
no_url = record {
  handle = record {
    field_set = λ _. false;
    port = 0;
    field_data = λ _. record { off = 0; len = 0 };
  };
  buf = [];
}

abbrev with_fragment : List ℕ
with_fragment = codes "/warehouse?b#cc"

abbrev with_query : List ℕ
with_query = codes "/?q"

abbrev first_url : UrlObj
first_url = from_buf with_fragment 15 false no_url

from_buf-Cut_example :
    Cut uf_schema (codes "HTTP") first_url (schema first_url)
    × Cut uf_path (codes "/") first_url (path first_url)
    × Cut uf_query [] first_url (query first_url)
from_buf-Cut_example = from_buf-Cut with_fragment 15 false no_url (omega arith) (omega arith)

-- A second URL with a query and no fragment: `fragment()` cuts at the first URL's place, and throws.
fragment_throws : fragment (from_buf with_query 3 false first_url) ≡ none
unfolding fragment substr from_buf http_parser_parse_url parse_url_char is_alpha is_userinfo_char
    is_url_char is_host_char
fragment_throws = refl

-- A parser of responses at the value of the Content-Length.
abbrev at_length : Locals Unit
at_length = record (enter (http_parser_init http_response) tt) { p = 33 }

end-LengthRead_example :
    ((end decimal (record (response_new 0) { root = 7 })).0 ≡ some (first_text (decimal 7)))
    × (q : Parser) × (value_start h_content_length
          (get_or (first_text (decimal 7)) 33 0)
          at_length.parser
        ≡ some q)
    × LengthRead (length (decimal 7)) (
        value_loop
          (length (first_text (decimal 7)) - 34)
          (first_text (decimal 7))
          h_content_length
          (record at_length { p = 34; parser = q }))
end-LengthRead_example = end-LengthRead decimal 0 7 at_length refl
