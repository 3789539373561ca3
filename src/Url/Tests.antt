-- ===== src/Url/Tests.antt =====
-- URLs taken apart.
use my_warehouse.Common.{ℕ, ◌+◌, ◌≡◌, ◌≤◌, true, false, List, codes, length, refl, arith}
use my_warehouse.Parser.UrlChar.{parse_url_char}
use my_warehouse.Parser.Chars.{is_alpha, is_userinfo_char, is_url_char, is_host_char}
use my_warehouse.Url.Host.{HttpParserUrl, uf_path}
use my_warehouse.Url.Parse.{http_parser_parse_url}
use my_warehouse.Url.Bounds.{http_parser_parse_url-in_bounds}

abbrev target : List ℕ
target = codes "http://a.b:80/c?d"

abbrev no_url : HttpParserUrl
no_url = record { field_set = λ _. false; port = 0; field_data = λ _. record { off = 0; len = 0 } }

abbrev parsed : HttpParserUrl
parsed = (http_parser_parse_url target (length target) false no_url).1

parsed-port : parsed.port ≡ 80
unfolding http_parser_parse_url parse_url_char is_alpha is_userinfo_char is_url_char is_host_char
parsed-port = refl

parsed-path : parsed.field_set uf_path ≡ true
unfolding http_parser_parse_url parse_url_char is_alpha is_userinfo_char is_url_char is_host_char
parsed-path = refl

in_bounds_example : (parsed.field_data uf_path).off + (parsed.field_data uf_path).len ≤ 17
in_bounds_example =
    http_parser_parse_url-in_bounds target 17 false no_url uf_path (omega arith) parsed-path
