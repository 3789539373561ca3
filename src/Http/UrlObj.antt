-- ===== src/Http/UrlObj.antt =====
-- `class url_obj` of `request_respons.h`.
use my_warehouse.Common.{
  ◌∷◌, ℕ, Bool, true, false, ◌==◌, List, [], take, drop, codes, length, ltb, Option, none, some,
  if◌then◌else◌,
}
use my_warehouse.Url.Host.{
  UrlField, uf_schema, uf_host, uf_path, uf_query, uf_fragment, HttpParserUrl,
}
use my_warehouse.Url.Parse.{http_parser_parse_url}

pub record UrlObj : Type 0 where
  pub handle : HttpParserUrl
  pub buf : List ℕ

-- `buf_.substr(off, len)` for the span of a field; `none` is the exception where `off` is past the end.
unfoldable pub substr : UrlField → UrlObj → Option (List ℕ)
substr f u =
    let d = u.handle.field_data f in
    if ltb (length u.buf) d.off then none else some (take d.len (drop d.off u.buf))

unfoldable pub schema : UrlObj → Option (List ℕ)
schema u = if u.handle.field_set uf_schema then substr uf_schema u else some (codes "HTTP")

unfoldable pub host : UrlObj → Option (List ℕ)
host u = if u.handle.field_set uf_schema then substr uf_host u else some (codes "localhost")

unfoldable pub path : UrlObj → Option (List ℕ)
path u = if u.handle.field_set uf_path then substr uf_path u else some (codes "/")

unfoldable pub query : UrlObj → Option (List ℕ)
query u = if u.handle.field_set uf_query then substr uf_query u else some []

unfoldable pub fragment : UrlObj → Option (List ℕ)
fragment u = if u.handle.field_set uf_query then substr uf_fragment u else some []

-- `from_buf`: the parse reads the memory at `buf`, and its result is dropped.
unfoldable pub from_buf : List ℕ → ℕ → Bool → UrlObj → UrlObj
unfolding http_parser_parse_url
from_buf buf len is_connect u = record {
  handle = (http_parser_parse_url buf len is_connect u.handle).1;
  buf = take len buf;
}

abbrev same_text : List ℕ → List ℕ → Bool
same_text [] [] = true
same_text [] (d ∷ t) = false
same_text (c ∷ s) [] = false
same_text (c ∷ s) (d ∷ t) = let rest = same_text s t in if c == d then rest else false

unfoldable pub port : UrlObj → Option ℕ
port u =
    let from_schema : Option ℕ = elim (schema u) [
      | none ↦ none
      | some s ↦ some (if same_text s (codes "HTTP") then 80 else 443)
    ] in
    if u.handle.field_set uf_path then some u.handle.port else from_schema
