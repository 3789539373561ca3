-- ===== src/Http/Slices.antt =====
-- What `url_obj` of `request_respons.h` cuts out of a URL.
use my_warehouse.Common.{
  ℕ, ◌+◌, ◌≤◌, ◌<◌, ◌≡◌, refl, arith, Bool, true, false, Option, none, some, List, [], codes,
  length, take, drop, length-take, length-drop, ltb, if◌then◌else◌,
}
use my_warehouse.Url.Host.{UrlField, uf_schema, uf_path, uf_query}
use my_warehouse.Url.Bounds.{http_parser_parse_url-in_bounds}
use my_warehouse.Http.UrlObj.{UrlObj, substr, schema, path, query, from_buf}

-- The result of an accessor: the field of the URL where it is set, or else a default.
abbrev pub Cut : UrlField → List ℕ → UrlObj → Option (List ℕ) → Type 0
Cut f default u none = ⊥
Cut f default u (some text) =
    (u.handle.field_set f ≡ true → length text ≡ (u.handle.field_data f).len)
    × (u.handle.field_set f ≡ false → text ≡ default)

substr-Cut :
    (f : UrlField) (default : List ℕ) (u : UrlObj)
    → (u.handle.field_set f ≡ true
        → (u.handle.field_data f).off + (u.handle.field_data f).len ≤ length u.buf)
    → Cut f default u (if u.handle.field_set f then substr f u else some default)
unfolding substr
substr-Cut f default u h = at_set (u.handle.field_set f) refl
  where
    at_set :
        (b : Bool)
        → u.handle.field_set f ≡ b
        → Cut f default u (
            if b
            then (if ltb (length u.buf) (u.handle.field_data f).off
                then none
                else some
                    (take (u.handle.field_data f).len (drop (u.handle.field_data f).off u.buf)))
            else some default)
    at_set true e =
        let d = u.handle.field_data f in
        let inside = h e in
        let far : ltb (length u.buf) d.off ≡ false = ground arith in
        rw far (
          λ _. omega (arith, length-take d.len (drop d.off u.buf), length-drop d.off u.buf),
          λ q. absurd (cc),
        )
    at_set false e = (λ q. absurd (cc), λ _. refl)

from_buf-inside :
    (buf : List ℕ) (n : ℕ) (c : Bool) (u : UrlObj) (f : UrlField)
    → n < 65536
    → n ≤ length buf
    → (from_buf buf n c u).handle.field_set f ≡ true
    → ((from_buf buf n c u).handle.field_data f).off
        + ((from_buf buf n c u).handle.field_data f).len
      ≤ length (from_buf buf n c u).buf
unfolding from_buf
from_buf-inside buf n c u f h l e =
    omega (arith, length-take n buf, http_parser_parse_url-in_bounds buf n c u.handle f h e)

-- After `from_buf` on a URL shorter than 65536 bytes, whatever was in the object before and whatever the
-- parse returned, `schema()`, `path()` and `query()` throw no exception: each is as long as the parse
-- says where its field is set, and its default where it is not.
pub from_buf-Cut :
    (buf : List ℕ) (n : ℕ) (c : Bool) (u : UrlObj)
    → n < 65536
    → n ≤ length buf
    → let v = from_buf buf n c u in
      Cut uf_schema (codes "HTTP") v (schema v)
      × Cut uf_path (codes "/") v (path v)
      × Cut uf_query [] v (query v)
unfolding schema path query
from_buf-Cut buf n c u h l =
    let v = from_buf buf n c u in
    (
      substr-Cut uf_schema (codes "HTTP") v (from_buf-inside buf n c u uf_schema h l),
      substr-Cut uf_path (codes "/") v (from_buf-inside buf n c u uf_path h l),
      substr-Cut uf_query [] v (from_buf-inside buf n c u uf_query h l),
    )
