-- ===== src/Url/Bounds.antt =====
-- Where the fields that `http_parser_parse_url` reports lie in the URL.
use my_warehouse.Parser.Enums.{s_req_server_start, s_req_spaces_before_url, State}
use my_warehouse.Url.Parse.{
  only_host_port, ByteRole, delimiter, illegal, in_field, byte_role, take_byte, Scanned, whole,
  broken, url_loop, check_connect, set_port, check_url, cleared, http_parser_parse_url, has_at,
}
use my_warehouse.Common.{
  not, subst, ◌∙◌, ℕ, zero, suc, ◌+◌, ◌≤◌, ◌<◌, Bool, true, false, ◌&&◌, ◌||◌, Option, none, some,
  List, get_or, ◌≡◌, refl, ◌⊎◌, inl, inr, arith, Bool-cases, if◌then◌else◌,
}
use my_warehouse.Parser.UrlChar.{parse_url_char}
use my_warehouse.Url.Host.{
  UrlField, uf_host, uf_port, uf_userinfo, uf_schema, HttpParserUrl, same_field, open_field,
  grow_field, HostState, s_http_host, s_http_host_v6, s_http_host_port, s_http_userinfo,
  http_parse_host_char, host_fields, host_loop, http_parse_host, put_field, s_http_host_dead,
  s_http_userinfo_start, s_http_host_start, s_http_host_v6_start, is_host_dead,
}

-- Every field that is set ends at `p` or before.
abbrev InBounds : ℕ → HttpParserUrl → Type 0
InBounds p u =
    (f : UrlField) → u.field_set f ≡ true → (u.field_data f).off + (u.field_data f).len ≤ p

InBounds-mono : {p q : ℕ} (u : HttpParserUrl) → p ≤ q → InBounds p u → InBounds q u
InBounds-mono u h b f e = omega (arith, b f e)

open_field-InBounds :
    (f : UrlField) (p : ℕ) (u : HttpParserUrl)
    → p < 65536
    → InBounds p u
    → InBounds (suc p) (open_field f p u)
open_field-InBounds f p u h b k e = ground (arith, b k)

grow_field-InBounds :
    (f : UrlField) (p : ℕ) (u : HttpParserUrl)
    → p < 65536
    → (u.field_data f).off + (u.field_data f).len ≤ p
    → InBounds p u
    → InBounds (suc p) (grow_field f u)
grow_field-InBounds f p u h g b k e = ground (arith, b k)

same_field-eq : (f g : UrlField) → same_field f g ≡ true → f ≡ g
same_field-eq uf_schema g e = ground arith
same_field-eq _ g e = ground arith

same_field_self : (f : UrlField) → same_field f f ≡ true
same_field_self uf_schema = refl
same_field_self _ = refl

-- The field that the last byte belonged to is set.
abbrev OpenIsSet : Option UrlField → HttpParserUrl → Type 0
OpenIsSet none u = Unit
OpenIsSet (some f) u = u.field_set f ≡ true

take_byte-OpenIsSet :
    (old : Option UrlField) (f : UrlField) (p : ℕ) (u : HttpParserUrl)
    → OpenIsSet old u
    → OpenIsSet (some f) (take_byte old f p u)
take_byte-OpenIsSet none f p u o = rw (same_field_self f)
take_byte-OpenIsSet (some g) f p u o = ground (arith, same_field-eq g f, same_field_self f)

take_byte-InBounds :
    (old : Option UrlField) (f : UrlField) (p : ℕ) (u : HttpParserUrl)
    → p < 65536
    → OpenIsSet old u
    → InBounds p u
    → InBounds (suc p) (take_byte old f p u)
take_byte-InBounds none f p u h o b k e = open_field-InBounds f p u h b k e
take_byte-InBounds (some g) f p u h o b k e = ground (arith, same_field-eq g f, b k, b f)

-- What the loop leaves is in bounds, however it ends.
abbrev ScannedInBounds : ℕ → Scanned → Type 0
ScannedInBounds m (whole found_at u) = InBounds m u
ScannedInBounds m (broken u) = InBounds m u

ByteRole-cases :
    (r : ByteRole) → (r ≡ delimiter) ⊎ ((r ≡ illegal) ⊎ ((f : UrlField) × (r ≡ in_field f)))
ByteRole-cases delimiter = inl refl
ByteRole-cases illegal = inr (inl refl)
ByteRole-cases (in_field f) = inr (inr (f, refl))

url_loop-InBounds :
    (n : ℕ) (buf : List ℕ) (p m : ℕ) (s : State) (old : Option UrlField) (at : Bool)
    (u : HttpParserUrl)
    → p + n ≡ m
    → m < 65536
    → OpenIsSet old u
    → InBounds p u
    → ScannedInBounds m (url_loop n buf p s old at u)
unfolding url_loop
url_loop-InBounds zero buf p m s old at u eq h o b = InBounds-mono u (omega arith) b
url_loop-InBounds (suc n) buf p m s old at u eq h o b =
    let s' = parse_url_char s (get_or buf p 0) in
    elim (ByteRole-cases (byte_role s')) [
      | inl e ↦
          rw (e, url_loop)
            (url_loop-InBounds n buf (p + 1) m s' old at u (omega arith) h o
              (InBounds-mono u (omega arith) b))
      | inr (inl e) ↦ rw (e, url_loop) (InBounds-mono u (omega arith) b)
      | inr (inr (f, e)) ↦
          rw (e, url_loop)
            (url_loop-InBounds n buf (p + 1) m s' (some f) (at || has_at s') (take_byte old f p u)
              (omega arith) h (take_byte-OpenIsSet old f p u o)
              (InBounds-mono (take_byte old f p u) (omega arith)
                (take_byte-InBounds old f p u (omega arith) o b)))
    ]

-- The states of `http_parse_host_char` before the host's first byte.
abbrev before_host : HostState → Bool
before_host s_http_userinfo_start = true
before_host s_http_userinfo = true
before_host s_http_host_start = true
before_host s_http_host_v6_start = true
before_host _ = false

-- The field that the last byte belonged to, by the state behind it.
abbrev host_current : HostState → Option UrlField
host_current s_http_host_port = some uf_port
host_current s_http_userinfo = some uf_userinfo
host_current s_http_host = some uf_host
host_current s_http_host_v6 = some uf_host
host_current _ = none

-- That field ends at `p` or before.
abbrev OpenEnds : ℕ → Option UrlField → HttpParserUrl → Type 0
OpenEnds p none u = Unit
OpenEnds p (some f) u = (u.field_data f).off + (u.field_data f).len ≤ p

-- What holds in the loop of `http_parse_host` over a URL of `m` bytes: no byte of the host is counted
-- before its first.
record HostInv (s : HostState) (p m : ℕ) (u : HttpParserUrl) : Type 0 where
  bounds : InBounds m u
  uncounted : before_host s ≡ true → (u.field_data uf_host).len ≡ 0
  current : OpenEnds p (host_current s) u

http_parse_host_char-before :
    (s : HostState) (ch : ℕ) → before_host (http_parse_host_char s ch) ≡ true → before_host s ≡ true
unfolding http_parse_host_char
http_parse_host_char-before s_http_host ch e = ground arith
http_parse_host_char-before _ ch e = ground arith

-- A state that counts a byte of the host, from another state, follows one before the host.
abbrev enters_host : HostState → HostState → Bool
enters_host s_http_host s_http_host = false
enters_host s_http_host_v6 s_http_host_v6 = false
enters_host _ s_http_host = true
enters_host _ s_http_host_v6 = true
enters_host _ _ = false

http_parse_host_char-enters :
    (s : HostState) (ch : ℕ)
    → enters_host s (http_parse_host_char s ch) ≡ true
    → before_host s ≡ true
unfolding http_parse_host_char
http_parse_host_char-enters s_http_host ch e = ground arith
http_parse_host_char-enters _ ch e = ground arith

host_fields-InBounds :
    (s s' : HostState) (p m : ℕ) (u : HttpParserUrl)
    → p < m
    → m < 65536
    → HostInv s p m u
    → (enters_host s s' ≡ true → before_host s ≡ true)
    → InBounds m (host_fields s s' p u)
unfolding host_fields
host_fields-InBounds s_http_host s_http_host p m u l h inv enters k e = ground (arith, inv.bounds k)
host_fields-InBounds _ _ p m u l h inv enters k e = ground (arith, inv.bounds k)

-- Only the states of the host count its bytes.
host_fields-uncounted :
    (s s' : HostState) (p : ℕ) (u : HttpParserUrl)
    → before_host s' ≡ true
    → ((host_fields s s' p u).field_data uf_host).len ≡ (u.field_data uf_host).len
unfolding host_fields
host_fields-uncounted s_http_host s_http_host p u h = cc
host_fields-uncounted _ s_http_host p u h = cc
host_fields-uncounted _ _ p u h = ground arith

host_fields-OpenEnds :
    (s s' : HostState) (p m : ℕ) (u : HttpParserUrl)
    → p < m
    → m < 65536
    → HostInv s p m u
    → (enters_host s s' ≡ true → before_host s ≡ true)
    → OpenEnds (suc p) (host_current s') (host_fields s s' p u)
unfolding host_fields
host_fields-OpenEnds s_http_host s_http_host p m u l h inv enters = ground arith
host_fields-OpenEnds _ s_http_host_dead p m u l h inv enters = tt
host_fields-OpenEnds _ _ p m u l h inv enters = ground arith

host_step-Inv :
    (s : HostState) (ch p m : ℕ) (u : HttpParserUrl)
    → p < m
    → m < 65536
    → HostInv s p m u
    → let s' = http_parse_host_char s ch in HostInv s' (suc p) m (host_fields s s' p u)
host_step-Inv s ch p m u l h inv =
    let s' = http_parse_host_char s ch in
    record {
      bounds = host_fields-InBounds s s' p m u l h inv (http_parse_host_char-enters s ch);
      uncounted = λ e.
          host_fields-uncounted s s' p u e ∙ inv.uncounted (http_parse_host_char-before s ch e);
      current = host_fields-OpenEnds s s' p m u l h inv (http_parse_host_char-enters s ch);
    }

host_loop-InBounds :
    (n : ℕ) (buf : List ℕ) (p m : ℕ) (s : HostState) (u : HttpParserUrl)
    → p + n ≤ m
    → m < 65536
    → HostInv s p m u
    → InBounds m (host_loop n buf p s u).1
unfolding host_loop
host_loop-InBounds zero buf p m s u l h inv = inv.bounds
host_loop-InBounds (suc n) buf p m s u l h inv =
    let s' = http_parse_host_char s (get_or buf p 0) in
    elim (Bool-cases (is_host_dead s')) [
      | inl e ↦ rw (e, host_loop) inv.bounds
      | inr e ↦
          rw (e, host_loop)
            (host_loop-InBounds n buf (p + 1) m s' (host_fields s s' p u) (omega arith) h (
              subst (λ q. HostInv s' q m (host_fields s s' p u)) (omega arith)
                (host_step-Inv s (get_or buf p 0) p m u (omega arith) h inv)))
    ]

-- `http_parse_host` starts by forgetting the host's length.
http_parse_host-InBounds :
    (buf : List ℕ) (m : ℕ) (u : HttpParserUrl) (found_at : Bool)
    → m < 65536
    → u.field_set uf_host ≡ true
    → InBounds m u
    → InBounds m (http_parse_host buf u found_at).1
unfolding http_parse_host
http_parse_host-InBounds buf m u found_at h set b =
    let host = u.field_data uf_host in
    let u' : HttpParserUrl = record u {
      field_data = put_field uf_host (record { off = host.off; len = 0 }) u.field_data;
    } in
    let start = λ (s : HostState) (c : OpenEnds host.off (host_current s) u').
      host_loop-InBounds host.len buf host.off m s u' (b uf_host set) h (record {
        bounds = λ k e. ground (arith, b k, b uf_host set);
        uncounted = λ _. refl;
        current = c;
      }) in
    elim found_at
      as (λ at.
        InBounds m
          (host_loop host.len buf host.off (if at then s_http_userinfo_start else s_http_host_start)
            u').1) [ true ↦ start s_http_userinfo_start tt | false ↦ start s_http_host_start tt ]

set_port-InBounds :
    (buf : List ℕ) (m : ℕ) (u : HttpParserUrl) → InBounds m u → InBounds m (set_port buf u).1
unfolding set_port
set_port-InBounds buf m u b k e = ground (arith, b k)

check_connect-InBounds :
    (buf : List ℕ) (m : ℕ) (c : Bool) (r : Bool × HttpParserUrl)
    → InBounds m r.1
    → InBounds m (check_connect buf c r).1
unfolding check_connect
check_connect-InBounds buf m c (true, u) b = b
check_connect-InBounds buf m c (false, u) b = elim (Bool-cases (c && not (only_host_port u))) [
  | inl e ↦ rw e b
  | inr e ↦ rw e (set_port-InBounds buf m u b)
]

check_url-InBounds :
    (buf : List ℕ) (m : ℕ) (c : Bool) (r : Scanned)
    → m < 65536
    → ScannedInBounds m r
    → InBounds m (check_url buf c r).1
unfolding check_url
check_url-InBounds buf m c (broken u) h b = b
check_url-InBounds buf m c (whole at u) h b =
    elim (Bool-cases (u.field_set uf_schema && not (u.field_set uf_host))) [
      | inl e ↦ rw e b
      | inr e ↦ rw e (
          check_connect-InBounds buf m c
            (if u.field_set uf_host then http_parse_host buf u at else (false, u))
            (elim (Bool-cases (u.field_set uf_host)) [
              | inl set ↦ rw set (http_parse_host-InBounds buf m u at h set b)
              | inr unset ↦ rw unset b
            ]))
    ]

-- Whatever `http_parser_parse_url` returns for a URL shorter than 65536 bytes, every field that it
-- marks as set lies inside the URL.
pub http_parser_parse_url-in_bounds :
    (buf : List ℕ) (n : ℕ) (c : Bool) (u : HttpParserUrl) (f : UrlField)
    → n < 65536
    → let r = (http_parser_parse_url buf n c u).1 in
      r.field_set f ≡ true → (r.field_data f).off + (r.field_data f).len ≤ n
unfolding http_parser_parse_url
http_parser_parse_url-in_bounds buf n c u f h =
    let s = if c then s_req_server_start else s_req_spaces_before_url in
    check_url-InBounds buf n c (url_loop n buf 0 s none false (cleared u)) h
      (url_loop-InBounds n buf 0 n s none false (cleared u) (omega arith) h tt (λ k e. cc)) f
