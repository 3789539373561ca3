-- ===== src/Parser/Classes.antt =====
-- The tables `tokens` and `normal_url_char` and the character tests of http_parser.c, against the
-- characters that RFC 7230 and RFC 3986 name.
use my_warehouse.Common.{
  ℕ, ◌+◌, ◌<◌, ◌≡◌, refl, arith, Bool, true, false, not, ◌&&◌, ◌||◌, leb, ◌==◌, if◌then◌else◌,
  all_below, all_below_sound, ==_iff,
}
use my_warehouse.Parser.Chars.{token, is_url_char, is_alpha, is_hex, lower, bit_at, is_num}

abbrev is_upper : ℕ → Bool
is_upper c = leb b'A' c && leb c b'Z'

abbrev is_small : ℕ → Bool
is_small c = leb b'a' c && leb c b'z'

-- ALPHA and HEXDIG.
abbrev pub is_letter : ℕ → Bool
is_letter c = is_upper c || is_small c

abbrev pub is_hex_digit : ℕ → Bool
is_hex_digit c = is_num c || leb b'A' c && leb c b'F' || leb b'a' c && leb c b'f'

-- The characters of a token that are no letter: RFC 7230, 3.2.6.
abbrev is_token_mark : ℕ → Bool
is_token_mark c =
    is_num c
    || c == b'!'
    || c == b'#'
    || c == b'$'
    || c == b'%'
    || c == b'&'
    || c == 39
    || c == b'*'
    || c == b'+'
    || c == b'-'
    || c == b'.'
    || c == b'^'
    || c == b'_'
    || c == b'`'
    || c == b'|'
    || c == b'~'

-- A character of a token in small letters, and 0 for every other byte.
abbrev pub token_value : ℕ → ℕ
token_value c = if is_upper c then c + 32 else if is_small c || is_token_mark c then c else 0

-- The visible characters of ASCII, but for those that end a path or a query.
abbrev pub is_path_char : ℕ → Bool
is_path_char c = leb b'!' c && leb c b'~' && not (c == b'#') && not (c == b'?')

abbrev same : Bool → Bool → Bool
same true b = b
same false b = not b

same-equal : (a b : Bool) → same a b ≡ true → a ≡ b
same-equal true b e = ground arith
same-equal false b e = ground arith

-- Each test agrees with its description, by evaluation.
tokens-all : all_below 256 (λ c. token c == token_value c) ≡ true
unfolding token
tokens-all = refl

urls-all : all_below 256 (λ c. same (is_url_char c) (is_path_char c)) ≡ true
unfolding is_url_char bit_at
urls-all = refl

letters-all : all_below 256 (λ c. same (is_alpha c) (is_letter c)) ≡ true
unfolding is_alpha lower
letters-all = refl

hexes-all : all_below 256 (λ c. same (is_hex c) (is_hex_digit c)) ≡ true
unfolding is_hex lower
hexes-all = refl

-- For every byte: `TOKEN` gives the character in small letters where it is a character of a token and 0
-- elsewhere; `IS_URL_CHAR` holds of the visible characters but `#` and `?`; `IS_ALPHA` of the letters;
-- and `IS_HEX` of the hexadecimal digits.
pub token-classes :
    (c : ℕ)
    → c < 256
    → (token c ≡ token_value c)
      × (is_url_char c ≡ is_path_char c)
      × (is_alpha c ≡ is_letter c)
      × (is_hex c ≡ is_hex_digit c)
token-classes c h = (
  (==_iff (token c) (token_value c)).0
      (all_below_sound 256 (λ c. token c == token_value c) c tokens-all h),
  same-equal (is_url_char c) (is_path_char c)
      (all_below_sound 256 (λ c. same (is_url_char c) (is_path_char c)) c urls-all h),
  same-equal (is_alpha c) (is_letter c)
      (all_below_sound 256 (λ c. same (is_alpha c) (is_letter c)) c letters-all h),
  same-equal (is_hex c) (is_hex_digit c)
      (all_below_sound 256 (λ c. same (is_hex c) (is_hex_digit c)) c hexes-all h),
)
