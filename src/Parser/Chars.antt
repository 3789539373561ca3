-- ===== src/Parser/Chars.antt =====
-- The character classes and lookup tables of http_parser.c, with HTTP_PARSER_STRICT at its default, 1.
-- A byte is a number below 256. C reads `char` as signed; every comparison here is with an ASCII
-- character and rejects a byte above 127 under either reading.
use my_warehouse.Common.{
  ℕ, ◌+◌, ◌-◌, ◌/◌, ◌%◌, ◌^◌, bit_or, Bool, not, ◌&&◌, ◌||◌, Option, none, some, List, [], ◌∷◌, leb,
  ltb, ◌==◌, if◌then◌else◌, get_or,
}

abbrev pub cr : ℕ
cr = 13

abbrev pub lf : ℕ
lf = 10

-- `LOWER(c)`.
unfoldable pub lower : ℕ → ℕ
lower c = bit_or c 0x20

-- `IS_ALPHA(c)`.
unfoldable pub is_alpha : ℕ → Bool
unfolding lower
is_alpha c = leb b'a' (lower c) && leb (lower c) b'z'

-- `IS_NUM(c)`.
abbrev pub is_num : ℕ → Bool
is_num c = leb b'0' c && leb c b'9'

-- `IS_ALPHANUM(c)`.
unfoldable pub is_alphanum : ℕ → Bool
unfolding is_alpha
is_alphanum c = is_alpha c || is_num c

-- `IS_HEX(c)`.
unfoldable pub is_hex : ℕ → Bool
unfolding lower
is_hex c = is_num c || leb b'a' (lower c) && leb (lower c) b'f'

-- `IS_MARK(c)`.
unfoldable pub is_mark : ℕ → Bool
is_mark c =
    c == b'-'
    || c == b'_'
    || c == b'.'
    || c == b'!'
    || c == b'~'
    || c == b'*'
    || c == 39
    || c == b'('
    || c == b')'

-- `IS_USERINFO_CHAR(c)`.
unfoldable pub is_userinfo_char : ℕ → Bool
unfolding is_alphanum is_mark
is_userinfo_char c =
    is_alphanum c
    || is_mark c
    || c == b'%'
    || c == b';'
    || c == b':'
    || c == b'&'
    || c == b'='
    || c == b'+'
    || c == b'$'
    || c == b','

-- `IS_HOST_CHAR(c)`.
unfoldable pub is_host_char : ℕ → Bool
unfolding is_alphanum
is_host_char c = is_alphanum c || c == b'.' || c == b'-'

-- `tokens`: the initialisers given; the rest of the 256 entries are 0.
abbrev pub tokens : List ℕ
tokens =
    0 ∷ 0 ∷ 0 ∷ 0 ∷ 0 ∷ 0 ∷ 0 ∷ 0 ∷ 0 ∷ 0 ∷ 0 ∷ 0 ∷ 0 ∷ 0 ∷ 0 ∷ 0 ∷ 0 ∷ 0 ∷ 0 ∷ 0 ∷ 0 ∷ 0 ∷ 0 ∷ 0
    ∷ 0 ∷ 0 ∷ 0 ∷ 0 ∷ 0 ∷ 0 ∷ 0 ∷ 0 ∷ 0 ∷ 33 ∷ 0 ∷ 35 ∷ 36 ∷ 37 ∷ 38 ∷ 39 ∷ 0 ∷ 0 ∷ 42 ∷ 43 ∷ 0 ∷ 45
    ∷ 46 ∷ 0 ∷ 48 ∷ 49 ∷ 50 ∷ 51 ∷ 52 ∷ 53 ∷ 54 ∷ 55 ∷ 56 ∷ 57 ∷ 0 ∷ 0 ∷ 0 ∷ 0 ∷ 0 ∷ 0 ∷ 0 ∷ 97 ∷ 98
    ∷ 99 ∷ 100 ∷ 101 ∷ 102 ∷ 103 ∷ 104 ∷ 105 ∷ 106 ∷ 107 ∷ 108 ∷ 109 ∷ 110 ∷ 111 ∷ 112 ∷ 113 ∷ 114
    ∷ 115 ∷ 116 ∷ 117 ∷ 118 ∷ 119 ∷ 120 ∷ 121 ∷ 122 ∷ 0 ∷ 0 ∷ 0 ∷ 94 ∷ 95 ∷ 96 ∷ 97 ∷ 98 ∷ 99 ∷ 100
    ∷ 101 ∷ 102 ∷ 103 ∷ 104 ∷ 105 ∷ 106 ∷ 107 ∷ 108 ∷ 109 ∷ 110 ∷ 111 ∷ 112 ∷ 113 ∷ 114 ∷ 115 ∷ 116
    ∷ 117 ∷ 118 ∷ 119 ∷ 120 ∷ 121 ∷ 122 ∷ 0 ∷ 124 ∷ 0 ∷ 126 ∷ 0 ∷ []

-- `TOKEN(c)` and `STRICT_TOKEN(c)`, which are the same in strict mode; 0 is no token.
unfoldable pub token : ℕ → ℕ
token c = get_or tokens c 0

-- `normal_url_char`: a bit for each character; the rest of the 32 bytes are 0.
abbrev pub normal_url_char : List ℕ
normal_url_char =
    0 ∷ 0 ∷ 0 ∷ 0 ∷ 246 ∷ 255 ∷ 255 ∷ 127 ∷ 255 ∷ 255 ∷ 255 ∷ 255 ∷ 255 ∷ 255 ∷ 255 ∷ 127 ∷ []

-- `BIT_AT(a, i)`.
unfoldable pub bit_at : List ℕ → ℕ → Bool
bit_at a i = not ((get_or a (i / 8) 0 / 2 ^ (i % 8)) % 2 == 0)

-- `IS_URL_CHAR(c)`.
unfoldable pub is_url_char : ℕ → Bool
unfolding bit_at
is_url_char c = bit_at normal_url_char c

-- `unhex`, where `none` is -1. Of the 256 entries only the first 128 are given, so that C sets those
-- above to 0, and not to -1.
unfoldable pub unhex : ℕ → Option ℕ
unhex c =
    if is_num c
    then some (c - b'0')
    else if leb b'A' c && leb c b'F'
    then some (c - b'A' + 10)
    else if leb b'a' c && leb c b'f'
    then some (c - b'a' + 10)
    else if ltb c 128
    then none
    else some 0
