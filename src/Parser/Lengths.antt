-- ===== src/Parser/Lengths.antt =====
-- The digits of a `Content-Length` in http_parser.c, for a number as `operator<<` prints it.
pub mod Loop
use my_warehouse.Common.{
  length-append, ℕ, zero, suc, ◌+◌, ◌-◌, ◌*◌, ◌/◌, ◌%◌, ◌^◌, ◌≤◌, ◌<◌, ◌≡◌, inl, inr, ◌∙◌, refl,
  sym, ap, subst, arith, true, false, Bool-cases, Option, none, some, List, [], ◌∷◌, ◌++◌, length,
  ltb, leb, ◌==◌, if◌then◌else◌, decimal_digits, decimal_digits-snoc, decimal_digits-digit,
}
use my_warehouse.Parser.Chars.{is_num}
use my_warehouse.Parser.Enums.{h_content_length}
use my_warehouse.Parser.State.{Parser, ullong_max}
use my_warehouse.Parser.Value.{ValueByte, taken, refused, length_digit, value_start}

-- The greatest number that the test against overflow lets through.
abbrev pub max_content_length : ℕ
max_content_length = 18446744073709551609

-- The digits after the first one, and all the digits.
abbrev pub after_digit : ValueByte → (Parser → Option Parser) → Option Parser
after_digit (taken q h) f = f q
after_digit refused f = none

abbrev pub read_digits : List ℕ → Parser → Option Parser
read_digits [] q = some q
read_digits (c ∷ cs) q = after_digit (length_digit c q) (read_digits cs)

abbrev pub then_digits : List ℕ → Option Parser → Option Parser
then_digits cs none = none
then_digits cs (some q) = read_digits cs q

abbrev pub read_number : List ℕ → Parser → Option Parser
read_number [] q = none
read_number (c ∷ cs) q = then_digits cs (value_start h_content_length c q)

after_digit-append :
    (b : ValueByte) (f g : Parser → Option Parser) (ys : List ℕ)
    → ((q : Parser) → f q ≡ then_digits ys (g q))
    → after_digit b f ≡ then_digits ys (after_digit b g)
after_digit-append (taken q h) f g ys e = e q
after_digit-append refused f g ys e = refl

read_digits-append :
    (xs ys : List ℕ) (q : Parser) → read_digits (xs ++ ys) q ≡ then_digits ys (read_digits xs q)
read_digits-append [] ys q = refl
read_digits-append (x ∷ xs) ys q =
    after_digit-append (length_digit x q) (read_digits (xs ++ ys)) (read_digits xs) ys
      (read_digits-append xs ys)

then_digits-append :
    (xs ys : List ℕ) (o : Option Parser)
    → then_digits (xs ++ ys) o ≡ then_digits ys (then_digits xs o)
then_digits-append xs ys none = refl
then_digits-append xs ys (some q) = read_digits-append xs ys q

read_number-append :
    (xs ys : List ℕ) (q : Parser)
    → 0 < length xs
    → read_number (xs ++ ys) q ≡ then_digits ys (read_number xs q)
read_number-append [] ys q h = absurd (omega arith)
read_number-append (x ∷ xs) ys q h = then_digits-append xs ys (value_start h_content_length x q)

-- What the digits of a number leave behind.
abbrev pub number_read : ℕ → Parser → Option Parser
number_read n q = if leb n max_content_length then some (record q { content_length = n }) else none

abbrev pub with_length : ℕ → Parser → Parser
with_length n q = record q { content_length = n }

digit_taken :
    (a b : ℕ) (q : Parser)
    → b < 10
    → a ≤ 1844674407370955160
    → length_digit (b'0' + b) (with_length a q)
      ≡ taken (with_length (10 * a + b) q) h_content_length
unfolding length_digit
digit_taken a b q h l =
    let space : (b'0' + b == b' ') ≡ false = ground arith in
    let digit : is_num (b'0' + b) ≡ true = ground arith in
    let room : ltb ((ullong_max - 10) / 10) a ≡ false = ground arith in
    let sum : (a * 10 % 2 ^ 64 + (b'0' + b - b'0')) % 2 ^ 64 ≡ 10 * a + b = omega arith in
    rw (space, digit, room, sum) refl

digit_refused :
    (a b : ℕ) (q : Parser)
    → b < 10
    → 1844674407370955160 < a
    → length_digit (b'0' + b) (with_length a q) ≡ refused
unfolding length_digit
digit_refused a b q h l =
    let space : (b'0' + b == b' ') ≡ false = ground arith in
    let digit : is_num (b'0' + b) ≡ true = ground arith in
    let room : ltb ((ullong_max - 10) / 10) a ≡ true = ground arith in rw (space, digit, room) refl

-- One more digit.
length_digit-next :
    (a b : ℕ) (q : Parser)
    → b < 10
    → then_digits ((b'0' + b) ∷ []) (number_read a q) ≡ number_read (10 * a + b) q
length_digit-next a b q h = elim (Bool-cases (leb (10 * a + b) max_content_length)) [
  | inl t ↦
      let small : leb a max_content_length ≡ true = ground arith in
      let l : a ≤ 1844674407370955160 = ground arith in
      rw (t, small) (ap (λ x. after_digit x some) (digit_taken a b q h l))
  | inr t ↦ elim (Bool-cases (leb a max_content_length)) [
    | inl u ↦
        let l : 1844674407370955160 < a = ground arith in
        rw (t, u) (ap (λ x. after_digit x some) (digit_refused a b q h l))
    | inr u ↦ rw (t, u) refl
  ]
]

abbrev pub Reads : ℕ → Parser → List ℕ → Type 0
Reads n q text = (0 < length text) × (read_number text q ≡ number_read n q)

digit-Reads : (fuel n : ℕ) (q : Parser) → n ≤ fuel → n < 10 → Reads n q (decimal_digits fuel n)
unfolding value_start
digit-Reads fuel n q h l =
    let digit : is_num (b'0' + n) ≡ true = ground arith in
    let small : leb n max_content_length ≡ true = ground arith in
    let same : b'0' + n - b'0' ≡ n = omega arith in
    rw (decimal_digits-digit fuel n h l) (omega arith, rw (digit, small, same) refl)

snoc-Reads :
    (n : ℕ) (text : List ℕ) (q : Parser)
    → Reads (n / 10) q text
    → Reads n q (text ++ (b'0' + n % 10) ∷ [])
snoc-Reads n text q (some_digits, e) = (
  omega (arith, length-append text ((b'0' + n % 10) ∷ [])),
  read_number-append text ((b'0' + n % 10) ∷ []) q some_digits
      ∙ ap (then_digits ((b'0' + n % 10) ∷ [])) e
      ∙ length_digit-next (n / 10) (n % 10) q (omega arith)
      ∙ ap (λ x. number_read x q) (omega arith),
)

pub decimal_digits-Reads : (fuel n : ℕ) (q : Parser) → n ≤ fuel → Reads n q (decimal_digits fuel n)
decimal_digits-Reads zero n q h = digit-Reads zero n q h (omega arith)
decimal_digits-Reads (suc fuel) n q h = elim (Bool-cases (ltb n 10)) [
  | inl t ↦ digit-Reads (suc fuel) n q h (ground arith)
  | inr t ↦ subst (Reads n q) (sym (decimal_digits-snoc fuel n h (ground arith))) (
      snoc-Reads n (decimal_digits fuel (n / 10)) q
        (decimal_digits-Reads fuel (n / 10) q (omega arith)))
]

abbrev pub AllNum : List ℕ → Type 0
AllNum [] = Unit
AllNum (c ∷ cs) = (is_num c ≡ true) × AllNum cs

AllNum-append : (xs ys : List ℕ) → AllNum xs → AllNum ys → AllNum (xs ++ ys)
AllNum-append [] ys a b = b
AllNum-append (x ∷ xs) ys (h, a) b = (h, AllNum-append xs ys a b)

pub decimal_digits-AllNum : (fuel n : ℕ) → n ≤ fuel → AllNum (decimal_digits fuel n)
decimal_digits-AllNum zero n h = rw (decimal_digits-digit 0 n h (omega arith)) (ground arith, tt)
decimal_digits-AllNum (suc fuel) n h = elim (Bool-cases (ltb n 10)) [
  | inl t ↦
      let l : n < 10 = ground arith in rw (decimal_digits-digit (suc fuel) n h l) (ground arith, tt)
  | inr t ↦ rw (decimal_digits-snoc fuel n h (ground arith)) (
      AllNum-append (decimal_digits fuel (n / 10)) ((b'0' + n % 10) ∷ [])
        (decimal_digits-AllNum fuel (n / 10) (omega arith)) (ground arith, tt))
]
