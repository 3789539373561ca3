-- ===== src/Common/Text.antt =====
-- Strings as lists of bytes, and numbers as `operator<<` prints them.
use Prim.Native.Char.{code}
use Prim.Native.String.{String}
use Prim.Native.Nat.{ℕ, zero, suc, ◌+◌, ◌/◌, ◌%◌, ◌≤◌, ◌<◌}
use mathlib.Core.Path.{◌≡◌, refl}
use native.Mathlib.Omega.{arith}
use mathlib.Core.List.{List, [], ◌∷◌, ◌++◌}
use my_warehouse.Common.Tests.{ltb, if◌then◌else◌}

-- A literal of ASCII characters as its bytes.
abbrev pub codes : String → List ℕ
codes String.[] = []
codes (String.◌∷◌ c s) = code c ∷ codes s

-- The digits of a number, with as much fuel as the number.
unfoldable pub decimal_digits : ℕ → ℕ → List ℕ
decimal_digits zero n = (b'0' + n % 10) ∷ []
decimal_digits (suc fuel) n =
    let rest = decimal_digits fuel (n / 10) in
    if ltb n 10 then (b'0' + n) ∷ [] else rest ++ (b'0' + n % 10) ∷ []

unfoldable pub decimal : ℕ → List ℕ
unfolding decimal_digits
decimal n = decimal_digits n n

-- A number is printed as one digit, or as those of its tenth and its last digit.
pub decimal_digits-snoc :
    (fuel n : ℕ)
    → n ≤ suc fuel
    → 10 ≤ n
    → decimal_digits (suc fuel) n ≡ decimal_digits fuel (n / 10) ++ (b'0' + n % 10) ∷ []
unfolding decimal_digits
decimal_digits-snoc fuel n h l = ground arith

pub decimal_digits-digit :
    (fuel n : ℕ) → n ≤ fuel → n < 10 → decimal_digits fuel n ≡ (b'0' + n) ∷ []
unfolding decimal_digits
decimal_digits-digit zero n h l = ground arith
decimal_digits-digit (suc fuel) n h l = ground arith

pub decimal-digits : (n : ℕ) → decimal n ≡ decimal_digits n n
unfolding decimal
decimal-digits n = refl
