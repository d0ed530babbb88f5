-- ===== src/Base/Integers.antt =====
-- Integers over the native numbers, and decimal digits: strconv.ParseInt and the verb %d.
use Prim.Native.Nat.{ℕ, zero, suc, ◌+◌, ◌-◌, ◌*◌, ◌/◌, ◌%◌, ◌^◌}
use mathlib.Core.Bool.{Bool, ◌&&◌}
use mathlib.Core.Option.{Option, none, some}
use mathlib.Core.List.{[], ◌∷◌, ◌++◌}
use xensus.Base.Tests.{ltb, leb, if◌then◌else◌}
use xensus.Base.Texts.{Text}
use xensus.Base.Lists.{length}

pub data ℤ : Type 0 where
  pos negsuc : ℕ → ℤ

abbrev pub is_digit : ℕ → Bool
is_digit c = leb b'0' c && leb c b'9'

-- The digits of a number below 10 ^ `k`.
unfoldable pub digits : ℕ → ℕ → Text
digits zero n = []
digits (suc k) n =
    let front = digits k (n / 10) in
    if ltb n 10 then (b'0' + n) ∷ [] else front ++ ((b'0' + n % 10) ∷ [])

-- An int64 has at most 19 digits.
abbrev pub decimal : ℕ → Text
decimal n = digits 19 n

unfoldable pub zeros : ℕ → Text
zeros zero = []
zeros (suc n) = b'0' ∷ zeros n

-- With zeros in front, up to a width.
abbrev pub padded : ℕ → Text → Text
padded width s = zeros (width - length s) ++ s

-- The value of the digits behind `n`.
unfoldable pub read_digits : ℕ → Text → Option ℕ
read_digits n [] = some n
read_digits n (c ∷ s) =
    let rest = read_digits (n * 10 + (c - b'0')) s in if is_digit c then rest else none

abbrev pub parse_digits : Text → Option ℕ
parse_digits [] = none
parse_digits (c ∷ s) = read_digits 0 (c ∷ s)

-- A value that int64 holds.
abbrev pub in_range : Option ℕ → Option ℤ
in_range none = none
in_range (some n) = if ltb n (2 ^ 63) then some (pos n) else none

abbrev pub negated : Option ℕ → Option ℤ
negated none = none
negated (some zero) = some (pos 0)
negated (some (suc n)) = if ltb n (2 ^ 63) then some (negsuc n) else none

-- `strconv.ParseInt(s, 10, 64)`, whose errors are not told apart
abbrev pub parse_int : Text → Option ℤ
parse_int [] = none
parse_int (c ∷ s) =
    if leb b'+' c && leb c b'+'
    then in_range (parse_digits s)
    else if leb b'-' c && leb c b'-'
    then negated (parse_digits s)
    else in_range (parse_digits (c ∷ s))
