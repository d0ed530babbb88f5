-- ===== src/Id.antt =====
-- id/id.go: the printed form of a person's ID.
pub mod RoundTrip
mod Tests
use xensus.Base.{
  ℕ, zero, suc, ℤ, pos, negsuc, Bool, ◌||◌, ◌==◌, Option, none, some, List, [], ◌∷◌, ◌++◌, Text,
  codes, trim_space, is_empty, decimal, padded, parse_int, if◌then◌else◌,
}

-- `%06d`, whose width counts the sign
abbrev pub six_digits : ℤ → Text
six_digits (pos n) = padded 6 (decimal n)
six_digits (negsuc n) = b'-' ∷ padded 5 (decimal (suc n))

-- `Format`
unfoldable pub format : ℤ → Text
format n = b'X' ∷ b'-' ∷ six_digits n

-- Why a text is no ID.
pub data IdError : Type 0 where
  id_is_empty not_a_number not_positive : IdError

pub data Parsed : Type 0 where
  id : ℕ → Parsed
  invalid : IdError → Parsed

-- `strings.TrimPrefix(s, "-")`
abbrev without_dash : Text → Text
without_dash [] = []
without_dash (c ∷ s) = if c == b'-' then s else c ∷ s

abbrev without_prefix : Text → Text
without_prefix [] = []
without_prefix (c ∷ s) = if c == b'X' || c == b'x' then without_dash s else c ∷ s

abbrev checked : Option ℤ → Parsed
checked none = invalid not_a_number
checked (some (negsuc n)) = invalid not_positive
checked (some (pos zero)) = invalid not_positive
checked (some (pos (suc n))) = id (suc n)

-- `Parse`
unfoldable pub parse : Text → Parsed
parse s =
    let body = trim_space s in
    if is_empty body then invalid id_is_empty else checked (parse_int (without_prefix body))
