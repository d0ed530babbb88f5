-- ===== src/Id/Tests.antt =====
-- id/id.go at concrete texts.
use xensus.Base.{
  ◌≡◌, refl, pos, negsuc, codes, arith, trim_space, trim_left, is_space, digits, zeros, read_digits,
}
use xensus.Id.{format, parse, id, invalid, not_positive, not_a_number}
use xensus.Id.RoundTrip.{parse-format}

format_123 : format (pos 123) ≡ codes "X-000123"
unfolding format digits zeros
format_123 = refl

format_million : format (pos 1000000) ≡ codes "X-1000000"
unfolding format digits zeros
format_million = refl

format_negative : format (negsuc 4) ≡ codes "X--00005"
unfolding format digits zeros
format_negative = refl

parse_bare : parse (codes " x42 ") ≡ id 42
unfolding parse trim_space trim_left is_space read_digits
parse_bare = refl

parse_zero : parse (codes "X-000000") ≡ invalid not_positive
unfolding parse trim_space trim_left is_space read_digits
parse_zero = refl

parse_word : parse (codes "X-12a") ≡ invalid not_a_number
unfolding parse trim_space trim_left is_space read_digits
parse_word = refl

parse-format_example : parse (format (pos 1234567)) ≡ id 1234567
parse-format_example = parse-format 1234567 (omega arith) (omega arith)
