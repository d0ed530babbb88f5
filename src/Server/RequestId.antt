-- ===== src/Server/RequestId.antt =====
-- middleware.go: the ID of a request. crypto/rand and the clock are parameters, a byte is a number.
use xensus.Base.{
  ℕ, ◌+◌, ◌-◌, ◌*◌, ◌/◌, ◌%◌, ◌<◌, ◌≡◌, refl, ◌∙◌, ◌&&◌, ◌==◌, leb, ltb, Option, none, some, [],
  ◌∷◌, ◌++◌, Text, codes, decimal, if◌then◌else◌, arith,
}
use xensus.Registry.{◌>>=◌}

-- The 16 bytes of the array `b`.
pub record Bytes : Type 0 where
  pub b0 : ℕ
  pub b1 : ℕ
  pub b2 : ℕ
  pub b3 : ℕ
  pub b4 : ℕ
  pub b5 : ℕ
  pub b6 : ℕ
  pub b7 : ℕ
  pub b8 : ℕ
  pub b9 : ℕ
  pub b10 : ℕ
  pub b11 : ℕ
  pub b12 : ℕ
  pub b13 : ℕ
  pub b14 : ℕ
  pub b15 : ℕ

-- `b[6] = (b[6] & 0x0f) | 0x40` and `b[8] = (b[8] & 0x3f) | 0x80`
abbrev pub stamped : Bytes → Bytes
stamped b = record b { b6 = b.b6 % 16 + 64; b8 = b.b8 % 64 + 128 }

unfoldable pub hex_digit : ℕ → ℕ
hex_digit n = if ltb n 10 then n + 48 else n + 87

-- `%x` of one byte, in front of a text
abbrev pub hex : ℕ → Text → Text
hex b s = hex_digit (b / 16) ∷ hex_digit (b % 16) ∷ s

-- The format `%x-%x-%x-%x-%x`
abbrev pub printed : Bytes → Text
printed b = hex b.b0 (
    hex b.b1 (
      hex b.b2 (
        hex b.b3 (
          b'-'
          ∷ hex b.b4 (
              hex b.b5 (
                b'-'
                ∷ hex b.b6 (
                    hex b.b7 (
                      b'-'
                      ∷ hex b.b8 (
                          hex b.b9 (
                            b'-'
                            ∷ hex b.b10 (
                                hex b.b11
                                  (hex b.b12 (hex b.b13 (hex b.b14 (hex b.b15 [])))))))))))))))

-- `newRequestID`, for the bytes of crypto/rand, if it has any, and the nanoseconds of the clock
unfoldable pub new_request_id : Option Bytes → ℕ → Text
new_request_id none nanos = codes "ts-" ++ decimal nanos
new_request_id (some b) nanos = printed (stamped b)

-- A reader of such IDs: 16 bytes in lower-case hexadecimal digits, with four dashes.
unfoldable pub digit_value : ℕ → Option ℕ
digit_value c =
    if leb 48 c && ltb c 58
    then some (c - 48)
    else if leb 97 c && ltb c 103
    then some (c - 87)
    else none

unfoldable pub read_byte : {A : Type 0} → (ℕ → Text → Option A) → Text → Option A
read_byte next (c ∷ d ∷ s) = do high ← digit_value c; low ← digit_value d; next (16 * high + low) s
read_byte next _ = none

unfoldable pub read_dash : {A : Type 0} → (Text → Option A) → Text → Option A
read_dash next [] = none
read_dash next (c ∷ s) = if c == b'-' then next s else none

abbrev at_end : Bytes → Text → Option Bytes
at_end b [] = some b
at_end b (c ∷ s) = none

unfoldable pub read_id : Text → Option Bytes
read_id = read_byte λ b0. read_byte λ b1. read_byte λ b2. read_byte λ b3. read_dash (
    read_byte λ b4. read_byte λ b5. read_dash (
      read_byte λ b6. read_byte λ b7. read_dash (
        read_byte λ b8. read_byte λ b9. read_dash (
          read_byte λ b10. read_byte λ b11. read_byte λ b12. read_byte λ b13. read_byte λ b14.
            read_byte λ b15. at_end (record {
              b0 = b0;
              b1 = b1;
              b2 = b2;
              b3 = b3;
              b4 = b4;
              b5 = b5;
              b6 = b6;
              b7 = b7;
              b8 = b8;
              b9 = b9;
              b10 = b10;
              b11 = b11;
              b12 = b12;
              b13 = b13;
              b14 = b14;
              b15 = b15;
            })))))

-- Every entry is a byte.
pub record AreBytes (b : Bytes) : Type 0 where
  pub b0 : b.b0 < 256
  pub b1 : b.b1 < 256
  pub b2 : b.b2 < 256
  pub b3 : b.b3 < 256
  pub b4 : b.b4 < 256
  pub b5 : b.b5 < 256
  pub b6 : b.b6 < 256
  pub b7 : b.b7 < 256
  pub b8 : b.b8 < 256
  pub b9 : b.b9 < 256
  pub b10 : b.b10 < 256
  pub b11 : b.b11 < 256
  pub b12 : b.b12 < 256
  pub b13 : b.b13 < 256
  pub b14 : b.b14 < 256
  pub b15 : b.b15 < 256

digit_value-hex_digit : (n : ℕ) → n < 16 → digit_value (hex_digit n) ≡ some n
unfolding digit_value hex_digit
digit_value-hex_digit n h = ground (arith, h)

read_byte-hex :
    {A : Type 0} (next : ℕ → Text → Option A) (b : ℕ) (s : Text)
    → b < 256
    → read_byte next (hex b s) ≡ next b s
unfolding read_byte
read_byte-hex next b s h =
    let high = digit_value-hex_digit (b / 16) (omega (arith, h)) in
    let low = digit_value-hex_digit (b % 16) (omega (arith, h)) in
    let whole : 16 * (b / 16) + b % 16 ≡ b = omega arith in rw (high, low, whole) refl

read_id-printed : (b : Bytes) → AreBytes b → read_id (printed b) ≡ some b
unfolding read_id read_dash
read_id-printed b h =
    read_byte-hex _ b.b0 _ h.b0
    ∙ read_byte-hex _ b.b1 _ h.b1
    ∙ read_byte-hex _ b.b2 _ h.b2
    ∙ read_byte-hex _ b.b3 _ h.b3
    ∙ read_byte-hex _ b.b4 _ h.b4
    ∙ read_byte-hex _ b.b5 _ h.b5
    ∙ read_byte-hex _ b.b6 _ h.b6
    ∙ read_byte-hex _ b.b7 _ h.b7
    ∙ read_byte-hex _ b.b8 _ h.b8
    ∙ read_byte-hex _ b.b9 _ h.b9
    ∙ read_byte-hex _ b.b10 _ h.b10
    ∙ read_byte-hex _ b.b11 _ h.b11
    ∙ read_byte-hex _ b.b12 _ h.b12
    ∙ read_byte-hex _ b.b13 _ h.b13
    ∙ read_byte-hex _ b.b14 _ h.b14
    ∙ read_byte-hex _ b.b15 _ h.b15

-- Where crypto/rand gives 16 bytes, the ID of a request is read back as these bytes, but for the six
-- bits that say version 4 and variant 10 of a UUID.
pub new_request_id-IsUuid :
    (b : Bytes) (nanos : ℕ)
    → AreBytes b
    → (read_id (new_request_id (some b) nanos)
        ≡ some (record b { b6 = 4 * 16 + b.b6 % 16; b8 = 2 * 64 + b.b8 % 64 }))
unfolding new_request_id
new_request_id-IsUuid b nanos h =
    let b6_is : b.b6 % 16 + 64 ≡ 4 * 16 + b.b6 % 16 = omega arith in
    let b8_is : b.b8 % 64 + 128 ≡ 2 * 64 + b.b8 % 64 = omega arith in
    read_id-printed (stamped b) (record {
      b0 = h.b0;
      b1 = h.b1;
      b2 = h.b2;
      b3 = h.b3;
      b4 = h.b4;
      b5 = h.b5;
      b6 = omega arith;
      b7 = h.b7;
      b8 = omega arith;
      b9 = h.b9;
      b10 = h.b10;
      b11 = h.b11;
      b12 = h.b12;
      b13 = h.b13;
      b14 = h.b14;
      b15 = h.b15;
    })
    ∙ rw (b6_is, b8_is) refl
