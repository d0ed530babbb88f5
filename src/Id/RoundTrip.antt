-- ===== src/Id/RoundTrip.antt =====
-- id/id.go: printing and then parsing.
use xensus.Base.{
  ℕ, zero, suc, ◌+◌, ◌*◌, ◌/◌, ◌%◌, ◌^◌, ◌<◌, ◌≡◌, refl, sym, ap, ◌∙◌, pos, true, false, some, [],
  ◌∷◌, ◌++◌, Text, All, All-append, is_digit, digits, decimal, zeros, padded, read_digits,
  parse_int, in_range, trim_space, trim_left, is_space, is_empty, arith, ltb, length, ◌-◌,
  Bool-cases, inl, inr,
}
use mathlib.Core.List.{reverse, reverse-append, reverse-reverse, append_assoc, append-nil}
use xensus.Id.{format, parse, id}

abbrev IsDigit : ℕ → Type 0
IsDigit c = is_digit c ≡ true

digits-IsDigit : (k n : ℕ) → All IsDigit (digits k n)
unfolding digits
digits-IsDigit zero n = tt
digits-IsDigit (suc k) n = elim (Bool-cases (ltb n 10)) [
  | inl small ↦ rw small (ground (arith, small), tt)
  | inr large ↦ rw large (All-append IsDigit _ _ (digits-IsDigit k (n / 10)) (ground arith, tt))
]

zeros-IsDigit : (w : ℕ) → All IsDigit (zeros w)
unfolding zeros
zeros-IsDigit zero = tt
zeros-IsDigit (suc w) = (refl, zeros-IsDigit w)

digit-value : (d : ℕ) → (48 + d) - 48 ≡ d
digit-value d = omega arith

read_digits-step :
    (m d : ℕ) (t : Text) → d < 10 → read_digits m ((48 + d) ∷ t) ≡ read_digits (m * 10 + d) t
unfolding read_digits
read_digits-step m d t h =
    let digit : is_digit (48 + d) ≡ true = ground arith in
    rw digit (ap (λ e. read_digits (m * 10 + e) t) (digit-value d))

-- The digits of a number read as the number.
read_digits-digits :
    (k n : ℕ) (t : Text) → n < 10 ^ k → read_digits 0 (digits k n ++ t) ≡ read_digits n t
unfolding digits
read_digits-digits zero n t h = ap (λ m. read_digits m t) (omega (arith, h))
read_digits-digits (suc k) n t h = elim (Bool-cases (ltb n 10)) [
  | inl small ↦
      rw small
        (read_digits-step 0 n t (ground (arith, small)) ∙ ap (λ m. read_digits m t) (omega arith))
  | inr large ↦
      rw (large, append_assoc (digits k (n / 10)) ((48 + n % 10) ∷ []) t)
        (read_digits-digits k (n / 10) ((48 + n % 10) ∷ t) (omega (arith, h))
          ∙ read_digits-step (n / 10) (n % 10) t (omega arith)
          ∙ ap (λ m. read_digits m t) (omega arith))
]

read_digits-zeros : (w : ℕ) (t : Text) → read_digits 0 (zeros w ++ t) ≡ read_digits 0 t
unfolding zeros read_digits
read_digits-zeros zero t = refl
read_digits-zeros (suc w) t = read_digits-zeros w t

-- A text between two characters that are no spaces.
trim_space-closed :
    (c d : ℕ) (s : Text)
    → is_space c ≡ false
    → is_space d ≡ false
    → trim_space (c ∷ (s ++ (d ∷ []))) ≡ c ∷ (s ++ (d ∷ []))
unfolding trim_space trim_left
trim_space-closed c d s hc hd =
    rw (hc, reverse-append (c ∷ s) (d ∷ []), hd)
      (ap reverse (sym (reverse-append (c ∷ s) (d ∷ []))) ∙ reverse-reverse (c ∷ (s ++ (d ∷ []))))

record EndsInDigit (s : Text) : Type 0 where
  front : Text
  last : ℕ
  split : s ≡ front ++ (last ∷ [])
  digit : IsDigit last

digits-EndsInDigit : (k n : ℕ) → EndsInDigit (digits (suc k) n)
unfolding digits
digits-EndsInDigit k n = elim (Bool-cases (ltb n 10)) [
  | inl small ↦ record {
    front = [];
    last = 48 + n;
    split = rw small refl;
    digit = ground (arith, small);
  }
  | inr large ↦ record {
    front = digits k (n / 10);
    last = 48 + n % 10;
    split = rw large refl;
    digit = ground arith;
  }
]

padded-EndsInDigit : (w : ℕ) (s : Text) → EndsInDigit s → EndsInDigit (padded w s)
padded-EndsInDigit w s h = record {
  front = zeros (w - length s) ++ h.front;
  last = h.last;
  split =
      ap (λ t. zeros (w - length s) ++ t) h.split
      ∙ sym (append_assoc (zeros (w - length s)) h.front (h.last ∷ []));
  digit = h.digit;
}

digit-no-space : (d : ℕ) → IsDigit d → is_space d ≡ false
unfolding is_space
digit-no-space d h = ground (arith, h)

parse_int-digits :
    (s : Text) → All IsDigit s → is_empty s ≡ false → parse_int s ≡ in_range (read_digits 0 s)
parse_int-digits [] h e = cc
parse_int-digits (c ∷ s) h e = ground (arith, h.0)

-- The text that is printed has no space at either end.
trim_space-format : (n : ℕ) → trim_space (format (pos n)) ≡ format (pos n)
unfolding format is_space
trim_space-format n =
    let h = padded-EndsInDigit 6 (decimal n) (digits-EndsInDigit 18 n) in
    rw h.split (trim_space-closed b'X' h.last (b'-' ∷ h.front) refl (digit-no-space h.last h.digit))

append-is_empty : (s : Text) (c : ℕ) → is_empty (s ++ (c ∷ [])) ≡ false
append-is_empty [] c = refl
append-is_empty (d ∷ s) c = refl

EndsInDigit-is_empty : (s : Text) → EndsInDigit s → is_empty s ≡ false
EndsInDigit-is_empty s h = rw h.split (append-is_empty h.front h.last)

padded-read : (n : ℕ) → n < 10 ^ 19 → parse_int (padded 6 (decimal n)) ≡ in_range (some n)
unfolding read_digits
padded-read n h =
    let w = 6 - length (decimal n) in
    parse_int-digits (padded 6 (decimal n))
      (All-append IsDigit (zeros w) (decimal n) (zeros-IsDigit w) (digits-IsDigit 19 n))
      (EndsInDigit-is_empty _ (padded-EndsInDigit 6 (decimal n) (digits-EndsInDigit 18 n)))
    ∙ ap in_range (
        read_digits-zeros w (decimal n)
        ∙ ap (read_digits 0) (sym (append-nil (decimal n)))
        ∙ read_digits-digits 19 n [] h)

-- `Parse` reads what `Format` prints for a positive int64 as that number.
pub parse-format : (n : ℕ) → 0 < n → n < 2 ^ 63 → parse (format (pos n)) ≡ id n
unfolding parse format
parse-format zero positive h = absurd (omega (arith, positive))
parse-format (suc n) positive h =
    rw (trim_space-format (suc n), padded-read (suc n) (omega (arith, h))) (ground (arith, h))
