-- ===== src/Auth/TestCrypto.antt =====
-- A codec and a cipher that only stand in for the real ones, on which the tests of auth/*.go run.
use xensus.Base.{ℕ, zero, suc, ◌≡◌, refl, ap, Option, none, some, [], ◌∷◌, Text, length, arith}
use xensus.Registry.{◌>>=◌}
use xensus.Store.Schema.{Value, text, number, Details}
use xensus.Auth.Cookies.{Crypto}
use xensus.Auth.Sealing.{IsSound}

abbrev put_text : Text → Text → Text
put_text [] t = 0 ∷ t
put_text (c ∷ s) t = suc c ∷ put_text s t

abbrev get_text : Text → Option (Text × Text)
get_text [] = none
get_text (zero ∷ t) = some ([], t)
get_text (suc c ∷ t) = do (s, t') ← get_text t; some (c ∷ s, t')

get_text-put_text : (s t : Text) → get_text (put_text s t) ≡ some (s, t)
get_text-put_text [] t = refl
get_text-put_text (c ∷ s) t = rw (get_text-put_text s t) refl

abbrev put_value : Value → Text → Text
put_value (text s) t = 0 ∷ put_text s t
put_value (number n) t = 1 ∷ n ∷ t

abbrev get_number : Text → Option (Value × Text)
get_number [] = none
get_number (n ∷ t) = some (number n, t)

abbrev get_value : Text → Option (Value × Text)
get_value [] = none
get_value (zero ∷ t) = do (s, t') ← get_text t; some (text s, t')
get_value (suc _ ∷ t) = get_number t

get_value-put_value : (v : Value) (t : Text) → get_value (put_value v t) ≡ some (v, t)
get_value-put_value (text s) t = rw (get_text-put_text s t) refl
get_value-put_value (number n) t = refl

abbrev put_fields : Details → Text
put_fields [] = []
put_fields ((k, v) ∷ d) = put_text k (put_value v (put_fields d))

abbrev get_fields : ℕ → Text → Option Details
get_fields zero t = some []
get_fields (suc n) t = do
  (k, t') ← get_text t
  (v, t'') ← get_value t'
  d ← get_fields n t''
  some ((k, v) ∷ d)

get_fields-put_fields : (d : Details) → get_fields (length d) (put_fields d) ≡ some d
get_fields-put_fields [] = refl
get_fields-put_fields ((k, v) ∷ d) =
    rw
      (
        get_text-put_text k (put_value v (put_fields d)),
        get_value-put_value v (put_fields d),
        get_fields-put_fields d,
      )
      refl

abbrev get_counted : Text → Option Details
get_counted [] = none
get_counted (n ∷ t) = get_fields n t

abbrev pub zeros : ℕ → Text
zeros zero = []
zeros (suc k) = 0 ∷ zeros k

length-zeros : (k : ℕ) → length (zeros k) ≡ k
length-zeros zero = refl
length-zeros (suc k) = ap suc (length-zeros k)

abbrev pub toy : Crypto
toy = record {
  random = λ k _. some (zeros k);
  nonce_size = 2;
  aead_seal = λ _ plaintext. plaintext;
  aead_open = λ _ ciphertext. some ciphertext;
  encode = λ s. s;
  decode = some;
  marshal = λ d. length d ∷ put_fields d;
  unmarshal = get_counted;
}

pub toy-IsSound : IsSound toy
toy-IsSound = record {
  random-length = λ k n b e. let e' = e in ground (arith, length-zeros k);
  decode-encode = λ _. refl;
  open-seal = λ _ _. refl;
  unmarshal-marshal = get_fields-put_fields;
}
