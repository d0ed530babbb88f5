-- ===== src/Auth/Sealing.antt =====
-- auth/session.go: sealing and opening.
use xensus.Base.{
  ℕ, ◌≡◌, refl, ap, false, some, Option-cases, inl, inr, [], ◌∷◌, ◌++◌, Text, length, length-append,
  ltb, arith,
}
use xensus.Store.Schema.{Details}
use xensus.Auth.Cookies.{Crypto, take, drop, seal, open_raw, open_sealed}

-- What the program relies on in crypto/rand, the AEAD, base64 and JSON: a reading has the length asked
-- for, and each of the others undoes its inverse.
pub record IsSound (crypto : Crypto) : Type 0 where
  pub random-length : (k n : ℕ) (b : Text) → crypto.random k n ≡ some b → length b ≡ k
  pub decode-encode : (s : Text) → crypto.decode (crypto.encode s) ≡ some s
  pub open-seal :
      (nonce plaintext : Text)
      → crypto.aead_open nonce (crypto.aead_seal nonce plaintext) ≡ some plaintext
  pub unmarshal-marshal : (v : Details) → crypto.unmarshal (crypto.marshal v) ≡ some v

take-append : (s t : Text) → take (length s) (s ++ t) ≡ s
unfolding take
take-append [] t = refl
take-append (c ∷ s) t = ap (◌∷◌ c) (take-append s t)

drop-append : (s t : Text) → drop (length s) (s ++ t) ≡ t
unfolding drop
drop-append [] t = refl
drop-append (c ∷ s) t = drop-append s t

module _ (crypto : Crypto) (sound : IsSound crypto) where
  open_raw-append :
      (nonce plaintext : Text)
      → length nonce ≡ crypto.nonce_size
      → open_raw crypto (nonce ++ crypto.aead_seal nonce plaintext) ≡ crypto.unmarshal plaintext
  open_raw-append nonce plaintext size =
      let ct = crypto.aead_seal nonce plaintext in
      let long : ltb (length (nonce ++ ct)) (length nonce) ≡ false =
        ground (arith, length-append nonce ct) in
      rw (← size, long, take-append nonce ct, drop-append nonce ct, sound.open-seal nonce plaintext)
        refl

  -- What is sealed opens to the same.
  pub open_sealed-seal :
      (n : ℕ) (v : Details) (blob : Text)
      → seal crypto n v ≡ some blob
      → open_sealed crypto blob ≡ some v
  unfolding seal open_sealed
  open_sealed-seal n v blob e = elim (Option-cases (crypto.random crypto.nonce_size n)) [
    | inl dry ↦ absurd (let e' = (rw dry at e) in cc)
    | inr (nonce, drawn) ↦
        let e' = (rw drawn at e) in
        let same : crypto.encode (nonce ++ crypto.aead_seal nonce (crypto.marshal v)) ≡ blob = cc in
        rw
          (
            ← same,
            sound.decode-encode (nonce ++ crypto.aead_seal nonce (crypto.marshal v)),
            open_raw-append nonce (crypto.marshal v)
                (sound.random-length crypto.nonce_size n nonce drawn),
          )
          (sound.unmarshal-marshal v)
  ]
