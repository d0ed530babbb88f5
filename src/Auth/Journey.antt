-- ===== src/Auth/Journey.antt =====
-- auth/handlers.go: whom the callback admits.
use xensus.Base.{
  ℕ, ◌≡◌, refl, sym, ap, subst, ◌⊎◌, Bool, true, false, ◌&&◌, Option, none, some, Option-cases, inl,
  inr, List, [], ◌∷◌, Text, text_eq, text_eq_sound, is_empty, Bool-cases, arith,
}
use xensus.Auth.Cookies.{
  LoginData, Visit, SetCookie, read_login_state, clear_cookie, login_cookie_name,
}
use xensus.Auth.Tokens.{Claims, Inner, verify}
use xensus.Auth.World.{Authenticator, World}
use xensus.Auth.SignIn.{Reply, Query, Exchange, exchanged, callback_with, callback}
use xensus.Auth.Binding.{Agrees}
use xensus.Auth.Arrival.{Admission, complete_sign_in-Admits}

abbrev deletes : Option ℕ → Bool
deletes none = true
deletes (some n) = false

-- Whether no cookie is set but ones that are deleted.
abbrev pub only_deletes : List SetCookie → Bool
only_deletes [] = true
only_deletes (c ∷ cs) = deletes c.max_age && only_deletes cs

verify-tid :
    (inner : Inner) (raw : Text) (c : Claims) → verify inner raw ≡ some c → is_empty c.tid ≡ false
unfolding verify
verify-tid inner raw c e = elim (Option-cases (inner raw)) [
  | inl bad ↦ absurd (let e' = (rw bad at e) in cc)
  | inr (c', good) ↦ elim (Bool-cases (is_empty c'.oid)) [
    | inl blank ↦ absurd (let e' = (rw (good, blank) at e) in cc)
    | inr oid ↦ elim (Bool-cases (is_empty c'.tid)) [
      | inl blank ↦ absurd (let e' = (rw (good, oid, blank) at e) in cc)
      | inr tid ↦
          let e' = (rw (good, oid, tid) at e) in
          let same : c' ≡ c = ground (arith, e') in rw (← same) tid
    ]
  ]
]

-- What it takes to be admitted by a callback: the login that the request brings, the provider's
-- answer to its code, and an admission of the claims that the answer's token carries.
abbrev pub Journey : Authenticator → Exchange → ℕ → Query → Visit → List SetCookie → World → Type 0
Journey a exchange n q r cookies w =
    (ls : LoginData) × (raw : Text) × (c : Claims) × (read_login_state a.sessions r ≡ some ls)
    × (q.state ≡ ls.state)
    × (exchange q.code ≡ some (some raw))
    × (verify a.inner raw ≡ some c)
    × ((reply : Reply) × (cookies ≡ clear_cookie a.sessions r login_cookie_name ∷ reply.cookies)
        × Admission a n r c ls (reply, w))

exchanged-Admits :
    (a : Authenticator) (n : ℕ) (r : Visit) (ls : LoginData) (o : Option (Option Text)) (w : World)
    → Agrees w
    → ((exchanged a n r ls o w).0.cookies ≡ [])
      ⊎ ((raw : Text) × (c : Claims) × (o ≡ some (some raw))
          × (verify a.inner raw ≡ some c)
          × Admission a n r c ls (exchanged a n r ls o w))
exchanged-Admits a n r ls none w agrees = inl refl
exchanged-Admits a n r ls (some none) w agrees = inl refl
exchanged-Admits a n r ls (some (some raw)) w agrees = elim (Bool-cases (is_empty raw)) [
  | inl blank ↦ rw blank (inl refl)
  | inr token ↦ elim (Option-cases (verify a.inner raw)) [
    | inl bad ↦ rw (token, bad) (inl refl)
    | inr (c, good) ↦
        rw (token, good)
          (elim (complete_sign_in-Admits a n r c ls w agrees (verify-tid a.inner raw c good)) [
            | inl nothing ↦ inl nothing
            | inr admitted ↦ inr (raw, c, refl, good, admitted)
          ])
  ]
]

callback_with-Journey :
    (a : Authenticator) (exchange : Exchange) (n : ℕ) (q : Query) (r : Visit) (ls : LoginData)
    (w : World)
    → Agrees w
    → read_login_state a.sessions r ≡ some ls
    → (only_deletes (callback_with a exchange n q r (some ls) w).0.cookies ≡ true)
      ⊎ Journey a exchange n q r
          (callback_with a exchange n q r (some ls) w).0.cookies
          (callback_with a exchange n q r (some ls) w).1
callback_with-Journey a exchange n q r ls w agrees brought =
    elim (Bool-cases (text_eq q.state ls.state)) [
      | inr other ↦ rw other (inl refl)
      | inl same ↦ elim (Bool-cases (is_empty q.error)) [
        | inr wrong ↦ rw (same, wrong) (inl refl)
        | inl fine ↦ elim (Bool-cases (is_empty q.code)) [
          | inl blank ↦ rw (same, fine, blank) (inl refl)
          | inr code ↦
              rw (same, fine, code)
                (elim (exchanged-Admits a n r ls (exchange q.code) w agrees) [
                  | inl nothing ↦ inl (rw nothing refl)
                  | inr (raw, c, answered, good, admitted) ↦ inr (
                    ls,
                    raw,
                    c,
                    brought,
                    text_eq_sound q.state ls.state same,
                    answered,
                    good,
                    ((exchanged a n r ls (exchange q.code) w).0, refl, admitted),
                  )
                ])
        ]
      ]
    ]

-- Where no transaction is open and the process remembers no tenant or the one in the database, a
-- callback either sets no cookie but deletes some, or the request brings a login with the query's state,
-- the query's code was exchanged for a token that is verified, the token's nonce is the login's, the
-- database ends up bound to the token's tenant, and the cookies set are the deleted login and the session
-- of the token's claims.
pub callback-Journey :
    (a : Authenticator) (exchange : Exchange) (n : ℕ) (q : Query) (r : Visit) (w : World)
    → Agrees w
    → (only_deletes (callback a exchange n q r w).0.cookies ≡ true)
      ⊎ Journey a exchange n q r
          (callback a exchange n q r w).0.cookies
          (callback a exchange n q r w).1
unfolding callback
callback-Journey a exchange n q r w agrees = elim (Option-cases (read_login_state a.sessions r)) [
  | inl missing ↦ rw missing (inl refl)
  | inr (ls, brought) ↦
      subst {A = Reply × World}
        (λ x. (only_deletes x.0.cookies ≡ true) ⊎ Journey a exchange n q r x.0.cookies x.1)
        (sym (ap (λ o. callback_with a exchange n q r o w) brought))
        (callback_with-Journey a exchange n q r ls w agrees brought)
]
