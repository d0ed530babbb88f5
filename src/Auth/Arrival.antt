-- ===== src/Auth/Arrival.antt =====
-- auth/handlers.go: who is admitted by a sign-in, and as what.
use xensus.Base.{
  ℕ, suc, ◌+◌, ◌≤◌, ◌≡◌, refl, sym, ap, subst, ◌∙◌, ◌⊎◌, true, false, Option, none, some, inl, inr,
  [], ◌∷◌, Text, text_eq, text_eq_refl, text_eq_sound, is_empty, Bool-cases, ltb,
}
use xensus.Sql.{select_first, count_where}
use xensus.Store.Schema.{Database, PendingSteward}
use xensus.Store.Session.{Session, Result, ok, err, already_bound}
use xensus.Store.Stewards.{holds_oid}
use xensus.Store.PendingStewards.{invites}
use xensus.Store.Tenant.{bound_tenant_id}
use xensus.Core.Audit.{Actor}
use xensus.Core.Stewards.{claim_pending_steward}
use xensus.Core.Refinement.{Refines}
use xensus.Core.Refinement.Claims.{claim_pending_steward-Refines}
use xensus.Registry.Admission.{HasRoom, IsNamed, claim-appoints}
use xensus.Registry.Stewards as RegistryStewards
use xensus.Auth.Cookies.{SessionData, LoginData, Visit, SetCookie, session_max_age, write_session}
use xensus.Auth.Tokens.{Claims}
use xensus.Auth.World.{Authenticator, World, try_authenticate}
use xensus.Auth.SignIn.{
  Reply, complete_sign_in, enter, bind_tenant, bootstrapped, reread, claim_invitation,
  session_reply,
}
use xensus.Auth.Sealing.{IsSound}
use xensus.Auth.Entry.{Carries, try_authenticate-Knows}
use xensus.Auth.Binding.{Agrees, complete_sign_in-Agrees}

-- The session that a sign-in at `r` opens for the claims.
abbrev pub session_of : Visit → Claims → SessionData
session_of r c = record { oid = c.oid; upn = c.upn; tid = c.tid; exp = r.now + session_max_age }

reread-tenant :
    (w : World) (x : Result Text × Session) (t : Text)
    → (reread w x).0 ≡ some t
    → (reread w x).1.tenant ≡ t
reread-tenant w (err e, s) t h = absurd (let h' = h in cc)
reread-tenant w (ok tid, s) t h = elim (Bool-cases (is_empty tid)) [
  | inl blank ↦ absurd (let h' = (rw blank at h) in cc)
  | inr named ↦ let h' = (rw named at h) in rw named cc
]

bootstrapped-tenant :
    (c : Claims) (w : World) (x : Result ℕ × Session) (t : Text)
    → (bootstrapped c w x).0 ≡ some t
    → (bootstrapped c w x).1.tenant ≡ t
bootstrapped-tenant c w (ok id, s) t h = let h' = h in cc
bootstrapped-tenant c w (err already_bound, s) t h = reread-tenant w (bound_tenant_id s) t h
bootstrapped-tenant c w (err e, s) t h = absurd (let h' = h in cc)

bind_tenant-tenant :
    (c : Claims) (w : World) (t : Text)
    → (bind_tenant c w).0 ≡ some t
    → (bind_tenant c w).1.tenant ≡ t
unfolding bind_tenant
bind_tenant-tenant c w t h = elim (Bool-cases (is_empty w.tenant)) [
  | inl unbound ↦ let h' = (rw unbound at h) in rw unbound (bootstrapped-tenant c w _ t h')
  | inr bound ↦ let h' = (rw bound at h) in rw bound cc
]

-- What it takes to be admitted.
abbrev pub Admission : Authenticator → ℕ → Visit → Claims → LoginData → Reply × World → Type 0
Admission a n r c ls (reply, w) =
    (c.nonce ≡ ls.nonce)
    × (w.session.committed.config.tenant_id ≡ some c.tid)
    × ((cookie : SetCookie) × (write_session a.sessions n r (session_of r c) ≡ some cookie)
        × (reply.cookies ≡ cookie ∷ []))

session_reply-cookies :
    (ls : LoginData) (o : Option SetCookie)
    → ((session_reply ls o).cookies ≡ [])
      ⊎ ((cookie : SetCookie) × (o ≡ some cookie) × ((session_reply ls o).cookies ≡ cookie ∷ []))
session_reply-cookies ls none = inl refl
session_reply-cookies ls (some cookie) = inr (cookie, refl, refl)

Agrees-bound :
    (w : World) (t : Text)
    → Agrees w
    → w.tenant ≡ t
    → is_empty t ≡ false
    → w.session.committed.config.tenant_id ≡ some t
Agrees-bound w t agrees same named = elim agrees.tenant [
  | inl unbound ↦ absurd (let h = (rw same at unbound) in cc)
  | inr bound ↦ bound ∙ ap some same
]

enter-Admits :
    (a : Authenticator) (n : ℕ) (r : Visit) (c : Claims) (ls : LoginData) (o : Option Text)
    (w : World)
    → c.nonce ≡ ls.nonce
    → is_empty c.tid ≡ false
    → ((t : Text) → o ≡ some t → w.tenant ≡ t)
    → Agrees (enter a n r c ls (o, w)).1
    → ((enter a n r c ls (o, w)).0.cookies ≡ []) ⊎ Admission a n r c ls (enter a n r c ls (o, w))
enter-Admits a n r c ls none w same named tenant agrees = inl refl
enter-Admits a n r c ls (some bound) w same named tenant agrees =
    elim (Bool-cases (text_eq c.tid bound)) [
      | inr other ↦ rw other (inl refl)
      | inl ours ↦
          let agrees' : Agrees (claim_invitation c w) = (rw ours at agrees) in
          let ours' = tenant bound refl ∙ sym (text_eq_sound c.tid bound ours) in
          let in_db = Agrees-bound (claim_invitation c w) c.tid agrees' ours' named in
          rw ours (elim (session_reply-cookies ls (write_session a.sessions n r (session_of r c))) [
            | inl nothing ↦ inl nothing
            | inr admitted ↦ inr (same, in_db, admitted)
          ])
    ]

pub complete_sign_in-enter :
    (a : Authenticator) (n : ℕ) (r : Visit) (c : Claims) (ls : LoginData) (w : World)
    → text_eq c.nonce ls.nonce ≡ true
    → complete_sign_in a n r c ls w ≡ enter a n r c ls (bind_tenant c w)
unfolding complete_sign_in
complete_sign_in-enter a n r c ls w same = rw same refl

-- Where no transaction is open and the process remembers no tenant or the one in the database, a
-- sign-in with a tenant in its claims either sets no cookie, or the nonce of its claims is the one of
-- the login, the database ends up bound to the tenant of its claims, and the only cookie set is the
-- session of its claims.
pub complete_sign_in-Admits :
    (a : Authenticator) (n : ℕ) (r : Visit) (c : Claims) (ls : LoginData) (w : World)
    → Agrees w
    → is_empty c.tid ≡ false
    → ((complete_sign_in a n r c ls w).0.cookies ≡ [])
      ⊎ Admission a n r c ls (complete_sign_in a n r c ls w)
unfolding complete_sign_in
complete_sign_in-Admits a n r c ls w agrees named = elim (Bool-cases (text_eq c.nonce ls.nonce)) [
  | inr other ↦ rw other (inl refl)
  | inl same ↦
      let entered = complete_sign_in-enter a n r c ls w same in
      subst (λ x. (x.0.cookies ≡ []) ⊎ Admission a n r c ls x) (sym entered)
        (enter-Admits a n r c ls (bind_tenant c w).0 (bind_tenant c w).1
          (text_eq_sound c.nonce ls.nonce same) named (bind_tenant-tenant c w)
          (subst (λ x. Agrees x.1) entered (complete_sign_in-Agrees a n r c ls w agrees)))
]

pub Refines-works :
    {A : Type 0} (s : Session) (x : Result A × Session) (y : Result A × Database)
    → ((k : ℕ) → s.driver.fails k ≡ false)
    → Refines s x y
    → (x.1.driver ≡ s.driver) × (x.1.committed ≡ y.1)
Refines-works s x y works h = (
  h.1,
  elim h.2 [
    | inl failed ↦ absurd (let e = failed.0.1 in let f = works failed.0.0 in cc)
    | inr done ↦ done.1
  ],
)

-- With sound cryptography, an invited person, with claims that name them and a tenant, signs in
-- where no transaction is open, no call of the driver fails, the tables have room, the bound tenant
-- and the login's nonce are those of the claims, and the session cookie is written. They are sent
-- on with that cookie, and a request that brings it back, without a bearer token, by the end of the
-- session is a steward's.
pub invited-BecomesSteward :
    (a : Authenticator) (n : ℕ) (r r' : Visit) (c : Claims) (ls : LoginData) (w : World)
    (p : PendingSteward) (cookie : SetCookie)
    → IsSound a.sessions.crypto
    → w.session.working ≡ none
    → ((k : ℕ) → w.session.driver.fails k ≡ false)
    → HasRoom w.session.committed
    → w.tenant ≡ c.tid
    → is_empty c.tid ≡ false
    → c.nonce ≡ ls.nonce
    → IsNamed c.oid c.upn
    → select_first (invites c.upn) w.session.committed.pending_stewards.rows ≡ some p
    → write_session a.sessions n r (session_of r c) ≡ some cookie
    → Carries cookie.value r'
    → r'.now ≤ r.now + session_max_age
    → ((complete_sign_in a n r c ls w).0 ≡ session_reply ls (some cookie))
      × ((try_authenticate a r' (complete_sign_in a n r c ls w).1).0
          ≡ some (record { oid = c.oid; upn = c.upn; tid = c.tid; is_steward = true }))
unfolding complete_sign_in bind_tenant
invited-BecomesSteward a n r r' c ls w p cookie sound idle works room bound named nonce known
      invited written carries fresh =
    let actor : Actor = record { oid = c.oid; upn = c.upn } in
    let bound' : is_empty w.tenant ≡ false = rw bound named in
    let same : text_eq c.tid w.tenant ≡ true = rw bound (text_eq_refl c.tid) in
    let nonce' : text_eq c.nonce ls.nonce ≡ true = rw (← nonce) (text_eq_refl c.nonce) in
    let strftime = w.session.driver.strftime_now (suc (suc (suc w.session.tick))) in
    let go = w.session.driver.go_now (suc (suc (suc (suc (suc w.session.tick))))) in
    let after =
      Refines-works w.session (claim_pending_steward actor w.session)
        (RegistryStewards.claim_pending_steward strftime go actor w.session.committed) works
        (claim_pending_steward-Refines actor w.session idle) in
    let appointed = claim-appoints strftime go actor w.session.committed p known invited room in
    let w' = claim_invitation c w in
    let knows =
      try_authenticate-Knows a n r r' (session_of r c) cookie w' sound written carries fresh named
        bound (rw after.0 (works w'.session.tick)) in
    let role : ltb 0 (count_where (holds_oid c.oid) w'.session.committed.stewards.rows) ≡ true =
      rw after.1 appointed in
    rw (nonce', bound', same, written) (refl, knows ∙ rw role refl)
