-- ===== src/Auth/Founding.antt =====
-- auth/handlers.go: the first sign-in of a deployment.
use xensus.Base.{
  ℕ, ◌+◌, ◌≤◌, ◌≡◌, refl, ap, ◌∙◌, true, false, ◌||◌, none, some, inl, inr, text_eq, text_eq_refl,
  is_empty, ltb, arith,
}
use xensus.Sql.{count_where}
use xensus.Store.Schema.{Database}
use xensus.Store.Session.{Session, Result, ok, err}
use xensus.Store.Systems.{null_string}
use xensus.Store.Stewards.{holds_oid}
use xensus.Core.Audit.{Actor}
use xensus.Core.Bootstrap.{BootstrapClaim}
use xensus.Core.Bootstrap
use xensus.Core.Stewards.{claim_pending_steward}
use xensus.Core.Refinement.{Refines}
use xensus.Core.Refinement.Bootstrap.{bootstrap-Refines}
use xensus.Core.Refinement.Claims.{claim_pending_steward-Refines}
use xensus.Registry.Admission.{HasRoom, bootstrap-appoints, claim-keeps}
use xensus.Auth.Cookies.{LoginData, Visit, SetCookie, session_max_age, write_session}
use xensus.Auth.Tokens.{Claims}
use xensus.Auth.World.{Authenticator, World, try_authenticate}
use xensus.Auth.SignIn.{
  complete_sign_in, enter, bind_tenant, bootstrapped, claim_invitation, session_reply,
}
use xensus.Auth.Sealing.{IsSound}
use xensus.Auth.Entry.{Carries, try_authenticate-Knows}
use xensus.Auth.Arrival.{session_of, Refines-works, complete_sign_in-enter}

-- With a driver of which no call fails, the result is the registry's.
Refines-result :
    {A : Type 0} (s : Session) (x : Result A × Session) (y : Result A × Database)
    → ((k : ℕ) → s.driver.fails k ≡ false)
    → Refines s x y
    → x.0 ≡ y.0
Refines-result s x y works h = elim h.2 [
  | inl failed ↦ absurd (let e = failed.0.1 in let f = works failed.0.0 in cc)
  | inr done ↦ done.0
]

bootstrapped-ok :
    (c : Claims) (w : World) (x : Result ℕ × Session) (id : ℕ)
    → x.0 ≡ ok id
    → bootstrapped c w x ≡ (some c.tid, record { tenant = c.tid; session = x.1 })
bootstrapped-ok c w (ok n, s) id e = refl
bootstrapped-ok c w (err f, s) id e = absurd (let e' = e in cc)

-- Claims with a name and a tenant.
abbrev pub AreComplete : Claims → Type 0
AreComplete c = (is_empty c.oid || is_empty c.upn || is_empty c.tid) ≡ false

abbrev claim_of : Claims → BootstrapClaim
claim_of c = record { oid = c.oid; upn = c.upn; tid = c.tid }

-- The world once the tenant is bound.
abbrev bound_world : Claims → World → World
bound_world c w = record {
  tenant = c.tid;
  session = (Bootstrap.bootstrap (claim_of c) w.session).1;
}

-- What is known of the bound world.
record IsFounded (c : Claims) (w : World) : Type 0 where
  binding : bind_tenant c w ≡ (some c.tid, bound_world c w)
  idle : (bound_world c w).session.working ≡ none
  works : (k : ℕ) → (bound_world c w).session.driver.fails k ≡ false
  role :
      ltb 0 (count_where (holds_oid c.oid) (bound_world c w).session.committed.stewards.rows) ≡ true

founds :
    (c : Claims) (w : World)
    → w.session.working ≡ none
    → ((k : ℕ) → w.session.driver.fails k ≡ false)
    → HasRoom w.session.committed
    → is_empty w.tenant ≡ true
    → is_empty (null_string w.session.committed.config.tenant_id) ≡ true
    → ltb 0 (count_where (holds_oid c.oid) w.session.committed.stewards.rows) ≡ false
    → AreComplete c
    → IsFounded c w
unfolding bind_tenant
founds c w idle works room fresh unbound new complete =
    let x = Bootstrap.bootstrap (claim_of c) w.session in
    let refines = bootstrap-Refines (claim_of c) w.session idle in
    let after = Refines-works w.session x _ works refines in
    let appointed =
      bootstrap-appoints _ _ _ (claim_of c) w.session.committed complete unbound new room in
    let result = Refines-result w.session x _ works refines ∙ appointed.0 in
    record {
      binding = rw fresh (bootstrapped-ok c w x _ result);
      idle = refines.0;
      works = λ k. rw after.0 (works k);
      role = rw after.1 appointed.1;
    }

complete-tid : (c : Claims) → AreComplete c → is_empty c.tid ≡ false
complete-tid c h = ground (arith, h)

enters :
    (a : Authenticator) (n : ℕ) (r : Visit) (c : Claims) (ls : LoginData) (w : World)
    → bind_tenant c w ≡ (some c.tid, bound_world c w)
    → c.nonce ≡ ls.nonce
    → complete_sign_in a n r c ls w ≡ (
      session_reply ls (write_session a.sessions n r (session_of r c)),
      claim_invitation c (bound_world c w),
    )
enters a n r c ls w binding nonce =
    let nonce' : text_eq c.nonce ls.nonce ≡ true = rw (← nonce) (text_eq_refl c.nonce) in
    let same = text_eq_refl c.tid in
    complete_sign_in-enter a n r c ls w nonce' ∙ ap (enter a n r c ls) binding ∙ rw same refl

-- With sound cryptography, someone whose claims name them and a tenant, and who holds no role, signs in
-- to an unbound deployment, where no transaction is open, no call of the driver fails, the tables have
-- room, the login's nonce is that of the claims, and the session cookie is written. They are sent on
-- with that cookie, and a request that brings it back, without a bearer token, by the end of the session
-- is a steward's, of the tenant of the claims.
pub first-BecomesSteward :
    (a : Authenticator) (n : ℕ) (r r' : Visit) (c : Claims) (ls : LoginData) (w : World)
    (cookie : SetCookie)
    → IsSound a.sessions.crypto
    → w.session.working ≡ none
    → ((k : ℕ) → w.session.driver.fails k ≡ false)
    → HasRoom w.session.committed
    → is_empty w.tenant ≡ true
    → is_empty (null_string w.session.committed.config.tenant_id) ≡ true
    → ltb 0 (count_where (holds_oid c.oid) w.session.committed.stewards.rows) ≡ false
    → AreComplete c
    → c.nonce ≡ ls.nonce
    → write_session a.sessions n r (session_of r c) ≡ some cookie
    → Carries cookie.value r'
    → r'.now ≤ r.now + session_max_age
    → ((complete_sign_in a n r c ls w).0 ≡ session_reply ls (some cookie))
      × ((try_authenticate a r' (complete_sign_in a n r c ls w).1).0
          ≡ some (record { oid = c.oid; upn = c.upn; tid = c.tid; is_steward = true }))
first-BecomesSteward a n r r' c ls w cookie sound idle works room fresh unbound new complete nonce
      written carries on_time =
    let founded = founds c w idle works room fresh unbound new complete in
    let s = (bound_world c w).session in
    let actor : Actor = record { oid = c.oid; upn = c.upn } in
    let w' = claim_invitation c (bound_world c w) in
    let after =
      Refines-works s (claim_pending_steward actor s) _ founded.works
        (claim_pending_steward-Refines actor s founded.idle) in
    let kept = claim-keeps _ _ actor c.oid s.committed founded.role in
    let knows =
      try_authenticate-Knows a n r r' (session_of r c) cookie w' sound written carries on_time
        (complete-tid c complete) refl (rw after.0 (founded.works w'.session.tick)) in
    let role : ltb 0 (count_where (holds_oid c.oid) w'.session.committed.stewards.rows) ≡ true =
      rw after.1 kept in
    let entered = enters a n r c ls w founded.binding nonce in
    (
      ap (λ x. x.0) entered ∙ ap (session_reply ls) written,
      ap (λ x. (try_authenticate a r' x.1).0) entered ∙ knows ∙ rw role refl,
    )
