-- ===== src/Auth/Binding.antt =====
-- auth/handlers.go: the tenant that a sign-in binds, finds bound, or is refused by.
use xensus.Base.{
  ℕ, ◌≡◌, refl, sym, ap, ◌∙◌, ◌⊎◌, Bool, true, false, Option, none, some, inl, inr, Text, text_eq,
  is_empty, Bool-cases, arith,
}
use xensus.Store.Schema.{Database}
use xensus.Store.Session.{Session, Result, ok, err, already_bound, query_row}
use xensus.Store.Systems.{null_string}
use xensus.Store.Tenant.{bound_tenant_id}
use xensus.Core.Refinement.{Refines}
use xensus.Core.Refinement.Bootstrap.{bootstrap-Refines}
use xensus.Core.Refinement.Claims.{claim_pending_steward-Refines}
use xensus.Registry.Admission.{bootstrap-tenant_id, claim-config}
use xensus.Auth.Cookies.{LoginData, Visit}
use xensus.Auth.Tokens.{Claims}
use xensus.Auth.World.{Authenticator, World}
use xensus.Auth.SignIn.{complete_sign_in, enter, bind_tenant, bootstrapped, reread}

-- No transaction is open, and the tenant that the process remembers is the one in the database.
pub record Agrees (w : World) : Type 0 where
  pub idle : w.session.working ≡ none
  pub tenant : (is_empty w.tenant ≡ true) ⊎ (w.session.committed.config.tenant_id ≡ some w.tenant)

pub bound_tenant_id-reads :
    (s : Session) (tid : Text) (s' : Session)
    → bound_tenant_id s ≡ (ok tid, s')
    → (null_string s.committed.config.tenant_id ≡ tid)
      × (s'.committed ≡ s.committed)
      × (s'.working ≡ s.working)
unfolding bound_tenant_id query_row
bound_tenant_id-reads s tid s' e = ground (arith, e)

pub bound_tenant_id-keeps :
    (s : Session)
    → ((bound_tenant_id s).1.committed ≡ s.committed) × ((bound_tenant_id s).1.working ≡ s.working)
unfolding bound_tenant_id query_row
bound_tenant_id-keeps s = ground arith

pub null_string-some :
    (o : Option Text) (s : Text) → null_string o ≡ s → is_empty s ≡ false → o ≡ some s
null_string-some none s e h = absurd (let e' = (rw (← e) at h) in cc)
null_string-some (some t) s e h = ap some e

reread-Agrees :
    (w : World) (x : Result Text × Session)
    → is_empty w.tenant ≡ true
    → x.1.working ≡ none
    → ((tid : Text) → x.0 ≡ ok tid → null_string x.1.committed.config.tenant_id ≡ tid)
    → Agrees (reread w x).1
reread-Agrees w (err e, s) unbound idle reads = record { idle = idle; tenant = inl unbound }
reread-Agrees w (ok tid, s) unbound idle reads = elim (Bool-cases (is_empty tid)) [
  | inl blank ↦ rw blank (record { idle = idle; tenant = inl unbound })
  | inr named ↦ rw named (record {
    idle = idle;
    tenant = inr (null_string-some s.committed.config.tenant_id tid (reads tid refl) named);
  })
]

bound_tenant_id-Agrees :
    (w : World) (s : Session)
    → is_empty w.tenant ≡ true
    → s.working ≡ none
    → Agrees (reread w (bound_tenant_id s)).1
bound_tenant_id-Agrees w s unbound idle =
    reread-Agrees w (bound_tenant_id s) unbound ((bound_tenant_id-keeps s).1 ∙ idle) λ tid e.
      let r = bound_tenant_id-reads s tid (bound_tenant_id s).1 (ground (arith, e)) in rw r.1 r.0

-- Whatever the outcome, the result of the first binding agrees with the database.
bootstrapped-Agrees :
    (c : Claims) (w : World) (x : Result ℕ × Session) (y : Result ℕ × Database)
    → is_empty w.tenant ≡ true
    → Refines w.session x y
    → ((id : ℕ) → y.0 ≡ ok id → y.1.config.tenant_id ≡ some c.tid)
    → Agrees (bootstrapped c w x).1
bootstrapped-Agrees c w (ok id, s) y unbound h binds = record {
  idle = h.0;
  tenant = inr (elim h.2 [
    | inl failed ↦ absurd (let e = failed.1 in cc)
    | inr (same, d) ↦ rw d (binds id (sym same))
  ]);
}
bootstrapped-Agrees c w (err already_bound, s) y unbound h binds =
    bound_tenant_id-Agrees w s unbound h.0
bootstrapped-Agrees c w (err e, s) y unbound h binds = record { idle = h.0; tenant = inl unbound }

bind_tenant-Agrees : (c : Claims) (w : World) → Agrees w → Agrees (bind_tenant c w).1
unfolding bind_tenant
bind_tenant-Agrees c w agrees = elim (Bool-cases (is_empty w.tenant)) [
  | inl unbound ↦ rw unbound (
      bootstrapped-Agrees c w _ _ unbound
        (bootstrap-Refines (record { oid = c.oid; upn = c.upn; tid = c.tid }) w.session agrees.idle)
        (bootstrap-tenant_id _ _ _ _ _))
  | inr bound ↦ rw bound agrees
]

claim-Agrees :
    (w : World) (x : Result Bool × Session) (y : Result Bool × Database)
    → Agrees w
    → Refines w.session x y
    → y.1.config ≡ w.session.committed.config
    → Agrees (record w { session = x.1 })
claim-Agrees w x y agrees h same = record {
  idle = h.0;
  tenant = elim h.2 [
    | inl (_, _, kept) ↦ rw kept agrees.tenant
    | inr (_, new) ↦ rw (new, same) agrees.tenant
  ];
}

enter-Agrees :
    (a : Authenticator) (n : ℕ) (r : Visit) (c : Claims) (ls : LoginData) (o : Option Text)
    (w : World)
    → Agrees w
    → Agrees (enter a n r c ls (o, w)).1
enter-Agrees a n r c ls none w agrees = agrees
enter-Agrees a n r c ls (some bound) w agrees = elim (Bool-cases (text_eq c.tid bound)) [
  | inl same ↦ rw same (
      claim-Agrees w _ _ agrees
        (claim_pending_steward-Refines (record { oid = c.oid; upn = c.upn }) w.session agrees.idle)
        (claim-config _ _ _ _))
  | inr other ↦ rw other agrees
]

-- Where no transaction is open and the process remembers no tenant or the one in the database, the
-- same holds after a sign-in, whatever it ends in and whichever calls of the driver fail.
pub complete_sign_in-Agrees :
    (a : Authenticator) (n : ℕ) (r : Visit) (c : Claims) (ls : LoginData) (w : World)
    → Agrees w
    → Agrees (complete_sign_in a n r c ls w).1
unfolding complete_sign_in
complete_sign_in-Agrees a n r c ls w agrees = elim (Bool-cases (text_eq c.nonce ls.nonce)) [
  | inl same ↦ rw same (
      enter-Agrees a n r c ls (bind_tenant c w).0 (bind_tenant c w).1
        (bind_tenant-Agrees c w agrees))
  | inr other ↦ rw other agrees
]
