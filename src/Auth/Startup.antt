-- ===== src/Auth/Startup.antt =====
-- auth/authenticator.go and auth/session.go: what a process starts with.
use xensus.Base.{
  ℕ, ◌≡◌, refl, subst, ◌∙◌, Bool, true, false, ◌==◌, inl, inr, Option, none, some, Text, is_empty,
  length, if◌then◌else◌, Bool-cases, arith,
}
use xensus.Registry.{◌>>=◌}
use xensus.Store.Session.{Session, Result, ok, err}
use xensus.Store.Systems.{null_string}
use xensus.Store.Tenant.{bound_tenant_id}
use xensus.Auth.Cookies.{Crypto, SessionStore}
use xensus.Auth.World.{World}
use xensus.Auth.Binding.{Agrees, bound_tenant_id-reads, bound_tenant_id-keeps, null_string-some}

-- crypto/rand's n-th reading, base64.StdEncoding, and what a key of 32 bytes makes of the rest of crypto.
pub record Keys : Type 0 where
  pub random : ℕ → ℕ → Option Text
  pub decode : Text → Option Text
  pub crypto : Text → Crypto

-- A key and whether it was generated.
abbrev pub KeyChoice : Type 0
KeyChoice = Text × Bool

abbrev generated : Option Text → Option KeyChoice
generated none = none
generated (some key) = some (key, true)

abbrev configured : Option Text → Option KeyChoice
configured none = none
configured (some key) = if length key == 32 then some (key, false) else none

-- The key of `NewSessionStore`
unfoldable pub choose_key : Keys → ℕ → Text → Option KeyChoice
choose_key keys n key_b64 =
    if is_empty key_b64 then generated (keys.random 32 n) else configured (keys.decode key_b64)

-- `NewSessionStore`, with the flag of `KeyGenerated`
unfoldable pub new_session_store : Keys → ℕ → Text → Bool → Option (SessionStore × Bool)
new_session_store keys n key_b64 trust_proxy = do
  (key, is_new) ← choose_key keys n key_b64
  some (record { crypto = keys.crypto key; trust_proxy = trust_proxy }, is_new)

abbrev pub started : Result Text × Session → Option World × Session
started (err e, s) = (none, s)
started (ok tid, s) = (some (record { tenant = tid; session = s }), s)

-- `New`, as far as the bound tenant goes
unfoldable pub start : Session → Option World × Session
start s = started (bound_tenant_id s)

started-Agrees :
    (s : Session) (x : Result Text × Session) (w : World)
    → x.1.working ≡ none
    → x.1.committed ≡ s.committed
    → ((tid : Text) → x.0 ≡ ok tid → null_string s.committed.config.tenant_id ≡ tid)
    → (started x).0 ≡ some w
    → Agrees w × (w.session.committed ≡ s.committed)
started-Agrees s (err e, s') w idle kept reads h = absurd (let h' = h in cc)
started-Agrees s (ok tid, s') w idle kept reads h =
    let w' : World = record { tenant = tid; session = s' } in
    let same : w' ≡ w = cc in
    subst (λ w. Agrees w × (w.session.committed ≡ s.committed)) same
      (elim (Bool-cases (is_empty tid)) [
        | inl blank ↦ (record { idle = idle; tenant = inl blank }, kept)
        | inr named ↦
            let bound = null_string-some s.committed.config.tenant_id tid (reads tid refl) named in
            (record { idle = idle; tenant = inr (rw kept bound) }, kept)
      ])

-- A process that starts while no transaction is open remembers the tenant of the database, or none where
-- the database has none, and leaves the database as it was.
pub start-Agrees :
    (s : Session) (w : World)
    → s.working ≡ none
    → (start s).0 ≡ some w
    → Agrees w × (w.session.committed ≡ s.committed)
unfolding start
start-Agrees s w idle e =
    let keeps = bound_tenant_id-keeps s in
    started-Agrees s (bound_tenant_id s) w (keeps.1 ∙ idle) keeps.0
      (λ tid e. (bound_tenant_id-reads s tid (bound_tenant_id s).1 (ground (arith, e))).0) e
