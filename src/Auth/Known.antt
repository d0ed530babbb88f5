-- ===== src/Auth/Known.antt =====
-- auth/middleware.go: what is known of the user whom a request stands for.
use xensus.Base.{
  ◌≡◌, refl, ◌∙◌, true, false, Option, none, some, Bool-cases, inl, inr, Text, is_empty, text_eq,
  text_eq_sound, ltb, arith,
}
use xensus.Sql.{count_where}
use xensus.Store.Session.{Session, query_row}
use xensus.Store.Stewards.{is_active_steward, holds_oid}
use xensus.Auth.{User}
use xensus.Auth.Cookies.{Visit, SessionData, read_session}
use xensus.Auth.Tokens.{Claims, verify, extract_bearer}
use xensus.Auth.World.{Authenticator, World, try_authenticate, user_now, from_claims, from_session}

-- The session has the same database and the same open transaction, or none.
abbrev pub Same : Session → Session → Type 0
Same s s' = (s'.committed ≡ s.committed) × (s'.working ≡ s.working)

-- The role that a user is given is the one of the database.
abbrev pub HasRole : World → User → Type 0
HasRole w u = ltb 0 (count_where (holds_oid u.oid) w.session.committed.stewards.rows) ≡ true

-- What is known of a user whom a request stands for, and that finding out changes nothing.
abbrev pub IsKnown : World → Option User × World → Type 0
IsKnown w (user, w') =
    Same w.session w'.session
    × ((u : User) → user ≡ some u → (u.tid ≡ w.tenant) × (u.is_steward ≡ true → HasRole w u))

user_now-IsKnown :
    (oid upn tid : Text) (w : World) → tid ≡ w.tenant → IsKnown w (user_now oid upn tid w)
unfolding is_active_steward query_row
user_now-IsKnown oid upn tid w same = elim (Bool-cases (w.session.driver.fails w.session.tick)) [
  | inl failed ↦ rw failed (
    (refl, refl),
    λ u e.
        let role : u.is_steward ≡ false = ground (arith, e) in
        let tenant : tid ≡ u.tid = ground (arith, e) in
        (rw (← tenant) same, λ k. absurd (let e' = (rw role at k) in cc)),
  )
  | inr works ↦ rw works (
    (refl, refl),
    λ u e.
        let tenant : tid ≡ u.tid = ground (arith, e) in
        let name : oid ≡ u.oid = ground (arith, e) in
        let role : ltb 0 (count_where (holds_oid oid) w.session.committed.stewards.rows)
            ≡ u.is_steward =
          ground (arith, e) in
        (rw (← tenant) same, λ k. rw (← name) (role ∙ k)),
  )
]

nobody-IsKnown : (w : World) → IsKnown w (none, w)
nobody-IsKnown w = ((refl, refl), λ u e. absurd (let e' = e in cc))

from_claims-IsKnown : (o : Option Claims) (w : World) → IsKnown w (from_claims o w)
from_claims-IsKnown none w = nobody-IsKnown w
from_claims-IsKnown (some c) w = elim (Bool-cases (text_eq c.tid w.tenant)) [
  | inl same ↦ rw same (user_now-IsKnown c.oid c.upn c.tid w (text_eq_sound c.tid w.tenant same))
  | inr other ↦ rw other (nobody-IsKnown w)
]

from_session-IsKnown : (o : Option SessionData) (w : World) → IsKnown w (from_session o w)
from_session-IsKnown none w = nobody-IsKnown w
from_session-IsKnown (some d) w = elim (Bool-cases (text_eq d.tid w.tenant)) [
  | inl same ↦ rw same (user_now-IsKnown d.oid d.upn d.tid w (text_eq_sound d.tid w.tenant same))
  | inr other ↦ rw other (nobody-IsKnown w)
]

pub try_authenticate-IsKnown :
    (a : Authenticator) (visit : Visit) (w : World) → IsKnown w (try_authenticate a visit w)
unfolding try_authenticate
try_authenticate-IsKnown a visit w = elim (Bool-cases (is_empty w.tenant)) [
  | inl unbound ↦ rw unbound (nobody-IsKnown w)
  | inr bound ↦ elim (Bool-cases (is_empty (extract_bearer visit.authorization))) [
    | inl cookie ↦ rw (bound, cookie) (from_session-IsKnown (read_session a.sessions visit) w)
    | inr bearer ↦
        rw (bound, bearer)
          (from_claims-IsKnown (verify a.inner (extract_bearer visit.authorization)) w)
  ]
]
