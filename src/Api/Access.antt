-- ===== src/Api/Access.antt =====
-- router.go and auth/middleware.go: who reads what.
use xensus.Base.{
  ◌≡◌, ◌<◌, ◌≤◌, refl, ◌∙◌, ◌⊎◌, Bool, true, false, Option, none, some, Bool-cases, inl, inr, Text,
  ltb, arith,
}
use xensus.Store.Schema.{Details}
use xensus.Store.Session.{Session}
use xensus.Config.{Access}
use xensus.Auth.{User}
use xensus.Auth.Cookies.{Visit}
use xensus.Auth.World.{Authenticator, World, try_authenticate}
use xensus.Api.Reads.{Reader}
use xensus.Api.Gates.{
  Read, get_me, get_systems_disabled, get_export, get_stewards, get_persons, get_persons_csv,
  get_person_associations, get_systems, get_systems_csv, get_audit, get_audit_csv, get_person,
  get_system, Gate, open_gate, steward_gate, surface_gate, gate_of, reader_of, user_gated,
  steward_gated, gated, read_route, serve_read,
}
use xensus.Auth.Known.{Same, HasRole, try_authenticate-IsKnown}
use xensus.Api.Reading.{Keeps, reader_of-Keeps}

-- Whether a gate lets in stewards alone.
abbrev pub needs_steward : Access → Gate → Bool
needs_steward access open_gate = false
needs_steward access steward_gate = true
needs_steward access (surface_gate name) = access.steward_only name

-- A user whom a gate lets in.
abbrev Passes : Access → Gate → Option User → Type 0
Passes access gate user =
    (u : User) × (user ≡ some u) × (needs_steward access gate ≡ true → u.is_steward ≡ true)

user_gated-Keeps : (user : Option User) (next : Reader) → Keeps next → Keeps (user_gated user next)
user_gated-Keeps none next k s = (refl, refl)
user_gated-Keeps (some u) next k s = k s

steward_gated-Keeps :
    (user : Option User) (next : Reader) → Keeps next → Keeps (steward_gated user next)
steward_gated-Keeps none next k s = (refl, refl)
steward_gated-Keeps (some u) next k s = elim (Bool-cases u.is_steward) [
  | inl role ↦ rw role (k s)
  | inr plain ↦ rw plain (refl, refl)
]

gated-Keeps :
    (access : Access) (gate : Gate) (user : Option User) (next : Reader)
    → Keeps next
    → Keeps (gated access gate user next)
gated-Keeps access open_gate user next k s = k s
gated-Keeps access steward_gate user next k s = steward_gated-Keeps user next k s
gated-Keeps access (surface_gate name) user next k s =
    elim (Bool-cases (access.steward_only name)) [
      | inl locked ↦ rw locked (steward_gated-Keeps user next k s)
      | inr unlocked ↦ rw unlocked (user_gated-Keeps user next k s)
    ]

user_gated-some :
    (user : Option User) (next : Reader) (s : Session)
    → (user_gated user next s).0.status < 400
    → (u : User) × (user ≡ some u)
user_gated-some none next s h = absurd (omega (arith, h))
user_gated-some (some u) next s h = (u, refl)

steward_gated-some :
    (user : Option User) (next : Reader) (s : Session)
    → (steward_gated user next s).0.status < 400
    → (u : User) × (user ≡ some u) × (u.is_steward ≡ true)
steward_gated-some none next s h = absurd (omega (arith, h))
steward_gated-some (some u) next s h = elim (Bool-cases u.is_steward) [
  | inl role ↦ (u, refl, role)
  | inr plain ↦ absurd (let h' = (rw plain at h) in omega (arith, h'))
]

gated-Passes :
    (access : Access) (gate : Gate) (user : Option User) (next : Reader) (s : Session)
    → (gate ≡ open_gate → user ≡ none → 400 ≤ (next s).0.status)
    → (gated access gate user next s).0.status < 400
    → Passes access gate user
gated-Passes access steward_gate user next s refuses h =
    let (u, found, role) = steward_gated-some user next s h in (u, found, λ _. role)
gated-Passes access (surface_gate name) user next s refuses h =
    elim (Bool-cases (access.steward_only name)) [
      | inl locked ↦
          let h' = (rw locked at h) in
          let (u, found, role) = steward_gated-some user next s h' in (u, found, λ _. role)
      | inr unlocked ↦
          let h' = (rw unlocked at h) in
          let (u, found) = user_gated-some user next s h' in
          (u, found, λ locked. absurd (let k = locked in cc))
    ]
gated-Passes access open_gate none next s refuses h =
    absurd (let few = refuses refl refl in omega (arith, few, h))
gated-Passes access open_gate (some u) next s refuses h = (u, refl, λ e. absurd (let k = e in cc))

me-refuses :
    (marshal : Details → Text) (r : Read) (user : Option User) (s : Session)
    → gate_of r ≡ open_gate
    → user ≡ none
    → 400 ≤ (reader_of marshal r user s).0.status
me-refuses marshal get_me user s e h = rw h (omega arith)
me-refuses marshal get_systems_disabled user s e h = absurd (let k = e in cc)
me-refuses marshal get_export user s e h = absurd (let k = e in cc)
me-refuses marshal get_stewards user s e h = absurd (let k = e in cc)
me-refuses marshal (get_persons q) user s e h = absurd (let k = e in cc)
me-refuses marshal (get_persons_csv q) user s e h = absurd (let k = e in cc)
me-refuses marshal (get_person q) user s e h = absurd (let k = e in cc)
me-refuses marshal (get_person_associations q) user s e h = absurd (let k = e in cc)
me-refuses marshal (get_systems q) user s e h = absurd (let k = e in cc)
me-refuses marshal (get_systems_csv q) user s e h = absurd (let k = e in cc)
me-refuses marshal (get_system q) user s e h = absurd (let k = e in cc)
me-refuses marshal (get_audit q) user s e h = absurd (let k = e in cc)
me-refuses marshal (get_audit_csv q) user s e h = absurd (let k = e in cc)

-- The user whom a request stands for, of the tenant that the process remembers, and with the role in the
-- database where the gate asks for it.
abbrev pub IsLetIn : Authenticator → Access → Read → Visit → World → Type 0
IsLetIn a access r visit w =
    (u : User) × ((try_authenticate a visit w).0 ≡ some u)
    × (u.tid ≡ w.tenant)
    × ((needs_steward access (gate_of r) ≡ false) ⊎ HasRole w u)

Passes-IsLetIn :
    (a : Authenticator) (access : Access) (r : Read) (visit : Visit) (w : World)
    (user : Option User)
    → (try_authenticate a visit w).0 ≡ user
    → ((u : User) → user ≡ some u → (u.tid ≡ w.tenant) × (u.is_steward ≡ true → HasRole w u))
    → Passes access (gate_of r) user
    → IsLetIn a access r visit w
Passes-IsLetIn a access r visit w user found known passes = (
  passes.0,
  found ∙ passes.1,
  (known passes.0 passes.1).0,
  elim (Bool-cases (needs_steward access (gate_of r))) [
    | inl needs ↦ inr ((known passes.0 passes.1).1 (passes.2 needs))
    | inr free ↦ inl free
  ],
)

gated-IsLetIn :
    (a : Authenticator) (access : Access) (r : Read) (visit : Visit) (w : World)
    (user : Option User) (next : Reader) (s : Session)
    → (try_authenticate a visit w).0 ≡ user
    → ((u : User) → user ≡ some u → (u.tid ≡ w.tenant) × (u.is_steward ≡ true → HasRole w u))
    → (gate_of r ≡ open_gate → user ≡ none → 400 ≤ (next s).0.status)
    → (400 ≤ (gated access (gate_of r) user next s).0.status) ⊎ IsLetIn a access r visit w
gated-IsLetIn a access r visit w user next s found known refuses =
    elim (Bool-cases (ltb (gated access (gate_of r) user next s).0.status 400)) [
      | inr refused ↦ inl (ground (arith, refused))
      | inl fine ↦ inr (
          Passes-IsLetIn a access r visit w user found known
            (gated-Passes access (gate_of r) user next s refuses (ground (arith, fine))))
    ]

pub serve_read-IsGated :
    (a : Authenticator) (access : Access) (marshal : Details → Text) (r : Read) (visit : Visit)
    (w : World)
    → Same w.session (serve_read a access marshal r visit w).1.session
      × ((400 ≤ (serve_read a access marshal r visit w).0.status) ⊎ IsLetIn a access r visit w)
unfolding serve_read read_route
serve_read-IsGated a access marshal r visit w =
    let known = try_authenticate-IsKnown a visit w in
    let user = (try_authenticate a visit w).0 in
    let s = (try_authenticate a visit w).1.session in
    let kept =
      gated-Keeps access (gate_of r) user (reader_of marshal r user)
        (reader_of-Keeps marshal r user) s in
    (
      (kept.0 ∙ known.0.0, kept.1 ∙ known.0.1),
      gated-IsLetIn a access r visit w user (reader_of marshal r user) s refl known.1
          (me-refuses marshal r user s),
    )
