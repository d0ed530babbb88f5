-- ===== src/System/Steps.antt =====
-- What may happen to the process and its database, from outside and by a restart.
use xensus.Base.{
  ℕ, ◌≡◌, Bool-cases, inl, inr, Option, none, some, Option-cases, Text, text_eq, is_empty,
}
use xensus.Store.Schema.{Details, Database}
use xensus.Store.Session.{Session, Driver}
use xensus.Config.{Access, Config}
use xensus.Auth.Cookies.{LoginData, Visit, read_login_state}
use xensus.Auth.Tokens.{Claims, verify}
use xensus.Auth.World.{Authenticator, World}
use xensus.Auth.SignIn.{Query, Exchange, callback, callback_with, exchanged, complete_sign_in}
use xensus.Auth.Startup.{Keys}
use xensus.Auth.Setup.{Provider, Started, new}
use xensus.Server.Health.{health}
use xensus.Api.Routes.{Write}
use xensus.Api.Gates.{Read, serve_read}
use xensus.Web.Routes.{Post}
use xensus.Web.Rows.{Display}
use xensus.Web.Visits.{PageRead, serve_page}
use xensus.System.Requests.{serve_write, serve_post}

-- The database as a process finds it when it opens it.
abbrev pub opened : Driver → Database → Session
opened driver d = record { driver = driver; tick = 0; committed = d; working = none }

-- One thing that happens. What the request brings is arbitrary, and so are the keys of the process and
-- what the identity provider answers. After a restart the driver may be another one, and what was not
-- committed is gone.
pub data Step : World → World → Type 0 where
  signs_in :
      (a : Authenticator) (exchange : Exchange) (n : ℕ) (q : Query) (r : Visit)
      → {w w' : World} → w' ≡ (callback a exchange n q r w).1
      → Step w w'
  writes :
      (a : Authenticator) (r : Write) (visit : Visit)
      → {w w' : World} → w' ≡ (serve_write a r visit w).1
      → Step w w'
  posts :
      (a : Authenticator) (escape : Text → Text) (uri : Text) (p : Post) (visit : Visit)
      → {w w' : World} → w' ≡ (serve_post a escape uri p visit w).1
      → Step w w'
  reads :
      (a : Authenticator) (access : Access) (marshal : Details → Text) (r : Read) (visit : Visit)
      → {w w' : World} → w' ≡ (serve_read a access marshal r visit w).1
      → Step w w'
  views :
      (a : Authenticator) (d : Display) (escape : Text → Text) (uri : Text) (access : Access)
      (p : PageRead) (visit : Visit)
      → {w w' : World} → w' ≡ (serve_page a d escape uri access p visit w).1
      → Step w w'
  checks : {w w' : World} → w' ≡ record w { session = (health w.session).1 } → Step w w'
  restarts :
      (keys : Keys) (n : ℕ) (discovered : Option Provider) (cfg : Config) (driver : Driver)
      (started : Started)
      → {w w' : World}
      → (new keys n discovered cfg (opened driver w.session.committed)).0 ≡ inr started
      → w' ≡ started.world
      → Step w w'

-- What can happen, one thing after the other.
pub data Reaches : World → World → Type 0 where
  here : {w : World} → Reaches w w
  next : {w v u : World} → Step w v → Reaches v u → Reaches w u

module _ (P : World → Type 0) (a : Authenticator) (n : ℕ) (r : Visit) (w : World) where
  exchanged-keeps :
      (ls : LoginData) (o : Option (Option Text))
      → P w
      → ((c : Claims) → P (complete_sign_in a n r c ls w).1)
      → P (exchanged a n r ls o w).1
  exchanged-keeps ls none p h = p
  exchanged-keeps ls (some none) p h = p
  exchanged-keeps ls (some (some raw)) p h = elim (Bool-cases (is_empty raw)) [
    | inl blank ↦ simp blank p
    | inr token ↦ elim (Option-cases (verify a.inner raw)) [
      | inl bad ↦ simp (token, bad) p
      | inr (c, good) ↦ simp (token, good) (h c)
    ]
  ]

  callback_with-keeps :
      (exchange : Exchange) (q : Query) (o : Option LoginData)
      → P w
      → ((c : Claims) (ls : LoginData) → P (complete_sign_in a n r c ls w).1)
      → P (callback_with a exchange n q r o w).1
  callback_with-keeps exchange q none p h = p
  callback_with-keeps exchange q (some ls) p h = elim (Bool-cases (text_eq q.state ls.state)) [
    | inr other ↦ simp other p
    | inl same ↦ elim (Bool-cases (is_empty q.error)) [
      | inr wrong ↦ simp (same, wrong) p
      | inl fine ↦ elim (Bool-cases (is_empty q.code)) [
        | inl blank ↦ simp (same, fine, blank) p
        | inr code ↦ simp (same, fine, code) (exchanged-keeps ls (exchange q.code) p (λ c. h c ls))
      ]
    ]
  ]

  -- A callback leaves the world as it is, or completes a sign-in.
  pub callback-keeps :
      (exchange : Exchange) (q : Query)
      → P w
      → ((c : Claims) (ls : LoginData) → P (complete_sign_in a n r c ls w).1)
      → P (callback a exchange n q r w).1
  unfolding callback
  callback-keeps exchange q p h = callback_with-keeps exchange q (read_login_state a.sessions r) p h
