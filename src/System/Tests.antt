-- ===== src/System/Tests.antt =====
-- A day of a deployment: a restart, a sign-in with an invitation, and the demotion of another steward.
use xensus.Base.{inr, ◌≡◌, refl, ◌⊎◌, inr, true, some, [], codes, is_empty}
use xensus.Store.Session.{query_row}
use xensus.Store.Tenant.{bound_tenant_id}
use xensus.Store.Systems.{null_string}
use xensus.Core.History.{Extends}
use xensus.Core.TestData.{book, flaky, at_rest}
use xensus.Auth.World.{World}
use xensus.Auth.SignIn.{callback}
use xensus.Auth.Binding.{Agrees}
use xensus.Auth.Startup.{choose_key, new_session_store}
use xensus.Auth.Setup.{Started, client_of, new}
use xensus.Auth.TestData.{
  authenticator, returning, cookie, bound, bound-Agrees, answer, coming_back,
}
use xensus.Api.Routes.{delete_steward}
use xensus.System.TestData.{exchange, keys, config, provider, book-Sound}
use xensus.System.Requests.{serve_write}
use xensus.System.Steps.{opened, signs_in, writes, restarts, Reaches, here, next}
use xensus.System.Soundness.{Sound, Reaches-IsSound, Reaches-IsPermanent}

abbrev restarted : World
restarted = record { tenant = codes "contoso"; session = record (at_rest flaky book) { tick = 1 } }

abbrev visited : World
visited = (callback authenticator exchange 0 answer coming_back restarted).1

abbrev evening : World
evening =
    (serve_write authenticator (delete_steward (codes "1")) (returning cookie.value) visited).1

abbrev restarted_process : Started
restarted_process = record {
  authenticator = authenticator;
  oauth2 = client_of config provider;
  key_generated = true;
  world = restarted;
}

book-restarts : (new keys 0 (some provider) config (opened flaky book)).0 ≡ inr restarted_process
unfolding new bound_tenant_id query_row choose_key new_session_store
book-restarts = refl

a_day : Reaches bound evening
a_day = next (restarts keys 0 (some provider) config flaky restarted_process book-restarts refl) (
    next (signs_in authenticator exchange 0 answer coming_back refl)
      (next (writes authenticator (delete_steward (codes "1")) (returning cookie.value) refl) here))

Reaches-IsSound_example : Agrees evening × Sound evening.session.committed
Reaches-IsSound_example = Reaches-IsSound bound evening bound-Agrees book-Sound a_day

Reaches-IsPermanent_example :
    Extends [] evening.session.committed.audit_log.rows
    × ((is_empty (null_string book.config.tenant_id) ≡ true)
        ⊎ (evening.session.committed.config ≡ book.config))
Reaches-IsPermanent_example = Reaches-IsPermanent bound evening bound-Agrees a_day
