-- ===== src/Server/Tests.antt =====
-- A process, a request and its ID.
use xensus.Base.{
  arith, ◌≡◌, refl, ◌⊎◌, inl, inr, true, false, none, some, [], ◌∷◌, codes, All, text_eq,
  trim_space, trim_left, is_space, read_digits,
}
use xensus.Store.Session.{
  query_row, ◌>>=◌, begin_tx, or_rollback, exec, commit, rollback, row_or_none, no_rows_as,
}
use xensus.Store.Tenant.{bound_tenant_id, get_tenant_id}
use xensus.Core.TestData.{book, blank, flaky, steady}
use xensus.Sql.{count_where, insert_row, select_first, update_where}
use xensus.Registry.Governance.{is_active}
use xensus.Auth.SignIn.{callback, complete_sign_in}
use xensus.Auth.SignIn
use xensus.Auth.World.{try_authenticate, World}
use xensus.Auth.Cookies.{
  read_login_state, open_sealed, drop, take, decode_login, decode_session, field, read_session,
}
use xensus.Auth.Tokens.{verify, extract_bearer}
use xensus.Core.Bootstrap.{bootstrap}
use xensus.Core.Audit.{write_audit}
use xensus.Core.Stewards.{claim_pending_steward, demote_steward}
use xensus.Store.Tenant
use xensus.Store.Stewards.{insert_steward, is_active_steward, get_steward}
use xensus.Store.PendingStewards.{get_pending_steward_by_upn}
use xensus.System.Requests.{serve_write}
use xensus.Server.Health.{health}
use xensus.Api.Routes.{route}
use xensus.Config.{no_data_dir}
use xensus.Auth.Setup.{new, no_provider}
use xensus.Server.TestData.{
  sample, sample-AreBytes, first_status, answering, fetched, wire, requests, evening,
}
use xensus.System.TestData.{keys, config, provider, blank-Sound}
use xensus.System.Steps.{opened}
use xensus.Server.RequestId.{read_id, new_request_id, hex_digit, new_request_id-IsUuid}
use xensus.Server.Middleware.{
  write_header, write, recorded, request_id, add_attr, completion_record, Carries,
  request_id-Correlates,
}
use xensus.Server.Version.{has_prefix, has_vcs, pick_version, resolve_version}
use xensus.Server.Routes.{dispatch, dispatch_all}
use xensus.Server.Running.{IsHealthy}
use xensus.Server.Run.{RunError, signalled, fails, listen_failed, run, command_of, main}
use xensus.Server.Lifetime.{run-IsHealthy, run-Degrades}

sample_id : new_request_id (some sample) 0 ≡ codes "00ff1001-aabb-4cdd-ae0f-020304050607"
unfolding new_request_id hex_digit
sample_id = refl

new_request_id-IsUuid_example :
    read_id (new_request_id (some sample) 0) ≡ some (record sample { b6 = 76; b8 = 174 })
new_request_id-IsUuid_example = new_request_id-IsUuid sample 0 sample-AreBytes

request_id-Correlates_example :
    let e = request_id (codes "ts-1") (codes "GET") (codes "/nowhere") 3 answering in
    (e.x_request_id ≡ codes "ts-1")
    × All (Carries (codes "ts-1")) e.logs
    × (e.completion
        ≡ add_attr
            (codes "request_id")
            (codes "ts-1")
            (completion_record (codes "GET") (codes "/nowhere") (first_status e.calls) 3))
request_id-Correlates_example =
    request_id-Correlates first_status (codes "ts-1") (codes "GET") (codes "/nowhere") 3 answering
      (record { nothing = refl; explicit = λ _ _ _. refl; implicit = λ _ _. refl })
      (omega arith, tt)

-- A status that is set after the body has begun is logged, and not sent.
late_status : recorded 200 (write (codes "ok") ∷ write_header 500 ∷ []) ≡ 500
unfolding recorded
late_status = refl

installed : resolve_version (codes "(devel)") (some fetched) ≡ codes "1.8.0"
unfolding pick_version has_vcs has_prefix text_eq
installed = refl

checked_out :
    resolve_version
      (codes "(devel)")
      (some (record fetched { settings = codes "vcs.modified" ∷ [] }))
    ≡ codes "(devel)"
unfolding pick_version has_vcs has_prefix text_eq
checked_out = refl

run-IsHealthy_example :
    let done =
      run keys 0
        (some provider)
        config
        wire
        true
        (inr (opened steady blank))
        requests
        (signalled true) in
    ((e : RunError) × (done ≡ (some e, none)))
    ⊎ ((w : World) × (done ≡ (none, some w)) × IsHealthy w)
run-IsHealthy_example =
    run-IsHealthy keys 0 (some provider) config wire true steady blank requests (signalled true)
      blank-Sound

evening_state :
    (evening.tenant ≡ codes "contoso")
    × (count_where is_active evening.session.committed.stewards.rows ≡ 1)
unfolding dispatch_all dispatch callback serve_write try_authenticate read_login_state open_sealed
    drop decode_login field text_eq verify complete_sign_in SignIn.bind_tenant bootstrap ◌>>=◌
    begin_tx health or_rollback get_tenant_id Tenant.bind_tenant insert_steward write_audit exec
    query_row commit rollback insert_row count_where claim_pending_steward
    get_pending_steward_by_upn row_or_none no_rows_as route extract_bearer read_session
    decode_session demote_steward trim_space trim_left is_space select_first update_where
    is_active_steward take get_steward read_digits
evening_state = (refl, refl)

unreachable_provider : (new keys 0 none config (opened flaky book)).0 ≡ inl no_provider
unfolding new bound_tenant_id query_row
unreachable_provider = refl

run-Degrades_example :
    (w : World) × (run keys 0 none config wire false (inr (opened flaky book)) requests fails
      ≡ (some listen_failed, some w))
    × (w.session.committed ≡ book)
run-Degrades_example =
    run-Degrades keys 0 none config wire false (opened flaky book) requests fails no_provider
      unreachable_provider

no_configuration : main (codes "xensus" ∷ []) (inl no_data_dir) (λ cfg. none) ≡ 2
unfolding main command_of
no_configuration = refl
