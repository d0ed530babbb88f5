-- ===== src/Store/Tenant.antt =====
-- store/tenant.go, and the two statements on the config row that core/bootstrap.go sends itself.
use xensus.Base.{some, Option, Text}
use xensus.Store.Session.{Action, ok, exec, RowQueryer, db, query_row}
use xensus.Store.Systems.{null_string}

-- `SELECT tenant_id FROM config WHERE id = 1`, whose row the first migration inserts
unfoldable pub get_tenant_id : RowQueryer → Action (Option Text)
get_tenant_id q = query_row q λ d. ok d.config.tenant_id

-- `BoundTenantID`
unfoldable pub bound_tenant_id : Action Text
bound_tenant_id = query_row db λ d. ok (null_string d.config.tenant_id)

-- `UPDATE config SET tenant_id=?, bootstrapped_at=? WHERE id=1`
unfoldable pub bind_tenant : Text → Text → Action (Unit {0})
bind_tenant tid at = exec λ now d.
    let c = d.config in
    ok (tt, record d { config = record c { tenant_id = some tid; bootstrapped_at = some at } })
