-- ===== src/Registry/Tenant.antt =====
-- The tenant, which the first sign-in binds when it makes the first steward.
use xensus.Base.{ℕ, not, ◌||◌, some, ltb, Text, codes, is_empty, if◌then◌else◌}
use xensus.Sql.{insert_row, count_where}
use xensus.Store.Schema.{Database}
use xensus.Store.Session.{Result, err, missing_argument, already_bound, constraint}
use xensus.Store.Systems.{null_string}
use xensus.Store.Stewards.{holds_oid, new_steward}
use xensus.Core.Bootstrap.{BootstrapClaim, bootstrap_entry}
use xensus.Registry.Change.{◌>>=◌, all_or_nothing, logged}

abbrev pub bound : Text → Text → Database → Database
bound tid at d = record d {
  config = record d.config { tenant_id = some tid; bootstrapped_at = some at };
}

-- The binding, with the first steward and the audit row.
abbrev pub appointed : BootstrapClaim → Text → Text → Text → Database → Result ℕ × Database
appointed c bound_at now at d =
    if ltb 0 (count_where (holds_oid c.oid) d.stewards.rows)
    then (err constraint, d)
    else all_or_nothing d do
      (id, t) ← insert_row (new_steward c.oid c.upn (codes "bootstrap") now) d.stewards
      d' ← logged (bootstrap_entry c id) at (record (bound c.tid bound_at d) { stewards = t })
      some (id, d')

-- `bound_at` is the time of the binding.
unfoldable pub bootstrap : Text → Text → Text → BootstrapClaim → Database → Result ℕ × Database
bootstrap bound_at now at c d =
    if is_empty c.oid || is_empty c.upn || is_empty c.tid
    then (err missing_argument, d)
    else if not (is_empty (null_string d.config.tenant_id))
    then (err already_bound, d)
    else appointed c bound_at now at d
