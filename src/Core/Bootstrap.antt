-- ===== src/Core/Bootstrap.antt =====
-- core/bootstrap.go.
use xensus.Base.{ℕ, not, ◌||◌, some, [], ◌∷◌, Text, codes, is_empty, if◌then◌else◌}
use xensus.Store.Schema.{text, number}
use xensus.Store.Session.{
  Action, tx, missing_argument, already_bound, ◌>>=◌, ◌>>◌, raise, pure, begin_tx, commit,
  or_rollback, time_now,
}
use xensus.Store.Systems.{null_string}
use xensus.Store.Stewards.{insert_steward}
use xensus.Store.Tenant.{get_tenant_id, bind_tenant}
use xensus.Core.Audit.{AuditEntry, write_audit}

pub record BootstrapClaim : Type 0 where
  pub oid : Text
  pub upn : Text
  pub tid : Text

abbrev pub bootstrap_entry : BootstrapClaim → ℕ → AuditEntry
bootstrap_entry c steward_id = record {
  actor = record { oid = c.oid; upn = c.upn };
  action = codes "tenant.bootstrap";
  entity_type = codes "tenant";
  entity_id = 0;
  details = some (
      (codes "tenant_id", text c.tid)
      ∷ (codes "first_steward_id", number steward_id)
      ∷ (codes "first_steward_oid", text c.oid)
      ∷ (codes "first_steward_upn", text c.upn)
      ∷ []);
}

-- `Bootstrap` for a tenant that is not bound
abbrev bind_first : BootstrapClaim → Action ℕ
bind_first c = do
  bootstrapped_at ← time_now
  bind_tenant c.tid bootstrapped_at
  steward_id ← insert_steward c.oid c.upn (codes "bootstrap")
  write_audit (bootstrap_entry c steward_id)
  commit
  pure steward_id

-- `Bootstrap`
unfoldable pub bootstrap : BootstrapClaim → Action ℕ
bootstrap c =
    if is_empty c.oid || is_empty c.upn || is_empty c.tid then raise missing_argument else do
      begin_tx
      or_rollback do
        existing ← get_tenant_id tx
        if not (is_empty (null_string existing)) then raise already_bound else bind_first c
