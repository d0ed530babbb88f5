-- ===== src/Core/Tenancy.antt =====
-- core/bootstrap.go: the binding of the tenant over requests.
use xensus.Base.{◌≡◌, refl, ◌∙◌, false, is_empty, List, none}
use xensus.Store.Session.{Session}
use xensus.Store.Systems.{null_string}
use xensus.Registry.Requests.{Request}
use xensus.Registry.Binding.{apply-tenant_id}
use xensus.Core.Serve.{serve_all, serve_all-keeps}

-- Once a tenant is bound, the row of the table config stays as it is, whatever is requested: no
-- later bootstrap rebinds the tenant.
pub serve_all-tenant_id :
    (rs : List Request) (s : Session)
    → s.working ≡ none
    → is_empty (null_string s.committed.config.tenant_id) ≡ false
    → (serve_all rs s).committed.config ≡ s.committed.config
serve_all-tenant_id rs s idle bound =
    serve_all-keeps (λ d. d.config ≡ s.committed.config)
      (λ t r d same. apply-tenant_id t r d (rw same bound) ∙ same) rs s idle refl
