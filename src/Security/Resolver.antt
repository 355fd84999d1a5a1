-- ===== src/Security/Resolver.antt =====
-- The identity store as `servePrincipal` of internal/security/http.go asks it.
use repo_karta.Accounts.Resolve
use repo_karta.Accounts.Resolve.{identity_by_claims, resolve_identity, trimmed_claims}
use repo_karta.Accounts.Tables
use repo_karta.Accounts.Tables.{Failure, Result, Tables, delete_user, done, error}
use repo_karta.Common.Text.{Text}
use repo_karta.Common.{ℕ}
use repo_karta.Identity.Users.{Claims}
use repo_karta.Security.Gate.{Principal, Resolved, deprovisioned, resolution, unavailable}

-- The claims that `servePrincipal` makes of a principal.
unfoldable pub claims_of : Principal → Claims
claims_of p = record {
  provider = p.provider;
  subject = p.id;
  email = p.email;
  name = p.name;
  groups = p.groups;
}

-- What `servePrincipal` makes of the store's result.
unfoldable pub answer_of : Result Resolve.Resolution → Resolved
answer_of (done r) = resolution (record {
  resolved_role = r.role;
  display_name = r.user.display_name;
  resolved_email = r.user.email;
})
answer_of (error Tables.deprovisioned) = deprovisioned
answer_of (error e) = unavailable

module _ (wide : ℕ → ℕ) (sql_lower : Text → Text) where
  -- The store as the middleware asks it.
  unfoldable pub resolver : ℕ → Text → Text → Tables → Principal → Resolved
  resolver now fresh second t p =
      answer_of (resolve_identity wide sql_lower now fresh second (claims_of p) t).1
