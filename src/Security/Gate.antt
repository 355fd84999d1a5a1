-- ===== src/Security/Gate.antt =====
-- `Middleware` and `servePrincipal` of internal/security/http.go. What the request boundary check
-- says, the two providers and the identity store are arguments; the audit record is left out.
use repo_karta.Common.Text.{Text, codes, has_prefix, text_eq, trim_space}
use repo_karta.Common.{
  Bool, true, false, ◌&&◌, ◌||◌, not, Option, none, some, List, [], ◌∷◌, ℕ, if◌then◌else◌,
}
use repo_karta.Access.Viewer.{Viewer, identity_id, with_viewer}
use repo_karta.Identity.Roles.{admin, reader, role_name}

-- `Mode`, one of the constants or another string
pub data Mode : Type 0 where
  mode_local mode_open mode_cloudflare_access mode_saml : Mode
  other_mode : Text → Mode

-- `Principal`
pub record Principal : Type 0 where
  pub id : Text
  pub email : Text
  pub name : Text
  pub provider : Text
  pub groups : List Text
  pub role : Text
  pub is_admin : Bool

-- `identity.Resolution`, as far as it is read
pub record Resolution : Type 0 where
  pub resolved_role : Text
  pub display_name : Text
  pub resolved_email : Text

-- What `ResolveIdentity` returns.
pub data Resolved : Type 0 where
  resolution : Resolution → Resolved
  deprovisioned unavailable : Resolved

-- What the SAML library's `RequireAccount` does: it sends the browser away, or lets the request
-- through with what `principalFromSAML` finds.
pub data Account : Type 0 where
  sent_away : Account
  let_through : Option Principal → Account

-- The answer to a request: refused with a status, sent away, or passed on, with a principal or
-- without.
pub data Answer : Type 0 where
  refused : ℕ → Answer
  redirected : Answer
  passed : Answer
  served : Principal → Answer

pub record Request : Type 0 where
  pub path : Text
  pub assertion : Text
  pub in_bounds : Bool

-- What the manager holds: the identity store, the validator and the middleware, where they are set.
pub record Gate : Type 0 where
  pub mode : Mode
  pub identities : Option (Principal → Resolved)
  pub cloudflare : Option (Text → Option Principal)
  pub saml : Option Account

-- `isPublicSecurityPath`
unfoldable pub is_public_security_path : Text → Bool
is_public_security_path path =
    text_eq path (codes "/healthz")
    || text_eq path (codes "/admin")
    || text_eq path (codes "/admin/login")
    || has_prefix path (codes "/admin/")
    || has_prefix path (codes "/assets/")
    || has_prefix path (codes "/saml/")
    || has_prefix path (codes "/scim/")
    || text_eq path (codes "/mcp")

abbrev pub is_empty : Text → Bool
is_empty [] = true
is_empty (_ ∷ _) = false

abbrev pub or_else : Text → Text → Text
or_else [] old = old
or_else (c ∷ s) old = c ∷ s

-- The end of `servePrincipal`.
abbrev pub with_role : Principal → Principal
with_role p = if is_empty p.role then record p { role = role_name reader } else p

unfoldable pub on_resolution : Principal → Resolved → Answer
unfolding role_name text_eq
on_resolution p (resolution r) = served (
    with_role (record p {
      role = r.resolved_role;
      is_admin = text_eq r.resolved_role (role_name admin);
      name = or_else r.display_name p.name;
      email = or_else r.resolved_email p.email;
    }))
on_resolution p deprovisioned = refused 403
on_resolution p unavailable = refused 500

-- Whether `servePrincipal` asks the identity store.
unfoldable pub is_resolved : Principal → Bool
is_resolved p = not (text_eq p.provider (codes "local")) && not (text_eq p.provider (codes "open"))

-- `servePrincipal`
unfoldable pub serve_principal : Option (Principal → Resolved) → Principal → Answer
serve_principal none p = served (with_role p)
serve_principal (some resolve) p =
    if is_resolved p then on_resolution p (resolve p) else served (with_role p)

unfoldable pub local_administrator : Principal
unfolding role_name
local_administrator = record {
  id = codes "admin";
  email = [];
  name = codes "Local administrator";
  provider = codes "local";
  groups = [];
  role = role_name admin;
  is_admin = true;
}

unfoldable pub anonymous : Principal
unfolding role_name
anonymous = record {
  id = codes "anonymous";
  email = [];
  name = codes "Anonymous";
  provider = codes "open";
  groups = [];
  role = role_name reader;
  is_admin = false;
}

abbrev pub serve_found : Option (Principal → Resolved) → Option Principal → Answer
serve_found resolve none = refused 401
serve_found resolve (some p) = serve_principal resolve p

unfoldable pub on_cloudflare :
    Option (Principal → Resolved) → Option (Text → Option Principal) → Text → Answer
on_cloudflare resolve none token = refused 503
on_cloudflare resolve (some validate) token =
    if is_empty token then refused 401 else serve_found resolve (validate token)

unfoldable pub on_saml : Option (Principal → Resolved) → Option Account → Answer
on_saml resolve none = refused 503
on_saml resolve (some sent_away) = redirected
on_saml resolve (some (let_through p)) = serve_found resolve p

-- The switch on the mode.
unfoldable pub on_mode : Gate → Text → Mode → Answer
on_mode g token mode_local = serve_principal g.identities local_administrator
on_mode g token mode_open = serve_principal g.identities anonymous
on_mode g token mode_cloudflare_access = on_cloudflare g.identities g.cloudflare (trim_space token)
on_mode g token mode_saml = on_saml g.identities g.saml
on_mode g token (other_mode m) = refused 503

-- `Middleware`
unfoldable pub middleware : Gate → Request → Answer
middleware g r =
    if not r.in_bounds
    then refused 403
    else if is_public_security_path r.path
    then passed
    else on_mode g r.assertion g.mode

-- The viewer that `servePrincipal` attaches for the principal that it serves.
unfoldable pub viewer_of : (ℕ → ℕ) → Principal → Viewer
viewer_of wide p =
    with_viewer wide
      (record { id = identity_id p.provider p.id; groups = p.groups; admin = p.is_admin })
