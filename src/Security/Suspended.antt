-- ===== src/Security/Suspended.antt =====
-- The middleware over the identity store: what becomes of a suspended user.
use repo_karta.Accounts.Refused.{resolve_identity-delete_user}
use repo_karta.Accounts.Resolve.{identity_by_claims, trimmed_claims}
use repo_karta.Accounts.Tables.{Tables, delete_user}
use repo_karta.Common.Equal.{is_blank}
use repo_karta.Common.Text.{Text, text_eq, trim_space}
use repo_karta.Common.{◌⊎◌, inl, inr, ℕ, ◌≡◌, refl, true, false, ◌||◌, Option, some}
use repo_karta.Identity.Users.{User}
use repo_karta.Security.Gate.{
  Gate, Principal, Request, is_empty, is_public_security_path, is_resolved, let_through, middleware,
  mode_cloudflare_access, mode_saml, on_cloudflare, on_mode, on_resolution, on_saml, refused,
  serve_principal,
}
use repo_karta.Security.Resolver.{answer_of, claims_of, resolver}

-- A provider names a principal: SAML lets it through, or Cloudflare's validator knows the token.
abbrev pub IsNamed : Gate → Text → Principal → Type 0
IsNamed g token p =
    ((g.mode ≡ mode_saml) × (g.saml ≡ some (let_through (some p))))
    ⊎ ((validate : Text → Option Principal) × (g.mode ≡ mode_cloudflare_access)
        × (g.cloudflare ≡ some validate)
        × (is_empty (trim_space token) ≡ false)
        × (validate (trim_space token) ≡ some p))

on_mode_served :
    (g : Gate) (token : Text) (p : Principal)
    → IsNamed g token p
    → on_mode g token g.mode ≡ serve_principal g.identities p
unfolding on_mode on_saml on_cloudflare
on_mode_served g token p (inl h) = rw (h.0, h.1) refl
on_mode_served g token p (inr (validate, m, c, e, v)) = rw (m, c, e, v) refl

module _ (wide : ℕ → ℕ) (sql_lower : Text → Text) where
  -- If a provider names a principal of another mode than the local and the open one, and the store
  -- finds a user by it, then after DeleteUser has suspended that user, the middleware answers every
  -- request of the principal within the bounds, but for the public paths, with the status 403.
  pub middleware-delete_user :
      (now later : ℕ) (id fresh second : Text) (t after : Tables) (u : User) (p : Principal)
      (g : Gate) (r : Request)
      → (is_blank (trim_space p.provider) || is_blank (trim_space p.id)) ≡ false
      → identity_by_claims wide sql_lower (trimmed_claims (claims_of p)) t.users ≡ some u
      → text_eq u.id (trim_space id) ≡ true
      → delete_user now id t ≡ some after
      → is_resolved p ≡ true
      → IsNamed g r.assertion p
      → g.identities ≡ some (resolver wide sql_lower later fresh second after)
      → r.in_bounds ≡ true
      → is_public_security_path r.path ≡ false
      → middleware g r ≡ refused 403
  unfolding middleware serve_principal resolver claims_of answer_of
  middleware-delete_user now later id fresh second t after u p g r filled found same gone foreign
        named store inside closed =
      let gone_403 =
        resolve_identity-delete_user wide sql_lower now later id fresh second (claims_of p) t after
          u filled found same gone in
      rw (inside, closed, on_mode_served g r.assertion p named, store, foreign, gone_403)
        (unfold on_resolution in refl)
