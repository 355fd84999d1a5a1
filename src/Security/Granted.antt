-- ===== src/Security/Granted.antt =====
-- Whom the middleware lets through, and as what.
use repo_karta.Common.Text.{Text, text_eq, trim_space}
use repo_karta.Common.{◌≡◌, refl, true, false, not, Option, none, some, arith, if_rule}
use repo_karta.Identity.Roles.{admin, role_name}
use repo_karta.Security.Gate.{
  Account, Answer, Gate, Mode, Principal, Request, Resolution, Resolved, anonymous, deprovisioned,
  is_empty, is_public_security_path, is_resolved, let_through, local_administrator, middleware,
  mode_cloudflare_access, mode_local, mode_open, mode_saml, on_cloudflare, on_mode, on_resolution,
  on_saml, other_mode, passed, redirected, refused, resolution, sent_away, serve_found,
  serve_principal, served, unavailable,
}

-- The store says that an identity is an administrator.
abbrev pub IsElevated : (Principal → Resolved) → Principal → Type 0
IsElevated resolve p =
    (r : Resolution) × (resolve p ≡ resolution r)
    × (text_eq r.resolved_role (role_name admin) ≡ true)

-- A principal that a provider has named, with the store's word on it.
abbrev pub IsKnown : (Principal → Resolved) → Principal → Type 0
IsKnown resolve p =
    (q : Principal) × (r : Resolution) × (resolve q ≡ resolution r)
    × (p.id ≡ q.id)
    × (p.provider ≡ q.provider)
    × (p.is_admin ≡ text_eq r.resolved_role (role_name admin))

-- What may be served in a mode, where an identity store is set.
abbrev pub IsGranted : (Principal → Resolved) → Mode → Principal → Type 0
IsGranted resolve mode_local p = p ≡ local_administrator
IsGranted resolve mode_open p = p ≡ anonymous
IsGranted resolve mode_cloudflare_access p = IsKnown resolve p
IsGranted resolve mode_saml p = IsKnown resolve p
IsGranted resolve (other_mode m) p = ⊥

-- A request is passed on without a principal only under a condition, and with one only under another.
abbrev pub IsFair : Type 0 → (Principal → Type 0) → Answer → Type 0
IsFair O P (served p) = P p
IsFair O P passed = O
IsFair O P (refused n) = Unit
IsFair O P redirected = Unit

-- What the providers name is not from the modes that need no provider.
abbrev pub IsForeign : Option Principal → Type 0
IsForeign none = Unit
IsForeign (some p) = is_resolved p ≡ true

on_resolution-IsKnown :
    (resolve : Principal → Resolved) (q : Principal) (o : Resolved)
    → resolve q ≡ o
    → IsFair ⊥ (IsKnown resolve) (on_resolution q o)
unfolding on_resolution
on_resolution-IsKnown resolve q (resolution r) e =
    if_rule (λ p. IsFair ⊥ (IsKnown resolve) (served p)) (is_empty r.resolved_role) _ _
      (λ _. (q, r, e, refl, refl, refl)) (λ _. (q, r, e, refl, refl, refl))
on_resolution-IsKnown resolve q deprovisioned e = tt
on_resolution-IsKnown resolve q unavailable e = tt

serve_found-IsKnown :
    (resolve : Principal → Resolved) (o : Option Principal)
    → IsForeign o
    → IsFair ⊥ (IsKnown resolve) (serve_found (some resolve) o)
unfolding serve_principal
serve_found-IsKnown resolve none f = tt
serve_found-IsKnown resolve (some q) f = rw f (on_resolution-IsKnown resolve q (resolve q) refl)

abbrev pub ForeignValidator : Option (Text → Option Principal) → Type 0
ForeignValidator none = Unit
ForeignValidator (some validate) = (token : Text) → IsForeign (validate token)

abbrev pub ForeignAccount : Option Account → Type 0
ForeignAccount (some (let_through o)) = IsForeign o
ForeignAccount _ = Unit

-- Every principal that the two providers can name is foreign.
pub record AreForeign (g : Gate) : Type 0 where
  pub cloudflare_foreign : ForeignValidator g.cloudflare
  pub saml_foreign : ForeignAccount g.saml

on_cloudflare-IsKnown :
    (resolve : Principal → Resolved) (c : Option (Text → Option Principal)) (token : Text)
    → ForeignValidator c
    → IsFair ⊥ (IsKnown resolve) (on_cloudflare (some resolve) c token)
unfolding on_cloudflare
on_cloudflare-IsKnown resolve none token f = tt
on_cloudflare-IsKnown resolve (some validate) token f =
    if_rule (IsFair ⊥ (IsKnown resolve)) (is_empty token) _ _ (λ _. tt)
      (λ _. serve_found-IsKnown resolve (validate token) (f token))

on_saml-IsKnown :
    (resolve : Principal → Resolved) (s : Option Account)
    → ForeignAccount s
    → IsFair ⊥ (IsKnown resolve) (on_saml (some resolve) s)
unfolding on_saml
on_saml-IsKnown resolve none f = tt
on_saml-IsKnown resolve (some sent_away) f = tt
on_saml-IsKnown resolve (some (let_through o)) f = serve_found-IsKnown resolve o f

on_mode-IsGranted :
    (resolve : Principal → Resolved) (g : Gate) (token : Text) (m : Mode)
    → g.identities ≡ some resolve
    → AreForeign g
    → IsFair ⊥ (IsGranted resolve m) (on_mode g token m)
unfolding on_mode
on_mode-IsGranted resolve g token mode_local e f =
    rw e (unfold serve_principal is_resolved text_eq local_administrator role_name in refl)
on_mode-IsGranted resolve g token mode_open e f =
    rw e (unfold serve_principal is_resolved text_eq anonymous role_name in refl)
on_mode-IsGranted resolve g token mode_cloudflare_access e f =
    rw e (on_cloudflare-IsKnown resolve g.cloudflare (trim_space token) f.cloudflare_foreign)
on_mode-IsGranted resolve g token mode_saml e f =
    rw e (on_saml-IsKnown resolve g.saml f.saml_foreign)
on_mode-IsGranted resolve g token (other_mode m) e f = tt

-- Where an identity store is set and the providers name no principal of the local or the open mode:
-- a request out of bounds is refused whatever its path; without a principal only a request in bounds
-- to a public path is passed on, in every mode; and with one the middleware serves only the local
-- administrator in the local mode, the anonymous reader in the open mode, and in the others an
-- identity that the store knows, as an administrator exactly if the store says so.
pub middleware-IsGranted :
    (resolve : Principal → Resolved) (g : Gate) (r : Request)
    → g.identities ≡ some resolve
    → AreForeign g
    → (r.in_bounds ≡ false → middleware g r ≡ refused 403)
      × IsFair
          ((r.in_bounds ≡ true) × (is_public_security_path r.path ≡ true))
          (λ p.
            (r.in_bounds ≡ true)
            × (is_public_security_path r.path ≡ false)
            × IsGranted resolve g.mode p)
          (middleware g r)
unfolding middleware
middleware-IsGranted resolve g r e f =
    let Open = (r.in_bounds ≡ true) × (is_public_security_path r.path ≡ true) in
    let Fair = λ (p : Principal).
      (r.in_bounds ≡ true)
      × (is_public_security_path r.path ≡ false)
      × IsGranted resolve g.mode p in
    (
      λ out. rw out refl,
      if_rule (IsFair Open Fair) (not r.in_bounds) _ _ (λ _. tt)
          (λ inside.
            if_rule (IsFair Open Fair) (is_public_security_path r.path) _ _
              (λ public. (ground arith, public))
              (λ closed.
                fair (ground arith) closed (on_mode g r.assertion g.mode)
                  (on_mode-IsGranted resolve g r.assertion g.mode e f))),
    )
  where
    fair :
        r.in_bounds ≡ true
        → is_public_security_path r.path ≡ false
        → (a : Answer) → IsFair ⊥ (IsGranted resolve g.mode) a
        → IsFair
            ((r.in_bounds ≡ true) × (is_public_security_path r.path ≡ true))
            (λ (p : Principal).
              (r.in_bounds ≡ true)
              × (is_public_security_path r.path ≡ false)
              × IsGranted resolve g.mode p)
            a
    fair i c (served p) h = (i, c, h)
    fair i c (refused n) h = tt
    fair i c redirected h = tt
    fair i c passed h = absurd h
