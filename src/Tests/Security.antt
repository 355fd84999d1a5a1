-- ===== src/Tests/Security.antt =====
-- The administrator's login and the request gate of package security at concrete inputs.
use repo_karta.Common.Text.{Text, codes, has_prefix, text_eq, trim_left, trim_right, trim_space}
use repo_karta.Common.{ℕ, ◌*◌, ◌≤◌, ◌≡◌, refl, arith, true, false, none, some, List, [], ◌∷◌}
use repo_karta.Identity.Roles.{role_name}
use repo_karta.Security.Attempts.{
  Call, admin_login_retry_after, call, calls, failed_attempt, keep_attempt, login, no_attempts,
  prune_admin_attempts, record_admin_login, retry_after, second, set_attempt, source_of, wait_of,
}
use repo_karta.Security.Streaks.{calls-retry_after, remembered_at, streak_behind, wait_for}
use repo_karta.Security.Gate.{
  Gate, Principal, Request, Resolved, let_through, middleware, mode_saml, on_mode, on_resolution,
  on_saml, is_public_security_path, is_resolved, refused, resolution, serve_principal, served,
}
use repo_karta.Security.Granted.{IsFair, IsGranted, middleware-IsGranted}
use repo_karta.Security.Lifetime.{
  create, delete, remembered, serve, serve_all, serve_all-valid, valid,
}
use repo_karta.Security.Sessions.{
  admin_session, create_admin_session, delete_admin_session, live, prune_admin_sessions,
  set_session,
}

abbrev host : Text
host = codes "h"

abbrev other : Text
other = codes "o"

-- Four failures, a second apart.
abbrev failures : List Call
failures =
    login second host false
    ∷ login (2 * second) host false
    ∷ login (3 * second) host false
    ∷ retry_after (3 * second) host
    ∷ login (4 * second) host false
    ∷ []

calls-waits :
    (admin_login_retry_after (5 * second) host (calls failures no_attempts)).1 ≡ 1 * second
unfolding admin_login_retry_after calls call no_attempts record_admin_login prune_admin_attempts
    keep_attempt set_attempt failed_attempt wait_of source_of trim_space trim_left trim_right
    text_eq
calls-waits = refl

calls-retry_after_example :
    let (_, wait) = admin_login_retry_after (5 * second) host (calls failures no_attempts) in
    (wait
      ≡ wait_for
          (5 * second)
          (remembered_at (5 * second) (streak_behind (source_of host) failures none)))
    × (wait ≤ 64000000000)
calls-retry_after_example =
    calls-retry_after failures (5 * second) host
      (omega arith, (omega arith, (omega arith, (omega arith, (omega arith, omega arith)))))

abbrev first_code : Text → ℕ
first_code [] = 0
first_code (c ∷ s) = c

serve_all-valid_example :
    (admin_session first_code (5 * second) (codes "b") (
      serve_all first_code
        (create 0 (codes "a") (codes "x")
          ∷ create 1 (codes "b") (codes "y")
          ∷ delete 2 (codes "a")
          ∷ [])
        (λ _. none))).1
    ≡ valid (5 * second) (
        remembered first_code
          (create 0 (codes "a") (codes "x")
            ∷ create 1 (codes "b") (codes "y")
            ∷ delete 2 (codes "a")
            ∷ [])
          (λ _. none)
          (first_code (codes "b")))
serve_all-valid_example =
    serve_all-valid first_code
      (create 0 (codes "a") (codes "x")
        ∷ create 1 (codes "b") (codes "y")
        ∷ delete 2 (codes "a")
        ∷ [])
      (5 * second) (codes "b") (omega arith, (omega arith, (omega arith, omega arith)))

session-deleted :
    (admin_session first_code (13 * second) (codes "a") (
      serve_all first_code
        (create 0 (codes "a") (codes "x") ∷ delete 2 (codes "a") ∷ [])
        (λ _. none))).1
    ≡ none
unfolding admin_session serve_all serve create_admin_session delete_admin_session set_session
    prune_admin_sessions live
session-deleted = refl

-- An administrator by the store, whom SAML names.
abbrev alice : Principal
alice = record {
  id = codes "alice";
  email = [];
  name = codes "A";
  provider = codes "saml";
  groups = [];
  role = [];
  is_admin = false;
}

abbrev by_name : Principal → Resolved
by_name p =
    resolution
      (record { resolved_role = codes "administrator"; display_name = []; resolved_email = [] })

abbrev gate : Gate
gate = record {
  mode = mode_saml;
  identities = some by_name;
  cloudflare = none;
  saml = some (let_through (some alice));
}

abbrev request : Request
request = record { path = codes "/api"; assertion = []; in_bounds = true }

middleware-alice :
    middleware gate request
    ≡ served (record alice { role = codes "administrator"; is_admin = true })
unfolding middleware is_public_security_path text_eq has_prefix on_mode on_saml serve_principal
    is_resolved on_resolution role_name
middleware-alice = refl

middleware-IsGranted_example :
    (request.in_bounds ≡ false → middleware gate request ≡ refused 403)
    × IsFair
        ((request.in_bounds ≡ true) × (is_public_security_path request.path ≡ true))
        (λ p.
          (request.in_bounds ≡ true)
          × (is_public_security_path request.path ≡ false)
          × IsGranted by_name mode_saml p)
        (middleware gate request)
unfolding is_resolved text_eq
middleware-IsGranted_example =
    middleware-IsGranted by_name gate request refl
      (record { cloudflare_foreign = tt; saml_foreign = refl })
