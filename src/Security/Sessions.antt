-- ===== src/Security/Sessions.antt =====
-- The administrator's sessions in internal/security/security.go. `digest` stands for SHA-256, and
-- the random tokens are arguments.
use repo_karta.Common.Text.{Text, text_eq}
use repo_karta.Common.{ℕ, ◌+◌, ◌*◌, Bool, false, not, Option, none, some, ltb, ◌==◌, if◌then◌else◌}
use repo_karta.Security.Attempts.{hour}

-- `adminSessionLifetime`
abbrev pub admin_session_lifetime : ℕ
admin_session_lifetime = 12 * hour

-- `adminSession`
pub record Session : Type 0 where
  pub expires_at : ℕ
  pub csrf_token : Text

-- `adminSessions`, by digest
abbrev pub Sessions : Type 0
Sessions = ℕ → Option Session

-- A session that has not expired.
unfoldable pub live : ℕ → Option Session → Option Session
live now none = none
live now (some s) = if not (ltb now s.expires_at) then none else some s

-- `pruneAdminSessions`
unfoldable pub prune_admin_sessions : ℕ → Sessions → Sessions
prune_admin_sessions now m key = live now (m key)

unfoldable pub set_session : ℕ → Option Session → Sessions → Sessions
set_session key s m k = if k == key then s else m k

abbrev pub csrf_of : Option Session → Option Text
csrf_of none = none
csrf_of (some s) = some s.csrf_token

abbrev pub is_csrf : Text → Option Text → Bool
is_csrf value none = false
is_csrf value (some expected) = text_eq expected value

module _ (digest : Text → ℕ) where
  -- `CreateAdminSession`
  unfoldable pub create_admin_session : ℕ → Text → Text → Sessions → Sessions
  create_admin_session now token csrf m =
      set_session (digest token)
        (some (record { expires_at = now + admin_session_lifetime; csrf_token = csrf }))
        (prune_admin_sessions now m)

  -- `AdminSession`, on the cookie's value: the map that it leaves, and its result.
  unfoldable pub admin_session : ℕ → Text → Sessions → Sessions × Option Text
  admin_session now token m =
      let pruned = prune_admin_sessions now m in
      (pruned, csrf_of (live now (pruned (digest token))))

  -- `ValidAdminCSRF`
  unfoldable pub valid_admin_csrf : ℕ → Text → Text → Sessions → Bool
  valid_admin_csrf now token value m = is_csrf value (admin_session now token m).1

  -- `DeleteAdminSession`
  unfoldable pub delete_admin_session : Text → Sessions → Sessions
  delete_admin_session token m = set_session (digest token) none m
