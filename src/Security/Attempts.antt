-- ===== src/Security/Attempts.antt =====
-- The backoff of administrator logins in internal/security/security.go. Times are nanoseconds from
-- the zero time, and a map is the function that looks a key up.
use Prim.Native.Nat.{◌^◌}
use repo_karta.Common.Text.{Text, codes, text_eq, trim_space}
use repo_karta.Common.{
  ℕ, ◌+◌, ◌-◌, ◌*◌, Bool, true, false, not, Option, none, some, List, [], ◌∷◌, ltb, leb,
  if◌then◌else◌,
}

abbrev pub second : ℕ
second = 1000000000

abbrev pub hour : ℕ
hour = 3600 * second

-- `adminLoginAttempt`
pub record Attempt : Type 0 where
  pub failures : ℕ
  pub blocked_until : ℕ
  pub last_attempt : ℕ

-- `adminAttempts`
abbrev pub Attempts : Type 0
Attempts = Text → Option Attempt

-- What reading the map yields: the zero value where there is no entry.
abbrev pub or_zero : Option Attempt → Attempt
or_zero none = record { failures = 0; blocked_until = 0; last_attempt = 0 }
or_zero (some a) = a

-- The source as the two functions trim it.
unfoldable pub source_of : Text → Text
source_of source = non_empty (trim_space source)
  where
    non_empty : Text → Text
    non_empty [] = codes "unknown"
    non_empty (c ∷ s) = c ∷ s

-- `pruneAdminAttempts`
unfoldable pub keep_attempt : ℕ → Option Attempt → Option Attempt
keep_attempt now none = none
keep_attempt now (some a) = if ltb hour (now - a.last_attempt) then none else some a

unfoldable pub prune_admin_attempts : ℕ → Attempts → Attempts
prune_admin_attempts now m source = keep_attempt now (m source)

-- The wait that an attempt leaves.
unfoldable pub wait_of : ℕ → Attempt → ℕ
wait_of now a = if not (ltb now a.blocked_until) then 0 else a.blocked_until - now

-- `AdminLoginRetryAfter`: the map that it leaves, and its result.
unfoldable pub admin_login_retry_after : ℕ → Text → Attempts → Attempts × ℕ
admin_login_retry_after now source m =
    let pruned = prune_admin_attempts now m in
    (pruned, wait_of now (or_zero (pruned (source_of source))))

abbrev pub smaller : ℕ → ℕ → ℕ
smaller a b = if ltb a b then a else b

-- The attempt that a failure leaves.
unfoldable pub failed_attempt : ℕ → Attempt → Attempt
failed_attempt now a =
    if leb 3 (a.failures + 1)
    then record {
      failures = a.failures + 1;
      blocked_until = now + second * 2 ^ smaller (a.failures + 1 - 3) 6;
      last_attempt = now;
    }
    else record a { failures = a.failures + 1; last_attempt = now }

-- A map with one entry changed.
unfoldable pub set_attempt : Text → Option Attempt → Attempts → Attempts
set_attempt source a m s = if text_eq s source then a else m s

-- `RecordAdminLogin`
unfoldable pub record_admin_login : ℕ → Text → Bool → Attempts → Attempts
record_admin_login now source true m = set_attempt (source_of source) none m
record_admin_login now source false m =
    set_attempt (source_of source) (some (failed_attempt now (or_zero (m (source_of source))))) m

-- What a handler does with the limiter, at a time.
pub data Call : Type 0 where
  retry_after : ℕ → Text → Call
  login : ℕ → Text → Bool → Call

abbrev pub time_of : Call → ℕ
time_of (retry_after now source) = now
time_of (login now source success) = now

unfoldable pub call : Call → Attempts → Attempts
call (retry_after now source) m = (admin_login_retry_after now source m).0
call (login now source success) m = record_admin_login now source success m

unfoldable pub calls : List Call → Attempts → Attempts
calls [] m = m
calls (c ∷ cs) m = calls cs (call c m)

unfoldable pub no_attempts : Attempts
no_attempts source = none
