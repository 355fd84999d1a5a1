-- ===== src/Security/Backoff.antt =====
-- How long the backoff of administrator logins blocks a source, at most.
use Prim.Native.Nat.{◌^◌}
use repo_karta.Common.Text.{Text, text_eq}
use repo_karta.Common.{
  ℕ, zero, suc, ◌+◌, ◌-◌, ◌*◌, ◌≤◌, true, false, not, Option, none, some, List, [], ◌∷◌, arith, ltb,
  leb, if_rule,
}
use repo_karta.Security.Attempts.{
  Attempt, Attempts, Call, admin_login_retry_after, call, calls, failed_attempt, hour, keep_attempt,
  login, no_attempts, or_zero, prune_admin_attempts, record_admin_login, retry_after, second,
  set_attempt, smaller, source_of, time_of, wait_of,
}

-- An attempt that was made by some time blocks for 64 seconds at most.
pub record IsBounded (clock : ℕ) (a : Attempt) : Type 0 where
  pub made : a.last_attempt ≤ clock
  pub short : a.blocked_until ≤ a.last_attempt + 64 * second

abbrev pub BoundedEntry : ℕ → Option Attempt → Type 0
BoundedEntry clock none = Unit
BoundedEntry clock (some a) = IsBounded clock a

abbrev pub AreBounded : ℕ → Attempts → Type 0
AreBounded clock m = (source : Text) → BoundedEntry clock (m source)

-- A power of two at a small exponent.
power_small : (e : ℕ) → e ≤ 6 → 2 ^ e ≤ 64
power_small zero h = omega arith
power_small (suc zero) h = omega arith
power_small (suc (suc zero)) h = omega arith
power_small (suc (suc (suc zero))) h = omega arith
power_small (suc (suc (suc (suc zero)))) h = omega arith
power_small (suc (suc (suc (suc (suc zero))))) h = omega arith
power_small (suc (suc (suc (suc (suc (suc zero)))))) h = omega arith
power_small (suc (suc (suc (suc (suc (suc (suc e))))))) h = absurd (omega arith)

smaller-le : (a b : ℕ) → smaller a b ≤ b
smaller-le a b = ground arith

or_zero-IsBounded :
    (clock : ℕ) (o : Option Attempt) → BoundedEntry clock o → IsBounded clock (or_zero o)
or_zero-IsBounded clock none h = record { made = omega arith; short = omega arith }
or_zero-IsBounded clock (some a) h = h

IsBounded-later : (c d : ℕ) (a : Attempt) → c ≤ d → IsBounded c a → IsBounded d a
IsBounded-later c d a h b = record { made = omega (arith, b.made); short = b.short }

failed_attempt-IsBounded :
    (clock now : ℕ) (a : Attempt)
    → clock ≤ now
    → IsBounded clock a
    → IsBounded now (failed_attempt now a)
unfolding failed_attempt
failed_attempt-IsBounded clock now a h b =
    if_rule (IsBounded now) (leb 3 (a.failures + 1)) _ _
      (λ _.
        let small =
          power_small (smaller (a.failures + 1 - 3) 6) (smaller-le (a.failures + 1 - 3) 6) in
        record { made = omega arith; short = omega (arith, small) })
      (λ _. record { made = omega arith; short = omega (arith, b.short, b.made) })

set_attempt-AreBounded :
    (clock : ℕ) (source : Text) (o : Option Attempt) (m : Attempts)
    → BoundedEntry clock o
    → AreBounded clock m
    → AreBounded clock (set_attempt source o m)
unfolding set_attempt
set_attempt-AreBounded clock source o m h b s =
    if_rule (BoundedEntry clock) (text_eq s source) _ _ (λ _. h) (λ _. b s)

keep_attempt-BoundedEntry :
    (clock now : ℕ) (o : Option Attempt)
    → BoundedEntry clock o
    → BoundedEntry clock (keep_attempt now o)
unfolding keep_attempt
keep_attempt-BoundedEntry clock now none h = tt
keep_attempt-BoundedEntry clock now (some a) h =
    if_rule (BoundedEntry clock) (ltb hour (now - a.last_attempt)) _ _ (λ _. tt) (λ _. h)

AreBounded-later : (c d : ℕ) (m : Attempts) → c ≤ d → AreBounded c m → AreBounded d m
AreBounded-later c d m h b source = go (m source) (b source)
  where
    go : (o : Option Attempt) → BoundedEntry c o → BoundedEntry d o
    go none e = tt
    go (some a) e = IsBounded-later c d a h e

call-AreBounded :
    (clock : ℕ) (c : Call) (m : Attempts)
    → clock ≤ time_of c
    → AreBounded clock m
    → AreBounded (time_of c) (call c m)
unfolding call admin_login_retry_after prune_admin_attempts record_admin_login
call-AreBounded clock (retry_after now source) m h b =
    λ s. keep_attempt-BoundedEntry now now (m s) (AreBounded-later clock now m h b s)
call-AreBounded clock (login now source true) m h b =
    set_attempt-AreBounded now (source_of source) none m tt (AreBounded-later clock now m h b)
call-AreBounded clock (login now source false) m h b =
    set_attempt-AreBounded now (source_of source) _ m
      (failed_attempt-IsBounded clock now (or_zero (m (source_of source))) h
        (or_zero-IsBounded clock (m (source_of source)) (b (source_of source))))
      (AreBounded-later clock now m h b)

-- Calls at times that do not go back, from a time on and up to another.
abbrev pub InOrder : ℕ → ℕ → List Call → Type 0
InOrder clock end [] = clock ≤ end
InOrder clock end (c ∷ cs) = (clock ≤ time_of c) × InOrder (time_of c) end cs

calls-AreBounded :
    (clock end : ℕ) (cs : List Call) (m : Attempts)
    → InOrder clock end cs
    → AreBounded clock m
    → AreBounded end (calls cs m)
unfolding calls
calls-AreBounded clock end [] m h b = AreBounded-later clock end m h b
calls-AreBounded clock end (c ∷ cs) m h b =
    calls-AreBounded (time_of c) end cs (call c m) h.1 (call-AreBounded clock c m h.0 b)

wait_of-bound : (now : ℕ) (a : Attempt) → IsBounded now a → wait_of now a ≤ 64 * second
unfolding wait_of
wait_of-bound now a b =
    if_rule (λ w. w ≤ 64 * second) (not (ltb now a.blocked_until)) _ _ (λ _. omega arith)
      (λ _. omega (arith, b.made, b.short))

-- After any calls at times that do not go back, a source waits for 64 seconds at most.
pub calls-bounded :
    (cs : List Call) (now : ℕ) (source : Text)
    → InOrder 0 now cs
    → (admin_login_retry_after now source (calls cs no_attempts)).1 ≤ 64 * second
unfolding admin_login_retry_after prune_admin_attempts no_attempts
calls-bounded cs now source h =
    let entry = calls-AreBounded 0 now cs no_attempts h (λ s. tt) (source_of source) in
    wait_of-bound now _ (or_zero-IsBounded now _ (keep_attempt-BoundedEntry now now _ entry))
