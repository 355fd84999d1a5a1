-- ===== src/Security/Streaks.antt =====
-- The backoff of administrator logins in internal/security/security.go, against a specification that
-- keeps, for one source, only its failures in a row: how many, and the time of the last.
use Prim.Native.Nat.{◌^◌}
use repo_karta.Common.Equal.{text_eq-path}
use repo_karta.Common.Text.{Text, text_eq}
use repo_karta.Common.{
  ℕ, ◌+◌, ◌-◌, ◌*◌, ◌≤◌, ◌≡◌, ◌∙◌, refl, sym, ap, true, false, not, Option, none, some, List, [],
  ◌∷◌, arith, ltb, leb, if◌then◌else◌, if_rule, Bool-cases, inl, inr,
}
use repo_karta.Security.Attempts.{
  Attempt, Attempts, Call, admin_login_retry_after, call, calls, failed_attempt, keep_attempt,
  login, no_attempts, or_zero, prune_admin_attempts, record_admin_login, retry_after, set_attempt,
  source_of, wait_of,
}
use repo_karta.Security.Backoff.{InOrder, calls-bounded}

-- The number of the failures in a row, and the time of the last.
abbrev pub Streak : Type 0
Streak = Option (ℕ × ℕ)

-- A row whose last failure is more than an hour ago is forgotten.
abbrev pub remembered_at : ℕ → Streak → Streak
remembered_at t none = none
remembered_at t (some (n, last)) = if ltb (last + 3600000000000) t then none else some (n, last)

abbrev pub one_more : ℕ → Streak → Streak
one_more t none = some (1, t)
one_more t (some (n, last)) = some (n + 1, t)

-- What a call makes of the row of a source: its own failure prolongs it, its own success ends it, and
-- any request for a waiting time, also for another source, forgets it if it is old.
abbrev pub behind_call : Text → Call → Streak → Streak
behind_call key (retry_after t source) s = remembered_at t s
behind_call key (login t source true) s = if text_eq key (source_of source) then none else s
behind_call key (login t source false) s =
    if text_eq key (source_of source) then one_more t s else s

abbrev pub streak_behind : Text → List Call → Streak → Streak
streak_behind key [] s = s
streak_behind key (c ∷ cs) s = streak_behind key cs (behind_call key c s)

-- Until when a row blocks: from three failures on, for a second, and twice as long for each failure
-- more, up to the ninth.
abbrev pub blocks_until : ℕ → ℕ → ℕ
blocks_until n last =
    if ltb n 3 then 0 else last + 1000000000 * 2 ^ (if ltb (n - 3) 6 then n - 3 else 6)

abbrev pub wait_for : ℕ → Streak → ℕ
wait_for t none = 0
wait_for t (some (n, last)) = blocks_until n last - t

-- What the map holds for a row.
abbrev attempt_of : Streak → Option Attempt
attempt_of none = none
attempt_of (some (n, last)) =
    some (record { failures = n; blocked_until = blocks_until n last; last_attempt = last })

keep_attempt-remembered :
    (t : ℕ) (s : Streak) → keep_attempt t (attempt_of s) ≡ attempt_of (remembered_at t s)
unfolding keep_attempt
keep_attempt-remembered t none = refl
keep_attempt-remembered t (some (n, last)) = elim (Bool-cases (ltb (last + 3600000000000) t)) [
  | inl e ↦ let f : ltb 3600000000000 (t - last) ≡ true = ground arith in rw (e, f) refl
  | inr e ↦ let f : ltb 3600000000000 (t - last) ≡ false = ground arith in rw (e, f) refl
]

failed_attempt-one_more :
    (t : ℕ) (s : Streak)
    → some (failed_attempt t (or_zero (attempt_of s))) ≡ attempt_of (one_more t s)
unfolding failed_attempt
failed_attempt-one_more t none = refl
failed_attempt-one_more t (some (n, last)) = elim (Bool-cases (leb 3 (n + 1))) [
  | inl e ↦ let f : ltb (n + 1) 3 ≡ false = ground arith in rw (e, f) refl
  | inr e ↦
      let f : ltb (n + 1) 3 ≡ true = ground arith in
      let g : ltb n 3 ≡ true = ground arith in rw (e, f, g) refl
]

-- The map holds for each source what its row says.
call-behind :
    (key : Text) (c : Call) (m : Attempts) (s : Streak)
    → m key ≡ attempt_of s
    → call c m key ≡ attempt_of (behind_call key c s)
unfolding call admin_login_retry_after prune_admin_attempts record_admin_login set_attempt
call-behind key (retry_after t source) m s h = ap (keep_attempt t) h ∙ keep_attempt-remembered t s
call-behind key (login t source true) m s h = elim (Bool-cases (text_eq key (source_of source))) [
  | inl e ↦ rw e refl
  | inr e ↦ rw e h
]
call-behind key (login t source false) m s h = elim (Bool-cases (text_eq key (source_of source))) [
  | inl e ↦ rw e (
      ap (λ k. some (failed_attempt t (or_zero (m k))))
        (sym (text_eq-path key (source_of source) e))
      ∙ ap (λ o. some (failed_attempt t (or_zero o))) h
      ∙ failed_attempt-one_more t s)
  | inr e ↦ rw e h
]

calls-behind :
    (key : Text) (cs : List Call) (m : Attempts) (s : Streak)
    → m key ≡ attempt_of s
    → calls cs m key ≡ attempt_of (streak_behind key cs s)
unfolding calls
calls-behind key [] m s h = h
calls-behind key (c ∷ cs) m s h =
    calls-behind key cs (call c m) (behind_call key c s) (call-behind key c m s h)

wait_of-wait_for : (t : ℕ) (s : Streak) → wait_of t (or_zero (attempt_of s)) ≡ wait_for t s
unfolding wait_of
wait_of-wait_for t none = ground arith
wait_of-wait_for t (some (n, last)) =
    if_rule (λ w. w ≡ blocks_until n last - t) (not (ltb t (blocks_until n last))) _ _
      (λ h. behind (blocks_until n last) h) (λ _. refl)
  where
    behind : (b : ℕ) → not (ltb t b) ≡ true → 0 ≡ b - t
    behind b h = ground arith

-- After any calls at times that do not go back, a source waits for as long as its failures in a row say:
-- from the third on for a second behind the last, twice as long for each failure more, and for 64
-- seconds at most. A success ends the row, and so does an hour without a failure, if any waiting time
-- is asked for behind it; what other sources do changes nothing else.
pub calls-retry_after :
    (cs : List Call) (now : ℕ) (source : Text)
    → InOrder 0 now cs
    → let (_, wait) = admin_login_retry_after now source (calls cs no_attempts) in
      (wait ≡ wait_for now (remembered_at now (streak_behind (source_of source) cs none)))
      × (wait ≤ 64000000000)
unfolding admin_login_retry_after prune_admin_attempts no_attempts
calls-retry_after cs now source h =
    let key = source_of source in
    let s = streak_behind key cs none in
    (
      ap (λ o. wait_of now (or_zero (keep_attempt now o)))
            (calls-behind key cs no_attempts none refl)
          ∙ ap (λ o. wait_of now (or_zero o)) (keep_attempt-remembered now s)
          ∙ wait_of-wait_for now (remembered_at now s),
      calls-bounded cs now source h,
    )
