-- ===== src/Security/Lifetime.antt =====
-- The sessions as their clients see them: each is valid for twelve hours from its creation, unless
-- it is deleted; when expired ones are pruned cannot be seen.
use repo_karta.Common.Text.{Text}
use repo_karta.Common.{
  ℕ, ◌+◌, ◌≤◌, ◌≡◌, ◌∙◌, refl, ap, Option, none, some, List, [], ◌∷◌, arith, ltb, ◌==◌,
  if◌then◌else◌, Bool-cases, inl, inr,
}
use repo_karta.Security.Sessions.{
  Session, Sessions, admin_session, admin_session_lifetime, create_admin_session, csrf_of,
  delete_admin_session, live, prune_admin_sessions, set_session,
}

-- What a client does with the sessions.
pub data Request : Type 0 where
  create : ℕ → Text → Text → Request
  check : ℕ → Text → Request
  delete : ℕ → Text → Request

abbrev pub time_of : Request → ℕ
time_of (create now token csrf) = now
time_of (check now token) = now
time_of (delete now token) = now

-- When a session was created, and its CSRF token.
abbrev pub Created : Type 0
Created = Option (ℕ × Text)

-- The session that a client may rely on at a time.
abbrev pub valid : ℕ → Created → Option Text
valid now none = none
valid now (some (created, csrf)) =
    if ltb now (created + admin_session_lifetime) then some csrf else none

module _ (digest : Text → ℕ) where
  unfoldable pub serve : Request → Sessions → Sessions
  serve (create now token csrf) m = create_admin_session digest now token csrf m
  serve (check now token) m = (admin_session digest now token m).0
  serve (delete now token) m = delete_admin_session digest token m

  unfoldable pub serve_all : List Request → Sessions → Sessions
  serve_all [] m = m
  serve_all (r ∷ rs) m = serve_all rs (serve r m)

  -- The abstract store: it only remembers creations and deletions, by digest.
  abbrev pub remember : Request → (ℕ → Created) → ℕ → Created
  remember (create now token csrf) a k = if k == digest token then some (now, csrf) else a k
  remember (check now token) a k = a k
  remember (delete now token) a k = if k == digest token then none else a k

  pub remembered : List Request → (ℕ → Created) → ℕ → Created
  remembered [] a = a
  remembered (r ∷ rs) a = remembered rs (remember r a)

  abbrev pub InOrder : ℕ → ℕ → List Request → Type 0
  InOrder clock end [] = clock ≤ end
  InOrder clock end (r ∷ rs) = (clock ≤ time_of r) × InOrder (time_of r) end rs

  -- From a time on, a key answers as the abstract store says.
  abbrev Agrees : ℕ → Option Session → Created → Type 0
  Agrees clock s c = (now : ℕ) → clock ≤ now → csrf_of (live now s) ≡ valid now c

  live_again : (t now : ℕ) (s : Option Session) → t ≤ now → live now (live t s) ≡ live now s
  unfolding live
  live_again t now none h = refl
  live_again t now (some s) h = ground arith

  live-Agrees :
      (clock t : ℕ) (s : Option Session) (c : Created)
      → clock ≤ t
      → Agrees clock s c
      → Agrees t (live t s) c
  live-Agrees clock t s c h a now k = ap csrf_of (live_again t now s k) ∙ a now (omega arith)

  created-Agrees :
      (t : ℕ) (csrf : Text)
      → Agrees t
          (some (record { expires_at = t + admin_session_lifetime; csrf_token = csrf }))
          (some (t, csrf))
  unfolding live
  created-Agrees t csrf now k = ground arith

  serve-Agrees :
      (clock : ℕ) (r : Request) (m : Sessions) (a : ℕ → Created)
      → clock ≤ time_of r
      → ((k : ℕ) → Agrees clock (m k) (a k))
      → (k : ℕ) → Agrees (time_of r) (serve r m k) (remember r a k)
  unfolding serve create_admin_session admin_session delete_admin_session set_session
      prune_admin_sessions
  serve-Agrees clock (create now token csrf) m a h e k = elim (Bool-cases (k == digest token)) [
    | inl same ↦ rw same (created-Agrees now csrf)
    | inr other ↦ rw other (live-Agrees clock now (m k) (a k) h (e k))
  ]
  serve-Agrees clock (check now token) m a h e k = live-Agrees clock now (m k) (a k) h (e k)
  serve-Agrees clock (delete now token) m a h e k = elim (Bool-cases (k == digest token)) [
    | inl same ↦ rw same (λ t p. unfold live in refl)
    | inr other ↦ rw other (λ t p. e k t (omega arith))
  ]

  serve_all-Agrees :
      (clock end : ℕ) (rs : List Request) (m : Sessions) (a : ℕ → Created)
      → InOrder clock end rs
      → ((k : ℕ) → Agrees clock (m k) (a k))
      → (k : ℕ) → Agrees end (serve_all rs m k) (remembered rs a k)
  unfolding serve_all remembered
  serve_all-Agrees clock end [] m a h e k = λ now p. e k now (omega arith)
  serve_all-Agrees clock end (r ∷ rs) m a h e k =
      serve_all-Agrees (time_of r) end rs (serve r m) (remember r a) h.1
        (serve-Agrees clock r m a h.0 e) k

  -- After any requests at times that do not go back, AdminSession answers as the abstract store: with
  -- the CSRF token of the token's last creation, if no deletion followed and fewer than twelve hours
  -- have passed since, and otherwise not.
  pub serve_all-valid :
      (rs : List Request) (now : ℕ) (token : Text)
      → InOrder 0 now rs
      → (admin_session digest now token (serve_all rs (λ _. none))).1
        ≡ valid now (remembered rs (λ _. none) (digest token))
  unfolding admin_session prune_admin_sessions
  serve_all-valid rs now token h =
      let e =
        serve_all-Agrees 0 now rs (λ _. none) (λ _. none) h (λ k t p. unfold live in refl)
          (digest token) in
      ap csrf_of (live_again now now _ (omega arith)) ∙ e now (omega arith)
