-- ===== src/Accounts/Resolve.antt =====
-- `ResolveIdentity` of internal/store/identity.go, with what it calls.
use repo_karta.Accounts.Tables.{
  Result, Tables, conflict, deprovisioned, done, error, incomplete, save_user,
}
use repo_karta.Common.Equal.{has_text, is_blank}
use repo_karta.Common.Text.{Text, codes, text_eq, trim_space}
use repo_karta.Common.{
  ℕ, Bool, true, false, ◌&&◌, ◌||◌, not, Option, none, some, List, [], ◌∷◌, ◌++◌, if◌then◌else◌,
}
use repo_karta.Identity.Roles.{max_role, normalize_role, reader, role_name}
use repo_karta.Identity.Users.{Claims, Group, Mapping, User}

-- `Resolution`
pub record Resolution : Type 0 where
  pub user : User
  pub role : Text
  pub known : Bool

-- The first row that meets a condition.
unfoldable pub first_row : (User → Bool) → List User → Option User
first_row p [] = none
first_row p (u ∷ us) = let later = first_row p us in if p u then some u else later

abbrev pub or_row : Option User → Option User → Option User
or_row none second = second
or_row (some u) second = some u

unfoldable pub is_bound : Claims → User → Bool
is_bound c u = text_eq u.auth_provider c.provider && text_eq u.auth_subject c.subject

unfoldable pub trimmed_claims : Claims → Claims
trimmed_claims c = record c {
  provider = trim_space c.provider;
  subject = trim_space c.subject;
  email = trim_space c.email;
  name = trim_space c.name;
}

-- The UPDATE that binds a user to its first sign-in.
unfoldable pub bind_row : ℕ → Claims → Text → List User → List User
bind_row now c id [] = []
bind_row now c id (u ∷ us) =
    let rest = bind_row now c id us in
    if text_eq u.id id && is_blank u.auth_provider && is_blank u.auth_subject
    then record u { auth_provider = c.provider; auth_subject = c.subject; updated_at = now } ∷ rest
    else u ∷ rest

-- The zero value of a user.
abbrev pub no_user : User
no_user = record {
  id = [];
  external_id = [];
  user_name = [];
  display_name = [];
  email = [];
  auth_provider = [];
  auth_subject = [];
  active = false;
  role = [];
  scim_managed = false;
  created_at = 0;
  updated_at = 0;
}

abbrev pub sign_in_name : Claims → Text
sign_in_name c = c.provider ++ (codes ":" ++ c.subject)

-- The user that a first sign-in asks to save.
unfoldable pub new_user : Claims → User
new_user c = record no_user {
  user_name =
      (if is_blank (trim_space c.email) then trim_space (sign_in_name c) else trim_space c.email);
  display_name = c.name;
  email = c.email;
  auth_provider = c.provider;
  auth_subject = c.subject;
  active = true;
  role = role_name reader;
}

module _ (wide : ℕ → ℕ) (sql_lower : Text → Text) where
  unfoldable pub is_awaited : Claims → User → Bool
  is_awaited c u =
      u.scim_managed
      && is_blank u.auth_provider
      && (text_eq u.external_id c.subject
          || (not (is_blank c.email) && text_eq (sql_lower u.email) (sql_lower c.email))
          || (not (is_blank c.email) && text_eq (sql_lower u.user_name) (sql_lower c.email)))

  -- `identityByClaims`
  unfoldable pub identity_by_claims : Claims → List User → Option User
  identity_by_claims c us = or_row (first_row (is_bound c) us) (
      or_row (first_row (λ u. is_awaited c u && text_eq u.external_id c.subject) us)
        (first_row (is_awaited c) us))

  -- The roles of the groups that have a user, and of the provider's groups.
  unfoldable pub member_roles : Text → List Group → List Text
  member_roles id [] = []
  member_roles id (g ∷ gs) =
      let rest = member_roles id gs in if has_text id g.members then g.role ∷ rest else rest

  unfoldable pub mapped_role : Text → Text → List Mapping → List Text
  mapped_role provider value [] = []
  mapped_role provider value (m ∷ ms) =
      let later = mapped_role provider value ms in
      if text_eq m.provider provider
        && text_eq (sql_lower m.group_value) (sql_lower (trim_space value))
      then m.role ∷ []
      else later

  unfoldable pub provider_roles : Text → List Text → List Mapping → List Text
  provider_roles provider [] ms = []
  provider_roles provider (value ∷ values) ms =
      mapped_role provider value ms ++ provider_roles provider values ms

  -- `identityGroupRoles`
  unfoldable pub identity_group_roles : Text → Text → List Text → Tables → List Text
  identity_group_roles id provider values t =
      member_roles id t.groups ++ provider_roles provider values t.mappings

  unfoldable pub highest : Text → List Text → Text
  highest role [] = role
  highest role (r ∷ rs) = highest (role_name (max_role wide role r)) rs

  -- The end of `ResolveIdentity`.
  unfoldable pub with_user : Claims → Bool → User → Tables → Result Resolution
  with_user c known u t =
      if not u.active
      then error deprovisioned
      else done (record {
        user = u;
        role =
            highest (role_name (normalize_role wide u.role))
              (identity_group_roles u.id c.provider c.groups t);
        known = known || u.scim_managed;
      })

  abbrev pub saved : Claims → Tables × Result User → Tables × Result Resolution
  saved c (t, error e) = (t, error e)
  saved c (t, done u) = (t, with_user c false u t)

  -- Behind a conflict the source goes on with the zero value that the failed call returned.
  unfoldable pub after_first_save : ℕ → Text → Claims → Tables × Result User → Tables × Result User
  after_first_save now second c (t, error conflict) =
      save_user wide sql_lower now second (record no_user { user_name = sign_in_name c }) t
  after_first_save now second c r = r

  -- The first sign-in of a user that SCIM has brought in.
  unfoldable pub with_bound : ℕ → Claims → User → Tables → Tables × Result Resolution
  with_bound now c u t =
      let bound = record t { users = bind_row now c u.id t.users } in
      (
        bound,
        with_user c true (record u { auth_provider = c.provider; auth_subject = c.subject }) bound,
      )

  unfoldable pub with_row :
      ℕ → Text → Text → Claims → Tables → Option User → Tables × Result Resolution
  with_row now fresh second c t none =
      saved c (after_first_save now second c (save_user wide sql_lower now fresh (new_user c) t))
  with_row now fresh second c t (some u) =
      if is_blank u.auth_provider then with_bound now c u t else (t, with_user c true u t)

  -- `ResolveIdentity`, at a time, with two identifiers that are not taken: the tables that it leaves,
  -- and its result.
  unfoldable pub resolve_identity : ℕ → Text → Text → Claims → Tables → Tables × Result Resolution
  resolve_identity now fresh second claims t =
      let c = trimmed_claims claims in
      if is_blank c.provider || is_blank c.subject
      then (t, error incomplete)
      else with_row now fresh second c t (identity_by_claims c t.users)
