-- ===== src/Accounts/Tables.antt =====
-- The tables of internal/store/identity.go and the operations on users. `sql_lower` is the database's
-- `lower`, by which COLLATE NOCASE compares too. Calls of the database that fail are left out, but for
-- the constraints of the schema (schemaV12 of internal/store/store.go).
use repo_karta.Common.Equal.{is_blank}
use repo_karta.Common.Text.{Text, text_eq, trim_space}
use repo_karta.Common.{
  ℕ, Bool, false, ◌&&◌, ◌||◌, not, Option, none, some, List, [], ◌∷◌, any, ◌==◌, if◌then◌else◌,
}
use repo_karta.Identity.Roles.{normalize_role, role_name}
use repo_karta.Identity.Users.{Group, Mapping, User}

-- The rows; the members of a group stand with it.
pub record Tables : Type 0 where
  pub users : List User
  pub groups : List Group
  pub mappings : List Mapping

-- An error of the store.
pub data Failure : Type 0 where
  incomplete invalid conflict no_rows deprovisioned : Failure

pub data Result (A : Type 0) : Type 0 where
  error : Failure → Result A
  done : A → Result A

-- `User`
unfoldable pub user_row : Text → List User → Option User
user_row id [] = none
user_row id (u ∷ us) = let later = user_row id us in if text_eq u.id id then some u else later

-- Whether a row stands in the way of another by a unique index.
unfoldable pub clashes : (Text → Text) → User → User → Bool
clashes sql_lower new old =
    not (text_eq old.id new.id)
    && ((not (is_blank new.external_id) && text_eq old.external_id new.external_id)
        || (not (is_blank new.auth_provider)
            && not (is_blank new.auth_subject)
            && text_eq old.auth_provider new.auth_provider
            && text_eq old.auth_subject new.auth_subject)
        || text_eq (sql_lower old.user_name) (sql_lower new.user_name))

-- INSERT with ON CONFLICT(id) DO UPDATE, which keeps the time of creation.
unfoldable pub upsert : User → List User → List User
upsert new [] = new ∷ []
upsert new (u ∷ us) =
    let rest = upsert new us in
    if text_eq u.id new.id then record new { created_at = u.created_at } ∷ us else u ∷ rest

module _ (wide : ℕ → ℕ) (sql_lower : Text → Text) where
  -- The fields as `SaveUser` cleans them, at a time, with an identifier to take if there is none.
  unfoldable pub cleaned : ℕ → Text → User → User
  cleaned now fresh u = record u {
    id = (if is_blank (trim_space u.id) then fresh else trim_space u.id);
    external_id = trim_space u.external_id;
    user_name = trim_space u.user_name;
    display_name = trim_space u.display_name;
    email = trim_space u.email;
    auth_provider = trim_space u.auth_provider;
    auth_subject = trim_space u.auth_subject;
    role = role_name (normalize_role wide u.role);
    created_at = (if u.created_at == 0 then now else u.created_at);
    updated_at = now;
  }

  -- What the SELECT behind the write returns.
  abbrev pub selected : Option User → Result User
  selected none = error no_rows
  selected (some u) = done u

  unfoldable pub write_user : User → Tables → Tables × Result User
  write_user u t =
      if is_blank u.user_name
      then (t, error invalid)
      else if any (clashes sql_lower u) t.users
      then (t, error conflict)
      else let written = record t { users = upsert u t.users } in
        (written, selected (user_row u.id written.users))

  -- `SaveUser`
  unfoldable pub save_user : ℕ → Text → User → Tables → Tables × Result User
  save_user now fresh u t = write_user (cleaned now fresh u) t

-- The UPDATE of `DeleteUser`.
unfoldable pub suspend : ℕ → Text → List User → List User
suspend now id [] = []
suspend now id (u ∷ us) =
    let rest = suspend now id us in
    if text_eq u.id id then record u { active = false; updated_at = now } ∷ rest else u ∷ rest

-- `DeleteUser`: the tables that it leaves, none where no row has the identifier.
unfoldable pub delete_user : ℕ → Text → Tables → Option Tables
delete_user now id t =
    if any (λ (u : User). text_eq u.id (trim_space id)) t.users
    then some (record t { users = suspend now (trim_space id) t.users })
    else none
