-- ===== src/Scim/Resources.antt =====
-- The users and groups of internal/scim/scim.go, as stored and as SCIM resources. The schemas, the
-- types of resource and the locations, which are constants or made from the request, are left out. A
-- time is a number, 0 for none.
use repo_karta.Common.Equal.{is_blank}
use repo_karta.Common.Text.{Text}
use repo_karta.Common.{ℕ, Bool, true, not, Option, none, some, List, [], ◌∷◌, if◌then◌else◌}
use repo_karta.Identity.Roles.{normalize_role, reader, role_name}
pub use repo_karta.Identity.Users.{Group, User}
use repo_karta.Scim.Members.{member_values}

-- `scimEmail`
pub record Email : Type 0 where
  pub value : Text
  pub primary : Bool

-- `scimUser`; a role is its value.
pub record UserResource : Type 0 where
  pub id : Text
  pub external_id : Text
  pub user_name : Text
  pub display_name : Text
  pub active : Option Bool
  pub emails : List Email
  pub roles : List Text
  pub created : ℕ
  pub last_modified : ℕ

-- `scimGroup`; a member is its value, and `extension_role` the "role" of the extension if it is a
-- string.
pub record GroupResource : Type 0 where
  pub id : Text
  pub external_id : Text
  pub display_name : Text
  pub members : List Text
  pub extension_role : Option Text
  pub created : ℕ
  pub last_modified : ℕ

unfoldable pub active_of : Option Bool → Bool
active_of none = true
active_of (some active) = active

-- The first primary address, or else the one given.
unfoldable pub primary_or : Text → List Email → Text
primary_or email [] = email
primary_or email (candidate ∷ rest) =
    let later = primary_or email rest in if candidate.primary then candidate.value else later

unfoldable pub email_of : List Email → Text
email_of [] = []
email_of (first ∷ rest) = primary_or first.value (first ∷ rest)

module _ (wide : ℕ → ℕ) where
  unfoldable pub role_of : List Text → Text
  role_of [] = role_name reader
  role_of (first ∷ rest) = role_name (normalize_role wide first)

  -- `userFromResource`
  unfoldable pub user_from_resource : UserResource → Text → User
  user_from_resource r id = record {
    id = id;
    external_id = r.external_id;
    user_name = r.user_name;
    display_name = r.display_name;
    email = email_of r.emails;
    auth_provider = [];
    auth_subject = [];
    active = active_of r.active;
    role = role_of r.roles;
    scim_managed = true;
    created_at = 0;
    updated_at = 0;
  }

  -- `userResource`
  unfoldable pub user_resource : User → UserResource
  user_resource u = record {
    id = u.id;
    external_id = u.external_id;
    user_name = u.user_name;
    display_name = u.display_name;
    active = some u.active;
    emails = if not (is_blank u.email) then record { value = u.email; primary = true } ∷ [] else [];
    roles = role_name (normalize_role wide u.role) ∷ [];
    created = u.created_at;
    last_modified = u.updated_at;
  }

  unfoldable pub extension_role_of : Option Text → Text
  extension_role_of none = role_name reader
  extension_role_of (some value) = role_name (normalize_role wide value)

  -- `groupFromResource`
  unfoldable pub group_from_resource : GroupResource → Text → Group
  group_from_resource r id = record {
    id = id;
    external_id = r.external_id;
    display_name = r.display_name;
    role = extension_role_of r.extension_role;
    members = member_values r.members;
    created_at = 0;
    updated_at = 0;
  }

  -- `groupResource`
  unfoldable pub group_resource : Group → GroupResource
  group_resource g = record {
    id = g.id;
    external_id = g.external_id;
    display_name = g.display_name;
    members = g.members;
    extension_role = some (role_name (normalize_role wide g.role));
    created = g.created_at;
    last_modified = g.updated_at;
  }

  -- What PUT gives to the store for an existing user, and for an existing group.
  unfoldable pub put_user : User → UserResource → User
  put_user existing input = record (user_from_resource input existing.id) {
    created_at = existing.created_at;
    auth_provider = existing.auth_provider;
    auth_subject = existing.auth_subject;
  }

  unfoldable pub put_group : Group → GroupResource → Group
  put_group existing input = record (group_from_resource input existing.id) {
    created_at = existing.created_at;
  }
