-- ===== src/Identity/Roles.antt =====
-- Roles and the permission matrix of internal/identity/identity.go. A `Role` of the source is a
-- string; `Role` here is one of its three constants, and the functions take the string.
use repo_karta.Common.Text.{Text, codes, text_eq, to_lower, trim_space}
use repo_karta.Common.{ℕ, Bool, true, false, ◌||◌, List, [], ◌∷◌, ltb, if◌then◌else◌, select}

pub data Role : Type 0 where
  reader maintainer admin : Role

pub Role-discrete : Discrete Role
Role-discrete = hlevel

-- The constants' values.
unfoldable pub role_name : Role → Text
role_name reader = codes "reader"
role_name maintainer = codes "knowledge-maintainer"
role_name admin = codes "administrator"

-- A string of type `Permission`: one of the constants, or another.
pub data Permission : Type 0 where
  read_repositories generate_ai manage_artifacts export_artifacts acquire_repositories : Permission
  manage_security manage_roles view_audit manage_audit_retention destructive_owned_data : Permission
  other : Text → Permission

module _ (wide : ℕ → ℕ) where
  -- The string that the switches compare.
  unfoldable pub folded : Text → Text
  folded role = to_lower wide (trim_space role)

  -- `NormalizeRole`
  unfoldable pub normalize_role : Text → Role
  unfolding folded
  normalize_role role =
      if text_eq (folded role) (role_name admin)
      then admin
      else if text_eq (folded role) (role_name maintainer)
      then maintainer
      else reader

  -- `ValidRole`
  unfoldable pub valid_role : Text → Bool
  unfolding folded
  valid_role role =
      text_eq (folded role) (role_name reader)
      || text_eq (folded role) (role_name maintainer)
      || text_eq (folded role) (role_name admin)

-- The switch of `RoleRank`, on the normalized role.
abbrev pub rank : Role → ℕ
rank admin = 3
rank maintainer = 2
rank reader = 1

-- The switch of `Allows`, on the normalized role.
unfoldable pub permits : Role → Permission → Bool
permits role read_repositories = true
permits role export_artifacts = true
permits maintainer generate_ai = true
permits admin generate_ai = true
permits maintainer manage_artifacts = true
permits admin manage_artifacts = true
permits admin acquire_repositories = true
permits admin manage_security = true
permits admin manage_roles = true
permits admin view_audit = true
permits admin manage_audit_retention = true
permits admin destructive_owned_data = true
permits role permission = false

-- `all` of `Permissions`
abbrev pub all_permissions : List Permission
all_permissions =
    read_repositories ∷ generate_ai ∷ manage_artifacts ∷ export_artifacts ∷ acquire_repositories
    ∷ manage_security ∷ manage_roles ∷ view_audit ∷ manage_audit_retention ∷ destructive_owned_data
    ∷ []

module _ (wide : ℕ → ℕ) where
  -- `RoleRank`
  unfoldable pub role_rank : Text → ℕ
  role_rank role = rank (normalize_role wide role)

  -- `MaxRole`
  unfoldable pub max_role : Text → Text → Role
  unfolding role_rank
  max_role left right =
      if ltb (role_rank left) (role_rank right)
      then normalize_role wide right
      else normalize_role wide left

  -- `Allows`
  unfoldable pub allows : Text → Permission → Bool
  allows role permission = permits (normalize_role wide role) permission

  -- `Permissions`
  unfoldable pub permissions : Text → List Permission
  unfolding allows
  permissions role = select (allows role) all_permissions
