-- ===== src/Identity/Users.antt =====
-- The users, groups, mappings and claims of internal/identity/identity.go. A time is a number, 0 for
-- none.
use repo_karta.Common.Text.{Text}
use repo_karta.Common.{ℕ, Bool, List}

-- `identity.User`
pub record User : Type 0 where
  pub id : Text
  pub external_id : Text
  pub user_name : Text
  pub display_name : Text
  pub email : Text
  pub auth_provider : Text
  pub auth_subject : Text
  pub active : Bool
  pub role : Text
  pub scim_managed : Bool
  pub created_at : ℕ
  pub updated_at : ℕ

-- `identity.Group`
pub record Group : Type 0 where
  pub id : Text
  pub external_id : Text
  pub display_name : Text
  pub role : Text
  pub members : List Text
  pub created_at : ℕ
  pub updated_at : ℕ

-- `RoleMapping`
pub record Mapping : Type 0 where
  pub id : ℕ
  pub provider : Text
  pub group_value : Text
  pub role : Text

-- `Claims`
pub record Claims : Type 0 where
  pub provider : Text
  pub subject : Text
  pub email : Text
  pub name : Text
  pub groups : List Text
