-- ===== src/Scim/Patches.antt =====
-- `applyUserPatch` and `applyGroupPatch` of internal/scim/scim.go. An operation's value comes with
-- what encoding/json makes of it for each type that the program asks for.
use repo_karta.Common.Equal.{is_blank}
use repo_karta.Common.Text.{Text, codes, has_prefix, text_eq, to_lower, trim_space}
use repo_karta.Common.{ℕ, Bool, false, ◌||◌, not, Option, none, some, List, [], ◌∷◌, if◌then◌else◌}
use repo_karta.Identity.Roles.{normalize_role, reader, role_name}
use repo_karta.Scim.Members.{append_unique, member_values, removal, retain}
use repo_karta.Scim.Resources.{Email, Group, User, UserResource, user_from_resource}

-- What decoding into a Boolean or a string does: it fails, leaves the target as it is (for null), or
-- sets it.
pub data Decoded (A : Type 0) : Type 0 where
  bad : Decoded A
  null : Decoded A
  got : A → Decoded A

-- A raw value, as decoded into each type; none where decoding fails.
pub record Value : Type 0 where
  pub as_bool : Decoded Bool
  pub as_text : Decoded Text
  pub as_emails : Option (List Email)
  pub as_roles : Option (List Text)
  pub as_user : Option UserResource
  pub as_members : Option (List Text)
  pub as_wrapper : Option (List Text)
  -- no value, or the value null
  pub is_absent : Bool

-- `patchOperation`
pub record Operation : Type 0 where
  pub op : Text
  pub path : Text
  pub value : Value

abbrev pub ask : {A : Type 0} → A → Decoded A → Option A
ask old bad = none
ask old null = some old
ask old (got a) = some a

-- `patchString`: what the target holds then
unfoldable pub patch_string : Text → Text → Value → Option Text
patch_string old op value = if text_eq op (codes "remove") then some [] else ask old value.as_text

infixl 10 ◌>>=◌
abbrev pub ◌>>=◌ : {A B : Type 0} → Option A → (A → Option B) → Option B
none >>= f = none
some a >>= f = f a

abbrev pub map_option : {A B : Type 0} → (A → B) → Option A → Option B
map_option f none = none
map_option f (some a) = some (f a)

module _ (wide : ℕ → ℕ) where
  unfoldable pub is_removal : Text → Bool
  is_removal op = text_eq op (codes "remove")

  unfoldable pub patch_active : User → Text → Value → Option User
  patch_active u op value =
      if is_removal op
      then some (record u { active = false })
      else map_option (λ active. record u { active = active }) (ask u.active value.as_bool)

  -- The first address of the value, or the value itself.
  unfoldable pub patch_email : User → Value → Option (List Email) → Option User
  patch_email u value (some (first ∷ rest)) = some (record u { email = first.value })
  patch_email u value (some []) =
      map_option (λ email. record u { email = email }) (ask u.email value.as_text)
  patch_email u value none =
      map_option (λ email. record u { email = email }) (ask u.email value.as_text)

  unfoldable pub patch_roles : User → Option (List Text) → Option User
  patch_roles u (some (first ∷ rest)) =
      some (record u { role = role_name (normalize_role wide first) })
  patch_roles u (some []) = none
  patch_roles u none = none

  unfoldable pub replaced : User → UserResource → User
  replaced u r = record (user_from_resource wide r u.id) {
    created_at = u.created_at;
    auth_provider = u.auth_provider;
    auth_subject = u.auth_subject;
  }

  -- One turn of the loop of `applyUserPatch`; none is an error.
  unfoldable pub user_operation : User → Operation → Option User
  user_operation u o =
      let op = to_lower wide (trim_space o.op) in
      let path = to_lower wide (trim_space o.path) in
      if not (text_eq op (codes "add") || text_eq op (codes "replace") || is_removal op)
      then none
      else if text_eq path (codes "active")
      then patch_active u op o.value
      else if text_eq path (codes "username")
      then map_option (λ s. record u { user_name = s }) (patch_string u.user_name op o.value)
      else if text_eq path (codes "displayname")
      then map_option (λ s. record u { display_name = s }) (patch_string u.display_name op o.value)
      else if text_eq path (codes "externalid")
      then map_option (λ s. record u { external_id = s }) (patch_string u.external_id op o.value)
      else if text_eq path (codes "emails") || text_eq path (codes "emails[type eq \"work\"].value")
      then if is_removal op
        then some (record u { email = [] })
        else patch_email u o.value o.value.as_emails
      else if text_eq path (codes "roles")
      then if is_removal op
        then some (record u { role = role_name reader })
        else patch_roles u o.value.as_roles
      else if is_blank path
      then map_option (replaced u) o.value.as_user
      else none

  -- `applyUserPatch`
  unfoldable pub apply_user_patch : User → List Operation → Option User
  apply_user_patch u [] = some u
  apply_user_patch u (o ∷ os) = do v ← user_operation u o; apply_user_patch v os

  abbrev pub either : Option (List Text) → Option (List Text) → Option (List Text)
  either none second = second
  either (some first) second = some first

  -- The members that an operation carries.
  unfoldable pub carried : Value → Option (List Text)
  carried value = if value.is_absent then some [] else either value.as_members value.as_wrapper

  unfoldable pub patch_members : Group → Text → Text → List Text → Option Group
  patch_members g op path members =
      if text_eq op (codes "replace")
      then some (record g { members = member_values members })
      else if text_eq op (codes "add")
      then some (record g { members = append_unique g.members (member_values members) })
      else if is_removal op
      then some (record g { members = retain (removal path (member_values members)) g.members })
      else none

  unfoldable pub patch_group_role : Group → Text → Value → Option Group
  patch_group_role g op value =
      if is_removal op
      then some (record g { role = role_name reader })
      else map_option (λ role. record g { role = role_name (normalize_role wide role) })
          (ask [] value.as_text)

  -- One turn of the loop of `applyGroupPatch`.
  unfoldable pub group_operation : Group → Operation → Option Group
  group_operation g o =
      let op = to_lower wide (trim_space o.op) in
      let path = to_lower wide (trim_space o.path) in
      if text_eq path (codes "displayname")
      then map_option (λ s. record g { display_name = s }) (patch_string g.display_name op o.value)
      else if text_eq path (codes "externalid")
      then map_option (λ s. record g { external_id = s }) (patch_string g.external_id op o.value)
      else if text_eq path (codes "urn:repokarta:params:scim:schemas:extension:2.0:group:role")
      then patch_group_role g op o.value
      else if has_prefix path (codes "members")
      then carried o.value >>= patch_members g op path
      else none

  -- `applyGroupPatch`
  unfoldable pub apply_group_patch : Group → List Operation → Option Group
  apply_group_patch g [] = some g
  apply_group_patch g (o ∷ os) = do h ← group_operation g o; apply_group_patch h os
