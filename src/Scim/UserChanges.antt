-- ===== src/Scim/UserChanges.antt =====
-- What a patch or a replacement of a user leaves as it is.
use repo_karta.Common.Equal.{is_blank}
use repo_karta.Common.Text.{Text, codes, text_eq, to_lower, trim_space}
use repo_karta.Common.{
  ℕ, ◌≡◌, ◌∙◌, ◌⊎◌, refl, subst, true, ◌||◌, not, Option, none, some, List, [], ◌∷◌, if◌then◌else◌,
  inl, inr,
}
use repo_karta.Identity.Matrix.{normalize_role-role_name}
use repo_karta.Identity.Roles.{Role, normalize_role, reader, role_name}
use repo_karta.Scim.Patches.{
  Operation, Value, apply_user_patch, ask, is_removal, map_option, patch_active, patch_email,
  patch_roles, patch_string, replaced, user_operation,
}
use repo_karta.Scim.Resources.{
  User, UserResource, email_of, primary_or, put_user, role_of, user_from_resource, user_resource,
  active_of, Email,
}
use repo_karta.Scim.Changes.{IfSome, IfSome-bind, IfSome-if, IfSome-map}

-- The user is the same one, with the same sign-in, and has the old role or one of the three.
abbrev pub IsSame : User → User → Type 0
IsSame u v =
    (v.id ≡ u.id)
    × (v.auth_provider ≡ u.auth_provider)
    × (v.auth_subject ≡ u.auth_subject)
    × (v.created_at ≡ u.created_at)
    × ((v.role ≡ u.role) ⊎ ((r : Role) × (v.role ≡ role_name r)))

module _ (wide : ℕ → ℕ) where
  IsSame-refl : (u : User) → IsSame u u
  IsSame-refl u = (refl, refl, refl, refl, inl refl)

  map-IsSame :
      {A : Type 0} (u : User) (f : A → User) (o : Option A)
      → ((a : A) → IsSame u (f a))
      → IfSome (IsSame u) (map_option f o)
  map-IsSame u f o h = IfSome-map (IsSame u) f o h

  patch_email-IsSame :
      (u : User) (value : Value) (o : Option (List Email))
      → IfSome (IsSame u) (patch_email wide u value o)
  unfolding patch_email
  patch_email-IsSame u value none =
      map-IsSame u _ (ask u.email value.as_text) (λ _. (refl, refl, refl, refl, inl refl))
  patch_email-IsSame u value (some []) =
      map-IsSame u _ (ask u.email value.as_text) (λ _. (refl, refl, refl, refl, inl refl))
  patch_email-IsSame u value (some (first ∷ rest)) = (refl, refl, refl, refl, inl refl)

  patch_roles-IsSame :
      (u : User) (o : Option (List Text)) → IfSome (IsSame u) (patch_roles wide u o)
  unfolding patch_roles
  patch_roles-IsSame u none = tt
  patch_roles-IsSame u (some []) = tt
  patch_roles-IsSame u (some (first ∷ rest)) =
      (refl, refl, refl, refl, inr (normalize_role wide first, refl))

  role_of-named : (roles : List Text) → (r : Role) × (role_of wide roles ≡ role_name r)
  unfolding role_of
  role_of-named [] = (reader, refl)
  role_of-named (first ∷ rest) = (normalize_role wide first, refl)

  replaced-IsSame : (u : User) (r : UserResource) → IsSame u (replaced wide u r)
  unfolding replaced user_from_resource
  replaced-IsSame u r = (refl, refl, refl, refl, inr (role_of-named r.roles))

  user_operation-IsSame : (u : User) (o : Operation) → IfSome (IsSame u) (user_operation wide u o)
  unfolding user_operation patch_active
  user_operation-IsSame u o =
      let op = to_lower wide (trim_space o.op) in
      let path = to_lower wide (trim_space o.path) in
      let same = IfSome-if (IsSame u) in
      same (not (text_eq op (codes "add") || text_eq op (codes "replace") || is_removal wide op)) _
        _ tt
        (same (text_eq path (codes "active")) _ _
          (same (is_removal wide op) _ _ (refl, refl, refl, refl, inl refl)
            (map-IsSame u _ (ask u.active o.value.as_bool)
              (λ _. (refl, refl, refl, refl, inl refl))))
          (same (text_eq path (codes "username")) _ _
            (map-IsSame u _ (patch_string u.user_name op o.value)
              (λ _. (refl, refl, refl, refl, inl refl)))
            (same (text_eq path (codes "displayname")) _ _
              (map-IsSame u _ (patch_string u.display_name op o.value)
                (λ _. (refl, refl, refl, refl, inl refl)))
              (same (text_eq path (codes "externalid")) _ _
                (map-IsSame u _ (patch_string u.external_id op o.value)
                  (λ _. (refl, refl, refl, refl, inl refl)))
                (same
                  (text_eq path (codes "emails")
                    || text_eq path (codes "emails[type eq \"work\"].value"))
                  _ _
                  (same (is_removal wide op) _ _ (refl, refl, refl, refl, inl refl)
                    (patch_email-IsSame u o.value o.value.as_emails))
                  (same (text_eq path (codes "roles")) _ _
                    (same (is_removal wide op) _ _ (refl, refl, refl, refl, inr (reader, refl))
                      (patch_roles-IsSame u o.value.as_roles))
                    (same (is_blank path) _ _
                      (map-IsSame u (replaced wide u) o.value.as_user (replaced-IsSame u)) tt)))))))

  IsSame-trans : (u v w : User) → IsSame u v → IsSame v w → IsSame u w
  IsSame-trans u v w h k = (k.0 ∙ h.0, k.1 ∙ h.1, k.2 ∙ h.2, k.3 ∙ h.3, role h.4 k.4)
    where
      role :
          (v.role ≡ u.role) ⊎ ((r : Role) × (v.role ≡ role_name r))
          → (w.role ≡ v.role) ⊎ ((r : Role) × (w.role ≡ role_name r))
          → (w.role ≡ u.role) ⊎ ((r : Role) × (w.role ≡ role_name r))
      role (inl a) (inl b) = inl (b ∙ a)
      role (inr a) (inl b) = inr (a.0, b ∙ a.1)
      role a (inr b) = inr b

  user_patch-IsSame :
      (u : User) (os : List Operation) → IfSome (IsSame u) (apply_user_patch wide u os)
  unfolding apply_user_patch
  user_patch-IsSame u [] = IsSame-refl u
  user_patch-IsSame u (o ∷ os) =
      IfSome-bind (IsSame u) (IsSame u) (λ v. apply_user_patch wide v os) (user_operation wide u o)
        (user_operation-IsSame u o)
        (λ v k. onwards v k (apply_user_patch wide v os) (user_patch-IsSame v os))
    where
      onwards :
          (v : User) → IsSame u v → (r : Option User) → IfSome (IsSame v) r → IfSome (IsSame u) r
      onwards v k none i = tt
      onwards v k (some w) i = IsSame-trans u v w k i

  -- No patch that succeeds changes a user's identifier, time of creation or sign-in, and the role that
  -- it leaves is the old one or one of the three known roles.
  pub apply_user_patch-IsSame :
      (u v : User) (os : List Operation) → apply_user_patch wide u os ≡ some v → IsSame u v
  apply_user_patch-IsSame u v os e = subst (IfSome (IsSame u)) e (user_patch-IsSame u os)

  shown_email :
      (email : Text)
      → email_of
          (if not (is_blank email) then record { value = email; primary = true } ∷ [] else [])
        ≡ email
  unfolding email_of primary_or
  shown_email [] = refl
  shown_email (c ∷ s) = refl

  -- Putting back the resource that a user is shown as leaves the user as it was, with its role
  -- normalized, as one that SCIM manages; the time of the update is the store's to set.
  pub put_user-user_resource :
      (u : User)
      → put_user wide u (user_resource wide u) ≡ record u {
        role = role_name (normalize_role wide u.role);
        scim_managed = true;
        updated_at = 0;
      }
  unfolding put_user user_from_resource user_resource role_of active_of
  put_user-user_resource u =
      rw (shown_email u.email, normalize_role-role_name wide (normalize_role wide u.role)) refl
