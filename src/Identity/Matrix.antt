-- ===== src/Identity/Matrix.antt =====
-- The permission matrix is monotone in the rank, and `MaxRole` is a join for it.
use mathlib.Core.List.{Memᴰ}
use repo_karta.Common.Text.{Text, text_eq, to_lower, trim_space}
use repo_karta.Common.{
  ℕ, ◌≤◌, ◌≡◌, refl, true, ◌||◌, arith, ltb, if◌then◌else◌, select-All, select-Memᴰ, All,
}
use repo_karta.Identity.Roles.{
  read_repositories, Role, reader, role_name, Permission, other, normalize_role, rank, permits,
  all_permissions, role_rank, max_role, allows, permissions,
}

permits_mono :
    (r s : Role) (p : Permission) → rank r ≤ rank s → permits r p ≡ true → permits s p ≡ true
unfolding permits
permits_mono r s p h k = ground arith

permits-higher :
    (r s : Role) (p : Permission)
    → permits (if ltb (rank r) (rank s) then s else r) p ≡ (permits r p || permits s p)
unfolding permits
permits-higher r s p = ground arith

permitted-Memᴰ : (r : Role) (p : Permission) → permits r p ≡ true → Memᴰ p all_permissions
unfolding permits
permitted-Memᴰ r (other t) h = cc
permitted-Memᴰ r read_repositories h = Memᴰ.head refl
permitted-Memᴰ r _ h = search (Memᴰ.head, Memᴰ.tail) depth 12

module _ (wide : ℕ → ℕ) where
  -- The name of a role is read back as the role.
  pub normalize_role-role_name : (r : Role) → normalize_role wide (role_name r) ≡ r
  unfolding normalize_role trim_space to_lower text_eq role_name
  normalize_role-role_name reader = refl
  normalize_role-role_name _ = refl

  -- A role whose rank is at least that of another allows all that the other allows.
  allows_mono :
      (low high : Text) (p : Permission)
      → role_rank wide low ≤ role_rank wide high
      → allows wide low p ≡ true
      → allows wide high p ≡ true
  unfolding allows role_rank
  allows_mono low high p h k = permits_mono _ _ p h k

  -- The greater of two roles allows exactly what one of them allows.
  pub allows-max_role :
      (left right : Text) (p : Permission)
      → allows wide (role_name (max_role wide left right)) p
        ≡ (allows wide left p || allows wide right p)
  unfolding allows max_role
  allows-max_role left right p =
      rw (normalize_role-role_name (max_role wide left right))
        (permits-higher (normalize_role wide left) (normalize_role wide right) p)

  -- `Permissions` lists exactly the permissions that `Allows` grants.
  permissions-allows :
      (role : Text) (p : Permission)
      → All (λ q. allows wide role q ≡ true) (permissions wide role)
        × (allows wide role p ≡ true → Memᴰ p (permissions wide role))
  unfolding permissions
  permissions-allows role p = (
    select-All (allows wide role) all_permissions,
    λ h.
        select-Memᴰ (allows wide role)
          (unfold allows in permitted-Memᴰ (normalize_role wide role) p h) h,
  )
