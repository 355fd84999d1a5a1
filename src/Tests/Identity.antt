-- ===== src/Tests/Identity.antt =====
-- Package identity at concrete inputs.
use repo_karta.Common.Text.{Text, codes, text_eq, to_lower, trim_space}
use repo_karta.Common.{ℕ, ◌≡◌, refl, false, [], ◌∷◌}
use repo_karta.Identity.Roles.{
  allows, export_artifacts, folded, generate_ai, manage_artifacts, normalize_role, permissions,
  permits, read_repositories, role_name, valid_role,
}

abbrev same : ℕ → ℕ
same c = c

abbrev padded : Text
padded = codes " Knowledge-Maintainer "

permissions-maintainer :
    permissions same padded
    ≡ read_repositories ∷ generate_ai ∷ manage_artifacts ∷ export_artifacts ∷ []
unfolding permissions allows permits normalize_role folded role_name to_lower trim_space text_eq
permissions-maintainer = refl

valid_role-unknown : valid_role same (codes "root") ≡ false
unfolding valid_role folded role_name to_lower trim_space text_eq
valid_role-unknown = refl
