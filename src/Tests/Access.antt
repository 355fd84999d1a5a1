-- ===== src/Tests/Access.antt =====
-- Package access at concrete inputs.
use repo_karta.Access.Normal.{AllDistinct, StandsFor, normalize_values_lem}
use repo_karta.Access.Viewer.{
  has_key, identity_id, identity_of, is_empty, normalize_from, normalize_values, with_viewer,
}
use repo_karta.Common.Text.{Text, codes, text_eq, to_lower, trim_space}
use repo_karta.Common.{ℕ, ◌≡◌, refl, false, List, [], ◌∷◌, All}

abbrev same : ℕ → ℕ
same c = c

abbrev groups : List Text
groups = codes " Developers" ∷ codes "developers" ∷ codes "" ∷ codes "Ops" ∷ codes "OPS " ∷ []

with_viewer-groups :
    with_viewer same (record { id = codes " oidc:42 "; groups = groups; admin = false })
    ≡ record { id = codes "oidc:42"; groups = codes "Developers" ∷ codes "Ops" ∷ []; admin = false }
unfolding with_viewer normalize_values normalize_from has_key trim_space to_lower text_eq
with_viewer-groups = refl

identity_id-empty : identity_id (codes " ") (codes "") ≡ codes "authenticated:anonymous"
unfolding identity_id identity_of trim_space text_eq
identity_id-empty = refl

normalize_values_lem_example :
    All (λ v. is_empty v ≡ false) (normalize_values same groups)
    × AllDistinct same (normalize_values same groups)
    × All (StandsFor same (normalize_values same groups)) groups
normalize_values_lem_example = normalize_values_lem same groups
