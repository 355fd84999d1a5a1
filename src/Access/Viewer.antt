-- ===== src/Access/Viewer.antt =====
-- `Viewer`, `normalizeValues` and `IdentityID` of internal/access/access.go.
use repo_karta.Common.Text.{Text, codes, text_eq, trim_space, to_lower}
use repo_karta.Common.{ℕ, Bool, true, false, ◌&&◌, List, [], ◌∷◌, ◌++◌, any, if◌then◌else◌}

pub record Viewer : Type 0 where
  pub id : Text
  pub groups : List Text
  pub admin : Bool

abbrev pub is_empty : Text → Bool
is_empty [] = true
is_empty (_ ∷ _) = false

-- Whether a key is in `seen`, the keys of the values kept so far.
unfoldable pub has_key : Text → List Text → Bool
has_key key = any (text_eq key)

module _ (wide : ℕ → ℕ) where
  -- The loop of `normalizeValues`, over `seen` and `output`.
  unfoldable pub normalize_from : List Text → List Text → List Text → List Text
  normalize_from seen output [] = output
  normalize_from seen output (raw ∷ values) =
      let value = trim_space raw in
      let key = to_lower wide value in
      let skip = normalize_from seen output values in
      let keep = normalize_from (key ∷ seen) (output ++ value ∷ []) values in
      if is_empty value then skip else if has_key key seen then skip else keep

  -- `normalizeValues`
  unfoldable pub normalize_values : List Text → List Text
  unfolding normalize_from
  normalize_values values = normalize_from [] [] values

  -- The viewer that `WithViewer` attaches.
  unfoldable pub with_viewer : Viewer → Viewer
  unfolding normalize_values
  with_viewer viewer = record viewer {
    id = trim_space viewer.id;
    groups = normalize_values viewer.groups;
  }

-- `IdentityID` on the trimmed provider and identity
unfoldable pub identity_of : Text → Text → Text
identity_of provider identity =
    if text_eq provider (codes "local") && text_eq identity (codes "admin")
    then codes "local:admin"
    else (if is_empty provider then codes "authenticated" else provider)
      ++ (b':' ∷ (if is_empty identity then codes "anonymous" else identity))

-- `IdentityID`
unfoldable pub identity_id : Text → Text → Text
unfolding identity_of
identity_id provider identity = identity_of (trim_space provider) (trim_space identity)
