-- ===== src/Query/Fields.antt =====
-- The field names of internal/querylang/query.go and the table of their aliases.
use repo_karta.Common.Text.{Text, codes, text_eq}
use repo_karta.Common.{Option, none, some, List, [], ◌∷◌, if◌then◌else◌}

-- The constants FieldContent … FieldTo.
pub data Field : Type 0 where
  content repository revision language path file symbol_kind result_type owner : Field
  package_name type_name method member full_name match_mode case_mode : Field
  author message added removed after before branch from to : Field

pub Field-discrete : Discrete Field
Field-discrete = hlevel

-- The value of each constant.
unfoldable pub field_name : Field → Text
field_name content = codes "content"
field_name repository = codes "repository"
field_name revision = codes "revision"
field_name language = codes "language"
field_name path = codes "path"
field_name file = codes "file"
field_name symbol_kind = codes "symbol_kind"
field_name result_type = codes "result_type"
field_name owner = codes "owner"
field_name package_name = codes "package"
field_name type_name = codes "type_name"
field_name method = codes "method"
field_name member = codes "member"
field_name full_name = codes "full_name"
field_name match_mode = codes "match"
field_name case_mode = codes "case"
field_name author = codes "author"
field_name message = codes "message"
field_name added = codes "added"
field_name removed = codes "removed"
field_name after = codes "after"
field_name before = codes "before"
field_name branch = codes "branch"
field_name from = codes "from"
field_name to = codes "to"

abbrev aliases : List (Text × Field)
aliases =
    (codes "content", content)
    ∷ (codes "repo", repository)
    ∷ (codes "repository", repository)
    ∷ (codes "rev", revision)
    ∷ (codes "revision", revision)
    ∷ (codes "lang", language)
    ∷ (codes "language", language)
    ∷ (codes "path", path)
    ∷ (codes "file", file)
    ∷ (codes "filename", file)
    ∷ (codes "kind", symbol_kind)
    ∷ (codes "symbol-kind", symbol_kind)
    ∷ (codes "symbol_kind", symbol_kind)
    ∷ (codes "type", result_type)
    ∷ (codes "result-type", result_type)
    ∷ (codes "result_type", result_type)
    ∷ (codes "owner", owner)
    ∷ (codes "package", package_name)
    ∷ (codes "pkg", package_name)
    ∷ (codes "type-name", type_name)
    ∷ (codes "type_name", type_name)
    ∷ (codes "method", method)
    ∷ (codes "member", member)
    ∷ (codes "full-name", full_name)
    ∷ (codes "full_name", full_name)
    ∷ (codes "match", match_mode)
    ∷ (codes "case", case_mode)
    ∷ (codes "author", author)
    ∷ (codes "message", message)
    ∷ (codes "added", added)
    ∷ (codes "removed", removed)
    ∷ (codes "after", after)
    ∷ (codes "date-from", after)
    ∷ (codes "date_from", after)
    ∷ (codes "before", before)
    ∷ (codes "date-to", before)
    ∷ (codes "date_to", before)
    ∷ (codes "branch", branch)
    ∷ (codes "from", from)
    ∷ (codes "to", to)
    ∷ []

lookup_text : Text → List (Text × Field) → Option Field
lookup_text key [] = none
lookup_text key ((name, f) ∷ rest) = if text_eq key name then some f else lookup_text key rest

-- `fieldAliases[key]`
unfoldable pub field_aliases : Text → Option Field
unfolding lookup_text text_eq
field_aliases key = lookup_text key aliases
