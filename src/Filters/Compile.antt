-- ===== src/Filters/Compile.antt =====
-- The loop over the filters in `compileQueryFilters` (internal/codeintel/query_language.go), and its
-- errors as values.
use repo_karta.Common.Text.{Text}
use repo_karta.Common.{ℕ, Bool, List, [], ◌∷◌, ◌++◌, if◌then◌else◌}
use repo_karta.Query.Fields.{
  Field, content, repository, revision, language, path, file, symbol_kind, result_type, owner,
}
use repo_karta.Query.Parse.{Filter}

pub data FilterError : Type 0 where
  symbol_kind_alone : FilterError
  unsupported_field : Field → FilterError
  listing_failed : FilterError
  not_unique not_indexed : Text → FilterError

pub data Checked {ℓ} (A : Type ℓ) : Type ℓ where
  done : A → Checked A
  failed : FilterError → Checked A

unfoldable pub and_then {ℓ κ} : {A : Type ℓ} {B : Type κ} → Checked A → (A → Checked B) → Checked B
and_then (failed e) f = failed e
and_then (done a) f = f a

-- `compiledQueryFilters`
pub record Compiled : Type 0 where
  pub include_text : List Text
  pub exclude_text : List Text
  pub languages : List Text
  pub exclude_languages : List Text
  pub paths : List Text
  pub exclude_paths : List Text
  pub files : List Text
  pub exclude_files : List Text
  pub owners : List Text
  pub exclude_owners : List Text
  pub repository_allow : List ℕ
  pub repository_limited : Bool
  pub repository_deny : List ℕ

-- The four local lists.
pub record Wanted : Type 0 where
  pub positive_repositories : List Text
  pub negative_repositories : List Text
  pub positive_revisions : List Text
  pub negative_revisions : List Text

-- What `target` does to its two lists.
abbrev pub to_positive : Filter → List Text → List Text
to_positive f l = if f.negative then l else l ++ f.value ∷ []

abbrev pub to_negative : Filter → List Text → List Text
to_negative f l = if f.negative then l ++ f.value ∷ [] else l

-- The switch on the field.
unfoldable pub add_filter : Filter → Field → Compiled × Wanted → Checked (Compiled × Wanted)
add_filter f content (c, w) = done (
  record c {
    include_text = to_positive f c.include_text;
    exclude_text = to_negative f c.exclude_text;
  },
  w,
)
add_filter f repository (c, w) = done (
  c,
  record w {
    positive_repositories = to_positive f w.positive_repositories;
    negative_repositories = to_negative f w.negative_repositories;
  },
)
add_filter f revision (c, w) = done (
  c,
  record w {
    positive_revisions = to_positive f w.positive_revisions;
    negative_revisions = to_negative f w.negative_revisions;
  },
)
add_filter f language (c, w) = done (
  record c {
    languages = to_positive f c.languages;
    exclude_languages = to_negative f c.exclude_languages;
  },
  w,
)
add_filter f path (c, w) =
    done
      (record c { paths = to_positive f c.paths; exclude_paths = to_negative f c.exclude_paths }, w)
add_filter f file (c, w) =
    done
      (record c { files = to_positive f c.files; exclude_files = to_negative f c.exclude_files }, w)
add_filter f result_type s = done s
add_filter f symbol_kind s = failed symbol_kind_alone
add_filter f owner (c, w) = done (
  record c { owners = to_positive f c.owners; exclude_owners = to_negative f c.exclude_owners },
  w,
)
add_filter f other s = failed (unsupported_field other)

-- The loop over the filters.
unfoldable pub gather : List Filter → Compiled × Wanted → Checked (Compiled × Wanted)
gather [] s = done s
gather (f ∷ fs) s = and_then (add_filter f f.field s) (gather fs)
