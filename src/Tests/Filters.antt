-- ===== src/Tests/Filters.antt =====
-- The compiled filters at concrete inputs.
use repo_karta.Common.Text.{
  codes, cons_right, has_prefix, is_white, lower_rune, text_eq, to_lower, trim_left, trim_right,
  trim_space,
}
use repo_karta.Common.{ℕ, ◌≡◌, refl, true, false, List, [], ◌∷◌, some}
use repo_karta.Filters.Accepts.{asked, compile_query_filters-asked}
use repo_karta.Filters.Compile.{Compiled, add_filter, and_then, done, gather}
use repo_karta.Filters.Resolve.{
  Listed, after_listing, compile_query_filters, list_if_wanted, names, only, parse_digits,
  parse_int, parse_signed, repository_filter_ids, repository_ids, resolve, restrict, revised,
  revision_filter_ids, revision_ids, short_ids, some_indexed,
}
use repo_karta.Filters.Gathered.{is_repository, is_revision, negatives, positives}
use repo_karta.Filters.Ids.{accept, concat, intersect_optional_ids, union_from, union_ids}
use repo_karta.Query.Fields.{repository, revision, language}
use repo_karta.Query.Parse.{Filter}

abbrev same : ℕ → ℕ
same c = c

abbrev rows : List Listed
rows =
    record { id = 1; name = codes "checkout"; indexed_commit = codes "abc123" }
    ∷ record { id = 2; name = codes "Billing"; indexed_commit = codes "abd456" }
    ∷ record { id = 3; name = codes "search"; indexed_commit = codes "" }
    ∷ []

-- `rev:AB -repo:billing lang:go`
abbrev filters : List Filter
filters =
    record { field = revision; value = codes "AB"; negative = false }
    ∷ record { field = repository; value = codes "billing"; negative = true }
    ∷ record { field = language; value = codes "go"; negative = false }
    ∷ []

abbrev compiled : Compiled
compiled = record {
  include_text = [];
  exclude_text = [];
  languages = codes "go" ∷ [];
  exclude_languages = [];
  paths = [];
  exclude_paths = [];
  files = [];
  exclude_files = [];
  owners = [];
  exclude_owners = [];
  repository_allow = 1 ∷ 2 ∷ [];
  repository_limited = true;
  repository_deny = 2 ∷ [];
}

compile-filters : compile_query_filters same same (some rows) filters ≡ done compiled
unfolding compile_query_filters gather add_filter and_then list_if_wanted after_listing resolve
    repository_filter_ids repository_ids only names parse_int parse_signed parse_digits
    revision_filter_ids revision_ids some_indexed short_ids revised restrict union_ids union_from
    concat intersect_optional_ids to_lower lower_rune trim_space trim_left trim_right cons_right
    is_white text_eq has_prefix
compile-filters = refl

compile_query_filters-asked_example :
    accept compiled.repository_deny compiled.repository_allow compiled.repository_limited 1
    ≡ asked same same rows
        (positives is_repository filters)
        (negatives is_repository filters)
        (positives is_revision filters)
        (negatives is_revision filters)
        1
compile_query_filters-asked_example =
    compile_query_filters-asked same same rows filters compiled 1 compile-filters
