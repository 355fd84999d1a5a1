-- ===== src/Filters/Resolve.antt =====
-- `compileQueryFilters` of internal/codeintel/query_language.go. The listing of the repositories is
-- a parameter, none where it fails. `strings.EqualFold` compares the texts with each code point
-- replaced by one that stands for those that fold alike: `fold` is that table from 0x80 on.
use Prim.Native.Nat.{◌^◌}
use repo_karta.Common.Text.{Text, has_prefix, text_eq, to_lower, trim_space}
use repo_karta.Common.{
  ℕ, ◌+◌, ◌-◌, ◌*◌, ◌%◌, Bool, true, false, ◌&&◌, ◌||◌, not, Option, none, some, List, [], ◌∷◌,
  ◌++◌, select, ltb, leb, ◌==◌, if◌then◌else◌,
}
use repo_karta.Filters.Ids.{intersect_optional_ids, is_nil, union_ids}
use repo_karta.Query.Parse.{Filter}
use repo_karta.Filters.Compile.{
  Checked, Compiled, Wanted, and_then, done, failed, gather, listing_failed, not_indexed,
  not_unique,
}

-- The fields of `catalog.Repository` that the filters read.
pub record Listed : Type 0 where
  pub id : ℕ
  pub name : Text
  pub indexed_commit : Text

-- `strconv.ParseInt(value, 10, 64)`: whether the number is negative, and its absolute value.
unfoldable pub parse_digits : ℕ → Text → Option ℕ
parse_digits n [] = some n
parse_digits n (c ∷ s) =
    let rest = parse_digits (n * 10 + (c - b'0')) s in
    if leb b'0' c && leb c b'9' then rest else none

unfoldable pub parse_signed : Bool → ℕ → Text → Option (Bool × ℕ)
parse_signed negative limit [] = none
parse_signed negative limit (c ∷ s) = elim (parse_digits 0 (c ∷ s)) [
  | none ↦ none
  | some n ↦ if ltb n limit then some (negative, n) else none
]

unfoldable pub parse_int : Text → Option (Bool × ℕ)
parse_int [] = none
parse_int (c ∷ s) =
    if c == b'-'
    then parse_signed true (2 ^ 63 + 1) s
    else if c == b'+'
    then parse_signed false (2 ^ 63) s
    else parse_signed false (2 ^ 63) (c ∷ s)

-- `uint32(id)`
abbrev pub short_id : Listed → ℕ
short_id r = r.id % 2 ^ 32

unfoldable pub only : Text → List Listed → Checked ℕ
only value (r ∷ []) = done (short_id r)
only value _ = failed (not_unique value)

unfoldable pub short_ids : List Listed → List ℕ
short_ids [] = []
short_ids (r ∷ rows) = short_id r ∷ short_ids rows

unfoldable pub some_indexed : Text → List Listed → Checked (List ℕ)
some_indexed value [] = failed (not_indexed value)
some_indexed value (r ∷ rows) = done (short_ids (r ∷ rows))

-- The end of `compileQueryFilters`, with what it has resolved.
unfoldable pub restrict : Compiled → Wanted → List ℕ → List ℕ → List ℕ → List ℕ → Compiled
restrict c w repositories revisions no_repositories no_revisions = record c {
  repository_allow = intersect_optional_ids repositories revisions;
  repository_limited = not (is_nil w.positive_repositories) || not (is_nil w.positive_revisions);
  repository_deny = union_ids (no_repositories ∷ no_revisions ∷ []);
}

module _ (fold wide : ℕ → ℕ) where
  unfoldable pub names : Text → Option (Bool × ℕ) → Listed → Bool
  names value (some (negative, n)) r = r.id == n && (not negative || n == 0)
  names value none r = text_eq (to_lower fold r.name) (to_lower fold value)

  -- `matches`, for a trimmed value
  abbrev pub matching : List Listed → Text → List Listed
  matching rows value = select (names value (parse_int value)) rows

  -- The loop of `repositoryFilterIDs`.
  unfoldable pub repository_ids : List Listed → List Text → Checked (List ℕ)
  repository_ids rows [] = done []
  repository_ids rows (v ∷ values) =
      and_then (only (trim_space v) (matching rows (trim_space v)))
        (λ id. and_then (repository_ids rows values) (λ ids. done (id ∷ ids)))

  abbrev pub united : List ℕ → Checked (List ℕ)
  united ids = done (union_ids (ids ∷ []))

  -- `repositoryFilterIDs`; without values both are the empty list.
  unfoldable pub repository_filter_ids : List Listed → List Text → Checked (List ℕ)
  repository_filter_ids rows values = and_then (repository_ids rows values) united

  -- Whether a repository's indexed commit begins with a value that is trimmed and lower.
  unfoldable pub revised : Text → Listed → Bool
  revised value r =
      let commit = to_lower wide (trim_space r.indexed_commit) in
      not (is_nil value) && not (is_nil commit) && has_prefix commit value

  -- The loop of `revisionFilterIDs`.
  unfoldable pub revision_ids : List Listed → List Text → Checked (List ℕ)
  revision_ids rows [] = done []
  revision_ids rows (v ∷ values) =
      let value = to_lower wide (trim_space v) in
      and_then (some_indexed value (select (revised value) rows))
        (λ ids. and_then (revision_ids rows values) (λ more. done (ids ++ more)))

  -- `revisionFilterIDs`
  unfoldable pub revision_filter_ids : List Listed → List Text → Checked (List ℕ)
  revision_filter_ids rows values = and_then (revision_ids rows values) united

  -- What follows the listing, in the order of the source.
  unfoldable pub resolve : List Listed → Compiled × Wanted → Checked Compiled
  resolve rows (c, w) = and_then (repository_filter_ids rows w.positive_repositories) (λ a.
      and_then (revision_filter_ids rows w.positive_revisions) (λ b.
        and_then (repository_filter_ids rows w.negative_repositories) (λ d.
          and_then (revision_filter_ids rows w.negative_revisions)
            (λ e. done (restrict c w a b d e)))))

  unfoldable pub after_listing : Option (List Listed) → Compiled × Wanted → Checked Compiled
  after_listing none s = failed listing_failed
  after_listing (some rows) s = resolve rows s

  unfoldable pub list_if_wanted : Option (List Listed) → Compiled × Wanted → Checked Compiled
  list_if_wanted rows (c, w) =
      if is_nil w.positive_repositories
        && is_nil w.negative_repositories
        && is_nil w.positive_revisions
        && is_nil w.negative_revisions
      then done c
      else after_listing rows (c, w)

  -- `compileQueryFilters`
  unfoldable pub compile_query_filters : Option (List Listed) → List Filter → Checked Compiled
  compile_query_filters rows filters =
      and_then
        (gather filters (
          record {
            include_text = [];
            exclude_text = [];
            languages = [];
            exclude_languages = [];
            paths = [];
            exclude_paths = [];
            files = [];
            exclude_files = [];
            owners = [];
            exclude_owners = [];
            repository_allow = [];
            repository_limited = false;
            repository_deny = [];
          },
          record {
            positive_repositories = [];
            negative_repositories = [];
            positive_revisions = [];
            negative_revisions = [];
          },
        ))
        (list_if_wanted rows)
