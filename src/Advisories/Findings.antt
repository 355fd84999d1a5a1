-- ===== src/Advisories/Findings.antt =====
-- How `buildFindings` of internal/dependencies/advisories.go sorts the declarations. `parses` is the
-- Parse of deps.dev/util/semver for each system. The findings themselves are left out.
use repo_karta.Advisories.Events.{System, version_system}
use repo_karta.Common.Equal.{has_text, is_blank}
use repo_karta.Common.Text.{Text, codes, text_eq, to_lower, trim_space}
use repo_karta.Common.{
  ℕ, ◌+◌, Bool, true, false, ◌||◌, not, Option, none, some, List, [], ◌∷◌, ◌++◌, any, length, ltb,
  leb, ◌==◌, if◌then◌else◌,
}

-- `Declaration`, as far as it is read here
pub record Declaration : Type 0 where
  pub ecosystem : Text
  pub package_name : Text
  pub declared : Text
  pub resolved : Text
  pub manifest_path : Text

-- `exactVersionPrefix`, replaced by nothing
abbrev pub is_regexp_space : ℕ → Bool
is_regexp_space c = c == 9 || c == 10 || c == 12 || c == 13 || c == 32

unfoldable pub drop_space : Text → Text
drop_space [] = []
drop_space (c ∷ s) = if is_regexp_space c then drop_space s else c ∷ s

unfoldable pub drop_exact : Text → Text
drop_exact [] = []
drop_exact (c ∷ []) = if c == b'=' then [] else c ∷ []
drop_exact (c ∷ d ∷ s) =
    if c == b'=' then if d == b'=' then drop_space s else drop_space (d ∷ s) else c ∷ d ∷ s

-- `strings.ContainsAny` with the marks of a range
unfoldable pub is_range : Text → Bool
is_range s = any (λ c. any (λ mark. c == mark) (codes "<>^~*|,[]() \t\r\n")) s

-- `matchVersion`: the version, the basis and the confidence
unfoldable pub match_version : Declaration → Option (Text × Text × Text)
match_version d =
    let resolved = trim_space d.resolved in
    let declared = drop_exact (trim_space d.declared) in
    if not (is_blank resolved)
    then some (resolved, codes "resolved", codes "high")
    else if is_blank declared || is_range declared
    then none
    else some (declared, codes "declared", codes "lower")

-- What the regular expression of `normalizedPyPIPunctuation` is replaced by.
abbrev pub is_punctuation : ℕ → Bool
is_punctuation c = c == b'-' || c == b'_' || c == b'.'

unfoldable pub dashed : Bool → Text → Text
dashed behind [] = []
dashed behind (c ∷ s) =
    let inside = dashed true s in
    let outside = dashed false s in
    if is_punctuation c then (if behind then inside else b'-' ∷ inside) else c ∷ outside

-- What the loop does with a declaration.
pub data Verdict : Type 0 where
  uncovered no_version uncovered_version invalid not_in_snapshot : Verdict
  checked : Text → Verdict

-- The counters of the response; `uncovered_ecosystems` is the map, `gaps` the declarations that it
-- names as skipped, with the reason.
pub record Counts : Type 0 where
  pub checked_count : ℕ
  pub no_version_count : ℕ
  pub invalid_count : ℕ
  pub not_in_snapshot_count : ℕ
  pub uncovered_ecosystems : List (Text × ℕ)
  pub gaps : List (Declaration × Text)

-- `appendDependencyGap`
unfoldable pub append_gap : Declaration → Text → Counts → Counts
append_gap d reason r =
    if leb 100 (length r.gaps) then r else record r { gaps = r.gaps ++ (d, reason) ∷ [] }

-- An increment in a map of counters.
unfoldable pub count_in : Text → List (Text × ℕ) → List (Text × ℕ)
count_in key [] = (key, 1) ∷ []
count_in key ((k, n) ∷ rest) =
    let later = count_in key rest in if text_eq k key then (k, n + 1) ∷ rest else (k, n) ∷ later

unfoldable pub count_uncovered : Declaration → Counts → Counts
count_uncovered d r = record r {
  uncovered_ecosystems = count_in d.ecosystem r.uncovered_ecosystems;
}

unfoldable pub count_verdict : Declaration → Verdict → Counts → Counts
count_verdict d uncovered r = append_gap d (codes "uncovered_ecosystem") (count_uncovered d r)
count_verdict d no_version r =
    append_gap d (codes "no_resolvable_version")
      (record r { no_version_count = r.no_version_count + 1 })
count_verdict d uncovered_version r = count_uncovered d r
count_verdict d invalid r =
    append_gap d (codes "invalid_version") (record r { invalid_count = r.invalid_count + 1 })
count_verdict d not_in_snapshot r =
    append_gap d (codes "not_in_snapshot")
      (record r { not_in_snapshot_count = r.not_in_snapshot_count + 1 })
count_verdict d (checked version) r = record r { checked_count = r.checked_count + 1 }

-- The state of a check.
pub data CheckState : Type 0 where
  unavailable ready stale partial : CheckState

-- The state that a snapshot starts with.
unfoldable pub snapshot_state : Bool → Bool → CheckState
snapshot_state is_stale is_partial =
    if is_partial then partial else if is_stale then stale else ready

abbrev pub or_partial : CheckState → CheckState
or_partial ready = partial
or_partial s = s

abbrev pub is_empty_map : List (Text × ℕ) → Bool
is_empty_map [] = true
is_empty_map (k ∷ ks) = false

unfoldable pub final_state : Counts → CheckState → CheckState
final_state r s =
    if ltb 0 r.not_in_snapshot_count
      || ltb 0 r.no_version_count
      || ltb 0 r.invalid_count
      || not (is_empty_map r.uncovered_ecosystems)
    then or_partial s
    else s

unfoldable pub no_counts : Counts
no_counts = record {
  checked_count = 0;
  no_version_count = 0;
  invalid_count = 0;
  not_in_snapshot_count = 0;
  uncovered_ecosystems = [];
  gaps = [];
}

module _ (wide fold : ℕ → ℕ) where
  -- `osvEcosystem`
  unfoldable pub osv_ecosystem : Text → Option Text
  osv_ecosystem ecosystem =
      let e = to_lower wide (trim_space ecosystem) in
      if text_eq e (codes "maven")
      then some (codes "Maven")
      else if text_eq e (codes "npm")
      then some (codes "npm")
      else if text_eq e (codes "pypi")
      then some (codes "PyPI")
      else if text_eq e (codes "go")
      then some (codes "Go")
      else if text_eq e (codes "cargo")
      then some (codes "crates.io")
      else if text_eq e (codes "nuget")
      then some (codes "NuGet")
      else none

  -- `normalizePackage`
  unfoldable pub normalize_package : Text → Text → Text
  normalize_package ecosystem name =
      let e = to_lower wide ecosystem in
      let folds =
        text_eq e (codes "npm")
        || text_eq e (codes "pypi")
        || text_eq e (codes "cargo")
        || text_eq e (codes "nuget") in
      let trimmed = trim_space name in
      let folded = if folds then to_lower wide trimmed else trimmed in
      if text_eq (to_lower fold ecosystem) (to_lower fold (codes "pypi"))
      then dashed false folded
      else folded

  -- `advisoryPackageKey`
  unfoldable pub advisory_package_key : Text → Text → Text
  advisory_package_key ecosystem name =
      let e = to_lower wide (trim_space ecosystem) in e ++ 0 ∷ normalize_package e name

module _ (wide fold : ℕ → ℕ) (parses : System → Text → Bool) where
  unfoldable pub in_snapshot : List Text → Declaration → Text → Bool → Verdict
  in_snapshot covered d version false = invalid
  in_snapshot covered d version true =
      if has_text (advisory_package_key wide fold d.ecosystem d.package_name) covered
      then checked version
      else not_in_snapshot

  unfoldable pub of_version : List Text → Declaration → Option System → Text → Verdict
  of_version covered d none version = uncovered_version
  of_version covered d (some system) version = in_snapshot covered d version (parses system version)

  unfoldable pub matched : List Text → Declaration → Option (Text × Text × Text) → Verdict
  matched covered d none = no_version
  matched covered d (some (version, basis, confidence)) =
      of_version covered d (version_system wide d.ecosystem) version

  unfoldable pub in_osv : List Text → Declaration → Option Text → Verdict
  in_osv covered d none = uncovered
  in_osv covered d (some name) = matched covered d (match_version d)

  -- The guards of the loop, up to the counting.
  unfoldable pub verdict : List Text → Declaration → Verdict
  verdict covered d = in_osv covered d (osv_ecosystem wide fold d.ecosystem)

  -- The loop over the declarations.
  unfoldable pub count_declarations : List Text → List Declaration → Counts → Counts
  count_declarations covered [] r = r
  count_declarations covered (d ∷ ds) r =
      count_declarations covered ds (count_verdict d (verdict covered d) r)

  -- The counters and the state of `buildFindings`, with the keys of the snapshot's packages.
  unfoldable pub check_declarations :
      Bool → Bool → List Text → List Declaration → Counts × CheckState
  check_declarations is_stale is_partial covered ds =
      let r = count_declarations covered ds no_counts in
      (r, final_state r (snapshot_state is_stale is_partial))
