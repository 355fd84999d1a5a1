-- ===== src/Tests/Findings.antt =====
-- The counters of `buildFindings` at concrete inputs.
use repo_karta.Advisories.Events.{version_system}
use repo_karta.Advisories.Findings.{
  Declaration, advisory_package_key, append_gap, check_declarations, count_declarations, count_in,
  count_uncovered, count_verdict, dashed, drop_exact, drop_space, final_state, in_osv, in_snapshot,
  is_range, match_version, matched, no_counts, normalize_package, of_version, osv_ecosystem,
  partial, ready, snapshot_state, verdict,
}
use repo_karta.Advisories.Honest.{IsHonest, check_declarations-IsHonest}
use repo_karta.Advisories.Pages.{findings_page, normal_limit, normal_offset}
use repo_karta.Common.Equal.{has_text}
use repo_karta.Common.Text.{
  Text, codes, lower_rune, rune, text_eq, to_lower, trim_left, trim_right, trim_space,
}
use repo_karta.Common.{ℕ, ◌≡◌, refl, true, false, some, List, [], ◌∷◌, length}

abbrev same : ℕ → ℕ
same c = c

abbrev declaration : Text → Text → Text → Declaration
declaration ecosystem name declared = record {
  ecosystem = ecosystem;
  package_name = name;
  declared = declared;
  resolved = [];
  manifest_path = codes "m";
}

-- One is in the snapshot, one not, one names a range, and one is of another ecosystem.
abbrev declarations : List Declaration
declarations =
    declaration (codes "PyPI") (codes "A_b.c") (codes "== 1.0")
    ∷ declaration (codes "npm") (codes "b") (codes "=2")
    ∷ declaration (codes "npm") (codes "c") (codes "^3")
    ∷ declaration (codes "gradle") (codes "d") (codes "4")
    ∷ []

abbrev covered : List Text
unfolding advisory_package_key normalize_package dashed lower_rune rune text_eq to_lower trim_left
    trim_right trim_space
covered = advisory_package_key same same (codes "pypi") (codes "a-b-c") ∷ []

match_version-exact :
    match_version (declaration (codes "npm") (codes "b") (codes "=\t2"))
    ≡ some (codes "2", codes "declared", codes "lower")
unfolding match_version drop_exact drop_space is_range trim_left trim_right trim_space
match_version-exact = refl

declarations-counted :
    let (r, state) = check_declarations same same (λ _ _. true) false false covered declarations in
    (r.checked_count ≡ 1)
    × (r.not_in_snapshot_count ≡ 1)
    × (r.no_version_count ≡ 1)
    × (length r.gaps ≡ 3)
    × (state ≡ partial)
unfolding check_declarations count_declarations verdict in_osv matched of_version in_snapshot
    count_verdict count_uncovered count_in append_gap no_counts final_state snapshot_state
    match_version drop_exact drop_space is_range osv_ecosystem version_system advisory_package_key
    normalize_package dashed has_text covered lower_rune rune text_eq to_lower trim_left trim_right
    trim_space
declarations-counted = (refl, refl, refl, refl, refl)

check_declarations-IsHonest_example :
    let (r, state) = check_declarations same same (λ _ _. true) false false covered declarations in
    IsHonest (length declarations) r × (state ≡ ready → r.checked_count ≡ length declarations)
check_declarations-IsHonest_example =
    check_declarations-IsHonest same same (λ _ _. true) false false covered declarations

-- Three findings, in pages of two.
abbrev findings : List ℕ
findings = 7 ∷ 8 ∷ 9 ∷ []

findings-last : findings_page findings (false, 2) (false, 2) ≡ (9 ∷ [], false)
unfolding findings_page normal_offset normal_limit
findings-last = refl
