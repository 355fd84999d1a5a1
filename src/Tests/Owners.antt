-- ===== src/Tests/Owners.antt =====
-- A CODEOWNERS file and the owner filters at concrete inputs.
use repo_karta.Common.Text.{Text, codes, lower_rune, to_lower, trim_space}
use repo_karta.Common.{ℕ, ◌≡◌, refl, true, false, [], ◌∷◌, none}
use repo_karta.Owners.Filter.{SearchMatch, SearchResponse, ownership_filters, owner_matches}
use repo_karta.Owners.Patterns.{codeowners_pattern_matches}
use repo_karta.Owners.Places.{codeowners_path}
use repo_karta.Owners.Rules.{
  Evidence, OwnershipIndex, no_evidence, parse_codeowners, resolve_owners, unresolved_owner, unset,
}
use repo_karta.Query.Fields.{owner, language}

abbrev same : ℕ → ℕ
same c = c

abbrev file : Text
file = codes "* @platform\n/docs/ @writers\n/docs/private/* invalid-owner\n/docs/private/open\n"

abbrev at : Evidence
at = record no_evidence { path = codes "CODEOWNERS"; line = 1 }

index : OwnershipIndex
index = parse_codeowners 7 (codes "payments") (codes "abc123") (codes "CODEOWNERS") file at

owner_of_server :
    (resolve_owners index (codes "internal/server.go")).owners ≡ codes "@platform" ∷ []
unfolding index parse_codeowners resolve_owners codeowners_pattern_matches
owner_of_server = refl

line_of_guide : (resolve_owners index (codes "docs/guide.md")).evidence.line ≡ 2
unfolding index parse_codeowners resolve_owners codeowners_pattern_matches
line_of_guide = refl

state_of_plan : (resolve_owners index (codes "docs/private/plan.md")).state ≡ unresolved_owner
unfolding index parse_codeowners resolve_owners codeowners_pattern_matches
state_of_plan = refl

-- The fourth line has no owner, and does not count.
state_of_open : (resolve_owners index (codes "docs/private/open")).state ≡ unresolved_owner
unfolding index parse_codeowners resolve_owners codeowners_pattern_matches
state_of_open = refl

first_of_three :
    codeowners_path
      (codes "CODEOWNERS" ∷ codes "./.github/x/../CODEOWNERS" ∷ codes "docs/CODEOWNERS" ∷ [])
    ≡ codes ".github/CODEOWNERS"
unfolding codeowners_path
first_of_three = refl

star_stays : codeowners_pattern_matches (codes "docs/*") (codes "docs/a/b.md") ≡ false
unfolding codeowners_pattern_matches trim_space
star_stays = refl

name_anywhere : codeowners_pattern_matches (codes "*.md") (codes "docs/a/b.md") ≡ true
unfolding codeowners_pattern_matches trim_space
name_anywhere = refl

-- A name with a letter that is not ASCII is never matched.
no_umlaut : codeowners_pattern_matches (codes "/über.md") (codes "über.md") ≡ false
unfolding codeowners_pattern_matches trim_space
no_umlaut = refl

abbrev match_at : Text → SearchMatch
match_at p = record {
  repository_id = 7;
  repository = codes "payments";
  revision = codes "abc123";
  path = p;
  lines = codes "x" ∷ codes "y" ∷ [];
  owner_state = unset;
  owners = [];
  ownership = none;
}

abbrev response : SearchResponse
response = record {
  match_count = 4;
  matching_files = 2;
  estimated_total_files = 9;
  returned_files = 2;
  returned_items = 2;
  truncated = true;
  total_files_exact = false;
  warnings = [];
  matches = match_at (codes "internal/server.go") ∷ match_at (codes "docs/guide.md") ∷ [];
}

asked_owners :
    ownership_filters (
      record { field = owner; value = codes "@writers"; negative = false }
      ∷ record { field = language; value = codes "go"; negative = false }
      ∷ [])
    ≡ (codes "@writers" ∷ [], [])
unfolding ownership_filters
asked_owners = refl

matched_writers :
    owner_matches same same (resolve_owners index (codes "docs/guide.md")) (codes " @Writers")
    ≡ true
unfolding index parse_codeowners resolve_owners codeowners_pattern_matches owner_matches to_lower
    lower_rune
matched_writers = refl
