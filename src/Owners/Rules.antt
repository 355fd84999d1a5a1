-- ===== src/Owners/Rules.antt =====
-- `parseCODEOWNERS`, `ResolveOwners` and `codeownersPath` of internal/graph/codeowners.go. The
-- evidence that the caller makes for line 1 is an argument.
use repo_karta.Common.Equal.{is_blank}
use repo_karta.Common.Text.{Text, split, codes, cut, has_prefix, is_white, trim_prefix, trim_space}
use repo_karta.Common.{
  ℕ, suc, Bool, true, false, ◌&&◌, ◌||◌, not, Option, none, some, List, [], ◌∷◌, ◌++◌, any, ◌==◌,
  if◌then◌else◌,
}
use repo_karta.Owners.Patterns.{codeowners_pattern_matches, replace_pair}

-- `Evidence` of internal/graph/graph.go
pub record Evidence : Type 0 where
  pub repository_id : ℕ
  pub repository : Text
  pub revision : Text
  pub path : Text
  pub line : ℕ
  pub label : Text
  pub url : Text

pub record OwnershipRule : Type 0 where
  pub pattern : Text
  pub owners : List Text
  pub unresolved_owners : List Text
  pub line : ℕ

pub record OwnershipIndex : Type 0 where
  pub repository_id : ℕ
  pub repository : Text
  pub revision : Text
  pub available : Bool
  pub path : Text
  pub rules : List OwnershipRule
  pub evidence : Evidence

-- The texts of `State`; `unset` is the empty one.
pub data OwnerState : Type 0 where
  unset unavailable unowned unresolved_owner owned : OwnerState

pub record OwnershipMatch : Type 0 where
  pub state : OwnerState
  pub owners : List Text
  pub unresolved_owners : List Text
  pub pattern : Text
  pub evidence : Evidence

abbrev pub no_evidence : Evidence
no_evidence = record {
  repository_id = 0;
  repository = [];
  revision = [];
  path = [];
  line = 0;
  label = [];
  url = [];
}

-- `strings.Fields`, with the word that has been begun
unfoldable pub fields_from : Text → Text → List Text
fields_from word [] = if is_blank word then [] else word ∷ []
fields_from word (c ∷ s) = elim (is_white c) [
  | true ↦ if is_blank word then fields_from [] s else word ∷ fields_from [] s
  | false ↦ fields_from (word ++ c ∷ []) s
]

unfoldable pub fields : Text → List Text
unfolding fields_from
fields s = fields_from [] s

abbrev pub is_gap : ℕ → Bool
is_gap c = c == 32 || c == 9

-- `len(owner) > 1`
abbrev pub is_longer : Text → Bool
is_longer [] = false
is_longer (c ∷ s) = not (is_blank s)

abbrev pub is_address : Text × Text × Bool → Bool
is_address (local, domain, found) = found && (not (is_blank local) && any (λ c. c == b'.') domain)

unfoldable pub valid_codeowner : Text → Bool
unfolding has_prefix cut
valid_codeowner owner =
    if has_prefix owner (b'@' ∷ [])
    then is_longer owner && not (any is_gap owner)
    else is_address (cut b'@' owner)

-- The body of the loop over the owners of a line.
unfoldable pub add_owner : OwnershipRule → Text → OwnershipRule
unfolding valid_codeowner trim_space
add_owner rule name =
    let owner = trim_space name in
    if valid_codeowner owner
    then record rule { owners = rule.owners ++ owner ∷ [] }
    else if not (is_blank owner)
    then record rule { unresolved_owners = rule.unresolved_owners ++ owner ∷ [] }
    else rule

unfoldable pub add_owners : OwnershipRule → List Text → OwnershipRule
unfolding add_owner
add_owners rule [] = rule
add_owners rule (name ∷ names) = add_owners (add_owner rule name) names

abbrev pub empty_rule : Text → ℕ → OwnershipRule
empty_rule p n = record { pattern = p; owners = []; unresolved_owners = []; line = n }

-- The rule of a line's words, if there are two.
unfoldable pub rule_of : ℕ → List Text → Option OwnershipRule
unfolding add_owners
rule_of n [] = none
rule_of n (p ∷ []) = none
rule_of n (p ∷ name ∷ names) = some (add_owners (empty_rule p n) (name ∷ names))

-- The body of the loop over the lines.
unfoldable pub line_rule : ℕ → Text → Option OwnershipRule
unfolding rule_of fields
line_rule n raw =
    let line = trim_space raw in
    if is_blank line || has_prefix line (b'#' ∷ []) then none else rule_of n (fields line)

unfoldable pub add_rule : Option OwnershipRule → List OwnershipRule → List OwnershipRule
add_rule none rules = rules
add_rule (some r) rules = r ∷ rules

-- The loop over the lines, the first of them with the number `n`.
unfoldable pub line_rules : ℕ → List Text → List OwnershipRule
unfolding line_rule add_rule
line_rules n [] = []
line_rules n (raw ∷ lines) = add_rule (line_rule n raw) (line_rules (suc n) lines)

abbrev pub content_lines : Text → List Text
content_lines content = split 10 (replace_pair 13 10 10 content)

unfoldable pub parse_codeowners : ℕ → Text → Text → Text → Text → Evidence → OwnershipIndex
unfolding line_rules split replace_pair
parse_codeowners id name commit file_path content first = record {
  repository_id = id;
  repository = name;
  revision = commit;
  available = true;
  path = file_path;
  rules = line_rules 1 (content_lines content);
  evidence = first;
}

-- `strings.ReplaceAll` of a byte by another
unfoldable pub replace_byte : ℕ → ℕ → Text → Text
replace_byte a b [] = []
replace_byte a b (c ∷ s) = (if c == a then b else c) ∷ replace_byte a b s

unfoldable pub relative_path : Text → Text
unfolding replace_byte
relative_path file_path = trim_prefix b'/' (replace_byte 92 b'/' (trim_space file_path))

-- The loop over the rules, with what has matched so far.
unfoldable pub last_match : Text → List OwnershipRule → Option OwnershipRule → Option OwnershipRule
last_match file_path [] matched = matched
last_match file_path (r ∷ rules) matched =
    last_match file_path rules
      (if codeowners_pattern_matches r.pattern file_path then some r else matched)

abbrev pub without_owner : OwnerState → OwnershipMatch
without_owner s = record {
  state = s;
  owners = [];
  unresolved_owners = [];
  pattern = [];
  evidence = no_evidence;
}

abbrev pub state_of : List Text → List Text → OwnerState
state_of [] unresolved = unresolved_owner
state_of (o ∷ os) [] = owned
state_of (o ∷ os) (u ∷ us) = unresolved_owner

unfoldable pub match_of : Evidence → Option OwnershipRule → OwnershipMatch
match_of first none = without_owner unowned
match_of first (some r) = record {
  state = state_of r.owners r.unresolved_owners;
  owners = r.owners;
  unresolved_owners = r.unresolved_owners;
  pattern = r.pattern;
  evidence = record first { line = r.line; label = codes "CODEOWNERS " ++ r.pattern };
}

unfoldable pub resolve_owners : OwnershipIndex → Text → OwnershipMatch
unfolding relative_path last_match match_of
resolve_owners index file_path =
    if not index.available
    then without_owner unavailable
    else match_of index.evidence (last_match (relative_path file_path) index.rules none)
