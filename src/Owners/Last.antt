-- ===== src/Owners/Last.antt =====
-- `ResolveOwners`: the last rule that matches decides.
use repo_karta.Common.Text.{Text}
use repo_karta.Common.{
  Bool, true, false, not, Option, none, some, List, [], ◌∷◌, ◌++◌, All, ◌≡◌, ◌≢◌, ◌↔◌, ◌⊎◌, inl,
  inr, refl, ap, arith, if_rule,
}
use repo_karta.Owners.Patterns.{codeowners_pattern_matches}
use repo_karta.Owners.Rules.{
  Evidence, OwnershipIndex, OwnershipMatch, OwnershipRule, last_match, match_of, owned, unavailable,
  unowned, unresolved_owner, relative_path, resolve_owners, state_of, without_owner,
}

abbrev pub Matches : Text → OwnershipRule → Type 0
Matches s r = codeowners_pattern_matches r.pattern s ≡ true

abbrev pub Misses : Text → OwnershipRule → Type 0
Misses s r = codeowners_pattern_matches r.pattern s ≡ false

-- A rule is the last of a list that matches.
abbrev pub IsLast : Text → List OwnershipRule → OwnershipRule → Type 0
IsLast s rules r =
    (before : List OwnershipRule) × (after : List OwnershipRule) × (rules ≡ before ++ r ∷ after)
    × Matches s r
    × All (Misses s) after

-- What the loop returns.
abbrev Found : Text → List OwnershipRule → Option OwnershipRule → Option OwnershipRule → Type 0
Found s rules matched o =
    ((o ≡ matched) × All (Misses s) rules) ⊎ ((r : OwnershipRule) × (o ≡ some r) × IsLast s rules r)

last_match-Found :
    (s : Text) (rules : List OwnershipRule) (matched : Option OwnershipRule)
    → Found s rules matched (last_match s rules matched)
unfolding last_match
last_match-Found s [] matched = inl (refl, tt)
last_match-Found s (r ∷ rules) matched =
    if_rule (λ o. Found s (r ∷ rules) matched (last_match s rules o))
      (codeowners_pattern_matches r.pattern s) (some r) matched
      (λ e. here e (last_match-Found s rules (some r)))
      (λ e. past e (last_match-Found s rules matched))
  where
    longer : (q : OwnershipRule) → IsLast s rules q → IsLast s (r ∷ rules) q
    longer q (before, after, split, m, misses) =
        (r ∷ before, after, ap (λ l. r ∷ l) split, m, misses)

    here :
        Matches s r
        → Found s rules (some r) (last_match s rules (some r))
        → Found s (r ∷ rules) matched (last_match s rules (some r))
    here e (inl (same, misses)) = inr (r, same, ([], rules, refl, e, misses))
    here e (inr (q, f, l)) = inr (q, f, longer q l)

    past :
        Misses s r
        → Found s rules matched (last_match s rules matched)
        → Found s (r ∷ rules) matched (last_match s rules matched)
    past e (inl (same, misses)) = inl (same, (e, misses))
    past e (inr (q, f, l)) = inr (q, f, longer q l)

-- What a rule says: its owners, and the line that it stands in.
pub record Says (index : OwnershipIndex) (r : OwnershipRule) (m : OwnershipMatch) : Type 0 where
  pub owners : m.owners ≡ r.owners
  pub unresolved : m.unresolved_owners ≡ r.unresolved_owners
  pub pattern : m.pattern ≡ r.pattern
  pub line : m.evidence.line ≡ r.line
  pub file : m.evidence.path ≡ index.evidence.path
  pub decided : (m.state ≡ owned) ⊎ (m.state ≡ unresolved_owner)
  pub owned_if : (m.state ≡ owned) ↔ ((r.owners ≢ []) × (r.unresolved_owners ≡ []))

-- What `ResolveOwners` answers for a path.
pub data Answers (index : OwnershipIndex) (s : Text) (m : OwnershipMatch) : Type 0 where
  no_file : index.available ≡ false → m ≡ without_owner unavailable → Answers index s m
  no_rule :
      index.available ≡ true
      → All (Misses s) index.rules
      → m ≡ without_owner unowned
      → Answers index s m
  by_rule :
      index.available ≡ true
      → (r : OwnershipRule) → IsLast s index.rules r
      → Says index r m
      → Answers index s m

abbrev OwnedIf : List Text → List Text → Type 0
OwnedIf os us = (state_of os us ≡ owned) ↔ ((os ≢ []) × (us ≡ []))

state_of-OwnedIf : (os us : List Text) → OwnedIf os us
state_of-OwnedIf [] us = (λ h. absurd cc, λ h. absurd (h.0 refl))
state_of-OwnedIf (o ∷ os) [] = (λ h. (λ e. cc, refl), λ h. refl)
state_of-OwnedIf (o ∷ os) (u ∷ us) = (λ h. absurd cc, λ h. absurd (let e = h.1 in cc))

state_of-decided :
    (os us : List Text) → (state_of os us ≡ owned) ⊎ (state_of os us ≡ unresolved_owner)
state_of-decided [] us = inr refl
state_of-decided (o ∷ os) [] = inl refl
state_of-decided (o ∷ os) (u ∷ us) = inr refl

match_of-none : (e : Evidence) → match_of e none ≡ without_owner unowned
unfolding match_of
match_of-none e = refl

match_of-Says :
    (index : OwnershipIndex) (r : OwnershipRule) → Says index r (match_of index.evidence (some r))
unfolding match_of
match_of-Says index r = record {
  owners = refl;
  unresolved = refl;
  pattern = refl;
  line = refl;
  file = refl;
  decided = state_of-decided r.owners r.unresolved_owners;
  owned_if = state_of-OwnedIf r.owners r.unresolved_owners;
}

available-Answers :
    (index : OwnershipIndex) (s : Text) (o : Option OwnershipRule)
    → index.available ≡ true
    → Found s index.rules none o
    → Answers index s (match_of index.evidence o)
available-Answers index s o a (inl (e, misses)) =
    no_rule a misses (rw e (match_of-none index.evidence))
available-Answers index s o a (inr (r, e, l)) = by_rule a r l (rw e (match_of-Says index r))

not-true : (b : Bool) → not b ≡ true → b ≡ false
not-true b h = ground arith

not-false : (b : Bool) → not b ≡ false → b ≡ true
not-false b h = ground arith

-- ResolveOwners answers "unavailable" without a CODEOWNERS file and "unowned" if none of its
-- rules matches the path, which is taken with slashes and without one in front; else it answers
-- with the owners, the pattern and the line of the last rule that matches, as "owned" exactly if
-- that rule has owners and each of them is a name that can be one.
pub resolve_owners-Answers :
    (index : OwnershipIndex) (file_path : Text)
    → Answers index (relative_path file_path) (resolve_owners index file_path)
unfolding resolve_owners
resolve_owners-Answers index file_path =
    let s = relative_path file_path in
    if_rule (Answers index s) (not index.available) (without_owner unavailable)
      (match_of index.evidence (last_match s index.rules none))
      (λ h. no_file (not-true index.available h) refl)
      (λ h.
        available-Answers index s (last_match s index.rules none) (not-false index.available h)
          (last_match-Found s index.rules none))
