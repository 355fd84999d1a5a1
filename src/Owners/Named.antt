-- ===== src/Owners/Named.antt =====
-- From the text of a CODEOWNERS file to the owners of a path: `parseCODEOWNERS`, then
-- `ResolveOwners`.
use repo_karta.Common.Text.{Text}
use repo_karta.Common.{ℕ, ◌+◌, List, ◌∷◌, ◌++◌, length, All, ◌≡◌}
use repo_karta.Owners.Last.{Matches, Misses, Says}
use repo_karta.Owners.Parsed.{Declares, Parsed}
use repo_karta.Owners.Rules.{OwnershipIndex, OwnershipMatch, OwnershipRule, unowned, without_owner}

-- A line declares no rule that matches the path, whatever its number.
abbrev pub Silent : Text → Text → Type 0
Silent s raw = (n : ℕ) (r : OwnershipRule) → Declares n raw r → Misses s r

-- The last line that declares a rule for the path, and that rule.
pub record LastLine (s : Text) (n : ℕ) (lines : List Text) (r : OwnershipRule) : Type 0 where
  pub before : List Text
  pub raw : Text
  pub after : List Text
  pub split : lines ≡ before ++ raw ∷ after
  pub declares : Declares (n + length before) raw r
  pub matching : Matches s r
  pub silent : All (Silent s) after

-- What a CODEOWNERS file says of a path.
pub data Tells (index : OwnershipIndex) (s : Text) (lines : List Text) (m : OwnershipMatch)
    : Type 0 where
  nobody : All (Silent s) lines → m ≡ without_owner unowned → Tells index s lines m
  by_line : (r : OwnershipRule) → LastLine s 1 lines r → Says index r m → Tells index s lines m
