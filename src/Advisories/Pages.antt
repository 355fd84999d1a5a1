-- ===== src/Advisories/Pages.antt =====
-- The pages of the findings: `normalizeAdvisoryOptions` and the end of `buildFindings` in
-- internal/dependencies/advisories.go. An integer is its sign, true below 0, with its absolute value.
use repo_karta.Common.{
  ℕ, zero, suc, ◌+◌, ◌-◌, ◌≤◌, Bool, true, false, ◌||◌, List, [], ◌++◌, length, take, drop, ltb,
  ◌==◌, if◌then◌else◌,
}

abbrev pub default_finding_limit : ℕ
default_finding_limit = 100

abbrev pub maximum_finding_limit : ℕ
maximum_finding_limit = 500

abbrev pub lesser : ℕ → ℕ → ℕ
lesser a b = if ltb a b then a else b

-- `normalizeAdvisoryOptions`, of the offset and of the limit
unfoldable pub normal_offset : Bool × ℕ → ℕ
normal_offset (negative, n) = if negative then 0 else n

unfoldable pub normal_limit : Bool × ℕ → ℕ
normal_limit (negative, n) =
    lesser (if negative || n == 0 then default_finding_limit else n) maximum_finding_limit

-- The page of the filtered findings, and whether there are more.
unfoldable pub findings_page : {A : Type 0} → List A → Bool × ℕ → Bool × ℕ → List A × Bool
findings_page filtered offset limit =
    let start = lesser (normal_offset offset) (length filtered) in
    let end = lesser (start + normal_limit limit) (length filtered) in
    (take (end - start) (drop start filtered), ltb end (length filtered))

-- A client that asks for the next page as long as there are more.
abbrev pub followed : {A : Type 0} → ℕ → List A → Bool × ℕ → ℕ → List A
followed zero filtered limit offset = []
followed (suc fuel) filtered limit offset =
    let rest = followed fuel filtered limit (offset + normal_limit limit) in
    let (page, more) = findings_page filtered (false, offset) limit in
    page ++ (if more then rest else [])

-- Where a page begins for an offset.
pub data IsStart : Bool × ℕ → ℕ → Type 0 where
  there : (k : ℕ) → IsStart (false, k) k
  below_zero : (k : ℕ) → IsStart (true, k) 0

-- How many findings a page has for a limit, at most.
pub data IsLimit : Bool × ℕ → ℕ → Type 0 where
  asked : (k : ℕ) → 1 ≤ k → k ≤ 500 → IsLimit (false, k) k
  too_large : (k : ℕ) → 500 ≤ k → IsLimit (false, k) 500
  not_asked : IsLimit (false, 0) 100
  negative_limit : (k : ℕ) → IsLimit (true, k) 100
