-- ===== src/Advisories/Honest.antt =====
-- The counters of a check account for every declaration.
use repo_karta.Advisories.Events.{System, version_system}
use repo_karta.Advisories.Findings.{
  CheckState, Counts, Declaration, Verdict, advisory_package_key, append_gap, check_declarations,
  checked, count_declarations, count_in, count_uncovered, count_verdict, final_state, in_osv,
  in_snapshot, invalid, is_empty_map, matched, match_version, no_counts, no_version,
  not_in_snapshot, of_version, or_partial, osv_ecosystem, partial, ready, snapshot_state, stale,
  unavailable, uncovered, uncovered_version, verdict,
}
use repo_karta.Common.Equal.{has_text}
use repo_karta.Common.Text.{Text, codes, text_eq, to_lower, trim_space}
use repo_karta.Common.{
  ℕ, ◌+◌, ◌≡◌, ◌∙◌, refl, sym, ap, Bool, true, false, ◌||◌, not, Option, none, some, List, [], ◌∷◌,
  arith, length, length-append, leb, ltb, if◌then◌else◌, if_rule, Bool-cases, inl, inr,
}

-- The sum of a map of counters.
abbrev pub total : List (Text × ℕ) → ℕ
total [] = 0
total ((k, n) ∷ rest) = n + total rest

total-count_in : (key : Text) (m : List (Text × ℕ)) → total (count_in key m) ≡ total m + 1
unfolding count_in
total-count_in key [] = refl
total-count_in key ((k, n) ∷ rest) =
    if_rule (λ m. total m ≡ n + total rest + 1) (text_eq k key) ((k, n + 1) ∷ rest)
      ((k, n) ∷ count_in key rest) (λ _. omega arith) (λ _. omega (arith, total-count_in key rest))

-- The declarations that were not checked.
abbrev pub skipped : Counts → ℕ
skipped r =
    r.no_version_count + r.invalid_count + r.not_in_snapshot_count + total r.uncovered_ecosystems

abbrev pub at_most_100 : ℕ → ℕ
at_most_100 n = if leb 100 n then 100 else n

-- After `n` declarations the counters account for each, and the gaps name the first hundred.
pub record IsHonest (n : ℕ) (r : Counts) : Type 0 where
  pub accounted : r.checked_count + skipped r ≡ n
  pub named : length r.gaps ≡ at_most_100 (skipped r)

-- One more of them is skipped, and named.
append_gap-IsHonest :
    (n before : ℕ) (d : Declaration) (reason : Text) (r : Counts)
    → r.checked_count + skipped r ≡ n + 1
    → length r.gaps ≡ at_most_100 before
    → skipped r ≡ before + 1
    → IsHonest (n + 1) (append_gap d reason r)
unfolding append_gap
append_gap-IsHonest n before d reason r h g more =
    if_rule (IsHonest (n + 1)) (leb 100 (length r.gaps)) r _
      (λ full. record { accounted = h; named = ground arith })
      (λ room. record {
        accounted = h;
        named = length-append r.gaps ((d, reason) ∷ []) ∙ ground arith;
      })

abbrev IsNamed : Verdict → Type 0
IsNamed uncovered = Unit
IsNamed no_version = Unit
IsNamed uncovered_version = ⊥
IsNamed invalid = Unit
IsNamed not_in_snapshot = Unit
IsNamed (checked v) = Unit

count_verdict-IsHonest :
    (n : ℕ) (d : Declaration) (v : Verdict) (r : Counts)
    → IsNamed v
    → IsHonest n r
    → IsHonest (n + 1) (count_verdict d v r)
unfolding count_verdict count_uncovered
count_verdict-IsHonest n d uncovered r m h =
    let e = total-count_in d.ecosystem r.uncovered_ecosystems in
    append_gap-IsHonest n (skipped r) d _ (count_uncovered d r) (omega (arith, e, h.accounted))
      h.named (omega (arith, e))
count_verdict-IsHonest n d no_version r m h =
    append_gap-IsHonest n (skipped r) d _ (record r { no_version_count = r.no_version_count + 1 })
      (omega (arith, h.accounted)) h.named (omega arith)
count_verdict-IsHonest n d uncovered_version r m h = absurd m
count_verdict-IsHonest n d invalid r m h =
    append_gap-IsHonest n (skipped r) d _ (record r { invalid_count = r.invalid_count + 1 })
      (omega (arith, h.accounted)) h.named (omega arith)
count_verdict-IsHonest n d not_in_snapshot r m h =
    append_gap-IsHonest n (skipped r) d _
      (record r { not_in_snapshot_count = r.not_in_snapshot_count + 1 })
      (omega (arith, h.accounted)) h.named (omega arith)
count_verdict-IsHonest n d (checked v) r m h = record {
  accounted = omega (arith, h.accounted);
  named = h.named;
}

abbrev is_some : {A : Type 0} → Option A → Bool
is_some none = false
is_some (some a) = true

abbrev is_ready : CheckState → Bool
is_ready unavailable = false
is_ready ready = true
is_ready stale = false
is_ready partial = false

or_partial-ready : (s : CheckState) → is_ready (or_partial s) ≡ false
or_partial-ready unavailable = refl
or_partial-ready ready = refl
or_partial-ready stale = refl
or_partial-ready partial = refl

total_empty : (m : List (Text × ℕ)) → is_empty_map m ≡ true → total m ≡ 0
total_empty [] h = refl
total_empty (k ∷ ks) h = absurd cc

-- A state is ready only where nothing was skipped.
ready-nothing : (r : Counts) (s : CheckState) → final_state r s ≡ ready → skipped r ≡ 0
unfolding final_state
ready-nothing r s e =
    if_rule (λ o. o ≡ ready → skipped r ≡ 0)
      (ltb 0 r.not_in_snapshot_count
        || ltb 0 r.no_version_count
        || ltb 0 r.invalid_count
        || not (is_empty_map r.uncovered_ecosystems))
      (or_partial s) s (λ _ f. let never = sym (ap is_ready f) ∙ or_partial-ready s in absurd cc)
      (λ clean _.
        let none_uncovered = total_empty r.uncovered_ecosystems (ground arith) in ground arith)
      e

module _ (wide fold : ℕ → ℕ) (parses : System → Text → Bool) where
  -- The join covers an ecosystem exactly if its versions can be compared.
  covered_alike : (e : Text) → is_some (osv_ecosystem wide fold e) ≡ is_some (version_system wide e)
  unfolding osv_ecosystem version_system
  covered_alike e =
      let name = to_lower wide (trim_space e) in
      elim (Bool-cases (text_eq name (codes "maven"))) [
        | inl h ↦ rw h refl
        | inr h0 ↦ elim (Bool-cases (text_eq name (codes "npm"))) [
          | inl h ↦ rw (h0, h) refl
          | inr h1 ↦ elim (Bool-cases (text_eq name (codes "pypi"))) [
            | inl h ↦ rw (h0, h1, h) refl
            | inr h2 ↦ elim (Bool-cases (text_eq name (codes "go"))) [
              | inl h ↦ rw (h0, h1, h2, h) refl
              | inr h3 ↦ elim (Bool-cases (text_eq name (codes "cargo"))) [
                | inl h ↦ rw (h0, h1, h2, h3, h) refl
                | inr h4 ↦ elim (Bool-cases (text_eq name (codes "nuget"))) [
                  | inl h ↦ rw (h0, h1, h2, h3, h4, h) refl
                  | inr h5 ↦ rw (h0, h1, h2, h3, h4, h5) refl
                ]
              ]
            ]
          ]
        ]
      ]

  verdict-IsNamed :
      (covered : List Text) (d : Declaration) → IsNamed (verdict wide fold parses covered d)
  unfolding verdict in_snapshot of_version matched in_osv
  verdict-IsNamed covered d =
      by_name (osv_ecosystem wide fold d.ecosystem) (covered_alike d.ecosystem)
    where
      by_parse : (v : Text) (b : Bool) → IsNamed (in_snapshot wide fold parses covered d v b)
      by_parse v false = tt
      by_parse v true =
          if_rule IsNamed
            (has_text (advisory_package_key wide fold d.ecosystem d.package_name) covered) _ _
            (λ _. tt) (λ _. tt)

      by_system :
          (o : Option System) (v : Text)
          → is_some o ≡ true
          → IsNamed (of_version wide fold parses covered d o v)
      by_system none v h = absurd cc
      by_system (some s) v h = by_parse v (parses s v)

      by_match :
          (o : Option (Text × Text × Text))
          → is_some (version_system wide d.ecosystem) ≡ true
          → IsNamed (matched wide fold parses covered d o)
      by_match none h = tt
      by_match (some (v, b, c)) h = by_system (version_system wide d.ecosystem) v h

      by_name :
          (o : Option Text)
          → is_some o ≡ is_some (version_system wide d.ecosystem)
          → IsNamed (in_osv wide fold parses covered d o)
      by_name none h = tt
      by_name (some n) h = by_match (match_version d) (sym h)

  count_declarations-IsHonest :
      (covered : List Text) (ds : List Declaration) (n : ℕ) (r : Counts)
      → IsHonest n r
      → IsHonest (n + length ds) (count_declarations wide fold parses covered ds r)
  unfolding count_declarations
  count_declarations-IsHonest covered [] n r h = record {
    accounted = omega (arith, h.accounted);
    named = h.named;
  }
  count_declarations-IsHonest covered (d ∷ ds) n r h =
      let v = verdict wide fold parses covered d in
      let rest =
        count_declarations-IsHonest covered ds (n + 1) (count_verdict d v r)
          (count_verdict-IsHonest n d v r (verdict-IsNamed covered d) h) in
      record { accounted = omega (arith, rest.accounted); named = rest.named }

  -- The counters of a check account for every declaration, as checked or as skipped for one reason,
  -- and the gaps name as many of the skipped ones as there are, up to a hundred; and if the state of
  -- the check is ready, then every declaration was checked.
  pub check_declarations-IsHonest :
      (is_stale is_partial : Bool) (covered : List Text) (ds : List Declaration)
      → let (r, state) = check_declarations wide fold parses is_stale is_partial covered ds in
        IsHonest (length ds) r × (state ≡ ready → r.checked_count ≡ length ds)
  unfolding check_declarations
  check_declarations-IsHonest is_stale is_partial covered ds =
      let r = count_declarations wide fold parses covered ds no_counts in
      let h =
        count_declarations-IsHonest covered ds 0 no_counts
          (unfold no_counts in record { accounted = refl; named = refl }) in
      let honest : IsHonest (length ds) r = record {
        accounted = omega (arith, h.accounted);
        named = h.named;
      } in
      (
        honest,
        λ e.
            let nothing = ready-nothing r (snapshot_state is_stale is_partial) e in
            omega (arith, honest.accounted, nothing),
      )
