-- ===== src/Owners/Parsed.antt =====
-- `parseCODEOWNERS`: which rules it makes of the lines of a file.
use repo_karta.Common.Equal.{is_blank}
use repo_karta.Common.Trim.{Solid, trim_space-Solid}
use repo_karta.Common.Text.{Text, has_prefix, is_white, trim_space}
use repo_karta.Common.{
  ℕ, suc, Bool, true, false, not, Option, none, some, List, [], ◌∷◌, ◌++◌, All, All-append, select,
  ◌≡◌, ◌≢◌, inl, inr, refl, sym, ap, subst, ◌∙◌, Bool-cases, if◌then◌else◌, if_rule, append_assoc,
  append-nil, select_yes, select_no,
}
use repo_karta.Owners.Rules.{
  OwnershipRule, add_owner, add_owners, add_rule, empty_rule, fields, fields_from, line_rule,
  line_rules, rule_of, valid_codeowner,
}

-- A word of a line.
abbrev IsWord : Text → Type 0
IsWord w = (is_blank w ≡ false) × Solid w

is_blank-append : (w : Text) (c : ℕ) → is_blank (w ++ c ∷ []) ≡ false
is_blank-append [] c = refl
is_blank-append (d ∷ w) c = refl

fields_from-IsWord : (w s : Text) → Solid w → All IsWord (fields_from w s)
unfolding fields_from
fields_from-IsWord w [] h =
    if_rule (All IsWord) (is_blank w) [] (w ∷ []) (λ _. tt) (λ e. ((e, h), tt))
fields_from-IsWord w (c ∷ s) h = elim (Bool-cases (is_white c)) [
  | inl e ↦
      rw (e, fields_from)
        (if_rule (All IsWord) (is_blank w) (fields_from [] s) (w ∷ fields_from [] s)
          (λ _. fields_from-IsWord [] s tt) (λ b. ((b, h), fields_from-IsWord [] s tt)))
  | inr e ↦
      rw (e, fields_from)
        (fields_from-IsWord (w ++ c ∷ []) s
          (All-append (λ d. is_white d ≡ false) w (c ∷ []) h (e, tt)))
]

fields-IsWord : (s : Text) → All IsWord (fields s)
unfolding fields
fields-IsWord s = fields_from-IsWord [] s tt

abbrev is_refused : Text → Bool
is_refused w = not (valid_codeowner w)

-- A word more is an owner, or one that cannot be one.
add_owner-word :
    (r : OwnershipRule) (w : Text)
    → IsWord w
    → add_owner r w ≡ (
        if valid_codeowner w
        then record r { owners = r.owners ++ w ∷ [] }
        else record r { unresolved_owners = r.unresolved_owners ++ w ∷ [] })
unfolding add_owner
add_owner-word r w h = rw (trim_space-Solid w h.1, h.0) refl

-- What the loop over the words leaves.
abbrev Filled : OwnershipRule → List Text → OwnershipRule → Type 0
Filled r names q =
    (q.pattern ≡ r.pattern)
    × (q.line ≡ r.line)
    × (q.owners ≡ r.owners ++ select valid_codeowner names)
    × (q.unresolved_owners ≡ r.unresolved_owners ++ select is_refused names)

add_owners-Filled :
    (r : OwnershipRule) (names : List Text) → All IsWord names → Filled r names (add_owners r names)
unfolding add_owners
add_owners-Filled r [] h =
    (refl, refl, sym (append-nil r.owners), sym (append-nil r.unresolved_owners))
add_owners-Filled r (w ∷ names) h =
    subst (λ q. Filled r (w ∷ names) (add_owners q names)) (sym (add_owner-word r w h.0))
      (if_rule (λ q. Filled r (w ∷ names) (add_owners q names)) (valid_codeowner w)
        (record r { owners = r.owners ++ w ∷ [] })
        (record r { unresolved_owners = r.unresolved_owners ++ w ∷ [] })
        (λ e.
          let (a, b, c, d) =
            add_owners-Filled (record r { owners = r.owners ++ w ∷ [] }) names h.1 in
          (
            a,
            b,
            rw (select_yes valid_codeowner w names e)
                (c ∙ append_assoc r.owners (w ∷ []) (select valid_codeowner names)),
            rw (select_no is_refused w names (rw e refl)) d,
          ))
        (λ e.
          let (a, b, c, d) =
            add_owners-Filled (record r { unresolved_owners = r.unresolved_owners ++ w ∷ [] }) names
              h.1 in
          (
            a,
            b,
            rw (select_no valid_codeowner w names e) c,
            rw (select_yes is_refused w names (rw e refl))
                (d ∙ append_assoc r.unresolved_owners (w ∷ []) (select is_refused names)),
          )))

-- The line with the number `n` declares a rule: it is no comment, and has a pattern and at least
-- one word more, each an owner or one that cannot be one.
pub record Declares (n : ℕ) (raw : Text) (r : OwnershipRule) : Type 0 where
  pub name : Text
  pub names : List Text
  pub no_comment : has_prefix (trim_space raw) (b'#' ∷ []) ≡ false
  pub words : fields (trim_space raw) ≡ r.pattern ∷ name ∷ names
  pub numbered : r.line ≡ n
  pub owners : r.owners ≡ select valid_codeowner (name ∷ names)
  pub unresolved : r.unresolved_owners ≡ select is_refused (name ∷ names)

abbrev pub Ignored : ℕ → Text → Type 0
Ignored n raw = (r : OwnershipRule) → ¬ Declares n raw r

-- What the body of the loop returns for a line.
abbrev Read : ℕ → Text → Option OwnershipRule → Type 0
Read n raw none = Ignored n raw
Read n raw (some r) = Declares n raw r

-- Lines from the number `n` on, and the rules that they declare, in order.
pub data Parsed : ℕ → List Text → List OwnershipRule → Type 0 where
  nothing : (n : ℕ) → Parsed n [] []
  ignored :
      {n : ℕ} {raw : Text} {lines : List Text} {rules : List OwnershipRule}
      → Ignored n raw
      → Parsed (suc n) lines rules
      → Parsed n (raw ∷ lines) rules
  declared :
      {n : ℕ} {raw : Text} {lines : List Text} {r : OwnershipRule} {rules : List OwnershipRule}
      → Declares n raw r
      → Parsed (suc n) lines rules
      → Parsed n (raw ∷ lines) (r ∷ rules)

few-Ignored :
    (n : ℕ) (raw : Text)
    → ((p name : Text) (names : List Text) → fields (trim_space raw) ≢ (p ∷ name ∷ names))
    → Ignored n raw
few-Ignored n raw h r d = h r.pattern d.name d.names d.words

rule_of-Read :
    (n : ℕ) (raw : Text) (ws : List Text)
    → fields (trim_space raw) ≡ ws
    → has_prefix (trim_space raw) (b'#' ∷ []) ≡ false
    → All IsWord ws
    → Read n raw (rule_of n ws)
unfolding rule_of
rule_of-Read n raw [] e c h = few-Ignored n raw (λ p name names f. cc)
rule_of-Read n raw (p ∷ []) e c h = few-Ignored n raw (λ q name names f. cc)
rule_of-Read n raw (p ∷ w ∷ ws) e c h =
    let (a, b, o, u) = add_owners-Filled (empty_rule p n) (w ∷ ws) h.1 in
    record {
      name = w;
      names = ws;
      no_comment = c;
      words = e ∙ ap (λ q. q ∷ w ∷ ws) (sym a);
      numbered = b;
      owners = o;
      unresolved = u;
    }

blank-fields : (s : Text) → is_blank s ≡ true → fields s ≡ []
unfolding fields fields_from
blank-fields [] h = refl
blank-fields (c ∷ s) h = absurd cc

line_rule-Read : (n : ℕ) (raw : Text) → Read n raw (line_rule n raw)
unfolding line_rule
line_rule-Read n raw = elim (Bool-cases (is_blank (trim_space raw))) [
  | inl b ↦
      rw b (few-Ignored n raw (λ p name names f. let e = blank-fields (trim_space raw) b in cc))
  | inr b ↦ elim (Bool-cases (has_prefix (trim_space raw) (b'#' ∷ []))) [
    | inl c ↦ rw (b, c) (λ r d. let f = d.no_comment in cc)
    | inr c ↦
        rw (b, c)
          (rule_of-Read n raw (fields (trim_space raw)) refl c (fields-IsWord (trim_space raw)))
  ]
]

add_rule-Parsed :
    (n : ℕ) (raw : Text) (lines : List Text) (o : Option OwnershipRule) (rules : List OwnershipRule)
    → Read n raw o
    → Parsed (suc n) lines rules
    → Parsed n (raw ∷ lines) (add_rule o rules)
unfolding add_rule
add_rule-Parsed n raw lines none rules h p = ignored h p
add_rule-Parsed n raw lines (some r) rules h p = declared h p

pub line_rules-Parsed : (n : ℕ) (lines : List Text) → Parsed n lines (line_rules n lines)
unfolding line_rules
line_rules-Parsed n [] = nothing n
line_rules-Parsed n (raw ∷ lines) =
    add_rule-Parsed n raw lines (line_rule n raw) (line_rules (suc n) lines) (line_rule-Read n raw)
      (line_rules-Parsed (suc n) lines)
