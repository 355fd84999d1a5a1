-- ===== src/Filters/Stands.antt =====
-- The identifiers that `repositoryFilterIDs` and `revisionFilterIDs` return, against the values.
use repo_karta.Common.Text.{Text, to_lower, trim_space}
use repo_karta.Common.{
  ℕ, ◌≡◌, ◌∙◌, refl, sym, ap, subst, Bool, false, ◌||◌, List, [], ◌∷◌, ◌++◌, arith, any, select,
  ◌==◌,
}
use repo_karta.Filters.Compile.{Checked, done, and_then}
use repo_karta.Filters.Resolve.{
  Listed, matching, only, repository_filter_ids, repository_ids, revised, revision_filter_ids,
  revision_ids, short_id, short_ids, some_indexed,
}
use repo_karta.Filters.Gathered.{and_then-done, done_inj, failed_not_done}
use repo_karta.Filters.Ids.{in_set, is_nil, union_from, union_ids, concat}
use repo_karta.Filters.Sets.{in_set-append, in_set-union_ids}

-- Whether an identifier is that of one of some repositories.
abbrev pub is_one : ℕ → List Listed → Bool
is_one x rows = any (λ r. x == short_id r) rows

nil_union : (ids : List ℕ) → is_nil (union_ids (ids ∷ [])) ≡ is_nil ids
unfolding union_ids union_from concat
nil_union [] = refl
nil_union (x ∷ ids) = refl

only-is_one :
    (v : Text) (l : List Listed) (id x : ℕ) → only v l ≡ done id → is_one x l ≡ in_set x (id ∷ [])
unfolding only
only-is_one v [] id x e = absurd (failed_not_done _ id e)
only-is_one v (r ∷ []) id x e = ap (λ i. in_set x (i ∷ [])) (done_inj (short_id r) id e)
only-is_one v (r ∷ s ∷ l) id x e = absurd (failed_not_done _ id e)

in_set-short_ids : (x : ℕ) (l : List Listed) → in_set x (short_ids l) ≡ is_one x l
unfolding short_ids
in_set-short_ids x [] = refl
in_set-short_ids x (r ∷ l) = ap (λ b. x == short_id r || b) (in_set-short_ids x l)

-- What a list of identifiers says of the values that it stands for.
pub record Stands {ℓ} {V : Type ℓ} (test : V → ℕ → Bool) (values : List V) (ids : List ℕ)
    : Type ℓ where
  pub holds : (x : ℕ) → in_set x ids ≡ any (λ v. test v x) values
  pub empty : is_nil ids ≡ is_nil values

united-Stands {ℓ} :
    {V : Type ℓ} (test : V → ℕ → Bool) (values : List V) (r : Checked (List ℕ)) (ids : List ℕ)
    → ((raw : List ℕ) → r ≡ done raw → Stands test values raw)
    → and_then r (λ raw. done (union_ids (raw ∷ []))) ≡ done ids
    → Stands test values ids
united-Stands test values r ids stands e =
    let (raw, first, last) = and_then-done r (λ raw. done (union_ids (raw ∷ []))) ids e in
    let s = stands raw first in
    subst (Stands test values) (done_inj _ ids last) (record {
      holds = λ x. let u = in_set-union_ids x (raw ∷ []) in let h = s.holds x in ground arith;
      empty = nil_union raw ∙ s.empty;
    })

module _ (fold wide : ℕ → ℕ) (rows : List Listed) where
  -- Whether a repository filter names a repository, and a revision filter its indexed commit.
  abbrev pub named : Text → ℕ → Bool
  named v x = is_one x (matching fold wide rows (trim_space v))

  abbrev pub at_revision : Text → ℕ → Bool
  at_revision v x = is_one x (select (revised fold wide (to_lower wide (trim_space v))) rows)

  repository_ids-Stands :
      (values : List Text) (ids : List ℕ)
      → repository_ids fold wide rows values ≡ done ids
      → Stands named values ids
  unfolding repository_ids
  repository_ids-Stands [] ids e =
      subst (Stands named []) (done_inj [] ids e) (record { holds = λ x. refl; empty = refl })
  repository_ids-Stands (v ∷ values) ids e =
      let (id, first, rest) =
        and_then-done (only (trim_space v) (matching fold wide rows (trim_space v))) _ ids e in
      let (more, others, last) = and_then-done (repository_ids fold wide rows values) _ ids rest in
      let s = repository_ids-Stands values more others in
      subst (Stands named (v ∷ values)) (done_inj (id ∷ more) ids last) (record {
        holds = λ x.
            let own =
              only-is_one (trim_space v) (matching fold wide rows (trim_space v)) id x first in
            let h = s.holds x in ground arith;
        empty = refl;
      })

  some_indexed-Stands :
      (value : Text) (l : List Listed) (ids : List ℕ)
      → some_indexed value l ≡ done ids
      → ((x : ℕ) → in_set x ids ≡ is_one x l) × (is_nil ids ≡ false)
  unfolding some_indexed
  some_indexed-Stands value [] ids e = absurd (failed_not_done _ ids e)
  some_indexed-Stands value (r ∷ l) ids e =
      let same = done_inj (short_ids (r ∷ l)) ids e in
      (
        λ x. ap (in_set x) (sym same) ∙ in_set-short_ids x (r ∷ l),
        ap is_nil (sym same) ∙ (unfold short_ids in refl),
      )

  nil_append : (a b : List ℕ) → is_nil a ≡ false → is_nil (a ++ b) ≡ false
  nil_append [] b h = cc
  nil_append (x ∷ a) b h = refl

  revision_ids-Stands :
      (values : List Text) (ids : List ℕ)
      → revision_ids fold wide rows values ≡ done ids
      → Stands at_revision values ids
  unfolding revision_ids
  revision_ids-Stands [] ids e =
      subst (Stands at_revision []) (done_inj [] ids e) (record { holds = λ x. refl; empty = refl })
  revision_ids-Stands (v ∷ values) ids e =
      let value = to_lower wide (trim_space v) in
      let l = select (revised fold wide value) rows in
      let (own, first, rest) = and_then-done (some_indexed value l) _ ids e in
      let (more, others, last) = and_then-done (revision_ids fold wide rows values) _ ids rest in
      let s = revision_ids-Stands values more others in
      let (holds_own, full) = some_indexed-Stands value l own first in
      subst (Stands at_revision (v ∷ values)) (done_inj (own ++ more) ids last) (record {
        holds = λ x.
            in_set-append x own more
            ∙ ap (λ b. b || in_set x more) (holds_own x)
            ∙ ap (λ b. at_revision v x || b) (s.holds x);
        empty = nil_append own more full;
      })

  pub repository_filter_ids-Stands :
      (values : List Text) (ids : List ℕ)
      → repository_filter_ids fold wide rows values ≡ done ids
      → Stands named values ids
  unfolding repository_filter_ids
  repository_filter_ids-Stands values ids e =
      united-Stands named values (repository_ids fold wide rows values) ids
        (repository_ids-Stands values) e

  pub revision_filter_ids-Stands :
      (values : List Text) (ids : List ℕ)
      → revision_filter_ids fold wide rows values ≡ done ids
      → Stands at_revision values ids
  unfolding revision_filter_ids
  revision_filter_ids-Stands values ids e =
      united-Stands at_revision values (revision_ids fold wide rows values) ids
        (revision_ids-Stands values) e
