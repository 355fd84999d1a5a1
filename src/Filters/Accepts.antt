-- ===== src/Filters/Accepts.antt =====
-- Which repositories the compiled filters accept, against the filters themselves.
use repo_karta.Common.Text.{Text}
use repo_karta.Common.{
  ℕ, ◌≡◌, ◌∙◌, refl, sym, subst, Bool, true, false, not, ◌&&◌, ◌||◌, some, List, [], ◌∷◌, arith,
  any, if◌then◌else◌, Bool-cases, inl, inr, if_true, if_false,
}
use repo_karta.Filters.Compile.{Compiled, Wanted, done, gather}
use repo_karta.Filters.Resolve.{
  Listed, after_listing, compile_query_filters, list_if_wanted, repository_filter_ids, resolve,
  restrict, revision_filter_ids,
}
use repo_karta.Filters.Gathered.{
  and_then-done, done_inj, gather-Adds, is_repository, is_revision, negatives, positives,
}
use repo_karta.Filters.Ids.{accept, in_set, is_nil, union_ids}
use repo_karta.Filters.Sets.{in_set-intersect, in_set-union_ids}
use repo_karta.Query.Parse.{Filter}
use repo_karta.Filters.Stands.{
  Stands, at_revision, named, repository_filter_ids-Stands, revision_filter_ids-Stands,
}

-- The Boolean content of `accept` on compiled filters.
accepted :
    (no_repository no_revision a b d e : Bool)
    → (if d || (e || false)
        then false
        else if not (not no_repository || not no_revision)
        then true
        else ((no_repository && b) || (no_revision && a) || (a && b)))
      ≡ ((no_repository || a) && (no_revision || b) && not d && not e)
accepted p q a b d e = ground arith

module _ (fold wide : ℕ → ℕ) (rows : List Listed) where
  -- What the filters on repositories and revisions ask of a repository: to be named by one of the
  -- positive ones of each field that has any, and by none of the negative ones.
  abbrev pub asked : List Text → List Text → List Text → List Text → ℕ → Bool
  asked p n q m x =
      (is_nil p || any (λ v. named fold wide rows v x) p)
      && (is_nil q || any (λ v. at_revision fold wide rows v x) q)
      && not (any (λ v. named fold wide rows v x) n)
      && not (any (λ v. at_revision fold wide rows v x) m)

  restrict-asked :
      (c : Compiled) (w : Wanted) (a b d e : List ℕ) (x : ℕ)
      → Stands (named fold wide rows) w.positive_repositories a
      → Stands (at_revision fold wide rows) w.positive_revisions b
      → Stands (named fold wide rows) w.negative_repositories d
      → Stands (at_revision fold wide rows) w.negative_revisions e
      → let r = restrict c w a b d e in
        accept r.repository_deny r.repository_allow r.repository_limited x
        ≡ asked w.positive_repositories w.negative_repositories w.positive_revisions
            w.negative_revisions x
  unfolding restrict accept
  restrict-asked c w a b d e x sa sb sd se =
      let denied : in_set x (union_ids (d ∷ e ∷ [])) ≡ (in_set x d || (in_set x e || false)) =
        in_set-union_ids x (d ∷ e ∷ []) in
      rw
        (
          denied,
          in_set-intersect x a b,
          sa.holds x,
          sb.holds x,
          sd.holds x,
          se.holds x,
          sa.empty,
          sb.empty,
        )
        (accepted (is_nil w.positive_repositories) (is_nil w.positive_revisions) _ _ _ _)

  resolve-asked :
      (c r : Compiled) (w : Wanted) (x : ℕ)
      → resolve fold wide rows (c, w) ≡ done r
      → accept r.repository_deny r.repository_allow r.repository_limited x
        ≡ asked w.positive_repositories w.negative_repositories w.positive_revisions
            w.negative_revisions x
  unfolding resolve
  resolve-asked c r w x h =
      let (a, first, h1) =
        and_then-done (repository_filter_ids fold wide rows w.positive_repositories) _ r h in
      let (b, second, h2) =
        and_then-done (revision_filter_ids fold wide rows w.positive_revisions) _ r h1 in
      let (d, third, h3) =
        and_then-done (repository_filter_ids fold wide rows w.negative_repositories) _ r h2 in
      let (e, fourth, h4) =
        and_then-done (revision_filter_ids fold wide rows w.negative_revisions) _ r h3 in
      subst
        (λ (o : Compiled).
          accept o.repository_deny o.repository_allow o.repository_limited x
          ≡ asked w.positive_repositories w.negative_repositories w.positive_revisions
              w.negative_revisions x)
        (done_inj (restrict c w a b d e) r h4)
        (restrict-asked c w a b d e x (repository_filter_ids-Stands fold wide rows _ a first)
          (revision_filter_ids-Stands fold wide rows _ b second)
          (repository_filter_ids-Stands fold wide rows _ d third)
          (revision_filter_ids-Stands fold wide rows _ e fourth))

  -- Where nothing is wanted, everything is accepted.
  nothing_wanted :
      (w : Wanted) (x : ℕ)
      → (is_nil w.positive_repositories
          && is_nil w.negative_repositories
          && is_nil w.positive_revisions
          && is_nil w.negative_revisions)
        ≡ true
      → asked w.positive_repositories w.negative_repositories w.positive_revisions
          w.negative_revisions x
        ≡ true
  nothing_wanted w x h =
      go w.positive_repositories w.negative_repositories w.positive_revisions w.negative_revisions h
    where
      go :
          (p n q m : List Text)
          → (is_nil p && is_nil n && is_nil q && is_nil m) ≡ true
          → asked p n q m x ≡ true
      go [] [] [] [] e = refl
      go _ _ _ _ e = cc

  list_if_wanted-asked :
      (c r : Compiled) (w : Wanted) (x : ℕ)
      → c.repository_limited ≡ false
      → c.repository_deny ≡ []
      → list_if_wanted fold wide (some rows) (c, w) ≡ done r
      → accept r.repository_deny r.repository_allow r.repository_limited x
        ≡ asked w.positive_repositories w.negative_repositories w.positive_revisions
            w.negative_revisions x
  unfolding list_if_wanted after_listing
  list_if_wanted-asked c r w x l n h =
      let nothing =
        is_nil w.positive_repositories
        && is_nil w.negative_repositories
        && is_nil w.positive_revisions
        && is_nil w.negative_revisions in
      elim (Bool-cases nothing) [
        | inl empty ↦
            let same : c ≡ r =
              done_inj c r
                (sym (if_true nothing (done c) (resolve fold wide rows (c, w)) empty) ∙ h) in
            let anything : accept c.repository_deny c.repository_allow c.repository_limited x
                ≡ true =
              unfold accept in rw (n, l) refl in
            subst
              (λ (o : Compiled).
                accept o.repository_deny o.repository_allow o.repository_limited x
                ≡ asked w.positive_repositories w.negative_repositories w.positive_revisions
                    w.negative_revisions x)
              same (anything ∙ sym (nothing_wanted w x empty))
        | inr full ↦
            resolve-asked c r w x
              (sym (if_false nothing (done c) (resolve fold wide rows (c, w)) full) ∙ h)
      ]

  -- If the repositories can be listed and compileQueryFilters returns no error, then the compiled
  -- filters accept a repository exactly when the query asks for it: one of its positive repository
  -- filters names it, if it has any, the indexed commit begins with one of its positive revision
  -- filters, if it has any, and no negative repository or revision filter holds of it.
  pub compile_query_filters-asked :
      (filters : List Filter) (r : Compiled) (x : ℕ)
      → compile_query_filters fold wide (some rows) filters ≡ done r
      → accept r.repository_deny r.repository_allow r.repository_limited x
        ≡ asked
            (positives is_repository filters)
            (negatives is_repository filters)
            (positives is_revision filters)
            (negatives is_revision filters)
            x
  unfolding compile_query_filters
  compile_query_filters-asked filters r x h =
      let ((c, w), first, rest) =
        and_then-done (gather filters _) (list_if_wanted fold wide (some rows)) r h in
      let a = gather-Adds filters _ (c, w) first in
      list_if_wanted-asked c r w x a.limited a.deny rest
      ∙ rw
          (
            a.positive_repositories, a.negative_repositories, a.positive_revisions,
            a.negative_revisions,
          )
          refl
