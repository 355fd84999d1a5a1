-- ===== src/Filters/Gathered.antt =====
-- What the loop over the filters of `compileQueryFilters` collects.
use repo_karta.Common.Text.{Text}
use repo_karta.Common.{
  ◌≡◌, ◌∙◌, refl, sym, ap, subst, Bool, true, false, not, ◌&&◌, List, [], ◌∷◌, ◌++◌, append-nil,
  append_assoc, if◌then◌else◌,
}
use repo_karta.Filters.Compile.{
  Checked, Compiled, Wanted, FilterError, done, failed, add_filter, and_then, gather,
}
use repo_karta.Query.Fields.{
  Field, content, repository, revision, language, path, file, result_type, owner,
}
use repo_karta.Query.Parse.{Filter}

abbrev pub is_repository : Field → Bool
is_repository repository = true
is_repository _ = false

abbrev pub is_revision : Field → Bool
is_revision revision = true
is_revision _ = false

abbrev one : Bool → Text → List Text
one hit v = if hit then v ∷ [] else []

-- The values of the filters on a field, in order: those that are not negative, and those that are.
abbrev pub positives : (Field → Bool) → List Filter → List Text
positives is [] = []
positives is (f ∷ fs) = one (is f.field && not f.negative) f.value ++ positives is fs

abbrev pub negatives : (Field → Bool) → List Filter → List Text
negatives is [] = []
negatives is (f ∷ fs) = one (is f.field && f.negative) f.value ++ negatives is fs

pub done_inj {ℓ} : {A : Type ℓ} (a b : A) → done a ≡ done b → a ≡ b
done_inj a b e = cc

pub failed_not_done {ℓ} : {A : Type ℓ} (e : FilterError) (a : A) → failed e ≡ done a → ⊥
failed_not_done e a h = cc

-- A chain that ends well has a first part that ends well.
pub and_then-done {ℓ κ} :
    {A : Type ℓ} {B : Type κ} (r : Checked A) (f : A → Checked B) (b : B)
    → and_then r f ≡ done b
    → (a : A) × (r ≡ done a) × (f a ≡ done b)
unfolding and_then
and_then-done (failed e) f b h = absurd (failed_not_done e b h)
and_then-done (done a) f b h = (a, refl, h)

-- What is added to the four lists, and what is left alone.
pub record Adds (p n q m : List Text) (s r : Compiled × Wanted) : Type 0 where
  pub positive_repositories : r.1.positive_repositories ≡ s.1.positive_repositories ++ p
  pub negative_repositories : r.1.negative_repositories ≡ s.1.negative_repositories ++ n
  pub positive_revisions : r.1.positive_revisions ≡ s.1.positive_revisions ++ q
  pub negative_revisions : r.1.negative_revisions ≡ s.1.negative_revisions ++ m
  pub allow : r.0.repository_allow ≡ s.0.repository_allow
  pub limited : r.0.repository_limited ≡ s.0.repository_limited
  pub deny : r.0.repository_deny ≡ s.0.repository_deny

abbrev AddsOne : Filter → Field → Compiled × Wanted → Compiled × Wanted → Type 0
AddsOne f fd s r =
    Adds (one (is_repository fd && not f.negative) f.value)
      (one (is_repository fd && f.negative) f.value)
      (one (is_revision fd && not f.negative) f.value) (one (is_revision fd && f.negative) f.value)
      s r

to_positive_lem :
    (b : Bool) (l : List Text) (v : Text) → (if b then l else l ++ v ∷ []) ≡ l ++ one (not b) v
to_positive_lem true l v = sym (append-nil l)
to_positive_lem false l v = refl

to_negative_lem :
    (b : Bool) (l : List Text) (v : Text) → (if b then l ++ v ∷ [] else l) ≡ l ++ one b v
to_negative_lem true l v = refl
to_negative_lem false l v = sym (append-nil l)

-- A step that leaves the four lists alone.
unchanged :
    (c d : Compiled) (w : Wanted)
    → d.repository_allow ≡ c.repository_allow
    → d.repository_limited ≡ c.repository_limited
    → d.repository_deny ≡ c.repository_deny
    → Adds [] [] [] [] (c, w) (d, w)
unchanged c d w a l n = record {
  positive_repositories = sym (append-nil w.positive_repositories);
  negative_repositories = sym (append-nil w.negative_repositories);
  positive_revisions = sym (append-nil w.positive_revisions);
  negative_revisions = sym (append-nil w.negative_revisions);
  allow = a;
  limited = l;
  deny = n;
}

add_filter-AddsOne :
    (f : Filter) (fd : Field) (s r : Compiled × Wanted)
    → add_filter f fd s ≡ done r
    → AddsOne f fd s r
unfolding add_filter
add_filter-AddsOne f repository (c, w) r e =
    subst (AddsOne f repository (c, w)) (done_inj _ r e) (record {
      positive_repositories = to_positive_lem f.negative w.positive_repositories f.value;
      negative_repositories = to_negative_lem f.negative w.negative_repositories f.value;
      positive_revisions = sym (append-nil w.positive_revisions);
      negative_revisions = sym (append-nil w.negative_revisions);
      allow = refl;
      limited = refl;
      deny = refl;
    })
add_filter-AddsOne f revision (c, w) r e =
    subst (AddsOne f revision (c, w)) (done_inj _ r e) (record {
      positive_repositories = sym (append-nil w.positive_repositories);
      negative_repositories = sym (append-nil w.negative_repositories);
      positive_revisions = to_positive_lem f.negative w.positive_revisions f.value;
      negative_revisions = to_negative_lem f.negative w.negative_revisions f.value;
      allow = refl;
      limited = refl;
      deny = refl;
    })
add_filter-AddsOne f content (c, w) r e =
    subst (AddsOne f content (c, w)) (done_inj _ r e) (unchanged c _ w refl refl refl)
add_filter-AddsOne f language (c, w) r e =
    subst (AddsOne f language (c, w)) (done_inj _ r e) (unchanged c _ w refl refl refl)
add_filter-AddsOne f path (c, w) r e =
    subst (AddsOne f path (c, w)) (done_inj _ r e) (unchanged c _ w refl refl refl)
add_filter-AddsOne f file (c, w) r e =
    subst (AddsOne f file (c, w)) (done_inj _ r e) (unchanged c _ w refl refl refl)
add_filter-AddsOne f owner (c, w) r e =
    subst (AddsOne f owner (c, w)) (done_inj _ r e) (unchanged c _ w refl refl refl)
add_filter-AddsOne f result_type (c, w) r e =
    subst (AddsOne f result_type (c, w)) (done_inj (c, w) r e) (unchanged c c w refl refl refl)
add_filter-AddsOne f _ s r e = absurd (failed_not_done _ r e)

-- A loop that ends well has collected the values of the filters on repositories and revisions.
pub gather-Adds :
    (fs : List Filter) (s r : Compiled × Wanted)
    → gather fs s ≡ done r
    → Adds
        (positives is_repository fs)
        (negatives is_repository fs)
        (positives is_revision fs)
        (negatives is_revision fs)
        s
        r
unfolding gather
gather-Adds [] (c, w) r e =
    subst (Adds [] [] [] [] (c, w)) (done_inj (c, w) r e) (unchanged c c w refl refl refl)
gather-Adds (f ∷ fs) s r e =
    let (t, first, rest) = and_then-done (add_filter f f.field s) (gather fs) r e in
    let a = add_filter-AddsOne f f.field s t first in
    let b = gather-Adds fs t r rest in
    record {
      positive_repositories =
          b.positive_repositories
          ∙ ap (λ l. l ++ positives is_repository fs) a.positive_repositories
          ∙ append_assoc s.1.positive_repositories _ (positives is_repository fs);
      negative_repositories =
          b.negative_repositories
          ∙ ap (λ l. l ++ negatives is_repository fs) a.negative_repositories
          ∙ append_assoc s.1.negative_repositories _ (negatives is_repository fs);
      positive_revisions =
          b.positive_revisions
          ∙ ap (λ l. l ++ positives is_revision fs) a.positive_revisions
          ∙ append_assoc s.1.positive_revisions _ (positives is_revision fs);
      negative_revisions =
          b.negative_revisions
          ∙ ap (λ l. l ++ negatives is_revision fs) a.negative_revisions
          ∙ append_assoc s.1.negative_revisions _ (negatives is_revision fs);
      allow = b.allow ∙ a.allow;
      limited = b.limited ∙ a.limited;
      deny = b.deny ∙ a.deny;
    }
