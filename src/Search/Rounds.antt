-- ===== src/Search/Rounds.antt =====
-- `indexPending` ends after at most two rounds, with nothing left to index; unless no update can be
-- written.
use mathlib.Core.List.{Memᴰ}
use repo_karta.Common.Text.{Text, codes, text_eq}
use repo_karta.Common.{
  ℕ, ◌+◌, ◌≡◌, ◌⊎◌, refl, ap, ◌∙◌, Bool, true, false, ◌&&◌, Option, none, some, List, [], ◌∷◌,
  arith, All, ◌==◌, ==_iff, if_rule, Bool-cases, inl, inr,
}
use repo_karta.Search.Indexing.{
  Repository, World, target_commit, eligible, set_row, update_rows, has_row, update_index_state,
  announce, after_build, after_start, index_repository, index_listed,
}

-- A row that was written in a state other than pending is not eligible.
written-not-eligible :
    (state commit error : Text) (r : Repository)
    → text_eq state (codes "pending") ≡ false
    → eligible (set_row state commit error r) ≡ false
unfolding eligible set_row
written-not-eligible state commit error r h = ground arith

-- No row of an identifier is eligible.
abbrev Settled : ℕ → List Repository → Type 0
Settled id rows = All (λ r. (r.id == id) ≡ true → eligible r ≡ false) rows

update_rows-Settled :
    (id : ℕ) (state commit error : Text) (rows : List Repository)
    → text_eq state (codes "pending") ≡ false
    → Settled id (update_rows id state commit error rows)
unfolding update_rows
update_rows-Settled id state commit error [] h = tt
update_rows-Settled id state commit error (r ∷ rows) h = (
  if_rule (λ (s : Repository). (s.id == id) ≡ true → eligible s ≡ false) (r.id == id) _ _
      (λ _ _. written-not-eligible state commit error r h) (λ other same. cc),
  update_rows-Settled id state commit error rows h,
)

-- Each row that is still eligible is one of `todo`, unchanged.
abbrev pub Covered : List Repository → List Repository → Type 0
Covered todo rows = All (λ r. (eligible r ≡ false) ⊎ Memᴰ r todo) rows

-- An update keeps the other rows.
update_rows-Covered :
    (id : ℕ) (state commit error : Text) (todo rows : List Repository)
    → text_eq state (codes "pending") ≡ false
    → Covered todo rows
    → Covered todo (update_rows id state commit error rows)
unfolding update_rows
update_rows-Covered id state commit error todo [] h c = tt
update_rows-Covered id state commit error todo (r ∷ rows) h c = (
  if_rule (λ s. (eligible s ≡ false) ⊎ Memᴰ s todo) (r.id == id) _ _
      (λ _. inl (written-not-eligible state commit error r h)) (λ _. c.0),
  update_rows-Covered id state commit error todo rows h c.1,
)

-- A repository whose rows are settled can be taken off the list.
Covered-done :
    (t : Repository) (todo rows : List Repository)
    → Settled t.id rows
    → Covered (t ∷ todo) rows
    → Covered todo rows
Covered-done t todo [] s c = tt
Covered-done t todo (r ∷ rows) s c = (head c.0, Covered-done t todo rows s.1 c.1)
  where
    head : ((eligible r ≡ false) ⊎ Memᴰ r (t ∷ todo)) → (eligible r ≡ false) ⊎ Memᴰ r todo
    head (inl no_more) = inl no_more
    head (inr (Memᴰ.head e)) = inl (s.0 ((==_iff r.id t.id).1 (ap (λ (x : Repository). x.id) e)))
    head (inr (Memᴰ.tail m)) = inr m

no_row-Settled : (id : ℕ) (rows : List Repository) → has_row id rows ≡ false → Settled id rows
unfolding has_row
no_row-Settled id [] h = tt
no_row-Settled id (r ∷ rows) h = ((λ same. ground arith), no_row-Settled id rows (ground arith))

not_eligible-Covered :
    (t : Repository) (todo rows : List Repository)
    → eligible t ≡ false
    → Covered (t ∷ todo) rows
    → Covered todo rows
not_eligible-Covered t todo [] h c = tt
not_eligible-Covered t todo (r ∷ rows) h c = (head c.0, not_eligible-Covered t todo rows h c.1)
  where
    head : ((eligible r ≡ false) ⊎ Memᴰ r (t ∷ todo)) → (eligible r ≡ false) ⊎ Memᴰ r todo
    head (inl no_more) = inl no_more
    head (inr (Memᴰ.head e)) = inl (ap eligible e ∙ h)
    head (inr (Memᴰ.tail m)) = inr m

abbrev Done : Repository → List Repository → World → Type 0
Done t todo w = Settled t.id w.rows × Covered (t ∷ todo) w.rows

module _ (writes : ℕ → Bool) (build : Repository → Option Text) where
  -- Once the rows of `t` are settled, a later update of them keeps that.
  update-Done :
      (w : World) (t : Repository) (todo : List Repository) (state commit error : Text)
      → text_eq state (codes "pending") ≡ false
      → Done t todo w
      → Done t todo (update_index_state writes build w t.id state commit error).0
  unfolding update_index_state
  update-Done w t todo state commit error h d =
      if_rule (λ (r : World × Bool). Done t todo r.0) (writes w.calls && has_row t.id w.rows) _ _
        (λ _. (
          update_rows-Settled t.id state commit error w.rows h,
          update_rows-Covered t.id state commit error (t ∷ todo) w.rows h d.1,
        ))
        (λ _. d)

  announce-Done :
      (t : Repository) (todo : List Repository) (r : World × Bool)
      → Done t todo r.0
      → Done t todo (announce writes build t.id r)
  unfolding announce
  announce-Done t todo (w, true) d = d
  announce-Done t todo (w, false) d = d

  after_build-Done :
      (w : World) (t : Repository) (todo : List Repository) (o : Option Text)
      → Done t todo w
      → Done t todo (after_build writes build t w o)
  unfolding after_build text_eq
  after_build-Done w t todo none d =
      announce-Done t todo _ (update-Done w t todo (codes "ready") (target_commit t) [] refl d)
  after_build-Done w t todo (some error) d =
      update-Done w t todo (codes "error") (target_commit t) error refl d

  module _ (database : (n : ℕ) → writes n ≡ true) where
    index_repository-Covered :
        (w : World) (t : Repository) (todo : List Repository)
        → Covered (t ∷ todo) w.rows
        → Covered todo (index_repository writes build w t).rows
    unfolding index_repository after_start update_index_state text_eq
    index_repository-Covered w t todo c = elim (Bool-cases (has_row t.id w.rows)) [
      | inl there ↦
          rw (database w.calls, there)
            (let started = record w {
              calls = w.calls + 1;
              rows = update_rows t.id (codes "indexing") (target_commit t) [] w.rows;
            } in
              let d : Done t todo started = (
                update_rows-Settled t.id (codes "indexing") (target_commit t) [] w.rows refl,
                update_rows-Covered t.id (codes "indexing") (target_commit t) [] (t ∷ todo) w.rows
                    refl c,
              ) in
              let e = after_build-Done started t todo (build t) d in Covered-done t todo _ e.0 e.1)
      | inr not_there ↦
          rw (database w.calls, not_there)
            (Covered-done t todo w.rows (no_row-Settled t.id w.rows not_there) c)
    ]

    pub index_listed-Covered :
        (todo : List Repository) (w : World) (b : Bool)
        → Covered todo w.rows
        → Covered [] (index_listed writes build w b todo).0.rows
    unfolding index_listed
    index_listed-Covered [] w b c = c
    index_listed-Covered (t ∷ todo) w b c =
        if_rule (λ (r : World × Bool). Covered [] r.0.rows) (eligible t) _ _
          (λ _.
            index_listed-Covered todo (index_repository writes build w t) true
              (index_repository-Covered w t todo c))
          (λ no_more. index_listed-Covered todo w b (not_eligible-Covered t todo w.rows no_more c))
