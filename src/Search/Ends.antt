-- ===== src/Search/Ends.antt =====
-- Where the loop of `indexPending` ends, and where it cannot (internal/search/coordinator.go).
use mathlib.Core.List.{Memᴰ}
use repo_karta.Common.Text.{Text}
use repo_karta.Common.{
  ℕ, zero, suc, ◌≡◌, refl, ap, subst, ◌∙◌, Bool, true, false, ◌||◌, Option, none, some, List, [],
  ◌∷◌, arith, any, Bool-cases, inl, inr,
}
use repo_karta.Search.Indexing.{
  Repository, World, eligible, update_index_state, after_start, index_repository, index_listed,
  next_round, index_pending,
}
use repo_karta.Search.Rounds.{Covered, index_listed-Covered}

-- At the start each row stands on the list that was read.
Covered-start : (rows : List Repository) → Covered rows rows
Covered-start [] = tt
Covered-start (r ∷ rows) = (inr (Memᴰ.head refl), later rows (Covered-start rows))
  where
    later : (l : List Repository) → Covered rows l → Covered (r ∷ rows) l
    later [] c = tt
    later (x ∷ l) c = (elim c.0 [ inl h ↦ inl h | inr m ↦ inr (Memᴰ.tail m) ], later l c.1)

none_eligible : (rows : List Repository) → Covered [] rows → any eligible rows ≡ false
none_eligible [] c = refl
none_eligible (r ∷ rows) c = elim c.0 [ inl h ↦ rw h (none_eligible rows c.1) | inr m ↦ elim m [ ] ]

module _ (writes : ℕ → Bool) (build : Repository → Option Text) where
  index_listed-none :
      (todo : List Repository) (w : World) (b : Bool)
      → any eligible todo ≡ false
      → index_listed writes build w b todo ≡ (w, b)
  unfolding index_listed
  index_listed-none [] w b h = refl
  index_listed-none (t ∷ todo) w b h = elim (Bool-cases (eligible t)) [
    | inl more ↦ absurd (ground arith)
    | inr no_more ↦ rw no_more (index_listed-none todo w b (ground arith))
  ]

  -- If every update is written, the loop ends after two rounds at most, and then no repository
  -- that is scanned, has a commit and is pending is left.
  pub index_pending-ends :
      (w : World) (fuel : ℕ)
      → ((n : ℕ) → writes n ≡ true)
      → (v : World) × (index_pending writes build (suc (suc fuel)) w ≡ some v)
        × (any eligible v.rows ≡ false)
  unfolding index_pending next_round
  index_pending-ends w fuel database = go (index_listed writes build w false w.rows) refl
    where
      last :
          (v : World) (b : Bool)
          → any eligible v.rows ≡ false
          → (u : World) × (next_round writes build (index_pending writes build (suc fuel)) (v, b)
              ≡ some u)
            × (any eligible u.rows ≡ false)
      last v true clear = (v, rw (index_listed-none v.rows v false clear) refl, clear)
      last v false clear = (v, refl, clear)

      go :
          (r : World × Bool)
          → index_listed writes build w false w.rows ≡ r
          → (v : World) × (next_round writes build
                (index_pending writes build (suc fuel))
                (index_listed writes build w false w.rows)
              ≡ some v)
            × (any eligible v.rows ≡ false)
      go (v, b) e =
          let clear : any eligible v.rows ≡ false = none_eligible v.rows (
            subst (λ (s : World × Bool). Covered [] s.0.rows) e
              (index_listed-Covered writes build database w.rows w false (Covered-start w.rows))) in
          rw e (last v b clear)

  index_repository-blocked :
      (w : World) (t : Repository)
      → ((n : ℕ) → writes n ≡ false)
      → (index_repository writes build w t).rows ≡ w.rows
  unfolding index_repository after_start update_index_state
  index_repository-blocked w t database = rw (database w.calls) refl

  index_listed-blocked :
      (todo : List Repository) (w : World) (b : Bool)
      → ((n : ℕ) → writes n ≡ false)
      → ((index_listed writes build w b todo).0.rows ≡ w.rows)
        × ((index_listed writes build w b todo).1 ≡ (b || any eligible todo))
  unfolding index_listed
  index_listed-blocked [] w b database = (refl, ground arith)
  index_listed-blocked (t ∷ todo) w b database = elim (Bool-cases (eligible t)) [
    | inl more ↦
        let (rows, flag) =
          index_listed-blocked todo (index_repository writes build w t) true database in
        rw more (rows ∙ index_repository-blocked w t database, flag ∙ ground arith)
    | inr no_more ↦ rw no_more (index_listed-blocked todo w b database)
  ]

  -- If no update is written and some repository is to be indexed, no number of rounds is enough:
  -- the loop goes on for ever.
  pub index_pending-blocked :
      (fuel : ℕ) (w : World)
      → ((n : ℕ) → writes n ≡ false)
      → any eligible w.rows ≡ true
      → index_pending writes build fuel w ≡ none
  unfolding index_pending next_round
  index_pending-blocked zero w database h = refl
  index_pending-blocked (suc fuel) w database h =
      go (λ v. index_pending-blocked fuel v database) (index_listed writes build w false w.rows)
        refl
    where
      last :
          ((v : World) → any eligible v.rows ≡ true → index_pending writes build fuel v ≡ none)
          → (v : World) (b : Bool) → v.rows ≡ w.rows
          → b ≡ true
          → next_round writes build (index_pending writes build fuel) (v, b) ≡ none
      last again v true kept flag = again v (ap (any eligible) kept ∙ h)
      last again v false kept flag = absurd (ground arith)

      go :
          ((v : World) → any eligible v.rows ≡ true → index_pending writes build fuel v ≡ none)
          → (r : World × Bool) → index_listed writes build w false w.rows ≡ r
          → next_round writes build
              (index_pending writes build fuel)
              (index_listed writes build w false w.rows)
            ≡ none
      go again (v, b) e =
          let (kept, flag) =
            subst
              (λ (r : World × Bool). (r.0.rows ≡ w.rows) × (r.1 ≡ (false || any eligible w.rows))) e
              (index_listed-blocked w.rows w false database) in
          rw e (last again v b kept (flag ∙ h))
