-- ===== src/Maintenance/Loop.antt =====
-- The loop of `Execute` over the items of a plan.
use repo_karta.Common.Text.{Text}
use repo_karta.Common.{
  ℕ, ◌+◌, Bool, true, none, List, [], ◌∷◌, All, length, ◌≡◌, inl, inr, refl, sym, subst, ◌∙◌,
  Bool-cases, arith,
}
use repo_karta.Maintenance.Cleanup.{
  Boundary, CleanupResult, Executed, FileSystem, ok, remove_exact_file, remove_items, sum_of,
}
use repo_karta.Maintenance.Items.{Item}
use repo_karta.Maintenance.Removed.{
  Changed, RemovesInside, removed_first, remove_exact_file-Inside, Result-cases, without-same,
}

module _ (boundary : Boundary) (removable : Text → Bool) (live : ℕ → Bool) where
  abbrev bumped : Item → CleanupResult → CleanupResult
  bumped item r = record {
    removed_items = r.removed_items + 1;
    removed_bytes = r.removed_bytes + item.size_bytes;
  }

  pub remove_items-Changed :
      (items : List Item) (files : FileSystem) (result : CleanupResult) (p : Text)
      → Changed boundary removable items files
          (remove_items boundary removable live items files result).files
          p
  unfolding remove_items
  remove_items-Changed [] files result p = inl refl
  remove_items-Changed (item ∷ items) files result p =
      elim (Bool-cases (live result.removed_items)) [
        | inr e ↦ rw (e, remove_items) (inl refl)
        | inl e ↦
            elim (Result-cases boundary removable
              (remove_exact_file boundary removable item files)) [
                | inl (r, f) ↦ rw (e, f, remove_items) (inl refl)
                | inr (after, f) ↦
                    rw (e, f, remove_items)
                      (removed_first boundary removable item items files after
                        (remove_items boundary removable live items after
                          (bumped item result)).files
                        p
                        (subst (RemovesInside boundary removable item files) f
                          (remove_exact_file-Inside boundary removable item files))
                        (remove_items-Changed items after (bumped item result) p))
              ]
      ]

  remove_items-step :
      (item : Item) (items : List Item) (files after : FileSystem) (result : CleanupResult)
      → live result.removed_items ≡ true
      → remove_exact_file boundary removable item files ≡ ok after
      → remove_items boundary removable live (item ∷ items) files result
        ≡ remove_items boundary removable live items after (bumped item result)
  unfolding remove_items
  remove_items-step item items files after result e f = rw (e, f, remove_items) refl

  -- Without a failure every item is gone, and counted.
  abbrev pub Completed : List Item → CleanupResult → Executed → Type 0
  Completed items r x =
      x.failure ≡ none
      → (x.result.removed_items ≡ r.removed_items + length items)
        × (x.result.removed_bytes ≡ r.removed_bytes + sum_of items)
        × All (λ (item : Item). x.files item.absolute_path ≡ none) items

  stays_gone :
      (items : List Item) (files : FileSystem) (result : CleanupResult) (p : Text)
      → files p ≡ none
      → (remove_items boundary removable live items files result).files p ≡ none
  stays_gone items files result p gone = elim (remove_items-Changed items files result p) [
    | inl f ↦ f ∙ gone
    | inr (j, m, q, k, y, f) ↦ f
  ]

  pub remove_items-Completed :
      (items : List Item) (files : FileSystem) (result : CleanupResult)
      → Completed items result (remove_items boundary removable live items files result)
  unfolding remove_items sum_of
  remove_items-Completed [] files result = λ h. (omega arith, omega arith, tt)
  remove_items-Completed (item ∷ items) files result =
      elim (Bool-cases (live result.removed_items)) [
        | inr e ↦ rw (e, remove_items) (λ h. absurd cc)
        | inl e ↦
            elim (Result-cases boundary removable
              (remove_exact_file boundary removable item files)) [
                | inl (r, f) ↦ rw (e, f, remove_items) (λ h. absurd cc)
                | inr (after, f) ↦
                    subst (Completed (item ∷ items) result)
                      (sym (remove_items-step item items files after result e f))
                      (λ h.
                        let (a, b, c) = remove_items-Completed items after (bumped item result) h in
                        let (i, x, g) =
                          subst (RemovesInside boundary removable item files) f
                            (remove_exact_file-Inside boundary removable item files) in
                        (
                          omega (arith, a),
                          omega (arith, b),
                          (
                            stays_gone items after (bumped item result) item.absolute_path
                                (rw g (without-same item.absolute_path files)),
                            c,
                          ),
                        ))
              ]
      ]
