-- ===== src/Maintenance/Removed.antt =====
-- What `Execute` removes.
use mathlib.Core.List.{Memᴰ}
use repo_karta.Common.Equal.{text_eq-path, text_eq_self}
use repo_karta.Common.Text.{Text, text_eq}
use repo_karta.Common.{
  Bool, true, false, ◌||◌, not, Option, none, some, List, ◌∷◌, ◌≡◌, ◌⊎◌, inl, inr, refl, sym, subst,
  ◌∙◌, ◌==◌, Bool-cases, if_rule, arith,
}
use repo_karta.Maintenance.Cleanup.{
  Boundary, FileSystem, Info, Refusal, Result, ok, refused, remove_exact_file, remove_found,
  without,
}
use repo_karta.Maintenance.Items.{Item}
use repo_karta.Maintenance.Paths.{IsBelow, path_contains, path_contains-IsBelow}

-- The file at an item's path is a regular one, with the size and the time of the inventory.
pub record IsExact (o : Option Info) (item : Item) : Type 0 where
  pub info : Info
  pub found : o ≡ some info
  pub regular : info.is_regular ≡ true
  pub size : info.size ≡ item.size_bytes
  pub time : info.time ≡ item.modified_at

-- The item lies in the data directory, and not in the repositories.
abbrev pub IsInside : Boundary → Item → Type 0
IsInside b item =
    IsBelow b.data_directory item.absolute_path
    × (path_contains b.repository_root item.absolute_path ≡ false)

pub without-same : (path : Text) (files : FileSystem) → without path files path ≡ none
unfolding without
without-same path files = rw (text_eq_self path) refl

without-other :
    (path : Text) (files : FileSystem) (p : Text)
    → text_eq p path ≡ false
    → without path files p ≡ files p
unfolding without
without-other path files p e = rw e refl

module _ (boundary : Boundary) (removable : Text → Bool) where
  abbrev Removes : Item → Option Info → FileSystem → Result FileSystem → Type 0
  Removes item o files (refused e) = Unit
  Removes item o files (ok files') = IsExact o item × (files' ≡ without item.absolute_path files)

  remove_found-Removes :
      (item : Item) (files : FileSystem) (o : Option Info)
      → Removes item o files (remove_found boundary removable item files o)
  unfolding remove_found
  remove_found-Removes item files none = tt
  remove_found-Removes item files (some info) =
      if_rule (Removes item (some info) files) (not info.is_regular) _ _ (λ _. tt)
        (λ regular.
          if_rule (Removes item (some info) files)
            (not (info.size == item.size_bytes) || not (info.time == item.modified_at)) _ _
            (λ _. tt)
            (λ same.
              if_rule (Removes item (some info) files) (removable item.absolute_path) _ _
                (λ _. (
                  record {
                    info = info;
                    found = refl;
                    regular = ground arith;
                    size = ground arith;
                    time = ground arith;
                  },
                  refl,
                ))
                (λ _. tt)))

  abbrev pub RemovesInside : Item → FileSystem → Result FileSystem → Type 0
  RemovesInside item files (refused e) = Unit
  RemovesInside item files (ok files') =
      IsInside boundary item
      × IsExact (files item.absolute_path) item
      × (files' ≡ without item.absolute_path files)

  inside :
      (item : Item) (files : FileSystem) (r : Result FileSystem)
      → IsInside boundary item
      → Removes item (files item.absolute_path) files r
      → RemovesInside item files r
  inside item files (refused e) i h = tt
  inside item files (ok files') i h = (i, h.0, h.1)

  pub remove_exact_file-Inside :
      (item : Item) (files : FileSystem)
      → RemovesInside item files (remove_exact_file boundary removable item files)
  unfolding remove_exact_file
  remove_exact_file-Inside item files =
      if_rule (RemovesInside item files)
        (not (path_contains boundary.data_directory item.absolute_path)
          || path_contains boundary.repository_root item.absolute_path)
        _ _ (λ _. tt)
        (λ e.
          inside item files (remove_found boundary removable item files (files item.absolute_path))
            (
              path_contains-IsBelow boundary.data_directory item.absolute_path (ground arith),
              ground arith,
            )
            (remove_found-Removes item files (files item.absolute_path)))

  -- What happens to the file at a path.
  abbrev pub Changed : List Item → FileSystem → FileSystem → Text → Type 0
  Changed items files files' p =
      (files' p ≡ files p)
      ⊎ ((item : Item) × Memᴰ item items
          × (item.absolute_path ≡ p)
          × IsInside boundary item
          × IsExact (files p) item
          × (files' p ≡ none))

  pub none-not-IsExact : (item : Item) → ¬ IsExact none item
  none-not-IsExact item e = absurd (let f = e.found in cc)

  -- A file removed, and then others.
  pub removed_first :
      (item : Item) (items : List Item) (files after files' : FileSystem) (p : Text)
      → RemovesInside item files (ok after)
      → Changed items after files' p
      → Changed (item ∷ items) files files' p
  removed_first item items files after files' p (i, x, e) h =
      elim (Bool-cases (text_eq p item.absolute_path)) [
        | inl same ↦
            let here = sym (text_eq-path p item.absolute_path same) in
            let gone : after p ≡ none =
              subst (λ q. after q ≡ none) here (rw e (without-same item.absolute_path files)) in
            inr (
              item,
              Memᴰ.head refl,
              here,
              i,
              subst (λ q. IsExact (files q) item) here x,
              elim h [ inl f ↦ f ∙ gone | inr (j, m, q, k, y, f) ↦ f ],
            )
        | inr other ↦
            let kept : after p ≡ files p =
              subst (λ (f : FileSystem). f p ≡ files p) (sym e)
                (without-other item.absolute_path files p other) in
            elim h [
              | inl f ↦ inl (f ∙ kept)
              | inr (j, m, q, k, y, f) ↦
                  inr (j, Memᴰ.tail m, q, k, subst (λ o. IsExact o j) kept y, f)
            ]
      ]

  pub Result-cases :
      (r : Result FileSystem) → ((e : Refusal) × (r ≡ refused e)) ⊎ ((f : FileSystem) × (r ≡ ok f))
  Result-cases (refused e) = inl (e, refl)
  Result-cases (ok f) = inr (f, refl)
