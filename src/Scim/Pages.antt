-- ===== src/Scim/Pages.antt =====
-- What a listing answers, with a filter and without.
use mathlib.Core.List.{map}
use repo_karta.Common.Equal.{is_blank}
use repo_karta.Common.Slices.{drop_all, length-drop, take_all, take-append}
use repo_karta.Common.Text.{Text, trim_left, trim_right, trim_space}
use repo_karta.Common.{
  ℕ, zero, suc, ◌+◌, ◌-◌, ◌*◌, ◌≤◌, ◌<◌, ◌≡◌, ◌∙◌, refl, sym, ap, subst, true, false, ◌&&◌, not,
  Option, List, [], ◌∷◌, arith, length, take, drop, take-nil, ltb, leb, if◌then◌else◌, if_rule,
  Bool-cases, inl, inr,
}
use repo_karta.Scim.Numbers.{Asks, atoi-Asks}
use repo_karta.Scim.Listing.{
  Listed, all_from, all_users, atoi, bounded_count, eq_filter, everything, filter_users,
  list_response, list_users, next_pages, on_everything, on_stored, page_parameters, refused,
  slice_page, stored_page, too_many,
}

module _ {A : Type 0} where
  take-length-take : (n : ℕ) (xs : List A) → take (length (take n xs)) xs ≡ take n xs
  take-length-take zero xs = refl
  take-length-take (suc n) [] = refl
  take-length-take (suc n) (x ∷ xs) = ap (λ ys. x ∷ ys) (take-length-take n xs)

  length-take-lt : (n : ℕ) (xs : List A) → length (take n xs) < n → length xs ≤ length (take n xs)
  length-take-lt zero xs h = absurd (omega arith)
  length-take-lt (suc n) [] h = omega arith
  length-take-lt (suc n) (x ∷ xs) h = omega (arith, length-take-lt n xs (omega arith))

  slice_page-take :
      (xs : List A) (start count : ℕ) → slice_page xs start count ≡ take count (drop start xs)
  unfolding slice_page
  slice_page-take xs start count =
      if_rule (λ ys. ys ≡ take count (drop start xs)) (leb (length xs) start) _ _
        (λ h. sym (ap (take count) (drop_all start xs (ground arith)) ∙ take-nil count))
        (λ h. elim (Bool-cases (ltb (length xs) (start + count))) [
          | inl e ↦ rw e (
              take_all (length xs - start) (drop start xs) (omega (arith, length-drop start xs))
              ∙ sym (take_all count (drop start xs) (ground (arith, length-drop start xs))))
          | inr e ↦ rw e (ap (λ n. take n (drop start xs)) (omega arith))
        ])

  -- The store answers each listing from its rows.
  abbrev pub Serves : (ℕ → ℕ → Listed A) → List A → Type 0
  Serves list rows = (start count : ℕ) → list start count ≡ stored_page rows start count

  next_pages_done :
      (list : ℕ → ℕ → Listed A) (rows : List A) (fuel offset : ℕ)
      → ltb offset (length rows) ≡ false
      → next_pages list (suc fuel) offset (length rows) (take offset rows) ≡ everything rows
  unfolding next_pages
  next_pages_done list rows fuel offset h =
      rw h (ap everything (take_all offset rows (ground arith)))

  -- Fuel for the pages that are left, and one turn more, is enough.
  next_pages-everything :
      (list : ℕ → ℕ → Listed A) (rows : List A)
      → Serves list rows
      → (fuel offset : ℕ) → length rows ≤ offset + 500 * fuel
      → next_pages list (suc fuel) offset (length rows) (take offset rows) ≡ everything rows
  unfolding next_pages stored_page bounded_count
  next_pages-everything list rows serves zero offset h =
      next_pages_done list rows zero offset (ground arith)
  next_pages-everything list rows serves (suc fuel) offset h =
      elim (Bool-cases (ltb offset (length rows))) [
        | inl more ↦
            let rest = next_pages-everything list rows serves fuel (offset + 500) (omega arith) in
            let joined = take-append offset 500 (offset + 500) rows refl in
            rw (more, serves offset 500, joined) rest
        | inr done ↦ next_pages_done list rows (suc fuel) offset done
      ]

  -- If the store answers from its rows, then allUsers ends with all of them, or refuses more than
  -- 10000.
  pub all_users-everything :
      (list : ℕ → ℕ → Listed A) (rows : List A)
      → Serves list rows
      → all_users list ≡ (if ltb 10000 (length rows) then too_many else everything rows)
  unfolding all_users all_from stored_page bounded_count
  all_users-everything list rows serves = elim (Bool-cases (ltb 10000 (length rows))) [
    | inl many ↦ rw (serves 0 500, many) refl
    | inr few ↦
        let first = length (take 500 rows) in
        let small : length rows ≤ 10000 = ground arith in
        let rest = next_pages-everything list rows serves 20 first (omega (arith, small)) in
        rw (serves 0 500, few) (rw (take-length-take 500 rows) at rest)
  ]

-- How many rows are skipped for the number of the first that is asked for, 0 standing for none and for
-- a negative one.
pub data IsStart : ℕ → ℕ → Type 0 where
  at_first : IsStart 0 0
  from : (k : ℕ) → IsStart (suc k) k

-- How many resources a page has at most for the count that is asked for.
pub data IsCount : ℕ → ℕ → Type 0 where
  not_asked : IsCount 0 100
  asked : (k : ℕ) → 1 ≤ k → k ≤ 500 → IsCount k k
  too_many_asked : (k : ℕ) → 500 < k → IsCount k 500

module _ {A R : Type 0} (wide fold : ℕ → ℕ) (candidates : Text → Option (A → Text))
    (resource : A → R) where
  unfiltered :
      (rows : List A) (filter : Text)
      → is_blank (trim_space filter) ≡ true
      → filter_users wide fold candidates rows filter ≡ rows
  unfolding filter_users eq_filter
  unfiltered rows filter h = rw h refl

  page_parameters-bounds :
      (start_index count : Text)
      → let (start, n) = page_parameters start_index count in (1 ≤ n) × (n ≤ 500)
  unfolding page_parameters
  page_parameters-bounds start_index count = (ground arith, ground arith)

  page_parameters-IsStart :
      (start_index count : Text) → IsStart (atoi start_index) (page_parameters start_index count).0
  unfolding page_parameters
  page_parameters-IsStart start_index count = go (atoi start_index)
    where
      go : (k : ℕ) → IsStart k ((if ltb k 1 then 1 else k) - 1)
      go zero = at_first
      go (suc k) =
          let e : k ≡ (if ltb (suc k) 1 then 1 else suc k) - 1 = ground arith in
          subst (IsStart (suc k)) e (from k)

  page_parameters-IsCount :
      (start_index count : Text) → IsCount (atoi count) (page_parameters start_index count).1
  unfolding page_parameters
  page_parameters-IsCount start_index count = go (atoi count)
    where
      go : (k : ℕ) → let n = if leb k 0 then 100 else k in IsCount k (if ltb 500 n then 500 else n)
      go zero = not_asked
      go (suc k) =
          let some_count : leb (suc k) 0 ≡ false = ground arith in
          rw some_count (
            if_rule (IsCount (suc k)) (ltb 500 (suc k)) _ _
              (λ h. too_many_asked (suc k) (ground arith))
              (λ h. asked (suc k) (omega arith) (ground arith)))

  bounded_count_same : (n : ℕ) → 1 ≤ n → n ≤ 500 → bounded_count n ≡ n
  unfolding bounded_count
  bounded_count_same n h k = ground arith

  blank_empty : (s : Text) → is_blank s ≡ true → s ≡ []
  blank_empty [] h = refl
  blank_empty (c ∷ s) h = absurd cc

  blank_found :
      (rows : List A) (filter : Text)
      → is_blank (trim_space filter) ≡ true
      → filter_users wide fold candidates rows (trim_space filter) ≡ rows
  blank_found rows filter h =
      unfiltered rows (trim_space filter)
        (rw (blank_empty (trim_space filter) h) (unfold trim_space trim_left trim_right in refl))

  -- If the store answers from its rows, then the answer to a request has the number of the matching
  -- rows and, from the start index that it asks for on, as many of them as it asks for, 500 at most,
  -- and 100 if it asks for none, whether the store or the filter's loop makes it; only with a filter
  -- and more than 10000 rows the request is refused. A parameter asks for the decimal number below two
  -- to the power of 63 that it is, and for none if it is empty or negative.
  pub list_users-page :
      (list : ℕ → ℕ → Listed A) (rows : List A) (start_index count filter : Text)
      → Serves list rows
      → let found = filter_users wide fold candidates rows (trim_space filter) in
        let reply =
          list_users list (filter_users wide fold candidates) resource start_index count filter in
        (first most start n : ℕ) × Asks start_index first
        × Asks count most
        × IsStart first start
        × IsCount most n
        × (reply ≡ (
            if not (is_blank (trim_space filter)) && ltb 10000 (length rows)
            then refused 400
            else list_response
                (length found)
                (start + 1)
                (map resource (take n (drop start found)))))
  unfolding list_users on_stored on_everything stored_page
  list_users-page list rows start_index count filter serves =
      let bounds = page_parameters-bounds start_index count in
      let start = (page_parameters start_index count).0 in
      let n = (page_parameters start_index count).1 in
      let found = filter_users wide fold candidates rows (trim_space filter) in
      (
        atoi start_index,
        atoi count,
        start,
        n,
        atoi-Asks start_index,
        atoi-Asks count,
        page_parameters-IsStart start_index count,
        page_parameters-IsCount start_index count,
        elim (Bool-cases (is_blank (trim_space filter))) [
          | inl blank ↦
              rw
                (
                  blank,
                  serves start n,
                  bounded_count_same n bounds.0 bounds.1,
                  blank_found rows filter blank,
                )
                refl
          | inr some_filter ↦ elim (Bool-cases (ltb 10000 (length rows))) [
            | inl many ↦ rw (some_filter, all_users-everything list rows serves, many) refl
            | inr few ↦
                rw (some_filter, all_users-everything list rows serves, few)
                  (ap (λ ys. list_response (length found) (start + 1) (map resource ys))
                    (slice_page-take found start n))
          ]
        ],
      )
