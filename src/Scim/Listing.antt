-- ===== src/Scim/Listing.antt =====
-- The listing of users and groups in internal/scim/scim.go, one model for both: `list` is the store's
-- ListUsers or ListGroups. `wide` and `fold` are the tables of `strings.ToLower` and
-- `strings.EqualFold` from 0x80 on.
use Prim.Native.Nat.{◌^◌}
use mathlib.Core.List.{map}
use repo_karta.Common.Equal.{is_blank, split_text}
use repo_karta.Common.Text.{Text, codes, text_eq, to_lower, trim_space}
use repo_karta.Common.{
  ℕ, zero, suc, ◌+◌, ◌-◌, ◌*◌, Bool, ◌&&◌, not, Option, none, some, List, [], ◌∷◌, ◌++◌, length,
  take, drop, select, ltb, leb, ◌==◌, if◌then◌else◌,
}
use repo_karta.Scim.Resources.{Group, User}

abbrev pub is_digit : ℕ → Bool
is_digit c = leb b'0' c && leb c b'9'

-- The digits of `strconv.Atoi`, 0 at a syntax error; it stops where 64 bits overflow.
unfoldable pub digits_value : ℕ → Text → ℕ
digits_value n [] = n
digits_value n (c ∷ s) =
    let m = n * 10 + (c - b'0') in
    let rest = digits_value m s in
    if not (is_digit c) then 0 else if leb (2 ^ 64) m then 2 ^ 64 - 1 else rest

-- `strconv.Atoi` where its error is ignored, with 0 for what is negative.
unfoldable pub atoi : Text → ℕ
atoi [] = 0
atoi (c ∷ s) =
    if c == b'-'
    then 0
    else let n = digits_value 0 (if c == b'+' then s else c ∷ s) in
      if leb (2 ^ 63) n then 2 ^ 63 - 1 else n

-- `pageParameters`, on the two parameters' values
unfoldable pub page_parameters : Text → Text → ℕ × ℕ
page_parameters start_index count =
    let start = if ltb (atoi start_index) 1 then 1 else atoi start_index in
    let n = if leb (atoi count) 0 then 100 else atoi count in
    (start - 1, if ltb 500 n then 500 else n)

-- `strings.Trim` of quotes
unfoldable pub trim_left_quotes : Text → Text
trim_left_quotes [] = []
trim_left_quotes (c ∷ s) = if c == b'"' then trim_left_quotes s else c ∷ s

abbrev pub quote_cons : ℕ → Text → Text
quote_cons c [] = if c == b'"' then [] else c ∷ []
quote_cons c (d ∷ s) = c ∷ d ∷ s

unfoldable pub trim_right_quotes : Text → Text
trim_right_quotes [] = []
trim_right_quotes (c ∷ s) = quote_cons c (trim_right_quotes s)

abbrev pub filter_parts : Option (Text × Text) → Text × Text
filter_parts none = (codes "__unsupported__", [])
filter_parts (some (before, after)) =
    (trim_space before, trim_right_quotes (trim_left_quotes (trim_space after)))

-- `eqFilter`
unfoldable pub eq_filter : Text → Text × Text
eq_filter filter =
    let trimmed = trim_space filter in
    if is_blank trimmed then ([], []) else filter_parts (split_text (codes " eq ") trimmed)

-- The switches of `filterUsers` and `filterGroups`, on the attribute in lower case; none is their
-- default.
unfoldable pub user_candidate : Text → Option (User → Text)
user_candidate attribute =
    if text_eq attribute (codes "id")
    then some (λ u. u.id)
    else if text_eq attribute (codes "externalid")
    then some (λ u. u.external_id)
    else if text_eq attribute (codes "username")
    then some (λ u. u.user_name)
    else if text_eq attribute (codes "emails.value")
    then some (λ u. u.email)
    else none

unfoldable pub group_candidate : Text → Option (Group → Text)
group_candidate attribute =
    if text_eq attribute (codes "id")
    then some (λ g. g.id)
    else if text_eq attribute (codes "externalid")
    then some (λ g. g.external_id)
    else if text_eq attribute (codes "displayname")
    then some (λ g. g.display_name)
    else none

-- `slicePage`
unfoldable pub slice_page : {A : Type 0} → List A → ℕ → ℕ → List A
slice_page values start count =
    if leb (length values) start
    then []
    else let end = if ltb (length values) (start + count) then length values else start + count in
      take (end - start) (drop start values)

-- An error of the store, as `writeStoreError` tells them apart, and the status that it answers with.
pub data StoreError : Type 0 where
  no_rows conflict invalid unavailable : StoreError

abbrev pub status_of : StoreError → ℕ
status_of no_rows = 404
status_of conflict = 409
status_of invalid = 400
status_of unavailable = 500

-- What a listing of the store returns: an error, or a page and the total.
pub data Listed (A : Type 0) : Type 0 where
  failed : StoreError → Listed A
  page : List A → ℕ → Listed A

-- What `allUsers` returns; `stuck` stands for a loop that has not ended.
pub data Everything (A : Type 0) : Type 0 where
  broken : Everything A
  too_many : Everything A
  everything : List A → Everything A
  stuck : Everything A

-- The answer to a listing: an error's status, or the total, the index of the first and the resources.
pub data Reply (R : Type 0) : Type 0 where
  refused : ℕ → Reply R
  list_response : ℕ → ℕ → List R → Reply R

-- The store's page of its rows, in their order: `boundedPage`, LIMIT and OFFSET.
unfoldable pub bounded_count : ℕ → ℕ
bounded_count count = let n = if leb count 0 then 100 else count in if ltb 500 n then 500 else n

unfoldable pub stored_page : {A : Type 0} → List A → ℕ → ℕ → Listed A
stored_page rows start count = page (take (bounded_count count) (drop start rows)) (length rows)

-- What one more page leads to.
abbrev pub on_page : {A : Type 0} → (List A → Everything A) → Listed A → Everything A
on_page next (failed e) = broken
on_page next (page more _) = next more

module _ {A : Type 0} (list : ℕ → ℕ → Listed A) where
  -- The loop of `allUsers`, on fuel for its turns.
  unfoldable pub next_pages : ℕ → ℕ → ℕ → List A → Everything A
  next_pages zero offset total users = stuck
  next_pages (suc fuel) offset total users =
      let next =
        on_page (λ more. next_pages fuel (offset + 500) total (users ++ more)) (list offset 500) in
      if ltb offset total then next else everything users

  unfoldable pub all_from : Listed A → Everything A
  all_from (failed e) = broken
  all_from (page users total) =
      if ltb 10000 total then too_many else next_pages 21 (length users) total users

  -- `allUsers`
  unfoldable pub all_users : Everything A
  all_users = all_from (list 0 500)

module _ {A : Type 0} (wide fold : ℕ → ℕ) (candidates : Text → Option (A → Text)) where
  unfoldable pub filter_by : Text → List A → Option (A → Text) → List A
  filter_by value users none = []
  filter_by value users (some candidate) =
      select (λ u. text_eq (to_lower fold (candidate u)) (to_lower fold value)) users

  -- `filterUsers`
  unfoldable pub filter_users : List A → Text → List A
  filter_users users filter =
      let (attribute, value) = eq_filter filter in
      if is_blank attribute
      then users
      else filter_by value users (candidates (to_lower wide attribute))

module _ {A R : Type 0} (list : ℕ → ℕ → Listed A) (found : List A → Text → List A)
    (resource : A → R) where
  unfoldable pub on_stored : ℕ → Listed A → Reply R
  on_stored start (failed e) = refused (status_of e)
  on_stored start (page users total) = list_response total (start + 1) (map resource users)

  unfoldable pub on_everything : Text → ℕ → ℕ → Everything A → Reply R
  on_everything filter start count (everything users) =
      list_response (length (found users filter)) (start + 1)
        (map resource (slice_page (found users filter) start count))
  on_everything filter start count broken = refused 400
  on_everything filter start count too_many = refused 400
  on_everything filter start count stuck = refused 0

  -- `listUsers`, on the values of its three parameters
  unfoldable pub list_users : Text → Text → Text → Reply R
  list_users start_index count filter =
      let (start, n) = page_parameters start_index count in
      if is_blank (trim_space filter)
      then on_stored start (list start n)
      else on_everything (trim_space filter) start n (all_users list)
