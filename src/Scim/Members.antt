-- ===== src/Scim/Members.antt =====
-- The members of a group in internal/scim/scim.go.
use repo_karta.Common.Equal.{has_text, is_blank, split_text}
use repo_karta.Common.Text.{Text, codes, cut, trim_space}
use repo_karta.Common.{◌&&◌, not, Option, none, some, List, [], ◌∷◌, ◌++◌, if◌then◌else◌, select}

-- `appendUnique`; what `seen` holds is what `values` holds.
unfoldable pub append_new : Text → List Text → List Text
append_new value values =
    if not (has_text value values) && not (is_blank value) then values ++ value ∷ [] else values

unfoldable pub append_unique : List Text → List Text → List Text
append_unique values [] = values
append_unique values (value ∷ additions) = append_unique (append_new value values) additions

-- `memberValues`, of the members' values
unfoldable pub add_members : List Text → List Text → List Text
add_members values [] = values
add_members values (member ∷ members) =
    let value = trim_space member in
    add_members (if not (is_blank value) then append_unique values (value ∷ []) else values) members

unfoldable pub member_values : List Text → List Text
member_values members = add_members [] members

abbrev pub up_to_quote : Option (Text × Text) → Text
up_to_quote none = []
up_to_quote (some (start, s)) =
    let (before, after, found) = cut b'"' s in if found then before else []

-- `memberFilterValue`
unfoldable pub member_filter_value : Text → Text
member_filter_value path = up_to_quote (split_text (codes "value eq \"") path)

-- The loop of a removal.
unfoldable pub retain : List Text → List Text → List Text
retain removed members = select (λ member. not (has_text member removed)) members

-- The set `remove`.
unfoldable pub removal : Text → List Text → List Text
removal path values =
    let marker = member_filter_value path in
    if not (is_blank marker) then marker ∷ values else values
