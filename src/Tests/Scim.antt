-- ===== src/Tests/Scim.antt =====
-- The SCIM service at concrete inputs.
use mathlib.Core.List.{map}
use repo_karta.Common.Equal.{has_text, is_blank, split_text}
use repo_karta.Common.Text.{
  Text, codes, cut, has_prefix, lower_rune, rune, text_eq, to_lower, trim_left, trim_right,
  trim_space,
}
use repo_karta.Common.{
  ℕ, ◌+◌, ◌≡◌, refl, true, false, ◌&&◌, ◌||◌, not, none, some, List, [], ◌∷◌, length, ltb,
  if◌then◌else◌, drop, take,
}
use repo_karta.Identity.Roles.{folded, normalize_role, role_name}
use repo_karta.Scim.Paths.{is_named, somebody}
use repo_karta.Scim.Changes.{carries, Leaves, IsKept, apply_group_patch-IsKept, patch_members-has}
use repo_karta.Scim.Listing.{
  all_from, all_users, atoi, bounded_count, digits_value, eq_filter, filter_by, filter_users,
  list_response, list_users, next_pages, on_everything, page_parameters, refused, slice_page,
  stored_page, trim_left_quotes, trim_right_quotes, user_candidate,
}
use repo_karta.Scim.Members.{
  add_members, append_new, append_unique, member_filter_value, member_values, removal, retain,
}
use repo_karta.Scim.Numbers.{Asks}
use repo_karta.Scim.Pages.{IsCount, IsStart, list_users-page}
use repo_karta.Scim.Patches.{
  Operation, Value, apply_group_patch, apply_user_patch, bad, carried, group_operation, is_removal,
  replaced, patch_active, patch_members, patch_roles, user_operation,
}
use repo_karta.Scim.Resources.{
  Group, User, UserResource, active_of, email_of, put_user, role_of, user_from_resource,
  user_resource,
}
use repo_karta.Scim.UserChanges.{IsSame, apply_user_patch-IsSame, put_user-user_resource}

abbrev same : ℕ → ℕ
same c = c

abbrev user : Text → User
user name = record {
  id = codes "usr_1";
  external_id = [];
  user_name = name;
  display_name = [];
  email = codes "a@x";
  auth_provider = codes "saml";
  auth_subject = codes "s";
  active = true;
  role = codes "Administrator";
  scim_managed = false;
  created_at = 7;
  updated_at = 9;
}

abbrev group : Group
group = record {
  id = codes "grp_1";
  external_id = [];
  display_name = codes "g";
  role = codes "reader";
  members = codes "a" ∷ codes "b" ∷ [];
  created_at = 3;
  updated_at = 4;
}

abbrev absent : Value
absent = record {
  as_bool = bad;
  as_text = bad;
  as_emails = none;
  as_roles = none;
  as_user = none;
  as_members = none;
  as_wrapper = none;
  is_absent = true;
}

-- A member by its name, an addition of two, and a removal by a filter in the path.
abbrev member_patch : List Operation
member_patch =
    record {
      op = codes "add";
      path = codes "members";
      value = record absent { as_members = some (codes " c " ∷ codes "a" ∷ []); is_absent = false };
    }
    ∷ record { op = codes "Remove"; path = codes "members[value eq \"b\"]"; value = absent }
    ∷ []

abbrev patched : Group
patched = record group { members = codes "a" ∷ codes "c" ∷ [] }

group-patched : apply_group_patch same group member_patch ≡ some patched
unfolding apply_group_patch group_operation patch_members is_removal carried removal retain
    append_unique append_new add_members member_values member_filter_value split_text has_text cut
    has_prefix lower_rune rune text_eq to_lower trim_left trim_right trim_space
group-patched = refl

apply_group_patch-IsKept_example : IsKept group patched
unfolding has_text text_eq
apply_group_patch-IsKept_example =
    apply_group_patch-IsKept same group patched member_patch (refl, refl, (refl, refl, tt))
      group-patched

patch_members-has_example :
    let kept = not (is_blank (codes "b")) && carries (codes "b") (codes "c" ∷ []) in
    Leaves
      (patch_members same group
        (codes "replace")
        (codes "members[value eq \"b\"]")
        (codes "c" ∷ []))
      (codes "b")
      kept
    × Leaves
        (patch_members same group (codes "add") (codes "members[value eq \"b\"]") (codes "c" ∷ []))
        (codes "b")
        (has_text (codes "b") group.members || kept)
    × Leaves
        (patch_members same group
          (codes "remove")
          (codes "members[value eq \"b\"]")
          (codes "c" ∷ []))
        (codes "b")
        (has_text (codes "b") group.members
          && not (kept || is_named (codes "b") (some (codes "b"))))
patch_members-has_example =
    patch_members-has same group (codes "members[value eq \"b\"]") (codes "c" ∷ []) (codes "b")
      (some (codes "b"))
      (somebody _ (codes "members[") (codes "b") (codes "]")
        (refl, (refl, (refl, (refl, (refl, (refl, (refl, (refl, tt)))))))) (refl, tt) refl)

abbrev user_patch : List Operation
user_patch =
    record {
      op = codes "replace";
      path = codes "roles";
      value = record absent {
        as_roles = some (codes "knowledge-maintainer" ∷ []);
        is_absent = false;
      };
    }
    ∷ record { op = codes "remove"; path = codes "active"; value = absent }
    ∷ []

abbrev changed : User
changed = record (user (codes "u")) { role = codes "knowledge-maintainer"; active = false }

user-patched : apply_user_patch same (user (codes "u")) user_patch ≡ some changed
unfolding apply_user_patch user_operation patch_active patch_roles is_removal normalize_role folded
    role_name lower_rune rune text_eq to_lower trim_left trim_right trim_space
user-patched = refl

apply_user_patch-IsSame_example : IsSame (user (codes "u")) changed
apply_user_patch-IsSame_example =
    apply_user_patch-IsSame same (user (codes "u")) changed user_patch user-patched

put_user-user_resource_example :
    put_user same (user (codes "u")) (user_resource same (user (codes "u")))
    ≡ record (user (codes "u")) {
      role = role_name (normalize_role same (codes "Administrator"));
      scim_managed = true;
      updated_at = 0;
    }
put_user-user_resource_example = put_user-user_resource same (user (codes "u"))

abbrev users : List User
users = user (codes "ann") ∷ user (codes "bob") ∷ user (codes "Ann") ∷ []

abbrev by_ann : Text
by_ann = codes " userName eq \"ANN\" "

abbrev name_of : User → Text
name_of u = u.user_name

list_users-ann :
    list_users
      (stored_page users)
      (filter_users same same user_candidate)
      name_of
      (codes "2")
      (codes "600")
      by_ann
    ≡ list_response 2 2 (codes "Ann" ∷ [])
unfolding list_users all_users all_from next_pages stored_page bounded_count on_everything
    filter_users filter_by eq_filter user_candidate page_parameters atoi digits_value slice_page
    split_text trim_left_quotes trim_right_quotes has_prefix lower_rune rune text_eq to_lower
    trim_left trim_right trim_space
list_users-ann = refl

list_users-page_example :
    let found = filter_users same same user_candidate users (trim_space by_ann) in
    let reply =
      list_users
        (stored_page users)
        (filter_users same same user_candidate)
        name_of
        (codes "2")
        (codes "600")
        by_ann in
    (first most start n : ℕ) × Asks (codes "2") first
    × Asks (codes "600") most
    × IsStart first start
    × IsCount most n
    × (reply ≡ (
        if not (is_blank (trim_space by_ann)) && ltb 10000 (length users)
        then refused 400
        else list_response (length found) (start + 1) (map name_of (take n (drop start found)))))
list_users-page_example =
    list_users-page same same user_candidate name_of (stored_page users) users (codes "2")
      (codes "600") by_ann (λ start count. refl)

-- A replacement without a path that only says `"active": false` empties all else.
abbrev only_inactive : UserResource
only_inactive = record {
  id = [];
  external_id = [];
  user_name = [];
  display_name = [];
  active = some false;
  emails = [];
  roles = [];
  created = 0;
  last_modified = 0;
}

pathless-deactivation :
    apply_user_patch same (user (codes "u")) (
      record {
        op = codes "replace";
        path = [];
        value = record absent { as_user = some only_inactive; is_absent = false };
      }
      ∷ [])
    ≡ some (record (user (codes "u")) {
      user_name = [];
      email = [];
      active = false;
      role = codes "reader";
      scim_managed = true;
      updated_at = 0;
    })
unfolding apply_user_patch user_operation is_removal replaced user_from_resource active_of email_of
    role_of role_name lower_rune rune text_eq to_lower trim_left trim_right trim_space
pathless-deactivation = refl
