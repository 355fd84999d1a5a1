-- ===== src/Tests/Accounts.antt =====
-- The identity store at concrete inputs.
use repo_karta.Accounts.Effective.{IfDone, IsEffective, resolve_identity-IsEffective}
use repo_karta.Accounts.Refused.{second_user, resolve_identity-delete_user, resolve_identity-taken}
use repo_karta.Accounts.Resolve.{
  after_first_save, first_row, highest, identity_by_claims, identity_group_roles, is_awaited,
  is_bound, mapped_role, member_roles, new_user, provider_roles, resolve_identity, trimmed_claims,
  with_row, with_user,
}
use repo_karta.Accounts.Tables.{
  Tables, cleaned, clashes, delete_user, deprovisioned, done, error, save_user, suspend, upsert,
  user_row, write_user,
}
use repo_karta.Common.Equal.{has_text}
use repo_karta.Common.Text.{
  Text, codes, has_prefix, lower_rune, rune, text_eq, to_lower, trim_left, trim_right, trim_space,
}
use repo_karta.Common.{ℕ, ◌≡◌, inr, refl, true, false, some, none, [], ◌∷◌}
use repo_karta.Identity.Roles.{folded, max_role, normalize_role, role_name, role_rank}
use repo_karta.Identity.Users.{Claims, User}
use repo_karta.Security.Gate.{
  Gate, Principal, Request, is_public_security_path, is_resolved, middleware,
  mode_cloudflare_access, refused,
}
use repo_karta.Security.Resolver.{claims_of, resolver}
use repo_karta.Security.Suspended.{middleware-delete_user}

abbrev same : ℕ → ℕ
same c = c

abbrev lower : Text → Text
lower s = s

-- A reader, bound to a sign-in by Cloudflare.
abbrev ann : User
ann = record {
  id = codes "usr_1";
  external_id = [];
  user_name = codes "a@x";
  display_name = [];
  email = codes "a@x";
  auth_provider = codes "cf";
  auth_subject = codes "s1";
  active = true;
  role = codes "reader";
  scim_managed = false;
  created_at = 1;
  updated_at = 1;
}

-- Ann is in a group of maintainers, and the group "ops" of Cloudflare is mapped to readers.
abbrev tables : Tables
tables = record {
  users = ann ∷ [];
  groups =
      record {
        id = codes "grp_1";
        external_id = [];
        display_name = codes "g";
        role = codes "knowledge-maintainer";
        members = codes "usr_1" ∷ [];
        created_at = 1;
        updated_at = 1;
      }
      ∷ [];
  mappings =
      record { id = 1; provider = codes "cf"; group_value = codes "ops"; role = codes "reader" }
      ∷ [];
}

abbrev by_cloudflare : Claims
by_cloudflare = record {
  provider = codes "cf";
  subject = codes "s1";
  email = codes "a@x";
  name = codes "Ann";
  groups = codes "ops" ∷ [];
}

resolve_identity-ann :
    resolve_identity same lower 9 (codes "usr_2") (codes "usr_3") by_cloudflare tables
    ≡ (tables, done (record { user = ann; role = codes "knowledge-maintainer"; known = true }))
unfolding resolve_identity trimmed_claims with_row with_user identity_by_claims first_row is_bound
    is_awaited highest identity_group_roles member_roles mapped_role provider_roles has_text
    max_role role_rank normalize_role folded role_name lower_rune rune text_eq to_lower trim_left
    trim_right trim_space
resolve_identity-ann = refl

resolve_identity-IsEffective_example :
    let (after, result) =
      resolve_identity same lower 9 (codes "usr_2") (codes "usr_3") by_cloudflare tables in
    IfDone (IsEffective same lower (trimmed_claims by_cloudflare) after) result
resolve_identity-IsEffective_example =
    resolve_identity-IsEffective same lower 9 (codes "usr_2") (codes "usr_3") by_cloudflare tables

abbrev without_ann : Tables
without_ann = record tables { users = record ann { active = false; updated_at = 5 } ∷ [] }

resolve_identity-delete_user_example :
    (resolve_identity same lower 9 (codes "usr_2") (codes "usr_3") by_cloudflare without_ann).1
    ≡ error deprovisioned
unfolding identity_by_claims first_row is_bound trimmed_claims delete_user suspend text_eq trim_left
    trim_right trim_space
resolve_identity-delete_user_example =
    resolve_identity-delete_user same lower 5 9 (codes " usr_1 ") (codes "usr_2") (codes "usr_3")
      by_cloudflare tables without_ann ann refl refl refl refl

-- The same person by SAML: the mail address is taken as a user name.
abbrev by_saml : Claims
by_saml = record by_cloudflare { provider = codes "saml" }

resolve_identity-taken_example :
    let (after, result) =
      resolve_identity same lower 9 (codes "usr_2") (codes "usr_3") by_saml tables in
    (u : User) × (user_row
        (second_user same lower 9 (codes "usr_3") (trimmed_claims by_saml)).id
        after.users
      ≡ some u)
    × (u.active ≡ false)
    × (u.auth_provider ≡ [])
    × (u.auth_subject ≡ [])
    × (result ≡ error deprovisioned)
unfolding identity_by_claims first_row is_bound is_awaited trimmed_claims cleaned new_user clashes
    text_eq trim_left trim_right trim_space
resolve_identity-taken_example =
    resolve_identity-taken same lower 9 (codes "usr_2") (codes "usr_3") by_saml tables refl refl
      refl refl refl

resolve_identity-saml :
    (resolve_identity same lower 9 (codes "usr_2") (codes "usr_3") by_saml tables).1
    ≡ error deprovisioned
unfolding resolve_identity trimmed_claims with_row with_user identity_by_claims first_row is_bound
    is_awaited after_first_save new_user save_user write_user cleaned clashes upsert user_row
    normalize_role folded role_name lower_rune rune text_eq to_lower trim_left trim_right trim_space
resolve_identity-saml = refl

-- Ann's requests by Cloudflare, once she is suspended.
abbrev ann_principal : Principal
ann_principal = record {
  id = codes "s1";
  email = codes "a@x";
  name = codes "Ann";
  provider = codes "cf";
  groups = codes "ops" ∷ [];
  role = [];
  is_admin = false;
}

abbrev gate : Tables → Gate
gate t = record {
  mode = mode_cloudflare_access;
  identities = some (resolver same lower 9 (codes "usr_2") (codes "usr_3") t);
  cloudflare = some (λ token. some ann_principal);
  saml = none;
}

abbrev request : Request
request = record { path = codes "/api"; assertion = codes " jwt "; in_bounds = true }

middleware-delete_user_example : middleware (gate without_ann) request ≡ refused 403
unfolding identity_by_claims first_row is_bound trimmed_claims claims_of delete_user suspend text_eq
    is_resolved is_public_security_path has_prefix trim_left trim_right trim_space
middleware-delete_user_example =
    middleware-delete_user same lower 5 9 (codes " usr_1 ") (codes "usr_2") (codes "usr_3") tables
      without_ann ann ann_principal (gate without_ann) request refl refl refl refl refl
      (inr ((λ token. some ann_principal), refl, refl, refl, refl)) refl refl refl
