-- ===== src/Tests/Auth.antt =====
-- `authorize` with the default keys and roles of src/shared/configuration.py.
use agentic_ai.Base.{◌≡◌, ◌≤◌, ◌↔◌, true, false, String, some, [], ◌∷◌, refl, arith}
use agentic_ai.Domain.Errors.{ok}
use agentic_ai.Auth.{
  Permission, AuthSettings, Claims, claims, text, value, Headers, CallerContext,
  permission_hierarchy, permission_from_claims, permission_of_roles, read_roles, authenticate,
  authorize, resolve_permission, Introspection,
}
use agentic_ai.Auth.Tokens.{parse_bearer_token, partition, lower, parts}
use agentic_ai.Base.Text.{split_on}
use agentic_ai.Auth.Roles.{IsHighest, permission_iff}
use agentic_ai.Auth.Grants.{authorize-key, IsGranted, authorize-IsGranted, authorize_lower}

abbrev key_of : Permission → String
key_of Permission.read = "dev-read-key"
key_of Permission.write = "dev-write-key"
key_of Permission.approve = "dev-approve-key"
key_of Permission.admin = "dev-admin-key"

abbrev role_of : Permission → String
role_of Permission.read = "billing.read"
role_of Permission.write = "billing.write"
role_of Permission.approve = "billing.approve"
role_of Permission.admin = "billing.admin"

abbrev pub by_key : AuthSettings
by_key = record {
  oidc_introspection = false;
  auth_introspection_url = some "https://identity/introspect";
  auth_role_claim = "roles";
  auth_scope_claim = "scope";
  auth_role = role_of;
  auth_key = key_of;
}

abbrev by_token : AuthSettings
by_token = record by_key { oidc_introspection = true }

abbrev approver_claims : Claims
approver_claims =
    ("active", value true "True")
    ∷ ("sub", text "ann")
    ∷ ("scope", text "billing.read billing.approve")
    ∷ []

abbrev pub provider : String → Introspection
provider token = claims approver_claims

abbrev pub approver : Headers
approver = record {
  x_api_key = "dev-approve-key";
  x_actor_id = "system";
  authorization = "Bearer t-1";
}

abbrev by_approver : CallerContext
by_approver = record { actor_id = "system"; permission = Permission.approve }

abbrev ann : CallerContext
ann = record { actor_id = "ann"; permission = Permission.approve }

key_grants : authorize by_key provider Permission.approve approver ≡ ok by_approver
unfolding authorize resolve_permission
key_grants = refl

token_grants : authorize by_token provider Permission.approve approver ≡ ok ann
unfolding authorize authenticate parse_bearer_token partition lower permission_from_claims
    permission_of_roles read_roles parts split_on
token_grants = refl

permission_iff_example :
    (permission_from_claims by_token approver_claims ≡ ok Permission.approve)
    ↔ IsHighest by_token (read_roles by_token approver_claims) Permission.approve
permission_iff_example = permission_iff by_token approver_claims Permission.approve

authorize-key_example :
    (approver.x_api_key ≡ by_key.auth_key by_approver.permission)
    × (permission_hierarchy Permission.approve ≤ permission_hierarchy by_approver.permission)
    × (by_approver.actor_id ≡ approver.x_actor_id)
authorize-key_example =
    authorize-key by_key provider Permission.approve approver by_approver refl key_grants

authorize-IsGranted_example : IsGranted by_token provider Permission.approve approver ann
authorize-IsGranted_example =
    authorize-IsGranted by_token provider Permission.approve approver ann refl token_grants

authorize_lower_example : authorize by_token provider Permission.read approver ≡ ok ann
authorize_lower_example =
    authorize_lower by_token provider Permission.approve approver ann Permission.read (omega arith)
      token_grants
