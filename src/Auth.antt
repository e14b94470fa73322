-- ===== src/Auth.antt =====
-- src/api/dependencies.py and src/infrastructure/security/identity_provider.py: who may call what.
-- The identity provider behind the HTTP library is an argument.
pub mod Tokens
pub mod Roles
pub mod Grants
use agentic_ai.Base.{
  ℕ, String, Bool, true, false, not, ◌||◌, ◌&&◌, Option, none, some, List, [], ◌∷◌, ◌++◌, ltb, ◌==◌,
  if◌then◌else◌, is_some,
}
use agentic_ai.Base.Lists.{first}
use agentic_ai.Domain.Errors.{Error, authorization, external_service, Result, ok, err, and_then}
use agentic_ai.Auth.Tokens.{parse_bearer_token, parts}

pub data Permission : Type 0 where
  read write approve admin : Permission

pub record AuthSettings : Type 0 where
  -- `auth_mode == "oidc_introspection"`
  pub oidc_introspection : Bool
  pub auth_introspection_url : Option String
  pub auth_role_claim : String
  pub auth_scope_claim : String
  pub auth_role : Permission → String
  pub auth_key : Permission → String

-- What a claim of a token holds: a text, a list, with the texts of its items and its own, or another
-- value, with whether it counts as true and its text.
pub data Claim : Type 0 where
  text : String → Claim
  texts : List String → String → Claim
  value : Bool → String → Claim

abbrev pub Claims : Type 0
Claims = List (String × Claim)

-- What the identity provider answers to a token.
pub data Introspection : Type 0 where
  claims : Claims → Introspection
  not_object : Introspection
  timed_out : Introspection
  failed : Introspection
  -- the content is no JSON
  malformed : Error → Introspection

pub record IdentityContext : Type 0 where
  pub subject : String
  pub permission : Permission

pub record CallerContext : Type 0 where
  pub actor_id : String
  pub permission : Permission

-- `_permission_hierarchy`
abbrev pub permission_hierarchy : Permission → ℕ
permission_hierarchy read = 1
permission_hierarchy write = 2
permission_hierarchy approve = 3
permission_hierarchy admin = 4

unfoldable pub resolve_permission : String → AuthSettings → Result Permission
resolve_permission api_key settings =
    if api_key == settings.auth_key read
    then ok read
    else if api_key == settings.auth_key write
    then ok write
    else if api_key == settings.auth_key approve
    then ok approve
    else if api_key == settings.auth_key admin
    then ok admin
    else err (authorization "Invalid API key")

-- `claims.get(name)`
abbrev pub get : String → Claims → Option Claim
get name [] = none
get name ((k, c) ∷ xs) = if k == name then some c else get name xs

-- `bool(data.get(name, False))`
abbrev pub is_true : Option Claim → Bool
is_true none = false
is_true (some (text s)) = not (s == "")
is_true (some (texts [] s)) = false
is_true (some (texts (x ∷ xs) s)) = true
is_true (some (value b s)) = b

-- `str`
abbrev pub text_of : Option Claim → String
text_of none = ""
text_of (some (text s)) = s
text_of (some (texts xs s)) = s
text_of (some (value b s)) = s

-- `str(data.get(name) or "")`
abbrev pub subject_of : Option Claim → String
subject_of c = if is_true c then text_of c else ""

abbrev pub role_claims : Option Claim → List String
role_claims (some (texts xs s)) = xs
role_claims (some (text s)) = s ∷ []
role_claims _ = []

abbrev pub scope_claims : Option Claim → List String
scope_claims (some (text s)) = parts s
scope_claims _ = []

unfoldable pub read_roles : AuthSettings → Claims → List String
read_roles settings data' =
    role_claims (get settings.auth_role_claim data')
    ++ scope_claims (get settings.auth_scope_claim data')

abbrev pub mem : String → List String → Bool
mem x [] = false
mem x (y ∷ ys) = (x == y) || mem x ys

unfoldable pub permission_of_roles : AuthSettings → List String → Result Permission
permission_of_roles settings roles =
    if mem (settings.auth_role admin) roles
    then ok admin
    else if mem (settings.auth_role approve) roles
    then ok approve
    else if mem (settings.auth_role write) roles
    then ok write
    else if mem (settings.auth_role read) roles
    then ok read
    else err (authorization "Token does not have required billing role")

unfoldable pub permission_from_claims : AuthSettings → Claims → Result Permission
permission_from_claims settings data' = permission_of_roles settings (read_roles settings data')

abbrev pub introspected : Introspection → Result Claims
introspected (claims data') = ok data'
introspected not_object = err (authorization "Invalid identity response")
introspected timed_out = err (external_service "Identity provider timeout")
introspected failed = err (external_service "Identity provider request failed")
introspected (malformed e) = err e

-- `not self._settings.auth_introspection_url`
abbrev pub is_unset : Option String → Bool
is_unset none = true
is_unset (some url) = url == ""

-- The checks on the claims of a token.
abbrev pub checked : AuthSettings → Claims → Result IdentityContext
checked settings data' =
    if not (is_true (get "active" data'))
    then err (authorization "Inactive token")
    else if subject_of (get "sub" data') == ""
    then err (authorization "Token subject is missing")
    else and_then (permission_from_claims settings data') (λ permission.
      ok (record { subject = subject_of (get "sub" data'); permission = permission }))

unfoldable pub authenticate :
    AuthSettings → (String → Introspection) → String → Result IdentityContext
authenticate settings provider bearer_token =
    if is_unset settings.auth_introspection_url
    then err (authorization "OIDC introspection URL is not configured")
    else and_then (introspected (provider bearer_token)) (checked settings)

-- `if hierarchy[permission] < hierarchy[required]: raise`
abbrev pub require_permission : Permission → Permission → String → Result CallerContext
require_permission required permission actor_id =
    if ltb (permission_hierarchy permission) (permission_hierarchy required)
    then err (authorization "Insufficient permission")
    else ok (record { actor_id = actor_id; permission = permission })

pub record Headers : Type 0 where
  pub x_api_key : String
  pub x_actor_id : String
  pub authorization : String

-- `x_actor_id if x_actor_id != "system" else identity.subject`
abbrev pub acting_as : Headers → IdentityContext → String
acting_as h identity = if h.x_actor_id == "system" then identity.subject else h.x_actor_id

abbrev pub identified :
    AuthSettings → (String → Introspection) → Permission → Headers → String → Result CallerContext
identified settings provider required h token =
    and_then (authenticate settings provider token)
      (λ identity. require_permission required identity.permission (acting_as h identity))

unfoldable pub authorize :
    AuthSettings → (String → Introspection) → Permission → Headers → Result CallerContext
authorize settings provider required h =
    if settings.oidc_introspection
    then and_then (parse_bearer_token h.authorization) (identified settings provider required h)
    else and_then (resolve_permission h.x_api_key settings)
        (λ permission. require_permission required permission h.x_actor_id)
