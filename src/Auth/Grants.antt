-- ===== src/Auth/Grants.antt =====
-- Whom `authorize` lets in.
use agentic_ai.Base.{◌≡◌, ◌≤◌, true, false, String, arith, eq_iff, ◌==◌}
use agentic_ai.Domain.Errors.{ok, and_then-ok}
use agentic_ai.Auth.{
  Permission, AuthSettings, Claims, claims, Introspection, Headers, CallerContext, get, is_true,
  subject_of, permission_hierarchy, resolve_permission, permission_from_claims, authenticate,
  authorize, introspected, IdentityContext, checked, identified, acting_as, not_object, timed_out,
  failed, malformed, require_permission,
}
use agentic_ai.Auth.Tokens.{parse_bearer_token}

introspected-claims :
    (r : Introspection) (data' : Claims) → introspected r ≡ ok data' → r ≡ claims data'
introspected-claims (claims d) data' e = cc
introspected-claims not_object data' e = cc
introspected-claims timed_out data' e = cc
introspected-claims failed data' e = cc
introspected-claims (malformed x) data' e = cc

module _ (settings : AuthSettings) (provider : String → Introspection) where
  -- What the provider has answered to a token that is authenticated.
  authenticate-claims :
      (token : String) (identity : IdentityContext)
      → authenticate settings provider token ≡ ok identity
      → (data' : Claims) × (provider token ≡ claims data')
        × (is_true (get "active" data') ≡ true)
        × ((subject_of (get "sub" data') == "") ≡ false)
        × (permission_from_claims settings data' ≡ ok identity.permission)
  unfolding authenticate
  authenticate-claims token identity e =
      let (data', answered, rest) =
        and_then-ok (introspected (provider token)) (checked settings) {b = identity}
          (ground (arith, e)) in
      (
        data',
        introspected-claims (provider token) data' answered,
        ground (arith, rest),
        ground (arith, rest),
        ground (arith, rest),
      )

module _ (settings : AuthSettings) (provider : String → Introspection) (required : Permission)
    (h : Headers) (c : CallerContext) where
  -- Who is let in with an API key holds the key of a permission that is high enough, and acts under
  -- the name of the header.
  pub authorize-key :
      settings.oidc_introspection ≡ false
      → authorize settings provider required h ≡ ok c
      → (h.x_api_key ≡ settings.auth_key c.permission)
        × (permission_hierarchy required ≤ permission_hierarchy c.permission)
        × (c.actor_id ≡ h.x_actor_id)
  unfolding authorize resolve_permission
  authorize-key mode e = ground (
    arith,
    eq_iff h.x_api_key (settings.auth_key Permission.read),
    eq_iff h.x_api_key (settings.auth_key Permission.write),
    eq_iff h.x_api_key (settings.auth_key Permission.approve),
    eq_iff h.x_api_key (settings.auth_key Permission.admin),
  )

  -- What a bearer token must be to let its holder in with a permission.
  abbrev pub IsGranted : Type 0
  IsGranted =
      (token : String) × (data' : Claims) × (parse_bearer_token h.authorization ≡ ok token)
      × (provider token ≡ claims data')
      × (is_true (get "active" data') ≡ true)
      × ((subject_of (get "sub" data') == "") ≡ false)
      × (permission_from_claims settings data' ≡ ok c.permission)
      × (permission_hierarchy required ≤ permission_hierarchy c.permission)

  -- Who is let in with a token presents one that the identity provider calls active, that names its
  -- subject, and whose roles give a permission that is high enough.
  pub authorize-IsGranted :
      settings.oidc_introspection ≡ true → authorize settings provider required h ≡ ok c → IsGranted
  unfolding authorize
  authorize-IsGranted mode e =
      let (token, parsed, rest) =
        and_then-ok (parse_bearer_token h.authorization) (identified settings provider required h)
          {b = c} (ground (arith, mode, e)) in
      let (identity, known, passed) =
        and_then-ok (authenticate settings provider token)
          (λ (i : IdentityContext). require_permission required i.permission (acting_as h i))
          rest in
      let (data', answered, active, subject, permission) =
        authenticate-claims settings provider token identity known in
      (
        token,
        data',
        parsed,
        answered,
        active,
        subject,
        ground (arith, passed, permission),
        ground (arith, passed),
      )

  -- Who is let in where a permission is required is let in, as the same caller, where a lower one is.
  pub authorize_lower :
      (lower : Permission)
      → permission_hierarchy lower ≤ permission_hierarchy required
      → authorize settings provider required h ≡ ok c
      → authorize settings provider lower h ≡ ok c
  unfolding authorize
  authorize_lower lower le e = ground arith
