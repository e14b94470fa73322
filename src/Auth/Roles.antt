-- ===== src/Auth/Roles.antt =====
-- The permission that the roles of a token give.
use agentic_ai.Base.{◌≡◌, ◌≤◌, ◌↔◌, true, String, List, arith}
use agentic_ai.Domain.Errors.{ok}
use agentic_ai.Auth.{
  Permission, AuthSettings, Claims, permission_hierarchy, mem, read_roles, permission_of_roles,
  permission_from_claims,
}

-- The token has the role of a permission, and of none above it.
abbrev pub IsHighest : AuthSettings → List String → Permission → Type 0
IsHighest settings roles p =
    (mem (settings.auth_role p) roles ≡ true)
    × ((q : Permission)
        → mem (settings.auth_role q) roles ≡ true
        → permission_hierarchy q ≤ permission_hierarchy p)

module _ (settings : AuthSettings) (roles : List String) where
  permission_mem :
      (p : Permission)
      → permission_of_roles settings roles ≡ ok p
      → mem (settings.auth_role p) roles ≡ true
  unfolding permission_of_roles
  permission_mem p h = ground arith

  permission_above :
      (p q : Permission)
      → permission_of_roles settings roles ≡ ok p
      → mem (settings.auth_role q) roles ≡ true
      → permission_hierarchy q ≤ permission_hierarchy p
  unfolding permission_of_roles
  permission_above p Permission.read h m = ground arith
  permission_above p Permission.write h m = ground arith
  permission_above p Permission.approve h m = ground arith
  permission_above p Permission.admin h m = ground arith

  IsHighest-permission :
      (p : Permission) → IsHighest settings roles p → permission_of_roles settings roles ≡ ok p
  unfolding permission_of_roles
  IsHighest-permission p h =
      ground (arith, h.0, h.1 Permission.write, h.1 Permission.approve, h.1 Permission.admin)

-- A token is given a permission exactly when it has the permission's role and the role of no
-- permission above it.
pub permission_iff :
    (settings : AuthSettings) (data' : Claims) (p : Permission)
    → (permission_from_claims settings data' ≡ ok p)
      ↔ IsHighest settings (read_roles settings data') p
unfolding permission_from_claims
permission_iff settings data' p =
    let roles = read_roles settings data' in
    (
      λ h. (permission_mem settings roles p h, λ q. permission_above settings roles p q h),
      IsHighest-permission settings roles p,
    )
