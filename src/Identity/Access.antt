-- ===== src/Identity/Access.antt =====
-- The authority of a caller: Access, the union of the permissions of roles, and the guard
-- checkEscalation (models.go, roles_service.go).
pub mod Laws
use git_single_tenant_templa.Prelude.{
  String, Bool, true, false, ◌&&◌, List, [], ◌∷◌, map, str_eq, if◌then◌else◌, is_none, any,
}
use git_single_tenant_templa.Exec.{Result, ok, err}
use git_single_tenant_templa.Identity.Permission.{has, add_all, superset, missing}
use git_single_tenant_templa.Model.{Permission, PermissionSet, User, Role, Access, escalation}

abbrev pub role_key_admin : String
role_key_admin = "admin"

-- The outer loop of unionPermissions.
unfoldable pub union_from : PermissionSet → List Role → PermissionSet
unfolding add_all
union_from out [] = out
union_from out (r ∷ rs) = union_from (add_all out r.permissions) rs

unfoldable pub union_permissions : List Role → PermissionSet
unfolding union_from
union_permissions roles = union_from [] roles

unfoldable pub has_role : List Role → String → Bool
unfolding any
has_role roles key = any (λ r. r.is_system && str_eq r.key key) roles

-- Access.Can
unfoldable pub can : Access → Permission → Bool
unfolding has
can a p = has a.permissions p

unfoldable pub actor_holds_role : Access → String → Bool
unfolding has_role
actor_holds_role access key = has_role access.roles key

unfoldable pub check_escalation : Access → PermissionSet → Result (Unit {0})
unfolding superset missing
check_escalation actor granting =
    if superset actor.permissions granting
    then ok tt
    else err (escalation (missing actor.permissions granting))

-- User.IsVerified
unfoldable pub is_verified : User → Bool
is_verified u = elim (is_none u.email_verified_at) [ true ↦ false | false ↦ true ]

abbrev pub role_keys : List Role → List String
role_keys roles = map (λ r. r.key) roles
