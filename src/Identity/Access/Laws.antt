-- ===== src/Identity/Access/Laws.antt =====
-- The escalation guard, and what a union of roles grants.
use git_single_tenant_templa.Prelude.{
  ◌≡◌, refl, ◌↔◌, true, false, not, ◌&&◌, ◌||◌, List, [], ◌∷◌, arith, any,
}
use git_single_tenant_templa.Exec.{ok, err}
use git_single_tenant_templa.Identity.Access.{union_from, union_permissions, check_escalation}
use git_single_tenant_templa.Identity.Permission.{has, add_all}
use git_single_tenant_templa.Identity.Permission.Laws.{has-add_all, superset_iff, has-missing}
use git_single_tenant_templa.Model.{Permission, PermissionSet, Role, Access, escalation}

has-union_from :
    (out : PermissionSet) (roles : List Role) (p : Permission)
    → has (union_from out roles) p ≡ (has out p || any (λ r. has r.permissions p) roles)
unfolding union_from any
has-union_from out [] p = ground arith
has-union_from out (r ∷ rs) p =
    ground (arith, has-union_from (add_all out r.permissions) rs p, has-add_all out r.permissions p)

-- The union grants a permission exactly when one of the roles does.
pub has-union_permissions :
    (roles : List Role) (p : Permission)
    → has (union_permissions roles) p ≡ any (λ r. has r.permissions p) roles
unfolding union_permissions
has-union_permissions roles p = ground (arith, has-union_from [] roles p, has_nil)
  where
    has_nil : has [] p ≡ false
    has_nil = unfold has any in refl

-- The guard lets a grant pass exactly when the caller holds every permission in it.
pub check_escalation_iff :
    (actor : Access) (granting : PermissionSet)
    → (check_escalation actor granting ≡ ok tt)
      ↔ ((p : Permission) → has granting p ≡ true → has actor.permissions p ≡ true)
unfolding check_escalation
check_escalation_iff actor granting =
    let (to, from) = superset_iff actor.permissions granting in
    (λ h. to (ground arith), λ h. ground (arith, from h))

-- A refusal lists the permissions that the caller would have granted without holding them: those,
-- and no others.
pub check_escalation_refusal :
    (actor : Access) (granting : PermissionSet) (lacked : List Permission)
    → check_escalation actor granting ≡ err (escalation lacked)
    → (p : Permission) → has lacked p ≡ (has granting p && not (has actor.permissions p))
unfolding check_escalation
check_escalation_refusal actor granting lacked h p =
    ground (arith, has-missing actor.permissions granting p)
