-- ===== src/Identity/Permission/Laws.antt =====
-- What the sets of permissions of permissions.go hold.
use git_single_tenant_templa.Prelude.{
  ◌≡◌, refl, ap, ◌∙◌, ◌↔◌, true, false, not, ◌&&◌, ◌||◌, List, [], ◌∷◌, arith, str_eq, str_eq_iff,
  any, all, filter, sort_by, any-sort_by, any-filter,
}
use git_single_tenant_templa.Identity.Permission.{
  catalog, has, add, add_all, new_permission_set, valid, all_permissions, superset, text_le,
  missing,
}
use git_single_tenant_templa.Model.{Permission, PermissionSet}

pub has_nil : (q : Permission) → has [] q ≡ false
unfolding has any
has_nil q = refl

pub has_cons : (p q : Permission) (s : PermissionSet) → has (p ∷ s) q ≡ (str_eq p q || has s q)
unfolding has any
has_cons p q s = refl

-- Membership of a set respects equality of texts.
has_of_eq : (s : PermissionSet) (p q : Permission) → str_eq p q ≡ true → has s p ≡ has s q
has_of_eq s p q h = ap (has s) ((str_eq_iff p q).0 h)

pub has-add : (s : PermissionSet) (p q : Permission) → has (add s p) q ≡ (str_eq p q || has s q)
unfolding add
has-add s p q = ground (arith, has_cons p q s, has_of_eq s p q)

pub has-add_all :
    (s : PermissionSet) (ps : List Permission) (q : Permission)
    → has (add_all s ps) q ≡ (has s q || has ps q)
unfolding add_all
has-add_all s [] q = ground (arith, has_nil q)
has-add_all s (p ∷ ps) q =
    ground (arith, has-add_all (add s p) ps q, has-add s p q, has_cons p q ps)

pub has-new_permission_set :
    (ps : List Permission) (q : Permission) → has (new_permission_set ps) q ≡ has ps q
unfolding new_permission_set
has-new_permission_set ps q = ground (arith, has-add_all [] ps q, has_nil q)

-- The superuser's set holds what the catalog lists, and nothing else.
pub has-all_permissions : (p : Permission) → has all_permissions p ≡ valid p
unfolding all_permissions valid
has-all_permissions p = ground (arith, has-add_all [] catalog p, has_nil p, any_catalog p)
  where
    any_catalog : (p : Permission) → has catalog p ≡ any (λ e. str_eq e p) catalog
    any_catalog p = refl

all-has :
    (s other : PermissionSet) (p : Permission)
    → all (λ q. has s q) other ≡ true
    → has other p ≡ true
    → has s p ≡ true
unfolding all
all-has s [] p h k = cc (has_nil p)
all-has s (q ∷ other) p h k = ground (arith, has_cons q p other, has_of_eq s q p, all-has s other p)

-- A set that passed the test holds every permission of the other.
pub superset-has :
    (s other : PermissionSet) (p : Permission)
    → superset s other ≡ true
    → has other p ≡ true
    → has s p ≡ true
unfolding superset
superset-has = all-has

superset_of_all :
    (s other : PermissionSet)
    → ((p : Permission) → has other p ≡ true → has s p ≡ true)
    → superset s other ≡ true
unfolding superset all
superset_of_all s [] h = refl
superset_of_all s (q ∷ other) h = ground (
  arith,
  h q,
  has_cons q q other,
  str_eq_iff q q,
  superset_of_all s other (λ p k. h p (ground (arith, has_cons q p other))),
)

-- `Superset` is inclusion of sets, whatever the order in which the keys are visited.
pub superset_iff :
    (s other : PermissionSet)
    → (superset s other ≡ true) ↔ ((p : Permission) → has other p ≡ true → has s p ≡ true)
superset_iff s other = (λ h p k. superset-has s other p h k, superset_of_all s other)

any-lacked :
    (s other : PermissionSet) (p : Permission)
    → any (λ q. not (has s q) && str_eq q p) other ≡ (has other p && not (has s p))
unfolding any
any-lacked s [] p = ground (arith, has_nil p)
any-lacked s (q ∷ other) p =
    ground (arith, has_cons q p other, has_of_eq s q p, any-lacked s other p)

-- `Missing` lists exactly the permissions of the other set that this one lacks.
pub has-missing :
    (s other : PermissionSet) (p : Permission)
    → has (missing s other) p ≡ (has other p && not (has s p))
unfolding missing
has-missing s other p =
    has_any (sort_by text_le (filter (λ q. not (has s q)) other))
    ∙ any-sort_by (λ q. str_eq q p) text_le (filter (λ q. not (has s q)) other)
    ∙ any-filter (λ q. str_eq q p) (λ q. not (has s q)) other
    ∙ any-lacked s other p
  where
    has_any : (t : PermissionSet) → has t p ≡ any (λ q. str_eq q p) t
    has_any t = unfold has in refl
