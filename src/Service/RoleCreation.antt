-- ===== src/Service/RoleCreation.antt =====
-- What a role that CreateRole (roles_service.go) made may hold.
use git_single_tenant_templa.Repo.Roles.Writes
use git_single_tenant_templa.Repo.Roles.Rows
use git_single_tenant_templa.Prelude.{
  ℕ, String, ◌≡◌, refl, ap, ◌∙◌, subst, inl, inr, true, false, ◌&&◌, ◌||◌, List, [], ◌∷◌, flat_map,
  arith, str_eq, str_eq_iff, ◌==◌, if◌then◌else◌, ==_refl, Bool-cases, any, filter,
}
use git_single_tenant_templa.Audit.{Ensures-record_event}
use git_single_tenant_templa.Exec.{Result, ok, err, Conn, World, Env}
use git_single_tenant_templa.Exec.Ensures.{
  Ensures, Ensures-ok, Ensures-err, Ensures-pure, Ensures-raise, Ensures-lift, Ensures-if,
  Ensures-map, Ensures-bind, Ensures-in_tx,
}
use git_single_tenant_templa.Identity.Access.{can}
use git_single_tenant_templa.Identity.Access.Laws.{check_escalation_iff}
use git_single_tenant_templa.Identity.Permission.{has, add, valid}
use git_single_tenant_templa.Identity.Permission.Laws.{has_nil, has_cons, has-add}
use git_single_tenant_templa.Identity.Validation.{
  invalid, collect_permissions, with_names, validate_role_input,
}
use git_single_tenant_templa.Model.{Permission, PermissionSet, User, Role, Access, role_key_taken}
use git_single_tenant_templa.Repo.Roles.Grants.{Ensures-replace_role_permissions, any-regranted}
use git_single_tenant_templa.Repo.Roles.Laws.{role_grants, role_exists}
use git_single_tenant_templa.Repo.Roles.Rows.{left_join, collect_roles, first_role}
use git_single_tenant_templa.Repo.Roles.Writes.{insert_role}
use git_single_tenant_templa.Service.Common.{is_not_found}
use git_single_tenant_templa.Service.Roles.{
  create_role, require_free_key, check_free_key, create_role_tx,
}

-- What the loop over the requested permissions accepts.
collect_permissions-ok :
    (first set : PermissionSet) (ps : List Permission)
    → collect_permissions first ps ≡ ok set
    → (p : Permission)
    → (has set p ≡ (has first p || has ps p)) × (has ps p ≡ true → valid p ≡ true)
unfolding collect_permissions
collect_permissions-ok first set [] h p = (ground (arith, has_nil p), λ k. cc (has_nil p))
collect_permissions-ok first set (q ∷ ps) h p = elim (Bool-cases (valid q)) [
  | inr unknown ↦ unfold invalid in ground arith
  | inl known ↦
      let accepted : collect_permissions (add first q) ps ≡ ok set = ground arith in
      let rest = collect_permissions-ok (add first q) set ps accepted p in
      (
        ground (arith, rest.0, has-add first q p, has_cons q p ps),
        λ k. elim (Bool-cases (str_eq q p)) [
          | inl equal ↦ rw (← ((str_eq_iff q p).0 equal)) known
          | inr other ↦ rest.1 (ground (arith, has_cons q p ps))
        ],
      )
]

with_names-ok :
    (key name : String) (r : Result PermissionSet) {x : String × String × PermissionSet}
    → with_names key name r ≡ ok x
    → r ≡ ok x.2
with_names-ok key name (ok set) h = ground arith
with_names-ok key name (err e) h = ground arith

-- What validateRoleInput accepts.
abbrev pub Accepted : List Permission → PermissionSet → Type 0
Accepted perms set =
    (p : Permission) → (has set p ≡ has perms p) × (has perms p ≡ true → valid p ≡ true)

pub validate_role_input-Accepted :
    (env : Env) (raw_key raw_name : String) (perms : List Permission) (key name : String)
    (set : PermissionSet)
    → validate_role_input env raw_key raw_name perms ≡ ok (key, name, set)
    → Accepted perms set
unfolding validate_role_input invalid
validate_role_input-Accepted env raw_key raw_name perms key name set h p =
    let k = collect_permissions-ok [] set perms collected p in (ground (arith, k.0, has_nil p), k.1)
  where
    collected : collect_permissions [] perms ≡ ok set
    collected =
        with_names-ok (env.to_lower (env.trim_space raw_key)) (env.trim_space raw_name)
          (collect_permissions [] perms) {x = (key, name, set)} (ground arith)

-- What CreateRole ensures inside its transaction: the row is stored under an id of its own, and
-- role_permissions grants it what was asked for, and every other role what it granted before.
abbrev Created : PermissionSet → Conn → Role → Conn → Type 0
Created set c role d =
    (role.permissions ≡ set)
    × (role.row.is_system ≡ false)
    × (role_exists d.db role.row.id ≡ true)
    × ((i : ℕ) (p : Permission)
        → role_grants d.db i p ≡ (if role.row.id == i then has set p else role_grants c.db i p))

Ensures-insert_role :
    (key name : String) (c : Conn)
    → Ensures
        (λ row d.
          (row.is_system ≡ false)
          × (any (λ r. r.id == row.id) d.db.roles ≡ true)
          × (d.db.role_permissions ≡ c.db.role_permissions))
        (insert_role key name c)
unfolding insert_role
Ensures-insert_role key name c =
    Ensures-if (any (λ r. str_eq r.key key) c.db.roles) (err role_key_taken, c) _
      (λ _. Ensures-err role_key_taken c)
      (λ _. Ensures-ok _ _ (refl, unfold any in ground (arith, ==_refl c.db.next_id), refl))

create_role-Created :
    (key name : String) (set : PermissionSet) (c : Conn)
    → Ensures (Created set c) (Writes.create_role key name set c)
unfolding Writes.create_role
create_role-Created key name set c = Ensures-bind _ _ c (
    Ensures-map _ (Ensures-insert_role key name c) λ row c₁ inserted. Ensures-bind _ _ c₁ (
      Ensures-map _ (Ensures-replace_role_permissions row.id set c₁) λ _ c₂ rows.
        Ensures-pure _ c₂ (
          refl,
          inserted.0,
          unfold role_exists in (ap (λ x. any (λ r. r.id == row.id) x.db.roles) rows ∙ inserted.1),
          λ i p.
              unfold role_grants in
              ap (λ x. any (λ rp. rp.0 == i && str_eq rp.1 p) x.db.role_permissions) rows
              ∙ any-regranted row.id set c₁.db i p
              ∙ ap
                  (λ x. if row.id == i then has set p else any (λ rp. rp.0 == i && str_eq rp.1 p) x)
                  inserted.2,
        )))

check_free_key-reads : (key : String) (c : Conn) → Ensures (λ _ d. d ≡ c) (check_free_key key c)
unfolding check_free_key require_free_key Rows.get_role_by_key is_not_found
check_free_key-reads key c =
    free (collect_roles (flat_map (left_join c.db) (filter (λ r. str_eq r.key key) c.db.roles)))
  where
    free :
        (rs : List Role)
        → Ensures (λ _ d. d ≡ c) (require_free_key (first_role rs c).0 (first_role rs c).1)
    free [] = Ensures-pure tt c refl
    free (r ∷ rs) = Ensures-raise role_key_taken c

create_role_tx-Created :
    (env : Env) (actor : User) (key name : String) (set : PermissionSet) (c : Conn)
    → Ensures (Created set c) (create_role_tx env actor key name set c)
unfolding create_role_tx
create_role_tx-Created env actor key name set c = Ensures-bind _ _ c (
    Ensures-map _ (check_free_key-reads key c) λ _ c₁ read. Ensures-bind _ _ c₁ (
      Ensures-map _ (create_role-Created key name set c₁) λ role c₂ made. Ensures-bind _ _ c₂ (
        Ensures-record_event env _ c₂ (
          Ensures-pure role _
            (unfold role_grants role_exists in subst (λ x. Created set x role c₂) read made)))))

-- When CreateRole succeeds, the role is a custom one, is stored, and holds what was asked for, as
-- the answer and as the tables have it: permissions of the catalog, each of which the caller holds.
-- Every other role grants what it granted before.
pub create_role-has :
    (env : Env) (actor : User) (access : Access) (raw_key raw_name : String)
    (perms : List Permission) (w : World) (role : Role) (w' : World)
    → create_role env actor access raw_key raw_name perms w ≡ (ok role, w')
    → (p : Permission)
    → (role.row.is_system ≡ false)
      × (role_exists w'.db role.row.id ≡ true)
      × (has role.permissions p ≡ has perms p)
      × (has perms p ≡ true → (valid p ≡ true) × (can access p ≡ true))
      × ((i : ℕ)
          → role_grants w'.db i p
            ≡ (if role.row.id == i then has perms p else role_grants w.db i p))
create_role-has env actor access raw_key raw_name perms w role w' h p = made.at role w' h
  where
    Made : Role → World → Type 0
    Made r v =
        (r.row.is_system ≡ false)
        × (role_exists v.db r.row.id ≡ true)
        × (has r.permissions p ≡ has perms p)
        × (has perms p ≡ true → (valid p ≡ true) × (can access p ≡ true))
        × ((i : ℕ)
            → role_grants v.db i p ≡ (if r.row.id == i then has perms p else role_grants w.db i p))

    made : Ensures Made (create_role env actor access raw_key raw_name perms w)
    made =
        unfold create_role in
        Ensures-bind _ _ w (
          Ensures-lift _ w λ x accepted. Ensures-bind _ _ w (
            Ensures-lift _ w λ _ passed.
              Ensures-in_tx env (create_role_tx env actor x.0 x.1 x.2) w (
                Ensures-map _ (create_role_tx-Created env actor x.0 x.1 x.2 w.conn)
                  λ r d facts v left.
                    let a =
                      validate_role_input-Accepted env raw_key raw_name perms x.0 x.1 x.2 accepted
                        p in
                    (
                      facts.1,
                      ap (λ y. role_exists y.db r.row.id) left ∙ facts.2,
                      ap (λ s. has s p) facts.0 ∙ a.0,
                      (λ k. (
                        a.1 k,
                        unfold can in (check_escalation_iff access x.2).0 passed p (a.0 ∙ k),
                      )),
                      λ i.
                          ap (λ y. role_grants y.db i p) left
                          ∙ facts.3 i p
                          ∙ ap (λ b. if r.row.id == i then b else role_grants w.db i p) a.0,
                    ))))
